-- ===== src/Examples/Mission.antt =====
-- internal/mission on a mission of one item.
use yalb_link.Prelude.{
  ℕ, pos, ◌≡◌, ◌≢◌, true, Option, none, some, List, [], ◌∷◌, refl, if◌then◌else◌,
}
use mathlib.Core.Option.{map as option_map}
use yalb_link.Codec.{Target, WriteError}
use yalb_link.Codec.Encode.{Message}
use yalb_link.Proto.Transactions.{
  MissionCount, MissionItem, MissionSnapshot, ProtocolEvent, Response,
}
use yalb_link.GoMap
use yalb_link.Routes.{Table, new_table, upsert}
use yalb_link.Vehicle.Event.{Event}
use yalb_link.Mission.Key.{Key, DownloadError, key_eq}
use yalb_link.Mission.Coordinator.{
  Coordinator, new_coordinator, claim, offer, correlate, hand_over, publish, is_ours,
  mission_response,
}
use yalb_link.Mission.Transfer.{
  Arrival, response, timer_fired, Wire, ok, err, waiting, run, write, fetch, await, await_count,
  await_item, count_verdict, item_verdict,
}
use yalb_link.Mission.Download.{download, slot_key}
use yalb_link.Mission.Sound.{Downloaded, run_sound}
use yalb_link.Mission.Complete.{run_complete, serve, finished}
use yalb_link.Mission.Settles.{run_settles}
use yalb_link.Mission.Slots.{slot, download_frees}
use yalb_link.Mission.Correlation.{
  start, after, claims, publishes, Holds, queued_belong, publish_delivers, concerns, queued,
}

abbrev accepts_all : ℕ → Option WriteError
accepts_all n = none

abbrev vehicle : Target
vehicle = record { system_id = 1; component_id = 1 }

abbrev count : MissionCount
count = record { count = 1; mission_type = 0; target_system = 255; target_component = 190 }

abbrev item : MissionItem
item = record {
  seq = 0;
  frame = 6;
  command = 16;
  current = true;
  autocontinue = true;
  param1 = 0;
  param2 = 0;
  param3 = 0;
  param4 = 0;
  x = 0;
  y = 0;
  z = 0;
  mission_type = 0;
  target_system = 255;
  target_component = 190;
}

abbrev from_vehicle : Response → ProtocolEvent
from_vehicle r = record {
  vehicle_id = some (record { system_id = 1; component_id = 1 });
  payload = some r;
}

abbrev count_event : ProtocolEvent
count_event = from_vehicle (Response.mission_count count)

abbrev item_event : ProtocolEvent
item_event = from_vehicle (Response.mission_item item)

-- A count that comes twice.
abbrev script : List Arrival
script = response count_event ∷ response count_event ∷ response item_event ∷ []

abbrev snapshot : MissionSnapshot
snapshot = record {
  vehicle_id = record { system_id = 1; component_id = 1 };
  mission_type = 0;
  items = item ∷ [];
  observed_at = 77;
}

run_complete_example :
    (ws : List Message) × (run accepts_all vehicle 0 77 (record { arrivals = script; written = [] })
      ≡ (ok snapshot, record { arrivals = []; written = ws }))
run_complete_example =
    run_complete accepts_all (λ n. refl) vehicle 0 77 [] count_event count (item ∷ [])
      (response count_event ∷ response item_event ∷ []) [] [] tt refl refl
      (serve (count_event ∷ []) item_event item (tt, tt) refl refl finished)

abbrev after_run : Wire
after_run = (run accepts_all vehicle 0 77 (record { arrivals = script; written = [] })).1

script-runs :
    run accepts_all vehicle 0 77 (record { arrivals = script; written = [] })
    ≡ (ok snapshot, after_run)
unfolding run write fetch await await_count await_item count_verdict item_verdict
script-runs = refl

run_sound_example :
    Downloaded accepts_all vehicle 0 77
      (record { arrivals = script; written = [] })
      snapshot
      after_run
run_sound_example =
    run_sound accepts_all vehicle 0 77 (record { arrivals = script; written = [] }) after_run
      snapshot script-runs

run_settles_example :
    (run accepts_all vehicle 0 77
      (record { arrivals = response count_event ∷ timer_fired ∷ []; written = [] })).0
    ≢ waiting
run_settles_example =
    run_settles accepts_all vehicle 0 77
      (record { arrivals = response count_event ∷ timer_fired ∷ []; written = [] }) tt

abbrev own_slot : Key
own_slot = slot_key vehicle 0

abbrev held : Coordinator
held = record { inflight = GoMap.insert own_slot [] [] }

held-claimed : claim own_slot new_coordinator ≡ some held
unfolding claim new_coordinator GoMap.lookup
held-claimed = refl

abbrev routes : Table
routes =
    upsert
      (record {
        link = "udp:1";
        src_ip = "";
        src_port = pos 0;
        last_seen_ms = 0;
        key = record { sys_id = vehicle.system_id; comp_id = vehicle.component_id };
      })
      1000 new_table

-- The vehicle announces its mission and then falls silent: the slot was held, and is free again.
abbrev silence : List Arrival
silence = response count_event ∷ timer_fired ∷ []

silence-ends :
    (download accepts_all true vehicle 0 5000 77 silence routes new_coordinator).0
    ≡ err DownloadError.timeout
unfolding download yalb_link.Mission.Download.open_download yalb_link.Routes.resolve
    yalb_link.Routes.lookup GoMap.lookup upsert GoMap.insert new_table yalb_link.Routes.expired
    claim new_coordinator run write await_count fetch await_item
silence-ends = refl

download_frees_example :
    slot own_slot (download accepts_all true vehicle 0 5000 77 silence routes new_coordinator).1
    ≡ slot own_slot new_coordinator
download_frees_example =
    download_frees accepts_all vehicle 0 5000 77 silence new_coordinator own_slot true routes tt

publish_delivers_example : slot own_slot (publish (Event.protocol count_event) held) ≡ (
    if concerns own_slot count_event
    then option_map (queued count_event) (slot own_slot held)
    else slot own_slot held)
publish_delivers_example = publish_delivers count_event held own_slot

delivered : slot own_slot (publish (Event.protocol count_event) held) ≡ some (count_event ∷ [])
unfolding publish correlate mission_response is_ours hand_over offer GoMap.lookup GoMap.insert
delivered = refl

queued_belong_example : Holds own_slot (count_event ∷ [])
queued_belong_example =
    queued_belong own_slot
      (after (after start (claims own_slot held-claimed)) (publishes (Event.protocol count_event)))
      delivered
