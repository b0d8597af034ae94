-- ===== src/Examples/Recording.antt =====
-- internal/recording on one short flight.
use yalb_link.Prelude.{
  ◌/◌, ℕ, ◌+◌, ◌<◌, ◌≡◌, true, false, Option, none, some, List, [], ◌∷◌, ◌++◌, arith, refl, length,
  is_some, pos, inr, inl, nat_eq,
}
use yalb_link.GoMap
use yalb_link.Proto.{
  FleetEvent, FleetEventType, HeartbeatState, Timestamp, VehicleId, vehicle_discovered,
  vehicle_lost, vehicle_recovered, heartbeat_updated,
}
use yalb_link.Vehicle.Event.{Event}
use yalb_link.Recording.Accepted.{accepted}
use yalb_link.Recording.Database.{Database, DbError, Row, Status, WriteRecord, keep}
use yalb_link.Recording.Delivered.{run-Sub}
use yalb_link.Recording.Ends.{sweep_rounds-is_some}
use yalb_link.Recording.Settled.{Settled, sweep-Settled}
use yalb_link.Recording.Flushed.{trace}
use yalb_link.Recording.Loop.{take_command}
use yalb_link.Recording.Numbered.{run-Rising}
use yalb_link.Recording.Passes.{Pass, run_passes, run_passes-Bounded, takes}
use yalb_link.Recording.Limit.{Bounded}
use yalb_link.Recording.Persisted.{Rising, written}
use yalb_link.Recording.Publish.{Format, Message, Wire, marshal, publish, draft}
use yalb_link.Recording.Replay.{ReplayError, Replayed, decode, decode_rows}
use yalb_link.Recording.Retention.{SweepEnv, sweep, sweep_rounds}
use yalb_link.Recording.Roundtrip.{decode-publish, decode_rows-first_error}
use yalb_link.Recording.Spared.{SameRecording, sweep-spares}
use yalb_link.Recording.Stops.{stop-persists, take_records, taken}
use yalb_link.Recording.Store.{
  Active, CommandError, Env, Limits, Store, WriterCommand, command_item, new_store, record_item,
}
use yalb_link.Recording.Sub.{Sub}
use yalb_link.Recording.World.{Op, World, new_world, run}
use yalb_link.Recording.Writer.{flush, is_terminal, of_id, take_record}

-- A format of the discovery events that carry a time and nothing else.
abbrev encode_fields :
    FleetEventType → Option VehicleId → Option HeartbeatState → Option Timestamp → Option (List ℕ)
encode_fields vehicle_discovered none none (some at) = some (at ∷ [])
encode_fields _ _ _ _ = none

abbrev discovery : ℕ → FleetEvent
discovery at = record {
  type = vehicle_discovered;
  vehicle_id = none;
  heartbeat = none;
  occurred_at = some at;
}

abbrev decode_bytes : List ℕ → Option FleetEvent
decode_bytes (at ∷ []) = some (discovery at)
decode_bytes _ = none

decode_bytes-encode_fields :
    (type : FleetEventType) (id : Option VehicleId) (hb : Option HeartbeatState)
    (at : Option Timestamp) (bytes : List ℕ)
    → encode_fields type id hb at ≡ some bytes
    → decode_bytes bytes
      ≡ some (record { type = type; vehicle_id = id; heartbeat = hb; occurred_at = at })
decode_bytes-encode_fields vehicle_discovered none none (some at) bytes h = ground arith
decode_bytes-encode_fields vehicle_discovered none none none bytes h = absurd (cc)
decode_bytes-encode_fields vehicle_discovered none (some hb) at bytes h = absurd (cc)
decode_bytes-encode_fields vehicle_discovered (some id) hb at bytes h = absurd (cc)
decode_bytes-encode_fields vehicle_lost id hb at bytes h = absurd (cc)
decode_bytes-encode_fields vehicle_recovered id hb at bytes h = absurd (cc)
decode_bytes-encode_fields heartbeat_updated id hb at bytes h = absurd (cc)

abbrev discoveries : Format FleetEvent
discoveries = record {
  marshal = λ e. encode_fields e.type e.vehicle_id e.heartbeat e.occurred_at;
  unmarshal = decode_bytes;
  reads_back = λ e. decode_bytes-encode_fields e.type e.vehicle_id e.heartbeat e.occurred_at;
}

no_bytes : {M : Type 0} (m : M) (bytes : List ℕ) → none ≡ some bytes → none ≡ some m
no_bytes m bytes h = absurd (cc)

abbrev nothing : {M : Type 0} → Format M
nothing = record { marshal = λ m. none; unmarshal = λ bytes. none; reads_back = no_bytes }

abbrev wire : Wire
wire = record { fleet = discoveries; telemetry = nothing; command = nothing; is_valid = λ at. true }

abbrev small : Limits
small = record {
  queue = 2;
  batch_size = 2;
  max_events = 3;
  max_bytes = 100;
  max_duration = 100;
  max_total_bytes = pos 1000;
  max_total_age = pos 5;
  max_recordings = pos 10;
}

abbrev empty : Database
empty = record { recordings = []; events = []; last_id = 0 }

abbrev calm : Env
calm = record { write_fault = λ id. none; mark_fault = λ id. none; now = λ id. 7 }

abbrev no_faults : ℕ → Option DbError
no_faults n = none

abbrev flight : List Op
flight =
    Op.starts none "first" 5
    ∷ Op.sends
    ∷ Op.takes calm no_faults false
    ∷ Op.answered
    ∷ Op.publishes (Event.fleet (discovery 6))
    ∷ Op.publishes (Event.fleet (discovery 8))
    ∷ Op.takes calm no_faults false
    ∷ Op.takes calm no_faults false
    ∷ Op.stops
    ∷ Op.sends
    ∷ Op.takes calm no_faults false
    ∷ Op.answered
    ∷ []

abbrev start : World
start = new_world (new_store small empty)

run-Sub_example :
    Sub
      (trace 1 (run wire flight start).store)
      (trace 1 start.store ++ of_id 1 (accepted wire flight start))
run-Sub_example = run-Sub wire flight start 1

run-Rising_example : Rising 0 (trace 1 (run wire flight (new_world (new_store small empty))).store)
run-Rising_example = run-Rising wire small empty flight 1 refl

abbrev first_recording : Active
first_recording = record { id = 1; next_seq = 0 }

abbrev recording_store : Store
recording_store = record (new_store small empty) { current = some first_recording }

discovery-marshal : marshal wire (Message.fleet (discovery 6)) ≡ some (6 ∷ [])
unfolding marshal
discovery-marshal = refl

recording_store-ready :
    (recording_store.current ≡ some first_recording)
    × (recording_store.closed ≡ false)
    × (length recording_store.items < recording_store.limits.queue)
unfolding new_store
recording_store-ready = (refl, refl, omega arith)

decode-publish_example :
    (r : WriteRecord) × ((publish wire (Event.fleet (discovery 6)) recording_store).items
      ≡ recording_store.items ++ (record_item r ∷ []))
    × (decode wire r ≡ inl (Message.fleet (discovery 6)))
    × (r.recording_id ≡ 1)
    × (r.seq ≡ 0 + 1)
    × (r.occurred_at ≡ 6 / 1000000)
decode-publish_example =
    decode-publish wire (Event.fleet (discovery 6)) (Message.fleet (discovery 6)) 6 (6 ∷ [])
      recording_store first_recording (refl, refl) refl discovery-marshal recording_store-ready.0
      recording_store-ready.1 recording_store-ready.2

abbrev row : ℕ → WriteRecord
row seq = record (draft (Message.fleet (discovery 6)) 6 (6 ∷ [])) { recording_id = 1; seq = seq }

abbrev strange : WriteRecord
strange = record (row 2) { kind = "parameter" }

rows-decode :
    (decode wire (row 1) ≡ inl (Message.fleet (discovery 6)))
    × (decode wire strange ≡ inr (ReplayError.unknown_kind 2))
unfolding decode
rows-decode = (refl, refl)

decode_rows-first_error_example :
    decode_rows wire ((row 1 ∷ []) ++ (strange ∷ row 3 ∷ []))
    ≡ Replayed.failed (ReplayError.unknown_kind 2)
decode_rows-first_error_example =
    decode_rows-first_error wire (row 1 ∷ []) strange (row 3 ∷ []) (ReplayError.unknown_kind 2)
      ((Message.fleet (discovery 6), rows-decode.0), tt) rows-decode.1

abbrev stop_one : WriterCommand
stop_one = record {
  ticket = 0;
  started = 0;
  start_id = 0;
  stop_id = 1;
  delete_id = 0;
  reason = "requested";
  close = false;
}

abbrev two_rows : List (Env × WriteRecord)
two_rows = (calm, row 1) ∷ (calm, row 2) ∷ []

two_rows-taken :
    (is_terminal 1 (take_records two_rows recording_store) ≡ false)
    × Rising 0 (written 1 recording_store ++ of_id 1 (taken two_rows))
unfolding take_records take_record flush new_store keep GoMap.lookup GoMap.insert
two_rows-taken = (refl, (omega arith, (omega arith, tt)))

stop-persists_example :
    (of_id 1
        (take_command calm no_faults false stop_one
          (take_records two_rows recording_store)).db.events
      ≡ written 1 recording_store ++ of_id 1 (taken two_rows))
    × (is_terminal 1
          (take_command calm no_faults false stop_one (take_records two_rows recording_store))
        ≡ true)
stop-persists_example =
    stop-persists two_rows calm no_faults false stop_one recording_store refl refl refl
      (refl, (refl, tt)) refl two_rows-taken.0 two_rows-taken.1

abbrev counted_store : Store
counted_store = record recording_store {
  writer = record recording_store.writer {
    totals = (1, record { started = 5; events = 0; bytes = 0 }) ∷ [];
  };
}

counted_store-Bounded : Bounded 1 counted_store
unfolding new_store keep GoMap.lookup
counted_store-Bounded = (omega arith, (omega arith, inr (omega arith, omega arith)))

abbrev three_passes : List Pass
three_passes =
    takes calm no_faults false (record_item (row 1))
    ∷ takes calm no_faults false (record_item (row 2))
    ∷ takes calm no_faults false (command_item stop_one)
    ∷ []

run_passes-Bounded_example : Bounded 1 (run_passes three_passes counted_store)
run_passes-Bounded_example =
    run_passes-Bounded three_passes 1 counted_store (refl, (refl, (refl, tt))) counted_store-Bounded

abbrev flown : ℕ → Status → Row
flown id status = record {
  id = id;
  name = "flight";
  started_at = id;
  stopped_at = none;
  status = status;
  stop_reason = none;
}

abbrev two_flights : Database
two_flights = record {
  recordings = flown 1 Status.stopped ∷ flown 2 Status.active ∷ [];
  events = row 1 ∷ record (row 1) { recording_id = 2 } ∷ [];
  last_id = 2;
}

abbrev daily : SweepEnv
daily = record {
  now = λ round. 9000000;
  select_fault = λ round. none;
  size_fault = λ round. none;
  delete_faults = λ round n. none;
  page_count = λ db. length db.events;
  freelist_count = λ db. 0;
  page_size = 4096;
}

sweep_rounds-is_some_example : is_some (sweep_rounds small daily 3 0 two_flights) ≡ true
sweep_rounds-is_some_example = sweep_rounds-is_some small daily 3 0 two_flights (omega arith)

-- Of the two stopped flights the older one is too old; the younger one stays.
abbrev three_flights : Database
three_flights = record {
  recordings = flown 9 Status.stopped ∷ flown 1 Status.stopped ∷ flown 2 Status.active ∷ [];
  events = row 1 ∷ [];
  last_id = 9;
}

daily-fine : (sweep small daily three_flights).err ≡ CommandError.fine
unfolding sweep
daily-fine = refl

daily-leaves :
    (sweep small daily three_flights).db.recordings
    ≡ flown 9 Status.stopped ∷ flown 2 Status.active ∷ []
unfolding sweep
daily-leaves = refl

sweep-Settled_example : Settled small daily (sweep small daily three_flights).db
sweep-Settled_example = sweep-Settled small daily three_flights daily-fine

sweep-spares_example : SameRecording 2 two_flights (sweep small daily two_flights).db
sweep-spares_example =
    sweep-spares small daily 2 two_flights ((λ retired. refl), ((λ retired. absurd (cc)), tt))
