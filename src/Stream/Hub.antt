-- ===== src/Stream/Hub.antt =====
-- internal/stream/hub.go: the retained state and the subscribers. A subscriber is named by the number of
-- its allocation, in the place of its pointer, and its channel is the list of the events it holds; `taken`
-- is what its reader has received so far. Marshalled JSON is a text.
use yalb_link.Prelude.{
  ℕ, zero, suc, ◌+◌, ◌≡◌, ◌↔◌, Bool, true, false, ◌&&◌, Option, none, some, List, [], ◌∷◌, ◌++◌,
  ◌==◌, Eq, arith, ltb, leb, map, length, if◌then◌else◌, is_some, String, string_eq, str_le, sort,
}
use yalb_link.GoMap
use yalb_link.GoMap.{GoMap}
use yalb_link.Proto.{VehicleId, FleetEvent, get_system_id, get_component_id}
use yalb_link.Proto.Telemetry.{Payload, TelemetryEvent}
use yalb_link.Proto.Transactions.{CommandTransaction}
use yalb_link.Vehicle.Event.{Event as VehicleEvent}

-- Event: its name is its constructor.
pub data Event : Type 0 where
  fleet : FleetEvent → Event
  telemetry : TelemetryEvent → Event
  command : CommandTransaction → Event
  acquisition : String → Event

pub record VehicleKey : Type 0 where
  pub sys_id : ℕ
  pub comp_id : ℕ

abbrev pub key_beq : VehicleKey → VehicleKey → Bool
key_beq a b = a.sys_id == b.sys_id && a.comp_id == b.comp_id

pub key_beq_iff : (a b : VehicleKey) → (key_beq a b ≡ true) ↔ (a ≡ b)
key_beq_iff a b = ground arith

instance abbrev pub key_eq : Eq VehicleKey
key_eq = record { beq = key_beq; beq_iff = key_beq_iff }

-- compare says that a comes before b or is its equal.
abbrev pub key_le : VehicleKey → VehicleKey → Bool
key_le a b = if a.sys_id == b.sys_id then leb a.comp_id b.comp_id else ltb a.sys_id b.sys_id

-- `registered` is membership in Hub.subs, `closed` that the channel was closed.
pub record Subscriber : Type 0 where
  pub events : List Event
  pub cap : ℕ
  pub registered : Bool
  pub closed : Bool
  pub taken : List Event

pub record Hub : Type 0 where
  pub acquisition : GoMap String String
  pub fleet : GoMap VehicleKey FleetEvent
  pub telemetry : GoMap VehicleKey (GoMap String TelemetryEvent)
  pub subs : List Subscriber
  pub queue : ℕ

-- DefaultQueue
abbrev pub default_queue : ℕ
default_queue = 256

unfoldable pub new_hub : ℕ → Hub
new_hub queue = record {
  acquisition = [];
  fleet = [];
  telemetry = [];
  subs = [];
  queue = if ltb 0 queue then queue else default_queue;
}

abbrev pub key_of : Option VehicleId → VehicleKey
key_of id = record { sys_id = get_system_id id; comp_id = get_component_id id }

abbrev pub key_of_fleet : FleetEvent → VehicleKey
key_of_fleet ev = key_of ev.vehicle_id

abbrev pub key_of_telemetry : TelemetryEvent → VehicleKey
key_of_telemetry ev = key_of ev.vehicle_id

abbrev pub payload_family : Option Payload → String
payload_family none = ""
payload_family (some (Payload.attitude _)) = "attitude"
payload_family (some (Payload.global_position _)) = "global_position"
payload_family (some (Payload.gps_raw _)) = "gps_raw"
payload_family (some (Payload.vfr_hud _)) = "vfr_hud"
payload_family (some (Payload.nav_controller_output _)) = "nav_controller_output"
payload_family (some (Payload.system_status _)) = "system_status"
payload_family (some (Payload.battery_status _)) = "battery_status"
payload_family (some (Payload.radio_status _)) = "radio_status"
payload_family (some (Payload.ekf_status_report _)) = "ekf_status_report"
payload_family (some (Payload.mission_current _)) = "mission_current"
payload_family (some (Payload.home_position _)) = "home_position"
payload_family (some (Payload.status_text _)) = "status_text"

abbrev pub family_of : TelemetryEvent → String
family_of ev = payload_family ev.payload

-- The families of a vehicle; a vehicle without any reads as an empty map.
abbrev pub families_of : Option (GoMap String TelemetryEvent) → GoMap String TelemetryEvent
families_of none = []
families_of (some families) = families

module _ {K V : Type 0} ⦃e : Eq K⦄ where
  -- for k in ks { if v, ok := m[k]; ok { out = append(out, f(v)) } }
  unfoldable pub gather : (V → Event) → GoMap K V → List K → List Event
  gather f m [] = []
  gather f m (k ∷ ks) =
      let later = gather f m ks in elim (GoMap.lookup k m) [ none ↦ later | some v ↦ f v ∷ later ]

-- The vehicles with telemetry but no fleet event.
unfoldable pub unannounced :
    GoMap VehicleKey FleetEvent → GoMap VehicleKey (GoMap String TelemetryEvent) → List VehicleKey
unannounced known [] = []
unannounced known ((k, families) ∷ m) =
    let later = unannounced known m in if is_some (GoMap.lookup k known) then later else k ∷ later

unfoldable pub sorted_keys : Hub → List VehicleKey
sorted_keys h = sort key_le (GoMap.keys h.fleet ++ unannounced h.fleet h.telemetry)

unfoldable pub telemetry_of : Hub → List VehicleKey → List Event
unfolding gather
telemetry_of h [] = []
telemetry_of h (k ∷ ks) =
    let families = families_of (GoMap.lookup k h.telemetry) in
    gather Event.telemetry families (sort str_le (GoMap.keys families)) ++ telemetry_of h ks

unfoldable pub snapshot : Hub → List Event
unfolding gather telemetry_of sorted_keys
snapshot h =
    gather Event.fleet h.fleet (sorted_keys h)
    ++ telemetry_of h (sorted_keys h)
    ++ gather Event.acquisition h.acquisition (sort str_le (GoMap.keys h.acquisition))

-- The new subscriber is the last of `subs`.
unfoldable pub subscribe : Hub → Hub
unfolding snapshot
subscribe h =
    let bootstrap = snapshot h in
    record h {
      subs =
          h.subs
          ++ (record {
            events = bootstrap;
            cap = length bootstrap + h.queue;
            registered = true;
            closed = false;
            taken = [];
          }
              ∷ []);
    }

-- What delete(h.subs, sub) and sub.close() leave of a subscriber.
unfoldable pub dropped : Subscriber → Subscriber
dropped s = record s { registered = false; closed = true }

unfoldable pub at : ℕ → (Subscriber → Subscriber) → List Subscriber → List Subscriber
at i f [] = []
at zero f (s ∷ ss) = f s ∷ ss
at (suc i) f (s ∷ ss) = s ∷ at i f ss

unfoldable pub unsubscribe : ℕ → Hub → Hub
unfolding at dropped
unsubscribe i h = record h { subs = at i dropped h.subs }

-- len(h.subs)
unfoldable pub subscribers : List Subscriber → ℕ
subscribers [] = 0
subscribers (s ∷ ss) = let others = subscribers ss in if s.registered then ℕ.suc others else others

-- One round of deliver's loop.
unfoldable pub send : Event → Subscriber → Subscriber
unfolding dropped
send ev s =
    if s.registered
    then (if ltb (length s.events) s.cap
        then record s { events = s.events ++ (ev ∷ []) }
        else dropped s)
    else s

unfoldable pub deliver : Event → Hub → Hub
unfolding send
deliver ev h = record h { subs = map (send ev) h.subs }

unfoldable pub publish : VehicleEvent → Hub → Hub
unfolding deliver
publish (VehicleEvent.fleet ev) h =
    deliver (Event.fleet ev) (record h { fleet = GoMap.insert (key_of_fleet ev) ev h.fleet })
publish (VehicleEvent.telemetry ev) h =
    let k = key_of_telemetry ev in
    let families = families_of (GoMap.lookup k h.telemetry) in
    deliver (Event.telemetry ev) (record h {
      telemetry = GoMap.insert k (GoMap.insert (family_of ev) ev families) h.telemetry;
    })
publish (VehicleEvent.command tx) h = deliver (Event.command tx) h
publish _ h = h

-- PublishAcquisition, with the marshalled status.
unfoldable pub publish_acquisition : String → String → Hub → Hub
unfolding deliver
publish_acquisition id json h =
    deliver (Event.acquisition json) (record h { acquisition = GoMap.insert id json h.acquisition })

-- Close
unfoldable pub close : Hub → Hub
unfolding dropped
close h = record h { subs = map (λ s. if s.registered then dropped s else s) h.subs }

-- A reader takes the first event of its channel, if there is one.
unfoldable pub taken_by : List Event → Subscriber → Subscriber
taken_by [] s = s
taken_by (ev ∷ rest) s = record s { events = rest; taken = s.taken ++ (ev ∷ []) }

unfoldable pub receive : ℕ → Hub → Hub
unfolding at taken_by
receive i h = record h { subs = at i (λ s. taken_by s.events s) h.subs }
