-- ===== src/Mission/Coordinator.antt =====
-- The slots of internal/mission/coordinator.go: claim, release, and Publish, which hands a response to
-- the download it belongs to. A download's channel is the list of the responses it holds.
use yalb_link.Prelude.{
  ℕ, ◌%◌, Bool, not, ◌||◌, Option, none, some, List, [], ◌∷◌, ◌++◌, ◌==◌, ltb, length,
  if◌then◌else◌,
}
use yalb_link.GoMap
use yalb_link.GoMap.{GoMap}
use yalb_link.Codec.{Target, gcs_system_id, gcs_component_id}
use yalb_link.Proto.{VehicleId}
use yalb_link.Proto.Transactions.{Response, ProtocolEvent}
use yalb_link.Vehicle.Event.{Event}
use yalb_link.Mission.Key.{Key, key_eq}

-- eventBuffer
abbrev pub event_buffer : ℕ
event_buffer = 8

pub record Coordinator : Type 0 where
  pub inflight : GoMap Key (List ProtocolEvent)

unfoldable pub new_coordinator : Coordinator
new_coordinator = record { inflight = [] }

unfoldable pub claim_slot : Key → Coordinator → Option (List ProtocolEvent) → Option Coordinator
claim_slot k c (some queue) = none
claim_slot k c none = some (record c { inflight = GoMap.insert k [] c.inflight })

-- `none` is ErrInFlight.
unfoldable pub claim : Key → Coordinator → Option Coordinator
unfolding claim_slot
claim k c = claim_slot k c (GoMap.lookup k c.inflight)

unfoldable pub release : Key → Coordinator → Coordinator
release k c = record c { inflight = GoMap.delete k c.inflight }

-- inFlightCount
unfoldable pub in_flight_count : Coordinator → ℕ
in_flight_count c = GoMap.size c.inflight

-- Targets are cut to a byte, as uint8(...) does.
abbrev pub target_of : ℕ → ℕ → Target
target_of system component = record { system_id = system % 256; component_id = component % 256 }

abbrev pub response_of : Option Response → Option (ℕ × Target)
response_of (some (Response.mission_count m)) =
    some (m.mission_type, target_of m.target_system m.target_component)
response_of (some (Response.mission_item m)) =
    some (m.mission_type, target_of m.target_system m.target_component)
response_of (some (Response.mission_ack m)) =
    some (m.mission_type, target_of m.target_system m.target_component)
response_of _ = none

-- missionResponse
unfoldable pub mission_response : ProtocolEvent → Option (ℕ × Target)
mission_response ev = response_of ev.payload

unfoldable pub is_ours : Target → Bool
is_ours t = not (not (t.system_id == gcs_system_id) || not (t.component_id == gcs_component_id))

abbrev pub sender_key : VehicleId → ℕ → Key
sender_key id mission_type = record {
  sys_id = id.system_id % 256;
  comp_id = id.component_id % 256;
  mission_type = mission_type;
}

-- The send that never blocks: a full queue drops the response.
unfoldable pub offer : ProtocolEvent → List ProtocolEvent → List ProtocolEvent
offer ev queue = if ltb (length queue) event_buffer then queue ++ (ev ∷ []) else queue

unfoldable pub hand_over :
    Key → ProtocolEvent → Coordinator → Option (List ProtocolEvent) → Coordinator
hand_over k ev c none = c
hand_over k ev c (some queue) = record c { inflight = GoMap.insert k (offer ev queue) c.inflight }

unfoldable pub correlate :
    ProtocolEvent → Coordinator → Option VehicleId → Option (ℕ × Target) → Coordinator
unfolding hand_over
correlate ev c none r = c
correlate ev c (some id) none = c
correlate ev c (some id) (some (mission_type, target)) =
    let k = sender_key id mission_type in
    if is_ours target then hand_over k ev c (GoMap.lookup k c.inflight) else c

unfoldable pub publish : Event → Coordinator → Coordinator
unfolding correlate
publish (Event.protocol ev) c = correlate ev c ev.vehicle_id (mission_response ev)
publish _ c = c
