-- ===== src/Vehicle/Event.antt =====
-- internal/vehicle/event.go: the outputs of the fold. The Go struct has a pointer for each kind and
-- exactly one of them is set; here the kinds are constructors.
use yalb_link.Prelude.{ℕ, Option, some, String, ◌*◌}
use yalb_link.Proto.{VehicleId, HeartbeatState, FleetEventType, FleetEvent, Timestamp}
use yalb_link.Proto.Telemetry.{TelemetryEvent}
use yalb_link.Proto.Transactions.{ProtocolEvent, CommandTransaction}

pub data WarningType : Type 0 where
  unspecified source_conflict : WarningType

pub record Warning : Type 0 where
  pub vehicle_id : VehicleId
  pub previous : String
  pub current : String
  pub occurred_ms : ℕ
  pub type : WarningType

pub data Event : Type 0 where
  fleet : FleetEvent → Event
  telemetry : TelemetryEvent → Event
  protocol : ProtocolEvent → Event
  command : CommandTransaction → Event
  warning : Warning → Event

-- timestampOf
abbrev pub timestamp_of : ℕ → Timestamp
timestamp_of now_ms = now_ms * 1000000

unfoldable pub fleet_event : FleetEventType → VehicleId → Option HeartbeatState → ℕ → Event
fleet_event t id hb now_ms = Event.fleet (record {
  type = t;
  vehicle_id = some id;
  heartbeat = hb;
  occurred_at = some (timestamp_of now_ms);
})
