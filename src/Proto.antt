-- ===== src/Proto.antt =====
-- The protobuf messages the Go code passes around (proto/gcs/v1/*.proto and their generated structs
-- in internal/gen/gcs/v1). A uint32 or an open enum is its number, an int32 an integer, a pointer
-- field that may be nil an `Option`. A float is its bit pattern: the modelled code only copies floats.
-- A timestamp is its nanoseconds since the epoch.
pub mod Telemetry
pub mod Transactions
use yalb_link.Prelude.{ℕ, Bool, Option, none, some}

abbrev pub Float32 : Type 0
Float32 = ℕ

abbrev pub Float64 : Type 0
Float64 = ℕ

abbrev pub Timestamp : Type 0
Timestamp = ℕ

-- vehicle.proto

pub record VehicleId : Type 0 where
  pub system_id : ℕ
  pub component_id : ℕ

-- The getters read 0 through a nil id.
abbrev pub get_system_id : Option VehicleId → ℕ
get_system_id none = 0
get_system_id (some v) = v.system_id

abbrev pub get_component_id : Option VehicleId → ℕ
get_component_id none = 0
get_component_id (some v) = v.component_id

pub record HeartbeatState : Type 0 where
  pub id : Option VehicleId
  pub type : ℕ  -- MavType
  pub autopilot : ℕ
  pub system_status : ℕ  -- MavState
  pub armed : Bool
  pub manual_input_enabled : Bool
  pub hil_enabled : Bool
  pub stabilize_enabled : Bool
  pub guided_enabled : Bool
  pub auto_enabled : Bool
  pub test_enabled : Bool
  pub custom_mode_enabled : Bool
  pub custom_mode : ℕ
  pub mavlink_version : ℕ
  pub observed_at : Option Timestamp

-- fleet.proto

pub data FleetEventType : Type 0 where
  vehicle_discovered vehicle_lost vehicle_recovered heartbeat_updated : FleetEventType

pub record FleetEvent : Type 0 where
  pub type : FleetEventType
  pub vehicle_id : Option VehicleId
  pub heartbeat : Option HeartbeatState
  pub occurred_at : Option Timestamp
