-- ===== src/Proto/Transactions.antt =====
-- commands.proto, missions.proto, parameters.proto and protocol.proto: the transaction responses of
-- a vehicle, the operator's command transactions, and a downloaded mission.
use yalb_link.Prelude.{ℕ, ℤ, Bool, Option, List, String}
use yalb_link.Proto.{Float32, Float64, Timestamp, VehicleId}

-- `progress` is 255 where it is unknown.
pub record CommandAck : Type 0 where
  pub command : ℕ  -- MavCmd
  pub result : ℕ  -- MavResult
  pub progress : ℕ
  pub result_param2 : ℤ
  pub target_system : ℕ
  pub target_component : ℕ

pub data ArmState : Type 0 where
  unspecified armed disarmed : ArmState

pub record CommandResolution : Type 0 where
  pub observed_state : ArmState
  pub operator_label : String
  pub attested_at : Timestamp
  pub quarantine_until : Timestamp

pub data CommandState : Type 0 where
  pending accepted rejected timed_out cancelled send_failed : CommandState

pub record CommandTransaction : Type 0 where
  pub id : ℕ
  pub vehicle_id : VehicleId
  pub command : ℕ
  pub state : CommandState
  pub result : ℕ
  pub result_param2 : ℤ
  pub issued_at : Timestamp
  pub settled_at : Option Timestamp
  pub requested_state : ArmState
  pub operator_label : String
  pub registry_epoch : String
  pub resolution : Option CommandResolution

pub record MissionItem : Type 0 where
  pub seq : ℕ
  pub frame : ℕ
  pub command : ℕ
  pub current : Bool
  pub autocontinue : Bool
  pub param1 : Float32
  pub param2 : Float32
  pub param3 : Float32
  pub param4 : Float32
  pub x : Float64
  pub y : Float64
  pub z : Float32
  pub mission_type : ℕ
  pub target_system : ℕ
  pub target_component : ℕ

pub record MissionCount : Type 0 where
  pub count : ℕ
  pub mission_type : ℕ
  pub target_system : ℕ
  pub target_component : ℕ

pub record MissionAck : Type 0 where
  pub result : ℕ  -- MavMissionResult
  pub mission_type : ℕ
  pub target_system : ℕ
  pub target_component : ℕ

pub record MissionSnapshot : Type 0 where
  pub vehicle_id : VehicleId
  pub mission_type : ℕ
  pub items : List MissionItem
  pub observed_at : Timestamp

pub record ParameterValue : Type 0 where
  pub param_id : String
  pub param_value : Float32
  pub param_type : ℕ
  pub param_count : ℕ
  pub param_index : ℕ

-- The oneof of the response envelope.
pub data Response : Type 0 where
  param_value : ParameterValue → Response
  mission_count : MissionCount → Response
  mission_item : MissionItem → Response
  mission_ack : MissionAck → Response
  command_ack : CommandAck → Response

pub record ProtocolEvent : Type 0 where
  pub vehicle_id : Option VehicleId
  pub payload : Option Response
