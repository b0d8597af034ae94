-- ===== src/Vehicle/State.antt =====
-- internal/vehicle/state.go: the accumulated model of one vehicle. A clock reading is its milliseconds
-- since the epoch, an age an integer. The nil freshness map of a new state is the empty map.
use yalb_link.Prelude.{
  ℕ, ℤ, pos, sub_ℕ, ltb_ℤ, Bool, false, not, ◌&&◌, Option, none, some, [], String, str_eq, ◌==◌,
  if◌then◌else◌, bit_and, nat_eq,
}
use yalb_link.GoMap
use yalb_link.GoMap.{GoMap}
use yalb_link.Codec.{heartbeat_ttl_ms}
use yalb_link.Proto.{Float32, Float64, Timestamp, VehicleId, HeartbeatState}

-- EkfAttitude, EkfUninitialized
abbrev pub ekf_attitude : ℕ
ekf_attitude = 1

abbrev pub ekf_uninitialized : ℕ
ekf_uninitialized = 1024

pub record VehicleSnapshot : Type 0 where
  pub id : Option VehicleId
  pub heartbeat : Option HeartbeatState
  pub latitude_deg : Float64
  pub longitude_deg : Float64
  pub altitude_msl_m : Float32
  pub altitude_relative_m : Float32
  pub roll_rad : Float32
  pub pitch_rad : Float32
  pub yaw_rad : Float32
  pub airspeed_m_s : Float32
  pub groundspeed_m_s : Float32
  pub climb_rate_m_s : Float32
  pub heading_deg : ℤ
  pub voltage_battery_mv : ℕ
  pub current_battery_ca : ℤ
  pub battery_remaining_pct : ℤ
  pub last_updated_at : Option Timestamp

pub record State : Type 0 where
  pub snapshot : Option VehicleSnapshot
  pub last_msg_seen_ms : GoMap ℕ ℕ
  pub last_src_addr : String
  pub last_seen_ms : ℕ
  pub last_heartbeat_ms : ℕ
  pub first_seen_ms : ℕ
  pub custom_mode : ℕ
  pub ekf_flags : ℕ
  pub source_conflicts : ℕ  -- uint32
  pub vehicle_type : ℕ
  pub system_status : ℕ
  pub sys_id : ℕ
  pub comp_id : ℕ
  pub armed : Bool
  pub ekf_seen : Bool
  pub known : Bool
  pub lost : Bool

-- The zero value, from which a vehicle starts.
abbrev pub zero_state : State
zero_state = record {
  snapshot = none;
  last_msg_seen_ms = [];
  last_src_addr = "";
  last_seen_ms = 0;
  last_heartbeat_ms = 0;
  first_seen_ms = 0;
  custom_mode = 0;
  ekf_flags = 0;
  source_conflicts = 0;
  vehicle_type = 0;
  system_status = 0;
  sys_id = 0;
  comp_id = 0;
  armed = false;
  ekf_seen = false;
  known = false;
  lost = false;
}

-- ID
abbrev pub id_of : State → VehicleId
id_of s = record { system_id = s.sys_id; component_id = s.comp_id }

unfoldable pub age_ms : State → ℕ → ℤ
age_ms s now_ms = sub_ℕ now_ms s.last_seen_ms

abbrev since : ℕ → Option ℕ → Option ℤ
since now_ms none = none
since now_ms (some seen) = some (sub_ℕ now_ms seen)

-- `none` where the family was never received.
unfoldable pub family_age_ms : State → ℕ → ℕ → Option ℤ
family_age_ms s msg_id now_ms = since now_ms (GoMap.lookup msg_id s.last_msg_seen_ms)

unfoldable pub expired : State → ℕ → Bool
expired s now_ms = s.known && ltb_ℤ (pos heartbeat_ttl_ms) (sub_ℕ now_ms s.last_seen_ms)

unfoldable pub arm_blocked_reason : State → String
arm_blocked_reason s =
    if not s.known
    then "no heartbeat received"
    else if not s.ekf_seen
    then "no EKF status received"
    else if not (bit_and s.ekf_flags ekf_uninitialized == 0)
    then "EKF not initialised"
    else if bit_and s.ekf_flags ekf_attitude == 0
    then "EKF has no attitude solution"
    else ""

unfoldable pub arm_allowed : State → Bool
unfolding arm_blocked_reason
arm_allowed s = str_eq (arm_blocked_reason s) ""

abbrev empty_snapshot : VehicleId → VehicleSnapshot
empty_snapshot id = record {
  id = some id;
  heartbeat = none;
  latitude_deg = 0;
  longitude_deg = 0;
  altitude_msl_m = 0;
  altitude_relative_m = 0;
  roll_rad = 0;
  pitch_rad = 0;
  yaw_rad = 0;
  airspeed_m_s = 0;
  groundspeed_m_s = 0;
  climb_rate_m_s = 0;
  heading_deg = pos 0;
  voltage_battery_mv = 0;
  current_battery_ca = pos 0;
  battery_remaining_pct = pos 0;
  last_updated_at = none;
}

abbrev pub snapshot_or : VehicleId → Option VehicleSnapshot → VehicleSnapshot
snapshot_or id none = empty_snapshot id
snapshot_or id (some snap) = snap

unfoldable pub clone_snapshot : State → VehicleSnapshot
clone_snapshot s = snapshot_or (id_of s) s.snapshot

-- Snapshot.GetHeartbeat, nil through a nil snapshot.
abbrev pub snapshot_heartbeat : Option VehicleSnapshot → Option HeartbeatState
snapshot_heartbeat none = none
snapshot_heartbeat (some snap) = snap.heartbeat
