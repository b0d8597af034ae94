-- ===== src/Proto/Telemetry.antt =====
-- telemetry.proto: the twelve streaming payloads and the envelope around one of them.
use yalb_link.Prelude.{ℕ, ℤ, Option, List, String}
use yalb_link.Proto.{Float32, Float64, Timestamp, VehicleId}

pub record Attitude : Type 0 where
  pub time_boot_ms : ℕ
  pub roll_rad : Float32
  pub pitch_rad : Float32
  pub yaw_rad : Float32
  pub rollspeed_rad_s : Float32
  pub pitchspeed_rad_s : Float32
  pub yawspeed_rad_s : Float32
  pub observed_at : Option Timestamp

pub record GlobalPosition : Type 0 where
  pub time_boot_ms : ℕ
  pub lat_deg : Float64
  pub lon_deg : Float64
  pub alt_msl_m : Float32
  pub alt_relative_m : Float32
  pub vx_m_s : Float32
  pub vy_m_s : Float32
  pub vz_m_s : Float32
  pub hdg_cdeg : ℕ
  pub observed_at : Option Timestamp

pub record GpsRaw : Type 0 where
  pub time_usec : ℕ
  pub fix_type : ℕ
  pub lat_deg : Float64
  pub lon_deg : Float64
  pub alt_msl_m : Float32
  pub eph : ℕ
  pub epv : ℕ
  pub vel_cm_s : ℕ
  pub cog_cdeg : ℕ
  pub satellites_visible : ℕ
  pub observed_at : Option Timestamp

pub record SystemStatus : Type 0 where
  pub sensors_present : ℕ
  pub sensors_enabled : ℕ
  pub sensors_health : ℕ
  pub load_d_pct : ℕ
  pub voltage_battery_mv : ℕ
  pub current_battery_ca : ℤ
  pub battery_remaining_pct : ℤ
  pub drop_rate_comm_c_pct : ℕ
  pub errors_comm : ℕ
  pub observed_at : Option Timestamp

pub record VfrHud : Type 0 where
  pub airspeed_m_s : Float32
  pub groundspeed_m_s : Float32
  pub heading_deg : ℤ
  pub throttle_pct : ℕ
  pub alt_msl_m : Float32
  pub climb_m_s : Float32
  pub observed_at : Option Timestamp

pub record StatusText : Type 0 where
  pub severity : ℕ
  pub text : String
  pub id : ℕ
  pub chunk_seq : ℕ
  pub observed_at : Option Timestamp

pub record NavControllerOutput : Type 0 where
  pub nav_roll_deg : Float32
  pub nav_pitch_deg : Float32
  pub nav_bearing_deg : ℤ
  pub target_bearing_deg : ℤ
  pub wp_dist_m : ℕ
  pub alt_error_m : Float32
  pub aspd_error_m_s : Float32
  pub xtrack_error_m : Float32
  pub observed_at : Option Timestamp

pub record MissionCurrent : Type 0 where
  pub seq : ℕ
  pub total : ℕ
  pub mission_state : ℕ
  pub mission_mode : ℕ
  pub observed_at : Option Timestamp

pub record HomePosition : Type 0 where
  pub lat_deg : Float64
  pub lon_deg : Float64
  pub alt_msl_m : Float32
  pub local_x_m : Float32
  pub local_y_m : Float32
  pub local_z_m : Float32
  pub q_w : Float32
  pub q_x : Float32
  pub q_y : Float32
  pub q_z : Float32
  pub approach_x : Float32
  pub approach_y : Float32
  pub approach_z : Float32
  pub time_usec : ℕ
  pub observed_at : Option Timestamp

pub record BatteryStatus : Type 0 where
  pub id : ℕ
  pub temperature_cdeg : ℤ
  pub cell_voltages_mv : List ℕ
  pub current_battery_ca : ℤ
  pub current_consumed_mah : ℤ
  pub energy_consumed_hj : ℤ
  pub battery_remaining_pct : ℤ
  pub time_remaining_s : ℤ
  pub charge_state : ℕ
  pub observed_at : Option Timestamp

pub record RadioStatus : Type 0 where
  pub rssi : ℕ
  pub remrssi : ℕ
  pub txbuf_pct : ℕ
  pub noise : ℕ
  pub remnoise : ℕ
  pub rxerrors : ℕ
  pub fixed : ℕ
  pub observed_at : Option Timestamp

pub record EkfStatusReport : Type 0 where
  pub flags : ℕ
  pub velocity_variance : Float32
  pub pos_horiz_variance : Float32
  pub pos_vert_variance : Float32
  pub compass_variance : Float32
  pub terrain_alt_variance : Float32
  pub airspeed_variance : Float32
  pub observed_at : Option Timestamp

-- The oneof of the envelope.
pub data Payload : Type 0 where
  attitude : Attitude → Payload
  global_position : GlobalPosition → Payload
  gps_raw : GpsRaw → Payload
  vfr_hud : VfrHud → Payload
  nav_controller_output : NavControllerOutput → Payload
  system_status : SystemStatus → Payload
  battery_status : BatteryStatus → Payload
  radio_status : RadioStatus → Payload
  ekf_status_report : EkfStatusReport → Payload
  mission_current : MissionCurrent → Payload
  home_position : HomePosition → Payload
  status_text : StatusText → Payload

-- `payload` is `none` where no field of the oneof is set.
pub record TelemetryEvent : Type 0 where
  pub vehicle_id : Option VehicleId
  pub payload : Option Payload
