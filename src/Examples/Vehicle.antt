-- ===== src/Examples/Vehicle.antt =====
-- internal/vehicle on one vehicle: a heartbeat, an attitude from another address, a silence.
use yalb_link.Prelude.{
  ◌+◌, ◌%◌, ◌^◌, ◌<◌, ◌≡◌, ◌≢◌, ◌⊎◌, ◌↔◌, true, false, none, some, List, [], ◌∷◌, bit_and,
}
use yalb_link.Codec.{heartbeat_ttl_ms}
use yalb_link.Proto.{HeartbeatState, vehicle_lost}
use yalb_link.Proto.Telemetry.{Attitude, Payload}
use yalb_link.Vehicle.Event.{fleet_event}
use yalb_link.Vehicle.State.{
  State, zero_state, id_of, arm_allowed, snapshot_heartbeat, ekf_attitude, ekf_uninitialized,
}
use yalb_link.Vehicle.Fold.{Inbound, fold, expire}
use yalb_link.Vehicle.Trace.{Input, frame, sweep, run}
use yalb_link.Vehicle.Lifecycle.{advance_all, unseen, phase, run_fleet_events}
use yalb_link.Vehicle.Snapshot.{readings, display, readings-run}
use yalb_link.Vehicle.Conflicts.{warnings, run-warnings}
use yalb_link.Vehicle.Freshness.{expire_once}
use yalb_link.Vehicle.Arming.{arm_allowed_iff}

abbrev pub beat : HeartbeatState
beat = record {
  id = none;
  type = 2;
  autopilot = 3;
  system_status = 4;
  armed = false;
  manual_input_enabled = true;
  hil_enabled = false;
  stabilize_enabled = true;
  guided_enabled = false;
  auto_enabled = false;
  test_enabled = false;
  custom_mode_enabled = true;
  custom_mode = 5;
  mavlink_version = 3;
  observed_at = none;
}

abbrev heartbeat_frame : Inbound
heartbeat_frame = record {
  heartbeat = some beat;
  src_addr = "10.0.0.2:14550";
  decoded = record { telemetry = none; transaction = none; sys_id = 1; comp_id = 1; seq = 0 };
  msg_id = 0;
}

abbrev attitude : Attitude
attitude = record {
  time_boot_ms = 12;
  roll_rad = 1036831949;
  pitch_rad = 0;
  yaw_rad = 1065353216;
  rollspeed_rad_s = 0;
  pitchspeed_rad_s = 0;
  yawspeed_rad_s = 0;
  observed_at = none;
}

abbrev attitude_frame : Inbound
attitude_frame = record {
  heartbeat = none;
  src_addr = "10.0.0.9:14550";
  decoded = record {
    telemetry = some (record {
      vehicle_id = some (record { system_id = 1; component_id = 1 });
      payload = some (Payload.attitude attitude);
    });
    transaction = none;
    sys_id = 1;
    comp_id = 1;
    seq = 1;
  };
  msg_id = 30;
}

abbrev history : List Input
history =
    frame heartbeat_frame 1000
    ∷ frame attitude_frame 1500
    ∷ sweep 70000
    ∷ frame heartbeat_frame 71000
    ∷ []

abbrev heard : State
heard = (fold zero_state heartbeat_frame 1000).0

run_fleet_events_example :
    advance_all (some unseen) (run zero_state history).1 ≡ some (phase (run zero_state history).0)
run_fleet_events_example = run_fleet_events history

readings-run_example :
    readings (run zero_state history).0 ≡ display (readings zero_state) (run zero_state history).1
readings-run_example = readings-run zero_state history

run-warnings_example :
    (run zero_state history).0.source_conflicts ≡ warnings (run zero_state history).1 % 2 ^ 32
run-warnings_example = run-warnings history

expire_once_example :
    (((expire heard 70000).1
        ≡ fleet_event vehicle_lost (id_of heard) (snapshot_heartbeat heard.snapshot) 70000 ∷ [])
      ↔ ((heard.known ≡ true)
          × (heard.lost ≡ false)
          × (heard.last_seen_ms + heartbeat_ttl_ms < 70000)))
    × (((expire heard 70000).1 ≡ []) ⊎ ((expire (expire heard 70000).0 75000).1 ≡ []))
expire_once_example = expire_once heard 70000 75000

abbrev settled : State
settled = record heard { ekf_seen = true; ekf_flags = 831 }

arm_allowed_iff_example : (arm_allowed settled ≡ true) ↔ (
    (settled.known ≡ true)
    × (settled.ekf_seen ≡ true)
    × (bit_and settled.ekf_flags ekf_uninitialized ≡ 0)
    × (bit_and settled.ekf_flags ekf_attitude ≢ 0))
arm_allowed_iff_example = arm_allowed_iff settled
