-- ===== src/Vehicle/Fold.antt =====
-- internal/vehicle/fold.go. The Go functions write through a pointer to the next state and return
-- events; here they return both. Nothing in the state before is shared with the state after.
use yalb_link.Prelude.{
  ℕ, ℤ, pos, rem_ℤ, ◌+ℤ◌, ◌+◌, ◌%◌, ◌^◌, Bool, true, false, not, ◌&&◌, ◌||◌, Option, none, some,
  List, [], ◌∷◌, ◌++◌, String, str_eq, ◌==◌, if◌then◌else◌, nat_eq,
}
use yalb_link.GoMap
use yalb_link.Codec.Decode.{Decoded}
use yalb_link.Proto.{
  Timestamp, VehicleId, HeartbeatState, vehicle_discovered, vehicle_lost, vehicle_recovered,
  heartbeat_updated,
}
use yalb_link.Proto.Telemetry.{Payload, TelemetryEvent}
use yalb_link.Proto.Transactions.{ProtocolEvent}
use yalb_link.Vehicle.Event.{Event, WarningType, fleet_event, timestamp_of}
use yalb_link.Vehicle.State.{
  State, VehicleSnapshot, id_of, expired, clone_snapshot, snapshot_heartbeat,
}

pub record Inbound : Type 0 where
  pub heartbeat : Option HeartbeatState
  pub src_addr : String
  pub decoded : Decoded
  pub msg_id : ℕ

-- A write through the snapshot pointer of the next state.
abbrev pub on_snapshot : (VehicleSnapshot → VehicleSnapshot) → State → State
on_snapshot f s = record s {
  snapshot = elim s.snapshot [ none ↦ none | some snap ↦ some (f snap) ];
}

abbrev bool_eq : Bool → Bool → Bool
bool_eq true b = b
bool_eq false b = not b

unfoldable pub heartbeat_changed : State → HeartbeatState → Bool
heartbeat_changed prev hb =
    not (bool_eq hb.armed prev.armed)
    || not (hb.custom_mode == prev.custom_mode)
    || not (hb.system_status == prev.system_status)

-- The loss that a frame reveals after the time to live ran out unnoticed.
outage : State → State → ℕ → State × List Event
unfolding expired fleet_event
outage prev next now_ms =
    if expired prev now_ms && not prev.lost
    then (
      record next { lost = true },
      fleet_event vehicle_lost (id_of next) (snapshot_heartbeat prev.snapshot) now_ms ∷ [],
    )
    else (next, [])

unfoldable pub stamp_heartbeat : VehicleId → ℕ → HeartbeatState → HeartbeatState
stamp_heartbeat id now_ms hb = record hb { id = some id; observed_at = some (timestamp_of now_ms) }

-- The switch of lifecycle.
announce : State → State → HeartbeatState → ℕ → State × List Event
unfolding heartbeat_changed fleet_event
announce prev next stamped now_ms =
    if not prev.known
    then (
      record next { known = true; first_seen_ms = now_ms; vehicle_type = stamped.type },
      fleet_event vehicle_discovered (id_of next) (some stamped) now_ms ∷ [],
    )
    else if next.lost
    then (
      record next { lost = false },
      fleet_event vehicle_recovered (id_of next) (some stamped) now_ms ∷ [],
    )
    else if heartbeat_changed prev stamped
    then (next, fleet_event heartbeat_updated (id_of next) (some stamped) now_ms ∷ [])
    else (next, [])

absorb : State → HeartbeatState → ℕ → State
absorb next stamped now_ms =
    on_snapshot (λ snap. record snap { heartbeat = some stamped })
      (record next {
        armed = stamped.armed;
        custom_mode = stamped.custom_mode;
        system_status = stamped.system_status;
        last_heartbeat_ms = now_ms;
      })

unfoldable pub lifecycle : State → State → Option HeartbeatState → ℕ → State × List Event
unfolding outage stamp_heartbeat announce absorb
lifecycle prev next none now_ms = outage prev next now_ms
lifecycle prev next (some hb) now_ms =
    let (next₁, missed) = outage prev next now_ms in
    let stamped = stamp_heartbeat (id_of next) now_ms hb in
    let (next₂, news) = announce prev next₁ stamped now_ms in
    (absorb next₂ stamped now_ms, missed ++ news)

unfoldable pub source_conflict : State → State → String → ℕ → State × List Event
source_conflict prev next src_addr now_ms =
    if str_eq src_addr "" || str_eq src_addr prev.last_src_addr
    then (next, [])
    else if str_eq prev.last_src_addr ""
    then (record next { last_src_addr = src_addr }, [])
    else (
      record next {
        last_src_addr = src_addr;
        source_conflicts = (prev.source_conflicts + 1) % 2 ^ 32;
      },
      Event.warning (record {
        vehicle_id = id_of next;
        previous = prev.last_src_addr;
        current = src_addr;
        occurred_ms = now_ms;
        type = WarningType.source_conflict;
      })
          ∷ [],
    )

-- stampObservedAt: every payload has an observed_at field.
unfoldable pub stamp_payload : Timestamp → Payload → Payload
stamp_payload at (Payload.attitude p) = Payload.attitude (record p { observed_at = some at })
stamp_payload at (Payload.global_position p) =
    Payload.global_position (record p { observed_at = some at })
stamp_payload at (Payload.gps_raw p) = Payload.gps_raw (record p { observed_at = some at })
stamp_payload at (Payload.vfr_hud p) = Payload.vfr_hud (record p { observed_at = some at })
stamp_payload at (Payload.nav_controller_output p) =
    Payload.nav_controller_output (record p { observed_at = some at })
stamp_payload at (Payload.system_status p) =
    Payload.system_status (record p { observed_at = some at })
stamp_payload at (Payload.battery_status p) =
    Payload.battery_status (record p { observed_at = some at })
stamp_payload at (Payload.radio_status p) =
    Payload.radio_status (record p { observed_at = some at })
stamp_payload at (Payload.ekf_status_report p) =
    Payload.ekf_status_report (record p { observed_at = some at })
stamp_payload at (Payload.mission_current p) =
    Payload.mission_current (record p { observed_at = some at })
stamp_payload at (Payload.home_position p) =
    Payload.home_position (record p { observed_at = some at })
stamp_payload at (Payload.status_text p) = Payload.status_text (record p { observed_at = some at })

unfoldable pub stamp_oneof : Timestamp → Option Payload → Option Payload
unfolding stamp_payload
stamp_oneof at none = none
stamp_oneof at (some p) = some (stamp_payload at p)

unfoldable pub stamp_observed_at : TelemetryEvent → ℕ → TelemetryEvent
unfolding stamp_oneof
stamp_observed_at evt now_ms = record evt {
  payload = stamp_oneof (timestamp_of now_ms) evt.payload;
}

unfoldable pub normalise_heading : ℤ → ℤ
normalise_heading deg = rem_ℤ (rem_ℤ deg 360 +ℤ pos 360) 360

unfoldable pub apply_snapshot : VehicleSnapshot → Option Payload → VehicleSnapshot
unfolding normalise_heading
apply_snapshot snap (some (Payload.attitude a)) = record snap {
  roll_rad = a.roll_rad;
  pitch_rad = a.pitch_rad;
  yaw_rad = a.yaw_rad;
}
apply_snapshot snap (some (Payload.global_position p)) = record snap {
  latitude_deg = p.lat_deg;
  longitude_deg = p.lon_deg;
  altitude_msl_m = p.alt_msl_m;
  altitude_relative_m = p.alt_relative_m;
}
apply_snapshot snap (some (Payload.vfr_hud v)) = record snap {
  airspeed_m_s = v.airspeed_m_s;
  groundspeed_m_s = v.groundspeed_m_s;
  climb_rate_m_s = v.climb_m_s;
  heading_deg = normalise_heading v.heading_deg;
}
apply_snapshot snap (some (Payload.system_status s)) = record snap {
  voltage_battery_mv = s.voltage_battery_mv;
  current_battery_ca = s.current_battery_ca;
  battery_remaining_pct = s.battery_remaining_pct;
}
apply_snapshot snap _ = snap

unfoldable pub apply_ekf : Option Payload → State → State
apply_ekf (some (Payload.ekf_status_report e)) s = record s { ekf_flags = e.flags; ekf_seen = true }
apply_ekf _ s = s

unfoldable pub telemetry : State → Option TelemetryEvent → ℕ → State × List Event
unfolding stamp_observed_at apply_snapshot apply_ekf
telemetry next none now_ms = (next, [])
telemetry next (some evt) now_ms =
    let stamped = stamp_observed_at evt now_ms in
    (
      on_snapshot (λ snap. apply_snapshot snap stamped.payload) (apply_ekf stamped.payload next),
      Event.telemetry stamped ∷ [],
    )

unfoldable pub protocol : Option ProtocolEvent → List Event
protocol none = []
protocol (some evt) = Event.protocol evt ∷ []

-- The copy that Fold starts from.
unfoldable pub begin_fold : State → Inbound → State
unfolding clone_snapshot
begin_fold state inb =
    let id : VehicleId = record {
      system_id = inb.decoded.sys_id;
      component_id = inb.decoded.comp_id;
    } in
    record state {
      sys_id = inb.decoded.sys_id;
      comp_id = inb.decoded.comp_id;
      snapshot = some (record (clone_snapshot state) { id = some id });
    }

-- The last lines of Fold.
unfoldable pub end_fold : State → ℕ → ℕ → State
end_fold next msg_id now_ms =
    on_snapshot (λ snap. record snap { last_updated_at = some (timestamp_of now_ms) })
      (record next {
        last_seen_ms = now_ms;
        last_msg_seen_ms = GoMap.insert msg_id now_ms next.last_msg_seen_ms;
      })

unfoldable pub fold : State → Inbound → ℕ → State × List Event
fold state inb now_ms =
    let (next₁, changes) = lifecycle state (begin_fold state inb) inb.heartbeat now_ms in
    let (next₂, conflicts) = source_conflict state next₁ inb.src_addr now_ms in
    let (next₃, readings) = telemetry next₂ inb.decoded.telemetry now_ms in
    (
      end_fold next₃ inb.msg_id now_ms,
      changes ++ (conflicts ++ (readings ++ protocol inb.decoded.transaction)),
    )

unfoldable pub expire : State → ℕ → State × List Event
unfolding expired fleet_event
expire state now_ms = if state.lost || not (expired state now_ms) then (state, []) else (
  record state { lost = true },
  fleet_event vehicle_lost (id_of state) (snapshot_heartbeat state.snapshot) now_ms ∷ [],
)
