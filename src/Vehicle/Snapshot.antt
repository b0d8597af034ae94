-- ===== src/Vehicle/Snapshot.antt =====
-- The readings that a vehicle's state holds (applySnapshot and the EKF flags of
-- internal/vehicle/fold.go) against the telemetry events of its history.
use yalb_link.Prelude.{
  ℕ, ℤ, Bool, true, ◌≡◌, ◌∙◌, refl, Option, none, some, List, [], ◌∷◌, ◌++◌, arith, String, is_some,
}
use yalb_link.Proto.{Float32, Float64, HeartbeatState}
use yalb_link.Proto.Telemetry.{Payload, TelemetryEvent}
use yalb_link.Proto.Transactions.{ProtocolEvent}
use yalb_link.Vehicle.Event.{Event, timestamp_of}
use yalb_link.Vehicle.State.{State, VehicleSnapshot, clone_snapshot}
use yalb_link.Vehicle.Fold.{
  Inbound, lifecycle, source_conflict, telemetry, protocol, begin_fold, end_fold, fold, expire,
  normalise_heading, apply_snapshot, apply_ekf, on_snapshot, stamp_oneof,
}
use yalb_link.Vehicle.Trace.{
  Input, frame, sweep, step, run, after_lifecycle, after_conflict, after_telemetry, fold_rule,
  run_rule,
}

-- What an operator reads off a vehicle, group by group.
pub record Readings : Type 0 where
  pub attitude : Float32 × Float32 × Float32
  pub position : Float64 × Float64 × Float32 × Float32
  pub speed : Float32 × Float32 × Float32 × ℤ
  pub battery : ℕ × ℤ × ℤ
  pub estimator : Bool × ℕ

snapshot_readings : VehicleSnapshot → Bool × ℕ → Readings
snapshot_readings snap ekf = record {
  attitude = (snap.roll_rad, snap.pitch_rad, snap.yaw_rad);
  position = (snap.latitude_deg, snap.longitude_deg, snap.altitude_msl_m, snap.altitude_relative_m);
  speed = (snap.airspeed_m_s, snap.groundspeed_m_s, snap.climb_rate_m_s, snap.heading_deg);
  battery = (snap.voltage_battery_mv, snap.current_battery_ca, snap.battery_remaining_pct);
  estimator = ekf;
}

pub readings : State → Readings
unfolding snapshot_readings clone_snapshot
readings s = snapshot_readings (clone_snapshot s) (s.ekf_seen, s.ekf_flags)

-- One telemetry payload replaces the group that it reports and no other.
pub replace : Readings → Option Payload → Readings
replace r (some (Payload.attitude a)) = record r { attitude = (a.roll_rad, a.pitch_rad, a.yaw_rad) }
replace r (some (Payload.global_position p)) = record r {
  position = (p.lat_deg, p.lon_deg, p.alt_msl_m, p.alt_relative_m);
}
replace r (some (Payload.vfr_hud v)) = record r {
  speed = (v.airspeed_m_s, v.groundspeed_m_s, v.climb_m_s, normalise_heading v.heading_deg);
}
replace r (some (Payload.system_status s)) = record r {
  battery = (s.voltage_battery_mv, s.current_battery_ca, s.battery_remaining_pct);
}
replace r (some (Payload.ekf_status_report e)) = record r { estimator = (true, e.flags) }
replace r _ = r

-- A display that sees only the emitted events.
abbrev pub display : Readings → List Event → Readings
display r [] = r
display r (Event.telemetry t ∷ es) = display (replace r t.payload) es
display r (_ ∷ es) = display r es

display-append :
    (r : Readings) (es fs : List Event) → display r (es ++ fs) ≡ display (display r es) fs
display-append r [] fs = refl
display-append r (Event.telemetry t ∷ es) fs = display-append (replace r t.payload) es fs
display-append r (Event.fleet t ∷ es) fs = display-append r es fs
display-append r (Event.protocol t ∷ es) fs = display-append r es fs
display-append r (Event.command t ∷ es) fs = display-append r es fs
display-append r (Event.warning t ∷ es) fs = display-append r es fs

abbrev Shows : State → List Event → State → Type 0
Shows s es u = readings u ≡ display (readings s) es

Shows-append :
    (s t u : State) (es fs : List Event) → Shows s es t → Shows t fs u → Shows s (es ++ fs) u
Shows-append s t u es fs f g = rw (display-append (readings s) es fs, ← f) g

lifecycle-Shows :
    (prev next : State) (hb : Option HeartbeatState) (now_ms : ℕ)
    → Shows next (lifecycle prev next hb now_ms).1 (lifecycle prev next hb now_ms).0
unfolding lifecycle readings
lifecycle-Shows prev next none now_ms = ground arith
lifecycle-Shows prev next (some hb) now_ms = ground arith

abbrev HasSnapshot : State → Type 0
HasSnapshot s = is_some s.snapshot ≡ true

begin_fold-HasSnapshot : (s : State) (inb : Inbound) → HasSnapshot (begin_fold s inb)
unfolding begin_fold
begin_fold-HasSnapshot s inb = refl

lifecycle-HasSnapshot :
    (prev next : State) (hb : Option HeartbeatState) (now_ms : ℕ)
    → HasSnapshot next
    → HasSnapshot (lifecycle prev next hb now_ms).0
unfolding lifecycle
lifecycle-HasSnapshot prev next none now_ms h = ground arith
lifecycle-HasSnapshot prev next (some hb) now_ms h = ground arith

source_conflict-HasSnapshot :
    (prev next : State) (src_addr : String) (now_ms : ℕ)
    → HasSnapshot next
    → HasSnapshot (source_conflict prev next src_addr now_ms).0
unfolding source_conflict
source_conflict-HasSnapshot prev next src_addr now_ms h = ground arith

source_conflict-Shows :
    (prev next : State) (src_addr : String) (now_ms : ℕ)
    → Shows next
        (source_conflict prev next src_addr now_ms).1
        (source_conflict prev next src_addr now_ms).0
unfolding source_conflict readings
source_conflict-Shows prev next src_addr now_ms = ground arith

payload-readings :
    (next : State) (p : Option Payload)
    → HasSnapshot next
    → readings (on_snapshot (λ snap. apply_snapshot snap p) (apply_ekf p next))
      ≡ replace (readings next) p
unfolding readings replace apply_snapshot apply_ekf
payload-readings next none h = ground arith
payload-readings next (some (Payload.attitude p)) h = ground arith
payload-readings next (some _) h = ground arith

telemetry-Shows :
    (next : State) (evt : Option TelemetryEvent) (now_ms : ℕ)
    → HasSnapshot next
    → Shows next (telemetry next evt now_ms).1 (telemetry next evt now_ms).0
unfolding telemetry
telemetry-Shows next none now_ms h = refl
telemetry-Shows next (some evt) now_ms h =
    payload-readings next (stamp_oneof (timestamp_of now_ms) evt.payload) h

protocol-Shows : (s : State) (evt : Option ProtocolEvent) → Shows s (protocol evt) s
unfolding protocol
protocol-Shows s none = refl
protocol-Shows s (some evt) = refl

begin_fold-readings : (s : State) (inb : Inbound) → readings (begin_fold s inb) ≡ readings s
unfolding begin_fold readings
begin_fold-readings s inb = refl

end_fold-readings :
    (s : State) (msg_id now_ms : ℕ)
    → HasSnapshot s
    → readings (end_fold s msg_id now_ms) ≡ readings s
unfolding end_fold readings
end_fold-readings s msg_id now_ms h = ground arith

after-HasSnapshot :
    (s : State) (inb : Inbound) (now_ms : ℕ) → HasSnapshot (after_conflict s inb now_ms).0
after-HasSnapshot s inb now_ms =
    source_conflict-HasSnapshot s (after_lifecycle s inb now_ms).0 inb.src_addr now_ms (
      lifecycle-HasSnapshot s (begin_fold s inb) inb.heartbeat now_ms
        (begin_fold-HasSnapshot s inb))

telemetry-HasSnapshot :
    (next : State) (evt : Option TelemetryEvent) (now_ms : ℕ)
    → HasSnapshot next
    → HasSnapshot (telemetry next evt now_ms).0
unfolding telemetry apply_ekf
telemetry-HasSnapshot next none now_ms h = h
telemetry-HasSnapshot next (some evt) now_ms h = ground arith

fold-Shows :
    (s : State) (inb : Inbound) (now_ms : ℕ) → Shows s (fold s inb now_ms).1 (fold s inb now_ms).0
unfolding fold
fold-Shows s inb now_ms =
    let ready = after-HasSnapshot s inb now_ms in
    end_fold-readings (after_telemetry s inb now_ms).0 inb.msg_id now_ms
      (telemetry-HasSnapshot (after_conflict s inb now_ms).0 inb.decoded.telemetry now_ms ready)
    ∙ fold_rule Shows Shows-append s inb now_ms
        (rw (begin_fold-readings s inb) at
          (lifecycle-Shows s (begin_fold s inb) inb.heartbeat now_ms))
        (source_conflict-Shows s (after_lifecycle s inb now_ms).0 inb.src_addr now_ms)
        (telemetry-Shows (after_conflict s inb now_ms).0 inb.decoded.telemetry now_ms ready)
        (protocol-Shows (after_telemetry s inb now_ms).0 inb.decoded.transaction)

step-Shows : (s : State) (i : Input) → Shows s (step s i).1 (step s i).0
unfolding step expire readings
step-Shows s (frame inb now_ms) = fold-Shows s inb now_ms
step-Shows s (sweep now_ms) = ground arith

-- The snapshot and the estimator flags of a vehicle hold nothing but what its emitted telemetry said:
-- over any history, a display that starts from the same readings and applies each telemetry event to
-- the one group it reports shows the same attitude, position, speed, battery and estimator readings.
pub readings-run :
    (s : State) (is : List Input) → readings (run s is).0 ≡ display (readings s) (run s is).1
readings-run s is = run_rule Shows Shows-append (λ s. refl) step-Shows s is
