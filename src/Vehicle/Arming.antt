-- ===== src/Vehicle/Arming.antt =====
-- The local arming gate of internal/vehicle/state.go.
use yalb_link.Prelude.{
  ◌≡◌, refl, ◌≢◌, ◌↔◌, Bool, true, false, not, ◌&&◌, arith, bit_and, str_eq, ◌==◌, if◌then◌else◌,
}
use yalb_link.Vehicle.State.{State, ekf_attitude, ekf_uninitialized, arm_allowed}

-- The four tests as conditions on their results: heard, reported, initialised, no attitude.
reason_gate :
    (heard reported ready blind : Bool)
    → str_eq
        (if not heard
          then "no heartbeat received"
          else if not reported
          then "no EKF status received"
          else if not ready
          then "EKF not initialised"
          else if blind
          then "EKF has no attitude solution"
          else "")
        ""
      ≡ (heard && (reported && (ready && not blind)))
reason_gate false _ _ _ = refl
reason_gate true false _ _ = refl
reason_gate true true false _ = refl
reason_gate true true true true = refl
reason_gate true true true false = refl

-- Arming may be offered exactly when the vehicle was heard, its estimator has reported, the report's
-- uninitialised bit is clear and its attitude bit is set.
pub arm_allowed_iff :
    (s : State)
    → (arm_allowed s ≡ true) ↔ (
        (s.known ≡ true)
        × (s.ekf_seen ≡ true)
        × (bit_and s.ekf_flags ekf_uninitialized ≡ 0)
        × (bit_and s.ekf_flags ekf_attitude ≢ 0))
unfolding arm_allowed
arm_allowed_iff s =
    rw
      (reason_gate s.known s.ekf_seen (bit_and s.ekf_flags ekf_uninitialized == 0)
        (bit_and s.ekf_flags ekf_attitude == 0))
      (ground arith)
