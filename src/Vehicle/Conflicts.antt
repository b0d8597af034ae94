-- ===== src/Vehicle/Conflicts.antt =====
-- The source-address warnings of internal/vehicle/fold.go over a vehicle's history.
use yalb_link.Prelude.{
  ℕ, suc, ◌+◌, ◌%◌, ◌^◌, ◌<◌, ◌≡◌, ◌∙◌, refl, Option, none, some, List, [], ◌∷◌, ◌++◌, arith,
  String,
}
use yalb_link.Proto.{HeartbeatState}
use yalb_link.Proto.Telemetry.{TelemetryEvent}
use yalb_link.Proto.Transactions.{ProtocolEvent}
use yalb_link.Vehicle.Event.{Event}
use yalb_link.Vehicle.State.{State, zero_state}
use yalb_link.Vehicle.Fold.{
  Inbound, lifecycle, source_conflict, telemetry, protocol, begin_fold, end_fold, fold, expire,
}
use yalb_link.Vehicle.Trace.{
  Input, frame, sweep, step, run, after_lifecycle, after_conflict, after_telemetry, fold_rule,
  run_rule,
}

abbrev pub warnings : List Event → ℕ
warnings [] = 0
warnings (Event.warning w ∷ es) = suc (warnings es)
warnings (_ ∷ es) = warnings es

warnings-append : (es fs : List Event) → warnings (es ++ fs) ≡ warnings es + warnings fs
warnings-append [] fs = omega arith
warnings-append (Event.warning w ∷ es) fs = omega (arith, warnings-append es fs)
warnings-append (Event.fleet w ∷ es) fs = warnings-append es fs
warnings-append (Event.telemetry w ∷ es) fs = warnings-append es fs
warnings-append (Event.protocol w ∷ es) fs = warnings-append es fs
warnings-append (Event.command w ∷ es) fs = warnings-append es fs

-- The counter moves by the warnings, as a uint32.
abbrev Counts : State → List Event → State → Type 0
Counts s es u =
    s.source_conflicts < 2 ^ 32
    → (u.source_conflicts ≡ (s.source_conflicts + warnings es) % 2 ^ 32)
      × (u.source_conflicts < 2 ^ 32)

Counts-append :
    (s t u : State) (es fs : List Event) → Counts s es t → Counts t fs u → Counts s (es ++ fs) u
Counts-append s t u es fs f g h =
    (omega (arith, warnings-append es fs, f h, g (f h).1), (g (f h).1).1)

lifecycle-Counts :
    (prev next : State) (hb : Option HeartbeatState) (now_ms : ℕ)
    → next.source_conflicts ≡ prev.source_conflicts
    → Counts prev (lifecycle prev next hb now_ms).1 (lifecycle prev next hb now_ms).0
unfolding lifecycle
lifecycle-Counts prev next none now_ms e h = ground arith
lifecycle-Counts prev next (some hb) now_ms e h = ground arith

lifecycle-same :
    (prev next : State) (hb : Option HeartbeatState) (now_ms : ℕ)
    → (lifecycle prev next hb now_ms).0.source_conflicts ≡ next.source_conflicts
unfolding lifecycle
lifecycle-same prev next none now_ms = ground arith
lifecycle-same prev next (some hb) now_ms = ground arith

source_conflict-Counts :
    (prev next : State) (src_addr : String) (now_ms : ℕ)
    → next.source_conflicts ≡ prev.source_conflicts
    → Counts next
        (source_conflict prev next src_addr now_ms).1
        (source_conflict prev next src_addr now_ms).0
unfolding source_conflict
source_conflict-Counts prev next src_addr now_ms e h = ground arith

telemetry-Counts :
    (next : State) (evt : Option TelemetryEvent) (now_ms : ℕ)
    → Counts next (telemetry next evt now_ms).1 (telemetry next evt now_ms).0
unfolding telemetry
telemetry-Counts next none now_ms h = ground arith
telemetry-Counts next (some evt) now_ms h = ground arith

protocol-Counts : (s : State) (evt : Option ProtocolEvent) → Counts s (protocol evt) s
unfolding protocol
protocol-Counts s none h = ground arith
protocol-Counts s (some evt) h = ground arith

end_fold-same :
    (s : State) (msg_id now_ms : ℕ)
    → (end_fold s msg_id now_ms).source_conflicts ≡ s.source_conflicts
unfolding end_fold
end_fold-same s msg_id now_ms = refl

begin_fold-same :
    (s : State) (inb : Inbound) → (begin_fold s inb).source_conflicts ≡ s.source_conflicts
unfolding begin_fold
begin_fold-same s inb = refl

fold-Counts :
    (s : State) (inb : Inbound) (now_ms : ℕ) → Counts s (fold s inb now_ms).1 (fold s inb now_ms).0
unfolding fold
fold-Counts s inb now_ms h = rw (end_fold-same (after_telemetry s inb now_ms).0 inb.msg_id now_ms) (
    fold_rule Counts Counts-append s inb now_ms
      (lifecycle-Counts s (begin_fold s inb) inb.heartbeat now_ms (begin_fold-same s inb))
      (source_conflict-Counts s (after_lifecycle s inb now_ms).0 inb.src_addr now_ms
        (lifecycle-same s (begin_fold s inb) inb.heartbeat now_ms ∙ begin_fold-same s inb))
      (telemetry-Counts (after_conflict s inb now_ms).0 inb.decoded.telemetry now_ms)
      (protocol-Counts (after_telemetry s inb now_ms).0 inb.decoded.transaction) h)

step-Counts : (s : State) (i : Input) → Counts s (step s i).1 (step s i).0
unfolding step expire
step-Counts s (frame inb now_ms) = fold-Counts s inb now_ms
step-Counts s (sweep now_ms) = λ h. ground arith

-- Over any history of a vehicle the conflict counter is the number of warnings that were emitted,
-- modulo 2 ^ 32.
pub run-warnings :
    (is : List Input)
    → (run zero_state is).0.source_conflicts ≡ warnings (run zero_state is).1 % 2 ^ 32
run-warnings is = omega (
  arith,
  (run_rule Counts Counts-append (λ s h. (omega arith, h)) step-Counts zero_state is (omega arith)),
)
