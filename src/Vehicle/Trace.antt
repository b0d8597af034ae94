-- ===== src/Vehicle/Trace.antt =====
-- The fold of internal/vehicle over a history of frames and sweeps of one vehicle, each at its own
-- clock reading.
use yalb_link.Prelude.{ℕ, List, [], ◌∷◌, ◌++◌}
use yalb_link.Vehicle.Event.{Event}
use yalb_link.Vehicle.State.{State}
use yalb_link.Vehicle.Fold.{
  Inbound, lifecycle, source_conflict, telemetry, protocol, begin_fold, fold, expire,
}

pub data Input : Type 0 where
  frame : Inbound → ℕ → Input
  sweep : ℕ → Input

unfoldable pub step : State → Input → State × List Event
step s (frame inb now_ms) = fold s inb now_ms
step s (sweep now_ms) = expire s now_ms

unfoldable pub run : State → List Input → State × List Event
run s [] = (s, [])
run s (i ∷ is) = let (s₁, now) = step s i in let (s₂, later) = run s₁ is in (s₂, now ++ later)

-- The states between the parts of one fold, and the events of each part.
abbrev pub after_lifecycle : State → Inbound → ℕ → State × List Event
after_lifecycle s inb now_ms = lifecycle s (begin_fold s inb) inb.heartbeat now_ms

abbrev pub after_conflict : State → Inbound → ℕ → State × List Event
after_conflict s inb now_ms = source_conflict s (after_lifecycle s inb now_ms).0 inb.src_addr now_ms

abbrev pub after_telemetry : State → Inbound → ℕ → State × List Event
after_telemetry s inb now_ms =
    telemetry (after_conflict s inb now_ms).0 inb.decoded.telemetry now_ms

-- Properties of a state, the events after it and the state they lead to, which add up.
module _ {ℓ} (P : State → List Event → State → Type ℓ)
    (append : (s t u : State) (es fs : List Event) → P s es t → P t fs u → P s (es ++ fs) u) where
  pub fold_rule :
      (s : State) (inb : Inbound) (now_ms : ℕ)
      → P s (after_lifecycle s inb now_ms).1 (after_lifecycle s inb now_ms).0
      → P
          (after_lifecycle s inb now_ms).0
          (after_conflict s inb now_ms).1
          (after_conflict s inb now_ms).0
      → P
          (after_conflict s inb now_ms).0
          (after_telemetry s inb now_ms).1
          (after_telemetry s inb now_ms).0
      → P
          (after_telemetry s inb now_ms).0
          (protocol inb.decoded.transaction)
          (after_telemetry s inb now_ms).0
      → P s (fold s inb now_ms).1 (after_telemetry s inb now_ms).0
  unfolding fold
  fold_rule s inb now_ms l k t p = append s _ _ _ _ l (append _ _ _ _ _ k (append _ _ _ _ _ t p))

  pub run_rule :
      ((s : State) → P s [] s)
      → ((s : State) (i : Input) → P s (step s i).1 (step s i).0)
      → (s : State) (is : List Input) → P s (run s is).1 (run s is).0
  unfolding run
  run_rule still each s [] = still s
  run_rule still each s (i ∷ is) =
      append s (step s i).0 _ _ _ (each s i) (run_rule still each (step s i).0 is)
