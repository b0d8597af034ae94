-- ===== src/Vehicle/Lifecycle.antt =====
-- The fleet events of a vehicle's history (lifecycle, Fold and Expire of internal/vehicle/fold.go)
-- against the state machine that a fleet display follows.
use yalb_link.Prelude.{
  ℕ, ◌≡◌, refl, false, Option, none, some, List, [], ◌∷◌, ◌++◌, arith, if◌then◌else◌, String,
}
use yalb_link.Proto.{
  HeartbeatState, FleetEventType, vehicle_discovered, vehicle_lost, vehicle_recovered,
  heartbeat_updated,
}
use yalb_link.Proto.Telemetry.{TelemetryEvent}
use yalb_link.Proto.Transactions.{ProtocolEvent}
use yalb_link.Vehicle.Event.{Event}
use yalb_link.Vehicle.State.{State, zero_state}
use yalb_link.Vehicle.Fold.{
  Inbound, lifecycle, source_conflict, telemetry, protocol, begin_fold, end_fold, fold, expire,
}
use yalb_link.Vehicle.Trace.{
  Input, frame, sweep, step, run, after_lifecycle, after_conflict, after_telemetry, fold_rule,
  run_rule,
}

-- What a display believes of a vehicle.
pub data Phase : Type 0 where
  unseen live lost : Phase

-- The changes that a display understands.
abbrev pub advance : Phase → FleetEventType → Option Phase
advance unseen vehicle_discovered = some live
advance live vehicle_lost = some lost
advance lost vehicle_recovered = some live
advance live heartbeat_updated = some live
advance _ _ = none

abbrev pub advance_all : Option Phase → List Event → Option Phase
advance_all p [] = p
advance_all none (e ∷ es) = none
advance_all (some p) (Event.fleet f ∷ es) = advance_all (advance p f.type) es
advance_all (some p) (_ ∷ es) = advance_all (some p) es

abbrev pub phase : State → Phase
phase s = if s.known then (if s.lost then lost else live) else unseen

-- Only a known vehicle is lost.
abbrev pub IsConsistent : State → Type 0
IsConsistent s = s.known ≡ false → s.lost ≡ false

advance_all-none : (es : List Event) → advance_all none es ≡ none
advance_all-none [] = refl
advance_all-none (e ∷ es) = refl

advance_all-append :
    (p : Option Phase) (es fs : List Event)
    → advance_all p (es ++ fs) ≡ advance_all (advance_all p es) fs
advance_all-append p [] fs = refl
advance_all-append none (e ∷ es) fs = ground (arith, advance_all-none fs)
advance_all-append (some p) (Event.fleet f ∷ es) fs = advance_all-append (advance p f.type) es fs
advance_all-append (some p) (Event.telemetry t ∷ es) fs = advance_all-append (some p) es fs
advance_all-append (some p) (Event.protocol t ∷ es) fs = advance_all-append (some p) es fs
advance_all-append (some p) (Event.command t ∷ es) fs = advance_all-append (some p) es fs
advance_all-append (some p) (Event.warning t ∷ es) fs = advance_all-append (some p) es fs

-- The events take a display from what the one state shows to what the other shows.
abbrev pub Follows : State → List Event → State → Type 0
Follows s es u = (advance_all (some (phase s)) es ≡ some (phase u)) × IsConsistent u

lifecycle-Follows :
    (prev next : State) (hb : Option HeartbeatState) (now_ms : ℕ)
    → IsConsistent prev
    → next.known ≡ prev.known
    → next.lost ≡ prev.lost
    → Follows prev (lifecycle prev next hb now_ms).1 (lifecycle prev next hb now_ms).0
unfolding lifecycle
lifecycle-Follows prev next none now_ms c k l = ground arith
lifecycle-Follows prev next (some hb) now_ms c k l = ground arith

source_conflict-Follows :
    (prev next : State) (src_addr : String) (now_ms : ℕ)
    → IsConsistent next
    → Follows next
        (source_conflict prev next src_addr now_ms).1
        (source_conflict prev next src_addr now_ms).0
unfolding source_conflict
source_conflict-Follows prev next src_addr now_ms c = ground arith

telemetry-Follows :
    (next : State) (evt : Option TelemetryEvent) (now_ms : ℕ)
    → IsConsistent next
    → Follows next (telemetry next evt now_ms).1 (telemetry next evt now_ms).0
unfolding telemetry
telemetry-Follows next none now_ms c = ground arith
telemetry-Follows next (some evt) now_ms c = ground arith

protocol-Follows :
    (s : State) (evt : Option ProtocolEvent) → IsConsistent s → Follows s (protocol evt) s
unfolding protocol
protocol-Follows s none c = (refl, c)
protocol-Follows s (some evt) c = (refl, c)

-- From a consistent state the events are followed, and the state after is consistent.
abbrev Tracks : State → List Event → State → Type 0
Tracks s es u = IsConsistent s → Follows s es u

Tracks-append :
    (s t u : State) (es fs : List Event) → Tracks s es t → Tracks t fs u → Tracks s (es ++ fs) u
Tracks-append s t u es fs f g c =
    (rw (advance_all-append (some (phase s)) es fs, (f c).0) (g (f c).1).0, (g (f c).1).1)

end_fold-Follows :
    (s t : State) (es : List Event) (msg_id now_ms : ℕ)
    → Follows s es t
    → Follows s es (end_fold t msg_id now_ms)
unfolding end_fold
end_fold-Follows s t es msg_id now_ms f = f

begin_fold-same :
    (s : State) (inb : Inbound)
    → ((begin_fold s inb).known ≡ s.known) × ((begin_fold s inb).lost ≡ s.lost)
unfolding begin_fold
begin_fold-same s inb = (refl, refl)

fold-Tracks :
    (s : State) (inb : Inbound) (now_ms : ℕ) → Tracks s (fold s inb now_ms).1 (fold s inb now_ms).0
unfolding fold
fold-Tracks s inb now_ms c =
    end_fold-Follows s (after_telemetry s inb now_ms).0 (fold s inb now_ms).1 inb.msg_id now_ms (
      fold_rule Tracks Tracks-append s inb now_ms
        (λ c.
          lifecycle-Follows s (begin_fold s inb) inb.heartbeat now_ms c (begin_fold-same s inb).0
            (begin_fold-same s inb).1)
        (λ c. source_conflict-Follows s (after_lifecycle s inb now_ms).0 inb.src_addr now_ms c)
        (λ c. telemetry-Follows (after_conflict s inb now_ms).0 inb.decoded.telemetry now_ms c)
        (λ c. protocol-Follows (after_telemetry s inb now_ms).0 inb.decoded.transaction c) c)

expire-Tracks : (s : State) (now_ms : ℕ) → Tracks s (expire s now_ms).1 (expire s now_ms).0
unfolding expire
expire-Tracks s now_ms c = ground arith

step-Tracks : (s : State) (i : Input) → Tracks s (step s i).1 (step s i).0
unfolding step
step-Tracks s (frame inb now_ms) = fold-Tracks s inb now_ms
step-Tracks s (sweep now_ms) = expire-Tracks s now_ms

-- Whatever frames arrive and whenever the clock is swept, from a vehicle never seen before: the fleet
-- events form a history that a display can follow (discovery first and once, then loss and recovery
-- alternating, changes only while live), and after it the display and the state agree on whether the
-- vehicle is unseen, live or lost.
pub run_fleet_events :
    (is : List Input)
    → advance_all (some unseen) (run zero_state is).1 ≡ some (phase (run zero_state is).0)
run_fleet_events is =
    (run_rule Tracks Tracks-append (λ s c. (refl, c)) step-Tracks zero_state is (λ _. refl)).0
