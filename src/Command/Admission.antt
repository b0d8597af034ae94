-- ===== src/Command/Admission.antt =====
-- When internal/command/registry.go takes a command for a key: after nothing, after a settlement, after a
-- resolution.
use yalb_link.Prelude.{
  ℕ, ◌+◌, ◌≡◌, inl, inr, Bool-cases, Bool, true, false, not, Option, none, some, arith, leb,
  is_some, String, refl, ◌&&◌,
}
use yalb_link.GoMap
use yalb_link.GoMap.Laws.{lookup-insert, lookup-delete}
use yalb_link.Proto.{Timestamp}
use yalb_link.Proto.Transactions.{ArmState, CommandTransaction}
use yalb_link.Command.Registry.{
  Key, key_beq_iff, key_eq, Pending, Registry, remaining, remaining_quarantine, quarantine,
  Admission, admit, admit_idle, admit_free, admit_unpoisoned,
}
use yalb_link.Command.Settle.{
  Cause, terminal_state, settle, settled_tx, is_ambiguous, resolve_key, resolved,
}

unfoldable pub is_admitted : Admission → Bool
is_admitted (Admission.admitted tx) = true
is_admitted _ = false

-- No quarantine, or one that ended by then.
unfoldable pub has_lapsed : Option Timestamp → Timestamp → Bool
has_lapsed none now = true
has_lapsed (some until) now = leb until now

admit_idle-is_admitted :
    (k : Key) (arm : Bool) (issued : Timestamp) (r : Registry) (found : Option Pending)
    → is_admitted (admit_idle k arm issued r found).1 ≡ not (is_some found)
unfolding admit_idle is_admitted
admit_idle-is_admitted k arm issued r none = refl
admit_idle-is_admitted k arm issued r (some p) = refl

admit_free-is_admitted :
    (k : Key) (arm : Bool) (checked issued : Timestamp) (r : Registry) (found : Option Timestamp)
    → is_admitted (admit_free k arm issued (remaining k checked r found)).1
      ≡ (has_lapsed found checked && not (is_some (GoMap.lookup k r.inflight)))
unfolding admit_free remaining has_lapsed is_admitted
admit_free-is_admitted k arm checked issued r none = admit_idle-is_admitted k arm issued r _
admit_free-is_admitted k arm checked issued r (some until) = elim (Bool-cases (leb until checked)) [
  | inl over ↦ ground (
    arith,
    admit_idle-is_admitted k arm issued (record r { quarantined = GoMap.delete k r.quarantined })
        (GoMap.lookup k r.inflight),
  )
  | inr still ↦ ground arith
]

admit_unpoisoned-is_admitted :
    (k : Key) (arm : Bool) (checked issued : Timestamp) (r : Registry)
    (found : Option CommandTransaction)
    → is_admitted (admit_unpoisoned k arm checked issued r found).1 ≡ (
        not (is_some found)
        && (has_lapsed (GoMap.lookup k r.quarantined) checked
            && not (is_some (GoMap.lookup k r.inflight))))
unfolding admit_unpoisoned is_admitted remaining_quarantine
admit_unpoisoned-is_admitted k arm checked issued r none =
    admit_free-is_admitted k arm checked issued r _
admit_unpoisoned-is_admitted k arm checked issued r (some tx) = refl

-- A key takes a new command exactly when no command of its is unresolved, its quarantine, if it has one, is
-- over, and none is in flight.
pub admit_iff :
    (k : Key) (arm : Bool) (checked issued : Timestamp) (r : Registry)
    → is_admitted (admit k arm checked issued r).1 ≡ (
        not (is_some (GoMap.lookup k r.poisoned))
        && (has_lapsed (GoMap.lookup k r.quarantined) checked
            && not (is_some (GoMap.lookup k r.inflight))))
unfolding admit
admit_iff k arm checked issued r = admit_unpoisoned-is_admitted k arm checked issued r _

-- Where a command in flight is settled on a key that is neither unresolved nor quarantined, the key takes
-- the next command at once if the vehicle answered, and none if the wait timed out or was cancelled.
pub settle_frees :
    (k : Key) (cause : Cause) (now : Timestamp) (tx : CommandTransaction) (r : Registry)
    (arm : Bool) (checked issued : Timestamp)
    → GoMap.lookup k r.poisoned ≡ none
    → GoMap.lookup k r.quarantined ≡ none
    → is_admitted (admit k arm checked issued (settle k cause now tx r).0).1
      ≡ not (is_ambiguous (terminal_state cause))
unfolding settle has_lapsed
settle_frees k cause now tx r arm checked issued unpoisoned free = ground (
  arith,
  admit_iff k arm checked issued (settle k cause now tx r).0,
  key_beq_iff k k,
  lookup-delete k k r.inflight,
  lookup-insert k k (settled_tx cause now tx) r.poisoned,
)

-- What a successful resolution does, whatever the registry.
pub resolve_key-effect :
    (k : Key) (epoch : String) (tx_id : ℕ) (seen : ArmState) (now : Timestamp) (r : Registry)
    (found : Option CommandTransaction) {s : Registry} {out : CommandTransaction}
    → resolve_key k epoch tx_id seen now r found ≡ (s, resolved out)
    → (GoMap.lookup k s.poisoned ≡ none)
      × (GoMap.lookup k s.inflight ≡ none)
      × (GoMap.lookup k s.quarantined ≡ some (now + quarantine r))
unfolding resolve_key
resolve_key-effect k epoch tx_id seen now r none e = ground arith
resolve_key-effect k epoch tx_id seen now r (some tx) e = ground (
  arith,
  key_beq_iff k k,
  lookup-delete k k r.poisoned,
  lookup-insert k k (now + quarantine r) r.quarantined,
)
