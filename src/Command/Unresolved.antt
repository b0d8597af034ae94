-- ===== src/Command/Unresolved.antt =====
-- The operator's resolution of internal/command/registry.go: what it leaves of the transaction, the quarantine it opens, and that nothing else lifts an unresolved command.
use mathlib.Core.Path.{subst}
use yalb_link.Prelude.{
  ltb, ℕ, ◌≤◌, refl, if◌then◌else◌, ◌+◌, ◌≡◌, ◌≢◌, ◌∙◌, ap, sym, Bool, Option, none, some, arith,
  leb, String, str_eq_iff,
}
use yalb_link.GoMap
use yalb_link.GoMap.Laws.{lookup-insert, lookup-delete}
use yalb_link.Command.Steps.{Reachable}
use yalb_link.Command.Holds.{holds}
use yalb_link.Command.Exclusive.{one_map}
use yalb_link.Proto.{Timestamp}
use yalb_link.Proto.Transactions.{ArmState, CommandTransaction}
use yalb_link.Command.Registry.{
  Key, key_beq, key_eq, Registry, init_locked, arm_key, quarantine, admit,
}
use yalb_link.Command.Settle.{resolve_arm, resolve_key, is_attestable, Resolved, resolved, attested}
use yalb_link.Command.Admission.{is_admitted, admit_iff, has_lapsed, resolve_key-effect}

init_locked-quarantine :
    (drawn : String) (r : Registry) → quarantine (init_locked drawn r) ≡ quarantine r
unfolding init_locked quarantine
init_locked-quarantine drawn r = ground arith

pub init_locked-maps :
    (drawn : String) (r : Registry)
    → ((init_locked drawn r).inflight ≡ r.inflight)
      × ((init_locked drawn r).poisoned ≡ r.poisoned)
      × ((init_locked drawn r).quarantined ≡ r.quarantined)
unfolding init_locked
init_locked-maps drawn r = (ground arith, ground arith, ground arith)

-- The transaction with nothing changed but the operator's attestation.
abbrev pub beside : CommandTransaction → ArmState → Timestamp → Timestamp → CommandTransaction
beside tx seen now until = record tx {
  resolution = some (record {
    observed_state = seen;
    operator_label = "local-operator";
    attested_at = now;
    quarantine_until = until;
  });
}

-- The answer and the registry of a resolution that obeys, at a key `j`.
abbrev pub Resolves :
    Key
    → ArmState
    → Timestamp
    → Timestamp
    → Registry
    → CommandTransaction
    → Registry × Resolved
    → Key
    → Type 0
Resolves k seen now until r tx (s, out) j =
    (out ≡ resolved (beside tx seen now until))
    × (GoMap.lookup j s.poisoned ≡ (if key_beq k j then none else GoMap.lookup j r.poisoned))
    × (GoMap.lookup j s.quarantined
        ≡ (if key_beq k j then some until else GoMap.lookup j r.quarantined))
    × (GoMap.lookup j s.inflight ≡ GoMap.lookup j r.inflight)

-- The configured quarantine, or half a minute, in nanoseconds, where none is set.
abbrev pub hold_ns : ℕ → ℕ
hold_ns quarantine = if ltb 0 quarantine then quarantine else 30000000000

resolved_key :
    (k : Key) (epoch : String) (tx_id : ℕ) (seen : ArmState) (now checked issued : Timestamp)
    (arm : Bool) (r : Registry) (found : Option CommandTransaction) {s : Registry}
    {out : CommandTransaction}
    → resolve_key k epoch tx_id seen now r found ≡ (s, resolved out)
    → is_admitted (admit k arm checked issued s).1 ≡ leb (now + quarantine r) checked
unfolding has_lapsed
resolved_key k epoch tx_id seen now checked issued arm r found {s} e =
    ground
      (arith, admit_iff k arm checked issued s, resolve_key-effect k epoch tx_id seen now r found e)

-- After a successful resolution at `now` the vehicle's key refuses every command for exactly the registry's
-- quarantine, and takes the first one that is asked for from then on.
pub quarantine_exact :
    (drawn : String) (sys_id : ℕ) (epoch : String) (tx_id : ℕ) (seen : ArmState)
    (now checked issued : Timestamp) (arm : Bool) (r : Registry) {s : Registry}
    {out : CommandTransaction}
    → resolve_arm drawn sys_id epoch tx_id seen now r ≡ (s, resolved out)
    → is_admitted (admit (arm_key sys_id) arm checked issued s).1 ≡ leb (now + quarantine r) checked
unfolding resolve_arm is_attestable
quarantine_exact drawn sys_id epoch tx_id ArmState.unspecified now checked issued arm r e =
    ground arith
quarantine_exact drawn sys_id epoch tx_id ArmState.armed now checked issued arm r e =
    resolved_key (arm_key sys_id) epoch tx_id _ now checked issued arm _ _ e
    ∙ ap (λ q. leb (now + q) checked) (init_locked-quarantine drawn r)
quarantine_exact drawn sys_id epoch tx_id ArmState.disarmed now checked issued arm r e =
    resolved_key (arm_key sys_id) epoch tx_id _ now checked issued arm _ _ e
    ∙ ap (λ q. leb (now + q) checked) (init_locked-quarantine drawn r)

resolve_key-succeeds :
    (k j : Key) (seen : ArmState) (now : Timestamp) (r : Registry) (tx : CommandTransaction)
    → GoMap.lookup k r.inflight ≡ none
    → Resolves k seen now
        (now + quarantine r)
        r
        tx
        (resolve_key k tx.registry_epoch tx.id seen now r (some tx))
        j
unfolding resolve_key attested
resolve_key-succeeds k j seen now r tx idle = (
  ground (arith, str_eq_iff tx.registry_epoch tx.registry_epoch),
  ground (arith, str_eq_iff tx.registry_epoch tx.registry_epoch, lookup-delete k j r.poisoned),
  ground (
    arith,
    str_eq_iff tx.registry_epoch tx.registry_epoch,
    lookup-insert k j (now + quarantine r) r.quarantined,
  ),
  ground (arith, str_eq_iff tx.registry_epoch tx.registry_epoch),
)

ready-succeeds :
    (drawn : String) (k j : Key) (seen : ArmState) (now : Timestamp) (r : Registry)
    (tx : CommandTransaction)
    → holds k r ≤ 1
    → GoMap.lookup k r.poisoned ≡ some tx
    → Resolves k seen now
        (now + quarantine r)
        r
        tx
        (resolve_key k tx.registry_epoch tx.id seen now
          (init_locked drawn r)
          (GoMap.lookup k (init_locked drawn r).poisoned))
        j
unfolding holds
ready-succeeds drawn k j seen now r tx once held =
    let same = init_locked-maps drawn r in
    let idle : GoMap.lookup k (init_locked drawn r).inflight ≡ none = rw same.0 (ground arith) in
    let kept = resolve_key-succeeds k j seen now (init_locked drawn r) tx idle in
    let wait = init_locked-quarantine drawn r in
    subst
      (λ found.
        Resolves k seen now (now + quarantine r) r tx
          (resolve_key k tx.registry_epoch tx.id seen now (init_locked drawn r) found) j)
      (sym (ap (GoMap.lookup k) same.1 ∙ held))
      (
        kept.0 ∙ ap (λ q. resolved (beside tx seen now (now + q))) wait,
        kept.1 ∙ ap (λ m. if key_beq k j then none else GoMap.lookup j m) same.1,
        kept.2
            ∙ ap
                (λ q.
                  if key_beq k j
                  then some (now + q)
                  else GoMap.lookup j (init_locked drawn r).quarantined)
                wait
            ∙ ap (λ m. if key_beq k j then some (now + quarantine r) else GoMap.lookup j m) same.2,
        kept.3 ∙ ap (GoMap.lookup j) same.0,
      )

-- In every registry that can be reached, an attestation of ARMED or DISARMED with the epoch and the id of the
-- transaction that the vehicle's key holds unresolved succeeds. It gives that transaction back with nothing
-- changed but the attestation beside it; the arm key is no longer unresolved and is quarantined for the
-- configured time, or 30 s where none is set; no other key is touched, and no command in flight is.
pub resolution_keeps :
    (drawn : String) (sys_id : ℕ) (seen : ArmState) (now : Timestamp) (tx : CommandTransaction)
    (j : Key) {r : Registry}
    → Reachable drawn r
    → seen ≢ ArmState.unspecified
    → GoMap.lookup (record { sys_id = sys_id; comp_id = 1; command = 400 }) r.poisoned ≡ some tx
    → Resolves
        (record { sys_id = sys_id; comp_id = 1; command = 400 })
        seen
        now
        (now + hold_ns r.quarantine)
        r
        tx
        (resolve_arm drawn sys_id tx.registry_epoch tx.id seen now r)
        j
unfolding resolve_arm is_attestable quarantine
resolution_keeps drawn sys_id ArmState.unspecified now tx j reached named held = absurd (named refl)
resolution_keeps drawn sys_id ArmState.armed now tx j {r} reached named held =
    ready-succeeds drawn (arm_key sys_id) j _ now r tx (one_map drawn (arm_key sys_id) reached) held
resolution_keeps drawn sys_id ArmState.disarmed now tx j {r} reached named held =
    ready-succeeds drawn (arm_key sys_id) j _ now r tx (one_map drawn (arm_key sys_id) reached) held
