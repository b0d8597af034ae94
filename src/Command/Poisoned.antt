-- ===== src/Command/Poisoned.antt =====
-- An unresolved command of internal/command/registry.go stays until the operator resolves that very one.
use yalb_link.Prelude.{
  ℕ, ◌≡◌, ◌≤◌, ◌⊎◌, ◌∙◌, ap, inl, Bool, Option, none, some, arith, String, refl, str_eq_iff,
}
use yalb_link.GoMap
use yalb_link.GoMap.Laws.{lookup-insert, lookup-delete}
use yalb_link.Codec.{WriteError}
use yalb_link.Proto.{Timestamp, VehicleId}
use yalb_link.Proto.Transactions.{ArmState, CommandAck, CommandState, CommandTransaction, Response}
use yalb_link.Vehicle.Event.{Event}
use yalb_link.Command.Registry.{
  Key, key_beq_iff, key_eq, Pending, Registry, init_locked, arm_key, remaining_quarantine,
  quarantine_remaining, admit, admit_idle, admit_free, admit_unpoisoned,
}
use yalb_link.Command.Settle.{
  Cause, settle, settled_tx, write_failed, resolve_arm, resolve_key, hand_over, sender_key,
  correlate, publish,
}
use yalb_link.Command.Holds.{holds, remaining-poisoned}
use yalb_link.Command.Exclusive.{one_map}
use yalb_link.Command.Steps.{Step, admits, fails, settles, resolves, queries, publishes, Reachable}

init_locked-poisoned : (drawn : String) (r : Registry) → (init_locked drawn r).poisoned ≡ r.poisoned
unfolding init_locked
init_locked-poisoned drawn r = ground arith

admit_idle-poisoned :
    (k : Key) (arm : Bool) (issued : Timestamp) (r : Registry) (found : Option Pending)
    → (admit_idle k arm issued r found).0.poisoned ≡ r.poisoned
unfolding admit_idle
admit_idle-poisoned k arm issued r none = refl
admit_idle-poisoned k arm issued r (some p) = refl

admit_free-poisoned :
    (k : Key) (arm : Bool) (issued : Timestamp) (x : Registry × Option ℕ)
    → (admit_free k arm issued x).0.poisoned ≡ x.0.poisoned
unfolding admit_free
admit_free-poisoned k arm issued (r, some left) = refl
admit_free-poisoned k arm issued (r, none) = admit_idle-poisoned k arm issued r _

admit_unpoisoned-poisoned :
    (k : Key) (arm : Bool) (checked issued : Timestamp) (r : Registry)
    (found : Option CommandTransaction)
    → (admit_unpoisoned k arm checked issued r found).0.poisoned ≡ r.poisoned
unfolding admit_unpoisoned remaining_quarantine
admit_unpoisoned-poisoned k arm checked issued r (some tx) = refl
admit_unpoisoned-poisoned k arm checked issued r none =
    admit_free-poisoned k arm issued (remaining_quarantine k checked r)
    ∙ remaining-poisoned k checked r _

hand_over-poisoned :
    (k : Key) (ack : CommandAck) (x : Registry × Option ℕ) (found : Option Pending)
    → (hand_over k ack x found).poisoned ≡ x.0.poisoned
unfolding hand_over
hand_over-poisoned k ack (r, left) none = refl
hand_over-poisoned k ack (r, left) (some p) = ground arith

correlate-poisoned :
    (drawn : String) (now : Timestamp) (id : Option VehicleId) (payload : Option Response)
    (r : Registry)
    → (correlate drawn now id payload r).poisoned ≡ r.poisoned
unfolding correlate remaining_quarantine
correlate-poisoned drawn now (some id) (some (Response.command_ack ack)) r =
    let k = sender_key id ack in
    let ready = init_locked drawn r in
    ground (
      arith,
      init_locked-poisoned drawn r,
      remaining-poisoned k now ready (GoMap.lookup k ready.quarantined),
      hand_over-poisoned k ack (remaining_quarantine k now ready) (GoMap.lookup k ready.inflight),
    )
correlate-poisoned drawn now _ _ r = refl

publish-poisoned :
    (drawn : String) (now : Timestamp) (ev : Event) (r : Registry)
    → (publish drawn now ev r).poisoned ≡ r.poisoned
unfolding publish
publish-poisoned drawn now (Event.protocol ev) r =
    correlate-poisoned drawn now ev.vehicle_id ev.payload r
publish-poisoned drawn now _ r = refl

-- The step is a resolution of this key with the epoch and the id of this transaction.
abbrev pub IsResolution :
    {drawn : String} {r s : Registry} → Key → CommandTransaction → Step drawn r s → Type 0
IsResolution k tx (resolves sys_id epoch tx_id seen now) =
    (arm_key sys_id ≡ k) × (epoch ≡ tx.registry_epoch) × (tx_id ≡ tx.id)
IsResolution k tx _ = ⊥

resolve_key-keeps :
    (k j : Key) (epoch : String) (tx_id : ℕ) (seen : ArmState) (now : Timestamp) (r : Registry)
    (found : Option CommandTransaction) (tx : CommandTransaction)
    → GoMap.lookup k r.poisoned ≡ found
    → GoMap.lookup j r.poisoned ≡ some tx
    → (GoMap.lookup j (resolve_key k epoch tx_id seen now r found).0.poisoned ≡ some tx)
      ⊎ ((k ≡ j) × (epoch ≡ tx.registry_epoch) × (tx_id ≡ tx.id))
unfolding resolve_key
resolve_key-keeps k j epoch tx_id seen now r none tx e h = inl h
resolve_key-keeps k j epoch tx_id seen now r (some held) tx e h =
    ground
      (arith, key_beq_iff k j, str_eq_iff held.registry_epoch epoch, lookup-delete k j r.poisoned)

resolve_arm-keeps :
    (drawn : String) (j : Key) (sys_id : ℕ) (epoch : String) (tx_id : ℕ) (seen : ArmState)
    (now : Timestamp) (r : Registry) (tx : CommandTransaction)
    → GoMap.lookup j r.poisoned ≡ some tx
    → (GoMap.lookup j (resolve_arm drawn sys_id epoch tx_id seen now r).0.poisoned ≡ some tx)
      ⊎ ((arm_key sys_id ≡ j) × (epoch ≡ tx.registry_epoch) × (tx_id ≡ tx.id))
unfolding resolve_arm
resolve_arm-keeps drawn j sys_id epoch tx_id seen now r tx h = ground (
  arith,
  init_locked-poisoned drawn r,
  resolve_key-keeps (arm_key sys_id) j epoch tx_id seen now (init_locked drawn r)
      (GoMap.lookup (arm_key sys_id) (init_locked drawn r).poisoned) tx refl,
)

write_failed-keeps :
    (k j : Key) (e : WriteError) (now : Timestamp) (p : Pending) (r : Registry)
    (tx : CommandTransaction)
    → GoMap.lookup k r.inflight ≡ some p
    → holds j r ≤ 1
    → GoMap.lookup j r.poisoned ≡ some tx
    → GoMap.lookup j (write_failed k e now p.tx r).0.poisoned ≡ some tx
unfolding write_failed holds
write_failed-keeps k j WriteError.unknown_link now p r tx held once h = h
write_failed-keeps k j WriteError.other now p r tx held once h = ground (
  arith,
  key_beq_iff k j,
  lookup-insert k j (record p.tx { state = CommandState.send_failed; settled_at = some now })
      r.poisoned,
)

settle-keeps :
    (k j : Key) (cause : Cause) (now : Timestamp) (p : Pending) (r : Registry)
    (tx : CommandTransaction)
    → GoMap.lookup k r.inflight ≡ some p
    → holds j r ≤ 1
    → GoMap.lookup j r.poisoned ≡ some tx
    → GoMap.lookup j (settle k cause now p.tx r).0.poisoned ≡ some tx
unfolding settle holds
settle-keeps k j cause now p r tx held once h =
    ground (arith, key_beq_iff k j, lookup-insert k j (settled_tx cause now p.tx) r.poisoned)

-- In every reachable registry, a step leaves an unresolved transaction of a key where it is, unless the step
-- is a resolution for that key that names the transaction's epoch and id. No timer, acknowledgement,
-- settlement or new request lifts it.
pub poison_kept :
    (drawn : String) (k : Key) (tx : CommandTransaction) {r s : Registry}
    → Reachable drawn r
    → (step : Step drawn r s) → GoMap.lookup k r.poisoned ≡ some tx
    → (GoMap.lookup k s.poisoned ≡ some tx) ⊎ IsResolution k tx step
unfolding admit quarantine_remaining remaining_quarantine
poison_kept drawn k tx {r} reached (admits j arm checked issued) h = inl (
    ap (GoMap.lookup k) (
      admit_unpoisoned-poisoned j arm checked issued (init_locked drawn r) _
      ∙ init_locked-poisoned drawn r)
    ∙ h)
poison_kept drawn k tx {r} reached (fails j e now p held) h =
    inl (write_failed-keeps j k e now p r tx held (one_map drawn k reached) h)
poison_kept drawn k tx {r} reached (settles j cause now p held _) h =
    inl (settle-keeps j k cause now p r tx held (one_map drawn k reached) h)
poison_kept drawn k tx {r} reached (resolves sys_id epoch tx_id seen now) h =
    resolve_arm-keeps drawn k sys_id epoch tx_id seen now r tx h
poison_kept drawn k tx {r} reached (queries sys_id now) h = inl (
    ap (GoMap.lookup k) (
      remaining-poisoned (arm_key sys_id) now (init_locked drawn r) _
      ∙ init_locked-poisoned drawn r)
    ∙ h)
poison_kept drawn k tx {r} reached (publishes now ev) h =
    inl (ap (GoMap.lookup k) (publish-poisoned drawn now ev r) ∙ h)
