-- ===== src/Command/Exclusive.antt =====
-- A key of internal/command/registry.go is never in two of its maps.
use yalb_link.Prelude.{
  ℕ, ◌+◌, ◌≡◌, ◌≤◌, ap, inl, inr, Bool-cases, Option, none, some, arith, String, refl,
}
use yalb_link.GoMap
use yalb_link.GoMap.Laws.{lookup-insert, lookup-delete}
use yalb_link.Codec.{WriteError}
use yalb_link.Proto.{Timestamp, VehicleId}
use yalb_link.Proto.Transactions.{ArmState, CommandAck, CommandState, CommandTransaction, Response}
use yalb_link.Vehicle.Event.{Event}
use yalb_link.Command.Registry.{
  Key, key_beq_iff, key_eq, Pending, Registry, new_registry, init_locked, arm_key,
  remaining_quarantine, quarantine, quarantine_remaining, admit,
}
use yalb_link.Command.Settle.{
  Cause, settle, settled_tx, write_failed, resolve_arm, resolve_key, is_attestable, offer,
  hand_over, is_ours, sender_key, correlate, publish,
}
use yalb_link.Command.Steps.{
  Step, admits, fails, settles, resolves, queries, publishes, Reachable, start, after,
}
use yalb_link.Command.Holds.{
  holds, Exclusive, init_locked-Exclusive, remaining-Exclusive, remaining-inflight,
  admit_unpoisoned-Exclusive,
}

settle-Exclusive :
    (k : Key) (cause : Cause) (now : Timestamp) (p : Pending) (r : Registry)
    → GoMap.lookup k r.inflight ≡ some p
    → Exclusive r
    → Exclusive (settle k cause now p.tx r).0
unfolding settle Exclusive holds
settle-Exclusive k cause now p r e h j = ground (
  arith,
  h j,
  key_beq_iff k j,
  lookup-delete k j r.inflight,
  lookup-insert k j (settled_tx cause now p.tx) r.poisoned,
)

write_failed-Exclusive :
    (k : Key) (e : WriteError) (now : Timestamp) (p : Pending) (r : Registry)
    → GoMap.lookup k r.inflight ≡ some p
    → Exclusive r
    → Exclusive (write_failed k e now p.tx r).0
unfolding write_failed Exclusive holds
write_failed-Exclusive k WriteError.unknown_link now p r e h j =
    ground (arith, h j, lookup-delete k j r.inflight)
write_failed-Exclusive k WriteError.other now p r e h j = ground (
  arith,
  h j,
  key_beq_iff k j,
  lookup-delete k j r.inflight,
  lookup-insert k j (record p.tx { state = CommandState.send_failed; settled_at = some now })
      r.poisoned,
)

resolve_key-Exclusive :
    (k : Key) (epoch : String) (tx_id : ℕ) (seen : ArmState) (now : Timestamp) (r : Registry)
    (found : Option CommandTransaction)
    → GoMap.lookup k r.poisoned ≡ found
    → Exclusive r
    → Exclusive (resolve_key k epoch tx_id seen now r found).0
unfolding resolve_key Exclusive holds
resolve_key-Exclusive k epoch tx_id seen now r none e h j = h j
resolve_key-Exclusive k epoch tx_id seen now r (some tx) e h j = ground (
  arith,
  h j,
  key_beq_iff k j,
  lookup-delete k j r.poisoned,
  lookup-insert k j (now + quarantine r) r.quarantined,
)

resolve_arm-Exclusive :
    (drawn : String) (sys_id : ℕ) (epoch : String) (tx_id : ℕ) (seen : ArmState) (now : Timestamp)
    (r : Registry)
    → Exclusive r
    → Exclusive (resolve_arm drawn sys_id epoch tx_id seen now r).0
unfolding resolve_arm is_attestable
resolve_arm-Exclusive drawn sys_id epoch tx_id ArmState.unspecified now r h = h
resolve_arm-Exclusive drawn sys_id epoch tx_id ArmState.armed now r h =
    resolve_key-Exclusive _ epoch tx_id _ now _ _ refl (init_locked-Exclusive drawn r h)
resolve_arm-Exclusive drawn sys_id epoch tx_id ArmState.disarmed now r h =
    resolve_key-Exclusive _ epoch tx_id _ now _ _ refl (init_locked-Exclusive drawn r h)

hand_over-Exclusive :
    (k : Key) (ack : CommandAck) (x : Registry × Option ℕ) (found : Option Pending)
    → GoMap.lookup k x.0.inflight ≡ found
    → Exclusive x.0
    → Exclusive (hand_over k ack x found)
unfolding hand_over Exclusive holds
hand_over-Exclusive k ack (r, left) none e h j = h j
hand_over-Exclusive k ack (r, left) (some p) e h j =
    ground (arith, h j, e, key_beq_iff k j, lookup-insert k j (offer ack p) r.inflight)

correlate-Exclusive :
    (drawn : String) (now : Timestamp) (id : Option VehicleId) (payload : Option Response)
    (r : Registry)
    → Exclusive r
    → Exclusive (correlate drawn now id payload r)
unfolding correlate remaining_quarantine
correlate-Exclusive drawn now (some id) (some (Response.command_ack ack)) r h =
    let k = sender_key id ack in
    let ready = init_locked drawn r in
    elim (Bool-cases (is_ours ack)) [
      | inl hit ↦ ground (
        arith,
        hand_over-Exclusive k ack (remaining_quarantine k now ready) _
            (ap (GoMap.lookup k) (remaining-inflight k now ready _))
            (remaining-Exclusive k now ready _ (init_locked-Exclusive drawn r h)),
      )
      | inr miss ↦ ground arith
    ]
correlate-Exclusive drawn now _ _ r h = h

publish-Exclusive :
    (drawn : String) (now : Timestamp) (ev : Event) (r : Registry)
    → Exclusive r
    → Exclusive (publish drawn now ev r)
unfolding publish
publish-Exclusive drawn now (Event.protocol ev) r h =
    correlate-Exclusive drawn now ev.vehicle_id ev.payload r h
publish-Exclusive drawn now _ r h = h

step-Exclusive : (drawn : String) {r s : Registry} → Step drawn r s → Exclusive r → Exclusive s
unfolding admit quarantine_remaining remaining_quarantine
step-Exclusive drawn {r} (admits k arm checked issued) h =
    admit_unpoisoned-Exclusive k arm checked issued _ _ refl (init_locked-Exclusive drawn r h)
step-Exclusive drawn {r} (fails k e now p held) h = write_failed-Exclusive k e now p r held h
step-Exclusive drawn {r} (settles k cause now p held _) h = settle-Exclusive k cause now p r held h
step-Exclusive drawn {r} (resolves sys_id epoch tx_id seen now) h =
    resolve_arm-Exclusive drawn sys_id epoch tx_id seen now r h
step-Exclusive drawn {r} (queries sys_id now) h =
    remaining-Exclusive (arm_key sys_id) now _ _ (init_locked-Exclusive drawn r h)
step-Exclusive drawn {r} (publishes now ev) h = publish-Exclusive drawn now ev r h

Reachable-Exclusive : (drawn : String) {r : Registry} → Reachable drawn r → Exclusive r
unfolding new_registry Exclusive holds GoMap.lookup
Reachable-Exclusive drawn (start t q epoch) = λ k. ground arith
Reachable-Exclusive drawn (after before step) =
    step-Exclusive drawn step (Reachable-Exclusive drawn before)

-- After any sequence of admissions, failed writes, settlements, resolutions, queries and published events
-- from a new registry, no key is in two of the maps of commands in flight, of unresolved commands and of
-- quarantines.
pub one_map : (drawn : String) (k : Key) {r : Registry} → Reachable drawn r → holds k r ≤ 1
unfolding Exclusive
one_map drawn k reached = Reachable-Exclusive drawn reached k
