-- ===== src/Command/Steps.antt =====
-- What may happen to the registry of internal/command/registry.go, one locked section at a time, in any
-- order: the interleavings of its concurrent calls.
use yalb_link.Prelude.{ℕ, ◌≡◌, Bool, some, String}
use yalb_link.GoMap
use yalb_link.Codec.{WriteError}
use yalb_link.Proto.{Timestamp}
use yalb_link.Proto.Transactions.{ArmState}
use yalb_link.Vehicle.Event.{Event}
use yalb_link.Command.Registry.{
  Key, key_eq, Pending, Registry, new_registry, init_locked, admit, quarantine_remaining,
}
use yalb_link.Command.Settle.{Cause, acked, settle, write_failed, resolve_arm, publish}

-- An acknowledgement that ends a wait is the one the pending command's channel holds.
abbrev pub CanEnd : Pending → Cause → Type 0
CanEnd p (acked ack) = p.ack ≡ some ack
CanEnd p _ = Unit

-- `drawn` is what newEpoch draws if the section is the first. A call that failed to write or whose wait
-- ended is the one that opened the pending command.
pub data Step (drawn : String) : Registry → Registry → Type 0 where
  admits :
      {r : Registry} (k : Key) (arm : Bool) (checked issued : Timestamp)
      → Step drawn r (admit k arm checked issued (init_locked drawn r)).0
  fails :
      {r : Registry} (k : Key) (e : WriteError) (now : Timestamp) (p : Pending)
      → GoMap.lookup k r.inflight ≡ some p
      → Step drawn r (write_failed k e now p.tx r).0
  settles :
      {r : Registry} (k : Key) (cause : Cause) (now : Timestamp) (p : Pending)
      → GoMap.lookup k r.inflight ≡ some p
      → CanEnd p cause
      → Step drawn r (settle k cause now p.tx r).0
  resolves :
      {r : Registry} (sys_id : ℕ) (epoch : String) (tx_id : ℕ) (seen : ArmState) (now : Timestamp)
      → Step drawn r (resolve_arm drawn sys_id epoch tx_id seen now r).0
  queries :
      {r : Registry} (sys_id : ℕ) (now : Timestamp)
      → Step drawn r (quarantine_remaining drawn sys_id now r).0
  publishes : {r : Registry} (now : Timestamp) (ev : Event) → Step drawn r (publish drawn now ev r)

pub data Reachable (drawn : String) : Registry → Type 0 where
  start :
      (timeout quarantine : ℕ) (epoch : String)
      → Reachable drawn (new_registry timeout quarantine epoch)
  after : {r s : Registry} → Reachable drawn r → Step drawn r s → Reachable drawn s
