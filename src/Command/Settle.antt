-- ===== src/Command/Settle.antt =====
-- How a pending command of internal/command/registry.go ends: the failed write, the terminal state, the
-- operator's resolution, and the acknowledgement that Publish hands over.
use yalb_link.Prelude.{
  ℕ, ◌+◌, ◌%◌, Bool, true, false, not, ◌||◌, Option, none, some, ◌==◌, if◌then◌else◌, is_some,
  String, str_eq,
}
use yalb_link.GoMap
use yalb_link.Codec.{gcs_system_id, gcs_component_id, WriteError}
use yalb_link.Proto.{Timestamp, VehicleId}
use yalb_link.Proto.Transactions.{ArmState, CommandAck, CommandState, CommandTransaction, Response}
use yalb_link.Vehicle.Event.{Event}
use yalb_link.Command.Registry.{
  Key, key_eq, Pending, Registry, init_locked, arm_key, remaining_quarantine, quarantine,
  operator_label,
}

-- MAV_RESULT_ACCEPTED, MAV_RESULT_IN_PROGRESS
abbrev pub result_accepted : ℕ
result_accepted = 0

abbrev pub result_in_progress : ℕ
result_in_progress = 5

-- What ended the wait of Arm: its channel held this acknowledgement, the timer, or the context.
pub data Cause : Type 0 where
  acked : CommandAck → Cause
  timer_fired context_done : Cause

unfoldable pub terminal_state : Cause → CommandState
terminal_state (acked ack) =
    if ack.result == result_accepted then CommandState.accepted else CommandState.rejected
terminal_state timer_fired = CommandState.timed_out
terminal_state context_done = CommandState.cancelled

abbrev pub with_result : Cause → CommandTransaction → CommandTransaction
with_result (acked ack) tx = record tx { result = ack.result; result_param2 = ack.result_param2 }
with_result _ tx = tx

unfoldable pub settled_tx : Cause → Timestamp → CommandTransaction → CommandTransaction
unfolding terminal_state
settled_tx cause now tx =
    with_result cause (record tx { state = terminal_state cause; settled_at = some now })

-- TIMED_OUT and CANCELLED leave it open what the vehicle did.
abbrev pub is_ambiguous : CommandState → Bool
is_ambiguous CommandState.timed_out = true
is_ambiguous CommandState.cancelled = true
is_ambiguous _ = false

-- The locked section of Arm after its wait, and the transaction it returns and publishes.
unfoldable pub settle :
    Key → Cause → Timestamp → CommandTransaction → Registry → Registry × CommandTransaction
unfolding settled_tx terminal_state
settle k cause now tx r =
    let out = settled_tx cause now tx in
    (
      record r {
        inflight = GoMap.delete k r.inflight;
        poisoned =
            if is_ambiguous (terminal_state cause)
            then GoMap.insert k out r.poisoned
            else r.poisoned;
      },
      out,
    )

-- The locked section of Arm after a failed write; no transaction stands for ErrNoRoute.
unfoldable pub write_failed :
    Key
    → WriteError
    → Timestamp
    → CommandTransaction
    → Registry
    → Registry × Option CommandTransaction
write_failed k WriteError.unknown_link now tx r =
    (record r { inflight = GoMap.delete k r.inflight }, none)
write_failed k WriteError.other now tx r =
    let out = record tx { state = CommandState.send_failed; settled_at = some now } in
    (
      record r { inflight = GoMap.delete k r.inflight; poisoned = GoMap.insert k out r.poisoned },
      some out,
    )

pub data ResolveError : Type 0 where
  invalid_observed not_poisoned stale_ref in_flight : ResolveError

pub data Resolved : Type 0 where
  resolved : CommandTransaction → Resolved
  unresolved : ResolveError → Resolved

unfoldable pub is_attestable : ArmState → Bool
is_attestable ArmState.unspecified = false
is_attestable _ = true

unfoldable pub attested : ArmState → Timestamp → Timestamp → CommandTransaction → CommandTransaction
attested observed now until tx = record tx {
  resolution = some (record {
    observed_state = observed;
    operator_label = operator_label;
    attested_at = now;
    quarantine_until = until;
  });
}

unfoldable pub resolve_key :
    Key
    → String
    → ℕ
    → ArmState
    → Timestamp
    → Registry
    → Option CommandTransaction
    → Registry × Resolved
unfolding attested
resolve_key k epoch tx_id observed now r none = (r, unresolved ResolveError.not_poisoned)
resolve_key k epoch tx_id observed now r (some tx) =
    let until = now + quarantine r in
    if not (str_eq tx.registry_epoch epoch) || not (tx.id == tx_id)
    then (r, unresolved ResolveError.stale_ref)
    else if is_some (GoMap.lookup k r.inflight)
    then (r, unresolved ResolveError.in_flight)
    else (
      record r {
        poisoned = GoMap.delete k r.poisoned;
        quarantined = GoMap.insert k until r.quarantined;
      },
      resolved (attested observed now until tx),
    )

-- ResolveArm; `drawn` is what newEpoch would draw. It publishes what it returns.
unfoldable pub resolve_arm :
    String → ℕ → String → ℕ → ArmState → Timestamp → Registry → Registry × Resolved
unfolding resolve_key
resolve_arm drawn sys_id epoch tx_id observed now r =
    let k = arm_key sys_id in
    let ready = init_locked drawn r in
    if is_attestable observed
    then resolve_key k epoch tx_id observed now ready (GoMap.lookup k ready.poisoned)
    else (r, unresolved ResolveError.invalid_observed)

-- The send on the channel that never blocks: a full channel drops the acknowledgement.
unfoldable pub offer : CommandAck → Pending → Pending
offer ack p = record p { ack = if is_some p.ack then p.ack else some ack }

unfoldable pub accepts : Bool → Bool → CommandAck → Bool
accepts poisoned quarantined ack =
    not (poisoned || (quarantined || ack.result == result_in_progress))

unfoldable pub hand_over : Key → CommandAck → Registry × Option ℕ → Option Pending → Registry
unfolding accepts offer
hand_over k ack (r, left) none = r
hand_over k ack (r, left) (some p) =
    if accepts (is_some (GoMap.lookup k r.poisoned)) (is_some left) ack
    then record r { inflight = GoMap.insert k (offer ack p) r.inflight }
    else r

unfoldable pub is_ours : CommandAck → Bool
is_ours ack =
    not (not (ack.target_system == gcs_system_id) || not (ack.target_component == gcs_component_id))

-- The ids are cut to a byte, as uint8(...) does.
abbrev pub sender_key : VehicleId → CommandAck → Key
sender_key id ack = record {
  sys_id = id.system_id % 256;
  comp_id = id.component_id % 256;
  command = ack.command;
}

unfoldable pub correlate :
    String → Timestamp → Option VehicleId → Option Response → Registry → Registry
unfolding hand_over is_ours
correlate drawn now (some id) (some (Response.command_ack ack)) r =
    let k = sender_key id ack in
    let ready = init_locked drawn r in
    if is_ours ack
    then hand_over k ack (remaining_quarantine k now ready) (GoMap.lookup k ready.inflight)
    else r
correlate drawn now _ _ r = r

-- Publish; the event's response reaches the pending command it acknowledges.
unfoldable pub publish : String → Timestamp → Event → Registry → Registry
unfolding correlate
publish drawn now (Event.protocol ev) r = correlate drawn now ev.vehicle_id ev.payload r
publish drawn now _ r = r
