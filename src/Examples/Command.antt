-- ===== src/Examples/Command.antt =====
-- internal/command on one vehicle: an arm command that times out, a stale and a right resolution, and one
-- that is acknowledged.
use yalb_link.Prelude.{
  ◌==◌, pos, ◌+◌, ◌≡◌, ◌≤◌, ◌⊎◌, ◌&&◌, true, false, not, none, some, refl, leb, is_some,
}
use yalb_link.GoMap
use yalb_link.Proto.Transactions.{ArmState, CommandAck, CommandTransaction, Response}
use yalb_link.Vehicle.Event.{Event}
use yalb_link.Command.Registry.{
  Key, key_eq, Pending, Registry, arm_key, new_registry, init_locked, new_tx, arm_state, admit,
  quarantine, remaining_quarantine,
}
use yalb_link.Command.Settle.{
  acked, timer_fired, settle, terminal_state, settled_tx, resolve_arm, resolved, attested, publish,
  is_attestable, resolve_key,
}
use yalb_link.Codec.Encode.{Message, encode_command_long}
use yalb_link.Routes
use yalb_link.Routes.{Table, new_table, upsert}
use yalb_link.Command.Arm.{Begun, encode_arm, begin_arm, finish_arm}
use yalb_link.Command.Handler.{
  BegunWith, arm_request, is_begun, is_free, returned, last, begin_opens, arm_releases,
}
use yalb_link.Command.Steps.{Step, admits, settles, resolves, Reachable, start, after}
use yalb_link.Command.Holds.{holds}
use yalb_link.Command.Exclusive.{one_map}
use yalb_link.Command.Poisoned.{IsResolution, poison_kept}
use yalb_link.Command.Admission.{is_admitted, has_lapsed, admit_iff}
use yalb_link.Command.Unresolved.{Resolves, hold_ns, quarantine_exact, resolution_keeps}

abbrev vehicle : Key
vehicle = arm_key 1

abbrev fresh : Registry
fresh = new_registry 0 0 "a1"

abbrev armed_once : Registry
armed_once = (admit vehicle true 10 20 (init_locked "drawn" fresh)).0

abbrev opened : Pending
opened = record { tx = new_tx vehicle true 1 "a1" 20; ack = none }

armed_once-holds : GoMap.lookup vehicle armed_once.inflight ≡ some opened
unfolding GoMap.lookup GoMap.insert admit init_locked new_registry new_tx arm_state
    remaining_quarantine
armed_once-holds = refl

armed_once-Reachable : Reachable "drawn" armed_once
armed_once-Reachable = after (start 0 0 "a1") (admits vehicle true 10 20)

abbrev timed_out : Registry
timed_out = (settle vehicle timer_fired 3000 opened.tx armed_once).0

timed_out-Reachable : Reachable "drawn" timed_out
timed_out-Reachable =
    after armed_once-Reachable (settles vehicle timer_fired 3000 opened armed_once-holds tt)

abbrev unresolved_tx : CommandTransaction
unresolved_tx = settled_tx timer_fired 3000 opened.tx

timed_out-poisoned : GoMap.lookup vehicle timed_out.poisoned ≡ some unresolved_tx
unfolding GoMap.lookup GoMap.insert admit init_locked new_registry new_tx arm_state
    remaining_quarantine settle settled_tx terminal_state
timed_out-poisoned = refl

-- A resolution that names another transaction.
abbrev stale : Step "drawn" timed_out (resolve_arm "drawn" 1 "a1" 7 ArmState.armed 4000 timed_out).0
stale = resolves 1 "a1" 7 ArmState.armed 4000

poison_kept_example :
    (GoMap.lookup vehicle (resolve_arm "drawn" 1 "a1" 7 ArmState.armed 4000 timed_out).0.poisoned
      ≡ some unresolved_tx)
    ⊎ IsResolution vehicle unresolved_tx stale
poison_kept_example =
    poison_kept "drawn" vehicle unresolved_tx timed_out-Reachable stale timed_out-poisoned

one_map_example : holds vehicle timed_out ≤ 1
one_map_example = one_map "drawn" vehicle timed_out-Reachable

abbrev ack : CommandAck
ack = record {
  command = 400;
  result = 0;
  progress = 255;
  result_param2 = pos 0;
  target_system = 255;
  target_component = 190;
}

abbrev ack_event : Event
ack_event = Event.protocol (record {
  vehicle_id = some (record { system_id = 1; component_id = 1 });
  payload = some (Response.command_ack ack);
})

abbrev acknowledged : Registry
acknowledged = publish "drawn" 30 ack_event armed_once

abbrev answered : Pending
answered = record opened { ack = some ack }

admit_iff_example : is_admitted (admit vehicle false 5000 5001 timed_out).1 ≡ (
    not (is_some (GoMap.lookup vehicle timed_out.poisoned))
    && (has_lapsed (GoMap.lookup vehicle timed_out.quarantined) 5000
        && not (is_some (GoMap.lookup vehicle timed_out.inflight))))
admit_iff_example = admit_iff vehicle false 5000 5001 timed_out

armed_once-free :
    (GoMap.lookup vehicle armed_once.poisoned ≡ none)
    × (GoMap.lookup vehicle armed_once.quarantined ≡ none)
unfolding GoMap.lookup GoMap.insert admit init_locked new_registry new_tx arm_state
    remaining_quarantine
armed_once-free = (refl, refl)

abbrev cleared : Registry
cleared = (resolve_arm "drawn" 1 "a1" 1 ArmState.disarmed 4000 timed_out).0

abbrev attestation : CommandTransaction
attestation = attested ArmState.disarmed 4000 30000004000 unresolved_tx

cleared-resolved :
    resolve_arm "drawn" 1 "a1" 1 ArmState.disarmed 4000 timed_out ≡ (cleared, resolved attestation)
unfolding GoMap.lookup GoMap.insert GoMap.delete admit init_locked new_registry new_tx arm_state
    remaining_quarantine settle settled_tx terminal_state resolve_arm resolve_key is_attestable
    attested quarantine
cleared-resolved = refl

quarantine_exact_example :
    is_admitted (admit vehicle true 9000 9001 cleared).1 ≡ leb (4000 + quarantine timed_out) 9000
quarantine_exact_example =
    quarantine_exact "drawn" 1 "a1" 1 ArmState.disarmed 4000 9000 9001 true timed_out
      cleared-resolved

resolution_keeps_example :
    Resolves vehicle ArmState.disarmed 4000
      (4000 + hold_ns timed_out.quarantine)
      timed_out
      unresolved_tx
      (resolve_arm "drawn" 1 "a1" 1 ArmState.disarmed 4000 timed_out)
      vehicle
unfolding settled_tx new_tx
resolution_keeps_example =
    resolution_keeps "drawn" 1 ArmState.disarmed 4000 unresolved_tx vehicle timed_out-Reachable
      (λ same. absurd (cc)) timed_out-poisoned

abbrev routes : Table
routes =
    upsert
      (record {
        link = "udp:1";
        src_ip = "";
        src_port = pos 0;
        last_seen_ms = 0;
        key = record { sys_id = 1; comp_id = 1 };
      })
      1000 new_table

abbrev arm_message : Message
arm_message = arm_request 1 true

begun :
    begin_arm "drawn" 1 true 2000 10 20 true routes fresh
    ≡ (routes, (armed_once, Begun.opened vehicle opened.tx "udp:1" arm_message))
unfolding GoMap.lookup GoMap.insert admit init_locked new_registry new_tx arm_state
    remaining_quarantine begin_arm encode_arm Routes.lookup Routes.resolve Routes.upsert
    Routes.expired new_table encode_command_long
begun = refl

begin_opens_example :
    (is_begun (begin_arm "drawn" 1 true 2000 10 20 true routes fresh).1.1 ≡ (
      not (1 == 0)
      && (true
          && (is_some (Routes.resolve (record { sys_id = 1; comp_id = 1 }) 2000 routes).1
              && is_free vehicle 10 fresh))))
    × BegunWith 1 true
        (Routes.resolve (record { sys_id = 1; comp_id = 1 }) 2000 routes).1
        (begin_arm "drawn" 1 true 2000 10 20 true routes fresh).1.0
        (begin_arm "drawn" 1 true 2000 10 20 true routes fresh).1.1
begin_opens_example = begin_opens "drawn" 1 true 2000 10 20 true routes fresh

abbrev acknowledge : Registry → Registry
acknowledge r = publish "drawn" 30 ack_event r

arm_releases_example :
    (GoMap.lookup vehicle
        (finish_arm none acknowledge
          (acked ack)
          50
          (armed_once, Begun.opened vehicle opened.tx "udp:1" arm_message)).1.0.inflight
      ≡ none)
    × (last
          (finish_arm none acknowledge
            (acked ack)
            50
            (armed_once, Begun.opened vehicle opened.tx "udp:1" arm_message)).0
        ≡ returned
            (finish_arm none acknowledge
              (acked ack)
              50
              (armed_once, Begun.opened vehicle opened.tx "udp:1" arm_message)).1.1)
arm_releases_example =
    arm_releases none acknowledge (acked ack) 50 armed_once vehicle opened.tx "udp:1" arm_message
