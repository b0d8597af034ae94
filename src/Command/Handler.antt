-- ===== src/Command/Handler.antt =====
-- Arm of internal/command/registry.go from end to end: what it opens, and what it leaves.
use mathlib.Core.Path.{subst}
use yalb_link.Prelude.{
  zero, suc, not, ◌&&◌, ◌==◌, ◌∙◌, is_some, if◌then◌else◌, ℕ, ◌+◌, ◌%◌, ◌^◌, ◌≡◌, refl, sym, ap,
  Bool, true, false, Option, none, some, List, [], ◌∷◌, String, arith,
}
use yalb_link.GoMap
use yalb_link.GoMap.Laws.{lookup-insert_self, lookup-delete_self}
use yalb_link.Codec.{LinkId, WriteError, autopilot_component_id}
use yalb_link.Codec.Encode.{Message, encode_command_long}
use yalb_link.Proto.{Timestamp}
use yalb_link.Proto.Transactions.{ArmState, CommandState, CommandTransaction}
use yalb_link.Routes.{Table, resolve}
use yalb_link.Command.Registry.{
  Key, key_eq, Pending, Registry, Admission, arm_key, init_locked, remaining_quarantine, admit,
  admit_idle, admit_free, admit_unpoisoned, new_tx, arm_state,
}
use yalb_link.Command.Settle
use yalb_link.Command.Settle.{Cause, settle}
use yalb_link.Command.Admission.{is_admitted, has_lapsed, admit_iff}
use yalb_link.Command.Unresolved.{init_locked-maps}
use yalb_link.Command.Arm.{
  Begun, encode_arm, opened_by, routed, begin_encoded, begin_arm, Finished, failed, settled,
  ArmError, finish_arm, after_failure, after_settlement,
}

-- The key holds the transaction in flight, with no acknowledgement yet; it is pending and asks
-- the vehicle for the state.
abbrev pub IsOpen : Key → Bool → CommandTransaction → Registry → Type 0
IsOpen k arm tx s =
    (GoMap.lookup k s.inflight ≡ some (record { tx = tx; ack = none }))
    × (tx.state ≡ CommandState.pending)
    × (tx.requested_state ≡ (if arm then ArmState.armed else ArmState.disarmed))
    × (tx.vehicle_id ≡ record { system_id = k.sys_id; component_id = k.comp_id })
    × (tx.command ≡ k.command)

admit_idle-IsOpen :
    (k : Key) (arm : Bool) (issued : Timestamp) (r : Registry) (found : Option Pending)
    {s : Registry} {tx : CommandTransaction}
    → admit_idle k arm issued r found ≡ (s, Admission.admitted tx)
    → IsOpen k arm tx s
unfolding admit_idle new_tx arm_state
admit_idle-IsOpen k arm issued r (some p) e = absurd (ground arith)
admit_idle-IsOpen k arm issued r none e = (
  ground (
    arith,
    lookup-insert_self k
        (record { tx = new_tx k arm ((r.next_id + 1) % 2 ^ 32) r.epoch issued; ack = none })
        r.inflight,
  ),
  ground arith,
  ground arith,
  ground arith,
  ground arith,
)

admit_free-IsOpen :
    (k : Key) (arm : Bool) (issued : Timestamp) (x : Registry × Option ℕ) {s : Registry}
    {tx : CommandTransaction}
    → admit_free k arm issued x ≡ (s, Admission.admitted tx)
    → IsOpen k arm tx s
unfolding admit_free
admit_free-IsOpen k arm issued (r, some left) e = absurd (ground arith)
admit_free-IsOpen k arm issued (r, none) e = admit_idle-IsOpen k arm issued r _ e

admit-IsOpen :
    (k : Key) (arm : Bool) (checked issued : Timestamp) (r : Registry)
    (found : Option CommandTransaction) {s : Registry} {tx : CommandTransaction}
    → admit_unpoisoned k arm checked issued r found ≡ (s, Admission.admitted tx)
    → IsOpen k arm tx s
unfolding admit_unpoisoned
admit-IsOpen k arm checked issued r (some held) e = absurd (ground arith)
admit-IsOpen k arm checked issued r none e =
    admit_free-IsOpen k arm issued (remaining_quarantine k checked r) e

opened_by-admitted :
    (j : Key) (to : LinkId) (out : Message) (x : Registry × Admission) {k : Key} {s : Registry}
    {tx : CommandTransaction} {link : LinkId} {msg : Message}
    → opened_by j to out x ≡ (s, Begun.opened k tx link msg)
    → (x ≡ (s, Admission.admitted tx)) × (k ≡ j) × (link ≡ to) × (msg ≡ out)
unfolding opened_by
opened_by-admitted j to out (r, Admission.poisoned held) e = absurd (ground arith)
opened_by-admitted j to out (r, Admission.quarantined left) e = absurd (ground arith)
opened_by-admitted j to out (r, Admission.in_flight) e = absurd (ground arith)
opened_by-admitted j to out (r, Admission.admitted tx) e =
    (ground arith, ground arith, ground arith, ground arith)

-- The arm or disarm command for an autopilot: MAV_CMD_COMPONENT_ARM_DISARM with the float32 1 or 0.
abbrev pub arm_request : ℕ → Bool → Message
arm_request sys_id arm = Message.command_long (record {
  target = record { system_id = sys_id; component_id = 1 };
  command = 400;
  confirmation = 0;
  param1 = if arm then 1065353216 else 0;
  param2 = 0;
  param3 = 0;
  param4 = 0;
  param5 = 0;
  param6 = 0;
  param7 = 0;
})

encode_arm-request :
    (sys_id : ℕ) (arm : Bool) {msg : Message}
    → encode_arm sys_id arm ≡ some msg
    → msg ≡ arm_request sys_id arm
unfolding encode_arm encode_command_long
encode_arm-request zero arm h = absurd (cc)
encode_arm-request (suc n) arm h = sym (cc)

abbrev pub is_begun : Begun → Bool
is_begun (Begun.refused e) = false
is_begun (Begun.opened k tx link msg) = true

-- The key takes a command: nothing of its is unresolved, quarantined still or in flight.
abbrev pub is_free : Key → Timestamp → Registry → Bool
is_free k checked r =
    not (is_some (GoMap.lookup k r.poisoned))
    && (has_lapsed (GoMap.lookup k r.quarantined) checked
        && not (is_some (GoMap.lookup k r.inflight)))

-- With what a call came to its write, if it did.
abbrev pub BegunWith : ℕ → Bool → Option LinkId → Registry → Begun → Type 0
BegunWith sys_id arm to s (Begun.refused e) = Unit
BegunWith sys_id arm to s (Begun.opened k tx link msg) =
    (k ≡ record { sys_id = sys_id; comp_id = 1; command = 400 })
    × (to ≡ some link)
    × (msg ≡ arm_request sys_id arm)
    × IsOpen k arm tx s

module _ (drawn : String) (sys_id : ℕ) (arm : Bool) (now_ms : ℕ) (checked issued : Timestamp) where
  -- What holds where a call was opened, of the route and the message it started from.
  Opened :
      Option Message
      → Option LinkId
      → Key
      → CommandTransaction
      → LinkId
      → Message
      → Registry
      → Type 0
  Opened out to k tx link msg s =
      (k ≡ arm_key sys_id) × (to ≡ some link) × (out ≡ some msg) × IsOpen k arm tx s

  routed-Opened :
      (out : Message) (r : Registry) (x : Table × Option LinkId) {t : Table} {s : Registry}
      {k : Key} {tx : CommandTransaction} {link : LinkId} {msg : Message}
      → routed drawn sys_id arm now_ms checked issued out r x ≡ (t, (s, Begun.opened k tx link msg))
      → Opened (some out) x.1 k tx link msg s
  unfolding routed admit Opened
  routed-Opened out r (t, none) e = absurd (ground arith)
  routed-Opened out r (t, some to) {s = s} {k} {tx} e =
      let (admits, same_key, same_link, same_msg) =
        opened_by-admitted (arm_key sys_id) to out _ (ap (λ y. y.1) e) in
      (
        same_key,
        ap some (sym same_link),
        ap some (sym same_msg),
        subst (λ j. IsOpen j arm tx s) (sym same_key)
            (admit-IsOpen (arm_key sys_id) arm checked issued (init_locked drawn r)
              (GoMap.lookup (arm_key sys_id) (init_locked drawn r).poisoned) admits),
      )

  begin_encoded-Opened :
      (out : Option Message) (configured : Bool) (t : Table) (r : Registry) {t' : Table}
      {s : Registry} {k : Key} {tx : CommandTransaction} {link : LinkId} {msg : Message}
      → begin_encoded drawn sys_id arm now_ms checked issued out configured t r
        ≡ (t', (s, Begun.opened k tx link msg))
      → Opened out
          (resolve (record { sys_id = sys_id; comp_id = autopilot_component_id }) now_ms t).1
          k
          tx
          link
          msg
          s
  unfolding begin_encoded
  begin_encoded-Opened none configured t r e = absurd (ground arith)
  begin_encoded-Opened (some out) false t r e = absurd (ground arith)
  begin_encoded-Opened (some out) true t r e = routed-Opened out r _ e

  begin_arm-Opened :
      (configured : Bool) (t : Table) (r : Registry) (x : Table × (Registry × Begun))
      → begin_arm drawn sys_id arm now_ms checked issued configured t r ≡ x
      → BegunWith sys_id arm
          (resolve (record { sys_id = sys_id; comp_id = 1 }) now_ms t).1
          x.1.0
          x.1.1
  unfolding begin_arm Opened
  begin_arm-Opened configured t r (t', (s, Begun.refused e)) h = tt
  begin_arm-Opened configured t r (t', (s, Begun.opened k tx link msg)) h =
      let (same_key, routed_to, out, open_tx) = begin_encoded-Opened _ configured t r h in
      (same_key, routed_to, encode_arm-request sys_id arm out, open_tx)

  opened_by-is_begun :
      (k : Key) (link : LinkId) (msg : Message) (x : Registry × Admission)
      → is_begun (opened_by k link msg x).1 ≡ is_admitted x.1
  unfolding opened_by is_admitted
  opened_by-is_begun k link msg (r, Admission.poisoned held) = refl
  opened_by-is_begun k link msg (r, Admission.quarantined left) = refl
  opened_by-is_begun k link msg (r, Admission.in_flight) = refl
  opened_by-is_begun k link msg (r, Admission.admitted tx) = refl

  routed-is_begun :
      (msg : Message) (r : Registry) (x : Table × Option LinkId)
      → is_begun (routed drawn sys_id arm now_ms checked issued msg r x).1.1
        ≡ (is_some x.1 && is_free (arm_key sys_id) checked r)
  unfolding routed
  routed-is_begun msg r (t, none) = refl
  routed-is_begun msg r (t, some link) =
      let k = arm_key sys_id in
      let maps = init_locked-maps drawn r in
      let free : is_free k checked (init_locked drawn r) ≡ is_free k checked r =
        rw (maps.0, maps.1, maps.2) refl in
      opened_by-is_begun k link msg (admit k arm checked issued (init_locked drawn r))
      ∙ admit_iff k arm checked issued (init_locked drawn r)
      ∙ free

  begin_encoded-is_begun :
      (n : ℕ) (configured : Bool) (t : Table) (r : Registry)
      → n ≡ sys_id
      → is_begun
          (begin_encoded drawn sys_id arm now_ms checked issued
            (encode_arm n arm)
            configured
            t
            r).1.1
        ≡ (not (n == 0)
            && (configured
                && (is_some (resolve (record { sys_id = sys_id; comp_id = 1 }) now_ms t).1
                    && is_free (arm_key sys_id) checked r)))
  unfolding begin_encoded encode_arm
  begin_encoded-is_begun zero configured t r h = refl
  begin_encoded-is_begun (suc n) false t r h = ground arith
  begin_encoded-is_begun (suc n) true t r h =
      routed-is_begun _ r (resolve (record { sys_id = sys_id; comp_id = 1 }) now_ms t)
      ∙ ap
          (λ b.
            b
            && (is_some (resolve (record { sys_id = sys_id; comp_id = 1 }) now_ms t).1
                && is_free (arm_key sys_id) checked r))
          positive
    where
      positive : true ≡ not (suc n == 0)
      positive = ground arith

  -- Arm comes to its write exactly if the system id is not 0, source and routes are configured, the autopilot
  -- has a live route, and its arm key is free: not unresolved, not quarantined any more and not in flight.
  -- It then writes COMMAND_LONG 400 to component 1 with 1 or 0 for arm or disarm over that route, and the
  -- key holds in flight a pending transaction of that vehicle and command that asks for that state.
  pub begin_opens :
      (configured : Bool) (t : Table) (r : Registry)
      → (is_begun (begin_arm drawn sys_id arm now_ms checked issued configured t r).1.1 ≡ (
          not (sys_id == 0)
          && (configured
              && (is_some (resolve (record { sys_id = sys_id; comp_id = 1 }) now_ms t).1
                  && is_free (record { sys_id = sys_id; comp_id = 1; command = 400 }) checked r))))
        × BegunWith sys_id arm
            (resolve (record { sys_id = sys_id; comp_id = 1 }) now_ms t).1
            (begin_arm drawn sys_id arm now_ms checked issued configured t r).1.0
            (begin_arm drawn sys_id arm now_ms checked issued configured t r).1.1
  unfolding begin_arm
  begin_opens configured t r =
      (begin_encoded-is_begun sys_id configured t r refl, begin_arm-Opened configured t r _ refl)

-- The transaction that a call of Arm returns, if it returns one.
abbrev pub returned : Finished → Option CommandTransaction
returned (settled tx) = some tx
returned (failed (ArmError.write_failed tx)) = some tx
returned (failed _) = none

abbrev pub last : List CommandTransaction → Option CommandTransaction
last [] = none
last (tx ∷ []) = some tx
last (tx ∷ next ∷ txs) = last (next ∷ txs)

-- However a call that came to its write ends, by a failed write, an answer, the timer or a cancellation,
-- and whatever the registry did meanwhile: its key is no longer in flight, and the last transaction it
-- published, if any, is the one it returns.
pub arm_releases :
    (answer : Option WriteError) (meanwhile : Registry → Registry) (cause : Cause)
    (finished : Timestamp) (s : Registry) (k : Key) (tx : CommandTransaction) (link : LinkId)
    (msg : Message)
    → (GoMap.lookup k
          (finish_arm answer meanwhile cause finished (s, Begun.opened k tx link msg)).1.0.inflight
        ≡ none)
      × (last (finish_arm answer meanwhile cause finished (s, Begun.opened k tx link msg)).0
          ≡ returned
              (finish_arm answer meanwhile cause finished (s, Begun.opened k tx link msg)).1.1)
unfolding finish_arm after_settlement after_failure settle Settle.write_failed
arm_releases none meanwhile cause finished s k tx link msg =
    (lookup-delete_self k (meanwhile s).inflight, refl)
arm_releases (some WriteError.unknown_link) meanwhile cause finished s k tx link msg =
    (lookup-delete_self k s.inflight, refl)
arm_releases (some WriteError.other) meanwhile cause finished s k tx link msg =
    (lookup-delete_self k s.inflight, refl)
