-- ===== src/Recording/Numbered.antt =====
-- internal/recording: the sequence numbers over every run, for every lifecycle call.
use mathlib.Core.Path.{subst}
use yalb_link.Prelude.{
  ℕ, ◌+◌, ◌<◌, ◌≤◌, ◌≡◌, ◌≢◌, ap, sym, refl, Bool, true, false, not, ◌&&◌, ◌⊎◌, inl, inr, Option,
  none, some, List, [], ◌∷◌, ◌++◌, arith, if◌then◌else◌, Bool-cases, nat_eq, String, ltb, length,
  is_some,
}
use yalb_link.GoMap
use yalb_link.Recording.Accepted.{accepted, accepted_by}
use yalb_link.Recording.Database.{
  Database, DbError, WriteRecord, keep, insert_recording, mark_stopped,
}
use yalb_link.Recording.Lifecycle.{
  Begun, delete_call, mark_start_failure, send_command, shutdown, start_answered, start_recording,
  stop_recording, stop_unsent,
}
use yalb_link.Recording.Persisted.{Rising}
use yalb_link.Recording.Publish.{Wire, persistable, publish}
use yalb_link.Recording.Quiet.{
  Quiet, expire_duration-Quiet, flush-Quiet, sweep_tick-Quiet, take_item-Quiet,
}
use yalb_link.Recording.Store.{Active, Env, CommandError, Item, Store, WriterCommand}
use yalb_link.Recording.Sub.{keep-append}
use yalb_link.Recording.World.{
  Call, Op, Phase, World, answer_read, begun, given_up, run, sent, shut_down, step, stop_call, take,
  told, when_idle,
}
use yalb_link.Recording.Writer.{of_id, flush, expire_duration}
use yalb_link.Recording.Loop.{sweep_tick, take_item}
use yalb_link.Recording.Delivered.{run-Sub}
use yalb_link.Recording.Flushed.{queued, trace}
use yalb_link.Recording.Lifecycle.{Recording, delete_found, recording}
use yalb_link.Recording.Sub.{Sub, Sub-eq, Sub-trans}
use yalb_link.Recording.Store.{Limits, new_store}
use yalb_link.Recording.World.{new_world}
use yalb_link.Recording.Numbers.{
  ActiveOk, Advances, CurrentOk, PhaseOk, Ready, ReadyWorld, Rising-append, last_seq, phase-none,
  publish-Advances, Quiet-Ready,
}

-- The calls.
start-Ready :
    (n id : ℕ) (fault : Option DbError) (name : String) (now : ℕ) (w : World)
    (found : Option Active)
    → w.store.current ≡ found
    → ReadyWorld n id w
    → ReadyWorld n id
        (begun (λ c. Call.starting c.start_id) w (start_recording fault name now w.store))
unfolding start_recording insert_recording
start-Ready n id fault name now w (some a) q h = elim (Bool-cases w.store.closed) [
  | inl shut ↦ rw shut h
  | inr serving ↦ let busy : is_some w.store.current ≡ true = ap is_some q in rw (serving, busy) h
]
start-Ready n id (some e) name now w none q h = elim (Bool-cases w.store.closed) [
  | inl shut ↦ rw shut h
  | inr serving ↦ let free : is_some w.store.current ≡ false = ap is_some q in rw (serving, free) h
]
start-Ready n id none name now w none q h = elim (Bool-cases w.store.closed) [
  | inl shut ↦ rw shut h
  | inr serving ↦
      let free : is_some w.store.current ≡ false = ap is_some q in
      rw (serving, free)
        (subst (CurrentOk n id (last + 1)) (sym q) tt, (q, (omega arith, fresh h.2)), seen h.2)
]
  where
    last : ℕ
    last = w.store.db.last_id

    fresh : (n ≡ 0) ⊎ (id ≤ last) → ((last + 1) ≢ id) ⊎ (n ≤ 0)
    fresh (inl none_yet) = inr (omega (arith, none_yet))
    fresh (inr le) = inl (λ e. absurd (omega (arith, le, e)))

    seen : (n ≡ 0) ⊎ (id ≤ last) → (n ≡ 0) ⊎ (id ≤ last + 1)
    seen (inl none_yet) = inl none_yet
    seen (inr le) = inr (omega (arith, le))

stop-Ready :
    (n id : ℕ) (w : World) (found : Option Active)
    → w.store.current ≡ found
    → ReadyWorld n id w
    → ReadyWorld n id (stop_call w found)
unfolding stop_recording
stop-Ready n id w none q h = elim (Bool-cases w.store.closed) [
  | inl shut ↦ rw shut h
  | inr serving ↦
      rw (serving, q) (tt, phase-none n id w.store.db.last_id w.store.current w.phase h.1, h.2)
]
stop-Ready n id w (some a) q h = elim (Bool-cases w.store.closed) [
  | inl shut ↦ rw shut h
  | inr serving ↦
      let active = subst (CurrentOk n id w.store.db.last_id) q h.0 in
      rw (serving, q) (tt, (refl, active), h.2)
]

delete-Ready :
    (n id : ℕ) (w : World) (x : Store × Begun)
    → x.0.db.last_id ≡ w.store.db.last_id
    → x.0.current ≡ w.store.current
    → ReadyWorld n id w
    → ReadyWorld n id (begun (λ c. Call.deleting) w x)
delete-Ready n id w (s, Begun.refused why) l c h =
    Quiet-Ready n id w.store s w.phase (record { last = l; active = inr c }) h
delete-Ready n id w (s, Begun.sends command) l c h =
    let same = Quiet-Ready n id w.store s w.phase (record { last = l; active = inr c }) h in
    (same.0, tt, same.2)

shut_down-Ready :
    (n id : ℕ) (w : World) (before : Option WriterCommand)
    → ReadyWorld n id w
    → ReadyWorld n id (shut_down w before)
unfolding shutdown
shut_down-Ready n id w none h = (tt, tt, h.2)
shut_down-Ready n id w (some c) h = elim (Bool-cases w.close_sent) [
  | inl sent_before ↦ rw sent_before (h.0, tt, h.2)
  | inr unsent_before ↦ rw unsent_before (h.0, tt, h.2)
]

waiting-Ok :
    (n id last : ℕ) (cur : Option Active) (call : Call) (c : WriterCommand)
    → PhaseOk n id last cur (Phase.sending call c)
    → PhaseOk n id last cur (Phase.waiting call c)
waiting-Ok n id last cur (Call.starting i) c h = h
waiting-Ok n id last cur (Call.stopping a) c h = tt
waiting-Ok n id last cur Call.deleting c h = tt
waiting-Ok n id last cur Call.closing c h = tt

sent-Ready :
    (n id : ℕ) (w : World) (phase : Phase)
    → Ready n id w.store.db.last_id w.store.current phase
    → w.phase ≡ phase
    → ReadyWorld n id (sent w phase)
unfolding send_command
sent-Ready n id w Phase.idle h q = subst (Ready n id w.store.db.last_id w.store.current) (sym q) h
sent-Ready n id w (Phase.waiting call c) h q =
    subst (Ready n id w.store.db.last_id w.store.current) (sym q) h
sent-Ready n id w (Phase.sending call c) h q =
    elim (Bool-cases (ltb (length w.store.items) w.store.limits.queue)) [
      | inr full ↦ rw full (subst (Ready n id w.store.db.last_id w.store.current) (sym q) h)
      | inl room ↦ rw room (h.0, waiting-Ok n id w.store.db.last_id w.store.current call c h.1, h.2)
    ]

told-Ready :
    (n id : ℕ) (w : World) (call : Call) (c : WriterCommand) (err : Option CommandError)
    → w.phase ≡ Phase.waiting call c
    → ReadyWorld n id w
    → ReadyWorld n id (told w call err)
unfolding start_answered
told-Ready n id w call c none q h = h
told-Ready n id w (Call.starting i) c (some err) q h =
    let phase = subst (PhaseOk n id w.store.db.last_id w.store.current) q h.1 in (phase.1, tt, h.2)
told-Ready n id w (Call.stopping a) c (some err) q h = (h.0, tt, h.2)
told-Ready n id w Call.deleting c (some err) q h = (h.0, tt, h.2)
told-Ready n id w Call.closing c (some err) q h = (h.0, tt, h.2)

answered-Ready :
    (n id : ℕ) (w : World) (phase : Phase)
    → w.phase ≡ phase
    → ReadyWorld n id w
    → ReadyWorld n id (answer_read w phase)
answered-Ready n id w Phase.idle q h = h
answered-Ready n id w (Phase.sending call c) q h = h
answered-Ready n id w (Phase.waiting call c) q h =
    told-Ready n id w call c (GoMap.lookup c.ticket w.store.answers) q h

failed-Ready :
    (n id i : ℕ) (fault : Option DbError) (now : ℕ) (w : World)
    → ReadyWorld n id w
    → ReadyWorld n id
        (record w { store = mark_start_failure fault now i w.store; phase = Phase.idle })
unfolding mark_start_failure mark_stopped
failed-Ready n id i none now w h = (h.0, tt, h.2)
failed-Ready n id i (some e) now w h = (h.0, tt, h.2)

restored-Ready :
    (n id : ℕ) (a : Active) (w : World)
    → ActiveOk n id w.store.db.last_id a
    → ReadyWorld n id w
    → ReadyWorld n id (record w { store = stop_unsent a w.store; phase = Phase.idle })
unfolding stop_unsent
restored-Ready n id a w active h =
    elim (Bool-cases (not w.store.closed && not (is_some w.store.current))) [
      | inl restored ↦ rw restored (active, tt, h.2)
      | inr kept ↦ rw kept (h.0, tt, h.2)
    ]

given_up-Ready :
    (n id : ℕ) (fault : Option DbError) (now : ℕ) (w : World) (phase : Phase)
    → w.phase ≡ phase
    → ReadyWorld n id w
    → ReadyWorld n id (given_up fault now w phase)
given_up-Ready n id fault now w Phase.idle q h = h
given_up-Ready n id fault now w (Phase.sending (Call.starting i) c) q h =
    failed-Ready n id i fault now w h
given_up-Ready n id fault now w (Phase.sending (Call.stopping a) c) q h =
    restored-Ready n id a w (subst (PhaseOk n id w.store.db.last_id w.store.current) q h.1).1 h
given_up-Ready n id fault now w (Phase.sending Call.deleting c) q h = (h.0, tt, h.2)
given_up-Ready n id fault now w (Phase.sending Call.closing c) q h = (h.0, tt, h.2)
given_up-Ready n id fault now w (Phase.waiting (Call.starting i) c) q h =
    failed-Ready n id i fault now w h
given_up-Ready n id fault now w (Phase.waiting (Call.stopping a) c) q h = (h.0, tt, h.2)
given_up-Ready n id fault now w (Phase.waiting Call.deleting c) q h = (h.0, tt, h.2)
given_up-Ready n id fault now w (Phase.waiting Call.closing c) q h = (h.0, tt, h.2)

delete_found-same :
    (i : ℕ) (s : Store) (found : Option Recording)
    → ((delete_found i s found).0.db.last_id ≡ s.db.last_id)
      × ((delete_found i s found).0.current ≡ s.current)
delete_found-same i s none = (refl, refl)
delete_found-same i s (some r) = ground arith

delete_call-same :
    (fault : Option DbError) (i : ℕ) (s : Store)
    → ((delete_call fault i s).0.db.last_id ≡ s.db.last_id)
      × ((delete_call fault i s).0.current ≡ s.current)
unfolding delete_call
delete_call-same none i s = ground (arith, delete_found-same i s (recording i s.db))
delete_call-same (some e) i s = ground arith

when_idle-Ready :
    (n id : ℕ) (phase : Phase) (next w : World)
    → ReadyWorld n id next
    → ReadyWorld n id w
    → ReadyWorld n id (when_idle phase next w)
when_idle-Ready n id Phase.idle next w h k = h
when_idle-Ready n id (Phase.sending call c) next w h k = k
when_idle-Ready n id (Phase.waiting call c) next w h k = k

if-Ready :
    (n id : ℕ) (b : Bool) (next w : World)
    → ReadyWorld n id next
    → ReadyWorld n id w
    → ReadyWorld n id (if b then next else w)
if-Ready n id true next w h k = h
if-Ready n id false next w h k = k

-- The writer's step.
written-Ready :
    (n id : ℕ) (w : World) (s : Store)
    → Quiet w.store s
    → ReadyWorld n id w
    → ReadyWorld n id (record w { store = s })
written-Ready n id w s q h = Quiet-Ready n id w.store s w.phase q h

take-Ready :
    (n id : ℕ) (env : Env) (faults : ℕ → Option DbError) (late : Bool) (is : List Item) (w : World)
    → ReadyWorld n id w
    → ReadyWorld n id (take env faults late is w)
unfolding take
take-Ready n id env faults late [] w h = h
take-Ready n id env faults late (i ∷ is) w h =
    let rest : Store = record w.store { items = is } in
    Quiet-Ready n id rest (take_item env faults late i rest) w.phase
      (take_item-Quiet env faults late i rest) h

step-Advances :
    (wire : Wire) (n id : ℕ) (op : Op) (w : World)
    → ReadyWorld n id w
    → Advances n id (of_id id (accepted_by wire op w)) (step wire op w)
unfolding step accepted_by keep publish
step-Advances wire n id (Op.publishes ev) w h = publish-Advances wire n id w (persistable wire ev) h
step-Advances wire n id (Op.takes env faults late) w h = (
  tt,
  if-Ready n id w.running (take env faults late w.store.items w) w
      (take-Ready n id env faults late w.store.items w h) h,
)
step-Advances wire n id (Op.ticks env) w h = (
  tt,
  if-Ready n id (w.running && w.store.writer.batch_timer) (record w { store = flush env w.store }) w
      (written-Ready n id w (flush env w.store) (flush-Quiet env w.store) h) h,
)
step-Advances wire n id (Op.expires env) w h = (
  tt,
  if-Ready n id (w.running && w.store.writer.duration_timer)
      (record w { store = expire_duration env w.store }) w
      (written-Ready n id w (expire_duration env w.store) (expire_duration-Quiet env w.store) h) h,
)
step-Advances wire n id (Op.sweeps env sweep_env) w h = (
  tt,
  if-Ready n id w.running (record w { store = sweep_tick env sweep_env w.store }) w
      (written-Ready n id w (sweep_tick env sweep_env w.store)
        (sweep_tick-Quiet env sweep_env w.store) h)
      h,
)
step-Advances wire n id (Op.starts fault name now) w h = (
  tt,
  when_idle-Ready n id w.phase
      (begun (λ c. Call.starting c.start_id) w (start_recording fault name now w.store)) w
      (start-Ready n id fault name now w w.store.current refl h) h,
)
step-Advances wire n id Op.stops w h = (
  tt,
  when_idle-Ready n id w.phase (stop_call w w.store.current) w
      (stop-Ready n id w w.store.current refl h) h,
)
step-Advances wire n id Op.shuts_down w h = (
  tt,
  when_idle-Ready n id w.phase (shut_down w w.close_command) w
      (shut_down-Ready n id w w.close_command h) h,
)
step-Advances wire n id Op.sends w h = (tt, sent-Ready n id w w.phase h refl)
step-Advances wire n id Op.answered w h = (tt, answered-Ready n id w w.phase refl h)
step-Advances wire n id (Op.deletes fault d) w h =
    let same = delete_call-same fault d w.store in
    (
      tt,
      when_idle-Ready n id w.phase (begun (λ c. Call.deleting) w (delete_call fault d w.store)) w
          (delete-Ready n id w (delete_call fault d w.store) same.0 same.1 h) h,
    )
step-Advances wire n id (Op.gives_up fault now) w h =
    (tt, given_up-Ready n id fault now w w.phase refl h)

accepted-Rising :
    (wire : Wire) (n id : ℕ) (ops : List Op) (w : World)
    → ReadyWorld n id w
    → Rising n (of_id id (accepted wire ops w))
unfolding accepted keep
accepted-Rising wire n id [] w h = tt
accepted-Rising wire n id (op ∷ ops) w h =
    let one = step-Advances wire n id op w h in
    let now = of_id id (accepted_by wire op w) in
    subst (Rising n) (sym (keep-append _ (accepted_by wire op w) _)) (
      Rising-append n now (of_id id (accepted wire ops (step wire op w))) one.0
        (accepted-Rising wire (last_seq n now) id ops (step wire op w) one.1))

Rising-lower : (n m : ℕ) (zs : List WriteRecord) → n < m → Rising m zs → Rising n zs
Rising-lower n m [] lt k = tt
Rising-lower n m (z ∷ zs) lt k = (omega (arith, lt, k.0), k.1)

Rising-Sub : (n : ℕ) {xs ys : List WriteRecord} → Sub xs ys → Rising n ys → Rising n xs
Rising-Sub n Sub.nil h = tt
Rising-Sub n (Sub.both r s) h = (h.0, Rising-Sub r.seq s h.1)
Rising-Sub n (Sub.skip r s) h = Rising-Sub n s (Rising-lower n r.seq _ h.0 h.1)

-- From a database without events, after any run, the sequence numbers of each recording rise strictly through
-- what is written, then what is in the batch, then what waits in the channel: no number is given twice, and
-- the order of the numbers is the order of publication, whatever fails, is dropped, deleted or interleaved.
pub run-Rising :
    (wire : Wire) (limits : Limits) (db : Database) (ops : List Op) (id : ℕ)
    → db.events ≡ []
    → Rising 0 (trace id (run wire ops (new_world (new_store limits db))).store)
unfolding trace queued keep new_store
run-Rising wire limits db ops id fresh =
    let all = of_id id (accepted wire ops (new_world (new_store limits db))) in
    let empty : of_id id db.events ≡ [] = ap (of_id id) fresh in
    Rising-Sub 0
      (Sub-trans (Sub-eq (ap (λ l. l ++ [] ++ [] ++ all) empty))
        (run-Sub wire ops (new_world (new_store limits db)) id))
      (accepted-Rising wire 0 id ops (new_world (new_store limits db)) (tt, tt, inl refl))
