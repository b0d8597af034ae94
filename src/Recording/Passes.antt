-- ===== src/Recording/Passes.antt =====
-- internal/recording/writer.go: the passes of the writer's loop, and the event limit over any run of them.
use yalb_link.Prelude.{
  ℕ, ◌+◌, ◌≤◌, ◌≡◌, ap, refl, Bool, true, false, not, ◌&&◌, Option, List, [], ◌∷◌, ◌++◌, ◌==◌, All,
  inl, inr, arith, if◌then◌else◌, Bool-cases, nat_eq, leb, length, length-append, String,
}
use yalb_link.GoMap
use yalb_link.GoMap.Laws.{lookup-insert, lookup-insert_ne, lookup-delete}
use yalb_link.Recording.Database.{Database, DbError, Status, WriteRecord}
use yalb_link.Recording.Flushed.{mark_terminal-SameRecords}
use yalb_link.Recording.Stops.{grown}
use yalb_link.Recording.Store.{Env, Store}
use yalb_link.Recording.Sub.{Sub}
use yalb_link.Recording.Writer.{cancel_duration, flush, is_terminal, mark_terminal}
use yalb_link.Recording.Capped.{
  Capped, carry, mark_terminal-Capped, mark_terminal-limits, stored, stored-eq,
}
use yalb_link.Recording.Limit.{Bounded, flush-Bounded}
use yalb_link.Recording.Loop.{after_delete, sweep_tick, take_command, take_delete, take_item}
use yalb_link.Recording.Retention.{SweepEnv, delete_recording, sweep}
use yalb_link.Recording.Spared.{delete_recording-Sub, sweep-Sub}
use yalb_link.Recording.Flushed.{cancel_duration-batch, mark_stopped-events}
use yalb_link.Recording.Writer.{answer, expire_duration, take_record, take_start, take_stop}
use yalb_link.Recording.Store.{
  CommandError, Item, WriterCommand, command_item, record_item, unix_milli,
}
use yalb_link.Recording.Database.{mark_stopped}
use yalb_link.Recording.Sub.{Sub-keep}

-- One pass of the writer's loop: an item from the channel, the batch timer, the duration timer, the sweep.
pub data Pass : Type 0 where
  takes : Env → (ℕ → Option DbError) → Bool → Item → Pass
  ticks expires : Env → Pass
  sweeps : Env → SweepEnv → Pass

unfoldable pub pass : Pass → Store → Store
unfolding take_item flush expire_duration sweep_tick
pass (takes env faults late i) s = take_item env faults late i s
pass (ticks env) s = flush env s
pass (expires env) s = expire_duration env s
pass (sweeps env sweep_env) s = sweep_tick env sweep_env s

unfoldable pub run_passes : List Pass → Store → Store
unfolding pass
run_passes [] s = s
run_passes (p ∷ ps) s = run_passes ps (pass p s)

-- The pass starts the recording.
abbrev pub starts_again : ℕ → Pass → Bool
starts_again id (takes env faults late (command_item c)) = not (c.start_id == 0) && c.start_id == id
starts_again id _ = false

Sub-length : {A : Type 0} {xs ys : List A} → Sub xs ys → length xs ≤ length ys
Sub-length Sub.nil = omega arith
Sub-length (Sub.both x s) = omega (arith, Sub-length s)
Sub-length (Sub.skip y s) = omega (arith, Sub-length s)

-- A step that keeps the batch and the limits.
carry-Bounded :
    (id : ℕ) (s t : Store)
    → t.writer.batch ≡ s.writer.batch
    → t.limits ≡ s.limits
    → Capped id t
    → Bounded id s
    → Bounded id t
carry-Bounded id s t b l c h =
    let size = ap length b in
    let top = ap (λ k. k.batch_size) l in (omega (arith, size, top, h.0), c)

mark_terminal-Bounded :
    (env : Env) (j : ℕ) (status : Status) (reason : String) (id : ℕ) (s : Store)
    → Bounded id s
    → Bounded id (mark_terminal env j status reason s)
mark_terminal-Bounded env j status reason id s h =
    carry-Bounded id s (mark_terminal env j status reason s)
      (mark_terminal-SameRecords env j status reason s).1
      (mark_terminal-limits env j status reason s)
      (mark_terminal-Capped env j status reason s id h.1) h

if-Bounded :
    (id : ℕ) (b : Bool) (s t : Store)
    → Bounded id s
    → Bounded id t
    → Bounded id (if b then s else t)
if-Bounded id true s t h k = h
if-Bounded id false s t h k = k

flushed-Bounded : (env : Env) (id : ℕ) (s : Store) → Bounded id s → Bounded id (flush env s)
flushed-Bounded env id s h = flush-Bounded env id s (omega (arith, h.0)) (omega (arith, h.0)) h.1

expire_duration-Bounded :
    (env : Env) (id : ℕ) (s : Store) → Bounded id s → Bounded id (expire_duration env s)
unfolding expire_duration
expire_duration-Bounded env id s h =
    let flushed = flush env s in
    let i = s.writer.duration_id in
    if-Bounded id (not (i == 0) && not (is_terminal i flushed))
      (mark_terminal env i Status.limit_reached "duration_limit" flushed) flushed
      (mark_terminal-Bounded env i Status.limit_reached "duration_limit" id flushed
        (flushed-Bounded env id s h))
      (flushed-Bounded env id s h)

take_record-Bounded :
    (env : Env) (r : WriteRecord) (id : ℕ) (s : Store)
    → Bounded id s
    → Bounded id (take_record env r s)
unfolding take_record
take_record-Bounded env r id s h =
    let grew : length (s.writer.batch ++ (r ∷ [])) ≡ length s.writer.batch + 1 =
      length-append s.writer.batch (r ∷ []) in
    elim (Bool-cases (is_terminal r.recording_id s)) [
      | inl over ↦ rw over h
      | inr active ↦
          elim (Bool-cases (leb s.limits.batch_size (length (s.writer.batch ++ (r ∷ []))))) [
            | inl full ↦
                rw (active, full)
                  (flush-Bounded env id (grown r s) (omega (arith, grew, h.0)) (omega (arith, h.0))
                    h.1)
            | inr room ↦ rw (active, room) (ground arith, h.1)
          ]
    ]

take_start-Bounded :
    (env : Env) (late : Bool) (c : WriterCommand) (id : ℕ) (s : Store)
    → (c.start_id == id) ≡ false
    → Bounded id s
    → Bounded id (take_start env late c s)
unfolding take_start answer
take_start-Bounded env true c id s miss h =
    mark_terminal-Bounded env c.start_id Status.error "control_timeout" id s h
take_start-Bounded env false c id s miss h =
    let t = take_start env false c s in
    carry-Bounded id s t refl refl
      (carry id s t (stored-eq id s t refl) refl
        (lookup-insert_ne c.start_id id _ s.writer.totals miss) (λ over. over) h.1)
      h

fewer-stored : (id : ℕ) (s t : Store) → Sub t.db.events s.db.events → stored id t ≤ stored id s
fewer-stored id s t h = Sub-length (Sub-keep (λ r. r.recording_id == id) h)

-- The counters after a deletion: those of the deleted recording go, and it is over.
deleted-Capped :
    (d id : ℕ) (db : Database) (s : Store)
    → Sub db.events s.db.events
    → Capped id s
    → Capped id (after_delete d s (db, CommandError.fine)).0
unfolding cancel_duration
deleted-Capped d id db s h c = elim (Bool-cases (d == id)) [
  | inr miss ↦
      let t = (after_delete d s (db, CommandError.fine)).0 in
      carry id s t (fewer-stored id s t h) refl (ground (arith, lookup-delete d id s.writer.totals))
        (λ over. ground (arith, lookup-insert d id true s.writer.terminal)) c
  | inl hit ↦
      let t = (after_delete d s (db, CommandError.fine)).0 in
      let fewer = fewer-stored id s t h in
      (omega (arith, fewer, c.0), inl (ground (arith, lookup-insert d id true s.writer.terminal)))
]

with_db-Bounded :
    (id : ℕ) (db : Database) (s : Store)
    → Sub db.events s.db.events
    → Bounded id s
    → Bounded id (record s { db = db })
with_db-Bounded id db s h b =
    let t : Store = record s { db = db } in
    carry-Bounded id s t refl refl
      (carry id s t (fewer-stored id s t h) refl refl (λ over. over) b.1) b

after_delete-Bounded :
    (d id : ℕ) (s : Store) (x : Database × CommandError)
    → Sub x.0.events s.db.events
    → Bounded id s
    → Bounded id (after_delete d s x).0
after_delete-Bounded d id s (db, CommandError.fine) h b =
    carry-Bounded id s (after_delete d s (db, CommandError.fine)).0
      (cancel_duration-batch d (record s.writer {
        terminal = GoMap.insert d true s.writer.terminal;
        totals = GoMap.delete d s.writer.totals;
        consecutive_failures = GoMap.delete d s.writer.consecutive_failures;
      }))
      refl (deleted-Capped d id db s h b.1) b
after_delete-Bounded d id s (db, CommandError.recording_not_found) h b = with_db-Bounded id db s h b
after_delete-Bounded d id s (db, CommandError.active_not_found) h b = with_db-Bounded id db s h b
after_delete-Bounded d id s (db, CommandError.database e) h b = with_db-Bounded id db s h b

take_delete-Bounded :
    (faults : ℕ → Option DbError) (c : WriterCommand) (id : ℕ) (s : Store)
    → Bounded id s
    → Bounded id (take_delete faults c s).0
unfolding take_delete
take_delete-Bounded faults c id s h = elim (Bool-cases (c.delete_id == 0)) [
  | inl unset ↦ rw unset h
  | inr set ↦ rw set (
      after_delete-Bounded c.delete_id id s (delete_recording faults c.delete_id s.db)
        (delete_recording-Sub faults c.delete_id s.db) h)
]

-- The store after a stop command.
abbrev pub stopped_store : Env → WriterCommand → Store → Store
stopped_store env c s = record s {
  db =
      (mark_stopped (env.mark_fault c.stop_id) c.stop_id Status.stopped c.reason
        (unix_milli (env.now c.stop_id)) s.db).0;
  writer =
      cancel_duration c.stop_id
        (record s.writer { terminal = GoMap.insert c.stop_id true s.writer.terminal });
}

stopped_store-Bounded :
    (env : Env) (c : WriterCommand) (id : ℕ) (s : Store)
    → Bounded id s
    → Bounded id (stopped_store env c s)
unfolding cancel_duration
stopped_store-Bounded env c id s h =
    let t = stopped_store env c s in
    let same =
      mark_stopped-events (env.mark_fault c.stop_id) c.stop_id Status.stopped c.reason
        (unix_milli (env.now c.stop_id)) s.db in
    carry-Bounded id s t (cancel_duration-batch c.stop_id _) refl
      (carry id s t (stored-eq id s t same) refl (ground arith)
        (λ over. ground (arith, lookup-insert c.stop_id id true s.writer.terminal)) h.1)
      h

take_stop-Bounded :
    (env : Env) (c : WriterCommand) (id : ℕ) (s : Store) (err : CommandError)
    → Bounded id s
    → Bounded id (take_stop env c (s, err)).0
unfolding take_stop
take_stop-Bounded env c id s err h =
    elim (Bool-cases (not (c.stop_id == 0) && not (is_terminal c.stop_id s))) [
      | inr skipped ↦ rw skipped h
      | inl stopped ↦ rw stopped (stopped_store-Bounded env c id s h)
    ]

take_command-Bounded :
    (env : Env) (faults : ℕ → Option DbError) (late : Bool) (c : WriterCommand) (id : ℕ) (s : Store)
    → (not (c.start_id == 0) && c.start_id == id) ≡ false
    → Bounded id s
    → Bounded id (take_command env faults late c s)
unfolding take_command answer
take_command-Bounded env faults late c id s miss h = elim (Bool-cases (c.start_id == 0)) [
  | inl command ↦
      let deleted = take_delete faults c (flush env s) in
      rw command (
        take_stop-Bounded env c id deleted.0 deleted.1
          (take_delete-Bounded faults c id (flush env s) (flushed-Bounded env id s h)))
  | inr start ↦
      let other : (c.start_id == id) ≡ false = ground arith in
      rw start (take_start-Bounded env late c id s other h)
]

sweep_tick-Bounded :
    (env : Env) (sweep_env : SweepEnv) (id : ℕ) (s : Store)
    → Bounded id s
    → Bounded id (sweep_tick env sweep_env s)
unfolding sweep_tick
sweep_tick-Bounded env sweep_env id s h =
    let flushed = flush env s in
    with_db-Bounded id (sweep flushed.limits sweep_env flushed.db).db flushed
      (sweep-Sub flushed.limits sweep_env flushed.db) (flushed-Bounded env id s h)

pass-Bounded :
    (p : Pass) (id : ℕ) (s : Store)
    → starts_again id p ≡ false
    → Bounded id s
    → Bounded id (pass p s)
unfolding pass take_item
pass-Bounded (takes env faults late (record_item r)) id s again h = take_record-Bounded env r id s h
pass-Bounded (takes env faults late (command_item c)) id s again h =
    take_command-Bounded env faults late c id s again h
pass-Bounded (ticks env) id s again h = flushed-Bounded env id s h
pass-Bounded (expires env) id s again h = expire_duration-Bounded env id s h
pass-Bounded (sweeps env sweep_env) id s again h = sweep_tick-Bounded env sweep_env id s h

-- From a state in which a recording is bounded, whatever the writer's passes do and whatever fails, it stays
-- bounded, if none of them starts it again: what is stored of it never reaches its event limit and one batch,
-- and once it is at its limit it is over.
pub run_passes-Bounded :
    (ps : List Pass) (id : ℕ) (s : Store)
    → All (λ p. starts_again id p ≡ false) ps
    → Bounded id s
    → Bounded id (run_passes ps s)
unfolding run_passes
run_passes-Bounded [] id s again h = h
run_passes-Bounded (p ∷ ps) id s again h =
    run_passes-Bounded ps id (pass p s) again.1 (pass-Bounded p id s again.0 h)
