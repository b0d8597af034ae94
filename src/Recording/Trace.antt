-- ===== src/Recording/Trace.antt =====
-- What becomes of the records that internal/recording accepts, over every pass of the writer's loop.
use mathlib.Core.List.{append_assoc}
use yalb_link.Prelude.{
  ℕ, ◌≡◌, ◌∙◌, ap, sym, refl, Bool, true, false, not, ◌&&◌, Option, List, [], ◌∷◌, ◌++◌, ◌==◌,
  if◌then◌else◌, Bool-cases, inl, inr, nat_eq, length, ◌||◌, leb, ◌+◌,
}
use yalb_link.GoMap
use yalb_link.Recording.Database.{Database, DbError, Status, WriteRecord, mark_stopped}
use yalb_link.Recording.Store.{
  CommandError, Env, unix_milli, Item, Store, WriterCommand, command_item, record_item,
}
use yalb_link.Recording.Sub.{Sub, Sub-append, Sub-eq, Sub-keep, Sub-refl, Sub-trans, keep-append}
use yalb_link.Recording.Writer.{
  cancel_duration, expire_duration, flush, is_terminal, mark_terminal, of_id, take_record,
  take_start, take_stop, answer,
}
use yalb_link.Recording.Loop.{after_delete, take_command, take_delete, take_item, sweep_tick}
use yalb_link.Recording.Spared.{delete_recording-Sub, sweep-Sub}
use yalb_link.Recording.Retention.{SweepEnv, delete_recording, sweep}
use yalb_link.Recording.Flushed.{
  SameRecords, cancel_duration-batch, mark_stopped-events, flush-Sub, mark_terminal-SameRecords,
  queued, trace, trace-Sub,
}

pub SameRecords-Sub : (id : ℕ) (s t : Store) → SameRecords s t → Sub (trace id t) (trace id s)
SameRecords-Sub id s t h =
    trace-Sub id s t (Sub-append (Sub-eq (ap (of_id id) h.0)) (Sub-eq (ap (of_id id) h.1))) h.2

-- What the caller of a case split on a store needs.
if-Sub :
    (id : ℕ) (b : Bool) (s t u : Store)
    → Sub (trace id t) (trace id s)
    → Sub (trace id u) (trace id s)
    → Sub (trace id (if b then t else u)) (trace id s)
if-Sub id true s t u h k = h
if-Sub id false s t u h k = k

pub expire_duration-Sub :
    (env : Env) (id : ℕ) (s : Store) → Sub (trace id (expire_duration env s)) (trace id s)
unfolding expire_duration
expire_duration-Sub env id s =
    let flushed = flush env s in
    let i = s.writer.duration_id in
    if-Sub id (not (i == 0) && not (is_terminal i flushed)) s
      (mark_terminal env i Status.limit_reached "duration_limit" flushed) flushed
      (Sub-trans (flush-Sub env id s) (
        SameRecords-Sub id flushed
          (mark_terminal env i Status.limit_reached "duration_limit" flushed)
          (mark_terminal-SameRecords env i Status.limit_reached "duration_limit" flushed)))
      (flush-Sub env id s)

abbrev pub with_items : List Item → Store → Store
with_items is s = record s { items = is }

-- The record at the head of the channel moves into the batch.
moved :
    (id : ℕ) (r : WriteRecord) (written bs qs : List WriteRecord)
    → written ++ of_id id (bs ++ (r ∷ [])) ++ of_id id qs
      ≡ written ++ of_id id bs ++ of_id id (r ∷ qs)
moved id r written bs qs =
    ap (λ l. written ++ l ++ of_id id qs) (keep-append _ bs (r ∷ []))
    ∙ ap (λ l. l ++ of_id id qs) (sym (append_assoc written (of_id id bs) _))
    ∙ append_assoc (written ++ of_id id bs) (of_id id (r ∷ [])) (of_id id qs)
    ∙ ap (λ l. written ++ of_id id bs ++ l) (sym (keep-append _ (r ∷ []) qs))

take_record-Sub :
    (env : Env) (id : ℕ) (r : WriteRecord) (is : List Item) (s : Store)
    → Sub
        (trace id (take_record env r (with_items is s)))
        (trace id (with_items (record_item r ∷ is) s))
unfolding take_record trace queued
take_record-Sub env id r is s =
    let batch = s.writer.batch ++ (r ∷ []) in
    let grown : Store = record (with_items is s) {
      writer = record s.writer {
        batch = batch;
        batch_timer = length batch == 1 || s.writer.batch_timer;
      };
    } in
    let whole = with_items (record_item r ∷ is) s in
    let full = leb s.limits.batch_size (length batch) in
    let kept : Sub (trace id grown) (trace id whole) =
      Sub-eq (moved id r (of_id id s.db.events) s.writer.batch (queued is)) in
    if-Sub id (is_terminal r.recording_id s) whole
      (record (with_items is s) { dropped = s.dropped + 1 })
      (if full then flush env grown else grown)
      (Sub-append (Sub-refl (of_id id s.db.events ++ of_id id s.writer.batch))
        (Sub-keep (λ x. x.recording_id == id) (Sub.skip r (Sub-refl (queued is)))))
      (if-Sub id full whole (flush env grown) grown (Sub-trans kept (flush-Sub env id grown)) kept)

-- A step that only writes tables with fewer events.
fewer_events-Sub :
    (id : ℕ) (s t : Store)
    → Sub t.db.events s.db.events
    → t.writer.batch ≡ s.writer.batch
    → t.items ≡ s.items
    → Sub (trace id t) (trace id s)
fewer_events-Sub id s t e b i =
    trace-Sub id s t (Sub-append (Sub-keep _ e) (Sub-eq (ap (of_id id) b))) i

after_delete-Sub :
    (d id : ℕ) (s : Store) (x : Database × CommandError)
    → Sub x.0.events s.db.events
    → Sub (trace id (after_delete d s x).0) (trace id s)
after_delete-Sub d id s (db, CommandError.fine) h =
    fewer_events-Sub id s (after_delete d s (db, CommandError.fine)).0 h
      (cancel_duration-batch d (record s.writer {
        terminal = GoMap.insert d true s.writer.terminal;
        totals = GoMap.delete d s.writer.totals;
        consecutive_failures = GoMap.delete d s.writer.consecutive_failures;
      }))
      refl
after_delete-Sub d id s (db, CommandError.recording_not_found) h =
    fewer_events-Sub id s (record s { db = db }) h refl refl
after_delete-Sub d id s (db, CommandError.active_not_found) h =
    fewer_events-Sub id s (record s { db = db }) h refl refl
after_delete-Sub d id s (db, CommandError.database e) h =
    fewer_events-Sub id s (record s { db = db }) h refl refl

take_delete-Sub :
    (faults : ℕ → Option DbError) (id : ℕ) (c : WriterCommand) (s : Store)
    → Sub (trace id (take_delete faults c s).0) (trace id s)
unfolding take_delete
take_delete-Sub faults id c s = elim (Bool-cases (c.delete_id == 0)) [
  | inl unset ↦ rw unset (Sub-refl (trace id s))
  | inr set ↦ rw set (
      after_delete-Sub c.delete_id id s (delete_recording faults c.delete_id s.db)
        (delete_recording-Sub faults c.delete_id s.db))
]

take_stop-Sub :
    (env : Env) (id : ℕ) (c : WriterCommand) (s : Store) (err : CommandError)
    → Sub (trace id (take_stop env c (s, err)).0) (trace id s)
unfolding take_stop
take_stop-Sub env id c s err =
    elim (Bool-cases (not (c.stop_id == 0) && not (is_terminal c.stop_id s))) [
      | inr skipped ↦ rw skipped (Sub-refl (trace id s))
      | inl stopped ↦ rw stopped (
          fewer_events-Sub id s
            (record s {
              db =
                  (mark_stopped (env.mark_fault c.stop_id) c.stop_id Status.stopped c.reason
                    (unix_milli (env.now c.stop_id)) s.db).0;
              writer =
                  cancel_duration c.stop_id
                    (record s.writer { terminal = GoMap.insert c.stop_id true s.writer.terminal });
            })
            (Sub-eq (
              mark_stopped-events (env.mark_fault c.stop_id) c.stop_id Status.stopped c.reason
                (unix_milli (env.now c.stop_id)) s.db))
            (cancel_duration-batch c.stop_id _) refl)
    ]

take_start-SameRecords :
    (env : Env) (late : Bool) (c : WriterCommand) (s : Store)
    → SameRecords s (take_start env late c s)
unfolding take_start answer
take_start-SameRecords env true c s =
    mark_terminal-SameRecords env c.start_id Status.error "control_timeout" s
take_start-SameRecords env false c s = (refl, refl, refl)

take_command-Sub :
    (env : Env) (faults : ℕ → Option DbError) (late : Bool) (c : WriterCommand) (id : ℕ) (s : Store)
    → Sub (trace id (take_command env faults late c s)) (trace id s)
unfolding take_command answer trace
take_command-Sub env faults late c id s =
    let deleted = take_delete faults c (flush env s) in
    let ended = take_stop env c deleted in
    if-Sub id (not (c.start_id == 0)) s (take_start env late c s) (answer c ended.1 ended.0)
      (SameRecords-Sub id s (take_start env late c s) (take_start-SameRecords env late c s))
      (Sub-trans (flush-Sub env id s) (
        Sub-trans (take_delete-Sub faults id c (flush env s))
          (take_stop-Sub env id c deleted.0 deleted.1)))

-- A pass that takes an item loses nothing out of order.
pub take_item-Sub :
    (env : Env) (faults : ℕ → Option DbError) (late : Bool) (i : Item) (is : List Item) (id : ℕ)
    (s : Store)
    → Sub
        (trace id (take_item env faults late i (with_items is s)))
        (trace id (with_items (i ∷ is) s))
unfolding take_item trace queued
take_item-Sub env faults late (record_item r) is id s = take_record-Sub env id r is s
take_item-Sub env faults late (command_item c) is id s =
    take_command-Sub env faults late c id (with_items is s)

pub sweep_tick-Sub :
    (env : Env) (sweep_env : SweepEnv) (id : ℕ) (s : Store)
    → Sub (trace id (sweep_tick env sweep_env s)) (trace id s)
unfolding sweep_tick
sweep_tick-Sub env sweep_env id s =
    let flushed = flush env s in
    Sub-trans (flush-Sub env id s) (
      fewer_events-Sub id flushed
        (record flushed { db = (sweep flushed.limits sweep_env flushed.db).db })
        (sweep-Sub flushed.limits sweep_env flushed.db) refl refl)
