-- ===== src/Recording/Quiet.antt =====
-- internal/recording/writer.go: the writer never makes a recording active and never takes an id.
use yalb_link.Prelude.{
  ℕ, ◌+◌, ◌||◌, ◌≡◌, ◌∙◌, refl, Bool, true, false, not, ◌&&◌, ◌⊎◌, inl, inr, Option, none, some,
  List, [], ◌∷◌, ◌++◌, ◌==◌, arith, if◌then◌else◌, Bool-cases, nat_eq, String, leb, length,
}
use yalb_link.GoMap
use yalb_link.Recording.Database.{
  Database, DbError, Status, WriteRecord, mark_stopped, insert_events, committed, write_batch,
}
use yalb_link.Recording.Deletion.{Deletes, delete_recording-related, sweep-related}
use yalb_link.Recording.Loop.{after_delete, sweep_tick, take_command, take_delete, take_item}
use yalb_link.Recording.Retention.{SweepEnv, delete_recording, finish_delete}
use yalb_link.Recording.Spared.{anything}
use yalb_link.Recording.Stops.{grown}
use yalb_link.Recording.Passes.{stopped_store}
use yalb_link.Recording.Store.{
  unix_milli, Active, CommandError, Env, Item, Store, WriterCommand, command_item, record_item,
}
use yalb_link.Recording.Writer.{
  with_failure, failures_of, with_total, totals_or, add_records, limit_reason, is_context_error,
  max_consecutive_write_failures, after_write, answer, cleared, end_at_limit, expire_duration,
  flush, flush_id, flush_ids, ids_of, is_terminal, live, mark_terminal, of_id, take_record,
  take_start, take_stop, write_failed, write_succeeded,
}

-- The active recording is as before, or there is none, and the last id is as before.
pub record Quiet (s t : Store) : Type 0 where
  pub last : t.db.last_id ≡ s.db.last_id
  pub active : (t.current ≡ none) ⊎ (t.current ≡ s.current)

Quiet-same : (s t : Store) → t.db.last_id ≡ s.db.last_id → t.current ≡ s.current → Quiet s t
Quiet-same s t h k = record { last = h; active = inr k }

Quiet-refl : (s : Store) → Quiet s s
Quiet-refl s = Quiet-same s s refl refl

Quiet-trans : (s t u : Store) → Quiet s t → Quiet t u → Quiet s u
Quiet-trans s t u h k = record { last = k.last ∙ h.last; active = both h.active k.active }
  where
    both :
        (t.current ≡ none) ⊎ (t.current ≡ s.current)
        → (u.current ≡ none) ⊎ (u.current ≡ t.current)
        → (u.current ≡ none) ⊎ (u.current ≡ s.current)
    both a (inl gone) = inl gone
    both (inl gone) (inr same) = inl (same ∙ gone)
    both (inr kept) (inr same) = inr (same ∙ kept)

if-Quiet : (b : Bool) (s t u : Store) → Quiet s t → Quiet s u → Quiet s (if b then t else u)
if-Quiet true s t u h k = h
if-Quiet false s t u h k = k

cleared-cases :
    (id : ℕ) (found : Option Active) → (cleared id found ≡ none) ⊎ (cleared id found ≡ found)
cleared-cases id none = inl refl
cleared-cases id (some a) = elim (Bool-cases (a.id == id)) [
  | inl hit ↦ inl (rw hit refl)
  | inr miss ↦ inr (rw miss refl)
]

mark_stopped-last :
    (fault : Option DbError) (id : ℕ) (status : Status) (reason : String) (now : ℕ) (db : Database)
    → (mark_stopped fault id status reason now db).0.last_id ≡ db.last_id
unfolding mark_stopped
mark_stopped-last none id status reason now db = refl
mark_stopped-last (some e) id status reason now db = refl

mark_terminal-Quiet :
    (env : Env) (id : ℕ) (status : Status) (reason : String) (s : Store)
    → Quiet s (mark_terminal env id status reason s)
unfolding mark_terminal
mark_terminal-Quiet env id status reason s = record {
  last = mark_stopped-last (env.mark_fault id) id status reason _ s.db;
  active = cleared-cases id s.current;
}

end_at_limit-Quiet :
    (env : Env) (id : ℕ) (reason : Option String) (s : Store)
    → Quiet s (end_at_limit env id reason s)
end_at_limit-Quiet env id none s = Quiet-refl s
end_at_limit-Quiet env id (some reason) s = mark_terminal-Quiet env id Status.limit_reached reason s

committed-last :
    (db : Database) (o : Option (List WriteRecord)) → (committed db o).0.last_id ≡ db.last_id
committed-last db none = refl
committed-last db (some events) = refl

write_batch-last :
    (fault : Option DbError) (rs : List WriteRecord) (db : Database)
    → (write_batch fault rs db).0.last_id ≡ db.last_id
unfolding write_batch
write_batch-last (some e) rs db = refl
write_batch-last none rs db = committed-last db (insert_events rs db.events)

after_write-Quiet :
    (env : Env) (id : ℕ) (rs : List WriteRecord) (s : Store) (x : Database × Option DbError)
    → x.0.last_id ≡ s.db.last_id
    → Quiet s (after_write env id rs s x)
unfolding write_failed write_succeeded
after_write-Quiet env id rs s (db, none) h =
    let total = add_records rs (totals_or (env.now id) (GoMap.lookup id s.writer.totals)) in
    let counted = with_total id total (record s { db = db }) in
    let reason = limit_reason s.limits (env.now id) total in
    Quiet-trans s counted (end_at_limit env id reason counted) (Quiet-same s counted h refl)
      (end_at_limit-Quiet env id reason counted)
after_write-Quiet env id rs s (db, some e) h =
    let failures = failures_of id s + 1 in
    let counted = with_failure id failures (record s { db = db }) in
    let over = mark_terminal env id Status.error "writer_error" counted in
    if-Quiet (is_context_error e || leb max_consecutive_write_failures failures) s over counted
      (Quiet-trans s counted over (Quiet-same s counted h refl)
        (mark_terminal-Quiet env id Status.error "writer_error" counted))
      (Quiet-same s counted h refl)

flush_ids-Quiet :
    (env : Env) (rs : List WriteRecord) (ids : List ℕ) (s : Store)
    → Quiet s (flush_ids env rs ids s)
unfolding flush_ids flush_id
flush_ids-Quiet env rs [] s = Quiet-refl s
flush_ids-Quiet env rs (id ∷ ids) s =
    let next = flush_id env id (of_id id rs) s in
    Quiet-trans s next (flush_ids env rs ids next)
      (after_write-Quiet env id (of_id id rs) s
        (write_batch (env.write_fault id) (of_id id rs) s.db)
        (write_batch-last (env.write_fault id) (of_id id rs) s.db))
      (flush_ids-Quiet env rs ids next)

pub flush-Quiet : (env : Env) (s : Store) → Quiet s (flush env s)
unfolding flush
flush-Quiet env s =
    let records = live s s.writer.batch in
    let emptied : Store = record s {
      writer = record s.writer { batch = []; batch_timer = false };
    } in
    Quiet-trans s emptied (flush_ids env records (ids_of records) emptied)
      (Quiet-same s emptied refl refl) (flush_ids-Quiet env records (ids_of records) emptied)

pub expire_duration-Quiet : (env : Env) (s : Store) → Quiet s (expire_duration env s)
unfolding expire_duration
expire_duration-Quiet env s =
    let flushed = flush env s in
    let i = s.writer.duration_id in
    let over = mark_terminal env i Status.limit_reached "duration_limit" flushed in
    if-Quiet (not (i == 0) && not (is_terminal i flushed)) s over flushed
      (Quiet-trans s flushed over (flush-Quiet env s)
        (mark_terminal-Quiet env i Status.limit_reached "duration_limit" flushed))
      (flush-Quiet env s)

take_record-Quiet : (env : Env) (r : WriteRecord) (s : Store) → Quiet s (take_record env r s)
unfolding take_record
take_record-Quiet env r s =
    let full = leb s.limits.batch_size (length (s.writer.batch ++ (r ∷ []))) in
    let next = grown r s in
    if-Quiet (is_terminal r.recording_id s) s (record s { dropped = s.dropped + 1 })
      (if full then flush env next else next) (Quiet-same s _ refl refl)
      (if-Quiet full s (flush env next) next
        (Quiet-trans s next (flush env next) (Quiet-same s next refl refl) (flush-Quiet env next))
        (Quiet-same s next refl refl))

take_start-Quiet :
    (env : Env) (late : Bool) (c : WriterCommand) (s : Store) → Quiet s (take_start env late c s)
unfolding take_start answer
take_start-Quiet env true c s =
    let over = mark_terminal env c.start_id Status.error "control_timeout" s in
    Quiet-trans s over (take_start env true c s)
      (mark_terminal-Quiet env c.start_id Status.error "control_timeout" s)
      (Quiet-same over (take_start env true c s) refl refl)
take_start-Quiet env false c s = Quiet-same s (take_start env false c s) refl refl

finish_delete-last :
    (fault : Option DbError) (id : ℕ) (db : Database)
    → (finish_delete fault id db).0.last_id ≡ db.last_id
unfolding finish_delete
finish_delete-last (some e) id db = refl
finish_delete-last none id db = ground arith

same_last : Deletes (λ id. Unit {0}) (λ a b. b.last_id ≡ a.last_id)
same_last = record {
  nothing = λ db. refl;
  then_ = λ a b c h k. k ∙ h;
  chunk = λ id db ok. refl;
  finish = λ fault id db ok. finish_delete-last fault id db;
}

after_delete-Quiet :
    (d : ℕ) (s : Store) (x : Database × CommandError)
    → x.0.last_id ≡ s.db.last_id
    → Quiet s (after_delete d s x).0
after_delete-Quiet d s (db, CommandError.fine) h =
    Quiet-same s (after_delete d s (db, CommandError.fine)).0 h refl
after_delete-Quiet d s (db, CommandError.recording_not_found) h = Quiet-same s _ h refl
after_delete-Quiet d s (db, CommandError.active_not_found) h = Quiet-same s _ h refl
after_delete-Quiet d s (db, CommandError.database e) h = Quiet-same s _ h refl

take_delete-Quiet :
    (faults : ℕ → Option DbError) (c : WriterCommand) (s : Store)
    → Quiet s (take_delete faults c s).0
unfolding take_delete
take_delete-Quiet faults c s = elim (Bool-cases (c.delete_id == 0)) [
  | inl unset ↦ rw unset (Quiet-refl s)
  | inr set ↦ rw set (
      after_delete-Quiet c.delete_id s (delete_recording faults c.delete_id s.db)
        (delete_recording-related _ _ same_last faults c.delete_id s.db tt))
]

take_stop-Quiet :
    (env : Env) (c : WriterCommand) (s : Store) (err : CommandError)
    → Quiet s (take_stop env c (s, err)).0
unfolding take_stop
take_stop-Quiet env c s err =
    elim (Bool-cases (not (c.stop_id == 0) && not (is_terminal c.stop_id s))) [
      | inr skipped ↦ rw skipped (Quiet-refl s)
      | inl stopped ↦ rw stopped (
          Quiet-same s (stopped_store env c s)
            (mark_stopped-last (env.mark_fault c.stop_id) c.stop_id Status.stopped c.reason
              (unix_milli (env.now c.stop_id)) s.db)
            refl)
    ]

take_command-Quiet :
    (env : Env) (faults : ℕ → Option DbError) (late : Bool) (c : WriterCommand) (s : Store)
    → Quiet s (take_command env faults late c s)
unfolding take_command answer
take_command-Quiet env faults late c s =
    let flushed = flush env s in
    let deleted = take_delete faults c flushed in
    let ended = take_stop env c deleted in
    if-Quiet (not (c.start_id == 0)) s (take_start env late c s) (answer c ended.1 ended.0)
      (take_start-Quiet env late c s)
      (Quiet-trans s flushed _ (flush-Quiet env s) (
        Quiet-trans flushed deleted.0 _ (take_delete-Quiet faults c flushed) (
          Quiet-trans deleted.0 ended.0 (answer c ended.1 ended.0)
            (take_stop-Quiet env c deleted.0 deleted.1)
            (Quiet-same ended.0 (answer c ended.1 ended.0) refl refl))))

pub take_item-Quiet :
    (env : Env) (faults : ℕ → Option DbError) (late : Bool) (i : Item) (s : Store)
    → Quiet s (take_item env faults late i s)
unfolding take_item
take_item-Quiet env faults late (record_item r) s = take_record-Quiet env r s
take_item-Quiet env faults late (command_item c) s = take_command-Quiet env faults late c s

pub sweep_tick-Quiet :
    (env : Env) (sweep_env : SweepEnv) (s : Store) → Quiet s (sweep_tick env sweep_env s)
unfolding sweep_tick
sweep_tick-Quiet env sweep_env s =
    let flushed = flush env s in
    Quiet-trans s flushed (sweep_tick env sweep_env s) (flush-Quiet env s) (
      Quiet-same flushed (sweep_tick env sweep_env s)
        (sweep-related _ _ same_last flushed.limits sweep_env flushed.db
          (anything flushed.db.recordings))
        refl)
