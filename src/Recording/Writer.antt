-- ===== src/Recording/Writer.antt =====
-- internal/recording/writer.go: runWriter, each pass through its loop as a function on the Store. A Go map is
-- ranged over in an order that the language leaves open; here that of the ids' first appearance, and at most
-- one recording is live in a batch.
use yalb_link.Prelude.{
  ℕ, ◌+◌, ◌-◌, Bool, true, false, not, ◌&&◌, ◌||◌, Option, none, some, List, [], ◌∷◌, ◌++◌, ◌==◌,
  if◌then◌else◌, String, leb, length, nat_eq,
}
use yalb_link.GoMap
use yalb_link.Recording.Database.{
  Database, DbError, Outcome, Status, WriteRecord, keep, mark_stopped, write_batch,
}
use yalb_link.Recording.Store.{
  Active, CommandError, Env, Limits, Store, Totals, Writer, WriterCommand, flagged, unix_milli,
}

abbrev pub max_consecutive_write_failures : ℕ
max_consecutive_write_failures = 5

-- terminal[id]
abbrev pub is_terminal : ℕ → Store → Bool
is_terminal id s = flagged (GoMap.lookup id s.writer.terminal)

abbrev pub cleared : ℕ → Option Active → Option Active
cleared id none = none
cleared id (some a) = if a.id == id then none else some a

-- clearCurrent
unfoldable pub clear_current : ℕ → Store → Store
clear_current id s = record s { current = cleared id s.current }

-- The duration deadline of a recording that is over.
unfoldable pub cancel_duration : ℕ → Writer → Writer
cancel_duration id w =
    if w.duration_id == id then record w { duration_id = 0; duration_timer = false } else w

unfoldable pub mark_terminal : Env → ℕ → Status → String → Store → Store
unfolding clear_current cancel_duration
mark_terminal env id status reason s =
    let marked = mark_stopped (env.mark_fault id) id status reason (unix_milli (env.now id)) s.db in
    clear_current id (record s {
      db = marked.0;
      writer =
          cancel_duration id
            (record s.writer { terminal = GoMap.insert id true s.writer.terminal });
    })

-- limitReason; the empty text is none.
unfoldable pub limit_reason : Limits → ℕ → Totals → Option String
limit_reason limits now total =
    if leb limits.max_events total.events
    then some "event_limit"
    else if leb limits.max_bytes total.bytes
    then some "size_limit"
    else if leb limits.max_duration (now - total.started)
    then some "duration_limit"
    else none

abbrev pub or_zero : Option ℕ → ℕ
or_zero none = 0
or_zero (some n) = n

abbrev pub totals_or : ℕ → Option Totals → Totals
totals_or now none = record { started = now; events = 0; bytes = 0 }
totals_or now (some t) = t

-- The loop over the records of a committed batch.
unfoldable pub add_records : List WriteRecord → Totals → Totals
add_records [] t = t
add_records (r ∷ rs) t =
    add_records rs (record t { events = t.events + 1; bytes = t.bytes + length r.payload })

abbrev pub is_context_error : DbError → Bool
is_context_error DbError.other = false
is_context_error _ = true

-- The counters after a batch failed.
abbrev pub with_failure : ℕ → ℕ → Store → Store
with_failure id failures s = record s {
  write_errors = s.write_errors + 1;
  writer = record s.writer {
    consecutive_failures = GoMap.insert id failures s.writer.consecutive_failures;
  };
}

abbrev pub failures_of : ℕ → Store → ℕ
failures_of id s = or_zero (GoMap.lookup id s.writer.consecutive_failures)

unfoldable pub write_failed : Env → ℕ → DbError → Store → Store
write_failed env id e s =
    let failures = failures_of id s + 1 in
    let counted = with_failure id failures s in
    if is_context_error e || leb max_consecutive_write_failures failures
    then mark_terminal env id Status.error "writer_error" counted
    else counted

abbrev pub end_at_limit : Env → ℕ → Option String → Store → Store
end_at_limit env id none s = s
end_at_limit env id (some reason) s = mark_terminal env id Status.limit_reached reason s

-- The counters after a batch was committed.
abbrev pub with_total : ℕ → Totals → Store → Store
with_total id total s = record s {
  writer = record s.writer {
    consecutive_failures = GoMap.insert id 0 s.writer.consecutive_failures;
    totals = GoMap.insert id total s.writer.totals;
  };
}

unfoldable pub write_succeeded : Env → ℕ → List WriteRecord → Store → Store
unfolding add_records limit_reason
write_succeeded env id records s =
    let total = add_records records (totals_or (env.now id) (GoMap.lookup id s.writer.totals)) in
    end_at_limit env id (limit_reason s.limits (env.now id) total) (with_total id total s)

abbrev pub after_write : Env → ℕ → List WriteRecord → Store → Database × Option DbError → Store
after_write env id records s (db, none) = write_succeeded env id records (record s { db = db })
after_write env id records s (db, some e) = write_failed env id e (record s { db = db })

-- The body of flush's loop over byID.
unfoldable pub flush_id : Env → ℕ → List WriteRecord → Store → Store
unfolding write_batch write_failed write_succeeded
flush_id env id records s =
    after_write env id records s (write_batch (env.write_fault id) records s.db)

-- The records of one recording, in order.
abbrev pub of_id : ℕ → List WriteRecord → List WriteRecord
of_id id = keep (λ r. r.recording_id == id)

abbrev pub others : ℕ → List ℕ → List ℕ
others id = keep (λ j. not (j == id))

-- The keys of byID.
unfoldable pub ids_of : List WriteRecord → List ℕ
unfolding keep
ids_of [] = []
ids_of (r ∷ rs) = r.recording_id ∷ others r.recording_id (ids_of rs)

unfoldable pub flush_ids : Env → List WriteRecord → List ℕ → Store → Store
unfolding flush_id keep
flush_ids env records [] s = s
flush_ids env records (id ∷ ids) s =
    flush_ids env records ids (flush_id env id (of_id id records) s)

-- The records of the batch whose recording is not over.
abbrev pub live : Store → List WriteRecord → List WriteRecord
live s = keep (λ r. not (is_terminal r.recording_id s))

unfoldable pub flush : Env → Store → Store
unfolding flush_ids ids_of keep
flush env s =
    let records = live s s.writer.batch in
    flush_ids env records (ids_of records)
      (record s { writer = record s.writer { batch = []; batch_timer = false } })

-- expireDuration
unfoldable pub expire_duration : Env → Store → Store
unfolding flush mark_terminal
expire_duration env s =
    let id = s.writer.duration_id in
    let flushed = flush env s in
    if not (id == 0) && not (is_terminal id flushed)
    then mark_terminal env id Status.limit_reached "duration_limit" flushed
    else flushed

-- A record taken from the channel.
unfoldable pub take_record : Env → WriteRecord → Store → Store
unfolding flush
take_record env r s =
    let batch = s.writer.batch ++ (r ∷ []) in
    let grown : Store = record s {
      writer = record s.writer {
        batch = batch;
        batch_timer = length batch == 1 || s.writer.batch_timer;
      };
    } in
    if is_terminal r.recording_id s
    then record s { dropped = s.dropped + 1 }
    else if leb s.limits.batch_size (length batch)
    then flush env grown
    else grown

-- close(command.done), with command.err.
unfoldable pub answer : WriterCommand → CommandError → Store → Store
answer c err s = record s { answers = GoMap.insert c.ticket err s.answers }

-- A start command; `late` tells whether its caller's context is over.
unfoldable pub take_start : Env → Bool → WriterCommand → Store → Store
unfolding mark_terminal answer
take_start env late c s = answer c CommandError.fine (
    if late then mark_terminal env c.start_id Status.error "control_timeout" s else record s {
      writer = record s.writer {
        totals =
            GoMap.insert c.start_id (record { started = c.started; events = 0; bytes = 0 })
              s.writer.totals;
        duration_id = c.start_id;
        duration_timer = true;
      };
    })

abbrev pub stop_error : Outcome → CommandError
stop_error Outcome.done = CommandError.fine
stop_error Outcome.not_found = CommandError.active_not_found
stop_error (Outcome.failed e) = CommandError.database e

-- The part of a command that stops a recording.
unfoldable pub take_stop : Env → WriterCommand → Store × CommandError → Store × CommandError
unfolding cancel_duration
take_stop env c (s, err) =
    let marked =
      mark_stopped (env.mark_fault c.stop_id) c.stop_id Status.stopped c.reason
        (unix_milli (env.now c.stop_id)) s.db in
    if not (c.stop_id == 0) && not (is_terminal c.stop_id s)
    then (
      record s {
        db = marked.0;
        writer =
            cancel_duration c.stop_id
              (record s.writer { terminal = GoMap.insert c.stop_id true s.writer.terminal });
      },
      stop_error marked.1,
    )
    else (s, err)
