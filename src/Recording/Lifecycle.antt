-- ===== src/Recording/Lifecycle.antt =====
-- internal/recording/recording.go: the calls that start, stop and delete a recording and close the Store.
-- The lifecycle token lets one call run at a time; a call sends its command, waits for the answer, and may
-- give up on either when its context ends.
use yalb_link.Prelude.{
  ℕ, ◌+◌, Bool, true, false, not, ◌&&◌, Option, none, some, List, [], ◌∷◌, ◌++◌, ◌==◌,
  if◌then◌else◌, String, is_some, leb, map, sort,
}
use yalb_link.Recording.Database.{
  Database, DbError, Row, Status, count, insert_recording, is_active, mark_stopped, recover_rows,
}
use yalb_link.Recording.Retention.{SweepEnv, sweep}
use yalb_link.Recording.Store.{
  Active, Limits, Store, WriterCommand, command_item, new_store, unix_milli,
}

-- What a call is refused with before it has sent a command.
pub data Refusal : Type 0 where
  closed recording_active no_recording recording_not_found recording_in_use : Refusal
  database : DbError → Refusal

-- A call's start: refused, or the command that it sends.
pub data Begun : Type 0 where
  refused : Refusal → Begun
  sends : WriterCommand → Begun

abbrev pub blank : ℕ → WriterCommand
blank ticket = record {
  ticket = ticket;
  started = 0;
  start_id = 0;
  stop_id = 0;
  delete_id = 0;
  reason = "";
  close = false;
}

-- The next command's address is taken.
abbrev pub with_ticket : Store → Store
with_ticket s = record s { next_ticket = s.next_ticket + 1 }

abbrev pub start_inserted : ℕ → Store → Database × ℕ → Store × Begun
start_inserted now s (db, id) = (
  with_ticket (record s { db = db }),
  Begun.sends (record (blank s.next_ticket) { start_id = id; started = now }),
)

abbrev pub start_insert : Option DbError → String → ℕ → Store → Store × Begun
start_insert (some e) name now s = (s, Begun.refused (Refusal.database e))
start_insert none name now s = start_inserted now s (insert_recording name (unix_milli now) s.db)

-- StartRecording, up to its command.
unfoldable pub start_recording : Option DbError → String → ℕ → Store → Store × Begun
unfolding insert_recording
start_recording fault name now s =
    if s.closed
    then (s, Begun.refused Refusal.closed)
    else if is_some s.current
    then (s, Begun.refused Refusal.recording_active)
    else start_insert fault name now s

-- markStartFailure: the command was not sent, or not answered in time.
unfoldable pub mark_start_failure : Option DbError → ℕ → ℕ → Store → Store
unfolding mark_stopped
mark_start_failure fault now id s = record s {
  db = (mark_stopped fault id Status.error "control_timeout" (unix_milli now) s.db).0;
}

-- StartRecording, once its command is answered.
unfoldable pub start_answered : ℕ → Store → Store
start_answered id s = record s { current = some (record { id = id; next_seq = 0 }) }

abbrev pub stop_active : Store → Option Active → Store × Begun
stop_active s none = (s, Begun.refused Refusal.no_recording)
stop_active s (some a) = (
  with_ticket (record s { current = none }),
  Begun.sends (record (blank s.next_ticket) { stop_id = a.id; reason = "requested" }),
)

-- StopRecording, up to its command.
unfoldable pub stop_recording : Store → Store × Begun
stop_recording s = if s.closed then (s, Begun.refused Refusal.closed) else stop_active s s.current

-- StopRecording, when its command could not be sent: the recording is active again.
unfoldable pub stop_unsent : Active → Store → Store
stop_unsent a s =
    if not s.closed && not (is_some s.current) then record s { current = some a } else s

abbrev pub current_is : ℕ → Option Active → Bool
current_is id none = false
current_is id (some a) = a.id == id

-- The row of a recording, and Recording's count of its events.
unfoldable pub find_row : ℕ → List Row → Option Row
find_row id [] = none
find_row id (row ∷ rows) = if row.id == id then some row else find_row id rows

pub record Recording : Type 0 where
  pub row : Row
  pub event_count : ℕ

abbrev pub with_count : Database → Row → Recording
with_count db row = record {
  row = row;
  event_count = count (λ e. e.recording_id == row.id) db.events;
}

abbrev pub counted : Database → Option Row → Option Recording
counted db none = none
counted db (some row) = some (with_count db row)

-- recording: the row with the number of its events; `none` is sql.ErrNoRows.
unfoldable pub recording : ℕ → Database → Option Recording
unfolding find_row count
recording id db = counted db (find_row id db.recordings)

abbrev pub delete_found : ℕ → Store → Option Recording → Store × Begun
delete_found id s none = (s, Begun.refused Refusal.recording_not_found)
delete_found id s (some r) =
    if is_active r.row.status
    then (s, Begun.refused Refusal.recording_in_use)
    else (with_ticket s, Begun.sends (record (blank s.next_ticket) { delete_id = id }))

abbrev pub delete_read : ℕ → Store → Option DbError → Store × Begun
delete_read id s (some e) = (s, Begun.refused (Refusal.database e))
delete_read id s none = delete_found id s (recording id s.db)

-- DeleteRecording, up to its command.
unfoldable pub delete_call : Option DbError → ℕ → Store → Store × Begun
unfolding recording
delete_call fault id s =
    if s.closed
    then (s, Begun.refused Refusal.closed)
    else if current_is id s.current
    then (s, Begun.refused Refusal.recording_in_use)
    else delete_read id s fault

abbrev pub closing : WriterCommand → Option Active → WriterCommand
closing c none = record c { close = true }
closing c (some a) = record c { close = true; stop_id = a.id; reason = "shutdown" }

-- Shutdown's first part, the first time: the command that closes the writer.
unfoldable pub shutdown : Store → Store × WriterCommand
shutdown s = (
  with_ticket (record s { closed = true; current = none }),
  closing (blank s.next_ticket) s.current,
)

-- s.items <- command
unfoldable pub send_command : WriterCommand → Store → Store
send_command c s = record s { items = s.items ++ (command_item c ∷ []) }

-- The Store that Open returns on a migrated database, if no statement of its start fails: what was active
-- is marked, and the retention bounds are applied.
unfoldable pub open_store : Limits → SweepEnv → ℕ → Database → Store
unfolding recover_rows sweep new_store
open_store limits env now db =
    new_store limits
      (sweep limits env (record db { recordings = recover_rows (unix_milli now) db.recordings })).db

-- ListRecordings: ORDER BY r.id.
unfoldable pub list_recordings : Database → List Recording
unfolding count sort
list_recordings db = map (with_count db) (sort (λ a b. leb a.id b.id) db.recordings)
