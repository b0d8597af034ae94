-- ===== src/Recording/Database.antt =====
-- The two tables of internal/recording/migrations and the SQL statements of the package, each as the
-- function on the tables that its text says. A statement that the driver fails leaves the tables as they
-- were; whether it fails is an argument. Times are Unix milliseconds.
use yalb_link.Prelude.{
  ℕ, ◌+◌, Bool, true, false, ◌&&◌, Option, none, some, List, [], ◌∷◌, ◌++◌, ◌==◌, if◌then◌else◌,
  String, suc,
}

-- The CHECK of recordings.status.
pub data Status : Type 0 where
  active stopped limit_reached error : Status

abbrev pub is_active : Status → Bool
is_active Status.active = true
is_active _ = false

pub record Row : Type 0 where
  pub id : ℕ
  pub name : String
  pub started_at : ℕ
  pub stopped_at : Option ℕ
  pub status : Status
  pub stop_reason : Option String

-- writeRecord, and a row of recording_events.
pub record WriteRecord : Type 0 where
  pub payload : List ℕ  -- bytes
  pub kind : String
  pub recording_id : ℕ
  pub seq : ℕ
  pub occurred_at : ℕ

-- `last_id` is AUTOINCREMENT's counter: the largest id ever given.
pub record Database : Type 0 where
  pub recordings : List Row
  pub events : List WriteRecord
  pub last_id : ℕ

-- What the driver answers to a statement that fails: the context ended, or another error.
pub data DbError : Type 0 where
  deadline_exceeded canceled other : DbError

-- INSERT INTO recordings(name, started_at, status) VALUES (?, ?, 'active'), and LastInsertId
unfoldable pub insert_recording : String → ℕ → Database → Database × ℕ
insert_recording name started_at db =
    let id = db.last_id + 1 in
    (
      record db {
        recordings =
            db.recordings
            ++ (record {
              id = id;
              name = name;
              started_at = started_at;
              stopped_at = none;
              status = Status.active;
              stop_reason = none;
            }
                ∷ []);
        last_id = id;
      },
      id,
    )

-- WHERE id = ? AND status = 'active'
abbrev pub is_active_row : ℕ → Row → Bool
is_active_row id row = row.id == id && is_active row.status

unfoldable pub stop_rows : ℕ → Status → String → ℕ → List Row → List Row
stop_rows id status reason now_ms [] = []
stop_rows id status reason now_ms (row ∷ rows) =
    let rest = stop_rows id status reason now_ms rows in
    (if is_active_row id row
      then record row { stopped_at = some now_ms; status = status; stop_reason = some reason }
      else row)
    ∷ rest

-- How many rows pass a test.
unfoldable pub count : {A : Type 0} → (A → Bool) → List A → ℕ
count p [] = 0
count p (x ∷ xs) = let rest = count p xs in if p x then suc rest else rest

-- The rows that pass a test, in order.
unfoldable pub keep : {A : Type 0} → (A → Bool) → List A → List A
keep p [] = []
keep p (x ∷ xs) = let rest = keep p xs in if p x then x ∷ rest else rest

-- markStopped: no error, or the driver's, or that no active row has the id.
pub data Outcome : Type 0 where
  done not_found : Outcome
  failed : DbError → Outcome

unfoldable pub mark_stopped :
    Option DbError → ℕ → Status → String → ℕ → Database → Database × Outcome
unfolding stop_rows count
mark_stopped (some e) id status reason now_ms db = (db, failed e)
mark_stopped none id status reason now_ms db = (
  record db { recordings = stop_rows id status reason now_ms db.recordings },
  if count (is_active_row id) db.recordings == 0 then not_found else done,
)

-- UPDATE recordings SET ... 'error', stop_reason = 'process_restart' WHERE status = 'active', of Open.
unfoldable pub recover_rows : ℕ → List Row → List Row
recover_rows now_ms [] = []
recover_rows now_ms (row ∷ rows) =
    let rest = recover_rows now_ms rows in
    (if is_active row.status
      then record row {
        stopped_at = some now_ms;
        status = Status.error;
        stop_reason = some "process_restart";
      }
      else row)
    ∷ rest

abbrev pub same_key : WriteRecord → WriteRecord → Bool
same_key a b = a.recording_id == b.recording_id && a.seq == b.seq

-- INSERT INTO recording_events of one record: the primary key (recording_id, seq) must be new.
unfoldable pub insert_event : WriteRecord → List WriteRecord → Option (List WriteRecord)
unfolding count
insert_event r events = if count (same_key r) events == 0 then some (events ++ (r ∷ [])) else none

abbrev pub and_then : {A B : Type 0} → Option A → (A → Option B) → Option B
and_then none f = none
and_then (some a) f = f a

-- The loop of writeBatch.
unfoldable pub insert_events : List WriteRecord → List WriteRecord → Option (List WriteRecord)
unfolding insert_event
insert_events [] events = some events
insert_events (r ∷ rs) events = and_then (insert_event r events) (insert_events rs)

abbrev pub committed : Database → Option (List WriteRecord) → Database × Option DbError
committed db none = (db, some DbError.other)
committed db (some events) = (record db { events = events }, none)

-- writeBatch: one transaction, all of it or nothing.
unfoldable pub write_batch :
    Option DbError → List WriteRecord → Database → Database × Option DbError
unfolding insert_events
write_batch (some e) records db = (db, some e)
write_batch none records db = committed db (insert_events records db.events)
