-- ===== src/Recording/Store.antt =====
-- The Store of internal/recording/recording.go: its configuration, its shared fields, and the local
-- variables of the writer goroutine of writer.go. Times are Unix nanoseconds.
use yalb_link.Prelude.{
  ℕ, ◌*◌, ◌^◌, ◌/◌, Bool, false, Option, none, some, List, [], if◌then◌else◌, String, ℤ, pos, leb_ℤ,
  pos_part,
}
use yalb_link.GoMap.{GoMap}
use yalb_link.Recording.Database.{Database, DbError, WriteRecord}

-- The numeric fields of Config, before the defaults.
pub record Config : Type 0 where
  pub queue : ℤ
  pub batch_size : ℤ
  pub max_events : ℤ
  pub max_bytes : ℤ
  pub max_duration : ℤ
  pub max_total_bytes : ℤ
  pub max_total_age : ℤ
  pub max_recordings : ℤ

-- The same fields in the Store: five are positive, a negative one of the others is a bound that is off.
pub record Limits : Type 0 where
  pub queue : ℕ
  pub batch_size : ℕ
  pub max_events : ℕ
  pub max_bytes : ℕ
  pub max_duration : ℕ
  pub max_total_bytes : ℤ
  pub max_total_age : ℤ
  pub max_recordings : ℤ

-- if x <= 0 { x = d }
abbrev pub positive_or : ℕ → ℤ → ℕ
positive_or d x = if leb_ℤ x (pos 0) then d else pos_part x

-- if x == 0 { x = d }
abbrev pub nonzero_or : ℕ → ℤ → ℤ
nonzero_or d x = if leb_ℤ x (pos 0) then (if leb_ℤ (pos 0) x then pos d else x) else x

abbrev pub second : ℕ
second = 1000000000

-- defaultConfig
unfoldable pub default_config : Config → Limits
default_config cfg = record {
  queue = positive_or 1024 cfg.queue;
  batch_size = positive_or 100 cfg.batch_size;
  max_events = positive_or 200000 cfg.max_events;
  max_bytes = positive_or (256 * 2 ^ 20) cfg.max_bytes;
  max_duration = positive_or (1800 * second) cfg.max_duration;
  max_total_bytes = nonzero_or (4 * 2 ^ 30) cfg.max_total_bytes;
  max_total_age = nonzero_or (2592000 * second) cfg.max_total_age;
  max_recordings = nonzero_or 200 cfg.max_recordings;
}

-- activeRecording
pub record Active : Type 0 where
  pub id : ℕ
  pub next_seq : ℕ

-- writerCommand; an id of 0 is unset. `ticket` is the command's address, by which its caller waits.
pub record WriterCommand : Type 0 where
  pub ticket : ℕ
  pub started : ℕ
  pub start_id : ℕ
  pub stop_id : ℕ
  pub delete_id : ℕ
  pub reason : String
  pub close : Bool

-- writerItem
pub data Item : Type 0 where
  record_item : WriteRecord → Item
  command_item : WriterCommand → Item

-- recordingTotals
pub record Totals : Type 0 where
  pub started : ℕ
  pub events : ℕ
  pub bytes : ℕ

-- The local variables of runWriter. `batch_timer` and `duration_timer` tell whether the timer's channel is
-- set; when it fires is a step of its own.
pub record Writer : Type 0 where
  pub batch : List WriteRecord
  pub totals : GoMap ℕ Totals
  pub terminal : GoMap ℕ Bool
  pub consecutive_failures : GoMap ℕ ℕ
  pub batch_timer : Bool
  pub duration_timer : Bool
  pub duration_id : ℕ

-- What a writer's command came to: `err` is nil, a failed statement, or a missing row.
pub data CommandError : Type 0 where
  fine recording_not_found active_not_found : CommandError
  database : DbError → CommandError

-- The Store. `answers` holds the commands whose `done` is closed, with their `err`.
pub record Store : Type 0 where
  pub limits : Limits
  pub db : Database
  pub items : List Item
  pub current : Option Active
  pub closed : Bool
  pub dropped : ℕ
  pub write_errors : ℕ
  pub encode_errors : ℕ
  pub writer : Writer
  pub answers : GoMap ℕ CommandError
  pub next_ticket : ℕ

abbrev pub idle_writer : Writer
idle_writer = record {
  batch = [];
  totals = [];
  terminal = [];
  consecutive_failures = [];
  batch_timer = false;
  duration_timer = false;
  duration_id = 0;
}

-- The Store that Open returns, over the database as the migrations, the recovery and the first sweep leave
-- it.
unfoldable pub new_store : Limits → Database → Store
new_store limits db = record {
  limits = limits;
  db = db;
  items = [];
  current = none;
  closed = false;
  dropped = 0;
  write_errors = 0;
  encode_errors = 0;
  writer = idle_writer;
  answers = [];
  next_ticket = 0;
}

-- terminal[id]
abbrev pub flagged : Option Bool → Bool
flagged none = false
flagged (some b) = b

-- What the driver and the clock answer during one step of the writer, for each recording.
pub record Env : Type 0 where
  pub write_fault : ℕ → Option DbError
  pub mark_fault : ℕ → Option DbError
  pub now : ℕ → ℕ

abbrev pub unix_milli : ℕ → ℕ
unix_milli ns = ns / 1000000
