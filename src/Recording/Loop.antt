-- ===== src/Recording/Loop.antt =====
-- internal/recording/writer.go: the commands that runWriter takes and the cases of its select.
use yalb_link.Prelude.{ℕ, Bool, not, ◌==◌, if◌then◌else◌, nat_eq, Option, true}
use yalb_link.GoMap
use yalb_link.Recording.Database.{Database, DbError}
use yalb_link.Recording.Retention.{SweepEnv, delete_recording, sweep}
use yalb_link.Recording.Store.{
  CommandError, Env, Item, Store, WriterCommand, command_item, record_item,
}
use yalb_link.Recording.Writer.{answer, cancel_duration, flush, take_record, take_start, take_stop}

abbrev pub after_delete : ℕ → Store → Database × CommandError → Store × CommandError
after_delete id s (db, CommandError.fine) = (
  record s {
    db = db;
    writer = cancel_duration id (record s.writer {
      terminal = GoMap.insert id true s.writer.terminal;
      totals = GoMap.delete id s.writer.totals;
      consecutive_failures = GoMap.delete id s.writer.consecutive_failures;
    });
  },
  CommandError.fine,
)
after_delete id s (db, err) = (record s { db = db }, err)

-- The part of a command that deletes a recording.
unfoldable pub take_delete : (ℕ → Option DbError) → WriterCommand → Store → Store × CommandError
unfolding delete_recording cancel_duration
take_delete faults c s =
    if c.delete_id == 0
    then (s, CommandError.fine)
    else after_delete c.delete_id s (delete_recording faults c.delete_id s.db)

-- A command taken from the channel.
unfoldable pub take_command : Env → (ℕ → Option DbError) → Bool → WriterCommand → Store → Store
unfolding take_start take_stop take_delete flush answer
take_command env faults late c s =
    let ended = take_stop env c (take_delete faults c (flush env s)) in
    if not (c.start_id == 0) then take_start env late c s else answer c ended.1 ended.0

unfoldable pub take_item : Env → (ℕ → Option DbError) → Bool → Item → Store → Store
unfolding take_record take_command
take_item env faults late (record_item r) s = take_record env r s
take_item env faults late (command_item c) s = take_command env faults late c s

-- The sweep's tick.
unfoldable pub sweep_tick : Env → SweepEnv → Store → Store
unfolding flush sweep
sweep_tick env sweep_env s =
    let flushed = flush env s in
    record flushed { db = (sweep flushed.limits sweep_env flushed.db).db }
