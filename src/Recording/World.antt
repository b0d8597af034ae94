-- ===== src/Recording/World.antt =====
-- internal/recording as a whole: the Store, the call that holds the lifecycle token, and what may happen next.
-- Each operation is one locked section or one pass of the writer's loop; in a state where the code cannot
-- make that step, it changes nothing. A record is taken from the channel and handled in one step.
use yalb_link.Prelude.{
  ℕ, Bool, true, false, ◌&&◌, Option, none, some, List, [], ◌∷◌, ltb, length, String, if◌then◌else◌,
  nat_eq,
}
use yalb_link.GoMap
use yalb_link.Vehicle.Event.{Event}
use yalb_link.Recording.Database.{DbError}
use yalb_link.Recording.Lifecycle.{
  Begun, delete_call, mark_start_failure, send_command, shutdown, start_answered, start_recording,
  stop_recording, stop_unsent,
}
use yalb_link.Recording.Loop.{sweep_tick, take_item}
use yalb_link.Recording.Publish.{Wire, publish}
use yalb_link.Recording.Retention.{SweepEnv}
use yalb_link.Recording.Store.{
  Active, CommandError, Env, Item, Store, WriterCommand, command_item, record_item,
}
use yalb_link.Recording.Writer.{expire_duration, flush}

-- What a call does when its command is answered or given up.
pub data Call : Type 0 where
  starting : ℕ → Call
  stopping : Active → Call
  deleting closing : Call

pub data Phase : Type 0 where
  idle : Phase
  sending waiting : Call → WriterCommand → Phase

-- `close_command` and `close_sent` are the Store's fields; `running` is whether the writer has not returned.
pub record World : Type 0 where
  pub store : Store
  pub phase : Phase
  pub close_command : Option WriterCommand
  pub close_sent : Bool
  pub running : Bool

abbrev pub new_world : Store → World
new_world s = record {
  store = s;
  phase = Phase.idle;
  close_command = none;
  close_sent = false;
  running = true;
}

pub data Op : Type 0 where
  publishes : Event → Op
  takes : Env → (ℕ → Option DbError) → Bool → Op
  ticks expires : Env → Op
  sweeps : Env → SweepEnv → Op
  -- A failed statement, the name and the time.
  starts : Option DbError → String → ℕ → Op
  stops shuts_down sends answered : Op
  deletes : Option DbError → ℕ → Op
  -- The caller's context ends: what a statement that it still makes is answered, and the time.
  gives_up : Option DbError → ℕ → Op

abbrev pub begun : (WriterCommand → Call) → World → Store × Begun → World
begun call w (s, Begun.refused why) = record w { store = s }
begun call w (s, Begun.sends c) = record w { store = s; phase = Phase.sending (call c) c }

abbrev pub is_closing : Item → Bool
is_closing (record_item r) = false
is_closing (command_item c) = c.close

-- case item := <-s.items
unfoldable pub take : Env → (ℕ → Option DbError) → Bool → List Item → World → World
unfolding take_item
take env faults late [] w = w
take env faults late (i ∷ is) w = record w {
  store = take_item env faults late i (record w.store { items = is });
  running = if is_closing i then false else w.running;
}

-- StopRecording, which remembers what it stops.
abbrev pub stop_call : World → Option Active → World
stop_call w none = record w { store = (stop_recording w.store).0 }
stop_call w (some a) = begun (λ c. Call.stopping a) w (stop_recording w.store)

-- Shutdown, which may be called again after it gave up.
abbrev pub shut_down : World → Option WriterCommand → World
shut_down w none =
    let (s, c) = shutdown w.store in
    record w { store = s; close_command = some c; phase = Phase.sending Call.closing c }
shut_down w (some c) = record w {
  phase = if w.close_sent then Phase.waiting Call.closing c else Phase.sending Call.closing c;
}

abbrev pub is_shutdown : Call → Bool
is_shutdown Call.closing = true
is_shutdown _ = false

abbrev pub sent : World → Phase → World
sent w (Phase.sending call c) =
    let done : World = record w {
      store = send_command c w.store;
      phase = Phase.waiting call c;
      close_sent = if is_shutdown call then true else w.close_sent;
    } in
    if ltb (length w.store.items) w.store.limits.queue then done else w
sent w _ = w

abbrev pub unsent : Option DbError → ℕ → Store → Call → Store
unsent fault now s (Call.starting id) = mark_start_failure fault now id s
unsent fault now s (Call.stopping a) = stop_unsent a s
unsent fault now s _ = s

abbrev pub unanswered : Option DbError → ℕ → Store → Call → Store
unanswered fault now s (Call.starting id) = mark_start_failure fault now id s
unanswered fault now s _ = s

abbrev pub given_up : Option DbError → ℕ → World → Phase → World
given_up fault now w Phase.idle = w
given_up fault now w (Phase.sending call c) = record w {
  store = unsent fault now w.store call;
  phase = Phase.idle;
}
given_up fault now w (Phase.waiting call c) = record w {
  store = unanswered fault now w.store call;
  phase = Phase.idle;
}

abbrev pub completed : Store → Call → Store
completed s (Call.starting id) = start_answered id s
completed s _ = s

abbrev pub told : World → Call → Option CommandError → World
told w call none = w
told w call (some err) = record w { store = completed w.store call; phase = Phase.idle }

abbrev pub answer_read : World → Phase → World
answer_read w (Phase.waiting call c) = told w call (GoMap.lookup c.ticket w.store.answers)
answer_read w _ = w

abbrev pub when_idle : Phase → World → World → World
when_idle Phase.idle next w = next
when_idle _ next w = w

module _ (wire : Wire) where
  unfoldable pub step : Op → World → World
  unfolding publish take flush expire_duration sweep_tick start_recording stop_recording delete_call
      shutdown send_command mark_start_failure stop_unsent start_answered
  step (publishes ev) w = record w { store = publish wire ev w.store }
  step (takes env faults late) w = if w.running then take env faults late w.store.items w else w
  step (ticks env) w =
      if w.running && w.store.writer.batch_timer then record w { store = flush env w.store } else w
  step (expires env) w =
      if w.running && w.store.writer.duration_timer
      then record w { store = expire_duration env w.store }
      else w
  step (sweeps env sweep_env) w =
      if w.running then record w { store = sweep_tick env sweep_env w.store } else w
  step (starts fault name now) w =
      when_idle w.phase
        (begun (λ c. Call.starting c.start_id) w (start_recording fault name now w.store)) w
  step stops w = when_idle w.phase (stop_call w w.store.current) w
  step shuts_down w = when_idle w.phase (shut_down w w.close_command) w
  step sends w = sent w w.phase
  step answered w = answer_read w w.phase
  step (deletes fault id) w =
      when_idle w.phase (begun (λ c. Call.deleting) w (delete_call fault id w.store)) w
  step (gives_up fault now) w = given_up fault now w w.phase

  unfoldable pub run : List Op → World → World
  unfolding step
  run [] w = w
  run (op ∷ ops) w = run ops (step op w)
