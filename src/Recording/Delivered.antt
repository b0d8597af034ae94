-- ===== src/Recording/Delivered.antt =====
-- What internal/recording accepted against what it holds, over any run of the whole component.
use mathlib.Core.Path.{subst}
use mathlib.Core.List.{append_assoc, append-nil}
use yalb_link.Prelude.{
  ℕ, ◌≡◌, ◌∙◌, ap, sym, refl, Bool, true, false, ◌&&◌, Option, List, [], ◌∷◌, ◌++◌, if◌then◌else◌,
  ltb, length, Bool-cases, inl, inr, nat_eq,
}
use yalb_link.Recording.Database.{DbError, keep}
use yalb_link.Recording.Flushed.{queued, trace, SameRecords, flush-Sub}
use yalb_link.Recording.Publish.{Wire, persistable, publish}
use yalb_link.Recording.Store.{WriterCommand, Env, Item, Store, command_item}
use yalb_link.Recording.Sub.{Sub, Sub-append, Sub-eq, Sub-left, Sub-refl, Sub-trans, keep-append}
use yalb_link.Recording.Trace.{expire_duration-Sub, SameRecords-Sub, sweep_tick-Sub, take_item-Sub}
use yalb_link.Recording.Writer.{of_id}
use yalb_link.Recording.Lifecycle.{Begun, delete_call, send_command, start_recording}
use yalb_link.Recording.World.{
  Op, World, run, step, take, Call, Phase, begun, when_idle, sent, stop_call, shut_down,
}
use yalb_link.Recording.Accepted.{accepted, accepted_by, grown-trace, publish_persistable-trace}
use yalb_link.Recording.Calls.{
  answer_read-SameRecords, begun-store, delete_call-SameRecords, given_up-SameRecords,
  shut_down-SameRecords, start_recording-SameRecords, stop_call-SameRecords, when_idle-SameRecords,
}
use yalb_link.Recording.Writer.{flush, expire_duration}
use yalb_link.Recording.Loop.{sweep_tick}

-- An operation that accepts nothing.
quiet : (id : ℕ) (s t : Store) → Sub (trace id t) (trace id s) → Sub (trace id t) (trace id s ++ [])
quiet id s t h = Sub-trans (Sub-left (trace id s) []) h

if-quiet :
    (id : ℕ) (b : Bool) (w v : World)
    → Sub (trace id v.store) (trace id w.store)
    → Sub (trace id (if b then v else w).store) (trace id w.store ++ [])
if-quiet id true w v h = quiet id w.store v.store h
if-quiet id false w v h = Sub-left (trace id w.store) []

take-Sub :
    (env : Env) (faults : ℕ → Option DbError) (late : Bool) (id : ℕ) (is : List Item) (w : World)
    → w.store.items ≡ is
    → Sub (trace id (take env faults late is w).store) (trace id w.store)
unfolding take trace
take-Sub env faults late id [] w h = Sub-refl (trace id w.store)
take-Sub env faults late id (i ∷ is) w h =
    Sub-trans
      (Sub-eq (
        ap (λ q. of_id id w.store.db.events ++ of_id id w.store.writer.batch ++ of_id id (queued q))
          (sym h)))
      (take_item-Sub env faults late i is id w.store)

sent-Sub :
    (id : ℕ) (w : World) (phase : Phase) → Sub (trace id (sent w phase).store) (trace id w.store)
unfolding send_command queued keep
sent-Sub id w Phase.idle = Sub-refl (trace id w.store)
sent-Sub id w (Phase.waiting call c) = Sub-refl (trace id w.store)
sent-Sub id w (Phase.sending call c) =
    elim (Bool-cases (ltb (length w.store.items) w.store.limits.queue)) [
      | inr full ↦ rw full (Sub-refl (trace id w.store))
      | inl room ↦ rw room (
          Sub-eq (
            grown-trace id w.store (send_command c w.store) (command_item c) refl refl refl
            ∙ append-nil (trace id w.store)))
    ]

begun-Sub :
    (id : ℕ) (call : WriterCommand → Call) (w : World) (x : Store × Begun)
    → SameRecords w.store x.0
    → Sub (trace id (when_idle w.phase (begun call w x) w).store) (trace id w.store)
begun-Sub id call w x h = SameRecords-Sub id w.store _ (
    when_idle-SameRecords w.phase w (begun call w x)
      (subst (SameRecords w.store) (sym (begun-store call w x)) h))

step-Sub :
    (wire : Wire) (op : Op) (w : World) (id : ℕ)
    → Sub (trace id (step wire op w).store) (trace id w.store ++ of_id id (accepted_by wire op w))
unfolding step accepted_by keep publish
step-Sub wire (Op.publishes ev) w id =
    Sub-eq (publish_persistable-trace wire (persistable wire ev) w.store id)
step-Sub wire (Op.takes env faults late) w id =
    if-quiet id w.running w (take env faults late w.store.items w)
      (take-Sub env faults late id w.store.items w refl)
step-Sub wire (Op.ticks env) w id =
    if-quiet id (w.running && w.store.writer.batch_timer) w (record w { store = flush env w.store })
      (flush-Sub env id w.store)
step-Sub wire (Op.expires env) w id =
    if-quiet id (w.running && w.store.writer.duration_timer) w
      (record w { store = expire_duration env w.store }) (expire_duration-Sub env id w.store)
step-Sub wire (Op.sweeps env sweep_env) w id =
    if-quiet id w.running w (record w { store = sweep_tick env sweep_env w.store })
      (sweep_tick-Sub env sweep_env id w.store)
step-Sub wire (Op.starts fault name now) w id = quiet id w.store _ (
    begun-Sub id (λ c. Call.starting c.start_id) w (start_recording fault name now w.store)
      (start_recording-SameRecords fault name now w.store))
step-Sub wire Op.stops w id = quiet id w.store _ (
    SameRecords-Sub id w.store _ (
      when_idle-SameRecords w.phase w (stop_call w w.store.current)
        (stop_call-SameRecords w w.store.current)))
step-Sub wire Op.shuts_down w id = quiet id w.store _ (
    SameRecords-Sub id w.store _ (
      when_idle-SameRecords w.phase w (shut_down w w.close_command)
        (shut_down-SameRecords w w.close_command)))
step-Sub wire Op.sends w id = quiet id w.store _ (sent-Sub id w w.phase)
step-Sub wire Op.answered w id =
    quiet id w.store _ (SameRecords-Sub id w.store _ (answer_read-SameRecords w w.phase))
step-Sub wire (Op.deletes fault d) w id = quiet id w.store _ (
    begun-Sub id (λ c. Call.deleting) w (delete_call fault d w.store)
      (delete_call-SameRecords fault d w.store))
step-Sub wire (Op.gives_up fault now) w id =
    quiet id w.store _ (SameRecords-Sub id w.store _ (given_up-SameRecords fault now w w.phase))

-- What a recording holds after any run, written to the database, then in the batch, then in the channel, is
-- a subsequence of what it held before followed by what the run accepted for it: whatever fails and in
-- whatever order the calls, the writer and the timers interleave, no record is invented, altered, repeated
-- or moved.
pub run-Sub :
    (wire : Wire) (ops : List Op) (w : World) (id : ℕ)
    → Sub (trace id (run wire ops w).store) (trace id w.store ++ of_id id (accepted wire ops w))
unfolding run accepted keep
run-Sub wire [] w id = Sub-left (trace id w.store) []
run-Sub wire (op ∷ ops) w id =
    let now = of_id id (accepted_by wire op w) in
    let later = of_id id (accepted wire ops (step wire op w)) in
    Sub-trans
      (Sub-eq (
        append_assoc (trace id w.store) now later
        ∙ ap (λ l. trace id w.store ++ l) (sym (keep-append _ (accepted_by wire op w) _))))
      (Sub-trans (Sub-append (step-Sub wire op w id) (Sub-refl later))
        (run-Sub wire ops (step wire op w) id))
