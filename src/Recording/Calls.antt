-- ===== src/Recording/Calls.antt =====
-- The lifecycle calls of internal/recording move no record.
use mathlib.Core.Path.{subst}
use yalb_link.GoMap
use yalb_link.Prelude.{ℕ, ◌≡◌, sym, refl, Option, none, some, String, arith, nat_eq}
use yalb_link.Recording.Database.{insert_recording, Status, DbError}
use yalb_link.Recording.Flushed.{mark_stopped-events, SameRecords}
use yalb_link.Recording.Publish.{}
use yalb_link.Recording.Store.{unix_milli, WriterCommand, CommandError, Active, Store}
use yalb_link.Recording.Lifecycle.{
  Begun, Recording, delete_call, delete_found, delete_read, mark_start_failure, recording, shutdown,
  start_answered, start_recording, stop_active, stop_recording, stop_unsent,
}
use yalb_link.Recording.World.{
  World, Call, Phase, begun, when_idle, given_up, answer_read, stop_call, shut_down, told, unsent,
}

pub begun-store :
    (call : WriterCommand → Call) (w : World) (x : Store × Begun) → (begun call w x).store ≡ x.0
begun-store call w (s, Begun.refused why) = refl
begun-store call w (s, Begun.sends c) = refl

pub start_recording-SameRecords :
    (fault : Option DbError) (name : String) (now : ℕ) (s : Store)
    → SameRecords s (start_recording fault name now s).0
unfolding start_recording insert_recording
start_recording-SameRecords none name now s = ground arith
start_recording-SameRecords (some e) name now s = ground arith

stop_active-SameRecords :
    (s : Store) (found : Option Active) → SameRecords s (stop_active s found).0
stop_active-SameRecords s none = (refl, refl, refl)
stop_active-SameRecords s (some a) = (refl, refl, refl)

stop_recording-SameRecords : (s : Store) → SameRecords s (stop_recording s).0
unfolding stop_recording
stop_recording-SameRecords s = ground (arith, stop_active-SameRecords s s.current)

delete_found-SameRecords :
    (id : ℕ) (s : Store) (found : Option Recording) → SameRecords s (delete_found id s found).0
delete_found-SameRecords id s none = (refl, refl, refl)
delete_found-SameRecords id s (some r) = ground arith

delete_read-SameRecords :
    (id : ℕ) (s : Store) (fault : Option DbError) → SameRecords s (delete_read id s fault).0
delete_read-SameRecords id s none = delete_found-SameRecords id s (recording id s.db)
delete_read-SameRecords id s (some e) = (refl, refl, refl)

pub delete_call-SameRecords :
    (fault : Option DbError) (id : ℕ) (s : Store) → SameRecords s (delete_call fault id s).0
unfolding delete_call
delete_call-SameRecords fault id s = ground (arith, delete_read-SameRecords id s fault)

pub stop_call-SameRecords :
    (w : World) (found : Option Active) → SameRecords w.store (stop_call w found).store
stop_call-SameRecords w none = stop_recording-SameRecords w.store
stop_call-SameRecords w (some a) =
    let same = begun-store (λ c. Call.stopping a) w (stop_recording w.store) in
    let kept = stop_recording-SameRecords w.store in subst (SameRecords w.store) (sym same) kept

pub shut_down-SameRecords :
    (w : World) (sent_before : Option WriterCommand)
    → SameRecords w.store (shut_down w sent_before).store
unfolding shutdown
shut_down-SameRecords w none = (refl, refl, refl)
shut_down-SameRecords w (some c) = (refl, refl, refl)

mark_start_failure-SameRecords :
    (fault : Option DbError) (now id : ℕ) (s : Store)
    → SameRecords s (mark_start_failure fault now id s)
unfolding mark_start_failure
mark_start_failure-SameRecords fault now id s =
    (mark_stopped-events fault id Status.error "control_timeout" (unix_milli now) s.db, refl, refl)

unsent-SameRecords :
    (fault : Option DbError) (now : ℕ) (s : Store) (call : Call)
    → SameRecords s (unsent fault now s call)
unfolding stop_unsent
unsent-SameRecords fault now s (Call.starting id) = mark_start_failure-SameRecords fault now id s
unsent-SameRecords fault now s (Call.stopping a) = ground arith
unsent-SameRecords fault now s Call.deleting = (refl, refl, refl)
unsent-SameRecords fault now s Call.closing = (refl, refl, refl)

pub given_up-SameRecords :
    (fault : Option DbError) (now : ℕ) (w : World) (phase : Phase)
    → SameRecords w.store (given_up fault now w phase).store
given_up-SameRecords fault now w Phase.idle = (refl, refl, refl)
given_up-SameRecords fault now w (Phase.sending call c) = unsent-SameRecords fault now w.store call
given_up-SameRecords fault now w (Phase.waiting (Call.starting id) c) =
    mark_start_failure-SameRecords fault now id w.store
given_up-SameRecords fault now w (Phase.waiting _ c) = (refl, refl, refl)

told-SameRecords :
    (w : World) (call : Call) (err : Option CommandError)
    → SameRecords w.store (told w call err).store
unfolding start_answered
told-SameRecords w call none = (refl, refl, refl)
told-SameRecords w (Call.starting id) (some err) = (refl, refl, refl)
told-SameRecords w _ (some err) = (refl, refl, refl)

pub answer_read-SameRecords :
    (w : World) (phase : Phase) → SameRecords w.store (answer_read w phase).store
answer_read-SameRecords w (Phase.waiting call c) =
    told-SameRecords w call (GoMap.lookup c.ticket w.store.answers)
answer_read-SameRecords w _ = (refl, refl, refl)

pub when_idle-SameRecords :
    (phase : Phase) (w v : World)
    → SameRecords w.store v.store
    → SameRecords w.store (when_idle phase v w).store
when_idle-SameRecords Phase.idle w v h = h
when_idle-SameRecords _ w v h = (refl, refl, refl)
