-- ===== src/Recording/Stops.antt =====
-- internal/recording: what is written when a recording is stopped.
use mathlib.Core.Path.{subst}
use mathlib.Core.List.{append_assoc, append-nil}
use yalb_link.Prelude.{
  ℕ, ◌+◌, ◌≡◌, ◌∙◌, ap, sym, refl, Bool, true, false, ◌||◌, Option, none, some, List, [], ◌∷◌, ◌++◌,
  ◌==◌, All, inl, inr, arith, if◌then◌else◌, Bool-cases, nat_eq, leb, length, String, map,
}
use yalb_link.GoMap.Laws.{lookup-insert}
use yalb_link.Recording.Database.{Database, DbError, Status, WriteRecord, keep, write_batch}
use yalb_link.Recording.Flushed.{mark_stopped-events}
use yalb_link.Recording.Loop.{take_command, take_delete}
use yalb_link.Recording.Persisted.{Rising, flush_whole, flush-batch, written}
use yalb_link.Recording.Store.{CommandError, Env, Store, WriterCommand, unix_milli}
use yalb_link.Recording.Sub.{keep-append}
use yalb_link.Recording.Writer.{
  answer, after_write, cancel_duration, end_at_limit, flush, flush_id, flush_ids, ids_of,
  is_terminal, live, mark_terminal, of_id, take_record, take_stop, write_failed, write_succeeded,
}

-- A recording that is over stays over.
pub mark_terminal-terminal :
    (env : Env) (j : ℕ) (status : Status) (reason : String) (s : Store) (id : ℕ)
    → is_terminal id s ≡ true
    → is_terminal id (mark_terminal env j status reason s) ≡ true
unfolding mark_terminal
mark_terminal-terminal env j status reason s id h =
    ground (arith, lookup-insert j id true s.writer.terminal)

end_at_limit-terminal :
    (env : Env) (j : ℕ) (reason : Option String) (s : Store) (id : ℕ)
    → is_terminal id s ≡ true
    → is_terminal id (end_at_limit env j reason s) ≡ true
end_at_limit-terminal env j none s id h = h
end_at_limit-terminal env j (some reason) s id h =
    mark_terminal-terminal env j Status.limit_reached reason s id h

if-terminal :
    (id : ℕ) (b : Bool) (s t : Store)
    → is_terminal id s ≡ true
    → is_terminal id t ≡ true
    → is_terminal id (if b then s else t) ≡ true
if-terminal id true s t h k = h
if-terminal id false s t h k = k

pub after_write-terminal :
    (env : Env) (j : ℕ) (rs : List WriteRecord) (s : Store) (x : Database × Option DbError) (id : ℕ)
    → is_terminal id s ≡ true
    → is_terminal id (after_write env j rs s x) ≡ true
unfolding write_failed write_succeeded
after_write-terminal env j rs s (db, none) id h = end_at_limit-terminal env j _ _ id h
after_write-terminal env j rs s (db, some e) id h =
    if-terminal id _ _ _ (mark_terminal-terminal env j Status.error "writer_error" _ id h) h

flush_ids-terminal :
    (env : Env) (rs : List WriteRecord) (ids : List ℕ) (s : Store) (id : ℕ)
    → is_terminal id s ≡ true
    → is_terminal id (flush_ids env rs ids s) ≡ true
unfolding flush_ids flush_id
flush_ids-terminal env rs [] s id h = h
flush_ids-terminal env rs (j ∷ js) s id h =
    flush_ids-terminal env rs js (flush_id env j (of_id j rs) s) id (
      after_write-terminal env j (of_id j rs) s (write_batch (env.write_fault j) (of_id j rs) s.db)
        id h)

pub flush-terminal :
    (env : Env) (s : Store) (id : ℕ) → is_terminal id s ≡ true → is_terminal id (flush env s) ≡ true
unfolding flush
flush-terminal env s id h =
    let records = live s s.writer.batch in
    flush_ids-terminal env records (ids_of records)
      (record s { writer = record s.writer { batch = []; batch_timer = false } }) id h

-- The store with one more record in its batch.
abbrev pub grown : WriteRecord → Store → Store
grown r s =
    let batch = s.writer.batch ++ (r ∷ []) in
    record s {
      writer = record s.writer {
        batch = batch;
        batch_timer = length batch == 1 || s.writer.batch_timer;
      };
    }

grown-written :
    (id : ℕ) (r : WriteRecord) (s : Store)
    → written id (grown r s) ≡ written id s ++ of_id id (r ∷ [])
grown-written id r s =
    ap (λ l. of_id id s.db.events ++ l) (keep-append _ s.writer.batch (r ∷ []))
    ∙ sym (append_assoc (of_id id s.db.events) (of_id id s.writer.batch) (of_id id (r ∷ [])))

flush-written :
    (env : Env) (id : ℕ) (s : Store)
    → env.write_fault id ≡ none
    → is_terminal id s ≡ false
    → Rising 0 (written id s)
    → written id (flush env s) ≡ written id s
unfolding keep
flush-written env id s h t k =
    ap (λ l. of_id id (flush env s).db.events ++ of_id id l) (flush-batch env s)
    ∙ append-nil _
    ∙ flush_whole env id s h t k

of_id-miss : (id : ℕ) (r : WriteRecord) → (r.recording_id == id) ≡ false → of_id id (r ∷ []) ≡ []
unfolding keep
of_id-miss id r h = rw h refl

pub not_over :
    (id j : ℕ) (s : Store) → is_terminal j s ≡ true → is_terminal id s ≡ false → (j == id) ≡ false
not_over id j s h t = elim (Bool-cases (j == id)) [
  | inr other ↦ other
  | inl same ↦
      let here : j ≡ id = ground arith in
      let clash : is_terminal id s ≡ true = subst (λ i. is_terminal i s ≡ true) here h in
      absurd (cc)
]

-- Taking a record while its recording is not over.
take_record-written :
    (env : Env) (r : WriteRecord) (s : Store) (id : ℕ)
    → env.write_fault id ≡ none
    → is_terminal id s ≡ false
    → Rising 0 (written id s ++ of_id id (r ∷ []))
    → written id (take_record env r s) ≡ written id s ++ of_id id (r ∷ [])
unfolding take_record
take_record-written env r s id h t k = elim (Bool-cases (is_terminal r.recording_id s)) [
  | inl over ↦ rw over (
      sym (append-nil (written id s))
      ∙ ap (λ l. written id s ++ l) (sym (of_id-miss id r (not_over id r.recording_id s over t))))
  | inr active ↦ elim (Bool-cases (leb s.limits.batch_size (length (s.writer.batch ++ (r ∷ []))))) [
    | inl full ↦
        rw (active, full)
          (flush-written env id (grown r s) h t (subst (Rising 0) (sym (grown-written id r s)) k)
            ∙ grown-written id r s)
    | inr room ↦ rw (active, room) (grown-written id r s)
  ]
]

take_record-terminal :
    (env : Env) (r : WriteRecord) (s : Store) (id : ℕ)
    → is_terminal id s ≡ true
    → is_terminal id (take_record env r s) ≡ true
unfolding take_record
take_record-terminal env r s id h =
    if-terminal id (is_terminal r.recording_id s) (record s { dropped = s.dropped + 1 })
      (if leb s.limits.batch_size (length (s.writer.batch ++ (r ∷ [])))
        then flush env (grown r s)
        else grown r s)
      h
      (if-terminal id (leb s.limits.batch_size (length (s.writer.batch ++ (r ∷ []))))
        (flush env (grown r s)) (grown r s) (flush-terminal env (grown r s) id h) h)

-- The writer takes these records one after the other, each in an environment of its own.
unfoldable pub take_records : List (Env × WriteRecord) → Store → Store
take_records [] s = s
take_records ((env, r) ∷ rs) s = take_records rs (take_record env r s)

take_records-terminal :
    (rs : List (Env × WriteRecord)) (s : Store) (id : ℕ)
    → is_terminal id s ≡ true
    → is_terminal id (take_records rs s) ≡ true
unfolding take_records
take_records-terminal [] s id h = h
take_records-terminal ((env, r) ∷ rs) s id h =
    take_records-terminal rs (take_record env r s) id (take_record-terminal env r s id h)

live_before :
    (id : ℕ) (s t : Store)
    → (is_terminal id s ≡ true → is_terminal id t ≡ true)
    → is_terminal id t ≡ false
    → is_terminal id s ≡ false
live_before id s t f h = elim (Bool-cases (is_terminal id s)) [
  | inl over ↦ absurd (cc (f over))
  | inr active ↦ active
]

Rising-prefix : (n : ℕ) (xs ys : List WriteRecord) → Rising n (xs ++ ys) → Rising n xs
Rising-prefix n [] ys h = tt
Rising-prefix n (x ∷ xs) ys h = (h.0, Rising-prefix x.seq xs ys h.1)

abbrev pub taken : List (Env × WriteRecord) → List WriteRecord
taken = map (λ x. x.1)

of_id-cons :
    (id : ℕ) (r : WriteRecord) (rs : List WriteRecord)
    → of_id id (r ∷ rs) ≡ of_id id (r ∷ []) ++ of_id id rs
of_id-cons id r rs = keep-append _ (r ∷ []) rs

-- Nothing that the writer takes of a recording is lost while the recording is not over and the driver does
-- not fail its writes.
take_records-written :
    (rs : List (Env × WriteRecord)) (s : Store) (id : ℕ)
    → All (λ x. x.0.write_fault id ≡ none) rs
    → is_terminal id (take_records rs s) ≡ false
    → Rising 0 (written id s ++ of_id id (taken rs))
    → written id (take_records rs s) ≡ written id s ++ of_id id (taken rs)
unfolding take_records keep
take_records-written [] s id h t k = sym (append-nil (written id s))
take_records-written ((env, r) ∷ rs) s id h t k =
    let split =
      ap (λ l. written id s ++ l) (of_id-cons id r (taken rs))
      ∙ sym (append_assoc (written id s) (of_id id (r ∷ [])) (of_id id (taken rs))) in
    let rising = subst (Rising 0) split k in
    let before =
      live_before id s (take_records rs (take_record env r s))
        (λ over. take_records-terminal rs _ id (take_record-terminal env r s id over)) t in
    let one =
      take_record-written env r s id h.0 before
        (Rising-prefix 0 (written id s ++ of_id id (r ∷ [])) (of_id id (taken rs)) rising) in
    take_records-written rs (take_record env r s) id h.1 t
      (subst (λ l. Rising 0 (l ++ of_id id (taken rs))) (sym one) rising)
    ∙ ap (λ l. l ++ of_id id (taken rs)) one
    ∙ sym split

take_stop-events :
    (env : Env) (c : WriterCommand) (s : Store) (err : CommandError)
    → (take_stop env c (s, err)).0.db.events ≡ s.db.events
unfolding take_stop
take_stop-events env c s err = ground (
  arith,
  mark_stopped-events (env.mark_fault c.stop_id) c.stop_id Status.stopped c.reason
      (unix_milli (env.now c.stop_id)) s.db,
)

take_stop-terminal :
    (env : Env) (c : WriterCommand) (s : Store) (err : CommandError)
    → (c.stop_id == 0) ≡ false
    → is_terminal c.stop_id (take_stop env c (s, err)).0 ≡ true
unfolding take_stop cancel_duration
take_stop-terminal env c s err h =
    ground (arith, lookup-insert c.stop_id c.stop_id true s.writer.terminal)

-- When the writer takes records and then the command that stops their recording, everything it held and
-- took of the recording is in the database afterwards, in order, and the recording is over. The driver does
-- not fail the writes, no limit ended the recording before, and its sequence numbers rise.
pub stop-persists :
    (rs : List (Env × WriteRecord)) (env : Env) (faults : ℕ → Option DbError) (late : Bool)
    (c : WriterCommand) (s : Store)
    → (c.start_id == 0) ≡ true
    → (c.delete_id == 0) ≡ true
    → (c.stop_id == 0) ≡ false
    → All (λ x. x.0.write_fault c.stop_id ≡ none) rs
    → env.write_fault c.stop_id ≡ none
    → is_terminal c.stop_id (take_records rs s) ≡ false
    → Rising 0 (written c.stop_id s ++ of_id c.stop_id (taken rs))
    → (of_id c.stop_id (take_command env faults late c (take_records rs s)).db.events
        ≡ written c.stop_id s ++ of_id c.stop_id (taken rs))
      × (is_terminal c.stop_id (take_command env faults late c (take_records rs s)) ≡ true)
unfolding take_command take_delete answer
stop-persists rs env faults late c s no_start no_delete stop fine fine_now active rising =
    let before = take_records rs s in
    let held = take_records-written rs s c.stop_id fine active rising in
    let flushed =
      flush_whole env c.stop_id before fine_now active (subst (Rising 0) (sym held) rising) in
    (
      rw (no_start, no_delete)
          (ap (of_id c.stop_id) (take_stop-events env c (flush env before) CommandError.fine)
            ∙ flushed
            ∙ held),
      rw (no_start, no_delete) (take_stop-terminal env c (flush env before) CommandError.fine stop),
    )
