-- ===== src/Recording/Flushed.antt =====
-- Where the records that internal/recording accepts are held, and what flush of writer.go does to them.
use mathlib.Core.Path.{subst}
use mathlib.Core.List.{append_assoc, append-nil}
use yalb_link.Prelude.{
  ℕ, ◌≡◌, ◌∙◌, ap, sym, refl, Bool, true, false, Option, none, some, List, [], ◌∷◌, ◌++◌, ◌==◌,
  arith, if◌then◌else◌, Bool-cases, inl, inr, nat_eq, String, ◌⊎◌,
}
use yalb_link.Recording.Database.{
  Database, DbError, Status, WriteRecord, count, insert_event, insert_events, keep, mark_stopped,
  same_key, write_batch,
}
use yalb_link.Recording.Store.{Env, Item, Store, Writer, command_item, record_item}
use yalb_link.Recording.Sub.{
  Sub, Sub-append, Sub-eq, Sub-keep, Sub-left, Sub-refl, Sub-trans, keep-Sub, keep-append,
}
use yalb_link.Recording.Writer.{
  after_write, cancel_duration, end_at_limit, flush, flush_id, flush_ids, ids_of, live,
  mark_terminal, of_id, others, write_failed, write_succeeded,
}

-- The records that wait in the channel.
unfoldable pub queued : List Item → List WriteRecord
queued [] = []
queued (record_item r ∷ is) = r ∷ queued is
queued (command_item c ∷ is) = queued is

-- The records of a recording, wherever they are: written, in the batch, in the channel.
unfoldable pub trace : ℕ → Store → List WriteRecord
unfolding queued keep
trace id s = of_id id s.db.events ++ of_id id s.writer.batch ++ of_id id (queued s.items)

-- The two stores hold the same records in the same places.
abbrev pub SameRecords : Store → Store → Type 0
SameRecords s t =
    (t.db.events ≡ s.db.events) × (t.writer.batch ≡ s.writer.batch) × (t.items ≡ s.items)

pub mark_stopped-events :
    (fault : Option DbError) (id : ℕ) (status : Status) (reason : String) (now : ℕ) (db : Database)
    → (mark_stopped fault id status reason now db).0.events ≡ db.events
unfolding mark_stopped
mark_stopped-events none id status reason now db = refl
mark_stopped-events (some e) id status reason now db = refl

pub cancel_duration-batch : (id : ℕ) (w : Writer) → (cancel_duration id w).batch ≡ w.batch
unfolding cancel_duration
cancel_duration-batch id w = ground arith

pub mark_terminal-SameRecords :
    (env : Env) (id : ℕ) (status : Status) (reason : String) (s : Store)
    → SameRecords s (mark_terminal env id status reason s)
unfolding mark_terminal
mark_terminal-SameRecords env id status reason s = (
  mark_stopped-events (env.mark_fault id) id status reason _ s.db,
  cancel_duration-batch id _,
  refl,
)

-- A transaction inserts all of its records or none.
pub insert_events-cases :
    (rs events : List WriteRecord)
    → (insert_events rs events ≡ none) ⊎ (insert_events rs events ≡ some (events ++ rs))
unfolding insert_events insert_event
insert_events-cases [] events = inr (ap some (sym (append-nil events)))
insert_events-cases (r ∷ rs) events = elim (Bool-cases (count (same_key r) events == 0)) [
  | inr taken ↦ inl (rw taken)
  | inl new ↦
      rw (new, sym (append_assoc events (r ∷ []) rs)) (insert_events-cases rs (events ++ (r ∷ [])))
]

-- A write leaves the events as they were, or appends the whole batch.
pub write_batch-cases :
    (fault : Option DbError) (rs : List WriteRecord) (db : Database)
    → ((write_batch fault rs db).0.events ≡ db.events)
      ⊎ ((write_batch fault rs db).0.events ≡ db.events ++ rs)
unfolding write_batch
write_batch-cases (some e) rs db = inl refl
write_batch-cases none rs db = elim (insert_events-cases rs db.events) [
  | inl failed ↦ inl (rw failed)
  | inr done ↦ inr (rw done)
]

end_at_limit-SameRecords :
    (env : Env) (id : ℕ) (reason : Option String) (s : Store)
    → SameRecords s (end_at_limit env id reason s)
end_at_limit-SameRecords env id none s = (refl, refl, refl)
end_at_limit-SameRecords env id (some reason) s =
    mark_terminal-SameRecords env id Status.limit_reached reason s

if-SameRecords :
    (b : Bool) (s t u : Store)
    → SameRecords s t
    → SameRecords s u
    → SameRecords s (if b then t else u)
if-SameRecords true s t u h k = h
if-SameRecords false s t u h k = k

pub after_write-SameRecords :
    (env : Env) (id : ℕ) (rs : List WriteRecord) (s : Store) (x : Database × Option DbError)
    → SameRecords (record s { db = x.0 }) (after_write env id rs s x)
unfolding write_failed write_succeeded
after_write-SameRecords env id rs s (db, none) = end_at_limit-SameRecords env id _ _
after_write-SameRecords env id rs s (db, some e) =
    if-SameRecords _ (record s { db = db }) _ _
      (mark_terminal-SameRecords env id Status.error "writer_error" _) (refl, refl, refl)

-- One recording's write.
flush_id-records :
    (env : Env) (id : ℕ) (rs : List WriteRecord) (s : Store)
    → ((flush_id env id rs s).db.events ≡ s.db.events)
      ⊎ ((flush_id env id rs s).db.events ≡ s.db.events ++ rs)
unfolding flush_id
flush_id-records env id rs s =
    let same = after_write-SameRecords env id rs s (write_batch (env.write_fault id) rs s.db) in
    elim (write_batch-cases (env.write_fault id) rs s.db) [
      | inl failed ↦ inl (same.0 ∙ failed)
      | inr done ↦ inr (same.0 ∙ done)
    ]

flush_id-rest :
    (env : Env) (id : ℕ) (rs : List WriteRecord) (s : Store)
    → ((flush_id env id rs s).writer.batch ≡ s.writer.batch)
      × ((flush_id env id rs s).items ≡ s.items)
unfolding flush_id
flush_id-rest env id rs s =
    let same = after_write-SameRecords env id rs s (write_batch (env.write_fault id) rs s.db) in
    (same.1, same.2)

pub flush_ids-rest :
    (env : Env) (rs : List WriteRecord) (ids : List ℕ) (s : Store)
    → ((flush_ids env rs ids s).writer.batch ≡ s.writer.batch)
      × ((flush_ids env rs ids s).items ≡ s.items)
unfolding flush_ids
flush_ids-rest env rs [] s = (refl, refl)
flush_ids-rest env rs (id ∷ ids) s =
    let later = flush_ids-rest env rs ids (flush_id env id (of_id id rs) s) in
    let now = flush_id-rest env id (of_id id rs) s in (later.0 ∙ now.0, later.1 ∙ now.1)

-- A recording is not among the ids, or once.
abbrev pub Absent : ℕ → List ℕ → Type 0
Absent id [] = Unit
Absent id (j ∷ js) = ((j == id) ≡ false) × Absent id js

abbrev pub Distinct : List ℕ → Type 0
Distinct [] = Unit
Distinct (j ∷ js) = Absent j js × Distinct js

others-Absent : (id : ℕ) (js : List ℕ) → Absent id (others id js)
unfolding keep
others-Absent id [] = tt
others-Absent id (j ∷ js) = ground (arith, others-Absent id js)

pub keep-Absent : (id : ℕ) (p : ℕ → Bool) (js : List ℕ) → Absent id js → Absent id (keep p js)
unfolding keep
keep-Absent id p [] h = tt
keep-Absent id p (j ∷ js) h = ground (arith, keep-Absent id p js h.1)

keep-Distinct : (p : ℕ → Bool) (js : List ℕ) → Distinct js → Distinct (keep p js)
unfolding keep
keep-Distinct p [] h = tt
keep-Distinct p (j ∷ js) h = ground (arith, keep-Distinct p js h.1, keep-Absent j p js h.0)

pub ids_of-Distinct : (rs : List WriteRecord) → Distinct (ids_of rs)
unfolding ids_of
ids_of-Distinct [] = tt
ids_of-Distinct (r ∷ rs) =
    (others-Absent r.recording_id (ids_of rs), keep-Distinct _ (ids_of rs) (ids_of-Distinct rs))

pub of_id_self : (id : ℕ) (rs : List WriteRecord) → of_id id (of_id id rs) ≡ of_id id rs
unfolding keep
of_id_self id [] = refl
of_id_self id (r ∷ rs) = ground (arith, of_id_self id rs)

of_id-other : (id j : ℕ) (rs : List WriteRecord) → (id == j) ≡ false → of_id j (of_id id rs) ≡ []
unfolding keep
of_id-other id j [] h = refl
of_id-other id j (r ∷ rs) h = ground (arith, of_id-other id j rs h)

-- A write of one recording leaves another's events alone.
pub flush_id-other :
    (env : Env) (id j : ℕ) (rs : List WriteRecord) (s : Store)
    → (id == j) ≡ false
    → of_id j (flush_id env id (of_id id rs) s).db.events ≡ of_id j s.db.events
flush_id-other env id j rs s h = elim (flush_id-records env id (of_id id rs) s) [
  | inl same ↦ ap (of_id j) same
  | inr grown ↦
      ap (of_id j) grown
      ∙ keep-append _ s.db.events (of_id id rs)
      ∙ ap (λ l. of_id j s.db.events ++ l) (of_id-other id j rs h)
      ∙ append-nil _
]

pub flush_ids-Absent :
    (env : Env) (j : ℕ) (rs : List WriteRecord) (ids : List ℕ) (s : Store)
    → Absent j ids
    → of_id j (flush_ids env rs ids s).db.events ≡ of_id j s.db.events
unfolding flush_ids
flush_ids-Absent env j rs [] s h = refl
flush_ids-Absent env j rs (id ∷ ids) s h =
    flush_ids-Absent env j rs ids (flush_id env id (of_id id rs) s) h.1
    ∙ flush_id-other env id j rs s h.0

flush_id-Sub :
    (env : Env) (id j : ℕ) (rs : List WriteRecord) (s : Store)
    → (id ≡ j)
    → Sub (of_id j (flush_id env id (of_id id rs) s).db.events) (of_id j s.db.events ++ of_id j rs)
flush_id-Sub env id j rs s h = elim (flush_id-records env id (of_id id rs) s) [
  | inl same ↦ Sub-trans (Sub-left (of_id j s.db.events) (of_id j rs)) (Sub-eq (ap (of_id j) same))
  | inr grown ↦ Sub-eq (
      ap (of_id j) grown
      ∙ keep-append _ s.db.events (of_id id rs)
      ∙ ap (λ l. of_id j s.db.events ++ l) (ap (λ i. of_id j (of_id i rs)) h ∙ of_id_self j rs))
]

flush_ids-Sub :
    (env : Env) (j : ℕ) (rs : List WriteRecord) (ids : List ℕ) (s : Store)
    → Distinct ids
    → Sub (of_id j (flush_ids env rs ids s).db.events) (of_id j s.db.events ++ of_id j rs)
unfolding flush_ids
flush_ids-Sub env j rs [] s h = Sub-left (of_id j s.db.events) (of_id j rs)
flush_ids-Sub env j rs (id ∷ ids) s h = elim (Bool-cases (id == j)) [
  | inl hit ↦
      let same : id ≡ j = ground arith in
      let gone = subst (λ i. Absent i ids) same h.0 in
      Sub-trans (flush_id-Sub env id j rs s same)
        (Sub-eq (flush_ids-Absent env j rs ids (flush_id env id (of_id id rs) s) gone))
  | inr miss ↦
      Sub-trans (Sub-eq (ap (λ l. l ++ of_id j rs) (flush_id-other env id j rs s miss)))
        (flush_ids-Sub env j rs ids (flush_id env id (of_id id rs) s) h.1)
]

-- Whatever holds less of each recording in the written events and the batch together, and leaves the
-- channel alone, leaves a subsequence of each trace.
pub trace-Sub :
    (id : ℕ) (s t : Store)
    → Sub
        (of_id id t.db.events ++ of_id id t.writer.batch)
        (of_id id s.db.events ++ of_id id s.writer.batch)
    → t.items ≡ s.items
    → Sub (trace id t) (trace id s)
unfolding trace
trace-Sub id s t h q = Sub-append h (Sub-eq (ap (λ is. of_id id (queued is)) q))

pub flush-Sub : (env : Env) (id : ℕ) (s : Store) → Sub (trace id (flush env s)) (trace id s)
unfolding flush keep
flush-Sub env id s =
    let records = live s s.writer.batch in
    let emptied : Store = record s {
      writer = record s.writer { batch = []; batch_timer = false };
    } in
    let rest = flush_ids-rest env records (ids_of records) emptied in
    let written = flush_ids-Sub env id records (ids_of records) emptied (ids_of-Distinct records) in
    trace-Sub id s (flush env s)
      (Sub-trans
        (Sub-append (Sub-refl (of_id id s.db.events))
          (Sub-keep (λ r. r.recording_id == id) (keep-Sub _ s.writer.batch)))
        (Sub-trans written (
          Sub-eq (ap (λ l. of_id id (flush env s).db.events ++ of_id id l) rest.0 ∙ append-nil _))))
      rest.1
