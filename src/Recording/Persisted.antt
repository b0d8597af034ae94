-- ===== src/Recording/Persisted.antt =====
-- internal/recording/writer.go while the driver writes: flush loses nothing of a recording that is not over.
use mathlib.Core.Path.{subst}
use mathlib.Core.List.{append_assoc, append-nil}
use yalb_link.Prelude.{
  ℕ, suc, ◌<◌, ◌≡◌, ◌∙◌, ap, sym, refl, true, false, not, none, some, List, [], ◌∷◌, ◌++◌, ◌==◌,
  ◌⊎◌, All, inl, inr, arith, Bool-cases, nat_eq,
}
use yalb_link.Recording.Database.{
  WriteRecord, count, insert_event, insert_events, keep, same_key, write_batch,
}
use yalb_link.Recording.Flushed.{
  Absent, Distinct, after_write-SameRecords, flush_id-other, flush_ids-Absent, flush_ids-rest,
  ids_of-Distinct, keep-Absent, of_id_self,
}
use yalb_link.Recording.Spared.{keep-keep}
use yalb_link.Recording.Store.{Env, Store}
use yalb_link.Recording.Sub.{keep-append}
use yalb_link.Recording.Writer.{
  flush, flush_id, flush_ids, ids_of, is_terminal, live, of_id, others,
}

-- The sequence numbers go up, from above a number.
abbrev pub Rising : ℕ → List WriteRecord → Type 0
Rising n [] = Unit
Rising n (r ∷ rs) = (n < r.seq) × Rising r.seq rs

-- What the database and the batch hold of a recording.
abbrev pub written : ℕ → Store → List WriteRecord
written id s = of_id id s.db.events ++ of_id id s.writer.batch

Rising-above : (n m : ℕ) (rs : List WriteRecord) → Rising n rs → m < suc n → Rising m rs
Rising-above n m [] h k = tt
Rising-above n m (r ∷ rs) h k = (omega arith, h.1)

-- What stands before a record has smaller numbers.
Rising-before :
    (n : ℕ) (xs : List WriteRecord) (r : WriteRecord) (ys : List WriteRecord)
    → Rising n (xs ++ (r ∷ ys))
    → All (λ x. x.seq < r.seq) xs × (n < r.seq)
Rising-before n [] r ys h = (tt, h.0)
Rising-before n (x ∷ xs) r ys h =
    let rest = Rising-before x.seq xs r ys h.1 in ((rest.1, rest.0), omega (arith, h.0, rest.1))

fresh_key :
    (r : WriteRecord) (events : List WriteRecord)
    → All (λ x. x.seq < r.seq) (of_id r.recording_id events)
    → count (same_key r) events ≡ 0
unfolding count keep
fresh_key r [] h = refl
fresh_key r (e ∷ events) h = elim (Bool-cases (e.recording_id == r.recording_id)) [
  | inl same ↦ ground (arith, fresh_key r events)
  | inr other ↦ ground (arith, fresh_key r events)
]

of_id-single : (id : ℕ) (r : WriteRecord) → r.recording_id ≡ id → of_id id (r ∷ []) ≡ r ∷ []
unfolding keep
of_id-single id r h = ground arith

-- Records of one recording with rising numbers are all inserted.
insert_events_whole :
    (id n : ℕ) (rs events : List WriteRecord)
    → All (λ r. r.recording_id ≡ id) rs
    → Rising n (of_id id events ++ rs)
    → insert_events rs events ≡ some (events ++ rs)
unfolding insert_events insert_event
insert_events_whole id n [] events h k = ap some (sym (append-nil events))
insert_events_whole id n (r ∷ rs) events h k =
    let before = Rising-before n (of_id id events) r rs k in
    let new =
      fresh_key r events
        (subst (λ i. All (λ x. x.seq < r.seq) (of_id i events)) (sym h.0) before.0) in
    rw (new, sym (append_assoc events (r ∷ []) rs))
      (insert_events_whole id n rs (events ++ (r ∷ [])) h.1 (
        subst (Rising n)
          (sym (append_assoc (of_id id events) (r ∷ []) rs)
            ∙ ap (λ l. l ++ rs)
                (ap (λ l. of_id id events ++ l) (sym (of_id-single id r h.0))
                  ∙ sym (keep-append _ events (r ∷ []))))
          k))

of_id-All : (id : ℕ) (rs : List WriteRecord) → All (λ r. r.recording_id ≡ id) (of_id id rs)
unfolding keep
of_id-All id [] = tt
of_id-All id (r ∷ rs) = ground (arith, of_id-All id rs)

-- A write of a recording that the driver does not fail.
flush_id_whole :
    (env : Env) (id : ℕ) (rs : List WriteRecord) (s : Store)
    → env.write_fault id ≡ none
    → Rising 0 (of_id id s.db.events ++ of_id id rs)
    → of_id id (flush_id env id (of_id id rs) s).db.events ≡ of_id id s.db.events ++ of_id id rs
unfolding flush_id write_batch
flush_id_whole env id rs s h k =
    let done = insert_events_whole id 0 (of_id id rs) s.db.events (of_id-All id rs) k in
    let result : write_batch (env.write_fault id) (of_id id rs) s.db
        ≡ (record s.db { events = s.db.events ++ of_id id rs }, none) =
      rw (h, done) refl in
    ap (of_id id) (
      (after_write-SameRecords env id (of_id id rs) s
        (write_batch (env.write_fault id) (of_id id rs) s.db)).0
      ∙ ap (λ x. x.0.events) result)
    ∙ keep-append _ s.db.events (of_id id rs)
    ∙ ap (λ l. of_id id s.db.events ++ l) (of_id_self id rs)

abbrev Present : ℕ → List ℕ → Type 0
Present id [] = ⊥
Present id (j ∷ js) = ((j == id) ≡ true) ⊎ Present id js

flush_ids_whole :
    (env : Env) (id : ℕ) (rs : List WriteRecord) (ids : List ℕ) (s : Store)
    → env.write_fault id ≡ none
    → Rising 0 (of_id id s.db.events ++ of_id id rs)
    → Distinct ids
    → Present id ids
    → of_id id (flush_ids env rs ids s).db.events ≡ of_id id s.db.events ++ of_id id rs
unfolding flush_ids
flush_ids_whole env id rs [] s h k d p = absurd p
flush_ids_whole env id rs (j ∷ js) s h k d p = elim (Bool-cases (j == id)) [
  | inl hit ↦
      let same : j ≡ id = ground arith in
      let gone = subst (λ i. Absent i js) same d.0 in
      flush_ids-Absent env id rs js (flush_id env j (of_id j rs) s) gone
      ∙ ap (λ i. of_id id (flush_id env i (of_id i rs) s).db.events) same
      ∙ flush_id_whole env id rs s h k
  | inr miss ↦
      let kept = flush_id-other env j id rs s miss in
      flush_ids_whole env id rs js (flush_id env j (of_id j rs) s) h
        (subst (λ l. Rising 0 (l ++ of_id id rs)) (sym kept) k) d.1 (later p miss)
      ∙ ap (λ l. l ++ of_id id rs) kept
]
  where
    later : Present id (j ∷ js) → (j == id) ≡ false → Present id js
    later (inl hit) miss = absurd (cc)
    later (inr more) miss = more

Present-others :
    (id j : ℕ) (js : List ℕ) → (j == id) ≡ false → Present id js → Present id (others j js)
unfolding keep
Present-others id j [] h p = absurd p
Present-others id j (i ∷ is) h (inl hit) =
    let other : (i == j) ≡ false = ground arith in rw other (inl hit)
Present-others id j (i ∷ is) h (inr more) = elim (Bool-cases (i == j)) [
  | inl same ↦ rw same (Present-others id j is h more)
  | inr other ↦ rw other (inr (Present-others id j is h more))
]

pub ids_of-Present :
    (id : ℕ) (rs : List WriteRecord)
    → ((of_id id rs ≡ []) × Absent id (ids_of rs)) ⊎ Present id (ids_of rs)
unfolding ids_of keep
ids_of-Present id [] = inl (refl, tt)
ids_of-Present id (r ∷ rs) = elim (Bool-cases (r.recording_id == id)) [
  | inl hit ↦ inr (inl hit)
  | inr miss ↦ elim (ids_of-Present id rs) [
    | inl (none_left, gone) ↦ inl (rw miss none_left, (miss, keep-Absent id _ (ids_of rs) gone))
    | inr more ↦ inr (inr (Present-others id r.recording_id (ids_of rs) miss more))
  ]
]

live-of_id :
    (id : ℕ) (s : Store) (rs : List WriteRecord)
    → is_terminal id s ≡ false
    → of_id id (live s rs) ≡ of_id id rs
live-of_id id s rs h =
    keep-keep (λ r. r.recording_id == id) _ rs
      (λ r same.
        let here : r.recording_id ≡ id = ground arith in
        ap (λ i. not (is_terminal i s)) here ∙ ap not h)

-- A flush that the driver does not fail writes the whole batch of a recording that is not over.
pub flush_whole :
    (env : Env) (id : ℕ) (s : Store)
    → env.write_fault id ≡ none
    → is_terminal id s ≡ false
    → Rising 0 (written id s)
    → of_id id (flush env s).db.events ≡ written id s
unfolding flush
flush_whole env id s h t k =
    let records = live s s.writer.batch in
    let emptied : Store = record s {
      writer = record s.writer { batch = []; batch_timer = false };
    } in
    let kept = live-of_id id s s.writer.batch t in
    elim (ids_of-Present id records) [
      | inl (nothing, absent) ↦
          flush_ids-Absent env id records (ids_of records) emptied absent
          ∙ sym (append-nil (of_id id s.db.events))
          ∙ ap (λ l. of_id id s.db.events ++ l) (sym nothing ∙ kept)
      | inr present ↦
          flush_ids_whole env id records (ids_of records) emptied h
            (subst (λ l. Rising 0 (of_id id s.db.events ++ l)) (sym kept) k)
            (ids_of-Distinct records) present
          ∙ ap (λ l. of_id id s.db.events ++ l) kept
    ]

pub flush-batch : (env : Env) (s : Store) → (flush env s).writer.batch ≡ []
unfolding flush
flush-batch env s =
    let records = live s s.writer.batch in
    (flush_ids-rest env records (ids_of records)
      (record s { writer = record s.writer { batch = []; batch_timer = false } })).0
