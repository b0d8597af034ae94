-- ===== src/Recording/Limit.antt =====
-- internal/recording/writer.go: no pass of the writer's loop stores more than a batch beyond the event limit.
use mathlib.Core.Path.{subst}
use yalb_link.Prelude.{
  ℕ, ◌<◌, ◌≤◌, ◌≡◌, ◌∙◌, ap, sym, refl, Bool, true, false, not, Option, none, some, List, [], ◌∷◌,
  ◌==◌, All, inl, inr, arith, if◌then◌else◌, Bool-cases, nat_eq, length, String,
}
use yalb_link.GoMap
use yalb_link.GoMap.Laws.{lookup-insert_ne}
use yalb_link.Recording.Database.{Database, DbError, Status, WriteRecord, keep, write_batch}
use yalb_link.Recording.Flushed.{Absent, Distinct, flush_id-other, ids_of-Distinct, keep-Absent}
use yalb_link.Recording.Persisted.{flush-batch}
use yalb_link.Recording.Stops.{not_over, after_write-terminal}
use yalb_link.Recording.Store.{Env, Store, Totals}
use yalb_link.Recording.Writer.{
  add_records, after_write, end_at_limit, flush, flush_id, flush_ids, ids_of, is_terminal,
  limit_reason, live, of_id, totals_or, with_total, write_failed, write_succeeded,
}
use yalb_link.Recording.Capped.{
  Capped, Counted, carry, end_at_limit-stored, flush_id-own, mark_terminal-limits,
  mark_terminal-totals, stored,
}

-- A step that concerns other recordings only.
abbrev Untouched : ℕ → Store → Store → Type 0
Untouched id s t =
    (stored id t ≡ stored id s)
    × (t.limits ≡ s.limits)
    × (GoMap.lookup id t.writer.totals ≡ GoMap.lookup id s.writer.totals)

if-same :
    {A B : Type 0} (f : A → B) (b : Bool) (x y : A) {z : B}
    → f x ≡ z
    → f y ≡ z
    → f (if b then x else y) ≡ z
if-same f true x y h k = h
if-same f false x y h k = k

end_at_limit-totals :
    (env : Env) (j : ℕ) (reason : Option String) (s : Store)
    → (end_at_limit env j reason s).writer.totals ≡ s.writer.totals
end_at_limit-totals env j none s = refl
end_at_limit-totals env j (some reason) s = mark_terminal-totals env j Status.limit_reached reason s

after_write-limits :
    (env : Env) (j : ℕ) (rs : List WriteRecord) (s : Store) (x : Database × Option DbError)
    → (after_write env j rs s x).limits ≡ s.limits
unfolding write_failed write_succeeded
after_write-limits env j rs s (db, some e) =
    if-same (λ (t : Store). t.limits) _ _ _
      (mark_terminal-limits env j Status.error "writer_error" _) refl
after_write-limits env j rs s (db, none) =
    let total = add_records rs (totals_or (env.now j) (GoMap.lookup j s.writer.totals)) in
    (end_at_limit-stored env j (limit_reason s.limits (env.now j) total)
      (with_total j total (record s { db = db }))).1

after_write-totals :
    (env : Env) (j id : ℕ) (rs : List WriteRecord) (s : Store) (x : Database × Option DbError)
    → (j == id) ≡ false
    → GoMap.lookup id (after_write env j rs s x).writer.totals ≡ GoMap.lookup id s.writer.totals
unfolding write_failed write_succeeded
after_write-totals env j id rs s (db, some e) miss =
    if-same (λ (t : Store). GoMap.lookup id t.writer.totals) _ _ _
      (ap (GoMap.lookup id) (mark_terminal-totals env j Status.error "writer_error" _)) refl
after_write-totals env j id rs s (db, none) miss =
    let total = add_records rs (totals_or (env.now j) (GoMap.lookup j s.writer.totals)) in
    ap (GoMap.lookup id) (
      end_at_limit-totals env j (limit_reason s.limits (env.now j) total)
        (with_total j total (record s { db = db })))
    ∙ lookup-insert_ne j id total s.writer.totals miss

flush_id-Untouched :
    (env : Env) (j id : ℕ) (rs : List WriteRecord) (s : Store)
    → (j == id) ≡ false
    → Untouched id s (flush_id env j (of_id j rs) s)
unfolding flush_id
flush_id-Untouched env j id rs s miss =
    let result = write_batch (env.write_fault j) (of_id j rs) s.db in
    (
      ap length (flush_id-other env j id rs s miss),
      after_write-limits env j (of_id j rs) s result,
      after_write-totals env j id (of_id j rs) s result miss,
    )

flush_id-other-Capped :
    (env : Env) (j id : ℕ) (rs : List WriteRecord) (s : Store)
    → (j == id) ≡ false
    → Capped id s
    → Capped id (flush_id env j (of_id j rs) s)
unfolding flush_id
flush_id-other-Capped env j id rs s miss h =
    let u = flush_id-Untouched env j id rs s miss in
    carry id s (flush_id env j (of_id j rs) s) (omega (arith, u.0)) u.1 u.2
      (after_write-terminal env j (of_id j rs) s (write_batch (env.write_fault j) (of_id j rs) s.db)
        id)
      h

flush_ids-Absent-Capped :
    (env : Env) (id : ℕ) (rs : List WriteRecord) (ids : List ℕ) (s : Store)
    → Absent id ids
    → Capped id s
    → Capped id (flush_ids env rs ids s)
unfolding flush_ids
flush_ids-Absent-Capped env id rs [] s a h = h
flush_ids-Absent-Capped env id rs (j ∷ js) s a h =
    flush_ids-Absent-Capped env id rs js (flush_id env j (of_id j rs) s) a.1
      (flush_id-other-Capped env j id rs s a.0 h)

-- The recording is open, and its part of the batch is no larger than a batch.
flush_ids-open :
    (env : Env) (id : ℕ) (rs : List WriteRecord) (ids : List ℕ) (s : Store) (t : Totals)
    → GoMap.lookup id s.writer.totals ≡ some t
    → stored id s ≤ t.events
    → t.events < s.limits.max_events
    → length (of_id id rs) ≤ s.limits.batch_size
    → Distinct ids
    → Capped id (flush_ids env rs ids s)
unfolding flush_ids
flush_ids-open env id rs [] s t q st lt size d =
    (omega (arith, st, lt), inr (subst (Counted id s) (sym q) (st, lt)))
flush_ids-open env id rs (j ∷ js) s t q st lt size d = elim (Bool-cases (j == id)) [
  | inl hit ↦
      let same : j ≡ id = ground arith in
      flush_ids-Absent-Capped env id rs js (flush_id env j (of_id j rs) s)
        (subst (λ i. Absent i js) same d.0)
        (subst (λ i. Capped id (flush_id env i (of_id i rs) s)) (sym same)
          (flush_id-own env id rs s t q st lt size))
  | inr miss ↦
      let u = flush_id-Untouched env j id rs s miss in
      let top = ap (λ l. l.max_events) u.1 in
      let batch = ap (λ l. l.batch_size) u.1 in
      flush_ids-open env id rs js (flush_id env j (of_id j rs) s) t (u.2 ∙ q)
        (omega (arith, u.0, st)) (omega (arith, top, lt)) (omega (arith, batch, size)) d.1
]

length-keep : {A : Type 0} (p : A → Bool) (xs : List A) → length (keep p xs) ≤ length xs
unfolding keep
length-keep p [] = omega arith
length-keep p (x ∷ xs) = ground (arith, length-keep p xs)

ids_of-Absent :
    (id : ℕ) (rs : List WriteRecord)
    → All (λ r. (r.recording_id == id) ≡ false) rs
    → Absent id (ids_of rs)
unfolding ids_of
ids_of-Absent id [] h = tt
ids_of-Absent id (r ∷ rs) h = (h.0, keep-Absent id _ (ids_of rs) (ids_of-Absent id rs h.1))

live-over :
    (id : ℕ) (s : Store) (rs : List WriteRecord)
    → is_terminal id s ≡ true
    → All (λ r. (r.recording_id == id) ≡ false) (live s rs)
unfolding keep
live-over id s [] h = tt
live-over id s (r ∷ rs) h = elim (Bool-cases (is_terminal r.recording_id s)) [
  | inl over ↦ rw over (live-over id s rs h)
  | inr active ↦
      let miss : (r.recording_id == id) ≡ false =
        ground (arith, not_over r.recording_id id s h active) in
      rw active (miss, live-over id s rs h)
]

-- A flush of a batch of at most the batch size keeps the bound.
flush-Capped :
    (env : Env) (id : ℕ) (s : Store)
    → length s.writer.batch ≤ s.limits.batch_size
    → Capped id s
    → Capped id (flush env s)
unfolding flush
flush-Capped env id s size (cap, inl over) =
    let records = live s s.writer.batch in
    flush_ids-Absent-Capped env id records (ids_of records)
      (record s { writer = record s.writer { batch = []; batch_timer = false } })
      (ids_of-Absent id records (live-over id s s.writer.batch over)) (cap, inl over)
flush-Capped env id s size (cap, inr is_open) = found (GoMap.lookup id s.writer.totals) refl is_open
  where
    found :
        (o : Option Totals)
        → GoMap.lookup id s.writer.totals ≡ o
        → Counted id s o
        → Capped id (flush env s)
    found none q c = absurd c
    found (some t) q c =
        let records = live s s.writer.batch in
        let own = length-keep (λ r. r.recording_id == id) records in
        let all = length-keep (λ r. not (is_terminal r.recording_id s)) s.writer.batch in
        flush_ids-open env id records (ids_of records)
          (record s { writer = record s.writer { batch = []; batch_timer = false } }) t q c.0 c.1
          (omega (arith, own, all, size)) (ids_of-Distinct records)

-- The writer between two passes: its batch is not full, and every recording that has started is bounded.
abbrev pub Bounded : ℕ → Store → Type 0
Bounded id s = (length s.writer.batch < s.limits.batch_size) × Capped id s

pub flush-limits : (env : Env) (s : Store) → (flush env s).limits ≡ s.limits
unfolding flush flush_ids flush_id
flush-limits env s = ids (ids_of (live s s.writer.batch)) _
  where
    ids : (js : List ℕ) (t : Store) → (flush_ids env (live s s.writer.batch) js t).limits ≡ t.limits
    ids [] t = refl
    ids (j ∷ js) t =
        ids js (flush_id env j (of_id j (live s s.writer.batch)) t)
        ∙ after_write-limits env j (of_id j (live s s.writer.batch)) t
            (write_batch (env.write_fault j) (of_id j (live s s.writer.batch)) t.db)

pub flush-Bounded :
    (env : Env) (id : ℕ) (s : Store)
    → length s.writer.batch ≤ s.limits.batch_size
    → 0 < s.limits.batch_size
    → Capped id s
    → Bounded id (flush env s)
flush-Bounded env id s size pos h =
    let emptied = ap length (flush-batch env s) in
    let kept = ap (λ l. l.batch_size) (flush-limits env s) in
    (omega (arith, emptied, kept, pos), flush-Capped env id s size h)
