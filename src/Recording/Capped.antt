-- ===== src/Recording/Capped.antt =====
-- internal/recording/writer.go: the event limit of a recording, over every pass of the writer's loop.
use mathlib.Core.Path.{subst}
use yalb_link.Prelude.{
  ℕ, ◌+◌, ◌<◌, ◌≤◌, ◌≡◌, ◌∙◌, ap, sym, refl, Bool, true, false, Option, none, some, List, [], ◌∷◌,
  ◌++◌, ◌⊎◌, inl, inr, arith, if◌then◌else◌, Bool-cases, nat_eq, leb, length, length-append, String,
  is_some,
}
use yalb_link.GoMap
use yalb_link.GoMap.Laws.{lookup-insert, lookup-insert_self}
use yalb_link.Recording.Database.{Database, DbError, Status, WriteRecord, write_batch}
use yalb_link.Recording.Flushed.{mark_terminal-SameRecords, of_id_self, insert_events-cases}
use yalb_link.Recording.Stops.{mark_terminal-terminal}
use yalb_link.Recording.Store.{Env, Store, Totals}
use yalb_link.Recording.Sub.{keep-append}
use yalb_link.Recording.Writer.{
  add_records, after_write, cancel_duration, end_at_limit, flush_id, is_terminal, limit_reason,
  mark_terminal, of_id, totals_or, with_total, write_failed, write_succeeded,
}

-- How many events of a recording are in the database.
abbrev pub stored : ℕ → Store → ℕ
stored id s = length (of_id id s.db.events)

-- The writer's count covers what is stored, and is below the limit.
abbrev pub Counted : ℕ → Store → Option Totals → Type 0
Counted id s none = ⊥
Counted id s (some t) = (stored id s ≤ t.events) × (t.events < s.limits.max_events)

abbrev pub Open : ℕ → Store → Type 0
Open id s = Counted id s (GoMap.lookup id s.writer.totals)

-- The recording is over or below its limit, and at most one batch above the limit is stored.
abbrev pub Capped : ℕ → Store → Type 0
Capped id s =
    (stored id s < s.limits.max_events + s.limits.batch_size)
    × ((is_terminal id s ≡ true) ⊎ Open id s)

pub mark_terminal-totals :
    (env : Env) (j : ℕ) (status : Status) (reason : String) (s : Store)
    → (mark_terminal env j status reason s).writer.totals ≡ s.writer.totals
unfolding mark_terminal cancel_duration
mark_terminal-totals env j status reason s = ground arith

mark_terminal-over :
    (env : Env) (id : ℕ) (status : Status) (reason : String) (s : Store)
    → is_terminal id (mark_terminal env id status reason s) ≡ true
unfolding mark_terminal cancel_duration
mark_terminal-over env id status reason s =
    ground (arith, lookup-insert id id true s.writer.terminal)

pub mark_terminal-limits :
    (env : Env) (j : ℕ) (status : Status) (reason : String) (s : Store)
    → (mark_terminal env j status reason s).limits ≡ s.limits
unfolding mark_terminal
mark_terminal-limits env j status reason s = refl

Counted-carry :
    (id : ℕ) (s t : Store) (found : Option Totals)
    → stored id t ≤ stored id s
    → t.limits ≡ s.limits
    → Counted id s found
    → Counted id t found
Counted-carry id s t none h l c = absurd c
Counted-carry id s t (some x) h l c =
    let top : t.limits.max_events ≡ s.limits.max_events = ap (λ k. k.max_events) l in
    omega (arith, h, top, c.0, c.1)

-- A step that stores no more of the recording, and keeps its count and its end, keeps the bound.
pub carry :
    (id : ℕ) (s t : Store)
    → stored id t ≤ stored id s
    → t.limits ≡ s.limits
    → GoMap.lookup id t.writer.totals ≡ GoMap.lookup id s.writer.totals
    → (is_terminal id s ≡ true → is_terminal id t ≡ true)
    → Capped id s
    → Capped id t
carry id s t h l q over (cap, inl done) =
    let top : t.limits.max_events ≡ s.limits.max_events = ap (λ k. k.max_events) l in
    let size : t.limits.batch_size ≡ s.limits.batch_size = ap (λ k. k.batch_size) l in
    (omega (arith, h, top, size, cap), inl (over done))
carry id s t h l q over (cap, inr is_open) =
    let top : t.limits.max_events ≡ s.limits.max_events = ap (λ k. k.max_events) l in
    let size : t.limits.batch_size ≡ s.limits.batch_size = ap (λ k. k.batch_size) l in
    (
      omega (arith, h, top, size, cap),
      inr (subst (Counted id t) (sym q) (Counted-carry id s t _ h l is_open)),
    )

pub stored-eq : (id : ℕ) (s t : Store) → t.db.events ≡ s.db.events → stored id t ≤ stored id s
stored-eq id s t h =
    let same : stored id t ≡ stored id s = ap (λ l. length (of_id id l)) h in omega (arith, same)

-- Ending any recording keeps the bound.
pub mark_terminal-Capped :
    (env : Env) (j : ℕ) (status : Status) (reason : String) (s : Store) (id : ℕ)
    → Capped id s
    → Capped id (mark_terminal env j status reason s)
mark_terminal-Capped env j status reason s id h =
    let t = mark_terminal env j status reason s in
    carry id s t (stored-eq id s t (mark_terminal-SameRecords env j status reason s).0)
      (mark_terminal-limits env j status reason s)
      (ap (GoMap.lookup id) (mark_terminal-totals env j status reason s))
      (mark_terminal-terminal env j status reason s id) h

end_at_limit-Capped :
    (env : Env) (j : ℕ) (reason : Option String) (s : Store) (id : ℕ)
    → Capped id s
    → Capped id (end_at_limit env j reason s)
end_at_limit-Capped env j none s id h = h
end_at_limit-Capped env j (some reason) s id h =
    mark_terminal-Capped env j Status.limit_reached reason s id h

pub if-Capped :
    (id : ℕ) (b : Bool) (s t : Store) → Capped id s → Capped id t → Capped id (if b then s else t)
if-Capped id true s t h k = h
if-Capped id false s t h k = k

add_records-events :
    (rs : List WriteRecord) (t : Totals) → (add_records rs t).events ≡ t.events + length rs
unfolding add_records
add_records-events [] t = omega arith
add_records-events (r ∷ rs) t = omega (
  arith,
  add_records-events rs (record t { events = t.events + 1; bytes = t.bytes + length r.payload }),
)

write_failed-Capped :
    (env : Env) (j : ℕ) (e : DbError) (s : Store) (id : ℕ)
    → Capped id s
    → Capped id (write_failed env j e s)
unfolding write_failed
write_failed-Capped env j e s id h =
    if-Capped id _ _ _ (mark_terminal-Capped env j Status.error "writer_error" _ id h) h

end_at_limit-over :
    (env : Env) (id : ℕ) (reason : Option String) (s : Store)
    → is_some reason ≡ true
    → is_terminal id (end_at_limit env id reason s) ≡ true
end_at_limit-over env id none s h = absurd (cc)
end_at_limit-over env id (some reason) s h = mark_terminal-over env id Status.limit_reached reason s

pub end_at_limit-stored :
    (env : Env) (id : ℕ) (reason : Option String) (s : Store)
    → (stored id (end_at_limit env id reason s) ≡ stored id s)
      × ((end_at_limit env id reason s).limits ≡ s.limits)
end_at_limit-stored env id none s = (refl, refl)
end_at_limit-stored env id (some reason) s = (
  ap (λ l. length (of_id id l)) (mark_terminal-SameRecords env id Status.limit_reached reason s).0,
  mark_terminal-limits env id Status.limit_reached reason s,
)

-- After a count that covers what is stored, the recording is over or below its limit.
after_total-Capped :
    (env : Env) (id now : ℕ) (total : Totals) (s : Store)
    → stored id s ≤ total.events
    → stored id s < s.limits.max_events + s.limits.batch_size
    → Capped id (end_at_limit env id (limit_reason s.limits now total) (with_total id total s))
unfolding limit_reason
after_total-Capped env id now total s covers cap =
    elim (Bool-cases (leb s.limits.max_events total.events)) [
      | inl reached ↦
          let t = with_total id total s in
          let kept = end_at_limit-stored env id (limit_reason s.limits now total) t in
          let top = ap (λ l. l.max_events + l.batch_size) kept.1 in
          (
            omega (arith, kept.0, top, cap),
            inl (end_at_limit-over env id (limit_reason s.limits now total) t (rw reached refl)),
          )
      | inr below ↦
          end_at_limit-Capped env id (limit_reason s.limits now total) (with_total id total s) id (
            cap,
            inr (
                subst (Counted id (with_total id total s))
                  (sym (lookup-insert_self id total s.writer.totals)) (covers, ground arith)),
          )
    ]

-- The recording's own write: what is stored now is at most the count and the batch.
write_own-Capped :
    (env : Env) (id : ℕ) (rs : List WriteRecord) (s : Store) (t : Totals)
    → GoMap.lookup id s.writer.totals ≡ some t
    → t.events < s.limits.max_events
    → stored id s ≤ t.events + length rs
    → length rs ≤ s.limits.batch_size
    → Capped id (write_succeeded env id rs s)
unfolding write_succeeded
write_own-Capped env id rs s t q lt st size =
    let total = add_records rs (totals_or (env.now id) (GoMap.lookup id s.writer.totals)) in
    let sum : total.events ≡ t.events + length rs =
      add_records-events rs _ ∙ ap (λ f. (totals_or (env.now id) f).events + length rs) q in
    after_total-Capped env id (env.now id) total s (omega (arith, sum, st))
      (omega (arith, st, lt, size))

-- A batch is in the database exactly if its write reports no error.
abbrev Result : Database → List WriteRecord → Database × Option DbError → Type 0
Result db rs (gone, none) = gone.events ≡ db.events ++ rs
Result db rs (gone, some e) = gone.events ≡ db.events

write_batch-Result :
    (fault : Option DbError) (rs : List WriteRecord) (db : Database)
    → Result db rs (write_batch fault rs db)
unfolding write_batch
write_batch-Result (some e) rs db = refl
write_batch-Result none rs db = elim (insert_events-cases rs db.events) [
  | inl failed ↦ rw failed refl
  | inr done ↦ rw done refl
]

pub flush_id-own :
    (env : Env) (id : ℕ) (rs : List WriteRecord) (s : Store) (t : Totals)
    → GoMap.lookup id s.writer.totals ≡ some t
    → stored id s ≤ t.events
    → t.events < s.limits.max_events
    → length (of_id id rs) ≤ s.limits.batch_size
    → Capped id (flush_id env id (of_id id rs) s)
unfolding flush_id
flush_id-own env id rs s t q st lt size =
    after (write_batch (env.write_fault id) (of_id id rs) s.db)
      (write_batch-Result (env.write_fault id) (of_id id rs) s.db)
  where
    after :
        (x : Database × Option DbError)
        → Result s.db (of_id id rs) x
        → Capped id (after_write env id (of_id id rs) s x)
    after (db, some e) k =
        let t' : Store = record s { db = db } in
        let same = stored-eq id s t' k in
        write_failed-Capped env id e t' id (
          omega (arith, same, st, lt),
          inr (subst (Counted id t') (sym q) (omega (arith, same, st), lt)),
        )
    after (db, none) k =
        let sum : length (of_id id db.events) ≡ stored id s + length (of_id id rs) =
          ap (λ l. length (of_id id l)) k
          ∙ ap length (keep-append _ s.db.events (of_id id rs))
          ∙ length-append (of_id id s.db.events) (of_id id (of_id id rs))
          ∙ ap (λ l. stored id s + length l) (of_id_self id rs) in
        write_own-Capped env id (of_id id rs) (record s { db = db }) t q lt (omega (arith, sum, st))
          size
