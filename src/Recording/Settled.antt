-- ===== src/Recording/Settled.antt =====
-- internal/recording/retention.go: the bounds after a sweep, of every retired recording.
use yalb_link.Prelude.{
  ℕ, ◌+◌, ◌-◌, ◌*◌, ◌≤◌, ◌<◌, ◌≡◌, refl, Bool, true, false, not, List, [], ◌∷◌, ◌⊎◌, inl, inr,
  arith, Bool-cases, All, length, leb_ℤ, pos, pos_part, sort, place, IsSorted, sort-IsSorted,
}
use yalb_link.Recording.Database.{Database, Row, Status, is_active, keep}
use yalb_link.Recording.Ends.{Kept, sweep-kept}
use yalb_link.Recording.Retention.{
  SweepEnv, is_retired, live_bytes, older, oldest_of, retention_candidates, sweep,
}
use yalb_link.Recording.Store.{CommandError, Limits}

-- The recording is younger than the age at a clock reading, in nanoseconds, or there is no age bound.
abbrev pub Young : Limits → ℕ → Row → Type 0
Young limits now row =
    (leb_ℤ limits.max_total_age (pos 0) ≡ true)
    ⊎ (now < row.started_at * 1000000 + pos_part limits.max_total_age)

-- The recordings, the active one among them, are no more than the count.
abbrev pub Few : Limits → Database → Type 0
Few limits db =
    (leb_ℤ limits.max_recordings (pos 0) ≡ true)
    ⊎ (length db.recordings ≤ pos_part limits.max_recordings)

-- The pages in use are no more than the size.
abbrev pub Small : Limits → SweepEnv → Database → Type 0
Small limits env db =
    (leb_ℤ limits.max_total_bytes (pos 0) ≡ true)
    ⊎ ((env.page_count db - env.freelist_count db) * env.page_size
        ≤ pos_part limits.max_total_bytes)

-- Every recording is active, or all three bounds hold with it.
abbrev pub Settled : Limits → SweepEnv → Database → Type 0
Settled limits env db =
    (round : ℕ) × All
      (λ row.
        (row.status ≡ Status.active)
        ⊎ (Young limits (env.now round) row × Few limits db × Small limits env db))
      db.recordings

older-total : (a b : Row) → older a b ≡ false → older b a ≡ true
older-total a b h = ground arith

older_trans : (a b c : Row) → older a b ≡ true → older b c ≡ true → older a c ≡ true
older_trans a b c h k = ground arith

All-weaken :
    {A : Type 0} {P Q : A → Type 0} (xs : List A) → ((x : A) → P x → Q x) → All P xs → All Q xs
All-weaken [] f h = tt
All-weaken (x ∷ xs) f h = (f x h.0, All-weaken xs f h.1)

module _ {A : Type 0} (P : A → Type 0) where
  unplaced : (le : A → A → Bool) (a : A) (xs : List A) → All P (place le a xs) → P a × All P xs
  unfolding place
  unplaced le a [] h = h
  unplaced le a (x ∷ xs) h = elim (Bool-cases (le a x)) [
    | inl first ↦ rw first at h
    | inr later ↦
        let split : P x × All P (place le a xs) = rw later at h in
        let rest = unplaced le a xs split.1 in (rest.0, (split.0, rest.1))
  ]

  unsorted : (le : A → A → Bool) (xs : List A) → All P (sort le xs) → All P xs
  unfolding sort
  unsorted le [] h = tt
  unsorted le (x ∷ xs) h =
      let split = unplaced le x (sort le xs) h in (split.0, unsorted le xs split.1)

  unkept : (p : A → Bool) (xs : List A) → All P (keep p xs) → All (λ x. (p x ≡ false) ⊎ P x) xs
  unfolding keep
  unkept p [] h = tt
  unkept p (x ∷ xs) h = elim (Bool-cases (p x)) [
    | inl hit ↦
        let split : P x × All P (keep p xs) = rw hit at h in (inr split.0, unkept p xs split.1)
    | inr miss ↦ (inl miss, unkept p xs (rw miss at h))
  ]

Kept-Young :
    (limits : Limits) (env : SweepEnv) (round : ℕ) (db : Database) (row : Row)
    → Kept limits env round db row
    → Young limits (env.now round) row × Few limits db × Small limits env db
unfolding live_bytes
Kept-Young limits env round db row (age, count, size) = (ground arith, ground arith, ground arith)

Young-older :
    (limits : Limits) (now : ℕ) (a b : Row)
    → older a b ≡ true
    → Young limits now a
    → Young limits now b
Young-older limits now a b h (inl off) = inl off
Young-older limits now a b h (inr young) = inr (ground arith)

oldest-All :
    (limits : Limits) (env : SweepEnv) (round : ℕ) (db : Database) (rows : List Row)
    → IsSorted older rows
    → oldest_of rows (Unit {0}) (Kept limits env round db)
    → All (λ row. Young limits (env.now round) row × Few limits db × Small limits env db) rows
oldest-All limits env round db [] sorted kept = tt
oldest-All limits env round db (row ∷ rows) sorted kept =
    let (age, count, size) = Kept-Young limits env round db row kept in
    (
      (age, count, size),
      All-weaken rows (λ b h. (Young-older limits (env.now round) row b h age, count, size))
          sorted.0,
    )

active_or : (row : Row) → is_retired row ≡ false → row.status ≡ Status.active
active_or row h = by_status row.status h
  where
    by_status : (s : Status) → not (is_active s) ≡ false → s ≡ Status.active
    by_status Status.active k = refl
    by_status Status.stopped k = absurd (cc)
    by_status Status.limit_reached k = absurd (cc)
    by_status Status.error k = absurd (cc)

-- After a sweep that returns without an error, every recording that is not active keeps all three bounds that
-- are on: it is younger than the age at a reading of the sweep's clock, the recordings are no more than
-- the count, and the pages in use no more than the size.
pub sweep-Settled :
    (limits : Limits) (env : SweepEnv) (db : Database)
    → (sweep limits env db).err ≡ CommandError.fine
    → Settled limits env (sweep limits env db).db
unfolding retention_candidates
sweep-Settled limits env db fine =
    let after = (sweep limits env db).db in
    let (round, kept) = sweep-kept limits env db fine in
    let sorted = sort-IsSorted older older-total older_trans (keep is_retired after.recordings) in
    (
      round,
      All-weaken after.recordings (λ row h. active_first row h)
          (unkept _ is_retired after.recordings (
            unsorted _ older (keep is_retired after.recordings)
              (oldest-All limits env round after _ sorted kept))),
    )
  where
    active_first :
        {P : Type 0} (row : Row) → (is_retired row ≡ false) ⊎ P → (row.status ≡ Status.active) ⊎ P
    active_first row (inl active) = inl (active_or row active)
    active_first row (inr p) = inr p
