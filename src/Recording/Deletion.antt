-- ===== src/Recording/Deletion.antt =====
-- internal/recording/retention.go: what deleteRecording and sweep leave.
use yalb_link.Prelude.{
  ℕ, zero, suc, ◌+◌, ◌≡◌, Bool, true, false, Option, none, some, List, [], ◌∷◌, ◌==◌, All, place,
  ◌⊎◌, inl, inr, arith, if◌then◌else◌, Bool-cases, sort, length,
}
use yalb_link.Recording.Database.{Database, DbError, Row, keep}
use yalb_link.Recording.Retention.{
  SweepEnv, Swept, after_delete, delete_row, delete_chunk, delete_chunk_size, delete_recording,
  delete_rounds, finish_delete, finished, has_reason, judged, retention_candidates, is_retired,
  older, oldest_of, swept_or, unless_fault, sweep, sweep_rounds,
}
use yalb_link.Recording.Store.{CommandError, Limits}

-- The result, if there is one, has the property.
abbrev pub IfSome : {A : Type 0} → (A → Type 0) → Option A → Type 0
IfSome P none = Unit
IfSome P (some a) = P a

IfSome-weaken :
    {A : Type 0} {P Q : A → Type 0}
    → ((a : A) → P a → Q a)
    → (o : Option A) → IfSome P o
    → IfSome Q o
IfSome-weaken f none h = tt
IfSome-weaken f (some a) h = f a h

module _ {A : Type 0} (P : A → Type 0) where
  All-place : (le : A → A → Bool) (a : A) (xs : List A) → P a → All P xs → All P (place le a xs)
  unfolding place
  All-place le a [] h all = (h, tt)
  All-place le a (x ∷ xs) h all = ground (arith, All-place le a xs h all.1)

  pub All-sort : (le : A → A → Bool) (xs : List A) → All P xs → All P (sort le xs)
  unfolding sort
  All-sort le [] all = tt
  All-sort le (x ∷ xs) all = All-place le x (sort le xs) all.0 (All-sort le xs all.1)

  -- What is kept has the property, if it has it under the test.
  pub All-keep_if :
      (p : A → Bool) (xs : List A) → All (λ x. p x ≡ true → P x) xs → All P (keep p xs)
  unfolding keep
  All-keep_if p [] all = tt
  All-keep_if p (x ∷ xs) all = ground (arith, All-keep_if p xs all.1, all.0)

  pub All-keep : (p : A → Bool) (xs : List A) → All P xs → All P (keep p xs)
  unfolding keep
  All-keep p [] all = tt
  All-keep p (x ∷ xs) all = ground (arith, All-keep p xs all.1)

-- A relation between the tables before and after that holds of every statement that deletes one of the
-- recordings `Ok`.
pub record Deletes (Ok : ℕ → Type 0) (R : Database → Database → Type 0) : Type 0 where
  pub nothing : (db : Database) → R db db
  pub then_ : (a b c : Database) → R a b → R b c → R a c
  pub chunk :
      (id : ℕ) (db : Database)
      → Ok id
      → R db (record db { events = (delete_chunk id delete_chunk_size db.events).0 })
  pub finish :
      (fault : Option DbError) (id : ℕ) (db : Database) → Ok id → R db (finish_delete fault id db).0

module _ (Ok : ℕ → Type 0) (R : Database → Database → Type 0) (laws : Deletes Ok R) where
  round-related :
      (fault : Option DbError) (last : Bool) (db : Database)
      (x y : Option (Database × CommandError))
      → IfSome (λ out. R db out.0) x
      → IfSome (λ out. R db out.0) y
      → IfSome
          (λ out. R db out.0)
          (unless_fault fault (λ e. some (db, CommandError.database e)) (if last then x else y))
  round-related (some e) last db x y h k = laws.nothing db
  round-related none true db x y h k = h
  round-related none false db x y h k = k

  delete_rounds-related :
      (faults : ℕ → Option DbError) (fuel id : ℕ) (db : Database)
      → Ok id
      → IfSome (λ out. R db out.0) (delete_rounds faults fuel id db)
  unfolding delete_rounds
  delete_rounds-related faults zero id db ok = tt
  delete_rounds-related faults (suc fuel) id db ok =
      let chunk = delete_chunk id delete_chunk_size db.events in
      let next : Database = record db { events = chunk.0 } in
      round-related (faults (suc fuel)) (chunk.1 == 0) db (some (finish_delete (faults 0) id db))
        (delete_rounds faults fuel id next) (laws.finish (faults 0) id db ok)
        (IfSome-weaken (λ out. laws.then_ db next out.0 (laws.chunk id db ok))
          (delete_rounds faults fuel id next) (delete_rounds-related faults fuel id next ok))

  finished-related :
      (db : Database) (o : Option (Database × CommandError))
      → IfSome (λ out. R db out.0) o
      → R db (finished db o).0
  finished-related db none h = laws.nothing db
  finished-related db (some out) h = h

  pub delete_recording-related :
      (faults : ℕ → Option DbError) (id : ℕ) (db : Database)
      → Ok id
      → R db (delete_recording faults id db).0
  unfolding delete_recording
  delete_recording-related faults id db ok =
      finished-related db _ (delete_rounds-related faults (suc (length db.events)) id db ok)

-- A sweep may delete the retired recordings.
abbrev pub MayDelete : (ℕ → Type 0) → Database → Type 0
MayDelete Ok db = All (λ row. is_retired row ≡ true → Ok row.id) db.recordings

finish_delete-MayDelete :
    (Ok : ℕ → Type 0) (fault : Option DbError) (id : ℕ) (db : Database)
    → MayDelete Ok db
    → MayDelete Ok (finish_delete fault id db).0
unfolding finish_delete delete_row
finish_delete-MayDelete Ok (some e) id db h = h
finish_delete-MayDelete Ok none id db h = elim (Bool-cases ((delete_row id db.recordings).1 == 0)) [
  | inl missing ↦ rw missing h
  | inr found ↦ rw found (kept id db.recordings h)
]
  where
    kept :
        (id : ℕ) (rows : List Row)
        → All (λ row. is_retired row ≡ true → Ok row.id) rows
        → All (λ row. is_retired row ≡ true → Ok row.id) (delete_row id rows).0
    kept id rows all = All-keep _ _ rows all

MayDelete-Deletes : (Ok : ℕ → Type 0) → Deletes Ok (λ a b. MayDelete Ok a → MayDelete Ok b)
MayDelete-Deletes Ok = record {
  nothing = λ db h. h;
  then_ = λ a b c f g h. g (f h);
  chunk = λ id db ok h. h;
  finish = λ fault id db ok h. finish_delete-MayDelete Ok fault id db h;
}

module _ (Ok : ℕ → Type 0) (R : Database → Database → Type 0) (laws : Deletes Ok R) where
  swept-related :
      (deleted : ℕ) (db : Database) (gone : Database × CommandError) (next : Option Swept)
      → R db gone.0
      → IfSome (λ out. R gone.0 out.db) next
      → IfSome (λ out. R db out.db) (after_delete deleted gone next)
  swept-related deleted db (gone, CommandError.fine) next r h =
      IfSome-weaken (λ out. laws.then_ db gone out.db r) next h
  swept-related deleted db (gone, CommandError.recording_not_found) next r h = r
  swept-related deleted db (gone, CommandError.active_not_found) next r h = r
  swept-related deleted db (gone, CommandError.database e) next r h = r

  judged-related :
      (verdict : Bool ⊎ DbError) (deleted : ℕ) (db : Database) (next : Option Swept)
      → IfSome (λ out. R db out.db) next
      → IfSome (λ out. R db out.db) (judged verdict deleted db next)
  judged-related (inr e) deleted db next h = laws.nothing db
  judged-related (inl false) deleted db next h = laws.nothing db
  judged-related (inl true) deleted db next h = h

  oldest_of-related :
      (fault : Option DbError) (deleted : ℕ) (db : Database) (rows : List Row)
      (f : Row → Option Swept)
      → All (λ row. Ok row.id) rows
      → ((row : Row) → Ok row.id → IfSome (λ out. R db out.db) (f row))
      → IfSome
          (λ out. R db out.db)
          (unless_fault fault
            (λ e. some (record { deleted = deleted; err = CommandError.database e; db = db }))
            (oldest_of rows
              (some (record { deleted = deleted; err = CommandError.fine; db = db }))
              f))
  oldest_of-related (some e) deleted db rows f all h = laws.nothing db
  oldest_of-related none deleted db [] f all h = laws.nothing db
  oldest_of-related none deleted db (row ∷ rows) f all h = h row all.0

  sweep_rounds-related :
      (limits : Limits) (env : SweepEnv) (fuel deleted : ℕ) (db : Database)
      → MayDelete Ok db
      → IfSome (λ out. R db out.db) (sweep_rounds limits env fuel deleted db)
  unfolding sweep_rounds retention_candidates
  sweep_rounds-related limits env zero deleted db may = tt
  sweep_rounds-related limits env (suc fuel) deleted db may =
      oldest_of-related (env.select_fault fuel) deleted db _ _
        (All-sort _ older (keep is_retired db.recordings)
          (All-keep_if _ is_retired db.recordings may))
        (λ row ok.
          let gone = delete_recording (env.delete_faults fuel) row.id db in
          judged-related (has_reason limits env fuel db (length db.recordings) row) deleted db _ (
            swept-related deleted db gone _
              (delete_recording-related Ok R laws (env.delete_faults fuel) row.id db ok)
              (sweep_rounds-related limits env fuel (deleted + 1) gone.0 (
                delete_recording-related Ok _ (MayDelete-Deletes Ok) (env.delete_faults fuel) row.id
                  db ok may))))

  pub sweep-related :
      (limits : Limits) (env : SweepEnv) (db : Database)
      → MayDelete Ok db
      → R db (sweep limits env db).db
  unfolding sweep
  sweep-related limits env db may =
      found (sweep_rounds limits env (suc (length db.recordings)) 0 db)
        (sweep_rounds-related limits env (suc (length db.recordings)) 0 db may)
    where
      found : (o : Option Swept) → IfSome (λ out. R db out.db) o → R db (swept_or db o).db
      found none h = laws.nothing db
      found (some out) h = h
