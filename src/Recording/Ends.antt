-- ===== src/Recording/Ends.antt =====
-- internal/recording/retention.go: its loops end, and what they leave of the oldest recording.
use mathlib.Core.Path.{subst}
use yalb_link.Prelude.{
  ℕ, zero, suc, ◌+◌, ◌<◌, ◌≡◌, sym, refl, Bool, true, false, not, Option, none, some, List, [], ◌∷◌,
  ◌==◌, ◌⊎◌, inl, inr, arith, if◌then◌else◌, Option-cases, length, is_some,
}
use yalb_link.Recording.Database.{Database, DbError, Row, count, keep}
use yalb_link.Recording.Deletion.{IfSome}
use yalb_link.Recording.Retention.{
  SweepEnv, Swept, after_delete, delete_chunk, delete_chunk_size, delete_recording, delete_row,
  delete_rounds, finish_delete, finished, has_reason, in_chunk, judged, oldest_of,
  retention_candidates, swept_or, sweep, sweep_rounds, too_large, too_many, too_old, unless_fault,
}
use yalb_link.Recording.Store.{CommandError, Limits}

-- What a test keeps and what it counts are the whole list.
length-keep-not :
    {A : Type 0} (p : A → Bool) (xs : List A)
    → length (keep (λ x. not (p x)) xs) + count p xs ≡ length xs
unfolding keep count
length-keep-not p [] = refl
length-keep-not p (x ∷ xs) = ground (arith, length-keep-not p xs)

round-is_some :
    (fault : Option DbError) (last : Bool) (db : Database) (x : Database × CommandError)
    (y : Option (Database × CommandError))
    → (last ≡ false → is_some y ≡ true)
    → is_some
        (unless_fault fault (λ e. some (db, CommandError.database e)) (if last then some x else y))
      ≡ true
round-is_some (some e) last db x y h = refl
round-is_some none true db x y h = refl
round-is_some none false db x y h = h refl

-- deleteRecording ends: each round but the last deletes an event.
delete_rounds-is_some :
    (faults : ℕ → Option DbError) (fuel id : ℕ) (db : Database)
    → length db.events < fuel
    → is_some (delete_rounds faults fuel id db) ≡ true
unfolding delete_rounds delete_chunk
delete_rounds-is_some faults zero id db h = absurd (omega arith)
delete_rounds-is_some faults (suc fuel) id db h =
    let p = in_chunk id delete_chunk_size db.events in
    let fewer = length-keep-not p db.events in
    round-is_some (faults (suc fuel)) (count p db.events == 0) db (finish_delete (faults 0) id db)
      (delete_rounds faults fuel id (record db { events = keep (λ e. not (p e)) db.events }))
      (λ more.
        delete_rounds-is_some faults fuel id
          (record db { events = keep (λ e. not (p e)) db.events }) (ground arith))

-- The rows after a deletion that succeeded.
abbrev Shrunk : Database → Database × CommandError → Type 0
Shrunk db (gone, CommandError.fine) = length gone.recordings < length db.recordings
Shrunk db (gone, _) = Unit

delete_row-length :
    (id : ℕ) (rows : List Row)
    → length (delete_row id rows).0 + (delete_row id rows).1 ≡ length rows
unfolding delete_row
delete_row-length id rows = length-keep-not _ rows

finish_delete-Shrunk :
    (fault : Option DbError) (id : ℕ) (db : Database) → Shrunk db (finish_delete fault id db)
unfolding finish_delete
finish_delete-Shrunk (some e) id db = tt
finish_delete-Shrunk none id db = ground (arith, delete_row-length id db.recordings)

round-Shrunk :
    (fault : Option DbError) (last : Bool) (db : Database) (x y : Option (Database × CommandError))
    → IfSome (Shrunk db) x
    → IfSome (Shrunk db) y
    → IfSome
        (Shrunk db)
        (unless_fault fault (λ e. some (db, CommandError.database e)) (if last then x else y))
round-Shrunk (some e) last db x y h k = tt
round-Shrunk none true db x y h k = h
round-Shrunk none false db x y h k = k

delete_rounds-Shrunk :
    (faults : ℕ → Option DbError) (fuel id : ℕ) (db : Database)
    → IfSome (Shrunk db) (delete_rounds faults fuel id db)
unfolding delete_rounds
delete_rounds-Shrunk faults zero id db = tt
delete_rounds-Shrunk faults (suc fuel) id db =
    let chunk = delete_chunk id delete_chunk_size db.events in
    let next : Database = record db { events = chunk.0 } in
    round-Shrunk (faults (suc fuel)) (chunk.1 == 0) db (some (finish_delete (faults 0) id db))
      (delete_rounds faults fuel id next) (finish_delete-Shrunk (faults 0) id db)
      (same (delete_rounds faults fuel id next) (delete_rounds-Shrunk faults fuel id next))
  where
    same :
        (o : Option (Database × CommandError))
        → IfSome (Shrunk (record db { events = (delete_chunk id delete_chunk_size db.events).0 })) o
        → IfSome (Shrunk db) o
    same none h = tt
    same (some (gone, CommandError.fine)) h = h
    same (some (gone, CommandError.recording_not_found)) h = tt
    same (some (gone, CommandError.active_not_found)) h = tt
    same (some (gone, CommandError.database e)) h = tt

delete_recording-Shrunk :
    (faults : ℕ → Option DbError) (id : ℕ) (db : Database)
    → Shrunk db (delete_recording faults id db)
unfolding delete_recording
delete_recording-Shrunk faults id db =
    found (delete_rounds faults (suc (length db.events)) id db)
      (delete_rounds-is_some faults (suc (length db.events)) id db (omega arith))
      (delete_rounds-Shrunk faults (suc (length db.events)) id db)
  where
    found :
        (o : Option (Database × CommandError))
        → is_some o ≡ true
        → IfSome (Shrunk db) o
        → Shrunk db (finished db o)
    found none e h = absurd (cc)
    found (some out) e h = h

swept-is_some :
    (deleted : ℕ) (db : Database) (gone : Database × CommandError) (next : Option Swept)
    → Shrunk db gone
    → (length gone.0.recordings < length db.recordings → is_some next ≡ true)
    → is_some (after_delete deleted gone next) ≡ true
swept-is_some deleted db (gone, CommandError.fine) next h k = k h
swept-is_some deleted db (gone, CommandError.recording_not_found) next h k = refl
swept-is_some deleted db (gone, CommandError.active_not_found) next h k = refl
swept-is_some deleted db (gone, CommandError.database e) next h k = refl

judged-is_some :
    (verdict : Bool ⊎ DbError) (deleted : ℕ) (db : Database) (next : Option Swept)
    → is_some next ≡ true
    → is_some (judged verdict deleted db next) ≡ true
judged-is_some (inr e) deleted db next h = refl
judged-is_some (inl false) deleted db next h = refl
judged-is_some (inl true) deleted db next h = h

oldest_of-is_some :
    (fault : Option DbError) (x : DbError → Swept) (y : Swept) (rows : List Row)
    (f : Row → Option Swept)
    → ((row : Row) → is_some (f row) ≡ true)
    → is_some (unless_fault fault (λ e. some (x e)) (oldest_of rows (some y) f)) ≡ true
oldest_of-is_some (some e) x y rows f h = refl
oldest_of-is_some none x y [] f h = refl
oldest_of-is_some none x y (row ∷ rows) f h = h row

-- The loop of sweep ends after at most a round for each recording and one more, whatever the driver, the
-- clock and the sizes say.
pub sweep_rounds-is_some :
    (limits : Limits) (env : SweepEnv) (fuel deleted : ℕ) (db : Database)
    → length db.recordings < fuel
    → is_some (sweep_rounds limits env fuel deleted db) ≡ true
unfolding sweep_rounds
sweep_rounds-is_some limits env zero deleted db h = absurd (omega arith)
sweep_rounds-is_some limits env (suc fuel) deleted db h =
    oldest_of-is_some (env.select_fault fuel) _ _ (retention_candidates db).0 _ (λ row.
      let gone = delete_recording (env.delete_faults fuel) row.id db in
      judged-is_some (has_reason limits env fuel db (length db.recordings) row) deleted db _ (
        swept-is_some deleted db gone (sweep_rounds limits env fuel (deleted + 1) gone.0)
          (delete_recording-Shrunk (env.delete_faults fuel) row.id db)
          (λ fewer. sweep_rounds-is_some limits env fuel (deleted + 1) gone.0 (omega arith))))

-- What the bounds ask of the oldest retired recording.
abbrev pub Kept : Limits → SweepEnv → ℕ → Database → Row → Type 0
Kept limits env round db row =
    (too_old limits (env.now round) row ≡ false)
    × (too_many limits (length db.recordings) ≡ false)
    × (too_large limits env db ≡ false)

abbrev pub OldestKept : Limits → SweepEnv → Database → Type 0
OldestKept limits env db =
    (round : ℕ) × oldest_of (retention_candidates db).0 (Unit {0}) (Kept limits env round db)

has_reason-Kept :
    (limits : Limits) (env : SweepEnv) (round : ℕ) (db : Database) (row : Row)
    → has_reason limits env round db (length db.recordings) row ≡ inl false
    → Kept limits env round db row
unfolding has_reason
has_reason-Kept limits env round db row h = elim (Option-cases (env.size_fault round)) [
  | inl fine ↦ ground arith
  | inr (e, failed) ↦ ground arith
]

abbrev SettledIfFine : Limits → SweepEnv → Swept → Type 0
SettledIfFine limits env out = out.err ≡ CommandError.fine → OldestKept limits env out.db

judged-Settled :
    (limits : Limits) (env : SweepEnv) (round : ℕ) (verdict : Bool ⊎ DbError) (deleted : ℕ)
    (db : Database) (next : Option Swept)
    → (verdict ≡ inl false → OldestKept limits env db)
    → IfSome (SettledIfFine limits env) next
    → IfSome (SettledIfFine limits env) (judged verdict deleted db next)
judged-Settled limits env round (inr e) deleted db next h k = λ fine. absurd (cc)
judged-Settled limits env round (inl false) deleted db next h k = λ fine. h refl
judged-Settled limits env round (inl true) deleted db next h k = k

swept-Settled :
    (limits : Limits) (env : SweepEnv) (deleted : ℕ) (gone : Database × CommandError)
    (next : Option Swept)
    → IfSome (SettledIfFine limits env) next
    → IfSome (SettledIfFine limits env) (after_delete deleted gone next)
swept-Settled limits env deleted (gone, CommandError.fine) next h = h
swept-Settled limits env deleted (gone, CommandError.recording_not_found) next h =
    λ fine. absurd (cc)
swept-Settled limits env deleted (gone, CommandError.active_not_found) next h = λ fine. absurd (cc)
swept-Settled limits env deleted (gone, CommandError.database e) next h = λ fine. absurd (cc)

oldest_of-Settled :
    (limits : Limits) (env : SweepEnv) (round : ℕ) (fault : Option DbError) (deleted : ℕ)
    (db : Database) (rows : List Row) (f : Row → Option Swept)
    → (retention_candidates db).0 ≡ rows
    → ((row : Row)
        → (Kept limits env round db row → OldestKept limits env db)
        → IfSome (SettledIfFine limits env) (f row))
    → IfSome (SettledIfFine limits env) (
        unless_fault fault
          (λ e. some (record { deleted = deleted; err = CommandError.database e; db = db }))
          (oldest_of rows
            (some (record { deleted = deleted; err = CommandError.fine; db = db }))
            f))
oldest_of-Settled limits env round (some e) deleted db rows f q h = λ fine. absurd (cc)
oldest_of-Settled limits env round none deleted db [] f q h =
    λ fine. (round, subst (λ l. oldest_of l (Unit {0}) (Kept limits env round db)) (sym q) tt)
oldest_of-Settled limits env round none deleted db (row ∷ rows) f q h =
    h row
      (λ kept. (round, subst (λ l. oldest_of l (Unit {0}) (Kept limits env round db)) (sym q) kept))

sweep_rounds-Settled :
    (limits : Limits) (env : SweepEnv) (fuel deleted : ℕ) (db : Database)
    → IfSome (SettledIfFine limits env) (sweep_rounds limits env fuel deleted db)
unfolding sweep_rounds
sweep_rounds-Settled limits env zero deleted db = tt
sweep_rounds-Settled limits env (suc fuel) deleted db =
    oldest_of-Settled limits env fuel (env.select_fault fuel) deleted db (retention_candidates db).0
      _ refl
      (λ row settled.
        let gone = delete_recording (env.delete_faults fuel) row.id db in
        judged-Settled limits env fuel (has_reason limits env fuel db (length db.recordings) row)
          deleted db _ (λ no_reason. settled (has_reason-Kept limits env fuel db row no_reason))
          (swept-Settled limits env deleted gone (sweep_rounds limits env fuel (deleted + 1) gone.0)
            (sweep_rounds-Settled limits env fuel (deleted + 1) gone.0)))

pub sweep-kept :
    (limits : Limits) (env : SweepEnv) (db : Database)
    → (sweep limits env db).err ≡ CommandError.fine
    → OldestKept limits env (sweep limits env db).db
unfolding sweep
sweep-kept limits env db =
    found (sweep_rounds limits env (suc (length db.recordings)) 0 db)
      (sweep_rounds-is_some limits env (suc (length db.recordings)) 0 db (omega arith))
      (sweep_rounds-Settled limits env (suc (length db.recordings)) 0 db)
  where
    found :
        (o : Option Swept)
        → is_some o ≡ true
        → IfSome (SettledIfFine limits env) o
        → (swept_or db o).err ≡ CommandError.fine
        → OldestKept limits env (swept_or db o).db
    found none e h = absurd (cc)
    found (some out) e h = h
