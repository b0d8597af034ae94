-- ===== src/Recording/Retention.antt =====
-- internal/recording/retention.go: deletion in chunks, and the sweep that applies the aggregate bounds.
use yalb_link.Prelude.{
  ℕ, zero, suc, ◌+◌, ◌-◌, ◌*◌, ◌⊎◌, inl, inr, Bool, true, false, not, ◌&&◌, ◌||◌, Option, none,
  some, List, [], ◌∷◌, ◌==◌, if◌then◌else◌, ltb, leb, ltb_ℤ, pos, pos_part, sort, length,
}
use yalb_link.Recording.Database.{Database, DbError, Row, WriteRecord, count, is_active, keep}
use yalb_link.Recording.Store.{CommandError, Limits}

abbrev pub delete_chunk_size : ℕ
delete_chunk_size = 5000

-- How many events of the recording come before one by their sequence numbers.
unfoldable pub rank : ℕ → WriteRecord → List WriteRecord → ℕ
unfolding count
rank id e events = count (λ x. x.recording_id == id && ltb x.seq e.seq) events

-- An event that DELETE ... IN (SELECT seq ... ORDER BY seq LIMIT n) removes.
abbrev pub in_chunk : ℕ → ℕ → List WriteRecord → WriteRecord → Bool
in_chunk id n events e = e.recording_id == id && ltb (rank id e events) n

unfoldable pub delete_chunk : ℕ → ℕ → List WriteRecord → List WriteRecord × ℕ
unfolding keep count rank
delete_chunk id n events =
    (keep (λ e. not (in_chunk id n events e)) events, count (in_chunk id n events) events)

-- DELETE FROM recordings WHERE id = ? AND status <> 'active', and the number of rows.
unfoldable pub delete_row : ℕ → List Row → List Row × ℕ
unfolding keep count
delete_row id rows = (
  keep (λ row. not (row.id == id && not (is_active row.status))) rows,
  count (λ row. row.id == id && not (is_active row.status)) rows,
)

-- The end of deleteRecording.
unfoldable pub finish_delete : Option DbError → ℕ → Database → Database × CommandError
unfolding delete_row
finish_delete (some e) id db = (db, CommandError.database e)
finish_delete none id db =
    let deleted = delete_row id db.recordings in
    if deleted.1 == 0
    then (db, CommandError.recording_not_found)
    else (record db { recordings = deleted.0 }, CommandError.fine)

-- if err != nil { return ... }
abbrev pub unless_fault : {A : Type 0} → Option DbError → (DbError → A) → A → A
unless_fault (some e) failed next = failed e
unless_fault none failed next = next

-- deleteRecording, on fuel: `faults` is what the driver answers to the round with that much fuel left and,
-- at 0, to the last statement. No result means that the fuel ran out.
unfoldable pub delete_rounds :
    (ℕ → Option DbError) → ℕ → ℕ → Database → Option (Database × CommandError)
unfolding finish_delete delete_chunk
delete_rounds faults zero id db = none
delete_rounds faults (suc fuel) id db =
    let chunk = delete_chunk id delete_chunk_size db.events in
    let rest = delete_rounds faults fuel id (record db { events = chunk.0 }) in
    unless_fault (faults (suc fuel)) (λ e. some (db, CommandError.database e))
      (if chunk.1 == 0 then some (finish_delete (faults 0) id db) else rest)

abbrev pub finished : Database → Option (Database × CommandError) → Database × CommandError
finished db none = (db, CommandError.fine)
finished db (some result) = result

-- deleteRecording; a round for each event and one more are enough.
unfoldable pub delete_recording : (ℕ → Option DbError) → ℕ → Database → Database × CommandError
unfolding delete_rounds
delete_recording faults id db = finished db (delete_rounds faults (suc (length db.events)) id db)

abbrev pub is_retired : Row → Bool
is_retired row = not (is_active row.status)

-- ORDER BY started_at, id
abbrev pub older : Row → Row → Bool
older a b = ltb a.started_at b.started_at || (a.started_at == b.started_at && leb a.id b.id)

-- retentionCandidates
unfoldable pub retention_candidates : Database → List Row × ℕ
unfolding keep sort
retention_candidates db = (sort older (keep is_retired db.recordings), length db.recordings)

-- liveBytes: the three pragmas of SQLite.
unfoldable pub live_bytes : ℕ → ℕ → ℕ → ℕ
live_bytes page_count freelist_count page_size = (page_count - freelist_count) * page_size

-- The clock and the driver during a sweep, by the rounds that are left.
pub record SweepEnv : Type 0 where
  pub now : ℕ → ℕ
  pub select_fault : ℕ → Option DbError
  pub size_fault : ℕ → Option DbError
  pub delete_faults : ℕ → ℕ → Option DbError
  pub page_count : Database → ℕ
  pub freelist_count : Database → ℕ
  pub page_size : ℕ

abbrev pub too_old : Limits → ℕ → Row → Bool
too_old limits now oldest =
    ltb_ℤ (pos 0) limits.max_total_age
    && leb (oldest.started_at * 1000000 + pos_part limits.max_total_age) now

abbrev pub too_many : Limits → ℕ → Bool
too_many limits n = ltb_ℤ (pos 0) limits.max_recordings && ltb (pos_part limits.max_recordings) n

abbrev pub bytes_of : SweepEnv → Database → ℕ
bytes_of env db = live_bytes (env.page_count db) (env.freelist_count db) env.page_size

abbrev pub too_large : Limits → SweepEnv → Database → Bool
too_large limits env db =
    ltb_ℤ (pos 0) limits.max_total_bytes && ltb (pos_part limits.max_total_bytes) (bytes_of env db)

-- What sweep returns: how many it deleted, its error, and the tables.
pub record Swept : Type 0 where
  pub deleted : ℕ
  pub err : CommandError
  pub db : Database

-- The reasons for deleting the oldest candidate, or the driver's error while they are found.
unfoldable pub has_reason : Limits → SweepEnv → ℕ → Database → ℕ → Row → Bool ⊎ DbError
unfolding live_bytes
has_reason limits env round db n oldest =
    let others = too_old limits (env.now round) oldest || too_many limits n in
    let sized : Bool ⊎ DbError = elim (env.size_fault round) [
      | some e ↦ inr e
      | none ↦ inl (others || too_large limits env db)
    ] in
    if ltb_ℤ (pos 0) limits.max_total_bytes then sized else inl others

-- After the deletion of the oldest candidate: the next round, unless it failed.
abbrev pub after_delete : ℕ → Database × CommandError → Option Swept → Option Swept
after_delete deleted (db, CommandError.fine) next = next
after_delete deleted (db, err) next = some (record { deleted = deleted; err = err; db = db })

abbrev pub judged : Bool ⊎ DbError → ℕ → Database → Option Swept → Option Swept
judged (inr e) deleted db next =
    some (record { deleted = deleted; err = CommandError.database e; db = db })
judged (inl false) deleted db next =
    some (record { deleted = deleted; err = CommandError.fine; db = db })
judged (inl true) deleted db next = next

-- candidates[0], if there is one.
abbrev pub oldest_of {ℓ} : {A : Type ℓ} → List Row → A → (Row → A) → A
oldest_of [] none_left f = none_left
oldest_of (row ∷ rows) none_left f = f row

-- The loop of sweep, on fuel.
unfoldable pub sweep_rounds : Limits → SweepEnv → ℕ → ℕ → Database → Option Swept
unfolding has_reason delete_recording retention_candidates
sweep_rounds limits env zero deleted db = none
sweep_rounds limits env (suc fuel) deleted db =
    let next = λ (row : Row).
      let gone = delete_recording (env.delete_faults fuel) row.id db in
      after_delete deleted gone (sweep_rounds limits env fuel (deleted + 1) gone.0) in
    unless_fault (env.select_fault fuel)
      (λ e. some (record { deleted = deleted; err = CommandError.database e; db = db }))
      (oldest_of (retention_candidates db).0
        (some (record { deleted = deleted; err = CommandError.fine; db = db }))
        (λ row.
          judged (has_reason limits env fuel db (length db.recordings) row) deleted db (next row)))

abbrev pub swept_or : Database → Option Swept → Swept
swept_or db none = record { deleted = 0; err = CommandError.fine; db = db }
swept_or db (some result) = result

-- sweep; a round for each recording and one more are enough.
unfoldable pub sweep : Limits → SweepEnv → Database → Swept
unfolding sweep_rounds
sweep limits env db = swept_or db (sweep_rounds limits env (suc (length db.recordings)) 0 db)
