-- ===== src/Recording/Spared.antt =====
-- internal/recording/retention.go: what a deletion or a sweep does not touch.
use yalb_link.Prelude.{
  ℕ, ◌≡◌, ◌∙◌, ap, refl, Bool, true, false, Option, none, some, List, [], ◌∷◌, ◌==◌, All, arith,
}
use yalb_link.Recording.Database.{Database, DbError, Row, WriteRecord, keep}
use yalb_link.Recording.Deletion.{Deletes, delete_recording-related, sweep-related}
use yalb_link.Recording.Retention.{
  SweepEnv, delete_chunk, delete_chunk_size, delete_recording, delete_row, finish_delete,
  is_retired, sweep,
}
use yalb_link.Recording.Store.{Limits}
use yalb_link.Recording.Sub.{Sub, Sub-eq, Sub-refl, Sub-trans, keep-Sub}
use yalb_link.Recording.Writer.{of_id}

finish_delete-events :
    (fault : Option DbError) (id : ℕ) (db : Database)
    → (finish_delete fault id db).0.events ≡ db.events
unfolding finish_delete
finish_delete-events (some e) id db = refl
finish_delete-events none id db = ground arith

fewer : Deletes (λ id. Unit {0}) (λ a b. Sub b.events a.events)
unfolding delete_chunk
fewer = record {
  nothing = λ db. Sub-refl db.events;
  then_ = λ a b c h k. Sub-trans h k;
  chunk = λ id db ok. keep-Sub _ db.events;
  finish = λ fault id db ok. Sub-eq (finish_delete-events fault id db);
}

pub delete_recording-Sub :
    (faults : ℕ → Option DbError) (id : ℕ) (db : Database)
    → Sub (delete_recording faults id db).0.events db.events
delete_recording-Sub faults id db = delete_recording-related _ _ fewer faults id db tt

pub anything : (rows : List Row) → All (λ row. is_retired row ≡ true → Unit {0}) rows
anything [] = tt
anything (row ∷ rows) = ((λ h. tt), anything rows)

pub sweep-Sub :
    (limits : Limits) (env : SweepEnv) (db : Database)
    → Sub (sweep limits env db).db.events db.events
sweep-Sub limits env db = sweep-related _ _ fewer limits env db (anything db.recordings)

-- The rows and the events of one recording.
abbrev pub rows_of : ℕ → List Row → List Row
rows_of id = keep (λ row. row.id == id)

abbrev pub SameRecording : ℕ → Database → Database → Type 0
SameRecording id a b =
    (of_id id b.events ≡ of_id id a.events) × (rows_of id b.recordings ≡ rows_of id a.recordings)

-- Two tests one after the other, where the first passes all that the second does.
pub keep-keep :
    {A : Type 0} (p q : A → Bool) (xs : List A)
    → ((x : A) → p x ≡ true → q x ≡ true)
    → keep p (keep q xs) ≡ keep p xs
unfolding keep
keep-keep p q [] h = refl
keep-keep p q (x ∷ xs) h = ground (arith, keep-keep p q xs h, h x)

other_events :
    (id j n : ℕ) (events : List WriteRecord)
    → (id == j) ≡ false
    → of_id j (delete_chunk id n events).0 ≡ of_id j events
unfolding delete_chunk
other_events id j n events h =
    keep-keep (λ r. r.recording_id == j) _ events (λ r same. ground arith)

other_rows :
    (id j : ℕ) (rows : List Row)
    → (id == j) ≡ false
    → rows_of j (delete_row id rows).0 ≡ rows_of j rows
unfolding delete_row
other_rows id j rows h = keep-keep (λ row. row.id == j) _ rows (λ row same. ground arith)

finish_delete-rows :
    (fault : Option DbError) (id j : ℕ) (db : Database)
    → (id == j) ≡ false
    → rows_of j (finish_delete fault id db).0.recordings ≡ rows_of j db.recordings
unfolding finish_delete
finish_delete-rows (some e) id j db h = refl
finish_delete-rows none id j db h = ground (arith, other_rows id j db.recordings h)

spares : (j : ℕ) → Deletes (λ id. (id == j) ≡ false) (SameRecording j)
spares j = record {
  nothing = λ db. (refl, refl);
  then_ = λ a b c h k. (k.0 ∙ h.0, k.1 ∙ h.1);
  chunk = λ id db h. (other_events id j delete_chunk_size db.events h, refl);
  finish = λ fault id db h.
      (ap (of_id j) (finish_delete-events fault id db), finish_delete-rows fault id j db h);
}

pub delete_recording-other :
    (faults : ℕ → Option DbError) (id j : ℕ) (db : Database)
    → (id == j) ≡ false
    → SameRecording j db (delete_recording faults id db).0
delete_recording-other faults id j db h = delete_recording-related _ _ (spares j) faults id db h

-- A sweep leaves a recording alone, its row and all its events, if no row of its id is retired, whatever
-- the bounds, the clock and the driver say.
pub sweep-spares :
    (limits : Limits) (env : SweepEnv) (j : ℕ) (db : Database)
    → All (λ row. is_retired row ≡ true → (row.id == j) ≡ false) db.recordings
    → SameRecording j db (sweep limits env db).db
sweep-spares limits env j db h = sweep-related _ _ (spares j) limits env db h
