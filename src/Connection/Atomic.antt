-- ===== src/Connection/Atomic.antt =====
-- internal/connection/profile_store.go: the document is replaced as a whole or not at all.
use yalb_link.Prelude.{
  ℕ, ◌≡◌, ◌≢◌, ◌⊎◌, refl, Bool, true, false, Option, none, some, List, [], All, arith, inl, inr,
  if◌then◌else◌,
}
use yalb_link.Connection.Profiles.{
  Disk, Faults, File, Json, Profile, Replaced, Result, attempt, chmod, close, create, finished,
  holding, mkdir, persist_steps, refused, removed, rename, renamed, replace, sync, unchanged,
  with_temporary, write, written,
}

-- What is left at the end: the new document where the answer is good, the old one on an error, and no temporary
-- file either way.
abbrev pub Ended : File → File → Disk → Result (Unit {0}) → Type 0
Ended old new disk (Result.ok done) =
    (disk ≡ record { document = new; temporary = none }) × (new ≢ none)
Ended old new disk (Result.failed e) = disk ≡ record { document = old; temporary = none }

-- A reader finds the old document or the whole new one.
abbrev pub OldOrNew : File → File → Disk → Type 0
OldOrNew old new d = (d.document ≡ old) ⊎ (d.document ≡ new)

abbrev Atomic : File → File → Replaced → Type 0
Atomic old new r = All (OldOrNew old new) r.passed × Ended old new r.disk r.result

attempt-Atomic :
    (old new : File) (fails : Bool) (done broken undo : Disk → Disk) (rest : Disk → Replaced)
    (d : Disk)
    → OldOrNew old new (done d)
    → OldOrNew old new (broken d)
    → undo (broken d) ≡ holding old
    → Atomic old new (rest (done d))
    → Atomic old new (attempt fails done broken undo rest d)
attempt-Atomic old new true done broken undo rest d h k u r = ((k, (inl (ground arith), tt)), u)
attempt-Atomic old new false done broken undo rest d h k u r = ((h, r.0), r.1)

replace-Atomic :
    (faults : Faults) (bytes : List ℕ) (old : File)
    → Atomic old (some bytes) (replace faults bytes (holding old))
unfolding replace
replace-Atomic faults bytes old =
    let new : File = some bytes in
    attempt-Atomic old new (faults.fails create) (with_temporary []) unchanged unchanged _
      (holding old) (inl refl) (inl refl) refl
      (attempt-Atomic old new (faults.fails write) (with_temporary bytes)
        (with_temporary faults.partial) removed _ _ (inl refl) (inl refl) refl
        (attempt-Atomic old new (faults.fails sync) unchanged unchanged removed _ _ (inl refl)
          (inl refl) refl
          (attempt-Atomic old new (faults.fails close) unchanged unchanged removed _ _ (inl refl)
            (inl refl) refl
            (attempt-Atomic old new (faults.fails chmod) unchanged unchanged removed _ _ (inl refl)
              (inl refl) refl
              (attempt-Atomic old new (faults.fails rename) renamed unchanged removed finished _
                (inr refl) (inl refl) refl (tt, (refl, λ e. absurd (cc))))))))

written-Atomic :
    (faults : Faults) (old : File) (new : Option (List ℕ)) → Atomic old new (written faults old new)
written-Atomic faults old none = (tt, refl)
written-Atomic faults old (some bytes) = replace-Atomic faults bytes old

-- Whichever calls of the file system fail, and after each of them, the document is the old one or the encoding
-- of all the new profiles, never a part of it. At the end it is the new one if no error is returned and the
-- old one otherwise, and no temporary file is left.
pub persist_atomic :
    (json : Json) (faults : Faults) (ps : List Profile) (old : File)
    → All
        (OldOrNew old (json.marshal (record { version = 1; profiles = ps })))
        (persist_steps json faults ps old).passed
      × Ended old
          (json.marshal (record { version = 1; profiles = ps }))
          (persist_steps json faults ps old).disk
          (persist_steps json faults ps old).result
unfolding persist_steps
persist_atomic json faults ps old = by_directory (faults.fails mkdir)
  where
    new : File
    new = json.marshal (record { version = 1; profiles = ps })

    by_directory :
        (b : Bool) → Atomic old new (if b then refused (holding old) else written faults old new)
    by_directory true = (tt, refl)
    by_directory false = written-Atomic faults old new
