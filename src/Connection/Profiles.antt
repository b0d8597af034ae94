-- ===== src/Connection/Profiles.antt =====
-- internal/connection/profile.go and profile_store.go: the document of saved profiles, and the operations that
-- read it, change it and put it back. The JSON encoding is the parameter `Json`; the file is its bytes, or
-- missing. A clock reading, a drawn id and a failure of the file system are arguments.
use yalb_link.Prelude.{
  ℕ, ◌≡◌, Bool, true, false, not, ◌||◌, Option, none, some, List, [], ◌∷◌, ◌++◌, ◌==◌,
  if◌then◌else◌, String, str_eq, ℤ, is_some,
}

-- Device of types.go.
pub record Device : Type 0 where
  pub id : String
  pub kind : String
  pub path : String
  pub description : String
  pub serial_number : String
  pub manufacturer : String
  pub vid : String
  pub pid : String

-- Settings of types.go.
pub record Settings : Type 0 where
  pub baud_rate : ℤ

-- The intent of a profile that was never connected.
abbrev pub intent_idle : String
intent_idle = "IDLE"

pub record Profile : Type 0 where
  pub id : String
  pub name : String
  pub device : Device
  pub settings : Settings
  pub intent : String
  pub created_at_ms : ℕ
  pub updated_at_ms : ℕ

-- profileDocument
pub record Document : Type 0 where
  pub version : ℕ
  pub profiles : List Profile

-- json.MarshalIndent and json.Unmarshal of a document; what was encoded is read back, as the library
-- documents.
pub record Json : Type 0 where
  pub marshal : Document → Option (List ℕ)
  pub unmarshal : List ℕ → Option Document
  pub reads_back :
      (doc : Document) (bytes : List ℕ) → marshal doc ≡ some bytes → unmarshal bytes ≡ some doc

pub data StoreError : Type 0 where
  unreadable unparsable unsupported_version incomplete profile_not_found not_written : StoreError

pub data Result (A : Type 0) : Type 0 where
  ok : A → Result A
  failed : StoreError → Result A

-- The file at the store's path: missing, or its bytes.
abbrev pub File : Type 0
File = Option (List ℕ)

abbrev pub profile_schema_version : ℕ
profile_schema_version = 1

abbrev pub is_incomplete : Profile → Bool
is_incomplete p = str_eq p.id "" || str_eq p.name ""

-- The check of load's loop: a profile without an id or a name.
unfoldable pub any_incomplete : List Profile → Bool
any_incomplete [] = false
any_incomplete (p ∷ ps) = is_incomplete p || any_incomplete ps

abbrev pub checked : Option Document → Result (List Profile)
checked none = Result.failed unparsable
checked (some doc) =
    if not (doc.version == profile_schema_version)
    then Result.failed unsupported_version
    else if any_incomplete doc.profiles
    then Result.failed incomplete
    else Result.ok doc.profiles

-- load, where reading the file may fail.
unfoldable pub load : Json → Bool → File → Result (List Profile)
unfolding any_incomplete
load json true file = Result.failed unreadable
load json false none = Result.ok []
load json false (some bytes) = checked (json.unmarshal bytes)

-- The store's directory: the document, and the temporary file beside it.
pub record Disk : Type 0 where
  pub document : File
  pub temporary : File

-- The calls of the file system in persist.
pub data Call : Type 0 where
  mkdir create write sync close chmod rename : Call

-- Which of them fail, and what a failed write leaves in the temporary file.
pub record Faults : Type 0 where
  pub fails : Call → Bool
  pub partial : List ℕ

-- The disk after each call, at the end, and the answer.
pub record Replaced : Type 0 where
  pub passed : List Disk
  pub disk : Disk
  pub result : Result (Unit {0})

-- The disk with a document and no temporary file.
abbrev pub holding : File → Disk
holding file = record { document = file; temporary = none }

abbrev pub unchanged : Disk → Disk
unchanged d = d

abbrev pub with_temporary : List ℕ → Disk → Disk
with_temporary bytes d = record d { temporary = some bytes }

abbrev pub removed : Disk → Disk
removed d = record d { temporary = none }

abbrev pub renamed : Disk → Disk
renamed d = record { document = d.temporary; temporary = none }

abbrev pub finished : Disk → Replaced
finished d = record { passed = []; disk = d; result = Result.ok tt }

abbrev pub refused : Disk → Replaced
refused d = record { passed = []; disk = d; result = Result.failed not_written }

-- One call: what it does to the disk, what it leaves where it fails, and what the deferred function then does,
-- and the rest of persist.
abbrev pub attempt :
    Bool → (Disk → Disk) → (Disk → Disk) → (Disk → Disk) → (Disk → Replaced) → Disk → Replaced
attempt true done broken undo rest d = record {
  passed = broken d ∷ undo (broken d) ∷ [];
  disk = undo (broken d);
  result = Result.failed not_written;
}
attempt false done broken undo rest d = record (rest (done d)) {
  passed = done d ∷ (rest (done d)).passed;
}

-- persist from CreateTemp to Rename.
unfoldable pub replace : Faults → List ℕ → Disk → Replaced
replace faults bytes = attempt (faults.fails create) (with_temporary []) unchanged unchanged (
    attempt (faults.fails write) (with_temporary bytes) (with_temporary faults.partial) removed (
      attempt (faults.fails sync) unchanged unchanged removed (
        attempt (faults.fails close) unchanged unchanged removed (
          attempt (faults.fails chmod) unchanged unchanged removed
            (attempt (faults.fails rename) renamed unchanged removed finished)))))

abbrev pub written : Faults → File → Option (List ℕ) → Replaced
written faults file none = refused (holding file)
written faults file (some bytes) = replace faults bytes (holding file)

-- persist, from a directory without a temporary file.
unfoldable pub persist_steps : Json → Faults → List Profile → File → Replaced
unfolding replace
persist_steps json faults profiles file =
    if faults.fails mkdir
    then refused (holding file)
    else written faults file
        (json.marshal (record { version = profile_schema_version; profiles = profiles }))

unfoldable pub persist : Json → Faults → List Profile → File → File × Result (Unit {0})
unfolding persist_steps
persist json faults profiles file =
    let done = persist_steps json faults profiles file in (done.disk.document, done.result)

-- The first profile with an id.
unfoldable pub find_profile : String → List Profile → Option Profile
find_profile id [] = none
find_profile id (p ∷ ps) = if str_eq p.id id then some p else find_profile id ps

-- profiles[idx] = f(profiles[idx]), for the first with the id.
unfoldable pub update_profile : String → (Profile → Profile) → List Profile → List Profile
update_profile id f [] = []
update_profile id f (p ∷ ps) =
    let rest = update_profile id f ps in if str_eq p.id id then f p ∷ ps else p ∷ rest

-- append(profiles[:idx], profiles[idx+1:]...)
unfoldable pub remove_profile : String → List Profile → List Profile
remove_profile id [] = []
remove_profile id (p ∷ ps) =
    let rest = remove_profile id ps in if str_eq p.id id then ps else p ∷ rest

abbrev pub answered : {A : Type 0} → A → File × Result (Unit {0}) → File × Result A
answered a (file, Result.ok done) = (file, Result.ok a)
answered a (file, Result.failed e) = (file, Result.failed e)

-- A new profile: no id was given.
abbrev pub created : String → ℕ → Profile → Profile
created drawn now p = record p {
  id = drawn;
  intent = intent_idle;
  created_at_ms = now;
  updated_at_ms = now;
}

-- A saved profile that is changed keeps its intent and the time of its creation.
abbrev pub revised : ℕ → Profile → Profile → Profile
revised now p existing = record p {
  intent = existing.intent;
  created_at_ms = existing.created_at_ms;
  updated_at_ms = now;
}

abbrev pub save_found :
    Json → Faults → ℕ → Profile → List Profile → File → Option Profile → File × Result Profile
save_found json faults now p profiles file none = (file, Result.failed profile_not_found)
save_found json faults now p profiles file (some existing) =
    answered (revised now p existing)
      (persist json faults (update_profile p.id (revised now p) profiles) file)

abbrev pub save_loaded :
    Json → Faults → String → ℕ → Profile → File → Result (List Profile) → File × Result Profile
save_loaded json faults drawn now p file (Result.failed e) = (file, Result.failed e)
save_loaded json faults drawn now p file (Result.ok profiles) =
    if str_eq p.id ""
    then answered (created drawn now p)
        (persist json faults (profiles ++ (created drawn now p ∷ [])) file)
    else save_found json faults now p profiles file (find_profile p.id profiles)

-- Save
unfoldable pub save : Json → Bool → Faults → String → ℕ → Profile → File → File × Result Profile
unfolding load persist find_profile update_profile
save json unread faults drawn now p file =
    save_loaded json faults drawn now p file (load json unread file)

abbrev pub change_loaded :
    Json
    → Faults
    → String
    → (List Profile → List Profile)
    → File
    → Result (List Profile)
    → File × Result (Unit {0})
change_loaded json faults id f file (Result.failed e) = (file, Result.failed e)
change_loaded json faults id f file (Result.ok profiles) =
    if is_some (find_profile id profiles)
    then persist json faults (f profiles) file
    else (file, Result.failed profile_not_found)

-- Delete
unfoldable pub delete : Json → Bool → Faults → String → File → File × Result (Unit {0})
unfolding load persist find_profile remove_profile
delete json unread faults id file =
    change_loaded json faults id (remove_profile id) file (load json unread file)

abbrev pub with_intent : String → ℕ → Profile → Profile
with_intent intent now p = record p { intent = intent; updated_at_ms = now }

-- UpdateIntent
unfoldable pub update_intent :
    Json → Bool → Faults → String → String → ℕ → File → File × Result (Unit {0})
unfolding load persist find_profile update_profile
update_intent json unread faults id intent now file =
    change_loaded json faults id (update_profile id (with_intent intent now)) file
      (load json unread file)
