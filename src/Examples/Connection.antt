-- ===== src/Examples/Connection.antt =====
-- internal/connection with one saved receiver and two devices.
use mathlib.Core.Path.{subst}
use yalb_link.Prelude.{
  Has, All, ℕ, ◌≡◌, ◌∙◌, ap, ℤ, negsuc, inl, inr, if◌then◌else◌, Bool-cases, Bool, str_eq_iff, ◌&&◌,
  true, false, Option, none, some, List, [], ◌∷◌, arith, refl, str_eq, pos,
}
use yalb_link.Connection.Profiles.{
  Faults, persist_steps, write, Device, Document, File, Json, Profile, Result, Settings,
  find_profile, intent_idle, load, save, find_profile,
}
use yalb_link.Connection.Saved.{Holds, save-load}
use yalb_link.Connection.Atomic.{Ended, OldOrNew, persist_atomic}
use yalb_link.Connection.Select.{Selection, select}
use yalb_link.Connection.Opening.{Chosen, Opened-Chosen, starts}
use yalb_link.Connection.Startup.{Pending, connect_profile, resolve_profiles}
use yalb_link.GoMap

abbrev radio : Device
radio = record {
  id = "serial-1";
  kind = "serial";
  path = "/dev/ttyUSB0";
  description = "radio";
  serial_number = "A7";
  manufacturer = "";
  vid = "0403";
  pid = "6015";
}

abbrev other_radio : Device
other_radio = record radio { id = "serial-2"; serial_number = "B2" }

abbrev slow : Settings
slow = record { baud_rate = pos 57600 }

abbrev unset : Settings
unset = record { baud_rate = pos 0 }

-- A profile as the operator enters it.
abbrev entered : Profile
entered = record {
  id = "";
  name = "field";
  device = radio;
  settings = slow;
  intent = "";
  created_at_ms = 0;
  updated_at_ms = 0;
}

abbrev saved : ℕ → Profile
saved now = record entered {
  id = "profile-1";
  intent = intent_idle;
  created_at_ms = now;
  updated_at_ms = now;
}

-- An encoding of the documents that hold the radio's profile alone; its bytes are the version, the rate and
-- the times.
abbrev is_radio : Device → Bool
is_radio d =
    (str_eq d.id "serial-1"
      && (str_eq d.kind "serial" && (str_eq d.path "/dev/ttyUSB0" && str_eq d.description "radio")))
    && (str_eq d.serial_number "A7"
        && (str_eq d.manufacturer "" && (str_eq d.vid "0403" && str_eq d.pid "6015")))

is_radio-radio : (d : Device) → is_radio d ≡ true → d ≡ radio
is_radio-radio d h = ground (
  arith,
  str_eq_iff d.id "serial-1",
  str_eq_iff d.kind "serial",
  str_eq_iff d.path "/dev/ttyUSB0",
  str_eq_iff d.description "radio",
  str_eq_iff d.serial_number "A7",
  str_eq_iff d.manufacturer "",
  str_eq_iff d.vid "0403",
  str_eq_iff d.pid "6015",
)

-- A profile with the name and the intent of the saved one, on the radio at a rate that is positive.
abbrev is_saved : Profile → Bool
is_saved p =
    is_radio p.device
    && (str_eq p.id "profile-1" && (str_eq p.name "field" && str_eq p.intent intent_idle))

abbrev rebuilt : ℕ → ℤ → ℕ → ℕ → Document
rebuilt version rate created updated = record {
  version = version;
  profiles =
      record {
        id = "profile-1";
        name = "field";
        device = radio;
        settings = record { baud_rate = rate };
        intent = intent_idle;
        created_at_ms = created;
        updated_at_ms = updated;
      }
      ∷ [];
}

abbrev rate_bytes : ℕ → ℤ → ℕ → ℕ → Option (List ℕ)
rate_bytes version (pos rate) created updated = some (version ∷ rate ∷ created ∷ updated ∷ [])
rate_bytes version (negsuc rate) created updated = none

abbrev encode : ℕ → List Profile → Option (List ℕ)
encode version (p ∷ []) =
    if is_saved p
    then rate_bytes version p.settings.baud_rate p.created_at_ms p.updated_at_ms
    else none
encode version _ = none

abbrev decode : List ℕ → Option Document
decode (version ∷ rate ∷ created ∷ updated ∷ []) = some (rebuilt version (pos rate) created updated)
decode _ = none

decode-rate_bytes :
    (version : ℕ) (rate : ℤ) (created updated : ℕ) (bytes : List ℕ)
    → rate_bytes version rate created updated ≡ some bytes
    → decode bytes ≡ some (rebuilt version rate created updated)
decode-rate_bytes version (pos rate) created updated bytes h =
    let same : version ∷ rate ∷ created ∷ updated ∷ [] ≡ bytes = cc in
    subst (λ l. decode l ≡ some (rebuilt version (pos rate) created updated)) same refl
decode-rate_bytes version (negsuc rate) created updated bytes h = absurd (cc)

rebuilt_saved :
    (version : ℕ) (p : Profile)
    → is_saved p ≡ true
    → rebuilt version p.settings.baud_rate p.created_at_ms p.updated_at_ms
      ≡ record { version = version; profiles = p ∷ [] }
rebuilt_saved version p h = ground (
  arith,
  is_radio-radio p.device,
  str_eq_iff p.id "profile-1",
  str_eq_iff p.name "field",
  str_eq_iff p.intent intent_idle,
)

decode-encode :
    (version : ℕ) (ps : List Profile) (bytes : List ℕ)
    → encode version ps ≡ some bytes
    → decode bytes ≡ some (record { version = version; profiles = ps })
decode-encode version [] bytes h = absurd (cc)
decode-encode version (p ∷ q ∷ ps) bytes h = absurd (cc)
decode-encode version (p ∷ []) bytes h = elim (Bool-cases (is_saved p)) [
  | inr other ↦ absurd (cc (rw other at h))
  | inl same ↦
      decode-rate_bytes version p.settings.baud_rate p.created_at_ms p.updated_at_ms bytes
        (rw same at h)
      ∙ ap some (rebuilt_saved version p same)
]

abbrev json : Json
json = record {
  marshal = λ doc. encode doc.version doc.profiles;
  unmarshal = decode;
  reads_back = λ doc. decode-encode doc.version doc.profiles;
}

abbrev calm : Faults
calm = record { fails = λ call. false; partial = [] }

-- The file after the profile was saved at the time 9.
abbrev after : File
after = some (1 ∷ 57600 ∷ 9 ∷ 9 ∷ [])

loads_nothing : load json false none ≡ Result.ok []
unfolding load
loads_nothing = refl

free_id : find_profile "profile-1" [] ≡ none
unfolding find_profile
free_id = refl

saves : save json false calm "profile-1" 9 entered none ≡ (after, Result.ok (saved 9))
unfolding save
saves = refl

save-load_example : Holds json after [] (saved 9) "profile-1"
save-load_example =
    save-load json false calm "profile-1" 9 entered none after [] (saved 9) "profile-1"
      loads_nothing refl refl free_id saves

-- The disk fills up while the second save is written.
abbrev disk_full : Faults
disk_full = record { fails = λ call. elim call [ write ↦ true | _ ↦ false ]; partial = 1 ∷ [] }

persist_atomic_example :
    All
      (OldOrNew after (json.marshal (record { version = 1; profiles = saved 10 ∷ [] })))
      (persist_steps json disk_full (saved 10 ∷ []) after).passed
    × Ended after
        (json.marshal (record { version = 1; profiles = saved 10 ∷ [] }))
        (persist_steps json disk_full (saved 10 ∷ []) after).disk
        (persist_steps json disk_full (saved 10 ∷ []) after).result
persist_atomic_example = persist_atomic json disk_full (saved 10 ∷ []) after

abbrev connected_before : Profile
connected_before = record (saved 9) { intent = "CONNECTED" }

abbrev radio_pending : Pending
radio_pending = record { id = "profile-1"; device = radio; settings = slow }

starts_radio :
    Has radio_pending
      (resolve_profiles (some (other_radio ∷ radio ∷ [])) (connected_before ∷ []) []).1
unfolding resolve_profiles GoMap.lookup
starts_radio = inl refl

Opened-Chosen_example : Chosen (connected_before ∷ []) (other_radio ∷ radio ∷ []) none radio slow
Opened-Chosen_example =
    Opened-Chosen (connected_before ∷ []) (other_radio ∷ radio ∷ []) none radio slow
      (starts [] radio_pending starts_radio)

opens_radio :
    connect_profile true false none "profile-1" "" unset (saved 9 ∷ []) (other_radio ∷ radio ∷ [])
    ≡ Selection.opens radio slow
unfolding connect_profile select
opens_radio = refl
