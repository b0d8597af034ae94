-- ===== src/Connection/Startup.antt =====
-- internal/connection/manager.go: which saved profiles are opened when the server starts, and the guards of
-- ConnectProfile before it selects a device.
use yalb_link.Prelude.{
  Bool, not, ◌&&◌, Option, none, some, List, [], ◌∷◌, ◌++◌, if◌then◌else◌, String, str_eq,
  string_eq, is_some, pos, leb_ℤ, ltb_ℤ,
}
use yalb_link.GoMap
use yalb_link.GoMap.{GoMap}
use yalb_link.Connection.Profiles.{Device, Profile, Settings}
use yalb_link.Connection.Select.{Refusal, Selection, match_identity, select}

-- IntentConnected, IntentReleased
abbrev pub intent_connected : String
intent_connected = "CONNECTED"

abbrev pub intent_released : String
intent_released = "RELEASED"

-- The states that the start of the server gives to an entry.
pub data State : Type 0 where
  idle released device_missing opening ambiguous : State

pub record Entry : Type 0 where
  pub device : Device
  pub settings : Settings
  pub state : State
  pub profile_id : String

pub record Pending : Type 0 where
  pub id : String
  pub device : Device
  pub settings : Settings

abbrev pub by_matches : List Device → State × Option Device
by_matches [] = (State.device_missing, none)
by_matches (d ∷ []) = (State.opening, some d)
by_matches _ = (State.ambiguous, none)

-- The devices are missing where the inventory answers with an error.
abbrev pub by_inventory : Device → Option (List Device) → State × Option Device
by_inventory target none = (State.device_missing, none)
by_inventory target (some devices) = by_matches (match_identity target devices)

abbrev pub by_intent : Profile → Option (List Device) → State × Option Device
by_intent p inventory =
    if not (str_eq p.intent intent_connected)
    then (if str_eq p.intent intent_released then State.released else State.idle, none)
    else by_inventory p.device inventory

abbrev pub entry_of : Profile → State → Entry
entry_of p state = record {
  device = p.device;
  settings = p.settings;
  state = state;
  profile_id = p.id;
}

abbrev pub pending_of : Profile → Option Device → List Pending
pending_of p none = []
pending_of p (some d) = record { id = p.id; device = d; settings = p.settings } ∷ []

abbrev pub prepend :
    List Pending → GoMap String Entry × List Pending → GoMap String Entry × List Pending
prepend cs (entries, later) = (entries, cs ++ later)

-- resolveProfilesAtStartup, where the store answers: the entries it leaves and the devices it then opens.
unfoldable pub resolve_profiles :
    Option (List Device) → List Profile → GoMap String Entry → GoMap String Entry × List Pending
unfolding match_identity
resolve_profiles inventory [] entries = (entries, [])
resolve_profiles inventory (p ∷ ps) entries =
    let found = by_intent p inventory in
    let skipped = resolve_profiles inventory ps entries in
    let added = resolve_profiles inventory ps (GoMap.insert p.id (entry_of p found.0) entries) in
    if is_some (GoMap.lookup p.id entries) then skipped else prepend (pending_of p found.1) added

abbrev pub same_settings : Settings → Settings → Bool
same_settings a b = leb_ℤ a.baud_rate b.baud_rate && leb_ℤ b.baud_rate a.baud_rate

-- The answer where the profile's entry has a session that awaits traffic, reports or is interrupted, with its
-- settings.
abbrev pub already_open : Settings → Settings → Selection
already_open held asked =
    if ltb_ℤ (pos 0) asked.baud_rate && not (same_settings held asked)
    then Selection.refused Refusal.conflict
    else Selection.kept

abbrev pub unless_open :
    Option Settings → String → String → Settings → List Profile → List Device → Selection
unless_open none profile_id explicit asked profiles devices =
    select profile_id explicit asked profiles devices
unless_open (some held) profile_id explicit asked profiles devices = already_open held asked

-- ConnectProfile up to the device that it opens, where store and inventory answer.
unfoldable pub connect_profile :
    Bool
    → Bool
    → Option Settings
    → String
    → String
    → Settings
    → List Profile
    → List Device
    → Selection
connect_profile configured closed session profile_id explicit asked profiles devices =
    if not configured
    then Selection.refused Refusal.disabled
    else if closed
    then Selection.refused Refusal.closed
    else unless_open session profile_id explicit asked profiles devices
