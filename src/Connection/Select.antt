-- ===== src/Connection/Select.antt =====
-- internal/connection: which device a saved profile stands for, and whether ConnectProfile opens it.
use yalb_link.Prelude.{
  Bool, not, ◌&&◌, Option, none, some, List, [], ◌∷◌, if◌then◌else◌, String, str_eq, ℤ, pos, leb_ℤ,
  ltb_ℤ,
}
use yalb_link.Connection.Profiles.{Device, Profile, Settings, find_profile}

-- The fields that identify a device are present, and the same.
abbrev pub is_identified : Device → Bool
is_identified d =
    not (str_eq d.serial_number "") && (not (str_eq d.vid "") && not (str_eq d.pid ""))

abbrev pub is_match : Device → Device → Bool
is_match target d =
    str_eq d.kind "serial"
    && (str_eq d.serial_number target.serial_number
        && (str_eq d.vid target.vid && str_eq d.pid target.pid))

unfoldable pub matching : Device → List Device → List Device
matching target [] = []
matching target (d ∷ ds) =
    let rest = matching target ds in if is_match target d then d ∷ rest else rest

-- matchIdentity
unfoldable pub match_identity : Device → List Device → List Device
unfolding matching
match_identity target candidates = if is_identified target then matching target candidates else []

pub data Refusal : Type 0 where
  settings missing ambiguous profile_not_found conflict disabled closed : Refusal

pub data Selection : Type 0 where
  kept : Selection
  refused : Refusal → Selection
  opens : Device → Settings → Selection

-- The serial device with an id that the operator gave.
unfoldable pub find_device : String → List Device → Option Device
find_device id [] = none
find_device id (d ∷ ds) =
    let rest = find_device id ds in
    if str_eq d.id id && str_eq d.kind "serial" then some d else rest

abbrev pub only : Settings → List Device → Selection
only effective [] = Selection.refused missing
only effective (d ∷ []) = Selection.opens d effective
only effective _ = Selection.refused ambiguous

abbrev pub given : Settings → Option Device → Selection
given effective none = Selection.refused missing
given effective (some d) =
    if str_eq d.id "" then Selection.refused missing else Selection.opens d effective

abbrev pub is_rate : ℤ → Bool
is_rate rate = ltb_ℤ (pos 0) rate && leb_ℤ rate (pos 4000000)

-- The settings of the request, or else those of the profile.
abbrev pub effective : Settings → Profile → Settings
effective asked p = if leb_ℤ asked.baud_rate (pos 0) then p.settings else asked

abbrev pub select_for : String → Settings → List Device → Option Profile → Selection
select_for explicit asked devices none = Selection.refused profile_not_found
select_for explicit asked devices (some p) =
    let rate = effective asked p in
    if not (is_rate rate.baud_rate)
    then Selection.refused settings
    else if str_eq explicit ""
    then only rate (match_identity p.device devices)
    else given rate (find_device explicit devices)

-- ConnectProfile, from the loaded profiles and the inventory to the device that it opens.
unfoldable pub select : String → String → Settings → List Profile → List Device → Selection
unfolding match_identity find_device find_profile
select profile_id explicit asked profiles devices =
    select_for explicit asked devices (find_profile profile_id profiles)
