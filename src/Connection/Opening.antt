-- ===== src/Connection/Opening.antt =====
-- internal/connection/manager.go: what ConnectProfile and the start of the server open.
use mathlib.Core.Path.{subst}
use yalb_link.Prelude.{
  Has, ◌⊎◌, Bool, ltb_ℤ, leb_ℤ, pos, ◌&&◌, not, sym, is_some, string_eq, str_eq, false, ◌++◌,
  str_eq_iff, ◌≡◌, ◌∙◌, ap, refl, true, Option, none, some, List, [], ◌∷◌, String, arith,
  Bool-cases, inl, inr,
}
use yalb_link.Connection.Profiles.{Device, Profile, Settings, find_profile}
use yalb_link.GoMap
use yalb_link.GoMap.{GoMap}
use yalb_link.Connection.Startup.{
  Entry, Pending, by_intent, by_matches, connect_profile, entry_of, intent_connected, pending_of,
  prepend, resolve_profiles, same_settings,
}
use yalb_link.Connection.Select.{Selection, effective, match_identity, select}
use yalb_link.Connection.Chosen.{Single, only-Single, select-Single}

-- The device and settings that the Manager opens for a saved profile without an explicit choice: in
-- ConnectProfile, with the settings of the request, and at the start of the server.
pub data Opened (profiles : List Profile) (devices : List Device)
    : Option Settings → Device → Settings → Type 0 where
  connects :
      (configured closed : Bool) (session : Option Settings) (profile_id : String)
      (asked : Settings) {d : Device} {s : Settings}
      → connect_profile configured closed session profile_id "" asked profiles devices
        ≡ Selection.opens d s
      → Opened profiles devices (some asked) d s
  starts :
      (entries : GoMap String Entry) (c : Pending)
      → Has c (resolve_profiles (some devices) profiles entries).1
      → Opened profiles devices none c.device c.settings

-- ConnectProfile opens at a rate between 1 and 4000000, that of the request or of the profile; the start opens
-- what was connected before, with the settings of the profile.
abbrev pub Granted : Profile → Settings → Option Settings → Type 0
Granted p s none = (p.intent ≡ "CONNECTED") × (s ≡ p.settings)
Granted p s (some asked) =
    ((ltb_ℤ (pos 0) s.baud_rate ≡ true) × (leb_ℤ s.baud_rate (pos 4000000) ≡ true))
    × ((s ≡ asked) ⊎ (s ≡ p.settings))

abbrev pub Chosen : List Profile → List Device → Option Settings → Device → Settings → Type 0
Chosen profiles devices asked d s =
    (p : Profile) × Has p profiles × Single p.device devices d × Granted p s asked

find-Has : (id : String) (ps : List Profile) (p : Profile) → find_profile id ps ≡ some p → Has p ps
unfolding find_profile
find-Has id [] p h = absurd (cc)
find-Has id (q ∷ ps) p h = elim (Bool-cases (str_eq q.id id)) [
  | inl hit ↦ inl (cc (rw hit at h))
  | inr miss ↦ inr (find-Has id ps p (rw miss at h))
]

effective-or :
    (asked : Settings) (p : Profile)
    → (effective asked p ≡ asked) ⊎ (effective asked p ≡ p.settings)
effective-or asked p = elim (Bool-cases (leb_ℤ asked.baud_rate (pos 0))) [
  | inl unset ↦ inr (rw unset refl)
  | inr given ↦ inl (rw given refl)
]

select-Chosen :
    (profile_id : String) (asked s : Settings) (profiles : List Profile) (devices : List Device)
    (d : Device)
    → select profile_id "" asked profiles devices ≡ Selection.opens d s
    → Chosen profiles devices (some asked) d s
select-Chosen profile_id asked s profiles devices d h =
    let (p, found, rated, single, same) = select-Single profile_id asked s profiles devices d h in
    (
      p,
      find-Has profile_id profiles p found,
      single,
      (
        (ground arith, ground arith),
        elim (effective-or asked p) [ inl e ↦ inl (same ∙ e) | inr e ↦ inr (same ∙ e) ],
      ),
    )

connect-Chosen :
    (configured closed : Bool) (session : Option Settings) (profile_id : String)
    (asked s : Settings) (profiles : List Profile) (devices : List Device) (d : Device)
    → connect_profile configured closed session profile_id "" asked profiles devices
      ≡ Selection.opens d s
    → Chosen profiles devices (some asked) d s
unfolding connect_profile
connect-Chosen false closed session profile_id asked s profiles devices d h = absurd (cc)
connect-Chosen true true session profile_id asked s profiles devices d h = absurd (cc)
connect-Chosen true false none profile_id asked s profiles devices d h =
    select-Chosen profile_id asked s profiles devices d h
connect-Chosen true false (some held) profile_id asked s profiles devices d h =
    elim (Bool-cases (ltb_ℤ (pos 0) asked.baud_rate && not (same_settings held asked))) [
      | inl conflict ↦ absurd (cc (rw conflict at h))
      | inr same ↦ absurd (cc (rw same at h))
    ]

matched-Single :
    (p : Profile) (devices found : List Device) (c : Pending)
    → match_identity p.device devices ≡ found
    → Has c (pending_of p (by_matches found).1)
    → Single p.device devices c.device × (c.settings ≡ p.settings)
matched-Single p devices [] c e h = absurd h
matched-Single p devices (d ∷ []) c e (inl same) =
    let single = only-Single p.settings p.settings p.device d devices (d ∷ []) e refl in
    (
      subst (Single p.device devices) (ap (λ x. x.device) same) single.0,
      sym (ap (λ x. x.settings) same),
    )
matched-Single p devices (d ∷ []) c e (inr h) = absurd h
matched-Single p devices (d ∷ x ∷ ds) c e h = absurd h

pending-Chosen :
    (p : Profile) (ps : List Profile) (devices : List Device) (c : Pending)
    → Has c (pending_of p (by_intent p (some devices)).1)
    → Chosen (p ∷ ps) devices none c.device c.settings
pending-Chosen p ps devices c h = elim (Bool-cases (str_eq p.intent intent_connected)) [
  | inr other ↦ absurd (rw other at h)
  | inl before ↦
      let opened =
        matched-Single p devices (match_identity p.device devices) c refl (rw before at h) in
      (p, inl refl, opened.0, ((str_eq_iff p.intent "CONNECTED").0 before, opened.1))
]

Has-split : {A : Type 0} (a : A) (xs ys : List A) → Has a (xs ++ ys) → Has a xs ⊎ Has a ys
Has-split a [] ys h = inr h
Has-split a (x ∷ xs) ys (inl h) = inl (inl h)
Has-split a (x ∷ xs) ys (inr h) = elim (Has-split a xs ys h) [ inl k ↦ inl (inr k) | inr k ↦ inr k ]

prepend-later :
    (cs : List Pending) (x : GoMap String Entry × List Pending) → (prepend cs x).1 ≡ cs ++ x.1
prepend-later cs (entries, later) = refl

started-Chosen :
    (devices : List Device) (ps : List Profile) (entries : GoMap String Entry) (c : Pending)
    → Has c (resolve_profiles (some devices) ps entries).1
    → Chosen ps devices none c.device c.settings
unfolding resolve_profiles
started-Chosen devices [] entries c h = absurd h
started-Chosen devices (p ∷ ps) entries c h =
    elim (Bool-cases (is_some (GoMap.lookup p.id entries))) [
      | inl known ↦ later (started-Chosen devices ps entries c (rw known at h))
      | inr fresh ↦
          let found = by_intent p (some devices) in
          let next = GoMap.insert p.id (entry_of p found.0) entries in
          let all : Has c
              (prepend (pending_of p found.1) (resolve_profiles (some devices) ps next)).1 =
            rw fresh at h in
          elim (Has-split c (pending_of p found.1) _ (
            subst (Has c)
              (prepend-later (pending_of p found.1) (resolve_profiles (some devices) ps next))
              all)) [
                | inl here ↦ pending-Chosen p ps devices c here
                | inr rest ↦ later (started-Chosen devices ps next c rest)
              ]
    ]
  where
    later :
        {d : Device} {s : Settings} → Chosen ps devices none d s → Chosen (p ∷ ps) devices none d s
    later (q, stands, single, granted) = (q, inr stands, single, granted)

-- Without an explicit choice the Manager opens, in ConnectProfile and at the start of the server, only a serial
-- device of the inventory that has the serial number, vendor and product of a saved profile, all three known,
-- and only if no other serial device has. ConnectProfile opens it at a rate between 1 and 4000000, that of the
-- request or of the profile; the start opens it only if the profile was connected, with its settings.
pub Opened-Chosen :
    (profiles : List Profile) (devices : List Device) (asked : Option Settings) (d : Device)
    (s : Settings)
    → Opened profiles devices asked d s
    → Chosen profiles devices asked d s
Opened-Chosen profiles devices _ d s (connects configured closed session profile_id asked h) =
    connect-Chosen configured closed session profile_id asked s profiles devices d h
Opened-Chosen profiles devices _ _ _ (starts entries c h) =
    started-Chosen devices profiles entries c h
