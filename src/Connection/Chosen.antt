-- ===== src/Connection/Chosen.antt =====
-- internal/connection: a saved profile is never opened on a device that merely may be the one.
use mathlib.Core.Path.{subst}
use yalb_link.Prelude.{
  string_eq, All, str_eq, false, ◌≢◌, ◌++◌, str_eq_iff, ◌≡◌, ◌∙◌, ap, refl, true, Option, none,
  some, List, [], ◌∷◌, String, arith, Bool-cases, inl, inr,
}
use yalb_link.Connection.Profiles.{Device, Profile, Settings, find_profile}
use yalb_link.Connection.Startup.{}
use yalb_link.Connection.Select.{
  Selection, effective, is_identified, is_match, is_rate, match_identity, matching, only, select,
  select_for,
}

-- A serial device with the serial number, vendor and product of another.
abbrev pub IsTwin : Device → Device → Type 0
IsTwin target d =
    (d.kind ≡ "serial")
    × (d.serial_number ≡ target.serial_number)
    × (d.vid ≡ target.vid)
    × (d.pid ≡ target.pid)

is_match-IsTwin : (target d : Device) → is_match target d ≡ true → IsTwin target d
is_match-IsTwin target d h =
    let kind : str_eq d.kind "serial" ≡ true = ground arith in
    let serial : str_eq d.serial_number target.serial_number ≡ true = ground arith in
    let vendor : str_eq d.vid target.vid ≡ true = ground arith in
    let product : str_eq d.pid target.pid ≡ true = ground arith in
    (
      (str_eq_iff d.kind "serial").0 kind,
      (str_eq_iff d.serial_number target.serial_number).0 serial,
      (str_eq_iff d.vid target.vid).0 vendor,
      (str_eq_iff d.pid target.pid).0 product,
    )

not_match-IsTwin : (target d : Device) → is_match target d ≡ false → ¬ IsTwin target d
not_match-IsTwin target d h (kind, serial, vendor, product) = ground (
  arith,
  str_eq_iff d.kind "serial",
  str_eq_iff d.serial_number target.serial_number,
  str_eq_iff d.vid target.vid,
  str_eq_iff d.pid target.pid,
)

matching-none :
    (target : Device) (ds : List Device) → matching target ds ≡ [] → All (λ e. ¬ IsTwin target e) ds
unfolding matching
matching-none target [] h = tt
matching-none target (e ∷ es) h = elim (Bool-cases (is_match target e)) [
  | inl hit ↦ absurd (cc (rw hit at h))
  | inr miss ↦ (not_match-IsTwin target e miss, matching-none target es (rw miss at h))
]

-- A device is the one twin of another in a list.
abbrev pub OneTwin : Device → List Device → Device → Type 0
OneTwin target devices d =
    (before : List Device) × (after : List Device) × (devices ≡ before ++ (d ∷ after))
    × IsTwin target d
    × All (λ e. ¬ IsTwin target e) before
    × All (λ e. ¬ IsTwin target e) after

matching-OneTwin :
    (target d : Device) (ds : List Device) → matching target ds ≡ d ∷ [] → OneTwin target ds d
unfolding matching
matching-OneTwin target d [] h = absurd (cc)
matching-OneTwin target d (e ∷ es) h = elim (Bool-cases (is_match target e)) [
  | inl hit ↦
      let found : e ∷ matching target es ≡ d ∷ [] = rw hit at h in
      let same : e ≡ d = cc in
      let rest : matching target es ≡ [] = cc in
      (
        [],
        es,
        ap (λ x. x ∷ es) same,
        subst (IsTwin target) same (is_match-IsTwin target e hit),
        tt,
        matching-none target es rest,
      )
  | inr miss ↦
      let later = matching-OneTwin target d es (rw miss at h) in
      (
        e ∷ later.0,
        later.1,
        ap (λ l. e ∷ l) later.2,
        later.3,
        (not_match-IsTwin target e miss, later.4),
        later.5,
      )
]

-- What a profile alone may open: the one twin of its device, whose serial number, vendor and product are known.
abbrev pub Single : Device → List Device → Device → Type 0
Single target devices d =
    (target.serial_number ≢ "") × (target.vid ≢ "") × (target.pid ≢ "") × OneTwin target devices d

pub only-Single :
    (rate s : Settings) (target d : Device) (devices found : List Device)
    → match_identity target devices ≡ found
    → only rate found ≡ Selection.opens d s
    → Single target devices d × (s ≡ rate)
unfolding match_identity
only-Single rate s target d devices [] e h = absurd (cc)
only-Single rate s target d devices (x ∷ []) e h = elim (Bool-cases (is_identified target)) [
  | inr bare ↦ absurd (cc (rw bare at e))
  | inl identified ↦
      let all : matching target devices ≡ x ∷ [] = rw identified at e in
      let same : x ≡ d = cc in
      (
        (
          ground (arith, str_eq_iff target.serial_number ""),
          ground (arith, str_eq_iff target.vid ""),
          ground (arith, str_eq_iff target.pid ""),
          matching-OneTwin target d devices (all ∙ ap (λ y. y ∷ []) same),
        ),
        cc,
      )
]
only-Single rate s target d devices (x ∷ y ∷ ds) e h = absurd (cc)

select_for-Single :
    (asked s : Settings) (devices : List Device) (d : Device) (found : Option Profile)
    → select_for "" asked devices found ≡ Selection.opens d s
    → (p : Profile) × (found ≡ some p)
      × (is_rate s.baud_rate ≡ true)
      × Single p.device devices d
      × (s ≡ effective asked p)
select_for-Single asked s devices d none h = absurd (cc)
select_for-Single asked s devices d (some p) h =
    elim (Bool-cases (is_rate (effective asked p).baud_rate)) [
      | inr bad ↦ absurd (cc (rw bad at h))
      | inl good ↦
          let chosen =
            only-Single (effective asked p) s p.device d devices (match_identity p.device devices)
              refl (rw good at h) in
          (p, refl, ap (λ x. is_rate x.baud_rate) chosen.1 ∙ good, chosen.0, chosen.1)
    ]

-- Without an explicit choice, a saved profile is opened only on a serial device of the inventory that has its
-- serial number, vendor and product, all three known, and only if no other serial device has; and at a valid
-- rate, that of the request or else that of the profile.
pub select-Single :
    (profile_id : String) (asked s : Settings) (profiles : List Profile) (devices : List Device)
    (d : Device)
    → select profile_id "" asked profiles devices ≡ Selection.opens d s
    → (p : Profile) × (find_profile profile_id profiles ≡ some p)
      × (is_rate s.baud_rate ≡ true)
      × Single p.device devices d
      × (s ≡ effective asked p)
unfolding select
select-Single profile_id asked s profiles devices d h =
    select_for-Single asked s devices d (find_profile profile_id profiles) h
