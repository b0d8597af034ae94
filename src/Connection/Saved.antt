-- ===== src/Connection/Saved.antt =====
-- internal/connection/profile_store.go: what is in the document after an operation.
use mathlib.Core.Path.{subst}
use yalb_link.Prelude.{
  ap, sym, ℕ, ◌≡◌, ◌∙◌, refl, Bool, true, false, Option, none, some, List, [], ◌∷◌, ◌++◌,
  if◌then◌else◌, String, str_eq, str_eq_iff, is_some, arith, Bool-cases, inl, inr,
}
use yalb_link.Connection.Atomic.{Ended, persist_atomic}
use yalb_link.Connection.Profiles.{
  Disk, Faults, persist_steps, Document, File, Json, Profile, Result, answered, any_incomplete,
  change_loaded, checked, created, delete, find_profile, is_incomplete, load, persist,
  remove_profile, revised, save, save_found, save_loaded, update_intent, update_profile,
  with_intent,
}

-- A result that is an error comes with the file as it was.
abbrev pub Kept : {A : Type 0} → File → File × Result A → Type 0
Kept file (after, Result.failed e) = after ≡ file
Kept file (after, Result.ok a) = Unit

Ended-Kept :
    (file new : File) (disk : Disk) (result : Result (Unit {0}))
    → Ended file new disk result
    → Kept file (disk.document, result)
Ended-Kept file new disk (Result.ok done) h = tt
Ended-Kept file new disk (Result.failed e) h = ap (λ d. d.document) h

persist-Kept :
    (json : Json) (faults : Faults) (ps : List Profile) (file : File)
    → Kept file (persist json faults ps file)
unfolding persist
persist-Kept json faults ps file = Ended-Kept file _ _ _ (persist_atomic json faults ps file).1

answered-Kept :
    {A : Type 0} (a : A) (file : File) (x : File × Result (Unit {0}))
    → Kept file x
    → Kept file (answered a x)
answered-Kept a file (after, Result.ok done) h = tt
answered-Kept a file (after, Result.failed e) h = h

if-Kept :
    {A : Type 0} (file : File) (b : Bool) (x y : File × Result A)
    → Kept file x
    → Kept file y
    → Kept file (if b then x else y)
if-Kept file true x y h k = h
if-Kept file false x y h k = k

save_found-Kept :
    (json : Json) (faults : Faults) (now : ℕ) (p : Profile) (ps : List Profile) (file : File)
    (found : Option Profile)
    → Kept file (save_found json faults now p ps file found)
save_found-Kept json faults now p ps file none = refl
save_found-Kept json faults now p ps file (some existing) =
    answered-Kept _ file (persist json faults (update_profile p.id (revised now p) ps) file)
      (persist-Kept json faults _ file)

save_loaded-Kept :
    (json : Json) (faults : Faults) (drawn : String) (now : ℕ) (p : Profile) (file : File)
    (loaded : Result (List Profile))
    → Kept file (save_loaded json faults drawn now p file loaded)
save_loaded-Kept json faults drawn now p file (Result.failed e) = refl
save_loaded-Kept json faults drawn now p file (Result.ok ps) =
    if-Kept file (str_eq p.id "")
      (answered (created drawn now p) (persist json faults (ps ++ (created drawn now p ∷ [])) file))
      (save_found json faults now p ps file (find_profile p.id ps))
      (answered-Kept _ file (persist json faults (ps ++ (created drawn now p ∷ [])) file)
        (persist-Kept json faults _ file))
      (save_found-Kept json faults now p ps file (find_profile p.id ps))

change_loaded-Kept :
    (json : Json) (faults : Faults) (id : String) (f : List Profile → List Profile) (file : File)
    (loaded : Result (List Profile))
    → Kept file (change_loaded json faults id f file loaded)
change_loaded-Kept json faults id f file (Result.failed e) = refl
change_loaded-Kept json faults id f file (Result.ok ps) =
    if-Kept file (is_some (find_profile id ps)) (persist json faults (f ps) file) _
      (persist-Kept json faults (f ps) file) refl

-- Saving, deleting and changing the intent of a profile leave the file as it was whenever they return an
-- error, whichever it is.
pub error-Kept :
    (json : Json) (unread : Bool) (faults : Faults) (drawn id intent : String) (now : ℕ)
    (p : Profile) (file : File)
    → Kept file (save json unread faults drawn now p file)
      × Kept file (delete json unread faults id file)
      × Kept file (update_intent json unread faults id intent now file)
unfolding save delete update_intent
error-Kept json unread faults drawn id intent now p file = (
  save_loaded-Kept json faults drawn now p file (load json unread file),
  change_loaded-Kept json faults id (remove_profile id) file (load json unread file),
  change_loaded-Kept json faults id (update_profile id (with_intent intent now)) file
      (load json unread file),
)

Ended-document :
    (file new after : File) (disk : Disk) (result : Result (Unit {0}))
    → Ended file new disk result
    → ◌≡◌ {A = File × Result (Unit {0})} (disk.document, result) (after, Result.ok tt)
    → (bytes : List ℕ) × (new ≡ some bytes) × (after ≡ some bytes)
Ended-document file new after disk (Result.failed e) h k = absurd (cc)
Ended-document file none after disk (Result.ok done) h k = absurd (h.1 refl)
Ended-document file (some bytes) after disk (Result.ok done) h k =
    let left : disk.document ≡ after = ap (λ x. x.0) k in
    (bytes, refl, sym left ∙ ap (λ d. d.document) h.0)

-- What was put back is loaded again.
persist-load :
    (json : Json) (faults : Faults) (ps : List Profile) (file after : File)
    → persist json faults ps file ≡ (after, Result.ok tt)
    → any_incomplete ps ≡ false
    → load json false after ≡ Result.ok ps
unfolding persist load
persist-load json faults ps file after h c =
    let doc : Document = record { version = 1; profiles = ps } in
    let done = persist_steps json faults ps file in
    let (bytes, encoded, left) =
      Ended-document file (json.marshal doc) after done.disk done.result
        (persist_atomic json faults ps file).1 h in
    let loaded : load json false (some bytes) ≡ Result.ok ps =
      rw (json.reads_back doc bytes encoded, c) refl in
    subst (λ a. load json false a ≡ Result.ok ps) (sym left) loaded

find-append :
    (j : String) (ps : List Profile) (p : Profile)
    → find_profile j ps ≡ none
    → find_profile j (ps ++ (p ∷ [])) ≡ (if str_eq p.id j then some p else none)
unfolding find_profile
find-append j [] p h = refl
find-append j (q ∷ ps) p h = ground (arith, find-append j ps p)

find-append_found :
    (j : String) (ps : List Profile) (p : Profile)
    → str_eq p.id j ≡ false
    → find_profile j (ps ++ (p ∷ [])) ≡ find_profile j ps
unfolding find_profile
find-append_found j [] p h = rw h refl
find-append_found j (q ∷ ps) p h = ground (arith, find-append_found j ps p h)

any_incomplete-append :
    (ps : List Profile) (p : Profile)
    → any_incomplete ps ≡ false
    → is_incomplete p ≡ false
    → any_incomplete (ps ++ (p ∷ [])) ≡ false
unfolding any_incomplete
any_incomplete-append [] p h k = rw k refl
any_incomplete-append (q ∷ ps) p h k = ground (arith, any_incomplete-append ps p)

any_incomplete-update :
    (id : String) (f : Profile → Profile) (ps : List Profile)
    → any_incomplete ps ≡ false
    → ((p : Profile) → is_incomplete (f p) ≡ false)
    → any_incomplete (update_profile id f ps) ≡ false
unfolding any_incomplete update_profile
any_incomplete-update id f [] h k = refl
any_incomplete-update id f (q ∷ ps) h k = ground (arith, any_incomplete-update id f ps, k q)

-- What is found after the first profile with the id was changed.
find-update :
    (id j : String) (f : Profile → Profile) (ps : List Profile) {old : Profile}
    → find_profile id ps ≡ some old
    → ((p : Profile) → (f p).id ≡ id)
    → find_profile j (update_profile id f ps)
      ≡ (if str_eq id j then some (f old) else find_profile j ps)
unfolding find_profile update_profile
find-update id j f [] h k = absurd (cc)
find-update id j f (q ∷ ps) {old} h k = elim (Bool-cases (str_eq q.id id)) [
  | inl hit ↦
      let same : q ≡ old = ground arith in
      ground (arith, k q, str_eq_iff q.id id, str_eq_iff q.id j, str_eq_iff id j)
  | inr miss ↦
      let later : find_profile id ps ≡ some old = ground arith in
      ground (
        arith,
        find-update id j f ps later k,
        str_eq_iff q.id id,
        str_eq_iff q.id j,
        str_eq_iff id j,
      )
]

load_complete :
    (json : Json) (unread : Bool) (file : File) {ps : List Profile}
    → load json unread file ≡ Result.ok ps
    → any_incomplete ps ≡ false
unfolding load any_incomplete
load_complete json true file h = absurd (cc)
load_complete json false none {ps} h =
    let same : [] ≡ ps = cc in subst (λ l. any_incomplete l ≡ false) same refl
load_complete json false (some bytes) {ps} h = found (json.unmarshal bytes) h
  where
    found : (o : Option Document) → checked o ≡ Result.ok ps → any_incomplete ps ≡ false
    found none k = absurd (cc)
    found (some doc) k = ground arith

answered-ok :
    {A : Type 0} (a : A) (x : File × Result (Unit {0})) (after : File) (q : A)
    → answered a x ≡ (after, Result.ok q)
    → (x ≡ (after, Result.ok tt)) × (a ≡ q)
answered-ok a (file, Result.ok done) after q h = (cc, cc)
answered-ok a (file, Result.failed e) after q h = absurd (cc)

-- What a document holds once a profile is in it.
abbrev pub Holds : Json → File → List Profile → Profile → String → Type 0
Holds json after old q j =
    (ps : List Profile) × (load json false after ≡ Result.ok ps)
    × (find_profile j ps ≡ (if str_eq q.id j then some q else find_profile j old))

appended :
    (j : String) (old : List Profile) (q : Profile)
    → find_profile q.id old ≡ none
    → find_profile j (old ++ (q ∷ [])) ≡ (if str_eq q.id j then some q else find_profile j old)
appended j old q fresh = elim (Bool-cases (str_eq q.id j)) [
  | inr other ↦ rw other (find-append_found j old q other)
  | inl same ↦
      let here : q.id ≡ j = (str_eq_iff q.id j).0 same in
      let free : find_profile j old ≡ none = subst (λ i. find_profile i old ≡ none) here fresh in
      find-append j old q free ∙ rw same refl
]

save_new-load :
    (json : Json) (faults : Faults) (p : Profile) (file after : File) (old : List Profile)
    (q : Profile) (j : String)
    → any_incomplete old ≡ false
    → is_incomplete p ≡ false
    → find_profile p.id old ≡ none
    → answered p (persist json faults (old ++ (p ∷ [])) file) ≡ (after, Result.ok q)
    → Holds json after old q j
save_new-load json faults p file after old q j complete named fresh h =
    let stored = answered-ok p (persist json faults (old ++ (p ∷ [])) file) after q h in
    subst (λ x. Holds json after old x j) stored.1
      (
        old ++ (p ∷ []),
        persist-load json faults (old ++ (p ∷ [])) file after stored.0
            (any_incomplete-append old p complete named),
        appended j old p fresh,
      )

save_found-load :
    (json : Json) (faults : Faults) (now : ℕ) (p : Profile) (file after : File) (old : List Profile)
    (q : Profile) (j : String) (found : Option Profile)
    → find_profile p.id old ≡ found
    → any_incomplete old ≡ false
    → is_incomplete p ≡ false
    → save_found json faults now p old file found ≡ (after, Result.ok q)
    → Holds json after old q j
save_found-load json faults now p file after old q j none e complete named h = absurd (cc)
save_found-load json faults now p file after old q j (some existing) e complete named h =
    let ps = update_profile p.id (revised now p) old in
    let stored = answered-ok (revised now p existing) (persist json faults ps file) after q h in
    subst (λ x. Holds json after old x j) stored.1
      (
        ps,
        persist-load json faults ps file after stored.0
            (any_incomplete-update p.id (revised now p) old complete (λ x. named)),
        find-update p.id j (revised now p) old e (λ x. refl),
      )

-- After a profile with a name was saved into a document that loads, the document loads again and holds the
-- profile that was returned, under its id, and every other profile as it was. A new profile's drawn id is
-- not empty and not taken.
pub save-load :
    (json : Json) (unread : Bool) (faults : Faults) (drawn : String) (now : ℕ) (p : Profile)
    (file after : File) (old : List Profile) (q : Profile) (j : String)
    → load json unread file ≡ Result.ok old
    → str_eq p.name "" ≡ false
    → str_eq drawn "" ≡ false
    → find_profile drawn old ≡ none
    → save json unread faults drawn now p file ≡ (after, Result.ok q)
    → Holds json after old q j
unfolding save
save-load json unread faults drawn now p file after old q j loaded named drawn_named fresh h =
    by_id (str_eq p.id "") refl
      (subst (λ l. save_loaded json faults drawn now p file l ≡ (after, Result.ok q)) loaded h)
  where
    complete : any_incomplete old ≡ false
    complete = load_complete json unread file loaded

    by_id :
        (b : Bool)
        → str_eq p.id "" ≡ b
        → (if b
            then answered
                (created drawn now p)
                (persist json faults (old ++ (created drawn now p ∷ [])) file)
            else save_found json faults now p old file (find_profile p.id old))
          ≡ (after, Result.ok q)
        → Holds json after old q j
    by_id true e k =
        save_new-load json faults (created drawn now p) file after old q j complete
          (rw (drawn_named, named) refl) fresh k
    by_id false e k =
        save_found-load json faults now p file after old q j (find_profile p.id old) refl complete
          (rw (e, named) refl) k
