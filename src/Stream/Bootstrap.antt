-- ===== src/Stream/Bootstrap.antt =====
-- What the snapshot of internal/stream/hub.go holds: everything retained.
use mathlib.Core.Path.{subst}
use yalb_link.Prelude.{
  Has, ◌≡◌, ◌∙◌, ap, inl, inr, refl, Bool, true, false, Option, none, some, List, [], ◌∷◌, ◌++◌,
  arith, if◌then◌else◌, Bool-cases, Option-cases, Eq, String, string_eq, str_le, sort, place,
  is_some,
}
use yalb_link.GoMap
use yalb_link.GoMap.{GoMap}
use yalb_link.Proto.{FleetEvent}
use yalb_link.Proto.Telemetry.{TelemetryEvent}
use yalb_link.Stream.Hub.{
  Event, VehicleKey, key_beq, key_beq_iff, key_eq, key_le, Hub, gather, unannounced, sorted_keys,
  families_of, telemetry_of, snapshot,
}

module _ {A : Type 0} (a : A) where
  Has-left : (xs ys : List A) → Has a xs → Has a (xs ++ ys)
  Has-left [] ys h = absurd h
  Has-left (x ∷ xs) ys (inl h) = inl h
  Has-left (x ∷ xs) ys (inr h) = inr (Has-left xs ys h)

  Has-right : (xs ys : List A) → Has a ys → Has a (xs ++ ys)
  Has-right [] ys h = h
  Has-right (x ∷ xs) ys h = inr (Has-right xs ys h)

  either-Has : (b : Bool) (xs ys : List A) → Has a xs → Has a ys → Has a (if b then xs else ys)
  either-Has true xs ys h k = h
  either-Has false xs ys h k = k

  Has-place_self : (le : A → A → Bool) (xs : List A) → Has a (place le a xs)
  unfolding place
  Has-place_self le [] = inl refl
  Has-place_self le (x ∷ xs) = either-Has (le a x) _ _ (inl refl) (inr (Has-place_self le xs))

  Has-place : (le : A → A → Bool) (b : A) (xs : List A) → Has a xs → Has a (place le b xs)
  unfolding place
  Has-place le b [] h = absurd h
  Has-place le b (x ∷ xs) (inl h) = either-Has (le b x) _ _ (inr (inl h)) (inl h)
  Has-place le b (x ∷ xs) (inr h) =
      either-Has (le b x) _ _ (inr (inr h)) (inr (Has-place le b xs h))

Has-sort : {A : Type 0} (le : A → A → Bool) (a : A) (xs : List A) → Has a xs → Has a (sort le xs)
unfolding sort
Has-sort le a [] h = absurd h
Has-sort le a (x ∷ xs) (inl h) =
    subst (λ b. Has b (place le x (sort le xs))) h (Has-place_self x le (sort le xs))
Has-sort le a (x ∷ xs) (inr h) = Has-place a le x (sort le xs) (Has-sort le a xs h)

step-Has :
    {V : Type 0} (f : V → Event) (ev : Event) (found : Option V) (later : List Event)
    → Has ev later
    → Has ev (elim found [ none ↦ later | some v ↦ f v ∷ later ])
step-Has f ev none later h = h
step-Has f ev (some v) later h = inr h

found-Has :
    {V : Type 0} (f : V → Event) (found : Option V) (later : List Event) {v : V}
    → found ≡ some v
    → Has (f v) (elim found [ none ↦ later | some w ↦ f w ∷ later ])
found-Has f none later h = absurd (cc)
found-Has f (some w) later {v} h = inl (ap f (cc))

module _ {K V : Type 0} ⦃e : Eq K⦄ where
  lookup-Has : (k : K) (m : GoMap K V) {v : V} → GoMap.lookup k m ≡ some v → Has k (GoMap.keys m)
  unfolding GoMap.lookup
  lookup-Has k [] h = absurd (cc)
  lookup-Has k ((j, w) ∷ m) {v} h = elim (Bool-cases (e.beq j k)) [
    | inl hit ↦ inl ((e.beq_iff j k).0 hit)
    | inr miss ↦ inr (lookup-Has k m {v = v} (ground arith))
  ]

  gather-Has :
      (f : V → Event) (m : GoMap K V) (k : K) (ks : List K) {v : V}
      → Has k ks
      → GoMap.lookup k m ≡ some v
      → Has (f v) (gather f m ks)
  unfolding gather
  gather-Has f m k [] h q = absurd h
  gather-Has f m k (j ∷ ks) (inl h) q =
      found-Has f (GoMap.lookup j m) _ (ap (λ i. GoMap.lookup i m) h ∙ q)
  gather-Has f m k (j ∷ ks) (inr h) q = step-Has f _ (GoMap.lookup j m) _ (gather-Has f m k ks h q)

either_list-Has :
    {A : Type 0} (a : A) (b : Bool) (xs ys : List A)
    → Has a ys
    → (b ≡ true → Has a xs)
    → Has a (if b then xs else ys)
either_list-Has a true xs ys h k = k refl
either_list-Has a false xs ys h k = h

unannounced-Has :
    (k : VehicleKey) (known : GoMap VehicleKey FleetEvent)
    (m : GoMap VehicleKey (GoMap String TelemetryEvent)) {families : GoMap String TelemetryEvent}
    → GoMap.lookup k known ≡ none
    → GoMap.lookup k m ≡ some families
    → Has k (unannounced known m)
unfolding unannounced GoMap.lookup
unannounced-Has k known [] u h = absurd (cc)
unannounced-Has k known ((j, w) ∷ m) {families} u h = elim (Bool-cases (key_beq j k)) [
  | inl hit ↦
      either_list-Has k (is_some (GoMap.lookup j known)) (unannounced known m)
        (j ∷ unannounced known m) (inl ((key_beq_iff j k).0 hit))
        (λ seen. absurd (ground (arith, key_beq_iff j k)))
  | inr miss ↦
      let rest = unannounced-Has k known m {families = families} u (ground arith) in
      either-Has k (is_some (GoMap.lookup j known)) (unannounced known m) (j ∷ unannounced known m)
        rest (inr rest)
]

known-Has :
    (k : VehicleKey) (h : Hub) {ev : FleetEvent}
    → GoMap.lookup k h.fleet ≡ some ev
    → Has k (sorted_keys h)
unfolding sorted_keys
known-Has k h q = Has-sort key_le k _ (Has-left k (GoMap.keys h.fleet) _ (lookup-Has k h.fleet q))

sorted_keys-Has :
    (k : VehicleKey) (h : Hub) {families : GoMap String TelemetryEvent}
    → GoMap.lookup k h.telemetry ≡ some families
    → Has k (sorted_keys h)
unfolding sorted_keys
sorted_keys-Has k h q = Has-sort key_le k _ (elim (Option-cases (GoMap.lookup k h.fleet)) [
  | inl unknown ↦
      Has-right k (GoMap.keys h.fleet) _ (unannounced-Has k h.fleet h.telemetry unknown q)
  | inr (ev, known) ↦ Has-left k (GoMap.keys h.fleet) _ (lookup-Has k h.fleet known)
])

telemetry_of-Has :
    (h : Hub) (k : VehicleKey) (family : String) (ks : List VehicleKey)
    {families : GoMap String TelemetryEvent} {ev : TelemetryEvent}
    → Has k ks
    → GoMap.lookup k h.telemetry ≡ some families
    → GoMap.lookup family families ≡ some ev
    → Has (Event.telemetry ev) (telemetry_of h ks)
unfolding telemetry_of
telemetry_of-Has h k family [] i q r = absurd i
telemetry_of-Has h k family (j ∷ ks) {families} {ev} (inl i) q r =
    let here = ap families_of (ap (λ l. GoMap.lookup l h.telemetry) i ∙ q) in
    let found = ap (GoMap.lookup family) here ∙ r in
    Has-left _ (gather Event.telemetry (families_of (GoMap.lookup j h.telemetry)) _) _ (
      gather-Has Event.telemetry _ family _
        (Has-sort str_le family _
          (lookup-Has family (families_of (GoMap.lookup j h.telemetry)) found))
        found)
telemetry_of-Has h k family (j ∷ ks) (inr i) q r =
    Has-right _ (gather Event.telemetry (families_of (GoMap.lookup j h.telemetry)) _) _
      (telemetry_of-Has h k family ks i q r)

-- What the hub retains: the fleet event of a vehicle, the telemetry event of a family of a vehicle, the status
-- of an acquisition.
pub data Retained (h : Hub) : Event → Type 0 where
  of_fleet :
      (k : VehicleKey) {ev : FleetEvent}
      → GoMap.lookup k h.fleet ≡ some ev
      → Retained h (Event.fleet ev)
  of_telemetry :
      (k : VehicleKey) (family : String) {families : GoMap String TelemetryEvent}
      {ev : TelemetryEvent}
      → GoMap.lookup k h.telemetry ≡ some families
      → GoMap.lookup family families ≡ some ev
      → Retained h (Event.telemetry ev)
  of_acquisition :
      (id : String) {json : String}
      → GoMap.lookup id h.acquisition ≡ some json
      → Retained h (Event.acquisition json)

-- The snapshot holds everything the hub retains, each entry whatever else there is: the fleet event of every
-- vehicle that has one, the telemetry event of every family of every vehicle, also of one without a fleet
-- event, and the status of every acquisition.
pub bootstrap_complete : (h : Hub) (ev : Event) → Retained h ev → Has ev (snapshot h)
unfolding snapshot
bootstrap_complete h ev (of_fleet k known) =
    Has-left ev (gather Event.fleet h.fleet (sorted_keys h) ++ telemetry_of h (sorted_keys h)) _ (
      Has-left ev (gather Event.fleet h.fleet (sorted_keys h)) _
        (gather-Has Event.fleet h.fleet k (sorted_keys h) (known-Has k h known) known))
bootstrap_complete h ev (of_telemetry j family told held) =
    Has-left ev (gather Event.fleet h.fleet (sorted_keys h) ++ telemetry_of h (sorted_keys h)) _ (
      Has-right ev (gather Event.fleet h.fleet (sorted_keys h)) _
        (telemetry_of-Has h j family (sorted_keys h) (sorted_keys-Has j h told) told held))
bootstrap_complete h ev (of_acquisition id listed) =
    Has-right ev (gather Event.fleet h.fleet (sorted_keys h) ++ telemetry_of h (sorted_keys h)) _ (
      gather-Has Event.acquisition h.acquisition id _
        (Has-sort str_le id _ (lookup-Has id h.acquisition listed)) listed)
