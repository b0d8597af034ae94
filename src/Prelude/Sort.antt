-- ===== src/Prelude/Sort.antt =====
-- Sorting, for the standard library's slices.SortFunc, slices.Sorted and sort.Slice: the program sorts
-- only by orders in which no two of its entries are equal, so the result does not depend on the method.
use mathlib.Core.Path.{◌≡◌}
use mathlib.Core.Bool.{Bool, true, false}
use mathlib.Core.Logic.{inl, inr}
use mathlib.Core.List.{List, [], ◌∷◌, Perm}
use mathlib.Core.List.Perm
use yalb_link.Prelude.Tests.{if◌then◌else◌, Bool-cases}
use yalb_link.Prelude.Lists.{All}

module _ {ℓ} {A : Type ℓ} where
  unfoldable pub place : (A → A → Bool) → A → List A → List A
  place le a [] = a ∷ []
  place le a (x ∷ xs) = let later = place le a xs in if le a x then a ∷ x ∷ xs else x ∷ later

  unfoldable pub sort : (A → A → Bool) → List A → List A
  unfolding place
  sort le [] = []
  sort le (x ∷ xs) = place le x (sort le xs)

  place-perm : (le : A → A → Bool) (a : A) (xs : List A) → Perm (place le a xs) (a ∷ xs)
  unfolding place
  place-perm le a [] = Perm.refl _
  place-perm le a (x ∷ xs) = elim (Bool-cases (le a x)) [
    | inl h ↦ rw h (Perm.refl _)
    | inr h ↦ rw h (Perm.trans (Perm.cons x (place-perm le a xs)) (Perm.swap a x xs))
  ]

  pub sort-perm : (le : A → A → Bool) (xs : List A) → Perm (sort le xs) xs
  unfolding sort
  sort-perm le [] = Perm.refl _
  sort-perm le (x ∷ xs) = Perm.trans (place-perm le x (sort le xs)) (Perm.cons x (sort-perm le xs))

  -- Each entry comes before all that follow it.
  abbrev pub IsSorted : (A → A → Bool) → List A → Type ℓ
  IsSorted le [] = Unit
  IsSorted le (x ∷ xs) = All (λ y. le x y ≡ true) xs × IsSorted le xs

module _ {ℓ} {A : Type ℓ} (le : A → A → Bool) (total : (a b : A) → le a b ≡ false → le b a ≡ true)
    (trans : (a b c : A) → le a b ≡ true → le b c ≡ true → le a c ≡ true) where
  All-le_trans :
      (a x : A) (xs : List A)
      → le a x ≡ true
      → All (λ y. le x y ≡ true) xs
      → All (λ y. le a y ≡ true) xs
  All-le_trans a x [] h all = tt
  All-le_trans a x (y ∷ ys) h all = (trans a x y h all.0, All-le_trans a x ys h all.1)

  All-place :
      (b a : A) (xs : List A)
      → le b a ≡ true
      → All (λ y. le b y ≡ true) xs
      → All (λ y. le b y ≡ true) (place le a xs)
  unfolding place
  All-place b a [] h all = (h, tt)
  All-place b a (x ∷ xs) h all = elim (Bool-cases (le a x)) [
    | inl first ↦ rw first (h, all)
    | inr later ↦ rw later (all.0, All-place b a xs h all.1)
  ]

  place-IsSorted : (a : A) (xs : List A) → IsSorted le xs → IsSorted le (place le a xs)
  unfolding place
  place-IsSorted a [] s = (tt, tt)
  place-IsSorted a (x ∷ xs) s = elim (Bool-cases (le a x)) [
    | inl first ↦ rw first ((first, All-le_trans a x xs first s.0), s)
    | inr later ↦ rw later (All-place x a xs (total a x later) s.0, place-IsSorted a xs s.1)
  ]

  pub sort-IsSorted : (xs : List A) → IsSorted le (sort le xs)
  unfolding sort
  sort-IsSorted [] = tt
  sort-IsSorted (x ∷ xs) = place-IsSorted x (sort le xs) (sort-IsSorted xs)
