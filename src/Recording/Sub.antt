-- ===== src/Recording/Sub.antt =====
-- Subsequences, and what `keep` does to lists: used for the records of internal/recording.
use mathlib.Core.Path.{subst}
use yalb_link.Prelude.{◌≡◌, refl, Bool, true, false, List, [], ◌∷◌, ◌++◌, arith, if◌then◌else◌}
use yalb_link.Recording.Database.{keep}

-- The first list is the second without some of its entries, in the same order.
pub data Sub {A : Type 0} : List A → List A → Type 0 where
  nil : Sub [] []
  both : (x : A) {xs ys : List A} → Sub xs ys → Sub (x ∷ xs) (x ∷ ys)
  skip : (y : A) {xs ys : List A} → Sub xs ys → Sub xs (y ∷ ys)

module _ {A : Type 0} where
  pub Sub-refl : (xs : List A) → Sub xs xs
  Sub-refl [] = Sub.nil
  Sub-refl (x ∷ xs) = Sub.both x (Sub-refl xs)

  pub Sub-nil : (xs : List A) → Sub [] xs
  Sub-nil [] = Sub.nil
  Sub-nil (x ∷ xs) = Sub.skip x (Sub-nil xs)

  pub Sub-eq : {xs ys : List A} → xs ≡ ys → Sub xs ys
  Sub-eq {xs} h = subst (Sub xs) h (Sub-refl xs)

  pub Sub-trans : {ys zs : List A} → Sub ys zs → {xs : List A} → Sub xs ys → Sub xs zs
  Sub-trans Sub.nil s = s
  Sub-trans (Sub.skip z t) s = Sub.skip z (Sub-trans t s)
  Sub-trans (Sub.both _ t) (Sub.both x s) = Sub.both x (Sub-trans t s)
  Sub-trans (Sub.both _ t) (Sub.skip y s) = Sub.skip y (Sub-trans t s)

  pub Sub-append : {xs ys us vs : List A} → Sub xs ys → Sub us vs → Sub (xs ++ us) (ys ++ vs)
  Sub-append Sub.nil t = t
  Sub-append (Sub.both x s) t = Sub.both x (Sub-append s t)
  Sub-append (Sub.skip y s) t = Sub.skip y (Sub-append s t)

  pub Sub-left : (xs ys : List A) → Sub xs (xs ++ ys)
  Sub-left [] ys = Sub-nil ys
  Sub-left (x ∷ xs) ys = Sub.both x (Sub-left xs ys)

  pub Sub-right : (xs ys : List A) → Sub ys (xs ++ ys)
  Sub-right [] ys = Sub-refl ys
  Sub-right (x ∷ xs) ys = Sub.skip x (Sub-right xs ys)

  pub keep-append : (p : A → Bool) (xs ys : List A) → keep p (xs ++ ys) ≡ keep p xs ++ keep p ys
  unfolding keep
  keep-append p [] ys = refl
  keep-append p (x ∷ xs) ys = ground (arith, keep-append p xs ys)

  pub Sub-keep_if :
      (b : Bool) (x : A) {xs ys : List A}
      → Sub xs ys
      → Sub (if b then x ∷ xs else xs) (if b then x ∷ ys else ys)
  Sub-keep_if true x s = Sub.both x s
  Sub-keep_if false x s = s

  Sub-if : (b : Bool) (x : A) {xs ys : List A} → Sub xs ys → Sub (if b then x ∷ xs else xs) (x ∷ ys)
  Sub-if true x s = Sub.both x s
  Sub-if false x s = Sub.skip x s

  pub keep-Sub : (p : A → Bool) (xs : List A) → Sub (keep p xs) xs
  unfolding keep
  keep-Sub p [] = Sub.nil
  keep-Sub p (x ∷ xs) = Sub-if (p x) x (keep-Sub p xs)

  Sub-skip_if : (b : Bool) (y : A) {xs ys : List A} → Sub xs ys → Sub xs (if b then y ∷ ys else ys)
  Sub-skip_if true y s = Sub.skip y s
  Sub-skip_if false y s = s

  pub Sub-keep : (p : A → Bool) {xs ys : List A} → Sub xs ys → Sub (keep p xs) (keep p ys)
  unfolding keep
  Sub-keep p Sub.nil = Sub.nil
  Sub-keep p (Sub.both x s) = Sub-keep_if (p x) x (Sub-keep p s)
  Sub-keep p (Sub.skip y s) = Sub-skip_if (p y) y (Sub-keep p s)
