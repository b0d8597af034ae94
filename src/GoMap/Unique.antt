-- ===== src/GoMap/Unique.antt =====
-- No key stands in a map twice: every operation keeps that, and with it a lookup after a deleting
-- loop is determined by the lookup before.
use yalb_link.Prelude.{◌≡◌, refl, Bool, Option, none, some, [], ◌∷◌, Eq, arith, if◌then◌else◌}
use yalb_link.GoMap.{GoMap, lookup, insert, delete, delete_where}
use yalb_link.GoMap.Laws.{lookup-insert, lookup-delete}

-- What is left of a looked-up value after the loop that deletes by `p`.
abbrev pub keep_unless {ℓ} : {V : Type ℓ} → (V → Bool) → Option V → Option V
keep_unless p none = none
keep_unless p (some v) = if p v then none else some v

module _ {ℓ} {K V : Type ℓ} ⦃e : Eq K⦄ where
  abbrev pub IsUnique : GoMap K V → Type ℓ
  IsUnique [] = Unit
  IsUnique ((k, v) ∷ m) = (lookup k m ≡ none) × IsUnique m

  pub insert-IsUnique : (k : K) (v : V) (m : GoMap K V) → IsUnique m → IsUnique (insert k v m)
  unfolding insert lookup
  insert-IsUnique k v [] u = (refl, tt)
  insert-IsUnique k v ((j, w) ∷ m) u =
      ground (arith, insert-IsUnique k v m u.1, lookup-insert k j v m, e.beq_iff k j, e.beq_iff j k)

  pub delete-IsUnique : (k : K) (m : GoMap K V) → IsUnique m → IsUnique (delete k m)
  unfolding delete
  delete-IsUnique k [] u = tt
  delete-IsUnique k ((j, w) ∷ m) u = ground (arith, delete-IsUnique k m u.1, lookup-delete k j m)

  pub lookup-delete_where :
      (p : V → Bool) (j : K) (m : GoMap K V)
      → IsUnique m
      → lookup j (delete_where p m) ≡ keep_unless p (lookup j m)
  unfolding lookup delete_where
  lookup-delete_where p j [] u = refl
  lookup-delete_where p j ((i, w) ∷ m) u =
      ground (arith, lookup-delete_where p j m u.1, e.beq_iff i j)

  pub delete_where-IsUnique :
      (p : V → Bool) (m : GoMap K V) → IsUnique m → IsUnique (delete_where p m)
  unfolding delete_where
  delete_where-IsUnique p [] u = tt
  delete_where-IsUnique p ((j, w) ∷ m) u =
      ground (arith, delete_where-IsUnique p m u.1, lookup-delete_where p j m u.1)
