-- ===== src/GoMap/Laws.antt =====
-- What a lookup finds after a write or a delete, and predicates over the entries of a map.
use mathlib.Core.Path.{subst₂}
use yalb_link.Prelude.{
  ◌+◌, ◌≡◌, refl, Bool, false, none, some, [], ◌∷◌, Eq, arith, if◌then◌else◌, All, Bool-cases, inl,
  inr,
}
use yalb_link.GoMap.{GoMap, lookup, insert, delete, delete_where, count_where, size}

module _ {ℓ} {K V : Type ℓ} ⦃e : Eq K⦄ where
  pub lookup-insert :
      (k j : K) (v : V) (m : GoMap K V)
      → lookup j (insert k v m) ≡ (if e.beq k j then some v else lookup j m)
  unfolding lookup insert
  lookup-insert k j v [] = refl
  lookup-insert k j v ((i, w) ∷ m) =
      ground (arith, e.beq_iff k j, e.beq_iff i k, e.beq_iff i j, lookup-insert k j v m)

  pub lookup-delete :
      (k j : K) (m : GoMap K V) → lookup j (delete k m) ≡ (if e.beq k j then none else lookup j m)
  unfolding lookup delete
  lookup-delete k j [] = ground arith
  lookup-delete k j ((i, w) ∷ m) =
      ground (arith, e.beq_iff k j, e.beq_iff i k, e.beq_iff i j, lookup-delete k j m)

  pub lookup-insert_self : (k : K) (v : V) (m : GoMap K V) → lookup k (insert k v m) ≡ some v
  lookup-insert_self k v m = ground (arith, lookup-insert k k v m, e.beq_iff k k)

  pub lookup-delete_self : (k : K) (m : GoMap K V) → lookup k (delete k m) ≡ none
  lookup-delete_self k m = ground (arith, lookup-delete k k m, e.beq_iff k k)

  pub lookup-insert_ne :
      (k j : K) (v : V) (m : GoMap K V) → e.beq k j ≡ false → lookup j (insert k v m) ≡ lookup j m
  lookup-insert_ne k j v m h = ground (arith, lookup-insert k j v m)

  pub lookup-delete_ne :
      (k j : K) (m : GoMap K V) → e.beq k j ≡ false → lookup j (delete k m) ≡ lookup j m
  lookup-delete_ne k j m h = ground (arith, lookup-delete k j m)

  -- A predicate that holds of every entry holds of what a lookup finds.
  pub All-lookup {κ} :
      (P : K → V → Type κ) (k : K) (m : GoMap K V) {v : V}
      → All (λ x. P x.0 x.1) m
      → lookup k m ≡ some v
      → P k v
  unfolding lookup
  All-lookup P k [] h q = absurd (cc)
  All-lookup P k ((j, w) ∷ m) {v} h q = elim (Bool-cases (e.beq j k)) [
    | inl hit ↦ subst₂ P ((e.beq_iff j k).0 hit) (ground arith) h.0
    | inr miss ↦ All-lookup P k m h.1 (ground arith)
  ]

  pub All-insert {κ} :
      (P : K → V → Type κ) (k : K) (v : V) (m : GoMap K V)
      → P k v
      → All (λ x. P x.0 x.1) m
      → All (λ x. P x.0 x.1) (insert k v m)
  unfolding insert
  All-insert P k v [] p h = (p, tt)
  All-insert P k v ((j, w) ∷ m) p h = ground (arith, e.beq_iff j k, All-insert P k v m p h.1)

  pub All-delete {κ} :
      (P : K → V → Type κ) (k : K) (m : GoMap K V)
      → All (λ x. P x.0 x.1) m
      → All (λ x. P x.0 x.1) (delete k m)
  unfolding delete
  All-delete P k [] h = tt
  All-delete P k ((j, w) ∷ m) h = ground (arith, All-delete P k m h.1)

module _ {ℓ} {K V : Type ℓ} where
  pub All-delete_where {κ} :
      (P : K → V → Type κ) (p : V → Bool) (m : GoMap K V)
      → All (λ x. P x.0 x.1) m
      → All (λ x. P x.0 x.1) (delete_where p m)
  unfolding delete_where
  All-delete_where P p [] h = tt
  All-delete_where P p ((j, w) ∷ m) h = ground (arith, All-delete_where P p m h.1)

  -- A deleting loop counts exactly what it takes away.
  pub size-delete_where :
      (p : V → Bool) (m : GoMap K V) → size (delete_where p m) + count_where p m ≡ size m
  unfolding delete_where count_where
  size-delete_where p [] = refl
  size-delete_where p ((j, w) ∷ m) = ground (arith, size-delete_where p m)

  -- After a deleting loop no entry passes its test.
  pub delete_where-All :
      (p : V → Bool) (m : GoMap K V) → All (λ x. p x.1 ≡ false) (delete_where p m)
  unfolding delete_where
  delete_where-All p [] = tt
  delete_where-All p ((j, w) ∷ m) = ground (arith, delete_where-All p m)
