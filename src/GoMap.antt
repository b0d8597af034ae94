-- ===== src/GoMap.antt =====
-- Go's built-in map, as an association list over keys with an == test: the program's `m[k]`,
-- `m[k] = v`, `delete(m, k)`, `len(m)` and its loops that delete while they iterate. The order of the
-- entries is the order of insertion; the program's results do not rest on it.
pub mod Laws
pub mod Unique
use yalb_link.Prelude.{
  ℕ, Bool, Option, none, some, List, [], ◌∷◌, Eq, map, if◌then◌else◌, length, true, false,
}

abbrev pub GoMap {ℓ} : Type ℓ → Type ℓ → Type ℓ
GoMap K V = List (K × V)

module _ {ℓ} {K V : Type ℓ} ⦃e : Eq K⦄ where
  -- v, ok := m[k]
  unfoldable pub lookup : K → GoMap K V → Option V
  lookup k [] = none
  lookup k ((j, v) ∷ m) = if e.beq j k then some v else lookup k m

  -- m[k] = v
  unfoldable pub insert : K → V → GoMap K V → GoMap K V
  insert k v [] = (k, v) ∷ []
  insert k v ((j, w) ∷ m) = if e.beq j k then (j, v) ∷ m else (j, w) ∷ insert k v m

  -- delete(m, k)
  unfoldable pub delete : K → GoMap K V → GoMap K V
  delete k [] = []
  delete k ((j, v) ∷ m) = let rest = delete k m in if e.beq j k then rest else (j, v) ∷ rest

module _ {ℓ} {K V : Type ℓ} where
  -- for k, v := range m { if p(v) { delete(m, k) } }
  unfoldable pub delete_where : (V → Bool) → GoMap K V → GoMap K V
  delete_where p [] = []
  delete_where p ((k, v) ∷ m) = let rest = delete_where p m in if p v then rest else (k, v) ∷ rest

  -- How many entries such a loop deletes.
  unfoldable pub count_where : (V → Bool) → GoMap K V → ℕ
  count_where p [] = 0
  count_where p ((k, v) ∷ m) = let rest = count_where p m in if p v then ℕ.suc rest else rest

  -- len(m)
  abbrev pub size : GoMap K V → ℕ
  size m = length m

  abbrev pub keys : GoMap K V → List K
  keys = map (λ x. x.0)
