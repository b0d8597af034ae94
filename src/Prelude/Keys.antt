-- ===== src/Prelude/Keys.antt =====
-- Types whose values the program compares by ==: the keys of its maps, link labels, texts.
use Prim.Native.Nat.{ℕ}
use Prim.Native.String.{String, compare}
use Prim.Native.Nat.{lt, eq, gt}
use mathlib.Core.Path.{◌≡◌, refl}
use mathlib.Core.Logic.{◌↔◌}
use mathlib.Core.Bool.{Bool, true, false}
use text.Mathlib.Text.{◌==◌ as text_eq}
use text.Mathlib.TextEquality.{eq_iff}
use yalb_link.Prelude.Tests.{◌==◌, ==_iff}

pub record Eq {ℓ} (A : Type ℓ) : Type ℓ where
  pub beq : A → A → Bool
  pub beq_iff : (a b : A) → (beq a b ≡ true) ↔ (a ≡ b)

-- Equality of two texts.
abbrev pub str_eq : String → String → Bool
str_eq = text_eq

-- The order of texts, by code points, which is that of their UTF-8 bytes.
abbrev pub str_le : String → String → Bool
str_le s t = elim (compare s t) [ lt ↦ true | eq ↦ true | gt ↦ false ]

pub str_eq_iff : (s t : String) → (str_eq s t ≡ true) ↔ (s ≡ t)
str_eq_iff s t = eq_iff s t

instance abbrev pub nat_eq : Eq ℕ
nat_eq = record { beq = ◌==◌; beq_iff = ==_iff }

instance abbrev pub string_eq : Eq String
string_eq = record { beq = str_eq; beq_iff = str_eq_iff }

pub beq_refl {ℓ} : {A : Type ℓ} ⦃e : Eq A⦄ (a : A) → e.beq a a ≡ true
beq_refl ⦃e⦄ a = (e.beq_iff a a).1 refl
