-- ===== src/Base/Lists.antt =====
-- Lists measured by native numbers, and membership of texts.
use Prim.Native.Nat.{ℕ, suc, ◌+◌}
use Prim.Native.String.{String}
use mathlib.Core.Path.{◌≡◌}
use mathlib.Core.Bool.{Bool, true, false, ◌||◌}
use mathlib.Core.List.{List, [], ◌∷◌, ◌++◌}
use native.Mathlib.Omega.{arith}
use text.Mathlib.Text.{◌==◌}
use mathlib.Core.Logic.{inl, inr}
use automitizacion_hbi_capit.Base.Tests.{Bool-cases, eq→≡}

module _ {ℓ} {A : Type ℓ} where
  abbrev pub length : List A → ℕ
  length [] = 0
  length (x ∷ xs) = suc (length xs)

  pub length-append : (xs ys : List A) → length (xs ++ ys) ≡ length xs + length ys
  length-append [] ys = omega arith
  length-append (x ∷ xs) ys = omega (arith, length-append xs ys)

-- `t in texts`
abbrev pub member : String → List String → Bool
member t [] = false
member t (x ∷ xs) = t == x || member t xs

-- What holds of every text of a list.
abbrev pub All {ℓ} : (String → Type ℓ) → List String → Type ℓ
All P [] = Unit
All P (x ∷ xs) = P x × All P xs

-- A text of a list of literals is one of them.
pub all_members {ℓ} :
    (P : String → Type ℓ) (xs : List String) → All P xs → (t : String) → member t xs ≡ true → P t
all_members P [] a t h = cc
all_members P (x ∷ xs) (px, pxs) t h = elim (Bool-cases (t == x)) [
  | inl e ↦ rw (eq→≡ t x e) px
  | inr n ↦ all_members P xs pxs t (rw n at h)
]
