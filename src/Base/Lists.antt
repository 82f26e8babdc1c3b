-- ===== src/Base/Lists.antt =====
-- Lists: membership by recursion, lengths in the native numbers, Go's `append` folds.
use Prim.Native.Nat.{ℕ, suc, ◌+◌}
use mathlib.Core.Path.{◌≡◌}
use mathlib.Core.List.{List, [], ◌∷◌, ◌++◌}
use native.Mathlib.Omega.{arith}

module _ {ℓ} {A : Type ℓ} where
  abbrev pub length : List A → ℕ
  length [] = 0
  length (x ∷ xs) = suc (length xs)

  pub length-append : (xs ys : List A) → length (xs ++ ys) ≡ length xs + length ys
  length-append [] ys = omega arith
  length-append (x ∷ xs) ys = omega (arith, length-append xs ys)

-- A list of one element is split at that element only.
pub alone {ℓ} : {A : Type ℓ} {x y : A} (xs ys : List A) → x ∷ [] ≡ xs ++ y ∷ ys → x ≡ y
alone [] ys h = ground (arith, h)
alone (x ∷ []) ys h = ground (arith, h)
alone (x ∷ y ∷ xs) ys h = ground (arith, h)

abbrev pub All {ℓ κ} : {A : Type ℓ} → (A → Type κ) → List A → Type κ
All P [] = Unit
All P (x ∷ xs) = P x × All P xs
