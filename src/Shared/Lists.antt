-- ===== src/Shared/Lists.antt =====
-- Lists measured and counted by native numbers.
use Prim.Native.Nat.{ℕ, suc, ◌+◌}
use mathlib.Core.Path.{◌≡◌}
use mathlib.Core.List.{List, [], ◌∷◌, ◌++◌}
use native.Mathlib.Omega.{arith}
use libnanvix.Shared.Tests.{◌==◌, if◌then◌else◌}

module _ {ℓ} {A : Type ℓ} where
  abbrev pub length : List A → ℕ
  length [] = 0
  length (x ∷ xs) = suc (length xs)

  pub length-append : (xs ys : List A) → length (xs ++ ys) ≡ length xs + length ys
  length-append [] ys = omega arith
  length-append (x ∷ xs) ys = omega (arith, length-append xs ys)

-- How often a number stands in a list.
abbrev pub count : ℕ → List ℕ → ℕ
count a [] = 0
count a (x ∷ xs) = (if x == a then 1 else 0) + count a xs

-- A number at the end counts once more.
pub count-snoc :
    (i : ℕ) (tids : List ℕ) (tid : ℕ)
    → count i (tids ++ tid ∷ []) ≡ count i tids + (if tid == i then 1 else 0)
count-snoc i [] tid = ground arith
count-snoc i (other ∷ tids) tid = ground (arith, count-snoc i tids tid)
