-- ===== src/Shared/Search.antt =====
-- The loop `for (i = 0; i < n; i++) if (p(i)) return (i);`.
use Prim.Native.Nat.{ℕ, zero, suc, ◌+◌, ◌≤◌, ◌<◌}
use mathlib.Core.Path.{◌≡◌, refl, subst, ap}
use mathlib.Core.Logic.{inl, inr}
use mathlib.Core.Bool.{Bool, true, false}
use mathlib.Core.Option.{Option, none, some}
use native.Mathlib.Omega.{arith}
use native.Mathlib.Decide.{dec_lt}
use libnanvix.Shared.Tests.{if◌then◌else◌, Bool-cases}

-- The first index of the `n` from `i` on that passes the test.
unfoldable pub find_from : ℕ → ℕ → (ℕ → Bool) → Option ℕ
find_from zero i p = none
find_from (suc n) i p = let rest = find_from n (suc i) p in if p i then some i else rest

abbrev pub find_first : ℕ → (ℕ → Bool) → Option ℕ
find_first n p = find_from n 0 p

pub find_from-some :
    (n i k : ℕ) (p : ℕ → Bool)
    → find_from n i p ≡ some k
    → (i ≤ k) × (k < i + n) × (p k ≡ true) × ((j : ℕ) → i ≤ j → j < k → p j ≡ false)
unfolding find_from
find_from-some zero i k p e = cc
find_from-some (suc n) i k p e = elim (Bool-cases (p i)) [
  | inl here ↦
      let same : i ≡ k = ground (arith, e, here) in
      (omega arith, omega arith, subst (λ j. p j ≡ true) same here, λ j le lt. absurd (omega arith))
  | inr later ↦
      let (le, lt, found, before) = find_from-some n (suc i) k p (ground (arith, e, later)) in
      (
        omega arith,
        omega arith,
        found,
        λ j lj jk. elim (dec_lt i j) [
          | yes above ↦ before j above jk
          | no at ↦ subst (λ x. p x ≡ false) (omega arith) later
        ],
      )
]

pub find_from-none :
    (n i : ℕ) (p : ℕ → Bool) → find_from n i p ≡ none → (j : ℕ) → i ≤ j → j < i + n → p j ≡ false
unfolding find_from
find_from-none zero i p e j le lt = absurd (omega arith)
find_from-none (suc n) i p e j le lt = elim (dec_lt i j) [
  | yes above ↦ find_from-none n (suc i) p (ground (arith, e)) j above (omega arith)
  | no at ↦ ground (arith, e, at_first (omega arith))
]
  where
    at_first : i ≡ j → p i ≡ p j
    at_first same = ap p same

-- A search asks the test only.
pub find_from-same :
    (n i : ℕ) (p q : ℕ → Bool) → ((j : ℕ) → p j ≡ q j) → find_from n i p ≡ find_from n i q
unfolding find_from
find_from-same zero i p q h = refl
find_from-same (suc n) i p q h = rw (h i, find_from-same n (suc i) p q h)
