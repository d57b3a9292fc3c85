-- ===== src/Shared/Family.antt =====
-- Families indexed by number, such as C arrays and the threads' local states: one entry replaced,
-- and sums over the first entries.
use Prim.Native.Nat.{ℕ, zero, suc, ◌+◌, ◌≤◌, ◌<◌}
use mathlib.Core.Path.{◌≡◌, refl, ap}
use mathlib.Core.List.{List, [], ◌∷◌}
use mathlib.Core.Logic.{◌≢◌}
use native.Mathlib.Omega.{arith}
use native.Mathlib.Decide.{dec_lt}
use libnanvix.Shared.Tests.{ltb, ◌==◌, if◌then◌else◌}
use libnanvix.Shared.Lists.{length, count}

-- `f[i] = a`
abbrev pub update {ℓ} : {A : Type ℓ} → (ℕ → A) → ℕ → A → ℕ → A
update f i a j = if i == j then a else f j

-- The sum of the first `n` entries.
unfoldable pub sum_below : ℕ → (ℕ → ℕ) → ℕ
sum_below zero w = 0
sum_below (suc n) w = sum_below n w + w n

pub sum_below_mono : (n : ℕ) (v w : ℕ → ℕ) → ((i : ℕ) → v i ≤ w i) → sum_below n v ≤ sum_below n w
unfolding sum_below
sum_below_mono zero v w h = omega arith
sum_below_mono (suc n) v w h = omega (arith, h n, sum_below_mono n v w h)

pub sum_below-add :
    (n : ℕ) (v w : ℕ → ℕ) → sum_below n (λ i. v i + w i) ≡ sum_below n v + sum_below n w
unfolding sum_below
sum_below-add zero v w = omega arith
sum_below-add (suc n) v w = omega (arith, sum_below-add n v w)

pub sum_below-zero : (n : ℕ) (w : ℕ → ℕ) → ((i : ℕ) → i < n → w i ≡ 0) → sum_below n w ≡ 0
unfolding sum_below
sum_below-zero zero w h = refl
sum_below-zero (suc n) w h =
    omega (arith, h n (omega arith), sum_below-zero n w (λ i lt. h i (omega arith)))

pub sum_below-le : (n : ℕ) (w : ℕ → ℕ) → ((i : ℕ) → w i ≤ 1) → sum_below n w ≤ n
unfolding sum_below
sum_below-le zero w h = omega arith
sum_below-le (suc n) w h = omega (arith, h n, sum_below-le n w h)

-- With an entry that counts for nothing the sum stays strictly below the number of entries.
pub sum_below-lt :
    (n : ℕ) (w : ℕ → ℕ) (i : ℕ) → ((i : ℕ) → w i ≤ 1) → i < n → w i ≡ 0 → sum_below n w < n
unfolding sum_below
sum_below-lt zero w i h lt e = absurd (omega arith)
sum_below-lt (suc n) w i h lt e = ground (arith, h n, sum_below-le n w h, sum_below-lt n w i h)

-- Two families that differ at one entry, in the sum: above it, and across it.
pub sum_below-same :
    (n : ℕ) (v w : ℕ → ℕ) (i : ℕ)
    → ((j : ℕ) → i ≢ j → v j ≡ w j)
    → n ≤ i
    → sum_below n v ≡ sum_below n w
unfolding sum_below
sum_below-same zero v w i h le = refl
sum_below-same (suc n) v w i h le =
    omega (arith, h n (omega arith), sum_below-same n v w i h (omega arith))

pub sum_below-change :
    (n : ℕ) (v w : ℕ → ℕ) (i : ℕ)
    → ((j : ℕ) → i ≢ j → v j ≡ w j)
    → i < n
    → sum_below n v + w i ≡ sum_below n w + v i
unfolding sum_below
sum_below-change zero v w i h lt = absurd (omega arith)
sum_below-change (suc n) v w i h lt =
    ground (arith, h n, sum_below-same n v w i h, sum_below-change n v w i h)

sum_below-unit : (n x : ℕ) → sum_below n (λ i. if x == i then 1 else 0) ≡ (if ltb x n then 1 else 0)
unfolding sum_below
sum_below-unit zero x = ground arith
sum_below-unit (suc n) x = ground (arith, sum_below-unit n x)

-- A list of numbers below `n` is as long as its numbers are counted.
pub sum_below-count :
    (n : ℕ) (xs : List ℕ)
    → ((i : ℕ) → n ≤ i → count i xs ≡ 0)
    → sum_below n (λ i. count i xs) ≡ length xs
unfolding sum_below
sum_below-count n [] h = sum_below-zero n (λ i. 0) (λ i lt. refl)
sum_below-count n (x ∷ xs) h = ground (
  arith,
  h x,
  sum_below-add n (λ i. if x == i then 1 else 0) (λ i. count i xs),
  sum_below-unit n x,
  sum_below-count n xs (λ i le. omega (arith, h i le)),
)

-- A sum that is not 0 has an entry that is not 0.
pub sum_below-pos : (n : ℕ) (w : ℕ → ℕ) → 0 < sum_below n w → (j : ℕ) × (0 < w j)
unfolding sum_below
sum_below-pos zero w h = absurd (omega arith)
sum_below-pos (suc n) w h = elim (dec_lt 0 (w n)) [
  | yes here ↦ (n, here)
  | no later ↦ sum_below-pos n w (omega arith)
]

-- A sum of entries up to 1 that reaches the number of entries has no entry that is 0.
pub sum_below-full :
    (n : ℕ) (w : ℕ → ℕ) → ((i : ℕ) → w i ≤ 1) → n ≤ sum_below n w → (i : ℕ) → i < n → w i ≡ 1
unfolding sum_below
sum_below-full zero w small full i lt = absurd (omega arith)
sum_below-full (suc n) w small full i lt = elim (dec_lt i n) [
  | yes below ↦ sum_below-full n w small (omega (arith, small n)) i below
  | no last ↦ ground (arith, sum_below-le n w small, small n, small i, ap w (at_end last))
]
  where
    at_end : ¬ (i < n) → i ≡ n
    at_end last = omega arith

-- A sum that does not reach it has one.
pub sum_below-short : (n : ℕ) (w : ℕ → ℕ) → sum_below n w < n → (j : ℕ) × (j < n) × (w j ≡ 0)
unfolding sum_below
sum_below-short zero w h = absurd (omega arith)
sum_below-short (suc n) w h = elim (dec_lt 0 (w n)) [
  | yes busy ↦ let (j, lt, e) = sum_below-short n w (omega arith) in (j, omega arith, e)
  | no idle ↦ (n, omega arith, omega arith)
]
