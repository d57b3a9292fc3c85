-- ===== src/Thread/WaitQueue/Slots.antt =====
-- The threads that stand in consecutive slots of a circular array.
use native.Mathlib.Nat.{mod-add-mod}
use libnanvix.Shared.{
  ℕ, zero, suc, ◌+◌, ◌%◌, ◌<◌, ◌≤◌, ◌≡◌, ◌≢◌, ap, ◌∙◌, List, [], ◌∷◌, ◌++◌, Option, some, arith,
  update, length,
}

-- From slot `k` on (modulo `max`), `tids` holds `xs`.
abbrev pub Slots : ℕ → (ℕ → Option ℕ) → ℕ → List ℕ → Type 0
Slots max tids k [] = Unit {0}
Slots max tids k (x ∷ xs) = (tids (k % max) ≡ some x) × Slots max tids (k + 1) xs

-- Two slots less than `max` apart are different.
pub mod-ne : (max k d : ℕ) → 0 < d → d < max → (k + d) % max ≢ k % max
mod-ne max k d pos lt e = grind arith

pub mod_step : (max k : ℕ) → (k % max + 1) % max ≡ (k + 1) % max
mod_step max k = mod-add-mod k max 1

-- A write into a slot behind the threads, or into the one just before them, leaves them alone.
pub Slots-update_end :
    (max : ℕ) (tids : ℕ → Option ℕ) (j k d : ℕ) (v : Option ℕ) (xs : List ℕ)
    → j ≡ (k + d) % max
    → length xs ≤ d
    → d < max
    → Slots max tids k xs
    → Slots max (update tids j v) k xs
Slots-update_end max tids j k d v [] e le lt s = tt
Slots-update_end max tids j k (suc d) v (x ∷ xs) e le lt s = (
  ground (arith, mod-ne max k (suc d)),
  Slots-update_end max tids j (k + 1) d v xs (e ∙ ap (λ n. n % max) next) (omega arith)
      (omega arith) s.1,
)
  where
    next : k + suc d ≡ k + 1 + d
    next = omega arith
Slots-update_end max tids j k zero v (x ∷ xs) e le lt s = absurd (omega arith)

pub Slots-update_before :
    (max : ℕ) (tids : ℕ → Option ℕ) (j k l d : ℕ) (v : Option ℕ) (xs : List ℕ)
    → j ≡ k % max
    → l ≡ k + d
    → 0 < d
    → d + length xs ≤ max
    → Slots max tids l xs
    → Slots max (update tids j v) l xs
Slots-update_before max tids j k l d v [] e f pos le s = tt
Slots-update_before max tids j k l d v (x ∷ xs) e f pos le s = (
  ground (arith, mod-ne max k d, ap (λ n. n % max) f),
  Slots-update_before max tids j k (l + 1) (d + 1) v xs e (omega arith) (omega arith) (omega arith)
      s.1,
)

-- One more thread in the slot behind them.
pub Slots-snoc :
    (max : ℕ) (tids : ℕ → Option ℕ) (k : ℕ) (xs : List ℕ) (x : ℕ)
    → Slots max tids k xs
    → tids ((k + length xs) % max) ≡ some x
    → Slots max tids k (xs ++ x ∷ [])
Slots-snoc max tids k [] x s e = (rw (zero_add k) e, tt)
  where
    zero_add : (k : ℕ) → k ≡ k + 0
    zero_add k = omega arith
Slots-snoc max tids k (y ∷ xs) x s e =
    (s.0, Slots-snoc max tids (k + 1) xs x s.1 (rw (assoc k (length xs)) e))
  where
    assoc : (k d : ℕ) → k + 1 + d ≡ k + suc d
    assoc k d = omega arith

-- Slots are counted modulo `max`.
pub Slots-mod :
    (max : ℕ) (tids : ℕ → Option ℕ) (j k : ℕ) (xs : List ℕ)
    → j % max ≡ k % max
    → Slots max tids k xs
    → Slots max tids j xs
Slots-mod max tids j k [] e s = tt
Slots-mod max tids j k (x ∷ xs) e s = (rw e s.0, Slots-mod max tids (j + 1) (k + 1) xs next s.1)
  where
    next : (j + 1) % max ≡ (k + 1) % max
    next = rw (← mod_step max j, e, mod_step max k)
