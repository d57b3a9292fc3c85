-- ===== src/Ikc/Retry.antt =====
-- The loops `do ret = kcall(...); while (ret is one of some error codes);` of
-- src/libnanvix/ikc/{mailbox,sync}.c. The fuel bounds the number of kernel calls; `none` means that
-- it ran out.
use libnanvix.Shared.{
  ℕ, zero, suc, ◌<◌, ◌≡◌, Bool, true, false, Option, none, some, Ret, if◌then◌else◌, arith,
}

module _ {S : Type 0} (call : S → Ret × S) (again : Ret → Bool) where
  unfoldable pub retry : ℕ → S → Option (Ret × S)
  retry zero s = none
  retry (suc fuel) s =
      let (ret, s') = call s in
      let rest = retry fuel s' in if again ret then rest else some (ret, s')

  -- The state before the call number `j`, and its answer.
  unfoldable pub before : ℕ → S → S
  before zero s = s
  before (suc j) s = before j (call s).1

  abbrev pub answer : ℕ → S → Ret
  answer j s = (call (before j s)).0

  -- The loop ends with the first answer that does not ask for another round, and returns it with
  -- the state that this call left, if the fuel is above the number of rounds before.
  pub retry_stops :
      (fuel j : ℕ) (s : S)
      → j < fuel
      → ((i : ℕ) → i < j → again (answer i s) ≡ true)
      → again (answer j s) ≡ false
      → retry fuel s ≡ some (answer j s, before (suc j) s)
  unfolding retry before
  retry_stops zero j s lt busy stop = absurd (omega arith)
  retry_stops (suc fuel) zero s lt busy stop = rw stop
  retry_stops (suc fuel) (suc j) s lt busy stop =
      rw (busy 0 (omega arith))
        (retry_stops fuel j (call s).1 (omega arith) (λ i h. busy (suc i) (omega arith)) stop)
