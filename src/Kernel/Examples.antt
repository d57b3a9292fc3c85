-- ===== src/Kernel/Examples.antt =====
-- A kernel that counts its calls, and the theorems of Kernel at it.
use libnanvix.Shared.{ℕ, ◌≡◌, suc, [], ◌∷◌, none, some, pos, Ret, ok, fail, eagain}
use libnanvix.Kernel.{Kernel, Nr}
use libnanvix.Kernel.Calls.{Caller}
use libnanvix.Kernel.Errno.{sleeps, wakes, yields, run, answers, last_error, errno_of_last_failure}

-- It fails to wake up a thread, and answers every other call with 3.
abbrev answer : Nr → Ret
answer Nr.wakeup = fail eagain
answer _ = ok 3

abbrev counting : Kernel
counting = record { State = ℕ; kcall = λ nr args s. (answer nr, suc s) }

abbrev fresh : Caller ℕ
fresh = record { state = 0; errno = none }

-- A call that succeeds, one that fails, and one that succeeds again.
errno_of_last_failure_example :
    let (values, after) = run counting (sleeps ∷ wakes (pos 5) ∷ yields ∷ []) fresh in
    (values ≡ some 3 ∷ none ∷ some 3 ∷ []) × (after.errno ≡ some eagain) × (after.state ≡ 3)
unfolding answers last_error
errno_of_last_failure_example =
    errno_of_last_failure counting (sleeps ∷ wakes (pos 5) ∷ yields ∷ []) fresh
