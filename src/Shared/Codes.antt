-- ===== src/Shared/Codes.antt =====
-- The `int` that a library function returns: a number from 0 on, or a negative error code.
use Prim.Native.Nat.{ℕ, zero, suc, ◌+◌, ◌-◌, ◌%◌, ◌^◌}
use mathlib.Core.Option.{Option, none, some}
use mathlib.Core.Bool.{Bool, false, ◌&&◌}
use libnanvix.Shared.Tests.{ltb, leb, ◌==◌}

-- The error codes of posix/errno.h that the sources name, and any other, by its number.
pub data Errno : Type 0 where
  eperm eacces eagain ebadf ebusy edeadlk efault einval enomsg enotsup etimedout : Errno
  other : ℕ → Errno

-- `ok n` is the return value n, and `fail e` is `-e`.
pub data Ret : Type 0 where
  ok : ℕ → Ret
  fail : Errno → Ret

-- What a function leaves behind when no KASSERT() of it fails; `panic` is a failed KASSERT().
pub data Outcome {ℓ} (A : Type ℓ) : Type ℓ where
  done : A → Outcome A
  panic : Outcome A

-- An `int`: `pos n` is n, and `negsuc n` is -(n + 1).
pub data ℤ : Type 0 where
  pos : ℕ → ℤ
  negsuc : ℕ → ℤ

abbrev pub pos_part : ℤ → ℕ
pos_part (pos n) = n
pos_part (negsuc n) = 0

-- `x > 0`, `x == 0`, `x - 1` and `x + 1`.
abbrev pub is_positive : ℤ → Bool
is_positive x = ltb 0 (pos_part x)

abbrev pub is_zero : ℤ → Bool
is_zero (pos n) = n == 0
is_zero (negsuc n) = false

abbrev pub decrement : ℤ → ℤ
decrement (pos zero) = negsuc 0
decrement (pos (suc n)) = pos n
decrement (negsuc n) = negsuc (suc n)

abbrev pub increment : ℤ → ℤ
increment (pos n) = pos (suc n)
increment (negsuc zero) = pos 0
increment (negsuc (suc n)) = negsuc n

-- The kernel's macro WITHIN(x, a, b) for bounds from 0 on: a <= x and x < b.
abbrev pub within : ℤ → ℕ → ℕ → Bool
within (pos n) a b = leb a n && ltb n b
within (negsuc n) a b = false

-- An operation on the structure behind a pointer, which returns -EINVAL for NULL (`none`).
abbrev pub at_pointer {ℓ} : {A : Type ℓ} → (A → Ret × A) → Option A → Ret × Option A
at_pointer f none = (fail einval, none)
at_pointer f (some a) = ((f a).0, some (f a).1)

-- `++` on a uint64_t.
abbrev pub count_one : ℕ → ℕ
count_one n = (n + 1) % 2 ^ 64

-- `a - b` and `a + b` of uint64_t.
abbrev pub minus_u64 : ℕ → ℕ → ℕ
minus_u64 a b = (a + (2 ^ 64 - b % 2 ^ 64)) % 2 ^ 64
