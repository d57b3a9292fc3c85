-- ===== src/Thread/FastMutex.antt =====
-- The functions of include/nanvix/sys/fmutex.h. The spinlock that a struct nanvix_fmutex holds is not in
-- the repository: its three functions are parameters.
use libnanvix.Shared.{Option, Ret, ok, at_pointer}

module _ {Spinlock : Type 0}
    (spinlock_init spinlock_lock spinlock_unlock : Spinlock → Spinlock) where
  -- A fast mutex is its lock, behind a pointer that may be NULL.
  unfoldable pub nanvix_fmutex_init : Option Spinlock → Ret × Option Spinlock
  nanvix_fmutex_init = at_pointer (λ lock. (ok 0, spinlock_init lock))

  unfoldable pub nanvix_fmutex_lock : Option Spinlock → Ret × Option Spinlock
  nanvix_fmutex_lock = at_pointer (λ lock. (ok 0, spinlock_lock lock))

  unfoldable pub nanvix_fmutex_unlock : Option Spinlock → Ret × Option Spinlock
  nanvix_fmutex_unlock = at_pointer (λ lock. (ok 0, spinlock_unlock lock))
