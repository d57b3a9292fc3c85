-- ===== src/Kernel/Perf.antt =====
-- src/libnanvix/etc/perf.c. A buffer is its address, NULL where it is `none`.
use libnanvix.Shared.{ℕ, [], ◌∷◌, Option, none, some, ℤ, pos, negsuc, Ret, fail, einval}
use libnanvix.Kernel.{Kernel, Nr}

-- The return type of both is uint64_t: a `fail e` is 2^64 - e there.
module _ (k : Kernel) where
  open k use {State, kcall}

  unfoldable pub kclock : Option ℤ → State → Ret × State
  kclock none s = (fail einval, s)
  kclock (some buffer) s = kcall Nr.clock (buffer ∷ []) s

  unfoldable pub kstats : (buffer perf : ℤ) → State → Ret × State
  kstats buffer (negsuc n) s = (fail einval, s)
  kstats buffer (pos perf) s = kcall Nr.stats (buffer ∷ pos perf ∷ []) s

-- The counters of the processor. The hardware abstraction layer is not in the repository: its functions
-- are parameters, over a state `S`.
module _ {S : Type 0} (perf_query perf_stop perf_restart : ℤ → S → Ret × S)
    (perf_start : ℤ → ℤ → S → Ret × S) (perf_read : ℤ → S → ℕ × S) where
  pub nanvix_perf_query : ℤ → S → Ret × S
  nanvix_perf_query event s = perf_query event s

  pub nanvix_perf_start : (perf event : ℤ) → S → Ret × S
  nanvix_perf_start perf event s = perf_start perf event s

  pub nanvix_perf_stop : ℤ → S → Ret × S
  nanvix_perf_stop perf s = perf_stop perf s

  pub nanvix_perf_restart : ℤ → S → Ret × S
  nanvix_perf_restart perf s = perf_restart perf s

  pub nanvix_perf_read : ℤ → S → ℕ × S
  nanvix_perf_read perf s = perf_read perf s
