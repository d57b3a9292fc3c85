-- ===== src/Kernel/Calls.antt =====
-- The system calls of src/libnanvix/thread/{thread,signal,shutdown}.c and src/libnanvix/dev/write.c:
-- a failed kernel call sets `errno` and returns -1, which is `none`.
use libnanvix.Shared.{[], ◌∷◌, Option, none, some, ℤ, ℕ, ok, fail, Errno}
use libnanvix.Kernel.{Kernel, Nr}

-- What a caller sees: the kernel's state, and `errno` if it was ever set.
pub record Caller (S : Type 0) : Type 0 where
  pub state : S
  pub errno : Option Errno

module _ (k : Kernel) where
  open k use {State, kcall}

  unfoldable pub kthread_create : ℤ → ℤ → ℤ → Caller State → Option ℕ × Caller State
  kthread_create tid start arg c =
      let (ret, s) = kcall Nr.thread_create (tid ∷ start ∷ arg ∷ []) c.state in
      elim ret [
        | ok n ↦ (some n, record c { state = s })
        | fail e ↦ (none, record { state = s; errno = some e })
      ]

  unfoldable pub kthread_exit : ℤ → Caller State → Option ℕ × Caller State
  kthread_exit retval c =
      let (ret, s) = kcall Nr.thread_exit (retval ∷ []) c.state in
      elim ret [
        | ok n ↦ (some n, record c { state = s })
        | fail e ↦ (none, record { state = s; errno = some e })
      ]

  unfoldable pub kthread_join : ℤ → ℤ → Caller State → Option ℕ × Caller State
  kthread_join tid retval c =
      let (ret, s) = kcall Nr.thread_join (tid ∷ retval ∷ []) c.state in
      elim ret [
        | ok n ↦ (some n, record c { state = s })
        | fail e ↦ (none, record { state = s; errno = some e })
      ]

  unfoldable pub kthread_yield : Caller State → Option ℕ × Caller State
  kthread_yield c =
      let (ret, s) = kcall Nr.thread_yield [] c.state in
      elim ret [
        | ok n ↦ (some n, record c { state = s })
        | fail e ↦ (none, record { state = s; errno = some e })
      ]

  unfoldable pub ksleep : Caller State → Option ℕ × Caller State
  ksleep c =
      let (ret, s) = kcall Nr.sleep [] c.state in
      elim ret [
        | ok n ↦ (some n, record c { state = s })
        | fail e ↦ (none, record { state = s; errno = some e })
      ]

  unfoldable pub kwakeup : ℤ → Caller State → Option ℕ × Caller State
  kwakeup tid c =
      let (ret, s) = kcall Nr.wakeup (tid ∷ []) c.state in
      elim ret [
        | ok n ↦ (some n, record c { state = s })
        | fail e ↦ (none, record { state = s; errno = some e })
      ]

  -- The dcache_invalidate() behind a call that succeeds does not show in what a caller sees.
  unfoldable pub ksigctl : ℤ → ℤ → Caller State → Option ℕ × Caller State
  ksigctl signum sigact c =
      let (ret, s) = kcall Nr.sigctl (signum ∷ sigact ∷ []) c.state in
      elim ret [
        | ok n ↦ (some n, record c { state = s })
        | fail e ↦ (none, record { state = s; errno = some e })
      ]

  unfoldable pub kalarm : ℤ → Caller State → Option ℕ × Caller State
  kalarm seconds c =
      let (ret, s) = kcall Nr.alarm (seconds ∷ []) c.state in
      elim ret [
        | ok n ↦ (some n, record c { state = s })
        | fail e ↦ (none, record { state = s; errno = some e })
      ]

  unfoldable pub ksigsend : ℤ → ℤ → Caller State → Option ℕ × Caller State
  ksigsend signum tid c =
      let (ret, s) = kcall Nr.sigsend (signum ∷ tid ∷ []) c.state in
      elim ret [
        | ok n ↦ (some n, record c { state = s })
        | fail e ↦ (none, record { state = s; errno = some e })
      ]

  unfoldable pub ksigwait : ℤ → Caller State → Option ℕ × Caller State
  ksigwait signum c =
      let (ret, s) = kcall Nr.sigwait (signum ∷ []) c.state in
      elim ret [
        | ok n ↦ (some n, record c { state = s })
        | fail e ↦ (none, record { state = s; errno = some e })
      ]

  unfoldable pub ksigreturn : Caller State → Option ℕ × Caller State
  ksigreturn c =
      let (ret, s) = kcall Nr.sigreturn [] c.state in
      elim ret [
        | ok n ↦ (some n, record c { state = s })
        | fail e ↦ (none, record { state = s; errno = some e })
      ]

  unfoldable pub kshutdown : Caller State → Option ℕ × Caller State
  kshutdown c =
      let (ret, s) = kcall Nr.shutdown [] c.state in
      elim ret [
        | ok n ↦ (some n, record c { state = s })
        | fail e ↦ (none, record { state = s; errno = some e })
      ]

  unfoldable pub nanvix_write : ℤ → ℤ → ℤ → Caller State → Option ℕ × Caller State
  nanvix_write fd buf n c =
      let (ret, s) = kcall Nr.write (fd ∷ buf ∷ n ∷ []) c.state in
      elim ret [
        | ok n ↦ (some n, record c { state = s })
        | fail e ↦ (none, record { state = s; errno = some e })
      ]
