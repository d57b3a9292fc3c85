-- ===== src/Thread/Mutex/Calls.antt =====
-- The functions of src/libnanvix/thread/mutex.c as a caller sees them: over a pointer, which is NULL
-- where it is `none`.
use libnanvix.Shared.{
  ℕ, ◌≡◌, refl, ◌↔◌, Option, none, some, Ret, ok, fail, einval, Outcome, done, at_pointer, arith,
}
use libnanvix.Thread.Mutex.{Mutex, init, lock_entry, trylock, unlock, destroy}
use libnanvix.Thread.Mutex.Attr.{MutexAttr}

pub nanvix_mutex_init : Option Mutex → Option MutexAttr → Ret × Option Mutex
unfolding init
nanvix_mutex_init m mattr = at_pointer (λ _. (ok 0, init mattr)) m

-- The calls of lock that return before the loop; `none` where the loop follows.
pub nanvix_mutex_lock : ℕ → Option Mutex → Option (Ret × Option Mutex)
unfolding lock_entry
nanvix_mutex_lock tid none = some (fail einval, none)
nanvix_mutex_lock tid (some m) = elim (lock_entry tid m) [
  | none ↦ none
  | some (ret, m') ↦ some (ret, some m')
]

pub nanvix_mutex_trylock : ℕ → Option Mutex → Ret × Option Mutex
unfolding trylock
nanvix_mutex_trylock tid m = at_pointer (trylock tid) m

-- The thread to wake up stands behind the return value.
pub nanvix_mutex_unlock : ℕ → ℕ → Option Mutex → Ret × Option ℕ × Option Mutex
unfolding unlock
nanvix_mutex_unlock thread_max tid none = (fail einval, none, none)
nanvix_mutex_unlock thread_max tid (some m) =
    let (ret, head, m') = unlock thread_max tid m in (ret, head, some m')

pub nanvix_mutex_destroy : Option Mutex → Outcome Ret
unfolding destroy
nanvix_mutex_destroy none = done (fail einval)
nanvix_mutex_destroy (some m) = destroy m

-- -EINVAL is returned for the NULL pointer and only for it, by init, trylock and unlock, and by lock
-- where it returns before its loop.
pub einval-iff-null :
    (thread_max tid : ℕ) (m : Option Mutex) (mattr : Option MutexAttr)
    → (((nanvix_mutex_init m mattr).0 ≡ fail einval) ↔ (m ≡ none))
      × (((nanvix_mutex_trylock tid m).0 ≡ fail einval) ↔ (m ≡ none))
      × (((nanvix_mutex_unlock thread_max tid m).0 ≡ fail einval) ↔ (m ≡ none))
      × ((nanvix_mutex_lock tid m ≡ some (fail einval, none)) ↔ (m ≡ none))
unfolding nanvix_mutex_init nanvix_mutex_trylock nanvix_mutex_unlock nanvix_mutex_lock
einval-iff-null thread_max tid none mattr =
    ((λ e. refl, λ e. refl), (λ e. refl, λ e. refl), (λ e. refl, λ e. refl), (λ e. refl, λ e. refl))
einval-iff-null thread_max tid (some m) mattr = (
  (λ e. ground arith, λ e. ground arith),
  (λ e. ground arith, λ e. ground arith),
  (λ e. ground arith, λ e. ground arith),
  (λ e. ground arith, λ e. ground arith),
)
