-- ===== src/Thread/Mutex.antt =====
-- src/libnanvix/thread/mutex.c, with include/nanvix/sys/mutex.h, for __NANVIX_MUTEX_SLEEP = 1.
-- Each function is the code between two accesses of other threads: a critical section of the
-- spinlock `lock`, or the code around it. `thread_max` is THREAD_MAX and `tid` is kthread_self().
pub mod Attr
pub mod System
pub mod Ownership
pub mod Queueing
pub mod Invariant
pub mod Safety
pub mod Calls
use libnanvix.Shared.{
  ℕ, ◌+◌, ◌-◌, Bool, true, false, not, ◌&&◌, ◌||◌, Option, none, some, Ret, ok, fail, einval, ebusy,
  edeadlk, eperm, Outcome, done, panic, ltb, ◌==◌, if◌then◌else◌, is_tid, is_some,
}
use libnanvix.Thread.WaitQueue.{WaitQueue, enqueue, dequeue}
use libnanvix.Thread.WaitQueue
use Attr.{MutexAttr, normal, errorcheck, recursive}

-- `owner` is -1 where it is `none`.
pub record Mutex : Type 0 where
  pub locked : Bool
  pub type : ℕ
  pub rlevel : ℕ
  pub owner : Option ℕ
  pub queue : WaitQueue

unfoldable pub init : Option MutexAttr → Mutex
unfolding WaitQueue.init
init mattr = record {
  locked = false;
  type = elim mattr [ none ↦ normal | some a ↦ a.type ];
  rlevel = 0;
  owner = none;
  queue = WaitQueue.init;
}

abbrev is_recursive : Mutex → Bool
is_recursive m = m.type == recursive

-- nanvix_mutex_lock() before its loop: `some` where it returns there.
unfoldable pub lock_entry : ℕ → Mutex → Option (Ret × Mutex)
lock_entry tid m =
    if m.type == errorcheck && is_tid m.owner tid
    then some (fail edeadlk, m)
    else if is_recursive m && is_tid m.owner tid
    then some (ok 0, record m { rlevel = m.rlevel + 1 })
    else none

-- One round of the loop: whether the thread got the lock and leaves, or is queued and goes to sleep.
unfoldable pub lock_round : ℕ → ℕ → Mutex → Outcome (Bool × Mutex)
unfolding enqueue
lock_round thread_max tid m =
    if not m.locked
    then done (
      true,
      record m {
        locked = true;
        owner = some tid;
        rlevel = if is_recursive m then m.rlevel + 1 else m.rlevel;
      },
    )
    else if ltb m.queue.size thread_max
    then done (false, record m { queue = enqueue thread_max tid m.queue })
    else panic

unfoldable pub trylock : ℕ → Mutex → Ret × Mutex
trylock tid m =
    if m.locked
    then (if is_recursive m && is_tid m.owner tid
        then (ok 0, record m { rlevel = m.rlevel + 1 })
        else (fail ebusy, m))
    else (
      ok 0,
      record m {
        rlevel = if is_recursive m then m.rlevel + 1 else m.rlevel;
        owner = some tid;
        locked = true;
      },
    )

-- The checks of nanvix_mutex_unlock(): `some` return value where they go to `exit`.
unlock_check : ℕ → Mutex → Option Ret × Mutex
unlock_check tid m =
    if m.type == errorcheck
    then ((if not m.locked || not (is_tid m.owner tid) then some (fail eperm) else none), m)
    else if is_recursive m
    then (if ltb 0 m.rlevel && is_tid m.owner tid
        then (
          (if not (m.rlevel - 1 == 0) then some (ok 0) else none),
          record m { rlevel = m.rlevel - 1 },
        )
        else (some (fail eperm), m))
    else (none, m)

-- What follows them: the lock is released and the head of the queue taken out.
unlock_release : ℕ → Mutex → Ret × Option ℕ × Mutex
unlock_release thread_max m =
    let (head, queue) = dequeue thread_max m.queue in
    (ok 0, head, record m { locked = false; owner = none; queue = queue })

-- nanvix_mutex_unlock() inside `lock2`, up to the loop of kwakeup(): the return value, the thread
-- `head` that the loop wakes up, and the mutex.
unfoldable pub unlock : ℕ → ℕ → Mutex → Ret × Option ℕ × Mutex
unfolding unlock_check unlock_release
unlock thread_max tid m =
    let (early, m') = unlock_check tid m in
    elim early [ some ret ↦ (ret, none, m') | none ↦ unlock_release thread_max m' ]

unfoldable pub destroy : Mutex → Outcome Ret
destroy m =
    if not (is_some m.owner) && not m.locked && m.queue.size == 0 then done (ok 0) else panic
