-- ===== src/Thread/CondVar.antt =====
-- src/libnanvix/thread/condvar.c, with include/nanvix/sys/condvar.h, for
-- __NANVIX_CONDVAR_SLEEP = 1. Each function is one critical section of the spinlock `lock`, or the
-- code around it, as in Mutex.
pub mod Broadcast
use libnanvix.Shared.{
  ℕ, zero, suc, ◌+◌, Bool, List, [], ◌∷◌, Option, none, some, Ret, ok, Outcome, done, panic, ltb,
  ◌==◌, if◌then◌else◌,
}
use libnanvix.Thread.WaitQueue.{WaitQueue, enqueue_after, dequeue_after}
use libnanvix.Thread.WaitQueue
use libnanvix.Thread.Mutex.{Mutex}
use libnanvix.Thread.Mutex

pub record CondVar : Type 0 where
  pub queue : WaitQueue

unfoldable pub init : CondVar
unfolding WaitQueue.init
init = record { queue = WaitQueue.init }

unfoldable pub destroy : CondVar → Outcome Ret
destroy cond = if cond.queue.size == 0 then done (ok 0) else panic

-- nanvix_cond_wait(): the thread joins the queue.
unfoldable pub enlist : ℕ → ℕ → CondVar → Outcome CondVar
unfolding enqueue_after
enlist thread_max tid cond =
    if ltb cond.queue.size thread_max
    then done (record cond { queue = enqueue_after thread_max tid cond.queue })
    else panic

-- nanvix_cond_wait() up to ksleep(), where nobody else takes a step in between: the thread joins the
-- queue and unlocks the mutex, whatever the unlock returns; with the thread that this unlock wakes
-- up. Behind ksleep() it calls nanvix_mutex_lock().
unfoldable pub wait : ℕ → ℕ → CondVar → Mutex → Outcome (CondVar × Option ℕ × Mutex)
unfolding enlist Mutex.unlock
wait thread_max tid cond mutex = elim (enlist thread_max tid cond) [
  | panic ↦ panic
  | done cond' ↦
      let (ret, head, mutex') = Mutex.unlock thread_max tid mutex in done (cond', head, mutex')
]

-- nanvix_cond_signal() inside both spinlocks: the thread `head` that is woken up behind them.
unfoldable pub signal : ℕ → CondVar → Option ℕ × CondVar
unfolding dequeue_after
signal thread_max cond =
    let (head, queue) = dequeue_after thread_max cond.queue in (head, record cond { queue = queue })

-- The threads that join the queue while nanvix_cond_broadcast() has released `lock`.
pub join_all : ℕ → List ℕ → CondVar → CondVar
unfolding enqueue_after
join_all thread_max [] cond = cond
join_all thread_max (tid ∷ tids) cond =
    join_all thread_max tids (record cond { queue = enqueue_after thread_max tid cond.queue })

-- The loop of nanvix_cond_broadcast(), with `initial` rounds left: the threads that it wakes up.
-- `arrivals k` are the threads that join while `lock` is released in the round that leaves k.
pub broadcast_loop : ℕ → ℕ → (ℕ → List ℕ) → CondVar → List (Option ℕ) × CondVar
broadcast_loop thread_max zero arrivals cond = ([], cond)
broadcast_loop thread_max (suc initial) arrivals cond =
    let (head, woken) = signal thread_max cond in
    let (heads, rest) =
      broadcast_loop thread_max initial arrivals (join_all thread_max (arrivals initial) woken) in
    if ltb 0 cond.queue.size then (head ∷ heads, rest) else ([], cond)

unfoldable pub broadcast : ℕ → (ℕ → List ℕ) → CondVar → List (Option ℕ) × CondVar
unfolding broadcast_loop
broadcast thread_max arrivals cond = broadcast_loop thread_max cond.queue.size arrivals cond
