-- ===== src/Thread/Semaphore.antt =====
-- src/libnanvix/thread/semaphore.c, with include/nanvix/sys/semaphore.h, for
-- __NANVIX_SEMAPHORE_SLEEP = 1 and without NDEBUG. Each function is the code between two accesses of
-- other threads, as in Mutex.
pub mod System
pub mod Free
pub mod Permits
pub mod Invariant
pub mod Safety
use libnanvix.Shared.{
  ℕ, zero, suc, ◌+◌, ◌-◌, Bool, true, false, not, ◌&&◌, ◌||◌, Option, none, some, ℤ, pos, negsuc,
  pos_part, is_positive, decrement, increment, Ret, ok, fail, einval, Outcome, done, panic, ltb,
  ◌==◌, if◌then◌else◌, is_tid, is_some,
}
use libnanvix.Thread.WaitQueue.{WaitQueue, enqueue, dequeue_clear}
use libnanvix.Thread.WaitQueue

pub record Semaphore : Type 0 where
  pub val : ℤ
  pub queue : WaitQueue

unfoldable pub init : ℤ → Option Semaphore
unfolding WaitQueue.init
init (negsuc n) = none
init (pos n) = some (record { val = pos n; queue = WaitQueue.init })

-- The loop of the debug build over `tids`: is the thread in one of the first `k` slots?
unfoldable pub is_queued : ℕ → ℕ → WaitQueue → Bool
is_queued zero tid q = false
is_queued (suc k) tid q = is_tid (q.tids k) tid || is_queued k tid q

-- The three KASSERT() before a thread is queued.
unfoldable pub may_queue : ℕ → ℕ → WaitQueue → Bool
may_queue thread_max tid q =
    ltb q.size thread_max
    && not (is_queued thread_max tid q)
    && (not (ltb 0 q.size) || not (is_some (q.tids q.end)))

-- One round of the loop of nanvix_semaphore_down(): whether the thread took a unit and leaves, or is
-- queued and goes to sleep.
unfoldable pub down_round : ℕ → ℕ → Semaphore → Outcome (Bool × Semaphore)
unfolding enqueue
down_round thread_max tid sem =
    if is_positive sem.val
    then done (true, record sem { val = decrement sem.val })
    else if may_queue thread_max tid sem.queue
    then done (false, record sem { queue = enqueue thread_max tid sem.queue })
    else panic

-- nanvix_semaphore_up() inside `lock2`, up to the loop of kwakeup(): the thread `tid` that the loop
-- wakes up, and the semaphore.
unfoldable pub up : ℕ → Semaphore → Outcome (Option ℕ × Semaphore)
unfolding dequeue_clear
up thread_max sem =
    let (tid, queue) = dequeue_clear thread_max sem.queue in
    if ltb 0 sem.queue.size && not (is_some tid)
    then panic
    else done (tid, record { val = increment sem.val; queue = queue })

unfoldable pub trywait : Semaphore → Ret × Semaphore
trywait sem =
    if is_positive sem.val
    then (ok 0, record sem { val = decrement sem.val })
    else (fail einval, sem)

-- `val` becomes -2147483648, so that every later down blocks.
unfoldable pub destroy : Semaphore → Outcome (Ret × Semaphore)
destroy sem =
    if sem.queue.size == 0 then done (ok 0, record sem { val = negsuc 2147483647 }) else panic
