-- ===== src/Thread/Waiting.antt =====
-- How threads wait in src/libnanvix/thread/{mutex,semaphore}.c: a thread enqueues itself inside the
-- main spinlock and then calls ksleep(); the thread that dequeues it holds `lock2` and repeats
-- kwakeup() until the sleeper is awake. Each step of the library code between two accesses to
-- shared state is one step of the model; kwakeup() succeeds on a thread that sleeps, and only then.
pub mod Invariant
use libnanvix.Shared.{ℕ, ◌≡◌, Option, none, some, ◌==◌, if◌then◌else◌}

-- Where a thread stands.
pub data Pc : Type 0 where
  run : Pc  -- outside the library
  locking : Pc  -- at the head of the `do` loop of a lock or down operation
  queued : Pc  -- has left the main spinlock with its id in the queue
  sleeping : Pc  -- in ksleep()
  waking : Pc  -- holds `lock2`, at the `while` loop of kwakeup() or behind it

-- The thread that holds `lock2`, with the local variable `head` (or `tid`) that it still has to
-- wake up; `some (i, none)` has nobody to wake up, or has done so.
abbrev pub Waker : Type 0
Waker = Option (ℕ × Option ℕ)

-- 1 for a thread that waits to be woken up.
abbrev pub waits : Pc → ℕ
waits queued = 1
waits sleeping = 1
waits _ = 0

-- 1 for the thread that is about to be woken up.
abbrev pub target : Waker → ℕ → ℕ
target none i = 0
target (some (j, none)) i = 0
target (some (j, some t)) i = if t == i then 1 else 0
