-- ===== src/Thread/WaitQueue/Defs.antt =====
-- The queue of waiting threads in src/libnanvix/thread/{mutex,semaphore,condvar}.c: the fields
-- `begin`, `end`, `size` and `tids`, which the three structures declare alike, and the statements
-- that change them. `thread_max` is the kernel's THREAD_MAX.
use libnanvix.Shared.{ℕ, ◌+◌, ◌-◌, ◌%◌, Option, none, some, ltb, if◌then◌else◌, update}

-- An entry of `tids` that is -1 is `none`.
pub record WaitQueue : Type 0 where
  pub begin : ℕ
  pub end : ℕ
  pub size : ℕ
  pub tids : ℕ → Option ℕ

unfoldable pub init : WaitQueue
init = record { begin = 0; end = 0; size = 0; tids = λ _. none }

-- mutex.c and semaphore.c put the thread into the slot `end`, then move `end`.
unfoldable pub enqueue : ℕ → ℕ → WaitQueue → WaitQueue
enqueue thread_max tid q = record q {
  tids = update q.tids q.end (some tid);
  end = (q.end + 1) % thread_max;
  size = q.size + 1;
}

-- mutex.c takes the thread out of the slot `begin`, if there is one, and leaves the slot as it is.
unfoldable pub dequeue : ℕ → WaitQueue → Option ℕ × WaitQueue
dequeue thread_max q =
    if ltb 0 q.size
    then (q.tids q.begin, record q { begin = (q.begin + 1) % thread_max; size = q.size - 1 })
    else (none, q)

-- semaphore.c also writes -1 into the slot.
unfoldable pub dequeue_clear : ℕ → WaitQueue → Option ℕ × WaitQueue
dequeue_clear thread_max q =
    if ltb 0 q.size
    then (
      q.tids q.begin,
      record q {
        tids = update q.tids q.begin none;
        begin = (q.begin + 1) % thread_max;
        size = q.size - 1;
      },
    )
    else (none, q)

-- condvar.c moves `end` first, then puts the thread into the slot.
unfoldable pub enqueue_after : ℕ → ℕ → WaitQueue → WaitQueue
enqueue_after thread_max tid q =
    let end = (q.end + 1) % thread_max in
    record q { end = end; tids = update q.tids end (some tid); size = q.size + 1 }

-- condvar.c moves `begin` first, then takes the thread out of the slot.
unfoldable pub dequeue_after : ℕ → WaitQueue → Option ℕ × WaitQueue
dequeue_after thread_max q =
    let begin = (q.begin + 1) % thread_max in
    if ltb 0 q.size
    then (q.tids begin, record q { begin = begin; size = q.size - 1 })
    else (none, q)
