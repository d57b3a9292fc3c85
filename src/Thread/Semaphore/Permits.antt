-- ===== src/Thread/Semaphore/Permits.antt =====
-- What the operations of the semaphore do to its value and to its queue.
use libnanvix.Shared.{
  ℕ, zero, suc, ◌+◌, ◌<◌, ◌≡◌, ◌≢◌, refl, List, [], ◌∷◌, true, false, Option, increment, pos,
  pos_part, Ret, done, panic, arith, count, length,
}
use libnanvix.Thread.WaitQueue.{enqueue, dequeue_clear}
use libnanvix.Thread.WaitQueue.Fifo.{Holds, dequeue_clear-Holds}
use libnanvix.Thread.Semaphore.{Semaphore, down_round, up, trywait}
use libnanvix.Thread.Semaphore.Free.{Free, may_queue-true}
use libnanvix.Thread.Semaphore.System.{taken}

-- An operation that takes `k` units and leaves the queue.
pub record Took (k : ℕ) (s t : Semaphore) : Type 0 where
  pub val : (v : ℕ) → s.val ≡ pos v → (w : ℕ) × (t.val ≡ pos w) × (w + k ≡ v)
  pub queue : t.queue ≡ s.queue

minus_one : (v : ℕ) → 0 < v → (w : ℕ) × (v ≡ suc w)
minus_one zero h = absurd (omega arith)
minus_one (suc w) h = (w, refl)

pub acquire-Took : (max i : ℕ) (s t : Semaphore) → down_round max i s ≡ done (true, t) → Took 1 s t
unfolding down_round
acquire-Took max i s t e = record {
  val = λ v f. let (w, g) = minus_one v (ground arith) in (w, ground arith, ground arith);
  queue = ground arith;
}

pub trywait-Took : (s t : Semaphore) (r : Ret) → trywait s ≡ (r, t) → Took (taken r) s t
unfolding trywait
trywait-Took s t r e = record { val = trywait-val s t r e; queue = ground arith }
  where
    trywait-val :
        (s t : Semaphore) (r : Ret)
        → trywait s ≡ (r, t)
        → (v : ℕ) → s.val ≡ pos v
        → (w : ℕ) × (t.val ≡ pos w) × (w + taken r ≡ v)
    trywait-val s t r e zero f = (0, ground arith, ground arith)
    trywait-val s t r e (suc w) f = (w, ground arith, ground arith)

-- A thread is queued only if there is no unit to take.
pub wait-queue :
    (max i : ℕ) (s t : Semaphore)
    → down_round max i s ≡ done (false, t)
    → (t.val ≡ s.val) × (pos_part s.val ≡ 0) × (t.queue ≡ enqueue max i s.queue)
unfolding down_round
wait-queue max i s t e = (ground arith, ground arith, ground arith)

-- No check of a round fails for a thread that is not queued yet.
pub down_round-ne-panic :
    (max i : ℕ) (s : Semaphore) (xs : List ℕ)
    → Holds 0 max s.queue xs
    → Free max s.queue
    → count i xs ≡ 0
    → length xs < max
    → down_round max i s ≢ panic
unfolding down_round
down_round-ne-panic max i s xs h f new room =
    ground (arith, may_queue-true max i s.queue xs h f new room)

-- `up` adds a unit and takes the head out of the queue, and its check does not fail.
pub up-queue :
    (max : ℕ) (s t : Semaphore) (tid : Option ℕ)
    → up max s ≡ done (tid, t)
    → (t.val ≡ increment s.val)
      × ((dequeue_clear max s.queue).0 ≡ tid)
      × (t.queue ≡ (dequeue_clear max s.queue).1)
unfolding up
up-queue max s t tid e = (ground arith, ground arith, ground arith)

pub up-ne-panic :
    (max : ℕ) (s : Semaphore) (xs : List ℕ) → Holds 0 max s.queue xs → up max s ≢ panic
unfolding up
up-ne-panic max s [] h = rw (dequeue_clear-Holds [] h) (ground (arith, h.counted))
up-ne-panic max s (x ∷ xs) h = ground (arith, (dequeue_clear-Holds (x ∷ xs) h).0)
