-- ===== src/Thread/CondVar/Broadcast.antt =====
-- A broadcast of src/libnanvix/thread/condvar.c wakes up the threads that wait when it begins.
use libnanvix.Shared.{
  ℕ, zero, suc, ◌+◌, ◌≤◌, ◌≡◌, refl, List, [], ◌∷◌, ◌++◌, true, ltb, some, arith, length,
  length-append,
}
use mathlib.Core.List.{map, append_assoc, append-nil}
use libnanvix.Thread.WaitQueue.{enqueue_after}
use libnanvix.Thread.WaitQueue.Fifo.{Holds, enqueue_after-Holds, dequeue_after-Holds}
use libnanvix.Thread.CondVar.{CondVar, signal, join_all, broadcast_loop, broadcast}

join_all-Holds :
    (max : ℕ) (tids : List ℕ) (cond : CondVar) (xs : List ℕ)
    → length xs + length tids ≤ max
    → Holds 1 max cond.queue xs
    → Holds 1 max (join_all max tids cond).queue (xs ++ tids)
unfolding join_all
join_all-Holds max [] cond xs fits h = rw append-nil h
join_all-Holds max (tid ∷ tids) cond xs fits h = rw (← append_assoc xs (tid ∷ []) tids) (
    join_all-Holds max tids (record cond { queue = enqueue_after max tid cond.queue })
      (xs ++ tid ∷ []) (omega (arith, length-append xs (tid ∷ [])))
      (enqueue_after-Holds tid (omega arith) h))

-- All threads that join during the last `k` rounds, in order.
unfoldable pub joined : (ℕ → List ℕ) → ℕ → List ℕ
joined arrivals zero = []
joined arrivals (suc k) = arrivals k ++ joined arrivals k

signal-Holds :
    (max x : ℕ) (xs : List ℕ) (cond : CondVar)
    → Holds 1 max cond.queue (x ∷ xs)
    → ((signal max cond).0 ≡ some x) × Holds 1 max (signal max cond).1.queue xs
unfolding signal
signal-Holds max x xs cond h = dequeue_after-Holds (x ∷ xs) h

broadcast_loop-Holds :
    (max : ℕ) (arrivals : ℕ → List ℕ) (xs ys : List ℕ) (cond : CondVar)
    → length xs + length ys + length (joined arrivals (length xs)) ≤ max
    → Holds 1 max cond.queue (xs ++ ys)
    → ((broadcast_loop max (length xs) arrivals cond).0 ≡ map some xs)
      × Holds 1 max
          (broadcast_loop max (length xs) arrivals cond).1.queue
          (ys ++ joined arrivals (length xs))
unfolding broadcast_loop joined
broadcast_loop-Holds max arrivals [] ys cond fits h = (refl, rw append-nil h)
broadcast_loop-Holds max arrivals (x ∷ xs) ys cond fits h =
    let out = signal-Holds max x (xs ++ ys) cond h in
    let new = arrivals (length xs) in
    let next =
      broadcast_loop-Holds max arrivals xs (ys ++ new) (join_all max new (signal max cond).1)
        (omega (arith, length-append ys new, length-append new (joined arrivals (length xs))))
        (rw (← append_assoc xs ys new) (
          join_all-Holds max new (signal max cond).1 (xs ++ ys)
            (omega (arith, length-append xs ys, length-append new (joined arrivals (length xs))))
            out.1)) in
    rw nonempty
      (rw (out.0, next.0) refl, rw (← append_assoc ys new (joined arrivals (length xs))) next.1)
  where
    nonempty : ltb 0 cond.queue.size ≡ true
    nonempty = ground (arith, h.counted)

-- A broadcast wakes up exactly the threads that wait when it begins, the oldest first, whichever
-- threads `arrivals` join the queue while it has released its lock; these wait behind it, in the
-- order in which they came. The queue must have room for all of them at once.
pub broadcast-wakes :
    (max : ℕ) (arrivals : ℕ → List ℕ) (xs : List ℕ) (cond : CondVar)
    → length xs + length (joined arrivals (length xs)) ≤ max
    → Holds 1 max cond.queue xs
    → ((broadcast max arrivals cond).0 ≡ map some xs)
      × Holds 1 max (broadcast max arrivals cond).1.queue (joined arrivals (length xs))
unfolding broadcast
broadcast-wakes max arrivals xs cond fits h =
    simp h.counted (broadcast_loop-Holds max arrivals xs [] cond (omega arith) (rw append-nil h))
