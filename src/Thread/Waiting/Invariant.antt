-- ===== src/Thread/Waiting/Invariant.antt =====
-- Every waiting thread is in the queue or is about to be woken up, and only once.
use libnanvix.Shared.{
  ℕ, ◌+◌, ◌<◌, ◌≤◌, ◌≡◌, ◌≢◌, List, [], ◌∷◌, ◌++◌, Option, none, some, arith, update, length, count,
  count-snoc, sum_below-lt, sum_below_mono, sum_below-count,
}
use libnanvix.Thread.WaitQueue.{WaitQueue}
use libnanvix.Thread.WaitQueue.Fifo.{Holds}
use libnanvix.Thread.Waiting.{Pc, run, locking, queued, sleeping, waking, Waker, waits, target}

pub record Waiting (max n : ℕ) (q : WaitQueue) (waker : Waker) (pc : ℕ → Pc) (xs : List ℕ)
    : Type 0 where
  pub holds : Holds 0 max q xs
  pub counted : (i : ℕ) → count i xs + target waker i ≡ waits (pc i)
  pub awake : (j : ℕ) (h : Option ℕ) → waker ≡ some (j, h) → pc j ≡ waking
  pub outside : (i : ℕ) → n ≤ i → pc i ≡ run

module _ {max n : ℕ} {q : WaitQueue} {waker : Waker} {pc : ℕ → Pc} {xs : List ℕ}
    (w : Waiting max n q waker pc xs) where
  open w use {holds, counted, awake, outside}

  waits-le : (p : Pc) → waits p ≤ 1
  waits-le queued = omega arith
  waits-le p = omega arith

  -- While a thread that does not wait is at work, the queue has room for it.
  pub length-lt : (i : ℕ) → i < n → n ≤ max → waits (pc i) ≡ 0 → length xs < max
  length-lt i lt fits e = omega (
    arith,
    sum_below-count n xs (λ j le. ground (arith, counted j, outside j le)),
    sum_below_mono n (λ j. count j xs) (λ j. waits (pc j)) (λ j. omega (arith, counted j)),
    sum_below-lt n (λ j. waits (pc j)) i (λ j. waits-le (pc j)) lt e,
  )

  -- A step that changes no waiting and does not touch the thread that holds `lock2`.
  pub Waiting-move :
      (i : ℕ) (p : Pc)
      → i < n
      → pc i ≢ waking
      → waits (pc i) ≡ waits p
      → Waiting max n q waker (update pc i p) xs
  Waiting-move i p lt free same = record {
    holds = holds;
    counted = λ j. ground (arith, counted j);
    awake = λ j h e. ground (arith, awake j h);
    outside = λ j le. ground (arith, outside j);
  }

  -- A thread that does not get the lock puts itself at the end of the queue `q'`.
  pub Waiting-enqueue :
      (i : ℕ) {q' : WaitQueue}
      → i < n
      → pc i ≡ locking
      → Holds 0 max q' (xs ++ i ∷ [])
      → Waiting max n q' waker (update pc i queued) (xs ++ i ∷ [])
  Waiting-enqueue i lt at h = record {
    holds = h;
    counted = λ j. ground (arith, counted j, count-snoc j xs i);
    awake = λ j h e. ground (arith, awake j h);
    outside = λ j le. ground (arith, outside j);
  }

  -- A thread that wakes up the target runs the loop again.
  pub Waiting-wakeup :
      (i t : ℕ)
      → waker ≡ some (i, some t)
      → pc t ≡ sleeping
      → Waiting max n q (some (i, none)) (update pc t locking) xs
  Waiting-wakeup i t e at = record {
    holds = holds;
    counted = λ j. ground (arith, counted j);
    awake = λ j h f. ground (arith, awake i (some t));
    outside = λ j le. ground (arith, outside j);
  }

  -- `lock2` is released.
  pub Waiting-finish : (i : ℕ) → waker ≡ some (i, none) → Waiting max n q none (update pc i run) xs
  Waiting-finish i e = record {
    holds = holds;
    counted = λ j. ground (arith, counted j, awake i none);
    awake = λ j h f. cc;
    outside = λ j le. ground (arith, outside j);
  }

-- A thread takes `lock2` and dequeues the oldest thread, if there is one, for which it calls
-- kwakeup() from now on.
module _ {max n : ℕ} {q q' : WaitQueue} {pc : ℕ → Pc} (i : ℕ) (lt : i < n) (at : pc i ≡ run) where
  pub Waiting-take :
      (x : ℕ) (xs : List ℕ)
      → Waiting max n q none pc (x ∷ xs)
      → Holds 0 max q' xs
      → Waiting max n q' (some (i, some x)) (update pc i waking) xs
  Waiting-take x xs w h = record {
    holds = h;
    counted = λ j. ground (arith, w.counted j);
    awake = λ j h e. ground arith;
    outside = λ j le. ground (arith, w.outside j);
  }

  pub Waiting-take_none :
      (xs : List ℕ)
      → Waiting max n q none pc xs
      → Holds 0 max q' xs
      → Waiting max n q' (some (i, none)) (update pc i waking) xs
  Waiting-take_none xs w h = record {
    holds = h;
    counted = λ j. ground (arith, w.counted j);
    awake = λ j h e. ground arith;
    outside = λ j le. ground (arith, w.outside j);
  }

-- The thread that is to be woken up waits.
pub target-Waiting :
    {max n : ℕ} {q : WaitQueue} {waker : Waker} {pc : ℕ → Pc} {xs : List ℕ}
    → Waiting max n q waker pc xs
    → (j t : ℕ) → waker ≡ some (j, some t)
    → waits (pc t) ≡ 1
target-Waiting w j t e = ground (arith, w.counted t)

-- With an empty queue the thread that waits is the one to be woken up.
pub waiter-target : (w : Waker) (i : ℕ) → target w i ≡ 1 → (j : ℕ) × (w ≡ some (j, some i))
waiter-target none i e = ground arith
waiter-target (some (j, none)) i e = ground arith
waiter-target (some (j, some t)) i e = (j, ground arith)
