-- ===== src/Thread/Mutex/Invariant.antt =====
-- What holds in every state that the callers of a mutex can reach.
use libnanvix.Shared.{
  ℕ, ◌+◌, ◌<◌, ◌≤◌, ◌≡◌, ◌≢◌, refl, ◌⊎◌, inl, inr, List, [], ◌∷◌, ◌++◌, true, Option, none, some,
  arith, update,
}
use libnanvix.Thread.WaitQueue.Fifo.{init-Holds, enqueue-Holds, dequeue-Holds}
use libnanvix.Thread.Waiting.{run, locking, sleeping, waking}
use libnanvix.Thread.Waiting.Invariant.{
  Waiting, length-lt, Waiting-move, Waiting-enqueue, Waiting-wakeup, Waiting-finish, Waiting-take,
  Waiting-take_none,
}
use libnanvix.Thread.Mutex.{Mutex, init, lock_entry, lock_round, trylock, unlock}
use libnanvix.Thread.Mutex.Attr.{MutexAttr}
use libnanvix.Thread.Mutex.System.{
  System, Step, return_early, enter, acquire, wait, sleep, try, unlocks, wakeup, finish, start,
  gain, loss, ChecksOwner, ByHolder,
}
use libnanvix.Thread.Mutex.Ownership.{
  held, Owned, Moved, lock_entry-Moved, trylock-Moved, acquire-Moved, wait-Moved, unlock-Moved,
}
use libnanvix.Thread.Mutex.Queueing.{
  lock_entry-Same, trylock-queue, acquire-queue, wait-queue, Unlocked, unlock-Unlocked,
}

-- Somebody is about to pass the mutex on, or about to ask for it again.
abbrev pub Live : System → Type 0
Live s =
    (s.mutex.locked ≡ true)
    ⊎ ((i : ℕ) × (s.pc i ≡ locking))
    ⊎ ((i : ℕ) × (t : ℕ) × (s.waker ≡ some (i, some t)))

pub record Locking (s : System) : Type 0 where
  pub owned : Owned s.mutex
  pub depths : (i : ℕ) → s.depth i ≡ held s.mutex i

pub record Queueing (max n : ℕ) (s : System) (xs : List ℕ) : Type 0 where
  pub waiting : Waiting max n s.mutex.queue s.waker s.pc xs
  pub live : xs ≢ [] → Live s

pub start-Locking : (mattr : Option MutexAttr) → Locking (start mattr)
unfolding init
start-Locking mattr = record {
  owned = record { flag = refl; level = λ a b. ground arith; no_level = λ a b. refl };
  depths = λ i. refl;
}

pub start-Queueing :
    (max n : ℕ) (mattr : Option MutexAttr) → 0 < max → Queueing max n (start mattr) []
unfolding init
start-Queueing max n mattr pos = record {
  waiting = record {
    holds = init-Holds 0 max pos;
    counted = λ i. refl;
    awake = λ j h e. cc;
    outside = λ i le. refl;
  };
  live = λ ne. absurd (ne refl);
}

-- An operation of thread `i` that changes its depth by `f` keeps the depths.
moved :
    (s t : System) (i : ℕ) (f : ℕ → ℕ)
    → Locking s
    → Moved s.mutex t.mutex i (f (held s.mutex i))
    → ((j : ℕ) → t.depth j ≡ update s.depth i (f (s.depth i)) j)
    → Locking t
moved s t i f l v e = record {
  owned = v.owned;
  depths = λ j. ground (arith, v.others j, l.depths i, l.depths j, e j, v.mine);
}

module _ {max n : ℕ} where
  pub Step-type : {s t : System} → Step max n s t → t.mutex.type ≡ s.mutex.type
  unfolding lock_entry lock_round trylock unlock
  Step-type (return_early i r m lt at e) = ground arith
  Step-type (acquire i m lt at e) = ground arith
  Step-type (wait i m lt at e) = ground arith
  Step-type (try i r m lt at e) = ground arith
  Step-type (unlocks i r head m lt at free e) = ground arith
  Step-type (enter i lt at e) = refl
  Step-type (sleep i lt at) = refl
  Step-type (wakeup i t e at) = refl
  Step-type (finish i e) = refl

  pub Step-Locking :
      {s t : System} (st : Step max n s t)
      → ChecksOwner s.mutex ⊎ ByHolder st
      → Locking s
      → Locking t
  Step-Locking {s} (return_early i r m lt at e) k l =
      moved s _ i (gain r) l (lock_entry-Moved l.owned i r m e) (λ j. refl)
  Step-Locking (enter i lt at e) k l = record { owned = l.owned; depths = l.depths }
  Step-Locking {s} (acquire i m lt at e) k l =
      moved s _ i (λ d. d + 1) l (acquire-Moved l.owned i max m e) (λ j. refl)
  Step-Locking {s} (wait i m lt at e) k l =
      moved s _ i (λ d. d) l (wait-Moved l.owned i max m e) (λ j. ground arith)
  Step-Locking (sleep i lt at) k l = record { owned = l.owned; depths = l.depths }
  Step-Locking {s} (try i r m lt at e) k l =
      moved s _ i (gain r) l (trylock-Moved l.owned i r m e) (λ j. refl)
  Step-Locking {s} (unlocks i r head m lt at free e) may l =
      moved s _ i (loss r) l (unlock-Moved l.owned i max r head m (rw (← l.depths i) may) e)
        (λ j. refl)
  Step-Locking (wakeup i t e at) k l = record { owned = l.owned; depths = l.depths }
  Step-Locking (finish i e) k l = record { owned = l.owned; depths = l.depths }

  -- `unlock` inside `lock2`, by what it took out of the queue.
  unlocks-Queueing :
      (s : System) (i : ℕ) (head : Option ℕ) (m : Mutex) (d : ℕ → ℕ) (xs : List ℕ)
      → i < n
      → s.pc i ≡ run
      → s.waker ≡ none
      → Queueing max n s xs
      → Unlocked max s.mutex head m
      → (ys : List ℕ) × Queueing max n
          (record { mutex = m; waker = some (i, head); depth = d; pc = update s.pc i waking })
          ys
  unlocks-Queueing s i head m d xs lt at free q (inl (no_head, same)) = (
    xs,
    record {
      waiting =
          rw (no_head, same.queue)
            (Waiting-take_none i lt at xs (rw free at q.waiting) q.waiting.holds);
      live = λ ne. ground (arith, q.live ne, same.flag);
    },
  )
  unlocks-Queueing s i head m d [] lt at free q (inr (taken, left)) = (
    [],
    record {
      waiting =
          rw (left, ← taken, dequeue-Holds [] q.waiting.holds)
            (Waiting-take_none i lt at [] (rw free at q.waiting) q.waiting.holds);
      live = λ ne. absurd (ne refl);
    },
  )
  unlocks-Queueing s i head m d (x ∷ xs) lt at free q (inr (taken, left)) = (
    xs,
    record {
      waiting =
          rw (left, ← taken, (dequeue-Holds (x ∷ xs) q.waiting.holds).0)
            (Waiting-take i lt at x xs (rw free at q.waiting)
              (dequeue-Holds (x ∷ xs) q.waiting.holds).1);
      live = λ ne. inr (inr (i, x, ground (arith, (dequeue-Holds (x ∷ xs) q.waiting.holds).0)));
    },
  )

  pub Step-Queueing :
      {s t : System} {xs : List ℕ}
      → n ≤ max
      → Step max n s t
      → Queueing max n s xs
      → (ys : List ℕ) × Queueing max n t ys
  Step-Queueing {s} {xs = xs} fits (return_early i r m lt at e) q =
      let same = lock_entry-Same i s.mutex r m e in
      (
        xs,
        record {
          waiting = rw same.queue q.waiting;
          live = λ ne. ground (arith, q.live ne, same.flag);
        },
      )
  Step-Queueing {s} {xs = xs} fits (enter i lt at e) q = (
    xs,
    record {
      waiting = Waiting-move q.waiting i locking lt (ground arith) (ground arith);
      live = λ ne. inr (inl (i, ground arith));
    },
  )
  Step-Queueing {s} {xs = xs} fits (acquire i m lt at e) q =
      let (same, taken) = acquire-queue max i s.mutex m e in
      (
        xs,
        record {
          waiting = rw same (Waiting-move q.waiting i run lt (ground arith) (ground arith));
          live = λ ne. inl taken;
        },
      )
  Step-Queueing {s} {xs = xs} fits (wait i m lt at e) q =
      let (new, _, locked) = wait-queue max i s.mutex m e in
      (
        xs ++ i ∷ [],
        record {
          waiting = rw new (
              Waiting-enqueue q.waiting i lt at
                (enqueue-Holds i (length-lt q.waiting i lt fits (ground arith)) q.waiting.holds));
          live = λ ne. inl locked;
        },
      )
  Step-Queueing {s} {xs = xs} fits (sleep i lt at) q = (
    xs,
    record {
      waiting = Waiting-move q.waiting i sleeping lt (ground arith) (ground arith);
      live = λ ne. ground (arith, q.live ne);
    },
  )
  Step-Queueing {s} {xs = xs} fits (try i r m lt at e) q =
      let (same, stays) = trylock-queue i s.mutex r m e in
      (xs, record { waiting = rw same q.waiting; live = λ ne. ground (arith, q.live ne, stays) })
  Step-Queueing {s} {xs = xs} fits (unlocks i r head m lt at free e) q =
      unlocks-Queueing s i head m _ xs lt at free q (unlock-Unlocked max i s.mutex r head m e)
  Step-Queueing {s} {xs = xs} fits (wakeup i t e at) q = (
    xs,
    record {
      waiting = Waiting-wakeup q.waiting i t e at;
      live = λ ne. inr (inl (t, ground arith));
    },
  )
  Step-Queueing {s} {xs = xs} fits (finish i e) q = (
    xs,
    record {
      waiting = Waiting-finish q.waiting i e;
      live = λ ne. ground (arith, q.live ne, q.waiting.awake i none e);
    },
  )
