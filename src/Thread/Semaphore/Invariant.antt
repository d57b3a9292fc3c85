-- ===== src/Thread/Semaphore/Invariant.antt =====
-- What holds in every state that the callers of a semaphore can reach.
use libnanvix.Shared.{
  ℕ, suc, ◌+◌, ◌<◌, ◌≤◌, ◌≡◌, ◌≢◌, refl, List, [], ◌∷◌, ◌++◌, Option, none, some, increment, pos,
  pos_part, arith, update, sum_below, sum_below-change,
}
use libnanvix.Thread.WaitQueue
use libnanvix.Thread.WaitQueue.{enqueue, dequeue_clear}
use libnanvix.Thread.WaitQueue.Fifo.{init-Holds, enqueue-Holds, dequeue_clear-Holds}
use libnanvix.Thread.Waiting.{Pc, run, locking, sleeping, waking, Waker}
use libnanvix.Thread.Waiting.Invariant.{
  Waiting, length-lt, Waiting-move, Waiting-enqueue, Waiting-wakeup, Waiting-finish, Waiting-take,
  Waiting-take_none,
}
use libnanvix.Thread.Semaphore.{Semaphore, init}
use libnanvix.Thread.Semaphore.System.{
  System, Step, enter, acquire, wait, sleep, try, ups_one, wakeup, finish, start, taken,
}
use libnanvix.Thread.Semaphore.Free.{Free, init-Free, enqueue-Free, dequeue_clear-Free}
use libnanvix.Thread.Semaphore.Permits.{acquire-Took, trywait-Took, wait-queue, up-queue}

abbrev pub at_loop : Pc → ℕ
at_loop locking = 1
at_loop _ = 0

-- The threads at the head of the loop of down.
abbrev pub lockers : ℕ → (ℕ → Pc) → ℕ
lockers n pc = sum_below n (λ i. at_loop (pc i))

-- 1 while a dequeued thread is still to be woken up.
abbrev pub pending : Waker → ℕ
pending none = 0
pending (some (i, none)) = 0
pending (some (i, some t)) = 1

pub lockers-update :
    (n i : ℕ) (pc : ℕ → Pc) (p : Pc)
    → i < n
    → lockers n (update pc i p) + at_loop (pc i) ≡ lockers n pc + at_loop p
lockers-update n i pc p lt = ground (
  arith,
  sum_below-change n (λ j. at_loop (update pc i p j)) (λ j. at_loop (pc j)) i (λ j ne. ground arith)
      lt,
)

pub record Inv (max n v : ℕ) (s : System) (xs : List ℕ) : Type 0 where
  pub waiting : Waiting max n s.sem.queue s.waker s.pc xs
  pub free : Free max s.sem.queue
  pub units : (w : ℕ) × (s.sem.val ≡ pos w) × (w + s.downs ≡ v + s.ups)
  pub live : xs ≢ [] → pos_part s.sem.val ≤ lockers n s.pc + pending s.waker

pub start-Inv :
    (max n v : ℕ) (sem : Semaphore) → 0 < max → init (pos v) ≡ some sem → Inv max n v (start sem) []
unfolding init
start-Inv max n v sem positive e = record {
  waiting = record {
    holds = rw fresh (init-Holds 0 max positive);
    counted = λ i. refl;
    awake = λ j h f. cc;
    outside = λ i le. refl;
  };
  free = rw fresh (init-Free max);
  units = (v, ground arith, ground arith);
  live = λ ne. absurd (ne refl);
}
  where
    fresh : sem.queue ≡ WaitQueue.init
    fresh = ground arith

module _ {max n v : ℕ} where
  -- `up` inside `lock2`, by what it took out of the queue.
  ups-Inv :
      (s : System) (i : ℕ) (tid : Option ℕ) (sem : Semaphore) (xs : List ℕ)
      → i < n
      → s.pc i ≡ run
      → s.waker ≡ none
      → Inv max n v s xs
      → (sem.val ≡ increment s.sem.val)
        × ((dequeue_clear max s.sem.queue).0 ≡ tid)
        × (sem.queue ≡ (dequeue_clear max s.sem.queue).1)
      → (ys : List ℕ) × Inv max n v
          (record {
            sem = sem;
            waker = some (i, tid);
            downs = s.downs;
            ups = s.ups + 1;
            pc = update s.pc i waking;
          })
          ys
  ups-Inv s i tid sem [] lt at free q (more, taken, left) = (
    [],
    record {
      waiting =
          rw (left, ← taken, dequeue_clear-Holds [] q.waiting.holds)
            (Waiting-take_none i lt at [] (rw free at q.waiting) q.waiting.holds);
      free = rw left (dequeue_clear-Free max s.sem.queue q.waiting.holds.begins q.free);
      units = (suc q.units.0, rw (more, q.units.1), omega (arith, q.units.2));
      live = λ ne. absurd (ne refl);
    },
  )
  ups-Inv s i tid sem (x ∷ xs) lt at free q (more, taken, left) =
      let out = dequeue_clear-Holds (x ∷ xs) q.waiting.holds in
      (
        xs,
        record {
          waiting =
              rw (left, ← taken, out.0) (Waiting-take i lt at x xs (rw free at q.waiting) out.1);
          free = rw left (dequeue_clear-Free max s.sem.queue q.waiting.holds.begins q.free);
          units = (suc q.units.0, rw (more, q.units.1), omega (arith, q.units.2));
          live = λ ne.
              ground (arith, out.0, q.live (λ f. cc), q.units.1, lockers-update n i s.pc waking lt);
        },
      )

  pub Step-Inv :
      {s t : System} {xs : List ℕ}
      → n ≤ max
      → Step max n s t
      → Inv max n v s xs
      → (ys : List ℕ) × Inv max n v t ys
  Step-Inv {s} {xs = xs} fits (enter i lt at) q = (
    xs,
    record {
      waiting = Waiting-move q.waiting i locking lt (ground arith) (ground arith);
      free = q.free;
      units = q.units;
      live = λ ne. ground (arith, q.live ne, lockers-update n i s.pc locking lt);
    },
  )
  Step-Inv {s} {xs = xs} fits (acquire i sem lt at e) q =
      let took = acquire-Took max i s.sem sem e in
      let (w, f, sum) = took.val q.units.0 q.units.1 in
      (
        xs,
        record {
          waiting = rw took.queue (Waiting-move q.waiting i run lt (ground arith) (ground arith));
          free = rw took.queue q.free;
          units = (w, f, omega (arith, q.units.2, sum));
          live = λ ne. ground (arith, q.live ne, f, sum, q.units.1, lockers-update n i s.pc run lt);
        },
      )
  Step-Inv {s} {xs = xs} fits (wait i sem lt at e) q =
      let (same, none_left, new) = wait-queue max i s.sem sem e in
      (
        xs ++ i ∷ [],
        record {
          waiting = rw new (
              Waiting-enqueue q.waiting i lt at
                (enqueue-Holds i (length-lt q.waiting i lt fits (ground arith)) q.waiting.holds));
          free = rw new (enqueue-Free max i s.sem.queue xs q.waiting.holds q.free);
          units = (q.units.0, rw (same, q.units.1), q.units.2);
          live = λ ne. ground (arith, same, none_left);
        },
      )
  Step-Inv {s} {xs = xs} fits (sleep i lt at) q = (
    xs,
    record {
      waiting = Waiting-move q.waiting i sleeping lt (ground arith) (ground arith);
      free = q.free;
      units = q.units;
      live = λ ne. ground (arith, q.live ne, lockers-update n i s.pc sleeping lt);
    },
  )
  Step-Inv {s} {xs = xs} fits (try i r sem lt at e) q =
      let took = trywait-Took s.sem sem r e in
      let (w, f, sum) = took.val q.units.0 q.units.1 in
      (
        xs,
        record {
          waiting = rw took.queue q.waiting;
          free = rw took.queue q.free;
          units = (w, f, omega (arith, q.units.2, sum));
          live = λ ne. ground (arith, q.live ne, f, sum, q.units.1);
        },
      )
  Step-Inv {s} {xs = xs} fits (ups_one i tid sem lt at free e) q =
      ups-Inv s i tid sem xs lt at free q (up-queue max s.sem sem tid e)
  Step-Inv {s} {xs = xs} fits (wakeup i t e at) q = (
    xs,
    record {
      waiting = Waiting-wakeup q.waiting i t e at;
      free = q.free;
      units = q.units;
      live =
          λ ne. ground (arith, q.live ne, e, lockers-update n t s.pc locking, q.waiting.outside t);
    },
  )
  Step-Inv {s} {xs = xs} fits (finish i e) q = (
    xs,
    record {
      waiting = Waiting-finish q.waiting i e;
      free = q.free;
      units = q.units;
      live = λ ne. ground (
        arith,
        q.live ne,
        q.waiting.awake i none e,
        q.waiting.outside i,
        lockers-update n i s.pc run,
      );
    },
  )
