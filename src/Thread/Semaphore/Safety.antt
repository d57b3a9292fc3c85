-- ===== src/Thread/Semaphore/Safety.antt =====
-- The guarantees of src/libnanvix/thread/semaphore.c for threads that share a semaphore.
use native.Mathlib.Decide.{dec_lt}
use libnanvix.Shared.{
  ℕ, ◌+◌, ◌<◌, ◌≤◌, ◌≡◌, ◌≢◌, ◌⊎◌, inl, inr, List, [], ◌∷◌, none, some, pos, pos_part, panic, arith,
  sum_below-pos,
}
use libnanvix.Thread.Waiting.{Pc, locking, Waker, waits}
use libnanvix.Thread.Waiting.Invariant.{length-lt, target-Waiting, waiter-target}
use libnanvix.Thread.Semaphore.{down_round, up}
use libnanvix.Thread.Semaphore.System.{System, Reach, begins, later}
use libnanvix.Thread.Semaphore.Permits.{down_round-ne-panic, up-ne-panic}
use libnanvix.Thread.Semaphore.Invariant.{Inv, lockers, pending, at_loop, start-Inv, Step-Inv}

-- A count of threads at the loop that is not 0 finds one.
find-locker : (n : ℕ) (pc : ℕ → Pc) → 0 < lockers n pc → (j : ℕ) × (pc j ≡ locking)
find-locker n pc h = let (j, at) = sum_below-pos n (λ i. at_loop (pc i)) h in (j, ground arith)

-- A unit can be had, and somebody is on the way to it.
abbrev pub Served : System → Type 0
Served s =
    ((j : ℕ) × (s.pc j ≡ locking))
    ⊎ ((j : ℕ) × (t : ℕ) × (s.waker ≡ some (j, some t)) × (waits (s.pc t) ≡ 1))

pending-target : (w : Waker) → 0 < pending w → (j : ℕ) × (t : ℕ) × (w ≡ some (j, some t))
pending-target none h = absurd (omega arith)
pending-target (some (j, none)) h = absurd (omega arith)
pending-target (some (j, some t)) h = (j, t, ground arith)

served :
    {max n v : ℕ} (s : System) (xs : List ℕ)
    → Inv max n v s xs
    → 0 < lockers n s.pc + pending s.waker
    → Served s
served {n = n} s xs q h = elim (dec_lt 0 (lockers n s.pc)) [
  | yes some_locker ↦ inl (find-locker n s.pc some_locker)
  | no no_locker ↦
      let (j, t, e) = pending-target s.waker (omega arith) in
      inr (j, t, e, target-Waiting q.waiting j t e)
]

module _ {max n v : ℕ} where
  Reach-Inv : {s : System} → 0 < max → n ≤ max → Reach max n v s → (xs : List ℕ) × Inv max n v s xs
  Reach-Inv positive fits (begins sem e) = ([], start-Inv max n v sem positive e)
  Reach-Inv positive fits (later r st) = Step-Inv fits st (Reach-Inv positive fits r).1

  -- No unit is lost or made up: in every state that threads reach from a semaphore initialized to
  -- `v`, its value is a number from 0 on, and the value and the units taken by down and trywait add
  -- up to `v` and the calls of up.
  pub permits_conserved :
      {s : System}
      → 0 < max
      → n ≤ max
      → Reach max n v s
      → (w : ℕ) × (s.sem.val ≡ pos w) × (w + s.downs ≡ v + s.ups)
  permits_conserved positive fits r = (Reach-Inv positive fits r).1.units

  -- Nobody waits for units that nobody is about to take: in every reachable state in which a thread
  -- is queued or asleep and the value is not 0, some thread is about to take a unit, or a thread
  -- that holds `lock2` is about to wake up one that is queued or asleep.
  pub units_reach_waiters :
      {s : System}
      → 0 < max
      → n ≤ max
      → Reach max n v s
      → (i : ℕ) → waits (s.pc i) ≡ 1
      → 0 < pos_part s.sem.val
      → Served s
  units_reach_waiters {s} positive fits r i e units =
      let (xs, q) = Reach-Inv positive fits r in waiter-Served xs q
    where
      waiter-Served : (xs : List ℕ) → Inv max n v s xs → Served s
      waiter-Served [] q =
          let (j, f) = waiter-target s.waker i (omega (arith, q.waiting.counted i)) in
          inr (j, i, f, e)
      waiter-Served (x ∷ xs) q = served s (x ∷ xs) q (omega (arith, q.live (λ f. cc)))

  -- No KASSERT() of the debug build fails in a reachable state, if there are no more threads than
  -- THREAD_MAX: neither those on the queue in a round of down, nor the one on the thread that up
  -- takes out.
  pub checks_hold :
      {s : System}
      → 0 < max
      → n ≤ max
      → Reach max n v s
      → (i : ℕ) → i < n
      → s.pc i ≡ locking
      → (down_round max i s.sem ≢ panic) × (up max s.sem ≢ panic)
  checks_hold {s} positive fits r i lt at =
      let (xs, q) = Reach-Inv positive fits r in
      (
        down_round-ne-panic max i s.sem xs q.waiting.holds q.free
            (ground (arith, q.waiting.counted i)) (length-lt q.waiting i lt fits (ground arith)),
        up-ne-panic max s.sem xs q.waiting.holds,
      )
