-- ===== src/Thread/Mutex/Safety.antt =====
-- The guarantees of src/libnanvix/thread/mutex.c for threads that share a mutex.
use libnanvix.Shared.{
  ℕ, ◌<◌, ◌≤◌, ◌≡◌, ◌≢◌, ◌⊎◌, inl, inr, List, [], ◌∷◌, not, Option, none, some, ok, fail, eperm,
  panic, arith, ◌==◌, is_tid, Option-cases, Bool-cases,
}
use libnanvix.Thread.Waiting.{locking, waits}
use libnanvix.Thread.Waiting.Invariant.{length-lt, target-Waiting, waiter-target}
use libnanvix.Thread.Mutex.{lock_round, unlock}
use libnanvix.Thread.Mutex.Attr.{MutexAttr, recursive}
use libnanvix.Thread.Mutex.System.{System, Reach, begins, later, ChecksOwner, Disciplined}
use libnanvix.Thread.Mutex.Queueing.{lock_round-ne-panic}
use libnanvix.Thread.Mutex.Invariant.{
  Locking, Queueing, Live, start-Locking, start-Queueing, Step-type, Step-Locking, Step-Queueing,
}

-- What `no_lost_wakeup` states of a state.
abbrev pub Reached : System → Type 0
Reached s =
    ((j : ℕ) × (0 < s.depth j))
    ⊎ ((j : ℕ) × (s.pc j ≡ locking))
    ⊎ ((j : ℕ) × (t : ℕ) × (s.waker ≡ some (j, some t)) × (waits (s.pc t) ≡ 1))

live-Reached :
    {max n : ℕ} (s : System) (xs : List ℕ) → Locking s → Queueing max n s xs → Live s → Reached s
live-Reached s xs l q (inl locked) = elim (Option-cases s.mutex.owner) [
  | inl free ↦ absurd (ground (arith, l.owned.flag))
  | inr (j, own) ↦ inl (j, ground (arith, l.depths j, l.owned.level))
]
live-Reached s xs l q (inr (inl at)) = inr (inl at)
live-Reached s xs l q (inr (inr (j, t, e))) = inr (inr (j, t, e, target-Waiting q.waiting j t e))

reached :
    {max n : ℕ} (s : System) (xs : List ℕ)
    → Locking s
    → Queueing max n s xs
    → (i : ℕ) → waits (s.pc i) ≡ 1
    → Reached s
reached s [] l q i e =
    let (j, f) = waiter-target s.waker i (omega (arith, q.waiting.counted i)) in
    inr (inr (j, i, f, e))
reached s (x ∷ xs) l q i e = live-Reached s (x ∷ xs) l q (q.live (λ f. cc))

module _ {max n : ℕ} {mattr : Option MutexAttr} where
  Reach-Locking :
      {s : System} (r : Reach max n mattr s) → ChecksOwner s.mutex ⊎ Disciplined r → Locking s
  Reach-Locking begins k = start-Locking mattr
  Reach-Locking (later {s = u} r st) (inl checked) =
      let before : ChecksOwner u.mutex = rw (← Step-type st) checked in
      Step-Locking st (inl before) (Reach-Locking r (inl before))
  Reach-Locking (later r st) (inr (d, by)) = Step-Locking st (inr by) (Reach-Locking r (inr d))

  Reach-Queueing :
      {s : System} → 0 < max → n ≤ max → Reach max n mattr s → (xs : List ℕ) × Queueing max n s xs
  Reach-Queueing pos fits begins = ([], start-Queueing max n mattr pos)
  Reach-Queueing pos fits (later r st) = Step-Queueing fits st (Reach-Queueing pos fits r).1

  -- Two threads that hold the mutex are the same thread, in every state that threads reach by
  -- calling lock, trylock and unlock on a fresh mutex in any order, if the mutex is error checking
  -- or recursive, whoever calls unlock; and for a mutex of any type if every unlock of the run is
  -- called by a thread that holds it.
  pub mutual_exclusion :
      {s : System} (r : Reach max n mattr s)
      → ChecksOwner s.mutex ⊎ Disciplined r
      → (i j : ℕ) → 0 < s.depth i
      → 0 < s.depth j
      → i ≡ j
  mutual_exclusion r k i j hi hj =
      let l = Reach-Locking r k in ground (arith, l.depths i, l.depths j)

  -- Whoever waits can still be reached: in every state in which a thread is queued or asleep, some
  -- thread holds the mutex, or some thread is about to try to lock it, or a thread that holds
  -- `lock2` is about to wake up one that is queued or asleep. The state is reached by at most
  -- THREAD_MAX threads, for a THREAD_MAX above 0, on an error checking or recursive mutex in any run,
  -- on another one in a run whose every unlock is called by a thread that holds it.
  pub no_lost_wakeup :
      {s : System}
      → 0 < max
      → n ≤ max
      → (r : Reach max n mattr s) → ChecksOwner s.mutex ⊎ Disciplined r
      → (i : ℕ) → waits (s.pc i) ≡ 1
      → Reached s
  no_lost_wakeup {s} pos fits r k i e =
      let (xs, q) = Reach-Queueing pos fits r in reached s xs (Reach-Locking r k) q i e

  -- The KASSERT() that the queue is not full holds in every round of the lock loop, if there are no
  -- more threads than THREAD_MAX, which is above 0.
  pub queue_never_full :
      {s : System}
      → 0 < max
      → n ≤ max
      → Reach max n mattr s
      → (i : ℕ) → i < n
      → s.pc i ≡ locking
      → lock_round max i s.mutex ≢ panic
  queue_never_full {s} pos fits r i lt at =
      let (xs, q) = Reach-Queueing pos fits r in
      lock_round-ne-panic max i s.mutex
        (omega (arith, q.waiting.holds.counted, length-lt q.waiting i lt fits (ground arith)))

  -- On an error checking or recursive mutex an unlock by a thread that does not hold it returns
  -- -EPERM, wakes up nobody and leaves the mutex as it is; any other unlock returns 0.
  pub unlock_checked :
      {s : System}
      → Reach max n mattr s
      → (i : ℕ) → ChecksOwner s.mutex
      → ((s.depth i ≡ 0) × (unlock max i s.mutex ≡ (fail eperm, none, s.mutex)))
        ⊎ ((0 < s.depth i) × ((unlock max i s.mutex).0 ≡ ok 0))
  unfolding unlock
  unlock_checked {s} r i checked =
      let l = Reach-Locking r (inl checked) in
      elim (Bool-cases (is_tid s.mutex.owner i)) [
        | inl own ↦ inr (
          ground (arith, l.depths i, l.owned.flag, l.owned.level),
          ground (arith, l.owned.flag, l.owned.level),
        )
        | inr other ↦ inl (ground (arith, l.depths i), ground arith)
      ]

  -- A recursive mutex is free again after as many unlocks as there were locks: the unlock of a
  -- thread that holds it with depth d returns 0, and the mutex stays locked unless d is 1.
  pub unlock-recursive :
      {s : System}
      → Reach max n mattr s
      → (i : ℕ) → s.mutex.type ≡ recursive
      → 0 < s.depth i
      → ((unlock max i s.mutex).0 ≡ ok 0) × ((unlock max i s.mutex).2.locked ≡ not (s.depth i == 1))
  unfolding unlock
  unlock-recursive {s} r i rec pos =
      let l = Reach-Locking r (inl (inr rec)) in
      ground (arith, l.depths i, l.owned.flag, l.owned.level)
