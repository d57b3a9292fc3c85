-- ===== src/Thread/Mutex/Queueing.antt =====
-- What the operations of the mutex do to its flag and to its queue.
use libnanvix.Shared.{
  ℕ, ◌<◌, ◌≡◌, ◌≢◌, ◌⊎◌, true, false, Option, none, some, Ret, done, panic, arith,
}
use libnanvix.Thread.WaitQueue.{enqueue, dequeue}
use libnanvix.Thread.Mutex.{Mutex, lock_entry, lock_round, trylock, unlock}

-- The flag and the queue stay.
pub record Same (m m' : Mutex) : Type 0 where
  pub flag : m'.locked ≡ m.locked
  pub queue : m'.queue ≡ m.queue

pub lock_entry-Same :
    (i : ℕ) (m : Mutex) (r : Ret) (m' : Mutex) → lock_entry i m ≡ some (r, m') → Same m m'
unfolding lock_entry
lock_entry-Same i m r m' e = record { flag = ground arith; queue = ground arith }

pub trylock-queue :
    (i : ℕ) (m : Mutex) (r : Ret) (m' : Mutex)
    → trylock i m ≡ (r, m')
    → (m'.queue ≡ m.queue) × (m.locked ≡ true → m'.locked ≡ true)
unfolding trylock
trylock-queue i m r m' e = (ground arith, λ l. ground arith)

pub acquire-queue :
    (max i : ℕ) (m m' : Mutex)
    → lock_round max i m ≡ done (true, m')
    → (m'.queue ≡ m.queue) × (m'.locked ≡ true)
unfolding lock_round
acquire-queue max i m m' e = (ground arith, ground arith)

pub wait-queue :
    (max i : ℕ) (m m' : Mutex)
    → lock_round max i m ≡ done (false, m')
    → (m'.queue ≡ enqueue max i m.queue) × (m.locked ≡ true) × (m'.locked ≡ true)
unfolding lock_round
wait-queue max i m m' e = (ground arith, ground arith, ground arith)

-- With room in the queue the KASSERT() of a round holds.
pub lock_round-ne-panic : (max i : ℕ) (m : Mutex) → m.queue.size < max → lock_round max i m ≢ panic
unfolding lock_round
lock_round-ne-panic max i m room = ground arith

-- An unlock that succeeds for the last time takes the head out of the queue; any other leaves the
-- flag and the queue.
abbrev pub Unlocked : ℕ → Mutex → Option ℕ → Mutex → Type 0
Unlocked max m head m' =
    ((head ≡ none) × Same m m')
    ⊎ ((dequeue max m.queue).0 ≡ head) × (m'.queue ≡ (dequeue max m.queue).1)

pub unlock-Unlocked :
    (max i : ℕ) (m : Mutex) (r : Ret) (head : Option ℕ) (m' : Mutex)
    → unlock max i m ≡ (r, head, m')
    → Unlocked max m head m'
unfolding unlock
unlock-Unlocked max i m r head m' e = ground arith
