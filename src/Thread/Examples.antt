-- ===== src/Thread/Examples.antt =====
-- Runs of the library at concrete inputs, and the theorems of Thread at them.
use libnanvix.Shared.{
  ℕ, zero, suc, ◌+◌, ◌<◌, ◌≤◌, ◌≡◌, ◌≢◌, refl, ◌⊎◌, inl, inr, List, [], ◌∷◌, Bool, true, false,
  Option, none, some, pos, ok, fail, eperm, panic, arith,
}
use libnanvix.Thread.WaitQueue
use libnanvix.Thread.WaitQueue.{
  WaitQueue, enqueue, dequeue, dequeue_clear, enqueue_after, dequeue_after,
}
use libnanvix.Thread.WaitQueue.Fifo.{Holds, init-Holds, enqueue_after-Holds}
use libnanvix.Thread.WaitQueue.Refinement.{
  mutex_queue, semaphore_queue, condvar_queue, run as run_queue, run_list, puts, takes,
  queues-refine,
}
use libnanvix.Thread.Mutex
use libnanvix.Thread.Mutex.{Mutex, lock_entry, lock_round, trylock, unlock}
use libnanvix.Thread.Mutex.Attr.{MutexAttr, recursive}
use libnanvix.Thread.Mutex.System as MutexSystem
use libnanvix.Thread.Mutex.Safety as MutexSafety
use libnanvix.Thread.Semaphore
use libnanvix.Thread.Semaphore.{down_round, up}
use libnanvix.Thread.Semaphore.System as SemSystem
use libnanvix.Thread.Semaphore.Safety as SemSafety
use libnanvix.Thread.Fence
use libnanvix.Thread.Fence.{arrive, exits}
use libnanvix.Thread.Fence.System as FenceSystem
use libnanvix.Thread.Fence.Rounds.{rounds-le-calls, somebody-exits}
use libnanvix.Thread.CondVar.{CondVar, broadcast}
use libnanvix.Thread.CondVar.Broadcast.{joined, broadcast-wakes}

-- The queues of two threads in arrays of two slots.
queues-refine_example :
    (run_queue (mutex_queue 2) WaitQueue.init (puts 7 ∷ puts 8 ∷ takes ∷ puts 9 ∷ takes ∷ [])
      ≡ some 7 ∷ some 8 ∷ [])
    × (run_queue (semaphore_queue 2) WaitQueue.init (puts 7 ∷ puts 8 ∷ takes ∷ puts 9 ∷ takes ∷ [])
        ≡ some 7 ∷ some 8 ∷ [])
    × (run_queue (condvar_queue 2) WaitQueue.init (puts 7 ∷ puts 8 ∷ takes ∷ puts 9 ∷ takes ∷ [])
        ≡ some 7 ∷ some 8 ∷ [])
unfolding run_list
queues-refine_example =
    queues-refine 2 (puts 7 ∷ puts 8 ∷ takes ∷ puts 9 ∷ takes ∷ []) (omega arith) (omega arith)

abbrev recursive_attr : Option MutexAttr
recursive_attr = some (record { type = recursive })

-- Thread 0 holds a recursive mutex, thread 1 is queued for it.
abbrev contended : (s : MutexSystem.System) × MutexSystem.Reach 2 2 recursive_attr s
unfolding Mutex.init trylock lock_entry lock_round
contended = (
  _,
  MutexSystem.later
      (MutexSystem.later
        (MutexSystem.later MutexSystem.begins (MutexSystem.try 0 (ok 0) _ (omega arith) refl refl))
        (MutexSystem.enter 1 (omega arith) refl refl))
      (MutexSystem.wait 1 _ (omega arith) refl refl),
)

mutual_exclusion_example : ◌≡◌ {A = ℕ} 0 0
unfolding contended
mutual_exclusion_example =
    MutexSafety.mutual_exclusion contended.1 (inl (inr refl)) 0 0 (omega arith) (omega arith)

no_lost_wakeup_example : MutexSafety.Reached contended.0
unfolding contended
no_lost_wakeup_example =
    MutexSafety.no_lost_wakeup (omega arith) (omega arith) contended.1 (inl (inr refl)) 1 refl

unlock_checked_example :
    ((contended.0.depth 1 ≡ 0)
      × (unlock 2 1 contended.0.mutex ≡ (fail eperm, none, contended.0.mutex)))
    ⊎ ((0 < contended.0.depth 1) × ((unlock 2 1 contended.0.mutex).0 ≡ ok 0))
unfolding contended
unlock_checked_example = MutexSafety.unlock_checked contended.1 1 (inr refl)

unlock-recursive_example :
    ((unlock 2 0 contended.0.mutex).0 ≡ ok 0) × ((unlock 2 0 contended.0.mutex).2.locked ≡ false)
unfolding contended
unlock-recursive_example = MutexSafety.unlock-recursive contended.1 0 refl (omega arith)

-- Thread 0 holds the mutex, and thread 1 is about to try to lock it.
abbrev rivals : (s : MutexSystem.System) × MutexSystem.Reach 2 2 none s
unfolding Mutex.init trylock lock_entry
rivals = (
  _,
  MutexSystem.later
      (MutexSystem.later MutexSystem.begins (MutexSystem.try 0 (ok 0) _ (omega arith) refl refl))
      (MutexSystem.enter 1 (omega arith) refl refl),
)

queue_never_full_example : lock_round 2 1 rivals.0.mutex ≢ panic
unfolding rivals
queue_never_full_example =
    MutexSafety.queue_never_full (omega arith) (omega arith) rivals.1 1 (omega arith) refl

-- Thread 1 unlocks the mutex that thread 0 holds, and then locks it itself.
abbrev unlocked_by_another : (s : MutexSystem.System) × MutexSystem.Reach 2 2 none s
unfolding Mutex.init trylock unlock dequeue
unlocked_by_another = (
  _,
  MutexSystem.later
      (MutexSystem.later
        (MutexSystem.later
          (MutexSystem.later MutexSystem.begins
            (MutexSystem.try 0 (ok 0) _ (omega arith) refl refl))
          (MutexSystem.unlocks 1 (ok 0) none _ (omega arith) refl refl refl))
        (MutexSystem.finish 1 refl))
      (MutexSystem.try 1 (ok 0) _ (omega arith) refl refl),
)

-- So both threads hold it.
two_holders : (unlocked_by_another.0.depth 0 ≡ 1) × (unlocked_by_another.0.depth 1 ≡ 1)
unfolding unlocked_by_another
two_holders = (refl, refl)

-- Thread 1 waits at an empty semaphore, and thread 0 has just added a unit.
abbrev raised : (s : SemSystem.System) × SemSystem.Reach 2 2 0 s
unfolding Semaphore.init down_round Semaphore.may_queue Semaphore.is_queued up
raised = (
  _,
  SemSystem.later
      (SemSystem.later
        (SemSystem.later (SemSystem.begins _ refl) (SemSystem.enter 1 (omega arith) refl))
        (SemSystem.wait 1 _ (omega arith) refl refl))
      (SemSystem.ups_one 0 (some 1) _ (omega arith) refl refl refl),
)

permits_conserved_example :
    (w : ℕ) × (raised.0.sem.val ≡ pos w) × (w + raised.0.downs ≡ 0 + raised.0.ups)
unfolding raised
permits_conserved_example = SemSafety.permits_conserved (omega arith) (omega arith) raised.1

units_reach_waiters_example : SemSafety.Served raised.0
unfolding raised
units_reach_waiters_example =
    SemSafety.units_reach_waiters (omega arith) (omega arith) raised.1 1 refl (omega arith)

-- Thread 1 is about to take a unit of an empty semaphore.
abbrev lowering : (s : SemSystem.System) × SemSystem.Reach 2 2 0 s
unfolding Semaphore.init
lowering = (_, SemSystem.later (SemSystem.begins _ refl) (SemSystem.enter 1 (omega arith) refl))

checks_hold_example : (down_round 2 1 lowering.0.sem ≢ panic) × (up 2 lowering.0.sem ≢ panic)
unfolding lowering
checks_hold_example =
    SemSafety.checks_hold (omega arith) (omega arith) lowering.1 1 (omega arith) refl

-- Two threads have both arrived at their fence.
abbrev arrived : (s : FenceSystem.System) × FenceSystem.Reach 2 s
unfolding Fence.init arrive
arrived = (
  _,
  FenceSystem.later
      (FenceSystem.later FenceSystem.begins (FenceSystem.arrives 0 true _ (omega arith) refl refl))
      (FenceSystem.arrives 1 true _ (omega arith) refl refl),
)

rounds-le-calls_example : arrived.0.rounds 0 ≤ 0 + 1
unfolding arrived
rounds-le-calls_example = rounds-le-calls (omega arith) arrived.1 0 1 (omega arith) (omega arith)

all_inside : (i : ℕ) → i < 2 → arrived.0.pc i ≢ FenceSystem.outside
unfolding arrived
all_inside i lt = ground arith

somebody-exits_example :
    (i : ℕ) × (l : Bool) × (i < 2)
    × (arrived.0.pc i ≡ FenceSystem.spinning l)
    × (exits l arrived.0.fence ≡ true)
unfolding arrived
somebody-exits_example = somebody-exits (omega arith) arrived.1 all_inside

-- Threads 4 and 5 wait; thread 6 joins while the broadcast wakes up the first of them.
abbrev arrivals : ℕ → List ℕ
arrivals zero = []
arrivals (suc k) = 6 ∷ []

abbrev two_waiting : CondVar
two_waiting = record { queue = enqueue_after 4 5 (enqueue_after 4 4 WaitQueue.init) }

two_waiting-Holds : Holds 1 4 two_waiting.queue (4 ∷ 5 ∷ [])
two_waiting-Holds =
    enqueue_after-Holds 5 (omega arith)
      (enqueue_after-Holds 4 (omega arith) (init-Holds 1 4 (omega arith)))

broadcast-wakes_example :
    ((broadcast 4 arrivals two_waiting).0 ≡ some 4 ∷ some 5 ∷ [])
    × Holds 1 4 (broadcast 4 arrivals two_waiting).1.queue (6 ∷ [])
unfolding joined
broadcast-wakes_example =
    broadcast-wakes 4 arrivals (4 ∷ 5 ∷ []) two_waiting (omega arith) two_waiting-Holds
