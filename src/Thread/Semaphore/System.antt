-- ===== src/Thread/Semaphore/System.antt =====
-- Threads that call the functions of src/libnanvix/thread/semaphore.c on one semaphore, interleaved
-- in any order. `downs` counts the calls of down and trywait that took a unit, `ups` those of up.
use libnanvix.Shared.{
  ℕ, ◌+◌, ◌<◌, ◌≡◌, true, false, Option, none, some, pos, Ret, ok, fail, done, update,
}
use libnanvix.Thread.Waiting.{Pc, run, locking, queued, sleeping, waking, Waker}
use libnanvix.Thread.Semaphore.{Semaphore, init, down_round, up, trywait}

pub record System : Type 0 where
  pub sem : Semaphore
  pub waker : Waker
  pub downs : ℕ
  pub ups : ℕ
  pub pc : ℕ → Pc

abbrev pub taken : Ret → ℕ
taken (ok _) = 1
taken (fail _) = 0

module _ (thread_max n : ℕ) where
  pub data Step (s : System) : System → Type 0 where
    enter : (i : ℕ) → i < n → s.pc i ≡ run → Step s (record s { pc = update s.pc i locking })
    acquire :
        (i : ℕ) (sem : Semaphore)
        → i < n
        → s.pc i ≡ locking
        → down_round thread_max i s.sem ≡ done (true, sem)
        → Step s (record s { sem = sem; downs = s.downs + 1; pc = update s.pc i run })
    wait :
        (i : ℕ) (sem : Semaphore)
        → i < n
        → s.pc i ≡ locking
        → down_round thread_max i s.sem ≡ done (false, sem)
        → Step s (record s { sem = sem; pc = update s.pc i queued })
    sleep : (i : ℕ) → i < n → s.pc i ≡ queued → Step s (record s { pc = update s.pc i sleeping })
    try :
        (i : ℕ) (r : Ret) (sem : Semaphore)
        → i < n
        → s.pc i ≡ run
        → trywait s.sem ≡ (r, sem)
        → Step s (record s { sem = sem; downs = s.downs + taken r })
    ups_one :
        (i : ℕ) (tid : Option ℕ) (sem : Semaphore)
        → i < n
        → s.pc i ≡ run
        → s.waker ≡ none
        → up thread_max s.sem ≡ done (tid, sem)
        → Step s (record s {
          sem = sem;
          waker = some (i, tid);
          ups = s.ups + 1;
          pc = update s.pc i waking;
        })
    wakeup :
        (i t : ℕ)
        → s.waker ≡ some (i, some t)
        → s.pc t ≡ sleeping
        → Step s (record s { waker = some (i, none); pc = update s.pc t locking })
    finish :
        (i : ℕ)
        → s.waker ≡ some (i, none)
        → Step s (record s { waker = none; pc = update s.pc i run })

-- A semaphore that was initialized to `val`, on which no thread has called a function yet.
abbrev pub start : Semaphore → System
start sem = record { sem = sem; waker = none; downs = 0; ups = 0; pc = λ _. run }

-- What threads reach from `nanvix_semaphore_init(&sem, val)`.
pub data Reach (thread_max n val : ℕ) : System → Type 0 where
  begins : (sem : Semaphore) → init (pos val) ≡ some sem → Reach thread_max n val (start sem)
  later :
      {s t : System} → Reach thread_max n val s → Step thread_max n s t → Reach thread_max n val t
