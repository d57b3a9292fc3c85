-- ===== src/Thread/Mutex/System.antt =====
-- Threads that call the functions of src/libnanvix/thread/mutex.c on one mutex, interleaved in any
-- order. `depth` counts, for each thread, the calls of lock and trylock that returned 0 less the
-- calls of unlock that did.
use libnanvix.Shared.{
  ℕ, ◌+◌, ◌-◌, ◌<◌, ◌≡◌, ◌⊎◌, true, false, Option, none, some, Ret, ok, fail, done, update,
}
use libnanvix.Thread.Waiting.{Pc, run, locking, queued, sleeping, waking, Waker}
use libnanvix.Thread.Mutex.{Mutex, init, lock_entry, lock_round, trylock, unlock}
use libnanvix.Thread.Mutex.Attr.{MutexAttr, errorcheck, recursive}

pub record System : Type 0 where
  pub mutex : Mutex
  pub waker : Waker
  pub depth : ℕ → ℕ
  pub pc : ℕ → Pc

-- The new depth of a thread to which lock or trylock, and unlock, returned a value.
abbrev pub gain : Ret → ℕ → ℕ
gain (ok _) d = d + 1
gain (fail _) d = d

abbrev pub loss : Ret → ℕ → ℕ
loss (ok _) d = d - 1
loss (fail _) d = d

-- The two types whose unlock looks at who calls it. Any thread may unlock a mutex of another type.
abbrev pub ChecksOwner : Mutex → Type 0
ChecksOwner m = (m.type ≡ errorcheck) ⊎ (m.type ≡ recursive)

module _ (thread_max n : ℕ) where
  pub data Step (s : System) : System → Type 0 where
    return_early :
        (i : ℕ) (r : Ret) (m : Mutex)
        → i < n
        → s.pc i ≡ run
        → lock_entry i s.mutex ≡ some (r, m)
        → Step s (record s { mutex = m; depth = update s.depth i (gain r (s.depth i)) })
    enter :
        (i : ℕ)
        → i < n
        → s.pc i ≡ run
        → lock_entry i s.mutex ≡ none
        → Step s (record s { pc = update s.pc i locking })
    acquire :
        (i : ℕ) (m : Mutex)
        → i < n
        → s.pc i ≡ locking
        → lock_round thread_max i s.mutex ≡ done (true, m)
        → Step s (record s {
          mutex = m;
          depth = update s.depth i (s.depth i + 1);
          pc = update s.pc i run;
        })
    wait :
        (i : ℕ) (m : Mutex)
        → i < n
        → s.pc i ≡ locking
        → lock_round thread_max i s.mutex ≡ done (false, m)
        → Step s (record s { mutex = m; pc = update s.pc i queued })
    sleep : (i : ℕ) → i < n → s.pc i ≡ queued → Step s (record s { pc = update s.pc i sleeping })
    try :
        (i : ℕ) (r : Ret) (m : Mutex)
        → i < n
        → s.pc i ≡ run
        → trylock i s.mutex ≡ (r, m)
        → Step s (record s { mutex = m; depth = update s.depth i (gain r (s.depth i)) })
    unlocks :
        (i : ℕ) (r : Ret) (head : Option ℕ) (m : Mutex)
        → i < n
        → s.pc i ≡ run
        → s.waker ≡ none
        → unlock thread_max i s.mutex ≡ (r, head, m)
        → Step s (record {
          mutex = m;
          waker = some (i, head);
          depth = update s.depth i (loss r (s.depth i));
          pc = update s.pc i waking;
        })
    wakeup :
        (i t : ℕ)
        → s.waker ≡ some (i, some t)
        → s.pc t ≡ sleeping
        → Step s (record s { waker = some (i, none); pc = update s.pc t locking })
    finish :
        (i : ℕ)
        → s.waker ≡ some (i, none)
        → Step s (record s { waker = none; pc = update s.pc i run })

-- A fresh mutex, on which no thread has called a function yet.
abbrev pub start : Option MutexAttr → System
start mattr = record { mutex = init mattr; waker = none; depth = λ _. 0; pc = λ _. run }

pub data Reach (thread_max n : ℕ) (mattr : Option MutexAttr) : System → Type 0 where
  begins : Reach thread_max n mattr (start mattr)
  later :
      {s t : System}
      → Reach thread_max n mattr s
      → Step thread_max n s t
      → Reach thread_max n mattr t

module _ {thread_max n : ℕ} where
  -- If the step is an unlock, the thread that calls it holds the mutex.
  abbrev pub ByHolder : {s t : System} → Step thread_max n s t → Type 0
  ByHolder {s} (unlocks i r head m lt at free e) = 0 < s.depth i
  ByHolder _ = Unit

  -- Every unlock of the run is by a thread that holds the mutex.
  abbrev pub Disciplined :
      {mattr : Option MutexAttr} {s : System} → Reach thread_max n mattr s → Type 0
  Disciplined begins = Unit
  Disciplined (later r st) = Disciplined r × ByHolder st
