-- ===== src/Thread/Fence/System.antt =====
-- Threads 0 to n - 1 that call fence() of src/libnanvix/thread/fence.c on one fence, interleaved in
-- any order.
use libnanvix.Shared.{ℕ, ◌+◌, ◌<◌, ◌≡◌, Bool, true, update}
use libnanvix.Thread.Fence.{Fence, init, arrive, exits}

pub data Pc : Type 0 where
  outside : Pc  -- before or behind a call of fence()
  spinning : (local_release : Bool) → Pc  -- at the `do` loop

-- `rounds` counts the calls of fence() that a thread has returned from.
pub record System : Type 0 where
  pub fence : Fence
  pub rounds : ℕ → ℕ
  pub pc : ℕ → Pc

-- The calls that a thread has made.
abbrev pub calls : Pc → ℕ → ℕ
calls outside k = k
calls (spinning _) k = k + 1

module _ (n : ℕ) where
  pub data Step (s : System) : System → Type 0 where
    arrives :
        (i : ℕ) (local_release : Bool) (b : Fence)
        → i < n
        → s.pc i ≡ outside
        → arrive s.fence ≡ (local_release, b)
        → Step s (record s { fence = b; pc = update s.pc i (spinning local_release) })
    leaves :
        (i : ℕ) (local_release : Bool)
        → i < n
        → s.pc i ≡ spinning local_release
        → exits local_release s.fence ≡ true
        → Step s
            (record s { rounds = update s.rounds i (s.rounds i + 1); pc = update s.pc i outside })

-- What `n` threads reach from `fence_init(&b, n)`.
abbrev pub start : ℕ → System
start n = record { fence = init n; rounds = λ _. 0; pc = λ _. outside }

pub data Reach (n : ℕ) : System → Type 0 where
  begins : Reach n (start n)
  later : {s t : System} → Reach n s → Step n s t → Reach n t
