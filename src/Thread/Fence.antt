-- ===== src/Thread/Fence.antt =====
-- src/libnanvix/thread/fence.c, with include/nanvix/runtime/fence.h. Each function is one critical
-- section of the fence's spinlock. `release` is only ever 0 or 1, and is a Boolean here.
pub mod System
pub mod Rounds
use libnanvix.Shared.{ℕ, ◌+◌, Bool, true, false, not, ◌&&◌, ◌||◌, ◌==◌, if◌then◌else◌}

pub record Fence : Type 0 where
  pub ncores : ℕ
  pub nreached : ℕ
  pub release : Bool

unfoldable pub init : ℕ → Fence
init ncores = record { ncores = ncores; nreached = 0; release = false }

-- The first critical section of fence(): `local_release`, and the fence.
unfoldable pub arrive : Fence → Bool × Fence
arrive b =
    let local_release = not b.release in
    let nreached = b.nreached + 1 in
    if nreached == b.ncores
    then (local_release, record b { nreached = 0; release = local_release })
    else (local_release, record b { nreached = nreached })

-- One round of the loop of fence(): does it exit?
unfoldable pub exits : Bool → Fence → Bool
exits local_release b = if b.release then local_release else not local_release
