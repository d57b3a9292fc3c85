-- ===== src/Thread/Mutex/Ownership.antt =====
-- The owner of the mutex is the only thread that holds it.
use libnanvix.Shared.{
  ℕ, ◌+◌, ◌<◌, ◌≡◌, ◌≢◌, ◌⊎◌, true, false, Option, some, Ret, done, arith, ◌==◌, if◌then◌else◌,
  is_tid, is_some,
}
use libnanvix.Thread.Mutex.{Mutex, lock_entry, lock_round, trylock, unlock}
use libnanvix.Thread.Mutex.Attr.{recursive}
use libnanvix.Thread.Mutex.System.{gain, loss, ChecksOwner}

-- How often thread `i` holds the mutex, read from the mutex.
abbrev pub held : Mutex → ℕ → ℕ
held m i = if is_tid m.owner i then (if m.type == recursive then m.rlevel else 1) else 0

pub record Owned (m : Mutex) : Type 0 where
  pub flag : m.locked ≡ is_some m.owner
  pub level : m.type ≡ recursive → m.locked ≡ true → 0 < m.rlevel
  pub no_level : m.type ≡ recursive → m.locked ≡ false → m.rlevel ≡ 0

-- An operation of thread `i` that leaves it with depth `d` and the mutex `m'`.
pub record Moved (m m' : Mutex) (i d : ℕ) : Type 0 where
  pub owned : Owned m'
  pub same_type : m'.type ≡ m.type
  pub mine : d ≡ held m' i
  pub others : (j : ℕ) → i ≢ j → held m' j ≡ held m j

module _ {m : Mutex} (o : Owned m) (i : ℕ) where
  open o use {flag, level, no_level}

  pub lock_entry-Moved :
      (r : Ret) (m' : Mutex) → lock_entry i m ≡ some (r, m') → Moved m m' i (gain r (held m i))
  unfolding lock_entry
  lock_entry-Moved r m' e = record {
    owned = record {
      flag = ground arith;
      level = λ a b. ground arith;
      no_level = λ a b. ground arith;
    };
    same_type = ground arith;
    mine = ground arith;
    others = λ j ne. ground arith;
  }

  pub trylock-Moved :
      (r : Ret) (m' : Mutex) → trylock i m ≡ (r, m') → Moved m m' i (gain r (held m i))
  unfolding trylock
  trylock-Moved r m' e = record {
    owned = record {
      flag = ground arith;
      level = λ a b. ground arith;
      no_level = λ a b. ground arith;
    };
    same_type = ground arith;
    mine = ground arith;
    others = λ j ne. ground arith;
  }

  pub acquire-Moved :
      (thread_max : ℕ) (m' : Mutex)
      → lock_round thread_max i m ≡ done (true, m')
      → Moved m m' i (held m i + 1)
  unfolding lock_round
  acquire-Moved thread_max m' e = record {
    owned = record {
      flag = ground arith;
      level = λ a b. ground arith;
      no_level = λ a b. ground arith;
    };
    same_type = ground arith;
    mine = ground arith;
    others = λ j ne. ground arith;
  }

  pub wait-Moved :
      (thread_max : ℕ) (m' : Mutex)
      → lock_round thread_max i m ≡ done (false, m')
      → Moved m m' i (held m i)
  unfolding lock_round
  wait-Moved thread_max m' e = record {
    owned = record {
      flag = ground arith;
      level = λ a b. ground arith;
      no_level = λ a b. ground arith;
    };
    same_type = ground arith;
    mine = ground arith;
    others = λ j ne. ground arith;
  }

  pub unlock-Moved :
      (thread_max : ℕ) (r : Ret) (head : Option ℕ) (m' : Mutex)
      → ChecksOwner m ⊎ (0 < held m i)
      → unlock thread_max i m ≡ (r, head, m')
      → Moved m m' i (loss r (held m i))
  unfolding unlock
  unlock-Moved thread_max r head m' may e = record {
    owned = record {
      flag = ground arith;
      level = λ a b. ground arith;
      no_level = λ a b. ground arith;
    };
    same_type = ground arith;
    mine = ground arith;
    others = λ j ne. ground arith;
  }
