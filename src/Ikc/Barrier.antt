-- ===== src/Ikc/Barrier.antt =====
-- src/libnanvix/ikc/barrier.c, over an interface to the synchronization points that sync.c and
-- msync.c provide. The delay behind a follower's barrier_create() is Delay's, apart from it.
pub mod Outcomes
pub mod Protocol
pub mod Places
pub mod Rounds
pub mod Progress
pub mod Delay
mod Examples
use libnanvix.Shared.{
  ℕ, Bool, true, false, not, ◌&&◌, ◌||◌, List, [], ◌∷◌, Option, none, some, Ret, ok, fail, Errno,
  einval, ltb, ◌==◌, if◌then◌else◌, is_some,
}
use libnanvix.Ikc.Sync.{SyncType, one_to_all, all_to_one}

-- What barrier.c calls, over a world `W`: ids are numbers, and a call may fail.
pub record SyncOps (W : Type 0) : Type 0 where
  pub create : List ℕ → SyncType → W → Ret × W
  pub open_output : List ℕ → SyncType → W → Ret × W
  pub unlink : ℕ → W → Ret × W
  pub close : ℕ → W → Ret × W
  pub wait : ℕ → W → Ret × W
  pub signal : ℕ → W → Ret × W

-- A barrier_t. An id below 0 is `none`; that of a failed call is an error code, which no function
-- looks at.
pub record Barrier : Type 0 where
  pub leader : Option ℕ
  pub sync0 : Option ℕ
  pub sync1 : Option ℕ

-- BARRIER_NULL and BARRIER_IS_VALID()
abbrev pub null : Barrier
null = record { leader = none; sync0 = none; sync1 = none }

abbrev pub is_valid : Barrier → Bool
is_valid b = is_some b.leader && is_some b.sync0 && is_some b.sync1

abbrev pub id_of : Ret → Option ℕ
id_of (ok n) = some n
id_of (fail e) = none

-- `ret = (err < 0) ? err : ret`
abbrev pub keep_error : Ret → Ret → Ret
keep_error (fail e) ret = fail e
keep_error (ok n) ret = ret

module _ {W : Type 0} (ops : SyncOps W) (local : ℕ) where
  open ops use {unlink, close, wait, signal}

  -- Two calls one after the other, with the return value of both functions below.
  both : (W → Ret × W) → (W → Ret × W) → W → Ret × W
  both first second w =
      let (err0, w0) = first w in
      let (err1, w1) = second w0 in (keep_error err1 (keep_error err0 (ok 0)), w1)

  -- The list of nodes is NULL where it is `none`.
  pub barrier_create : Option (List ℕ) → W → Barrier × W
  barrier_create none w = (null, w)
  barrier_create (some []) w = (null, w)
  barrier_create (some (node ∷ [])) w = (null, w)
  barrier_create (some (master ∷ node ∷ nodes)) w =
      let all = master ∷ node ∷ nodes in
      if local == master
      then (let (r0, w0) = ops.create all all_to_one w in
          let (r1, w1) = ops.open_output all one_to_all w0 in
          (record { leader = some master; sync0 = id_of r0; sync1 = id_of r1 }, w1))
      else (let (r1, w1) = ops.create all one_to_all w in
          let (r0, w0) = ops.open_output all all_to_one w1 in
          (record { leader = some master; sync0 = id_of r0; sync1 = id_of r1 }, w0))

  destroy_valid : ℕ → Option ℕ → Option ℕ → W → Ret × W
  unfolding both
  destroy_valid leader (some sync0) (some sync1) w =
      if local == leader
      then both (unlink sync0) (close sync1) w
      else both (close sync0) (unlink sync1) w
  destroy_valid leader _ _ w = (fail einval, w)

  pub barrier_destroy : Barrier → W → Ret × W
  unfolding destroy_valid
  barrier_destroy b w = elim b.leader [
    | none ↦ (fail einval, w)
    | some leader ↦ destroy_valid leader b.sync0 b.sync1 w
  ]

  wait_valid : ℕ → Option ℕ → Option ℕ → W → Ret × W
  unfolding both
  wait_valid leader (some sync0) (some sync1) w =
      if local == leader
      then both (wait sync0) (signal sync1) w
      else both (signal sync0) (wait sync1) w
  wait_valid leader _ _ w = (fail einval, w)

  pub barrier_wait : Barrier → W → Ret × W
  unfolding wait_valid
  barrier_wait b w = elim b.leader [
    | none ↦ (fail einval, w)
    | some leader ↦ wait_valid leader b.sync0 b.sync1 w
  ]
