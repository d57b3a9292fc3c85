-- ===== src/Ikc/Barrier/Outcomes.antt =====
-- When the functions of src/libnanvix/ikc/barrier.c succeed, and what they leave behind.
use libnanvix.Shared.{
  ℕ, ◌≡◌, refl, inl, inr, Bool-cases, Bool, true, false, List, ◌∷◌, some, Ret, ok, fail, Errno,
  einval, ◌==◌, if◌then◌else◌, arith,
}
use libnanvix.Ikc.Sync.{one_to_all, all_to_one}
use libnanvix.Ikc.Barrier.{
  SyncOps, Barrier, is_valid, id_of, barrier_create, barrier_destroy, barrier_wait,
}

-- Did a call return a number?
abbrev pub Succeeds : Ret → Type 0
Succeeds r = (n : ℕ) × (r ≡ ok n)

module _ {W : Type 0} (ops : SyncOps W) (local : ℕ) where
  open ops use {unlink, close, wait, signal}

  -- A barrier of which one synchronization point could not be had cannot be waited for, and cannot
  -- be destroyed either: both functions return -EINVAL and change nothing.
  pub invalid-barrier :
      (b : Barrier) (w : W)
      → is_valid b ≡ false
      → (barrier_wait ops local b w ≡ (fail einval, w))
        × (barrier_destroy ops local b w ≡ (fail einval, w))
  unfolding barrier_wait barrier_destroy
  invalid-barrier b w e = (ground arith, ground arith)

  -- What barrier_destroy() makes of a barrier with the two answers of barrier_create()'s calls of
  -- ksync_create() and ksync_open(), in the world that these left: it unlinks the created point and
  -- closes the opened one if it has both, and else neither.
  abbrev pub Destroys : (is_leader : Bool) (created opened : Ret) → Barrier → W → Type 0
  Destroys true (ok created) (ok opened) b w =
      (barrier_destroy ops local b w).1 ≡ (close opened (unlink created w).1).1
  Destroys false (ok created) (ok opened) b w =
      (barrier_destroy ops local b w).1 ≡ (unlink created (close opened w).1).1
  Destroys is_leader _ _ b w =
      (barrier_destroy ops local b w ≡ (fail einval, w))
      × (barrier_wait ops local b w ≡ (fail einval, w))

  leader-Destroys :
      (master : ℕ) (created opened : Ret) (w : W)
      → (local == master) ≡ true
      → Destroys true created opened
          (record { leader = some master; sync0 = id_of created; sync1 = id_of opened })
          w
  unfolding barrier_destroy barrier_wait
  leader-Destroys master (ok created) (ok opened) w here = ground (arith, here)
  leader-Destroys master (ok created) (fail e) w here = (refl, refl)
  leader-Destroys master (fail e) opened w here = (refl, refl)

  follower-Destroys :
      (master : ℕ) (created opened : Ret) (w : W)
      → (local == master) ≡ false
      → Destroys false created opened
          (record { leader = some master; sync0 = id_of opened; sync1 = id_of created })
          w
  unfolding barrier_destroy barrier_wait
  follower-Destroys master (ok created) (ok opened) w away = ground (arith, away)
  follower-Destroys master (ok created) (fail e) w away = (refl, refl)
  follower-Destroys master (fail e) (ok opened) w away = (refl, refl)
  follower-Destroys master (fail e) (fail f) w away = (refl, refl)

  -- barrier_destroy() after barrier_create(), for at least two nodes, at the leader and at a follower.
  -- The barrier keeps the ids of the points that its own calls of ksync_create() and ksync_open() gave
  -- it, in the places of the node's role. If both calls have succeeded, barrier_destroy() unlinks the
  -- created point and closes the opened one. If one has failed, or both have, barrier_destroy() and
  -- barrier_wait() return -EINVAL and change nothing, so that a point that the other call gave is leaked.
  pub destroy-create :
      (master node : ℕ) (nodes : List ℕ) (w : W)
      → let all = master ∷ node ∷ nodes in
        let is_leader = local == master in
        let (created, w1) = ops.create all (if is_leader then all_to_one else one_to_all) w in
        let (opened, w2) = ops.open_output all (if is_leader then one_to_all else all_to_one) w1 in
        let (b, w3) = barrier_create ops local (some all) w in
        (w3 ≡ w2)
        × ((if is_leader then b.sync0 else b.sync1) ≡ id_of created)
        × ((if is_leader then b.sync1 else b.sync0) ≡ id_of opened)
        × Destroys is_leader created opened b w2
  unfolding barrier_create
  destroy-create master node nodes w = elim (Bool-cases (local == master)) [
    | inl here ↦ rw here (refl, refl, refl, leader-Destroys master _ _ _ here)
    | inr away ↦ rw away (refl, refl, refl, follower-Destroys master _ _ _ away)
  ]

  -- A wait on a valid barrier always makes both of its calls, the leader first waiting for the
  -- followers and then releasing them, a follower the other way round, and it returns 0 if both
  -- succeed and the last error if one fails.
  pub barrier_wait-calls :
      (leader sync0 sync1 : ℕ) (w : W)
      → let b : Barrier = record { leader = some leader; sync0 = some sync0; sync1 = some sync1 } in
        let first = (if local == leader then wait sync0 w else signal sync0 w) in
        let second = (if local == leader then signal sync1 first.1 else wait sync1 first.1) in
        ((barrier_wait ops local b w).1 ≡ second.1)
        × ((e : Errno) → second.0 ≡ fail e → (barrier_wait ops local b w).0 ≡ fail e)
        × ((n : ℕ)
            → second.0 ≡ ok n
            → (e : Errno) → first.0 ≡ fail e
            → (barrier_wait ops local b w).0 ≡ fail e)
        × ((n m : ℕ) → second.0 ≡ ok n → first.0 ≡ ok m → (barrier_wait ops local b w).0 ≡ ok 0)
  unfolding barrier_wait
  barrier_wait-calls leader sync0 sync1 w =
      (ground arith, λ e f. ground arith, λ n f e g. ground arith, λ n m f g. ground arith)
