-- ===== src/Ikc/Stdsync.antt =====
-- src/libnanvix/ikc/stdsync.c: the barrier of each thread, over the barriers of Ikc.Barrier. `tid` is the
-- thread's id; a thread's id above THREAD_MAX is refused, and smaller ones are entries of the array.
use libnanvix.Shared.{
  ℕ, zero, suc, ◌+◌, ◌*◌, ◌/◌, List, [], ◌∷◌, ◌++◌, some, Ret, ok, fail, other, ltb, if◌then◌else◌,
  update,
}
use libnanvix.Ikc.Barrier.{SyncOps, Barrier, barrier_create, barrier_destroy, barrier_wait}

-- One loop of build_node_list(): at most `max_clusters` nodes and at most `wanted`, from number `i` on.
unfoldable pub node_list : (max_clusters wanted i base step : ℕ) → List ℕ
node_list zero wanted i base step = []
node_list (suc n) zero i base step = []
node_list (suc n) (suc m) i base step = (base + i * step) ∷ node_list n m (suc i) base step

-- The PROCESSOR_... numbers are parameters.
module _ (ioclusters cclusters ionodes cnodes : ℕ) where
  unfoldable pub build_node_list : (nioclusters ncclusters : ℕ) → List ℕ
  unfolding node_list
  build_node_list nioclusters ncclusters =
      node_list ioclusters nioclusters 0 0 (ionodes / ioclusters)
      ++ node_list cclusters ncclusters 0 (ioclusters * (ionodes / ioclusters)) (cnodes / cclusters)

  module _ {W : Type 0} (ops : SyncOps W) (local thread_max : ℕ) where
    abbrev minus_one : Ret
    minus_one = fail (other 1)

    unfoldable pub stdsync_setup : ℕ → (ℕ → Barrier) → W → Ret × (ℕ → Barrier) × W
    unfolding build_node_list
    stdsync_setup tid barriers w =
        let (barrier, w') =
          barrier_create ops local (some (build_node_list ioclusters cclusters)) w in
        if ltb thread_max tid
        then (minus_one, barriers, w)
        else (ok 0, update barriers tid barrier, w')

    unfoldable pub stdsync_cleanup : ℕ → (ℕ → Barrier) → W → Ret × W
    stdsync_cleanup tid barriers w =
        if ltb thread_max tid then (minus_one, w) else barrier_destroy ops local (barriers tid) w

    unfoldable pub stdsync_fence : ℕ → (ℕ → Barrier) → W → Ret × W
    stdsync_fence tid barriers w =
        if ltb thread_max tid then (minus_one, w) else barrier_wait ops local (barriers tid) w
