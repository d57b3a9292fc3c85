-- ===== src/Ikc/Msync/Point.antt =====
-- One synchronization point of src/libnanvix/ikc/msync.c: struct msync_hash and struct msync without
-- its resource, and the functions on its barrier.
use libnanvix.Shared.{
  ℕ, zero, suc, ◌+◌, ◌-◌, Bool, true, false, List, ◌∷◌, ℤ, pos, is_zero, decrement, increment, ltb,
  if◌then◌else◌, update,
}
use libnanvix.Ikc.Sync.{SyncType, one_to_all, all_to_one}
use libnanvix.Ikc.Msync.Nodes.{
  Bits, no_bits, with_bit, only_bit, without_bit, field_width, to_field, same_below, node_of,
  build_nodeslist,
}

-- The fields `nodeslist` and `barrier` hold 24 bits.
pub record MsyncHash : Type 0 where
  pub source : ℕ
  pub type : SyncType
  pub master : ℕ
  pub nodeslist : Bits
  pub barrier : Bits

pub record Msync : Type 0 where
  pub refcount : ℤ
  pub nbarriers : ℕ
  pub hash : MsyncHash
  pub nreceived : ℕ → ℤ
  pub latency : ℕ

-- `expected` of ksync_barrier_is_complete()
unfoldable pub expected : MsyncHash → Bits
expected h = elim h.type [
  | one_to_all ↦ only_bit h.nodeslist h.master
  | all_to_one ↦ without_bit h.nodeslist h.master
]

-- ksync_barrier_is_complete(); both sides of its comparison have 24 bits.
unfoldable pub barrier_is_complete : Msync → Bool
unfolding expected same_below
barrier_is_complete rx = same_below field_width rx.hash.barrier (expected rx.hash)

-- One round of the loop of ksync_barrier_reset().
unfoldable pub consume : ℕ → Msync → Msync
consume i rx =
    let left = decrement (rx.nreceived i) in
    if rx.hash.barrier i
    then record rx {
      nreceived = update rx.nreceived i left;
      hash =
          if is_zero left
          then record rx.hash { barrier = without_bit rx.hash.barrier i }
          else rx.hash;
    }
    else rx

-- ksync_barrier_reset(), over the nodes below `n`.
unfoldable pub barrier_reset : ℕ → Msync → Msync
unfolding consume
barrier_reset zero rx = rx
barrier_reset (suc n) rx = consume n (barrier_reset n rx)

-- What do_ksync_wait() does with a signal from `source` for the point that it found. The shift by
-- `source` stays within the field if `source` is below its width.
unfoldable pub receive : ℕ → ℕ → Msync → Msync
unfolding barrier_is_complete barrier_reset
receive nodes_num source rx =
    let marked : Msync = record rx {
      hash = record rx.hash { barrier = to_field (with_bit rx.hash.barrier source) };
      nreceived = update rx.nreceived source (increment (rx.nreceived source));
    } in
    let reset = barrier_reset nodes_num marked in
    if barrier_is_complete marked then record reset { nbarriers = reset.nbarriers + 1 } else marked

-- ksync_barrier_consume(): is there a complete barrier, and the point without it.
unfoldable pub barrier_consume : Msync → Bool × Msync
barrier_consume sync =
    if ltb 0 sync.nbarriers
    then (true, record sync { nbarriers = sync.nbarriers - 1 })
    else (false, sync)

-- The fields of a point that is allocated for an input: nothing has been received yet.
abbrev pub fresh : MsyncHash → Msync
fresh h = record { refcount = pos 1; nbarriers = 0; hash = h; nreceived = λ _. pos 0; latency = 0 }

-- The hash that do_ksync_alloc() builds at node `source` from a valid list of nodes. A master is a
-- node, below 24, so that the field of 5 bits holds it.
unfoldable pub hash_for : ℕ → SyncType → ℤ → List ℤ → Bool → MsyncHash
unfolding build_nodeslist
hash_for source type first nodes input =
    let master = node_of first in
    let nodeslist = to_field (build_nodeslist (first ∷ nodes) no_bits) in
    let receivers : Bits = elim type [
      | one_to_all ↦ without_bit nodeslist master
      | all_to_one ↦ only_bit nodeslist master
    ] in
    record {
      source = source;
      type = type;
      master = master;
      nodeslist = nodeslist;
      barrier = if input then no_bits else receivers;
    }
