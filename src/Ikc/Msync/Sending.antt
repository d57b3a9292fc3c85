-- ===== src/Ikc/Msync/Sending.antt =====
-- To whom ksync_signal() of src/libnanvix/ikc/msync.c sends.
use libnanvix.Shared.{
  ℕ, zero, suc, ◌+◌, ◌≤◌, ◌≡◌, refl, Bool, true, false, ◌&&◌, List, [], ◌∷◌, ℤ, pos, negsuc, Ret,
  ok, fail, einval, count, ltb, if◌then◌else◌, arith,
}
use libnanvix.Ikc.Sync.{SyncType, one_to_all, all_to_one}
use libnanvix.Ikc.Msync.Nodes.{Bits, nodelist_is_valid}
use libnanvix.Ikc.Msync.Point.{MsyncHash, hash_for}
use libnanvix.Ikc.Msync.Validity.{nodelist_is_valid_iff}
use libnanvix.Ikc.Msync.Created.{is_peer, listed, peer-within}
use libnanvix.Ikc.Msync.Signal.{send_from, do_ksync_signal}

-- The nodes with a bit in a bit-stream, of the `n` from `target` on.
unfoldable pub targets : ℕ → ℕ → Bits → List ℕ
targets zero target b = []
targets (suc n) target b =
    if b target then target ∷ targets n (suc target) b else targets n (suc target) b

count-targets :
    (n target : ℕ) (b : Bits) (j : ℕ)
    → count j (targets n target b)
      ≡ (if ltb j target then 0 else if ltb j (target + n) && b j then 1 else 0)
unfolding targets
count-targets zero target b j = ground arith
count-targets (suc n) target b j = ground (arith, count-targets n (suc target) b j)

-- The type that the other side of a synchronization point waits with.
abbrev pub opposite : SyncType → SyncType
opposite one_to_all = all_to_one
opposite all_to_one = one_to_all

-- One signal to each of the nodes, in this order.
unfoldable pub send_all : {W : Type 0} → (ℕ → MsyncHash → W → Ret × W) → List ℕ → MsyncHash → W → W
send_all send [] hash w = w
send_all send (target ∷ rest) hash w = send_all send rest hash (send target hash w).1

module _ {W : Type 0} (send : ℕ → MsyncHash → W → Ret × W) (kclock : W → ℕ × W) (hash_size : ℕ)
    (reliable : (target : ℕ) (hash : MsyncHash) (w : W)
      → (send target hash w).0 ≡ ok hash_size) where
  send_from-targets :
      (n target : ℕ) (hash : MsyncHash) (ret : Ret) (w : W)
      → (send_from send kclock hash_size n target hash ret w).1
        ≡ send_all send (targets n target hash.barrier) hash w
  unfolding send_from send_all targets
  send_from-targets zero target hash ret w = refl
  send_from-targets (suc n) target hash ret w = ground (
    arith,
    reliable target hash w,
    send_from-targets n (suc target) hash ret w,
    send_from-targets n (suc target) hash (ok hash_size) (send target hash w).1,
  )

-- A point that is opened for an output signals the first node of its list, or all the others.
barrier-peers :
    (nodes_num local source : ℕ) (type : SyncType) (first : ℤ) (nodes : List ℤ) (is_the_one : Bool)
    → nodes_num ≤ 24
    → nodelist_is_valid nodes_num local first nodes is_the_one ≡ true
    → (j : ℕ)
    → (hash_for source type first nodes false).barrier j ≡ is_peer (opposite type) first nodes j
unfolding hash_for
barrier-peers nodes_num local source type (negsuc m) nodes is_the_one fits valid j =
    cc (((nodelist_is_valid_iff nodes_num local (negsuc m) nodes is_the_one).0 valid).0)
barrier-peers nodes_num local source all_to_one (pos m) nodes is_the_one fits valid j =
    let (ranges, once, member, role) =
      (nodelist_is_valid_iff nodes_num local (pos m) nodes is_the_one).0 valid in
    ground (arith, listed nodes_num (pos m ∷ nodes) j fits ranges)
barrier-peers nodes_num local source one_to_all (pos m) nodes is_the_one fits valid j =
    let (ranges, once, member, role) =
      (nodelist_is_valid_iff nodes_num local (pos m) nodes is_the_one).0 valid in
    ground (arith, listed nodes_num (pos m ∷ nodes) j fits ranges, once j)

-- A signal on a point that was opened with a valid list of nodes sends its hash once to each node that
-- waits with this list and type, which are all nodes but the first or the first one only, and to no
-- other node, if no write fails. PROCESSOR_NOC_NODES_NUM is at most 24.
pub signal-peers :
    {W : Type 0} (send : ℕ → MsyncHash → W → Ret × W) (kclock : W → ℕ × W) (hash_size : ℕ)
    (nodes_num local source : ℕ) (type : SyncType) (first : ℤ) (nodes : List ℤ) (is_the_one : Bool)
    (w : W)
    → ((target : ℕ) (hash : MsyncHash) (v : W) → (send target hash v).0 ≡ ok hash_size)
    → nodes_num ≤ 24
    → nodelist_is_valid nodes_num local first nodes is_the_one ≡ true
    → let h = hash_for source type first nodes false in
      (sent : List ℕ) × ((do_ksync_signal send kclock hash_size nodes_num h w).1
        ≡ send_all send sent h w)
      × ((j : ℕ) → count j sent ≡ (if is_peer (opposite type) first nodes j then 1 else 0))
unfolding do_ksync_signal
signal-peers send kclock hash_size nodes_num local source type first nodes is_the_one w reliable
      fits valid =
    let h = hash_for source type first nodes false in
    let (ranges, once, member, role) =
      (nodelist_is_valid_iff nodes_num local first nodes is_the_one).0 valid in
    (
      targets nodes_num 0 h.barrier,
      send_from-targets send kclock hash_size reliable nodes_num 0 h (fail einval) w,
      λ j. ground (
        arith,
        count-targets nodes_num 0 h.barrier j,
        barrier-peers nodes_num local source type first nodes is_the_one fits valid j,
        peer-within nodes_num (opposite type) first nodes j ranges,
      ),
    )
