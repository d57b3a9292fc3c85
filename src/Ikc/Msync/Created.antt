-- ===== src/Ikc/Msync/Created.antt =====
-- Synchronization points that src/libnanvix/ikc/msync.c creates from a valid list of nodes.
use libnanvix.Shared.{
  ℕ, ◌≤◌, ◌<◌, ◌≡◌, refl, Bool, true, List, ◌∷◌, ℤ, pos, negsuc, ltb, arith, count, sym, ◌∙◌,
}
use libnanvix.Ikc.Sync.{SyncType, one_to_all, all_to_one}
use libnanvix.Ikc.Msync.Nodes.{no_bits, to_field, is_node, build_nodeslist, nodelist_is_valid}
use libnanvix.Ikc.Msync.Point.{expected, hash_for, fresh}
use libnanvix.Ikc.Msync.Counting.{receive_all, nbarriers-least}
use libnanvix.Ikc.Msync.Validity.{
  all_within, times, nodelist_is_valid_iff, build_nodeslist-times, times-within,
}

-- The nodes whose signals a point is to wait for: the first of the list, or all the others.
abbrev pub is_peer : SyncType → ℤ → List ℤ → ℕ → Bool
is_peer one_to_all first nodes i = is_node first i
is_peer all_to_one first nodes i = ltb 0 (times i nodes)

-- Bit `i` of the list of nodes of a point.
pub listed :
    (nodes_num : ℕ) (all : List ℤ) (i : ℕ)
    → nodes_num ≤ 24
    → all_within nodes_num all ≡ true
    → to_field (build_nodeslist all no_bits) i ≡ ltb 0 (times i all)
listed nodes_num all i fits ranges = ground (
  arith,
  build_nodeslist-times nodes_num all no_bits i ranges,
  times-within nodes_num all i ranges,
)

-- A point that is created from a valid list of nodes, at any of them, expects signals from exactly
-- the first node, or from exactly the others, as its type says.
pub expected-peers :
    (nodes_num local source : ℕ) (type : SyncType) (first : ℤ) (nodes : List ℤ) (is_the_one : Bool)
    → nodes_num ≤ 24
    → nodelist_is_valid nodes_num local first nodes is_the_one ≡ true
    → (i : ℕ) → expected (hash_for source type first nodes true) i ≡ is_peer type first nodes i
unfolding expected hash_for
expected-peers nodes_num local source type (negsuc m) nodes is_the_one fits valid i =
    cc (((nodelist_is_valid_iff nodes_num local (negsuc m) nodes is_the_one).0 valid).0)
expected-peers nodes_num local source one_to_all (pos m) nodes is_the_one fits valid i =
    let (ranges, once, member, role) =
      (nodelist_is_valid_iff nodes_num local (pos m) nodes is_the_one).0 valid in
    ground (arith, listed nodes_num (pos m ∷ nodes) i fits ranges)
expected-peers nodes_num local source all_to_one (pos m) nodes is_the_one fits valid i =
    let (ranges, once, member, role) =
      (nodelist_is_valid_iff nodes_num local (pos m) nodes is_the_one).0 valid in
    ground (arith, listed nodes_num (pos m ∷ nodes) i fits ranges, once i)

-- Whom the point waits for is a node of the list, and there is somebody.
pub peer-within :
    (nodes_num : ℕ) (type : SyncType) (first : ℤ) (nodes : List ℤ) (i : ℕ)
    → all_within nodes_num (first ∷ nodes) ≡ true
    → is_peer type first nodes i ≡ true
    → i < nodes_num
peer-within nodes_num one_to_all (pos m) nodes i ranges peer = ground (arith, ranges, peer)
peer-within nodes_num one_to_all (negsuc m) nodes i ranges peer = cc
peer-within nodes_num all_to_one first nodes i ranges peer =
    times-within nodes_num nodes i (ground (arith, ranges)) (ground (arith, peer))

somebody :
    (nodes_num : ℕ) (type : SyncType) (first second : ℤ) (nodes : List ℤ)
    → all_within nodes_num (first ∷ second ∷ nodes) ≡ true
    → (i : ℕ) × (is_peer type first (second ∷ nodes) i ≡ true)
somebody nodes_num one_to_all (pos m) second nodes ranges = (m, ground arith)
somebody nodes_num one_to_all (negsuc m) second nodes ranges = cc
somebody nodes_num all_to_one first (pos m) nodes ranges = (m, ground arith)
somebody nodes_num all_to_one first (negsuc m) nodes ranges = ground (arith, ranges)

-- If a point is created from a valid list of at least two nodes and has then received the given
-- signals, all from nodes that its type lets signal, the number of its complete barriers is the least
-- number of signals that one of these nodes has sent: none of them has sent fewer, and one has sent
-- as many. So the waits that ksync_barrier_consume() lets pass are as many as every one of these nodes
-- has signalled. PROCESSOR_NOC_NODES_NUM is at most 24, the width of the fields.
pub nbarriers-signals :
    (nodes_num local source : ℕ) (type : SyncType) (first second : ℤ) (nodes : List ℤ)
    (is_the_one : Bool) (signals : List ℕ)
    → nodes_num ≤ 24
    → nodelist_is_valid nodes_num local first (second ∷ nodes) is_the_one ≡ true
    → ((i : ℕ) → 0 < count i signals → is_peer type first (second ∷ nodes) i ≡ true)
    → let rx =
        receive_all nodes_num signals (fresh (hash_for source type first (second ∷ nodes) true)) in
      ((i : ℕ) → is_peer type first (second ∷ nodes) i ≡ true → rx.nbarriers ≤ count i signals)
      × ((i : ℕ) × (is_peer type first (second ∷ nodes) i ≡ true)
          × (rx.nbarriers ≡ count i signals))
unfolding hash_for
nbarriers-signals nodes_num local source type first second nodes is_the_one signals fits valid own =
    let (ranges, once, member, role) =
      (nodelist_is_valid_iff nodes_num local first (second ∷ nodes) is_the_one).0 valid in
    let peers =
      expected-peers nodes_num local source type first (second ∷ nodes) is_the_one fits valid in
    let (someone, peer) = somebody nodes_num type first second nodes ranges in
    let (least, (i, wanted, reached)) =
      nbarriers-least nodes_num (hash_for source type first (second ∷ nodes) true) someone signals
        fits (λ j. refl)
        (λ j f. peer-within nodes_num type first (second ∷ nodes) j ranges (sym (peers j) ∙ f))
        (peers someone ∙ peer) (λ j h. peers j ∙ own j h) in
    (λ j f. least j (peers j ∙ f), (i, sym (peers i) ∙ wanted, reached))
