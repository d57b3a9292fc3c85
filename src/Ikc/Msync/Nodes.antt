-- ===== src/Ikc/Msync/Nodes.antt =====
-- The lists of nodes of src/libnanvix/ikc/msync.c, and the bit-streams that it builds from them.
-- A bit-stream is the function that gives its bits; PROCESSOR_NOC_NODES_NUM is `nodes_num`.
use libnanvix.Shared.{
  ℕ, zero, suc, Bool, true, false, not, ◌&&◌, List, [], ◌∷◌, ℤ, pos, negsuc, within, ltb, ◌==◌,
  if◌then◌else◌, update,
}

abbrev pub Bits : Type 0
Bits = ℕ → Bool

-- `0ULL`, `b | (1ULL << n)`, `b & (1ULL << n)` and `b & ~(1ULL << n)`
abbrev pub no_bits : Bits
no_bits i = false

abbrev pub with_bit : Bits → ℕ → Bits
with_bit b n = update b n true

abbrev pub only_bit : Bits → ℕ → Bits
only_bit b n i = b i && (n == i)

abbrev pub without_bit : Bits → ℕ → Bits
without_bit b n i = b i && not (n == i)

-- What a field of 24 bits keeps of a value, and the comparison of two such fields.
abbrev pub field_width : ℕ
field_width = 24

abbrev pub to_field : Bits → Bits
to_field b i = b i && ltb i field_width

unfoldable pub same_below : ℕ → Bits → Bits → Bool
same_below zero a b = true
same_below (suc n) a b = (if a n then b n else not (b n)) && same_below n a b

-- The node of a list entry; entries below 0 have been refused before it is used.
abbrev pub node_of : ℤ → ℕ
node_of (pos n) = n
node_of (negsuc n) = 0

-- ksync_build_nodeslist(), from the bits of the nodes before.
unfoldable pub build_nodeslist : List ℤ → Bits → Bits
build_nodeslist [] nodeslist = nodeslist
build_nodeslist (node ∷ nodes) nodeslist = build_nodeslist nodes (with_bit nodeslist (node_of node))

-- The loop of ksync_nodelist_is_valid(), and the test behind it.
unfoldable pub check_nodes : ℕ → ℕ → List ℤ → Bits → Bool
check_nodes nodes_num local [] checks = checks local
check_nodes nodes_num local (node ∷ nodes) checks =
    if not (within node 0 nodes_num)
    then false
    else if checks (node_of node)
    then false
    else check_nodes nodes_num local nodes (with_bit checks (node_of node))

abbrev pub is_node : ℤ → ℕ → Bool
is_node (pos n) m = n == m
is_node (negsuc n) m = false

-- ksync_nodelist_is_valid() on a list that is not empty.
unfoldable pub nodelist_is_valid : ℕ → ℕ → ℤ → List ℤ → Bool → Bool
unfolding check_nodes
nodelist_is_valid nodes_num local first nodes is_the_one =
    if is_the_one && not (is_node first local)
    then false
    else if not is_the_one && is_node first local
    then false
    else check_nodes nodes_num local (first ∷ nodes) no_bits
