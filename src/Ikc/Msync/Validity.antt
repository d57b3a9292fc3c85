-- ===== src/Ikc/Msync/Validity.antt =====
-- Which lists of nodes src/libnanvix/ikc/msync.c accepts, and which signals it then waits for.
use libnanvix.Shared.{
  ℕ, ◌+◌, ◌≤◌, ◌<◌, ◌≡◌, ◌↔◌, refl, Bool, true, ◌&&◌, List, [], ◌∷◌, ℤ, pos, negsuc, within, ltb,
  if◌then◌else◌, arith,
}
use libnanvix.Ikc.Msync.Nodes.{
  Bits, no_bits, with_bit, is_node, build_nodeslist, check_nodes, nodelist_is_valid,
}

-- Are all entries of a list nodes of the NoC?
abbrev pub all_within : ℕ → List ℤ → Bool
all_within nodes_num [] = true
all_within nodes_num (node ∷ nodes) = within node 0 nodes_num && all_within nodes_num nodes

-- How often a node stands in a list.
abbrev pub times : ℕ → List ℤ → ℕ
times n [] = 0
times n (node ∷ nodes) = (if is_node node n then 1 else 0) + times n nodes

abbrev one_if : Bool → ℕ
one_if b = if b then 1 else 0

-- What the loop accepts behind the nodes of `checks`.
record Accepts (nodes_num local : ℕ) (nodes : List ℤ) (checks : Bits) : Type 0 where
  ranges : all_within nodes_num nodes ≡ true
  once : (n : ℕ) → times n nodes + one_if (checks n) ≤ 1
  member : times local nodes + one_if (checks local) ≡ 1

check_nodes-Accepts :
    (nodes_num local : ℕ) (nodes : List ℤ) (checks : Bits)
    → check_nodes nodes_num local nodes checks ≡ true
    → Accepts nodes_num local nodes checks
unfolding check_nodes
check_nodes-Accepts nodes_num local [] checks f = record {
  ranges = refl;
  once = λ n. ground arith;
  member = ground arith;
}
check_nodes-Accepts nodes_num local (negsuc n ∷ nodes) checks f = cc
check_nodes-Accepts nodes_num local (pos m ∷ nodes) checks f =
    let rest = check_nodes-Accepts nodes_num local nodes (with_bit checks m) (ground (arith, f)) in
    record {
      ranges = ground (arith, f, rest.ranges);
      once = λ n. ground (arith, f, rest.once n, rest.once m);
      member = ground (arith, f, rest.member, rest.once m);
    }

Accepts-check_nodes :
    (nodes_num local : ℕ) (nodes : List ℤ) (checks : Bits)
    → Accepts nodes_num local nodes checks
    → check_nodes nodes_num local nodes checks ≡ true
unfolding check_nodes
Accepts-check_nodes nodes_num local [] checks a = ground (arith, a.member)
Accepts-check_nodes nodes_num local (negsuc n ∷ nodes) checks a = cc (a.ranges)
Accepts-check_nodes nodes_num local (pos m ∷ nodes) checks a =
    let rest : Accepts nodes_num local nodes (with_bit checks m) = record {
      ranges = ground (arith, a.ranges);
      once = λ n. ground (arith, a.once n);
      member = ground (arith, a.member);
    } in
    ground (
      arith,
      a.ranges,
      a.once m,
      Accepts-check_nodes nodes_num local nodes (with_bit checks m) rest,
    )

-- A list of nodes is valid exactly if all its entries are nodes of the NoC, none stands in it twice,
-- the local node stands in it, and the local node is the first if and only if it plays the role of
-- the one.
pub nodelist_is_valid_iff :
    (nodes_num local : ℕ) (first : ℤ) (nodes : List ℤ) (is_the_one : Bool)
    → (nodelist_is_valid nodes_num local first nodes is_the_one ≡ true) ↔ (
        (all_within nodes_num (first ∷ nodes) ≡ true)
        × ((n : ℕ) → times n (first ∷ nodes) ≤ 1)
        × (times local (first ∷ nodes) ≡ 1)
        × (is_node first local ≡ is_the_one))
unfolding nodelist_is_valid
nodelist_is_valid_iff nodes_num local first nodes is_the_one = (
  (λ f.
      let a = check_nodes-Accepts nodes_num local (first ∷ nodes) no_bits (ground (arith, f)) in
      (a.ranges, λ n. omega (arith, a.once n), omega (arith, a.member), ground (arith, f))),
  λ (ranges, once, member, role).
      let a : Accepts nodes_num local (first ∷ nodes) no_bits = record {
        ranges = ranges;
        once = λ n. omega (arith, once n);
        member = omega (arith, member);
      } in
      ground (arith, Accepts-check_nodes nodes_num local (first ∷ nodes) no_bits a, role),
)

-- The bits of a list of nodes.
pub build_nodeslist-times :
    (nodes_num : ℕ) (nodes : List ℤ) (b : Bits) (i : ℕ)
    → all_within nodes_num nodes ≡ true
    → build_nodeslist nodes b i ≡ (if b i then true else ltb 0 (times i nodes))
unfolding build_nodeslist
build_nodeslist-times nodes_num [] b i f = ground arith
build_nodeslist-times nodes_num (negsuc n ∷ nodes) b i f = cc
build_nodeslist-times nodes_num (pos n ∷ nodes) b i f =
    ground (arith, build_nodeslist-times nodes_num nodes (with_bit b n) i (ground (arith, f)))

-- A node that stands in the list is a node of the NoC.
pub times-within :
    (nodes_num : ℕ) (nodes : List ℤ) (i : ℕ)
    → all_within nodes_num nodes ≡ true
    → 0 < times i nodes
    → i < nodes_num
times-within nodes_num [] i f h = absurd (omega arith)
times-within nodes_num (negsuc n ∷ nodes) i f h = cc
times-within nodes_num (pos n ∷ nodes) i f h =
    ground (arith, times-within nodes_num nodes i (ground (arith, f)))
