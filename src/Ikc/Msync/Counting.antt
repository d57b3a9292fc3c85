-- ===== src/Ikc/Msync/Counting.antt =====
-- How often a synchronization point of src/libnanvix/ikc/msync.c completes its barrier.
use libnanvix.Shared.{
  ℕ, ◌+◌, ◌≤◌, ◌<◌, ◌≡◌, refl, true, false, List, [], ◌∷◌, pos, pos_part, increment, ltb, ◌==◌,
  if◌then◌else◌, update, arith, Bool-cases, inl, inr, ◌∙◌, subst, count,
}
use libnanvix.Ikc.Msync.Nodes.{Bits, field_width, to_field, with_bit}
use libnanvix.Ikc.Msync.Point.{
  MsyncHash, Msync, expected, barrier_is_complete, barrier_reset, receive, fresh,
}
use libnanvix.Ikc.Msync.Reset.{
  same_below-false, same_below-true, differ-same_below, Resets, barrier_reset-Resets, silent,
  last_bit, reset_node,
}

-- The point after the signals from the given nodes, one after the other.
unfoldable pub receive_all : ℕ → List ℕ → Msync → Msync
receive_all nodes_num [] rx = rx
receive_all nodes_num (source ∷ sources) rx =
    receive_all nodes_num sources (receive nodes_num source rx)

module _ (nodes_num : ℕ) (e : Bits) (fits : nodes_num ≤ 24)
    (bounded : (i : ℕ) → e i ≡ true → i < nodes_num) where
  -- A point that expects the nodes of `e` and has received `c i` signals from node `i` so far.
  record Counted (c : ℕ → ℕ) (rx : Msync) : Type 0 where
    wants : (i : ℕ) → expected rx.hash i ≡ e i
    numbers : (i : ℕ) → rx.nreceived i ≡ pos (pos_part (rx.nreceived i))
    marked : (i : ℕ) → rx.hash.barrier i ≡ ltb 0 (pos_part (rx.nreceived i))
    within : (i : ℕ) → e i ≡ false → rx.hash.barrier i ≡ false
    counts : (i : ℕ) → e i ≡ true → pos_part (rx.nreceived i) + rx.nbarriers ≡ c i

  record Tracks (c : ℕ → ℕ) (rx : Msync) : Type 0 where
    counted : Counted c rx
    incomplete : barrier_is_complete rx ≡ false

  -- So some expected node is still to send its signal.
  missing :
      {c : ℕ → ℕ} {rx : Msync} → Tracks c rx → (i : ℕ) × (e i ≡ true) × (rx.hash.barrier i ≡ false)
  unfolding barrier_is_complete
  missing {rx} t =
      let (i, lt, differ) =
        same_below-false field_width rx.hash.barrier (expected rx.hash) t.incomplete in
      (
        i,
        ground (arith, differ, t.counted.wants i, t.counted.within i),
        ground (arith, differ, t.counted.wants i, t.counted.within i),
      )

  -- The counters with one more signal from `source`.
  abbrev one_more : ℕ → (ℕ → ℕ) → ℕ → ℕ
  one_more source c i = c i + (if source == i then 1 else 0)

  abbrev marked_by : ℕ → Msync → Msync
  marked_by source rx = record rx {
    hash = record rx.hash { barrier = to_field (with_bit rx.hash.barrier source) };
    nreceived = update rx.nreceived source (increment (rx.nreceived source));
  }

  -- The signal is counted and marked, before anything looks whether the barrier is complete.
  marked_by-Counted :
      {c : ℕ → ℕ} {rx : Msync} (source : ℕ)
      → e source ≡ true
      → Counted c rx
      → Counted (one_more source c) (marked_by source rx)
  unfolding expected
  marked_by-Counted {c} {rx} source own t = record {
    wants = t.wants;
    numbers = λ i. ground (arith, t.numbers i, t.numbers source);
    marked = λ i. ground (
      arith,
      t.numbers i,
      t.numbers source,
      t.marked i,
      t.marked source,
      t.within i,
      bounded i,
      bounded source,
    );
    within = λ i f. ground (arith, t.within i, f, own);
    counts = λ i f. ground (arith, t.counts i, t.counts source, f, t.numbers i, t.numbers source);
  }

  -- A complete barrier is one with a signal from every expected node: it is taken off.
  complete-Counted :
      {c : ℕ → ℕ} (rx rest : Msync)
      → Counted c rx
      → barrier_is_complete rx ≡ true
      → Resets nodes_num rx rest
      → Counted c (record rest { nbarriers = rest.nbarriers + 1 })
  unfolding barrier_is_complete expected
  complete-Counted rx rest m full r = record {
    wants = λ i. r.wants i ∙ m.wants i;
    numbers = λ i. (node i).0;
    marked = λ i. (node i).1;
    within = λ i f. ground (arith, r.bits i, m.within i, f);
    counts = λ i f. omega (arith, r.completes, m.counts i f, (node i).2 (every i f));
  }
    where
      every : (i : ℕ) → e i ≡ true → rx.hash.barrier i ≡ true
      every i f = ground (
        arith,
        same_below-true field_width rx.hash.barrier (expected rx.hash) full i,
        m.wants i,
        bounded i,
        f,
      )

      node :
          (i : ℕ)
          → (rest.nreceived i ≡ pos (pos_part (rest.nreceived i)))
            × (rest.hash.barrier i ≡ ltb 0 (pos_part (rest.nreceived i)))
            × (rx.hash.barrier i ≡ true
                → pos_part (rest.nreceived i) + 1 ≡ pos_part (rx.nreceived i))
      node i =
          reset_node _ _ _ _ (ltb i nodes_num) (m.numbers i) (m.marked i)
            (λ b. ground (arith, b, m.within i, bounded i)) (r.counters i) (r.bits i)

  receive-short :
      (source : ℕ) (rx : Msync)
      → barrier_is_complete (marked_by source rx) ≡ false
      → marked_by source rx ≡ receive nodes_num source rx
  unfolding receive
  receive-short source rx f = rw f

  receive-full :
      (source : ℕ) (rx : Msync)
      → barrier_is_complete (marked_by source rx) ≡ true
      → let rest = barrier_reset nodes_num (marked_by source rx) in
        record rest { nbarriers = rest.nbarriers + 1 } ≡ receive nodes_num source rx
  unfolding receive
  receive-full source rx f = rw f

  -- The node that completed a barrier had sent no other signal, so that the next one is not complete.
  reset_incomplete :
      {c : ℕ → ℕ} {rx : Msync} (source : ℕ) (rest : Msync)
      → Tracks c rx
      → Resets nodes_num (marked_by source rx) rest
      → barrier_is_complete (record rest { nbarriers = rest.nbarriers + 1 }) ≡ false
  unfolding barrier_is_complete expected
  reset_incomplete {rx} source rest t r =
      let (i, wanted, unmarked) = missing t in
      differ-same_below field_width rest.hash.barrier (expected rest.hash) i
        (omega (arith, bounded i wanted))
        (λ same. cc (
          same,
          r.bits i
              ∙ last_bit rx.nreceived rx.hash.barrier source i nodes_num
                  (silent (rx.nreceived i) (t.counted.numbers i) (t.counted.marked i) unmarked)
                  unmarked (bounded i wanted),
          r.wants i,
          t.counted.wants i,
          wanted,
        ))

  -- A signal from an expected node keeps count.
  receive-Tracks :
      {c : ℕ → ℕ} {rx : Msync} (source : ℕ)
      → e source ≡ true
      → Tracks c rx
      → Tracks (one_more source c) (receive nodes_num source rx)
  receive-Tracks {c} {rx} source own t =
      let now = marked_by source rx in
      let counted = marked_by-Counted source own t.counted in
      let reset = barrier_reset-Resets nodes_num now in
      elim (Bool-cases (barrier_is_complete now)) [
        | inl full ↦
            subst (λ x. Tracks (one_more source c) x) (receive-full source rx full)
              (record {
                counted = complete-Counted now (barrier_reset nodes_num now) counted full reset;
                incomplete = reset_incomplete source (barrier_reset nodes_num now) t reset;
              })
        | inr short ↦
            subst (λ x. Tracks (one_more source c) x) (receive-short source rx short)
              (record { counted = counted; incomplete = short })
      ]

  receive_all-Tracks :
      (sources : List ℕ) {c : ℕ → ℕ} {rx : Msync}
      → ((i : ℕ) → 0 < count i sources → e i ≡ true)
      → Tracks c rx
      → (c' : ℕ → ℕ) × ((i : ℕ) → c' i ≡ c i + count i sources)
        × Tracks c' (receive_all nodes_num sources rx)
  unfolding receive_all
  receive_all-Tracks [] {c} own t = (c, λ i. omega arith, t)
  receive_all-Tracks (source ∷ sources) {c} own t =
      let (c', same, rest) =
        receive_all-Tracks sources (λ i h. own i (omega arith))
          (receive-Tracks source (own source (ground arith)) t) in
      (c', λ i. omega (arith, same i), rest)

-- Before the first signal.
fresh-Tracks :
    (nodes_num : ℕ) (h : MsyncHash) (someone : ℕ) (fits : nodes_num ≤ 24)
    → ((i : ℕ) → h.barrier i ≡ false)
    → (bounded : (i : ℕ) → expected h i ≡ true → i < nodes_num) → expected h someone ≡ true
    → Tracks nodes_num (expected h) fits bounded (λ i. 0) (fresh h)
unfolding barrier_is_complete
fresh-Tracks nodes_num h someone fits none_yet bounded wanted = record {
  counted = record {
    wants = λ i. refl;
    numbers = λ i. refl;
    marked = λ i. none_yet i;
    within = λ i f. none_yet i;
    counts = λ i f. refl;
  };
  incomplete =
      differ-same_below field_width h.barrier (expected h) someone
        (omega (arith, bounded someone wanted)) (λ same. cc (same, none_yet someone, wanted));
}

-- The number of complete barriers of a point that was created for the nodes of `h`, expects some
-- node, and has received the given signals, all from nodes that it expects, is the least number of
-- signals that an expected node has sent: no expected node has sent fewer, and one has sent as many.
-- So every wait that ksync_barrier_consume() lets pass has a signal of its own from every expected
-- node. The nodes that it expects are below PROCESSOR_NOC_NODES_NUM, which is at most the 24 bits of
-- the field.
pub nbarriers-least :
    (nodes_num : ℕ) (h : MsyncHash) (someone : ℕ) (signals : List ℕ)
    → nodes_num ≤ 24
    → ((i : ℕ) → h.barrier i ≡ false)
    → ((i : ℕ) → expected h i ≡ true → i < nodes_num)
    → expected h someone ≡ true
    → ((i : ℕ) → 0 < count i signals → expected h i ≡ true)
    → let rx = receive_all nodes_num signals (fresh h) in
      ((i : ℕ) → expected h i ≡ true → rx.nbarriers ≤ count i signals)
      × ((i : ℕ) × (expected h i ≡ true) × (rx.nbarriers ≡ count i signals))
nbarriers-least nodes_num h someone signals fits none_yet bounded wanted own =
    let (c, same, t) =
      receive_all-Tracks nodes_num (expected h) fits bounded signals own
        (fresh-Tracks nodes_num h someone fits none_yet bounded wanted) in
    let (i, it, idle) = missing nodes_num (expected h) fits bounded t in
    (
      λ j f. omega (arith, same j, t.counted.counts j f),
      (i, it, ground (arith, same i, t.counted.counts i it, t.counted.marked i, idle)),
    )
