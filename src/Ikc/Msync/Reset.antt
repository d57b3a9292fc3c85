-- ===== src/Ikc/Msync/Reset.antt =====
-- What ksync_barrier_reset() of src/libnanvix/ikc/msync.c does to each node, and when two bit-streams
-- differ.
use libnanvix.Shared.{
  ◌+◌, update, pos, pos_part, increment, ℕ, zero, suc, ◌<◌, ◌≡◌, ◌≢◌, refl, Bool, true, false, not,
  ◌&&◌, ℤ, is_zero, decrement, ltb, ◌==◌, if◌then◌else◌, arith, Bool-cases, inl, inr, subst, ◌∙◌,
}
use native.Mathlib.Decide.{dec_lt}
use libnanvix.Ikc.Msync.Nodes.{to_field, with_bit, Bits, same_below}
use libnanvix.Ikc.Msync.Point.{
  MsyncHash, Msync, expected, consume, barrier_reset, receive, barrier_is_complete,
}

same_bit : (x y : Bool) → (if x then y else not y) ≡ true → x ≡ y
same_bit true true e = refl
same_bit true false e = cc
same_bit false true e = cc
same_bit false false e = refl

same_bit-true : (x y : Bool) → x ≡ y → (if x then y else not y) ≡ true
same_bit-true true true e = refl
same_bit-true true false e = cc
same_bit-true false true e = cc
same_bit-true false false e = refl

-- Two bit-streams that the comparison tells apart differ at some bit.
pub same_below-false :
    (n : ℕ) (a b : Bits) → same_below n a b ≡ false → (i : ℕ) × (i < n) × (a i ≢ b i)
unfolding same_below
same_below-false zero a b f = cc
same_below-false (suc n) a b f = elim (Bool-cases (if a n then b n else not (b n))) [
  | inl same ↦
      let (i, lt, differ) = same_below-false n a b (ground (arith, f, same)) in
      (i, omega arith, differ)
  | inr differ ↦ (n, omega arith, λ e. cc (same_bit-true (a n) (b n) e, differ))
]

pub same_below-true : (n : ℕ) (a b : Bits) → same_below n a b ≡ true → (i : ℕ) → i < n → a i ≡ b i
unfolding same_below
same_below-true zero a b f i lt = absurd (omega arith)
same_below-true (suc n) a b f i lt = elim (dec_lt i n) [
  | yes below ↦ same_below-true n a b (ground (arith, f)) i below
  | no last ↦ subst (λ j. a j ≡ b j) (at_end last) (same_bit (a n) (b n) (ground (arith, f)))
]
  where
    at_end : ¬ (i < n) → n ≡ i
    at_end last = omega arith

pub differ-same_below : (n : ℕ) (a b : Bits) (i : ℕ) → i < n → a i ≢ b i → same_below n a b ≡ false
unfolding same_below
differ-same_below zero a b i lt d = absurd (omega arith)
differ-same_below (suc n) a b i lt d = elim (Bool-cases (same_below (suc n) a b)) [
  | inl same ↦ absurd (d (same_below-true (suc n) a b same i lt))
  | inr other ↦ other
]

-- One node's counter and bit after the reset of the nodes below `n`.
abbrev pub counter_after : ℕ → Msync → ℕ → ℤ
counter_after n rx i =
    if ltb i n && rx.hash.barrier i then decrement (rx.nreceived i) else rx.nreceived i

abbrev pub bit_after : ℕ → Msync → ℕ → Bool
bit_after n rx i = rx.hash.barrier i && not (ltb i n && is_zero (decrement (rx.nreceived i)))

pub record Resets (n : ℕ) (rx : Msync) (reset : Msync) : Type 0 where
  pub counters : (i : ℕ) → reset.nreceived i ≡ counter_after n rx i
  pub bits : (i : ℕ) → reset.hash.barrier i ≡ bit_after n rx i
  pub completes : reset.nbarriers ≡ rx.nbarriers
  pub wants : (i : ℕ) → expected reset.hash i ≡ expected rx.hash i

-- The round for node `n` changes that node only.
record Consumes (n : ℕ) (rx : Msync) (left : Msync) : Type 0 where
  counters :
      (i : ℕ)
      → left.nreceived i
        ≡ (if (n == i) && rx.hash.barrier i then decrement (rx.nreceived i) else rx.nreceived i)
  bits :
      (i : ℕ)
      → left.hash.barrier i
        ≡ (rx.hash.barrier i && not ((n == i) && is_zero (decrement (rx.nreceived i))))
  completes : left.nbarriers ≡ rx.nbarriers
  wants : (i : ℕ) → expected left.hash i ≡ expected rx.hash i

consume-Consumes : (n : ℕ) (rx : Msync) → Consumes n rx (consume n rx)
unfolding consume expected
consume-Consumes n rx = record {
  counters = λ i. ground arith;
  bits = λ i. ground arith;
  completes = ground arith;
  wants = λ i. ground arith;
}

pub barrier_reset-Resets : (n : ℕ) (rx : Msync) → Resets n rx (barrier_reset n rx)
unfolding barrier_reset
barrier_reset-Resets zero rx = record {
  counters = λ i. ground arith;
  bits = λ i. ground arith;
  completes = refl;
  wants = λ i. refl;
}
barrier_reset-Resets (suc n) rx =
    let before = barrier_reset-Resets n rx in
    let round = consume-Consumes n (barrier_reset n rx) in
    record {
      counters = λ i. ground (arith, before.counters i, before.bits i, round.counters i);
      bits = λ i. ground (arith, before.counters i, before.bits i, round.bits i);
      completes = round.completes ∙ before.completes;
      wants = λ i. round.wants i ∙ before.wants i;
    }

-- One node's counter and bit in a reset, where the bit says that the counter is above 0, and only
-- nodes that are reset (`low`) have it.
pub reset_node :
    (n n' : ℤ) (b b' low : Bool)
    → n ≡ pos (pos_part n)
    → b ≡ ltb 0 (pos_part n)
    → (b ≡ true → low ≡ true)
    → n' ≡ (if low && b then decrement n else n)
    → b' ≡ (b && not (low && is_zero (decrement n)))
    → (n' ≡ pos (pos_part n'))
      × (b' ≡ ltb 0 (pos_part n'))
      × (b ≡ true → pos_part n' + 1 ≡ pos_part n)
reset_node n n' b b' low number mark here left right =
    (ground arith, ground arith, λ f. ground arith)

-- A node without a mark has no signal left, and after its next signal and a reset it has none again.
pub silent :
    (n : ℤ) {b : Bool} → n ≡ pos (pos_part n) → b ≡ ltb 0 (pos_part n) → b ≡ false → n ≡ pos 0
silent n number mark unmarked = ground arith

pub last_bit :
    (f : ℕ → ℤ) (b : Bits) (source i n : ℕ)
    → f i ≡ pos 0
    → b i ≡ false
    → i < n
    → (to_field (with_bit b source) i
        && not (ltb i n && is_zero (decrement (update f source (increment (f source)) i))))
      ≡ false
last_bit f b source i n none unmarked lt = ground arith

-- What ksync_search() looks at in a hash stays as it is.
pub record SameNames (a b : MsyncHash) : Type 0 where
  pub type : a.type ≡ b.type
  pub master : a.master ≡ b.master
  pub nodeslist : a.nodeslist ≡ b.nodeslist

barrier_reset-SameNames : (n : ℕ) (rx : Msync) → SameNames rx.hash (barrier_reset n rx).hash
unfolding barrier_reset consume
barrier_reset-SameNames zero rx = record { type = refl; master = refl; nodeslist = refl }
barrier_reset-SameNames (suc n) rx =
    let before = barrier_reset-SameNames n rx in
    record {
      type = ground (arith, before.type);
      master = ground (arith, before.master);
      nodeslist = ground (arith, before.nodeslist);
    }

either-SameNames :
    (h : MsyncHash) (b : Bool) (x y : Msync)
    → SameNames h x.hash
    → SameNames h y.hash
    → SameNames h (if b then x else y).hash
either-SameNames h true x y p q = p
either-SameNames h false x y p q = q

pub receive-SameNames :
    (nodes_num source : ℕ) (rx : Msync) → SameNames rx.hash (receive nodes_num source rx).hash
unfolding receive
receive-SameNames nodes_num source rx =
    let marked : Msync = record rx {
      hash = record rx.hash { barrier = to_field (with_bit rx.hash.barrier source) };
      nreceived = update rx.nreceived source (increment (rx.nreceived source));
    } in
    let reset = barrier_reset nodes_num marked in
    let kept = barrier_reset-SameNames nodes_num marked in
    either-SameNames rx.hash (barrier_is_complete marked)
      (record reset { nbarriers = reset.nbarriers + 1 }) marked
      (record { type = kept.type; master = kept.master; nodeslist = kept.nodeslist })
      (record { type = refl; master = refl; nodeslist = refl })
