-- ===== src/Ikc/Mportal/Growing.antt =====
-- Messages that grow in the portal buffers of src/libnanvix/ikc/mportal.c: what a buffer that is given out
-- behind another one, and filled, does to the message.
use libnanvix.Shared.{
  ℕ, zero, suc, ◌^◌, ◌≤◌, ◌<◌, ◌≡◌, refl, sym, ap, ◌∙◌, subst, Bool, true, false, not, List, [],
  ◌∷◌, ◌++◌, Option, none, some, length, length-append, ◌==◌, ==_iff, update, count_one, find_first,
  find_from-some, arith, Bool-cases, inl, inr,
}
use mathlib.Core.List.{append_assoc}
use libnanvix.Ikc.Resource.{Resources}
use libnanvix.Ikc.Mportal.Pieces.{Config, take}
use libnanvix.Ikc.Mportal.Buffers.{Buffer, Pool, linked, next_seq, buffer_alloc, set_available}
use libnanvix.Ikc.Mportal.RoundTrip.{take-take}
use libnanvix.Ikc.Mportal.Chains.{has, chunk, Chain, end, link}

-- Numbers that a test tells apart.
pub distinct : (f : ℕ → Bool) (a b : ℕ) → f a ≡ true → f b ≡ false → (a == b) ≡ false
distinct f a b holds fails = elim (Bool-cases (a == b)) [
  | inl same ↦ absurd (ground (arith, ap f ((==_iff a b).0 same), holds, fails))
  | inr other ↦ other
]

pub length-take : (n : ℕ) (xs : List ℕ) → n ≤ length xs → length (take n xs) ≡ n
length-take zero xs enough = refl
length-take (suc n) [] enough = absurd (omega arith)
length-take (suc n) (x ∷ xs) enough = ap suc (length-take n xs (omega arith))

module _ (res : Resources) (buffer_max buffer_size : ℕ) where
  open res use {Resource, is_used, is_busy}

  -- The first free buffer.
  abbrev pub first_free : Pool Resource → Option ℕ
  first_free p = find_first buffer_max (λ i. not (is_used (p.resources i)))

  pub first_free-unused :
      (p : Pool Resource) (i : ℕ)
      → first_free p ≡ some i
      → (i < buffer_max) × (is_used (p.resources i) ≡ false)
  first_free-unused p i e =
      let (from, below, found, before) = find_from-some buffer_max 0 i _ e in
      (omega arith, ground (arith, found))

  -- The pool where buffer `i` is given out behind buffer `b`.
  abbrev pub behind : ℕ → ℕ → Config → Pool Resource → Pool Resource
  behind b i c p =
      let q = linked res buffer_max buffer_size (some b) i p in
      let given : Buffer = record {
        age = q.next_age;
        seq = count_one (p.buffers b).seq;
        size = 0;
        config = c;
        next = none;
        content = (q.buffers i).content;
      } in
      record {
        resources = update q.resources i (res.set_busy (res.set_used (q.resources i)));
        buffers = update q.buffers i given;
        next_age = count_one q.next_age;
      }

  pub buffer_alloc-behind :
      (b i : ℕ) (c : Config) (p : Pool Resource)
      → first_free p ≡ some i
      → buffer_alloc res buffer_max buffer_size (some b) (some c) p ≡ (some i, behind b i c p)
  unfolding buffer_alloc next_seq
  buffer_alloc-behind b i c p found = rw (buffer_alloc, found) refl

  -- `n` bytes go to an empty buffer.
  abbrev pub placed : ℕ → ℕ → List ℕ → Pool Resource → Pool Resource
  placed i n bytes p =
      let filled : Buffer = record (p.buffers i) { content = take n bytes; size = n } in
      record p { buffers = update p.buffers i filled }

  -- From the first pool to the second one, data was added behind buffer `b`, in buffers that were free.
  pub record Grown (b : ℕ) (p q : Pool Resource) (is data_added : List ℕ) : Type 0 where
    pub rest : List ℕ
    pub chain : Chain res buffer_max buffer_size q (q.buffers b).next is rest
    pub bytes :
        chunk res buffer_max buffer_size q b ++ rest
        ≡ chunk res buffer_max buffer_size p b ++ data_added
    pub sized : length (chunk res buffer_max buffer_size q b) ≡ (q.buffers b).size
    pub few : length is ≤ length data_added
    pub used : is_used (q.resources b) ≡ is_used (p.resources b)
    pub free : is_busy (q.resources b) ≡ false
    pub seq : (q.buffers b).seq ≡ (p.buffers b).seq
    pub config : (q.buffers b).config ≡ (p.buffers b).config
    pub out : has b is ≡ false
    pub fresh :
        (j : ℕ) → has j is ≡ true → (is_used (p.resources j) ≡ false) × (0 < (q.buffers j).seq)
    pub same :
        (j : ℕ)
        → has j (b ∷ is) ≡ false
        → (q.resources j ≡ p.resources j) × (q.buffers j ≡ p.buffers j)

  -- Nothing was added, and the buffer became available.
  pub Grown-refl :
      (b : ℕ) (p : Pool Resource)
      → (p.buffers b).next ≡ none
      → length (chunk res buffer_max buffer_size p b) ≡ (p.buffers b).size
      → Grown b p (set_available res buffer_max buffer_size (some b) p) [] []
  unfolding has set_available
  Grown-refl b p last sized = record {
    rest = [];
    chain =
        subst
          (λ h.
            Chain res buffer_max buffer_size (set_available res buffer_max buffer_size (some b) p) h
              [] [])
          (sym last) end;
    bytes = refl;
    sized = sized;
    few = omega arith;
    used = ground (arith, res.used-set_notbusy (p.resources b));
    free = ground (arith, res.busy-set_notbusy (p.resources b));
    seq = refl;
    config = refl;
    out = refl;
    fresh = λ j inside. cc inside;
    same = λ j outside. (ground (arith, outside), refl);
  }

  -- What the new buffer and the one before it look like.
  pub behind-given :
      (b i n : ℕ) (c : Config) (x : List ℕ) (p : Pool Resource)
      → (b == i) ≡ false
      → let q = placed i n x (behind b i c p) in
        (is_used (q.resources i) ≡ true)
        × ((q.buffers i).next ≡ none)
        × ((q.buffers i).seq ≡ count_one (p.buffers b).seq)
        × (chunk res buffer_max buffer_size q i ≡ take n (take n x))
        × ((q.buffers i).size ≡ n)
        × ((q.buffers i).config ≡ c)
  unfolding linked
  behind-given b i n c x p other =
      let here : (i == i) ≡ true = ground arith in
      (
        rw here (res.used-set_busy _ ∙ res.used-set_used _),
        ground arith,
        ground arith,
        rw here refl,
        ground arith,
        ground arith,
      )

  pub behind-before :
      (b i n : ℕ) (c : Config) (x : List ℕ) (p : Pool Resource)
      → (b == i) ≡ false
      → let q = placed i n x (behind b i c p) in
        (is_used (q.resources b) ≡ is_used (p.resources b))
        × (is_busy (q.resources b) ≡ false)
        × (q.buffers b ≡ record (p.buffers b) { next = some i })
  unfolding linked
  behind-before b i n c x p other = (
    ground (arith, other, res.used-set_notbusy (p.resources b)),
    ground (arith, other, res.busy-set_notbusy (p.resources b)),
    ground (arith, other),
  )

  pub behind-others :
      (b i n j : ℕ) (c : Config) (x : List ℕ) (p : Pool Resource)
      → (j == i) ≡ false
      → (j == b) ≡ false
      → let q = placed i n x (behind b i c p) in
        (q.resources j ≡ p.resources j) × (q.buffers j ≡ p.buffers j)
  unfolding linked
  behind-others b i n j c x p not_i not_b =
      (ground (arith, not_i, not_b), ground (arith, not_i, not_b))

  -- The buffers behind buffer `b` were free before.
  behind-unused :
      (b i n : ℕ) (c : Config) (x : List ℕ) (p q : Pool Resource) (is more : List ℕ)
      → is_used (p.resources b) ≡ true
      → is_used (p.resources i) ≡ false
      → Grown i (placed i n x (behind b i c p)) q is more
      → (j : ℕ) → has j (i ∷ is) ≡ true
      → is_used (p.resources j) ≡ false
  unfolding has
  behind-unused b i n c x p q is more used unused g j inside = elim (Bool-cases (j == i)) [
    | inl here ↦ subst (λ a. is_used (p.resources a) ≡ false) (sym ((==_iff j i).0 here)) unused
    | inr there ↦
        let q2 = placed i n x (behind b i c p) in
        let other = distinct (λ j. is_used (p.resources j)) b i used unused in
        let still = (behind-before b i n c x p other).0 in
        let (unused_j, later) = g.fresh j (ground (arith, inside, there)) in
        let not_b =
          distinct (λ a. not (is_used (q2.resources a))) j b (ap not unused_j)
            (ap not (still ∙ used)) in
        ap is_used (sym (behind-others b i n j c x p there not_b).0) ∙ unused_j
  ]

  -- Data behind a buffer that was given out behind buffer `b` stands behind buffer `b`, after the data
  -- that went to the new buffer.
  pub Grown-behind :
      (b i n : ℕ) (c : Config) (x : List ℕ) (p q : Pool Resource) (is more : List ℕ)
      → is_used (p.resources b) ≡ true
      → is_used (p.resources i) ≡ false
      → length (chunk res buffer_max buffer_size p b) ≡ (p.buffers b).size
      → n ≤ length x
      → 0 < n
      → suc (p.buffers b).seq < 2 ^ 64
      → Grown i (placed i n x (behind b i c p)) q is more
      → Grown b p q (i ∷ is) (take n x ++ more)
  unfolding has
  Grown-behind b i n c x p q is more used unused sized enough some_bytes small g =
      let other = distinct (λ j. is_used (p.resources j)) b i used unused in
      let q2 = placed i n x (behind b i c p) in
      let (used_i, next_i, seq_i, chunk_i, size_i, config_i) = behind-given b i n c x p other in
      let (used_b, free_b, buffer_b) = behind-before b i n c x p other in
      let old = behind-unused b i n c x p q is more used unused g in
      let apart : has b (i ∷ is) ≡ false = elim (Bool-cases (has b (i ∷ is))) [
        | inl inside ↦ absurd (ground (arith, old b inside, used))
        | inr outside ↦ outside
      ] in
      let (resource, buffer) = g.same b apart in
      let same_chunk : chunk res buffer_max buffer_size q b ≡ chunk res buffer_max buffer_size p b =
        ap (λ (a : Buffer). take a.size a.content) (buffer ∙ buffer_b) in
      record {
        rest = chunk res buffer_max buffer_size q i ++ g.rest;
        chain =
            subst
              (λ h.
                Chain res buffer_max buffer_size q h (i ∷ is)
                  (chunk res buffer_max buffer_size q i ++ g.rest))
              (sym (ap (λ (a : Buffer). a.next) (buffer ∙ buffer_b)))
              (link i (g.used ∙ used_i) g.free g.sized refl g.out g.chain);
        bytes =
            ap (λ ys. ys ++ (chunk res buffer_max buffer_size q i ++ g.rest)) same_chunk
            ∙ ap (λ ys. chunk res buffer_max buffer_size p b ++ ys)
                (g.bytes ∙ ap (λ ys. ys ++ more) (chunk_i ∙ take-take n x));
        sized =
            ap length same_chunk ∙ sized ∙ sym (ap (λ (a : Buffer). a.size) (buffer ∙ buffer_b));
        few = omega (arith, g.few, length-append (take n x) more, length-take n x enough);
        used = ap is_used resource ∙ used_b;
        free = ap is_busy resource ∙ free_b;
        seq = ap (λ (a : Buffer). a.seq) (buffer ∙ buffer_b);
        config = ap (λ (a : Buffer). a.config) (buffer ∙ buffer_b);
        out = apart;
        fresh = λ j inside. (
          old j inside,
          elim (Bool-cases (j == i)) [
            | inl here ↦
                subst (λ a. 0 < (q.buffers a).seq) (sym ((==_iff j i).0 here))
                  (omega (arith, g.seq, seq_i))
            | inr there ↦ (g.fresh j (ground (arith, inside, there))).1
          ],
        );
        same = λ j outside.
            let (resource_j, buffer_j) = g.same j (ground (arith, outside)) in
            let (before, buffer_before) =
              behind-others b i n j c x p (ground (arith, outside)) (ground (arith, outside)) in
            (resource_j ∙ before, buffer_j ∙ buffer_before);
      }

  -- More was added to the buffer itself first.
  pub Grown-append :
      (b : ℕ) (p p' q : Pool Resource) (is x more : List ℕ)
      → is_used (p'.resources b) ≡ is_used (p.resources b)
      → chunk res buffer_max buffer_size p' b ≡ chunk res buffer_max buffer_size p b ++ x
      → (p'.buffers b).seq ≡ (p.buffers b).seq
      → (p'.buffers b).config ≡ (p.buffers b).config
      → is_used (p.resources b) ≡ true
      → ((j : ℕ)
          → (j == b) ≡ false
          → (p'.resources j ≡ p.resources j) × (p'.buffers j ≡ p.buffers j))
      → Grown b p' q is more
      → Grown b p q is (x ++ more)
  unfolding has
  Grown-append b p p' q is x more used chunks seq config held others g =
      let apart : (j : ℕ) → has j is ≡ true → (j == b) ≡ false = λ j inside.
        distinct (λ a. not (is_used (p'.resources a))) j b (ap not (g.fresh j inside).0)
          (ap not (used ∙ held)) in
      record {
        rest = g.rest;
        chain = g.chain;
        bytes =
            g.bytes
            ∙ ap (λ ys. ys ++ more) chunks
            ∙ append_assoc (chunk res buffer_max buffer_size p b) x more;
        sized = g.sized;
        few = omega (arith, g.few, length-append x more);
        used = g.used ∙ used;
        free = g.free;
        seq = g.seq ∙ seq;
        config = g.config ∙ config;
        out = g.out;
        fresh = λ j inside. (
          ap is_used (sym (others j (apart j inside)).0) ∙ (g.fresh j inside).0,
          (g.fresh j inside).1,
        );
        same = λ j outside.
            let (resource, buffer) = g.same j outside in
            let (before, buffer_before) = others j (ground (arith, outside)) in
            (resource ∙ before, buffer ∙ buffer_before);
      }
