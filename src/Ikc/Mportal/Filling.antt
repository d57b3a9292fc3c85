-- ===== src/Ikc/Mportal/Filling.antt =====
-- A write within a node of src/libnanvix/ikc/mportal.c fills buffers with the message.
use libnanvix.Shared.{
  ℕ, zero, suc, ◌+◌, ◌-◌, ◌*◌, ◌^◌, ◌≤◌, ◌<◌, ◌≡◌, ◌≢◌, refl, sym, ap, ◌∙◌, subst, Bool, true,
  false, List, [], ◌∷◌, Option, none, some, length, ltb, ◌==◌, ==_iff, if◌then◌else◌, update,
  find_from-none, arith, Bool-cases, Option-cases, inl, inr, sum_below, sum_below-change,
  sum_below-zero,
}
use libnanvix.Ikc.Resource.{Resources}
use libnanvix.Ikc.Mportal.Pieces.{Config, take, drop}
use libnanvix.Ikc.Mportal.RoundTrip.{take-take, take-drop, length-drop}
use libnanvix.Ikc.Mportal.Buffers.{Buffer, Pool, buffer_alloc, set_available}
use libnanvix.Ikc.Mportal.Local.{fill}
use libnanvix.Ikc.Mportal.Chains.{chunk}
use libnanvix.Ikc.Mportal.Growing.{
  first_free, first_free-unused, behind, buffer_alloc-behind, placed, Grown, Grown-refl,
  Grown-behind, behind-given, behind-before, behind-others, length-take, distinct,
}

module _ (res : Resources) (buffer_max buffer_size : ℕ) where
  open res use {Resource, is_used, is_busy}

  -- How many buffers are free.
  abbrev pub free_buffers : Pool Resource → ℕ
  free_buffers p = sum_below buffer_max (λ i. if is_used (p.resources i) then 0 else 1)

  pub free_buffers-first :
      (p : Pool Resource)
      → 0 < free_buffers p
      → (i : ℕ) × (first_free res buffer_max buffer_size p ≡ some i)
  free_buffers-first p some_free = elim (Option-cases (first_free res buffer_max buffer_size p)) [
    | inr found ↦ found
    | inl nobody ↦ absurd (
        omega (
          arith,
          some_free,
          sum_below-zero buffer_max (λ i. if is_used (p.resources i) then 0 else 1)
              (λ i lt.
                ground (arith, find_from-none buffer_max 0 _ nobody i (omega arith) (omega arith))),
        ))
  ]

  -- One buffer less is free when one is given out behind another.
  pub free_buffers-behind :
      (b i n : ℕ) (c : Config) (x : List ℕ) (p : Pool Resource)
      → is_used (p.resources b) ≡ true
      → is_used (p.resources i) ≡ false
      → i < buffer_max
      → suc (
          free_buffers
            (placed res buffer_max buffer_size i n x (behind res buffer_max buffer_size b i c p)))
        ≡ free_buffers p
  free_buffers-behind b i n c x p used unused below =
      let q = placed res buffer_max buffer_size i n x (behind res buffer_max buffer_size b i c p) in
      let other = distinct (λ j. is_used (p.resources j)) b i used unused in
      let now = (behind-given res buffer_max buffer_size b i n c x p other).0 in
      let still = (behind-before res buffer_max buffer_size b i n c x p other).0 in
      let others : (j : ℕ) → i ≢ j → is_used (q.resources j) ≡ is_used (p.resources j) = λ j apart.
        elim (Bool-cases (j == b)) [
          | inl here ↦
              subst (λ a. is_used (q.resources a) ≡ is_used (p.resources a))
                (sym ((==_iff j b).0 here)) still
          | inr there ↦
              ap is_used
                (behind-others res buffer_max buffer_size b i n j c x p (ground arith) there).0
        ] in
      let changed =
        sum_below-change buffer_max (λ j. if is_used (p.resources j) then 0 else 1)
          (λ j. if is_used (q.resources j) then 0 else 1) i (λ j apart. rw (others j apart) refl)
          below in
      omega (
        arith,
        changed,
        ap {B = ℕ} (λ (u : Bool). if u then 0 else 1) now,
        ap {B = ℕ} (λ (u : Bool). if u then 0 else 1) unused,
      )

  -- One round of the loop of do_kportal_awrite_local() that gets a buffer.
  pub fill-placed :
      (fuel : ℕ) (c : Config) (buf : Option ℕ) (i m n : ℕ) (bytes : List ℕ) (p q : Pool Resource)
      → buffer_alloc res buffer_max buffer_size buf (some c) p ≡ (some i, q)
      → (q.buffers i).size ≡ 0
      → n ≡ (if ltb (suc m) buffer_size then suc m else buffer_size)
      → fill res buffer_max buffer_size (suc fuel) c buf (suc m) bytes p
        ≡ fill res buffer_max buffer_size fuel c
            (some i)
            (suc m - n)
            (drop n bytes)
            (placed res buffer_max buffer_size i n bytes q)
  unfolding fill
  fill-placed fuel c buf i m n bytes p q given empty piece =
      let k = (if ltb (suc m) buffer_size then suc m else buffer_size) in
      let with_size : ℕ → Pool Resource → ℕ → Pool Resource = λ i q size.
        let filled : Buffer = record (q.buffers i) { content = take k bytes; size = size } in
        record q { buffers = update q.buffers i filled } in
      let go : Option ℕ × Pool Resource → Option (Option ℕ × Pool Resource) = λ x. elim x.0 [
        | none ↦ none
        | some i ↦
            fill res buffer_max buffer_size fuel c (some i) (suc m - k) (drop k bytes)
              (with_size i x.1 ((x.1.buffers i).size + k))
      ] in
      ap go given
      ∙ ap
          (λ a.
            fill res buffer_max buffer_size fuel c (some i) (suc m - k) (drop k bytes)
              (with_size i q a))
          (omega (arith, empty))
      ∙ ap
          (λ a.
            fill res buffer_max buffer_size fuel c (some i) (suc m - a) (drop a bytes)
              (placed res buffer_max buffer_size i a bytes q))
          (sym piece)

  pub some_factor : (f size m : ℕ) → suc m ≤ f * size → 0 < f
  some_factor zero size m enough = absurd (omega arith)
  some_factor (suc f) size m enough = omega arith

  pub left_enough :
      (f f' size m n : ℕ)
      → suc f' ≡ f
      → suc m ≤ f * size
      → n ≡ (if ltb (suc m) size then suc m else size)
      → suc m - n ≤ f' * size
  left_enough zero f' size m n one enough piece = absurd (omega arith)
  left_enough (suc f) f' size m n one enough piece =
      let same : f' ≡ f = omega (arith, one) in
      subst (λ x. suc m - n ≤ x * size) (sym same) (ground (arith, enough, piece))

  -- The loop of do_kportal_awrite_local() from a buffer on that is in use: with enough free buffers the
  -- rest of the message stands behind it.
  pub fill-Grown :
      (fuel : ℕ) (c : Config) (b m : ℕ) (bytes : List ℕ) (p : Pool Resource)
      → 0 < buffer_size
      → is_used (p.resources b) ≡ true
      → (p.buffers b).next ≡ none
      → length (chunk res buffer_max buffer_size p b) ≡ (p.buffers b).size
      → m ≡ length bytes
      → m ≤ free_buffers p * buffer_size
      → (p.buffers b).seq + m < 2 ^ 64
      → m ≤ fuel
      → (last : ℕ) × (q : Pool Resource) × (is : List ℕ) × (fill res buffer_max buffer_size fuel c
            (some b)
            m
            bytes
            p
          ≡ some (some last, q))
        × Grown res buffer_max buffer_size b p
            (set_available res buffer_max buffer_size (some last) q)
            is
            bytes
  unfolding fill
  fill-Grown fuel c b zero [] p some_size used last sized long room small enough =
      (b, p, [], refl, Grown-refl res buffer_max buffer_size b p last sized)
  fill-Grown fuel c b zero (x ∷ xs) p some_size used last sized long room small enough =
      absurd (omega arith)
  fill-Grown zero c b (suc m) bytes p some_size used last sized long room small enough =
      absurd (omega arith)
  fill-Grown (suc fuel) c b (suc m) bytes p some_size used last sized long room small enough =
      let n = (if ltb (suc m) buffer_size then suc m else buffer_size) in
      let piece : (0 < n) × (n ≤ suc m) = ground (arith, some_size) in
      let (i, found) = free_buffers-first p (some_factor (free_buffers p) buffer_size m room) in
      let (below, unused) = first_free-unused res buffer_max buffer_size p i found in
      let other = distinct (λ j. is_used (p.resources j)) b i used unused in
      let q = behind res buffer_max buffer_size b i c p in
      let q2 = placed res buffer_max buffer_size i n bytes q in
      let (used_i, next_i, seq_i, chunk_i, size_i, config_i) =
        behind-given res buffer_max buffer_size b i n c bytes p other in
      let (last', q', is, run, grown) =
        fill-Grown fuel c i (suc m - n) (drop n bytes) q2 some_size used_i next_i
          (ap length (chunk_i ∙ take-take n bytes)
            ∙ length-take n bytes (omega (arith, piece))
            ∙ sym size_i)
          (omega (arith, length-drop n bytes))
          (left_enough (free_buffers p) (free_buffers q2) buffer_size m n
            (free_buffers-behind b i n c bytes p used unused below) room refl)
          (omega (arith, seq_i, piece)) (omega (arith, piece)) in
      (
        last',
        q',
        i ∷ is,
        fill-placed fuel c (some b) i m n bytes p q
              (buffer_alloc-behind res buffer_max buffer_size b i c p found) (ground arith) refl
            ∙ run,
        subst
            (λ xs.
              Grown res buffer_max buffer_size b p
                (set_available res buffer_max buffer_size (some last') q') (i ∷ is) xs)
            (take-drop n bytes)
            (Grown-behind res buffer_max buffer_size b i n c bytes p
              (set_available res buffer_max buffer_size (some last') q') is (drop n bytes) used
              unused sized (omega (arith, piece)) piece.0 (omega arith) grown),
      )
