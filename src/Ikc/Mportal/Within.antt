-- ===== src/Ikc/Mportal/Within.antt =====
-- A message that kportal_awrite() of src/libnanvix/ikc/mportal.c writes to a portal of its own node, and
-- kportal_aread() reads there.
use libnanvix.Shared.{
  ℕ, zero, suc, ◌-◌, ◌*◌, ◌^◌, ◌≤◌, ◌<◌, ◌≡◌, ◌≢◌, refl, sym, ap, ◌∙◌, subst, Bool, true, false,
  List, [], ◌∷◌, ◌++◌, none, some, ok, length, ltb, ◌==◌, ==_iff, is_some, if◌then◌else◌, arith,
  Bool-cases, inl, inr, sum_below-change,
}
use libnanvix.Ikc.Resource.{Resources}
use libnanvix.Ikc.Mportal.Pieces.{Config, take, drop}
use libnanvix.Ikc.Mportal.RoundTrip.{take-take, take-drop, length-drop}
use libnanvix.Ikc.Mportal.Buffers.{Pool, set_available}
use libnanvix.Ikc.Mportal.Local.{fill, awrite_local, aread_local}
use libnanvix.Ikc.Mportal.Arrival.{swapped, from_start}
use libnanvix.Ikc.Mportal.Chains.{has, chunk, Freed}
use libnanvix.Ikc.Mportal.Growing.{Grown, Grown-append, first_free-unused, placed, length-take}
use libnanvix.Ikc.Mportal.Filling.{
  free_buffers, free_buffers-first, fill-placed, some_factor, left_enough, fill-Grown,
}
use libnanvix.Ikc.Mportal.Stored.{opens, alone, buffer_alloc-alone, Stored, Stored-read}

module _ (res : Resources) (buffer_max buffer_size : ℕ) where
  open res use {Resource, is_used, is_busy}

  -- One buffer less is free when the first one is given out and filled.
  pub free_buffers-alone :
      (i n : ℕ) (c : Config) (x : List ℕ) (p : Pool Resource)
      → is_used (p.resources i) ≡ false
      → i < buffer_max
      → suc (
          free_buffers res buffer_max buffer_size
            (placed res buffer_max buffer_size i n x (alone res buffer_max buffer_size i c p)))
        ≡ free_buffers res buffer_max buffer_size p
  free_buffers-alone i n c x p unused below =
      let q = placed res buffer_max buffer_size i n x (alone res buffer_max buffer_size i c p) in
      let now : is_used (q.resources i) ≡ true = ground (
        arith,
        res.used-set_busy (res.set_used (p.resources i)),
        res.used-set_used (p.resources i),
      ) in
      let others : (j : ℕ) → i ≢ j → is_used (q.resources j) ≡ is_used (p.resources j) =
        λ j apart. ground (arith, apart) in
      let changed =
        sum_below-change buffer_max (λ j. if is_used (p.resources j) then 0 else 1)
          (λ j. if is_used (q.resources j) then 0 else 1) i (λ j apart. rw (others j apart) refl)
          below in
      omega (
        arith,
        changed,
        ap {B = ℕ} (λ (u : Bool). if u then 0 else 1) now,
        ap {B = ℕ} (λ (u : Bool). if u then 0 else 1) unused,
      )

  -- The first buffer of a message once it is filled.
  pub alone-given :
      (i n : ℕ) (c : Config) (x : List ℕ) (p : Pool Resource)
      → let q = placed res buffer_max buffer_size i n x (alone res buffer_max buffer_size i c p) in
        (is_used (q.resources i) ≡ true)
        × ((q.buffers i).next ≡ none)
        × ((q.buffers i).seq ≡ 0)
        × (chunk res buffer_max buffer_size q i ≡ take n x)
        × ((q.buffers i).size ≡ n)
        × ((q.buffers i).config ≡ c)
  alone-given i n c x p =
      let here : (i == i) ≡ true = ground arith in
      (
        rw here (res.used-set_busy _ ∙ res.used-set_used _),
        ground arith,
        ground arith,
        rw here (take-take n x),
        ground arith,
        ground arith,
      )

  Grown-alone :
      (i n : ℕ) (c : Config) (x : List ℕ) (p q : Pool Resource) (is more : List ℕ)
      → Grown res buffer_max buffer_size i
          (placed res buffer_max buffer_size i n x (alone res buffer_max buffer_size i c p))
          q
          is
          more
      → Grown res buffer_max buffer_size i
          (alone res buffer_max buffer_size i c p)
          q
          is
          (take n x ++ more)
  Grown-alone i n c x p q is more grown =
      let q1 = alone res buffer_max buffer_size i c p in
      let (used, next, seq, content, size, config) = alone-given i n c x p in
      let empty : chunk res buffer_max buffer_size q1 i ≡ [] = ground arith in
      Grown-append res buffer_max buffer_size i q1 (placed res buffer_max buffer_size i n x q1) q is
        (take n x) more refl (content ∙ ap (λ xs. xs ++ take n x) (sym empty)) (seq ∙ ground arith)
        (config ∙ ground arith) used (λ j other. (refl, ground (arith, other))) grown

  -- With enough free buffers the whole message is stored.
  fill-Stored :
      (fuel m : ℕ) (c : Config) (bytes : List ℕ) (p : Pool Resource)
      → 0 < buffer_size
      → suc m ≡ length bytes
      → suc m ≤ free_buffers res buffer_max buffer_size p * buffer_size
      → suc m < 2 ^ 64
      → suc m ≤ fuel
      → (b last : ℕ) × (q : Pool Resource) × (is : List ℕ) × (fill res buffer_max buffer_size fuel c
            none
            (suc m)
            bytes
            p
          ≡ some (some last, q))
        × Stored res buffer_max buffer_size c b p
            (set_available res buffer_max buffer_size (some last) q)
            is
            bytes
  fill-Stored zero m c bytes p some_size long room small enough = absurd (omega arith)
  fill-Stored (suc fuel) m c bytes p some_size long room small enough =
      let n = (if ltb (suc m) buffer_size then suc m else buffer_size) in
      let piece : (0 < n) × (n ≤ suc m) = ground (arith, some_size) in
      let (i, found) = free_buffers-first res buffer_max buffer_size p (
        some_factor res buffer_max buffer_size (free_buffers res buffer_max buffer_size p)
          buffer_size m room) in
      let (below, unused) = first_free-unused res buffer_max buffer_size p i found in
      let q1 = alone res buffer_max buffer_size i c p in
      let q2 = placed res buffer_max buffer_size i n bytes q1 in
      let (used_i, next_i, seq_i, chunk_i, size_i, config_i) = alone-given i n c bytes p in
      let (last, q, is, run, grown) =
        fill-Grown res buffer_max buffer_size fuel c i (suc m - n) (drop n bytes) q2 some_size
          used_i next_i
          (ap length chunk_i ∙ length-take n bytes (omega (arith, piece)) ∙ sym size_i)
          (omega (arith, length-drop n bytes))
          (left_enough res buffer_max buffer_size (free_buffers res buffer_max buffer_size p)
            (free_buffers res buffer_max buffer_size q2) buffer_size m n
            (free_buffers-alone i n c bytes p unused below) room refl)
          (omega (arith, seq_i, piece)) (omega (arith, piece)) in
      (
        i,
        last,
        q,
        is,
        fill-placed res buffer_max buffer_size fuel c none i m n bytes p q1
              (buffer_alloc-alone res buffer_max buffer_size i c p found) (ground arith) refl
            ∙ run,
        record {
          below = below;
          unused = unused;
          grown =
              subst
                (λ xs.
                  Grown res buffer_max buffer_size i q1
                    (set_available res buffer_max buffer_size (some last) q) is xs)
                (take-drop n bytes)
                (Grown-alone i n c bytes p (set_available res buffer_max buffer_size (some last) q)
                  is (drop n bytes) grown);
        },
      )

  -- Once the buffers of a message are free again, the same buffers are in use as before.
  pub Stored-Freed :
      (c : Config) (b : ℕ) (p q q' : Pool Resource) (is bytes : List ℕ)
      → Stored res buffer_max buffer_size c b p q is bytes
      → Freed res buffer_max buffer_size (b ∷ is) q q'
      → (j : ℕ) → is_used (q'.resources j) ≡ is_used (p.resources j)
  unfolding has
  Stored-Freed c b p q q' is bytes stored freed j =
      let alone_j : (j == b) ≡ false
          → (alone res buffer_max buffer_size b c p).resources j ≡ p.resources j =
        λ e. ground (arith, e) in
      elim (Bool-cases (j == b)) [
        | inl here ↦
            let first : is_used (p.resources j) ≡ false =
              subst (λ a. is_used (p.resources a) ≡ false) (sym ((==_iff j b).0 here))
                stored.unused in
            freed.used j ∙ ground (arith, here, first)
        | inr there ↦ elim (Bool-cases (has j is)) [
          | inl inside ↦
              let later = ap is_used (sym (alone_j there)) ∙ (stored.grown.fresh j inside).0 in
              freed.used j ∙ ground (arith, inside, later)
          | inr outside ↦
              let kept =
                ap is_used
                  ((stored.grown.same j (ground (arith, there, outside))).0 ∙ alone_j there) in
              freed.used j ∙ ground (arith, there, outside, kept)
        ]
      ]

  -- What do_kportal_awrite_local() writes, do_kportal_aread_local() reads, and all buffers are free again
  -- that were free before.
  pub awrite_local-aread_local :
      (fuel rounds : ℕ) (c : Config) (bytes : List ℕ) (p : Pool Resource)
      → 0 < rounds
      → 0 < buffer_size
      → 0 < length bytes
      → length bytes ≤ free_buffers res buffer_max buffer_size p * buffer_size
      → length bytes < 2 ^ 64
      → length bytes < fuel
      → is_some c.local ≡ true
      → ((i : ℕ) → i < buffer_max → opens res buffer_max buffer_size (swapped c) p i ≡ false)
      → (q : Pool Resource) × (q' : Pool Resource) × (awrite_local res buffer_max buffer_size fuel c
            bytes
            (length bytes)
            p
          ≡ some (ok (length bytes), q))
        × (aread_local res buffer_max buffer_size rounds fuel
              (swapped c)
              (length bytes)
              (from_start (length bytes) [])
              q
            ≡ some
                (ok (length bytes), record { copied = bytes; remainder = 0; previous = none }, q'))
        × ((j : ℕ) → is_used (q'.resources j) ≡ is_used (p.resources j))
  unfolding awrite_local aread_local has
  awrite_local-aread_local fuel rounds c [] p some_rounds some_size some_bytes room small enough
        local nothing =
      absurd (omega arith)
  awrite_local-aread_local fuel zero c (x ∷ xs) p some_rounds some_size some_bytes room small enough
        local nothing =
      absurd (omega arith)
  awrite_local-aread_local fuel (suc rounds) c (x ∷ xs) p some_rounds some_size some_bytes room
        small enough local nothing =
      let bytes = x ∷ xs in
      let (b, last, q1, is, run, stored) =
        fill-Stored fuel (length xs) c bytes p some_size refl room small (omega arith) in
      let q = set_available res buffer_max buffer_size (some last) q1 in
      let (q', read, freed) =
        Stored-read res buffer_max buffer_size fuel c b p q is bytes [] stored local nothing
          enough in
      (
        q,
        q',
        simp (awrite_local, run),
        simp (aread_local, read),
        Stored-Freed c b p q q' is bytes stored freed,
      )
