-- ===== src/Ikc/Mportal/Oldest.antt =====
-- Which message kportal_buffer_search() of src/libnanvix/ikc/mportal.c finds.
use libnanvix.Shared.{
  ℕ, zero, suc, ◌+◌, ◌≤◌, ◌<◌, ◌≡◌, ◌↔◌, ◌⊎◌, sym, ap, ◌∙◌, subst, Bool, true, false, not, ◌&&◌,
  Option, none, some, ltb, is_some, if◌then◌else◌, arith, Bool-cases, Option-cases, inl, inr,
}
use native.Mathlib.Decide.{dec_lt}
use libnanvix.Ikc.Resource.{Resources}
use libnanvix.Ikc.Mportal.Pieces.{Config}
use libnanvix.Ikc.Mportal.Buffers.{Pool, search_from, buffer_search}
use libnanvix.Ikc.Mportal.Stored.{opens}

at_or_before : (j n : ℕ) → j < suc n → (j < n) ⊎ (j ≡ n)
at_or_before j n lt = elim (dec_lt j n) [ yes before ↦ inl before | no at ↦ inr (omega arith) ]

module _ (res : Resources) (buffer_max buffer_size : ℕ) where
  open res use {Resource, is_used, is_busy}

  -- A message that can be read begins in buffer `i`.
  unfoldable pub begins : Config → Pool Resource → ℕ → Bool
  unfolding opens
  begins d p i = opens res buffer_max buffer_size d p i && not (is_busy (p.resources i))

  -- Of the first `n` buffers in which such a message begins, `b` is one of the least age, and the last of
  -- these.
  pub record IsOldest (d : Config) (p : Pool Resource) (n b : ℕ) : Type 0 where
    pub below : b < n
    pub start : begins d p b ≡ true
    pub least : (j : ℕ) → j < n → begins d p j ≡ true → (p.buffers b).age ≤ (p.buffers j).age
    pub last : (j : ℕ) → j < n → b < j → begins d p j ≡ true → (p.buffers b).age < (p.buffers j).age

  -- What the loop has found after `n` buffers.
  unfoldable pub Found : Config → Pool Resource → ℕ → Option ℕ → Type 0
  Found d p n none = (j : ℕ) → j < n → begins d p j ≡ false
  Found d p n (some b) = IsOldest d p n b

  -- The three ways of a round for a portal that reads.
  search_from-round :
      (d : Config) (n i : ℕ) (best : Option ℕ) (p : Pool Resource)
      → is_some d.remote ≡ true
      → let older : Bool = elim best [
        | none ↦ false
        | some b ↦ ltb (p.buffers b).age (p.buffers i).age
      ] in
        search_from res buffer_max buffer_size d (suc n) i best p
        ≡ search_from res buffer_max buffer_size d n
            (suc i)
            (if begins d p i && not older then some i else best)
            p
  unfolding search_from begins opens
  search_from-round d n i none p reads = ground (arith, reads)
  search_from-round d n i (some b) p reads = ground (arith, reads)

  -- The next buffer becomes the one that was found, or the one before stays.
  IsOldest-takes :
      (d : Config) (p : Pool Resource) (n : ℕ)
      → begins d p n ≡ true
      → ((j : ℕ) → j < n → begins d p j ≡ true → (p.buffers n).age ≤ (p.buffers j).age)
      → IsOldest d p (suc n) n
  IsOldest-takes d p n here oldest = record {
    below = omega arith;
    start = here;
    least = λ j lt e. elim (at_or_before j n lt) [
      | inl before ↦ oldest j before e
      | inr same ↦ subst (λ a. (p.buffers n).age ≤ (p.buffers a).age) (sym same) (omega arith)
    ];
    last = λ j lt after e. absurd (omega arith);
  }

  IsOldest-stays :
      (d : Config) (p : Pool Resource) (n b : ℕ)
      → IsOldest d p n b
      → (begins d p n ≡ true → (p.buffers b).age < (p.buffers n).age)
      → IsOldest d p (suc n) b
  IsOldest-stays d p n b best newer = record {
    below = omega (arith, best.below);
    start = best.start;
    least = λ j lt e. elim (at_or_before j n lt) [
      | inl before ↦ best.least j before e
      | inr same ↦
          let later = newer (subst (λ a. begins d p a ≡ true) same e) in
          subst (λ a. (p.buffers b).age ≤ (p.buffers a).age) (sym same) (omega arith)
    ];
    last = λ j lt after e. elim (at_or_before j n lt) [
      | inl before ↦ best.last j before after e
      | inr same ↦
          subst (λ a. (p.buffers b).age < (p.buffers a).age) (sym same)
            (newer (subst (λ a. begins d p a ≡ true) same e))
    ];
  }

  Found-step :
      (d : Config) (i : ℕ) (best : Option ℕ) (p : Pool Resource)
      → Found d p i best
      → let older : Bool = elim best [
        | none ↦ false
        | some b ↦ ltb (p.buffers b).age (p.buffers i).age
      ] in
        Found d p (suc i) (if begins d p i && not older then some i else best)
  unfolding Found
  Found-step d i none p nothing = elim (Bool-cases (begins d p i)) [
    | inl here ↦
        subst (Found d p (suc i)) (found_here here)
          (IsOldest-takes d p i here (λ j lt e. absurd (ground (arith, nothing j lt, e))))
    | inr other ↦ subst (Found d p (suc i)) (found_nothing other) (λ j lt.
        elim (at_or_before j i lt) [
          | inl before ↦ nothing j before
          | inr same ↦ subst (λ a. begins d p a ≡ false) (sym same) other
        ])
  ]
    where
      found_here : begins d p i ≡ true → some i ≡ (if begins d p i && true then some i else none)
      found_here here = ground (arith, here)

      found_nothing : begins d p i ≡ false → none ≡ (if begins d p i && true then some i else none)
      found_nothing other = ground (arith, other)
  Found-step d i (some b) p best =
      elim (Bool-cases (begins d p i && not (ltb (p.buffers b).age (p.buffers i).age))) [
        | inl takes ↦
            let both : (begins d p i ≡ true) × ((p.buffers i).age ≤ (p.buffers b).age) =
              ground (arith, takes) in
            subst (Found d p (suc i)) (chosen takes)
              (IsOldest-takes d p i both.0 (λ j lt e. omega (arith, both.1, best.least j lt e)))
        | inr stays ↦
            subst (Found d p (suc i)) (kept stays)
              (IsOldest-stays d p i b best (λ here. ground (arith, stays, here)))
      ]
    where
      test : Bool
      test = begins d p i && not (ltb (p.buffers b).age (p.buffers i).age)

      chosen : test ≡ true → some i ≡ (if test then some i else some b)
      chosen takes = ground (arith, takes)

      kept : test ≡ false → some b ≡ (if test then some i else some b)
      kept stays = ground (arith, stays)

  search_from-Found :
      (d : Config) (n i : ℕ) (best : Option ℕ) (p : Pool Resource)
      → is_some d.remote ≡ true
      → Found d p i best
      → Found d p (i + n) (search_from res buffer_max buffer_size d n i best p)
  unfolding search_from
  search_from-Found d zero i best p reads found =
      let same : i ≡ i + zero = omega arith in subst (λ m. Found d p m best) same found
  search_from-Found d (suc n) i best p reads found =
      let older : Bool = elim best [
        | none ↦ false
        | some b ↦ ltb (p.buffers b).age (p.buffers i).age
      ] in
      let next = (if begins d p i && not older then some i else best) in
      let same : suc i + n ≡ i + suc n = omega arith in
      subst (λ m. Found d p m (search_from res buffer_max buffer_size d (suc n) i best p)) same
        (subst (Found d p (suc i + n)) (sym (search_from-round d n i best p reads))
          (search_from-Found d n (suc i) next p reads (Found-step d i best p found)))

  IsOldest-unique :
      (d : Config) (p : Pool Resource) (n a b : ℕ) → IsOldest d p n a → IsOldest d p n b → a ≡ b
  IsOldest-unique d p n a b one other = elim (dec_lt a b) [
    | yes less ↦
        absurd (
          omega (arith, one.last b other.below less other.start, other.least a one.below one.start))
    | no more ↦ elim (dec_lt b a) [
      | yes less ↦ absurd (
          omega (arith, other.last a one.below less one.start, one.least b other.below other.start))
      | no same ↦ omega arith
    ]
  ]

  -- A portal that has allowed a remote finds, in the loop of do_kportal_buffer_search() over all the
  -- buffers, exactly the oldest message from the remote's port to its own that can be read: of those
  -- that begin in a buffer, and are not busy, one of the least age, and the last of these.
  pub buffer_search-IsOldest :
      (d : Config) (p : Pool Resource) (b : ℕ)
      → is_some d.remote ≡ true
      → (buffer_search res buffer_max buffer_size d p ≡ some b) ↔ IsOldest d p buffer_max b
  unfolding buffer_search Found
  buffer_search-IsOldest d p b reads =
      let result = buffer_search res buffer_max buffer_size d p in
      let all : 0 + buffer_max ≡ buffer_max = omega arith in
      let found : Found d p buffer_max result =
        subst (λ m. Found d p m result) all
          (search_from-Found d buffer_max 0 none p reads (λ j lt. absurd (omega arith))) in
      (
        λ e. subst (Found d p buffer_max) e found,
        λ best. elim (Option-cases result) [
          | inl nobody ↦
              let nothing : Found d p buffer_max none = subst (Found d p buffer_max) nobody found in
              absurd (ground (arith, nothing b best.below, best.start))
          | inr (k, e) ↦
              e
              ∙ ap some
                  (IsOldest-unique d p buffer_max k b (subst (Found d p buffer_max) e found) best)
        ],
      )
