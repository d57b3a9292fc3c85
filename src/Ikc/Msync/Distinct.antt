-- ===== src/Ikc/Msync/Distinct.antt =====
-- The points of src/libnanvix/ikc/msync.c are told apart by what ksync_search() compares.
use libnanvix.Shared.{
  ℕ, ◌<◌, ◌≡◌, ◌≢◌, refl, sym, ◌∙◌, Bool, true, false, none, ℤ, pos, negsuc, Bool-cases,
  Option-cases, subst, and_parts, increment, and_intro, inl, inr, find_from-none, ltb, ◌==◌, update,
  arith,
}
use native.Mathlib.Decide.{ℕ_discrete}
use libnanvix.Ikc.Resource.{Resources}
use libnanvix.Ikc.Sync.{SyncType, one_to_all, all_to_one}
use libnanvix.Ikc.Msync.Nodes.{Bits, field_width, same_below}
use libnanvix.Ikc.Msync.Point.{MsyncHash, fresh}
use libnanvix.Ikc.Msync.Reset.{same_below-true, same_below-false}
use libnanvix.Ikc.Msync.Table.{
  Table, same_type, same_point, accessible, matches, search, alloc_point, claimed, dropped, refusal,
  released, do_ksync_release,
}

same_below-swap :
    (a b c : Bits)
    → same_below field_width a c ≡ true
    → same_below field_width b c ≡ true
    → same_below field_width a b ≡ true
same_below-swap a b c h k = elim (Bool-cases (same_below field_width a b)) [
  | inl same ↦ same
  | inr other ↦
      let (i, lt, differ) = same_below-false field_width a b other in
      absurd (
        differ
          (same_below-true field_width a c h i lt ∙ sym (same_below-true field_width b c k i lt)))
]

same_type-swap :
    (a b c : SyncType) → same_type a c ≡ true → same_type b c ≡ true → same_type a b ≡ true
same_type-swap one_to_all one_to_all c h k = refl
same_type-swap all_to_one all_to_one c h k = refl
same_type-swap one_to_all all_to_one one_to_all h k = cc
same_type-swap one_to_all all_to_one all_to_one h k = cc
same_type-swap all_to_one one_to_all one_to_all h k = cc
same_type-swap all_to_one one_to_all all_to_one h k = cc

same_point-parts :
    (a b : MsyncHash)
    → same_point a b ≡ true
    → (same_type a.type b.type ≡ true)
      × ((a.master == b.master) ≡ true)
      × (same_below field_width a.nodeslist b.nodeslist ≡ true)
unfolding same_point
same_point-parts a b e =
    and_parts (same_type a.type b.type) (a.master == b.master)
      (same_below field_width a.nodeslist b.nodeslist) e

-- Hashes that are the same point as a third are the same point.
pub same_point-swap :
    (a b c : MsyncHash) → same_point a c ≡ true → same_point b c ≡ true → same_point a b ≡ true
unfolding same_point
same_point-swap a b c h k =
    let (h1, h2, h3) = same_point-parts a c h in
    let (k1, k2, k3) = same_point-parts b c k in
    and_intro (same_type-swap a.type b.type c.type h1 k1) (ground (arith, h2, k2))
      (same_below-swap a.nodeslist b.nodeslist c.nodeslist h3 k3)

module _ (res : Resources) (ksync_max : ℕ) where
  open res use {Resource}

  -- No two points of the same direction are found by the same hash.
  abbrev pub Distinct : Table Resource → Type 0
  Distinct t =
      (input : Bool) (h : MsyncHash) (i j : ℕ)
      → i < ksync_max
      → j < ksync_max
      → matches res ksync_max t h input i ≡ true
      → matches res ksync_max t h input j ≡ true
      → i ≡ j

  pub matches-parts :
      (t : Table Resource) (h : MsyncHash) (input : Bool) (i : ℕ)
      → matches res ksync_max t h input i ≡ true
      → (res.is_used (t.resources i) ≡ true)
        × (accessible res ksync_max input (t.resources i) ≡ true)
        × (same_point (t.points i).hash h ≡ true)
  unfolding matches
  matches-parts t h input i e =
      and_parts (res.is_used (t.resources i)) (accessible res ksync_max input (t.resources i))
        (same_point (t.points i).hash h) e

  -- Two hashes of one point: what finds it by one finds it by the other.
  matches-swap :
      (t : Table Resource) (h0 h : MsyncHash) (input : Bool) (j : ℕ)
      → matches res ksync_max t h input j ≡ true
      → same_point h0 h ≡ true
      → matches res ksync_max t h0 input j ≡ true
  unfolding matches
  matches-swap t h0 h input j m e =
      let (used, access, point) = matches-parts t h input j m in
      and_intro used access (same_point-swap (t.points j).hash h0 h point e)

  -- An allocated point has the direction that it was allocated for.
  claimed-direction :
      (input for_input : Bool) (r : Resource)
      → accessible res ksync_max input (claimed res ksync_max for_input r) ≡ true
      → input ≡ for_input
  unfolding accessible claimed
  claimed-direction true true r e = refl
  claimed-direction false false r e = refl
  claimed-direction true false r e = cc (e, res.readable-set_wronly (res.given r))
  claimed-direction false true r e = cc (e, res.writable-set_rdonly (res.given r))

  -- A point at a new place that nothing matched before.
  module _ (t : Table Resource) (d : Distinct t) (hash : MsyncHash) (for_input : Bool) (k : ℕ)
      (none_yet : (j : ℕ) → j < ksync_max → matches res ksync_max t hash for_input j ≡ false) where
    placed : Table Resource
    placed = record t {
      resources = update t.resources k (claimed res ksync_max for_input (t.resources k));
      points = update t.points k (fresh hash);
    }

    elsewhere :
        (h : MsyncHash) (input : Bool) (j : ℕ)
        → k ≢ j
        → matches res ksync_max placed h input j ≡ true
        → matches res ksync_max t h input j ≡ true
    unfolding matches placed
    elsewhere h input j differ m = ground (arith, m)

    at_place :
        (h : MsyncHash) (input : Bool)
        → matches res ksync_max placed h input k ≡ true
        → (accessible res ksync_max input (claimed res ksync_max for_input (t.resources k)) ≡ true)
          × (same_point hash h ≡ true)
    unfolding placed
    at_place h input m =
        let (used, access, point) = matches-parts placed h input k m in
        (ground (arith, access), ground (arith, point))

    no_clash :
        (h : MsyncHash) (input : Bool) (j : ℕ)
        → k ≢ j
        → j < ksync_max
        → matches res ksync_max placed h input k ≡ true
        → matches res ksync_max placed h input j ≢ true
    unfolding matches placed
    no_clash h input j differ lt here there =
        let (access, point) = at_place h input here in
        let same = claimed-direction input for_input (t.resources k) access in
        let found = matches-swap t hash h input j (elsewhere h input j differ there) point in
        cc (same, found, none_yet j lt)

    placed-Distinct : Distinct placed
    placed-Distinct input h i j li lj mi mj = elim (ℕ_discrete k i) [
      | yes at ↦ elim (ℕ_discrete k j) [
        | yes also ↦ omega arith
        | no differ ↦ absurd (
            no_clash h input j differ lj
              (subst (λ x. matches res ksync_max placed h input x ≡ true) (sym at) mi) mj)
      ]
      | no differ ↦ elim (ℕ_discrete k j) [
        | yes at ↦ absurd (
            no_clash h input i differ li
              (subst (λ x. matches res ksync_max placed h input x ≡ true) (sym at) mj) mi)
        | no also ↦
            d input h i j li lj (elsewhere h input i differ mi) (elsewhere h input j also mj)
      ]
    ]

  -- What finds less is distinct too.
  fewer-Distinct :
      (t u : Table Resource)
      → Distinct t
      → ((h : MsyncHash) (input : Bool) (i : ℕ)
          → matches res ksync_max u h input i ≡ true
          → matches res ksync_max t h input i ≡ true)
      → Distinct u
  fewer-Distinct t u d less input h i j li lj mi mj =
      d input h i j li lj (less h input i mi) (less h input j mj)

  search-none :
      (t : Table Resource) (h : MsyncHash) (input : Bool)
      → search res ksync_max t h input ≡ none
      → (j : ℕ) → j < ksync_max
      → matches res ksync_max t h input j ≡ false
  unfolding search
  search-none t h input e j lt = find_from-none ksync_max 0 _ e j (omega arith) (omega arith)

  -- A point with one reference more.
  referred : ℕ → Table Resource → Table Resource
  referred k t = record t {
    points = update t.points k (record (t.points k) { refcount = increment (t.points k).refcount });
  }

  referred-less :
      (k : ℕ) (t : Table Resource) (h : MsyncHash) (input : Bool) (i : ℕ)
      → matches res ksync_max (referred k t) h input i ≡ true
      → matches res ksync_max t h input i ≡ true
  unfolding matches referred
  referred-less k t h input i m =
      let same : (t.points i).hash ≡ ((referred k t).points i).hash = ground arith in rw same m

  pub alloc_point-Distinct :
      (hash : MsyncHash) (input : Bool) (t : Table Resource)
      → Distinct t
      → Distinct (alloc_point res ksync_max hash input t).1
  unfolding alloc_point placed referred
  alloc_point-Distinct hash input t d = elim (Option-cases (search res ksync_max t hash input)) [
    | inl none_found ↦ elim (Option-cases (res.alloc ksync_max t.resources)) [
      | inl full ↦
          fewer-Distinct t (alloc_point res ksync_max hash input t).1 d
            (λ h i j m. ground (arith, none_found, full, m))
      | inr (k, e) ↦
          fewer-Distinct (placed t d hash input k (search-none t hash input none_found))
            (alloc_point res ksync_max hash input t).1
            (placed-Distinct t d hash input k (search-none t hash input none_found))
            (λ h i j m. ground (arith, none_found, e, m))
    ]
    | inr (k, e) ↦
        fewer-Distinct t (alloc_point res ksync_max hash input t).1 d
          (λ h i j m. referred-less k t h i j (ground (arith, e, m)))
  ]

  -- A point that is still in use after a release is as it was, but for its references.
  dropped-used :
      (type0 : SyncType) (k : ℕ) (t : Table Resource) (i : ℕ)
      → let u = dropped res ksync_max type0 k t in
        res.is_used (u.resources i) ≡ true
        → (t.resources i ≡ u.resources i) × ((t.points i).hash ≡ (u.points i).hash)
  unfolding dropped
  dropped-used type0 k t i m = (
    ground (arith, m, res.used-freed (t.resources k)),
    ground (arith, m, res.used-freed (t.resources k)),
  )

  dropped-less :
      (type0 : SyncType) (k : ℕ) (t : Table Resource) (h : MsyncHash) (input : Bool) (i : ℕ)
      → matches res ksync_max (dropped res ksync_max type0 k t) h input i ≡ true
      → matches res ksync_max t h input i ≡ true
  unfolding matches
  dropped-less type0 k t h input i m =
      let (used, access, point) = matches-parts (dropped res ksync_max type0 k t) h input i m in
      let (same, hash) = dropped-used type0 k t i used in rw (same, hash) m

  pub do_ksync_release-Distinct :
      (type0 : SyncType) (syncid : ℤ) (input : Bool) (t : Table Resource)
      → Distinct t
      → Distinct (do_ksync_release res ksync_max type0 syncid input t).1
  unfolding do_ksync_release released matches
  do_ksync_release-Distinct type0 (negsuc n) input t d = d
  do_ksync_release-Distinct type0 (pos k) input t d = elim (Bool-cases (ltb k ksync_max)) [
    | inl inside ↦ elim (Option-cases (refusal res ksync_max input (t.resources k))) [
      | inl fine ↦ rw (inside, fine) less
      | inr (e, refused) ↦ rw (inside, refused) d
    ]
    | inr outside ↦ rw outside d
  ]
    where
      less : Distinct (released res ksync_max type0 input k t)
      less = fewer-Distinct t (released res ksync_max type0 input k t) d (dropped-less type0 k t)

  -- In a table without points nothing is found.
  pub unused-Distinct :
      (t : Table Resource)
      → ((i : ℕ) → i < ksync_max → res.is_used (t.resources i) ≡ false)
      → Distinct t
  unused-Distinct t unused input h i j li lj mi mj =
      cc (unused i li, (matches-parts t h input i mi).0)
