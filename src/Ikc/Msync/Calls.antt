-- ===== src/Ikc/Msync/Calls.antt =====
-- Sequences of calls that create, open, unlink and close synchronization points of
-- src/libnanvix/ikc/msync.c.
use libnanvix.Shared.{
  ℕ, ◌+◌, ◌<◌, ◌≡◌, subst, Bool, true, false, List, [], ◌∷◌, Option, none, some, ℤ, pos, Ret,
  Outcome, done, Bool-cases, inl, inr, within, length, arith,
}
use libnanvix.Ikc.Resource.{Resources}
use libnanvix.Ikc.Sync.{SyncType}
use libnanvix.Ikc.Msync.Nodes.{nodelist_is_valid}
use libnanvix.Ikc.Msync.Point.{MsyncHash, hash_for}
use libnanvix.Ikc.Msync.Table.{
  Table, is_one, matches, alloc_point, do_ksync_alloc, do_ksync_release, ksync_create, ksync_open,
  ksync_unlink, ksync_close,
}
use libnanvix.Ikc.Msync.Distinct.{
  Distinct, alloc_point-Distinct, do_ksync_release-Distinct, unused-Distinct,
}
use libnanvix.Ikc.Msync.Control.{cleared}

-- The calls that change which points there are.
pub data Call : Type 0 where
  creates opens : Option (List ℤ) → Option SyncType → Call
  unlinks closes : ℤ → Call

-- The table after a call; a failed KASSERT() leaves none.
module _ (res : Resources) (ksync_max nodes_num local : ℕ) (type0 : SyncType) where
  open res use {Resource}

  unfoldable pub perform : Call → Table Resource → Outcome (Ret × Table Resource)
  perform (creates nodes type) t = ksync_create res ksync_max nodes_num local nodes type t
  perform (opens nodes type) t = ksync_open res ksync_max nodes_num local nodes type t
  perform (unlinks syncid) t = done (ksync_unlink res ksync_max type0 syncid t)
  perform (closes syncid) t = done (ksync_close res ksync_max type0 syncid t)

  pub data Reach (t : Table Resource) : Table Resource → Type 0 where
    begins : Reach t t
    later :
        {u v : Table Resource} {r : Ret} (c : Call)
        → Reach t u
        → perform c u ≡ done (r, v)
        → Reach t v

  kept : (t u : Table Resource) → Distinct res ksync_max t → t ≡ u → Distinct res ksync_max u
  kept t u d e = subst (λ x. Distinct res ksync_max x) e d

  alloc-Distinct :
      (nodes : Option (List ℤ)) (type : Option SyncType) (input : Bool) (t u : Table Resource)
      (r : Ret)
      → Distinct res ksync_max t
      → do_ksync_alloc res ksync_max nodes_num local nodes type input t ≡ done (r, u)
      → Distinct res ksync_max u
  unfolding do_ksync_alloc
  alloc-Distinct none type input t u r d e = kept t u d (ground (arith, e))
  alloc-Distinct (some nodes) none input t u r d e = kept t u d (ground (arith, e))
  alloc-Distinct (some []) (some type) input t u r d e = kept t u d (ground (arith, e))
  alloc-Distinct (some (first ∷ nodes)) (some type) input t u r d e =
      elim (Bool-cases (within (pos (length (first ∷ nodes))) 2 (nodes_num + 1))) [
        | inl long ↦
            elim (Bool-cases (nodelist_is_valid nodes_num local first nodes (is_one type input))) [
              | inl valid ↦
                  kept (alloc_point res ksync_max (hash_for local type first nodes input) input t).1
                    u
                    (alloc_point-Distinct res ksync_max (hash_for local type first nodes input)
                      input t d)
                    (ground (arith, e, long, valid))
              | inr invalid ↦ kept t u d (ground (arith, e, long, invalid))
            ]
        | inr short ↦ kept t u d (ground (arith, e, short))
      ]

  perform-Distinct :
      (c : Call) (t u : Table Resource) (r : Ret)
      → Distinct res ksync_max t
      → perform c t ≡ done (r, u)
      → Distinct res ksync_max u
  unfolding perform ksync_create ksync_open ksync_unlink ksync_close
  perform-Distinct (creates nodes type) t u r d e = alloc-Distinct nodes type true t u r d e
  perform-Distinct (opens nodes type) t u r d e = alloc-Distinct nodes type false t u r d e
  perform-Distinct (unlinks syncid) t u r d e =
      kept (do_ksync_release res ksync_max type0 syncid true t).1 u
        (do_ksync_release-Distinct res ksync_max type0 syncid true t d) (cc e)
  perform-Distinct (closes syncid) t u r d e =
      kept (do_ksync_release res ksync_max type0 syncid false t).1 u
        (do_ksync_release-Distinct res ksync_max type0 syncid false t d) (cc e)

  Reach-Distinct :
      {t u : Table Resource} → Distinct res ksync_max t → Reach t u → Distinct res ksync_max u
  Reach-Distinct d begins = d
  Reach-Distinct d (later {u} {v} {r} c path e) = perform-Distinct c u v r (Reach-Distinct d path) e

  -- In the table that ksync_init() leaves and after any calls of ksync_create(), ksync_open(),
  -- ksync_unlink() and ksync_close(), with any arguments, a hash identifies at most one point of each
  -- direction: two points in use that ksync_search() would stop at are one point.
  pub search_unique :
      (t u : Table Resource) (input : Bool) (h : MsyncHash) (i j : ℕ)
      → Reach (cleared res ksync_max nodes_num t) u
      → i < ksync_max
      → j < ksync_max
      → matches res ksync_max u h input i ≡ true
      → matches res ksync_max u h input j ≡ true
      → i ≡ j
  unfolding cleared
  search_unique t u input h i j path =
      Reach-Distinct
        (unused-Distinct res ksync_max (cleared res ksync_max nodes_num t)
          (λ k lt. ground (arith, lt, res.used-initial)))
        path input h i j
