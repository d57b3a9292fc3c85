-- ===== src/Ikc/Msync/Table.antt =====
-- The table of synchronization points of src/libnanvix/ikc/msync.c: how points are found, allocated
-- and released. KSYNC_MAX is `ksync_max`.
use libnanvix.Shared.{
  ℕ, ◌+◌, Bool, true, false, not, ◌&&◌, List, [], ◌∷◌, Option, none, some, ℤ, pos, negsuc, Ret, ok,
  fail, Errno, einval, ebadf, ebusy, Outcome, done, panic, within, is_zero, increment, decrement,
  count_one, length, find_first, ltb, ◌==◌, if◌then◌else◌, update,
}
use libnanvix.Ikc.Resource.{Resources}
use libnanvix.Ikc.Sync.{SyncType, one_to_all, all_to_one}
use libnanvix.Ikc.Msync.Nodes.{field_width, same_below, no_bits, nodelist_is_valid}
use libnanvix.Ikc.Msync.Point.{MsyncHash, Msync, fresh, hash_for}

-- Each counter is a uint64_t.
pub record Counters : Type 0 where
  pub ncreates : ℕ
  pub nunlinks : ℕ
  pub nopens : ℕ
  pub ncloses : ℕ
  pub nwaits : ℕ
  pub nsignals : ℕ

-- `msyncs` without the resources, `msync_counters` and `ksync_is_initialized`. The resources of the
-- points are a family of their own.
pub record Table (R : Type 0) : Type 0 where
  pub resources : ℕ → R
  pub points : ℕ → Msync
  pub counters : Counters
  pub is_initialized : Bool

abbrev pub same_type : SyncType → SyncType → Bool
same_type one_to_all one_to_all = true
same_type all_to_one all_to_one = true
same_type _ _ = false

-- What ksync_search() compares of two hashes.
unfoldable pub same_point : MsyncHash → MsyncHash → Bool
unfolding same_below
same_point a b =
    same_type a.type b.type
    && (a.master == b.master)
    && same_below field_width a.nodeslist b.nodeslist

-- MSYNC_HASH_NULL: -1 in a field of 5 bits is 31. `type0` is the type whose number is 0.
abbrev pub hash_null : SyncType → MsyncHash
hash_null type0 = record {
  source = 31;
  type = type0;
  master = 31;
  nodeslist = no_bits;
  barrier = no_bits;
}

-- Does the node that calls have the role of the one?
abbrev pub is_one : SyncType → Bool → Bool
is_one all_to_one input = input
is_one one_to_all input = not input

module _ (res : Resources) (ksync_max : ℕ) where
  open res use {Resource, is_used, is_readable, is_writable, is_busy}

  unfoldable pub accessible : Bool → Resource → Bool
  accessible input r = if input then is_readable r else is_writable r

  -- The conditions under which the loop of ksync_search() stops at a point.
  unfoldable pub matches : Table Resource → MsyncHash → Bool → ℕ → Bool
  unfolding accessible same_point
  matches t hash input i =
      is_used (t.resources i)
      && accessible input (t.resources i)
      && same_point (t.points i).hash hash

  unfoldable pub search : Table Resource → MsyncHash → Bool → Option ℕ
  unfolding matches
  search t hash input = find_first ksync_max (matches t hash input)

  -- A point for an input is read-only, one for an output write-only.
  unfoldable pub claimed : Bool → Resource → Resource
  claimed input r = if input then res.set_rdonly (res.given r) else res.set_wronly (res.given r)

  -- The critical section of do_ksync_alloc().
  unfoldable pub alloc_point : MsyncHash → Bool → Table Resource → Ret × Table Resource
  unfolding search claimed
  alloc_point hash input t = elim (search t hash input) [
    | some i ↦
        let point = t.points i in
        let referred : Msync = record point { refcount = increment point.refcount } in
        (ok i, record t { points = update t.points i referred })
    | none ↦ elim (res.alloc ksync_max t.resources) [
      | none ↦ (fail res.exhausted, t)
      | some i ↦ (
        ok i,
        record t {
          resources = update t.resources i (claimed input (t.resources i));
          points = update t.points i (fresh hash);
          counters =
              if input
              then record t.counters { ncreates = count_one t.counters.ncreates }
              else record t.counters { nopens = count_one t.counters.nopens };
        },
      )
    ]
  ]

  -- The list of nodes is NULL where it is `none`, and its length is `nnodes`; a type that is neither
  -- of the two is `none`.
  unfoldable pub do_ksync_alloc :
      (nodes_num local : ℕ)
      → Option (List ℤ)
      → Option SyncType
      → Bool
      → Table Resource
      → Outcome (Ret × Table Resource)
  unfolding alloc_point nodelist_is_valid hash_for
  do_ksync_alloc nodes_num local none type input t =
      if not t.is_initialized then panic else done (fail einval, t)
  do_ksync_alloc nodes_num local (some nodes) none input t =
      if not t.is_initialized then panic else done (fail einval, t)
  do_ksync_alloc nodes_num local (some []) (some type) input t =
      if not t.is_initialized then panic else done (fail einval, t)
  do_ksync_alloc nodes_num local (some (first ∷ nodes)) (some type) input t =
      if not t.is_initialized
      then panic
      else if not (within (pos (length (first ∷ nodes))) 2 (nodes_num + 1))
      then done (fail einval, t)
      else if not (nodelist_is_valid nodes_num local first nodes (is_one type input))
      then done (fail einval, t)
      else done (alloc_point (hash_for local type first nodes input) input t)

  -- A point without references is given back.
  unfoldable pub dropped : SyncType → ℕ → Table Resource → Table Resource
  dropped type0 i t =
      let point = t.points i in
      let left = decrement point.refcount in
      if is_zero left
      then record t {
        resources = update t.resources i (res.freed (t.resources i));
        points = update t.points i (record point { refcount = left; hash = hash_null type0 });
      }
      else record t { points = update t.points i (record point { refcount = left }) }

  -- The checks that a call makes of its point: the error that it returns, if it makes no more.
  unfoldable pub refusal : Bool → Resource → Option Errno
  unfolding accessible
  refusal input r =
      if not (is_used r)
      then some ebadf
      else if not (accessible input r)
      then some ebadf
      else if is_busy r
      then some ebusy
      else none

  unfoldable pub released : SyncType → Bool → ℕ → Table Resource → Table Resource
  unfolding dropped
  released type0 input i t =
      let u = dropped type0 i t in
      record u {
        counters =
            if input
            then record u.counters { nunlinks = count_one u.counters.nunlinks }
            else record u.counters { ncloses = count_one u.counters.ncloses };
      }

  unfoldable pub do_ksync_release : SyncType → ℤ → Bool → Table Resource → Ret × Table Resource
  unfolding refusal released
  do_ksync_release type0 (negsuc n) input t = (fail einval, t)
  do_ksync_release type0 (pos i) input t =
      if not (ltb i ksync_max) then (fail einval, t) else elim (refusal input (t.resources i)) [
        | some e ↦ (fail e, t)
        | none ↦ (ok 0, released type0 input i t)
      ]

  unfoldable pub ksync_create :
      (nodes_num local : ℕ)
      → Option (List ℤ)
      → Option SyncType
      → Table Resource
      → Outcome (Ret × Table Resource)
  unfolding do_ksync_alloc
  ksync_create nodes_num local nodes type t = do_ksync_alloc nodes_num local nodes type true t

  unfoldable pub ksync_open :
      (nodes_num local : ℕ)
      → Option (List ℤ)
      → Option SyncType
      → Table Resource
      → Outcome (Ret × Table Resource)
  unfolding do_ksync_alloc
  ksync_open nodes_num local nodes type t = do_ksync_alloc nodes_num local nodes type false t

  unfoldable pub ksync_unlink : SyncType → ℤ → Table Resource → Ret × Table Resource
  unfolding do_ksync_release
  ksync_unlink type0 syncid t = do_ksync_release type0 syncid true t

  unfoldable pub ksync_close : SyncType → ℤ → Table Resource → Ret × Table Resource
  unfolding do_ksync_release
  ksync_close type0 syncid t = do_ksync_release type0 syncid false t
