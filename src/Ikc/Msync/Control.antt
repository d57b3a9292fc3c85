-- ===== src/Ikc/Msync/Control.antt =====
-- ksync_ioctl() and ksync_init() of src/libnanvix/ikc/msync.c.
use libnanvix.Shared.{
  ℕ, zero, suc, Bool, true, false, not, [], ◌∷◌, Option, none, some, ℤ, pos, negsuc, Ret, ok, fail,
  einval, ebadf, ebusy, efault, enotsup, Outcome, done, panic, ltb, if◌then◌else◌, update,
}
use libnanvix.Kernel.{Kernel, Nr}
use libnanvix.Ikc.Resource.{Resources}
use libnanvix.Ikc.Msync.Point.{Msync}
use libnanvix.Ikc.Msync.Table.{Table, Counters}

-- The requests KSYNC_IOCTL_...; `unknown` is any other number.
pub data Request : Type 0 where
  get_latency get_ncreates get_nunlinks get_nopens get_ncloses get_nwaits get_nsignals : Request
  unknown : Request

-- What a request reads of a point and of the counters.
unfoldable pub value_of : Request → Msync → Counters → Option ℕ
value_of get_latency point c = some point.latency
value_of get_ncreates point c = some c.ncreates
value_of get_nunlinks point c = some c.nunlinks
value_of get_nopens point c = some c.nopens
value_of get_ncloses point c = some c.ncloses
value_of get_nwaits point c = some c.nwaits
value_of get_nsignals point c = some c.nsignals
value_of unknown point c = none

-- ksync_ioctl_valid(): which addresses of a uint64_t lie in the user's memory is a parameter, and
-- NULL is `none`.
unfoldable pub ioctl_valid : (ℤ → Bool) → Option ℤ → Bool
ioctl_valid in_user_area none = false
ioctl_valid in_user_area (some address) = in_user_area address

module _ (res : Resources) (ksync_max nodes_num : ℕ) where
  open res use {Resource}

  -- `var` is the variable argument; the value that goes to `*var` stands behind the return value.
  unfoldable pub ksync_ioctl : (ℤ → Bool) → ℤ → Request → Option ℤ → Table Resource → Ret × Option ℕ
  unfolding value_of ioctl_valid
  ksync_ioctl in_user_area (negsuc n) request var t = (fail einval, none)
  ksync_ioctl in_user_area (pos i) request var t =
      if not (ltb i ksync_max)
      then (fail einval, none)
      else if not (res.is_used (t.resources i))
      then (fail ebadf, none)
      else if res.is_busy (t.resources i)
      then (fail ebusy, none)
      else if not (ioctl_valid in_user_area var)
      then (fail efault, none)
      else elim (value_of request (t.points i) t.counters) [
        | none ↦ (fail enotsup, none)
        | some value ↦ (ok 0, some value)
      ]

  -- The table that ksync_init() leaves. It sets the source of a hash to -1, which is 31 in 5 bits,
  -- and leaves the rest of the hash.
  unfoldable pub cleared : Table Resource → Table Resource
  cleared t = record {
    resources = λ i. if ltb i ksync_max then res.initial else t.resources i;
    points = λ i.
        let point = t.points i in
        let none_received : ℕ → ℤ = λ j. if ltb j nodes_num then pos 0 else point.nreceived j in
        if ltb i ksync_max
        then record {
          refcount = pos 0;
          nbarriers = 0;
          hash = record point.hash { source = 31 };
          nreceived = none_received;
          latency = 0;
        }
        else point;
    counters = record {
      ncreates = 0;
      nunlinks = 0;
      nopens = 0;
      ncloses = 0;
      nwaits = 0;
      nsignals = 0;
    };
    is_initialized = true;
  }

  module _ (k : Kernel) (mailbox_port_nr : ℕ) where
    -- The loop that opens an output mailbox to each of the `n` nodes from `i` on: the ids, from those
    -- of the nodes before. A call that fails is a failed KASSERT().
    unfoldable pub open_outboxes :
        ℕ → ℕ → (ℕ → Option ℕ) → k.State → Outcome ((ℕ → Option ℕ) × k.State)
    open_outboxes zero i outboxes s = done (outboxes, s)
    open_outboxes (suc n) i outboxes s =
        let (ret, s') = k.kcall Nr.mailbox_open (pos i ∷ pos mailbox_port_nr ∷ []) s in
        elim ret [
          | fail e ↦ panic
          | ok id ↦ open_outboxes n (suc i) (update outboxes i (some id)) s'
        ]

    -- ksync_init(): the ids of `inbox` and of `outboxes`, and the table. The number of the mailboxes'
    -- port, MAILBOX_PORT_NR - 1, is `mailbox_port_nr`, and `local` is the answer of knode_get_num().
    unfoldable pub ksync_init :
        ℤ → Table Resource → k.State → Outcome (ℕ × (ℕ → Option ℕ) × Table Resource × k.State)
    unfolding open_outboxes cleared
    ksync_init local t s =
        let (ret, s') = k.kcall Nr.mailbox_create (local ∷ pos mailbox_port_nr ∷ []) s in
        elim ret [
          | fail e ↦ panic
          | ok inbox ↦ elim (open_outboxes nodes_num 0 (λ _. none) s') [
            | panic ↦ panic
            | done (outboxes, s'') ↦ done (inbox, outboxes, cleared t, s'')
          ]
        ]
