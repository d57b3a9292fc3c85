-- ===== src/Ikc/Mportal/Transfers.antt =====
-- What kportal_aread() and kportal_awrite() of src/libnanvix/ikc/mportal.c share: their checks, and what
-- they do at the end, for one thread. KPORTAL_MAX_SIZE is `max_size`, and size_t has `size_bits` bits.
use libnanvix.Shared.{
  ℕ, ◌+◌, ◌%◌, ◌^◌, Bool, ◌||◌, Option, none, some, ℤ, Ret, ok, fail, count_one, ltb, ◌==◌,
  if◌then◌else◌, update,
}
use libnanvix.Ikc.Resource.{Resources}
use libnanvix.Ikc.Mportal.Buffers.{Pool}
use libnanvix.Ikc.Mportal.Table.{Portal, Ports}
use libnanvix.Ikc.Mportal.Calls.{passed}

-- What the transfers share: `mpbuffers`, `read_channels`, `write_channels` and `remote_is_allowed`, and
-- the mailboxes.
pub record Node (R W : Type 0) : Type 0 where
  pub pool : Pool R
  pub read_channels : ℕ → R
  pub write_channels : ℕ → R
  pub allowed : ℕ → Bool
  pub world : W

module _ (res : Resources) (portal_max max_size size_bits : ℕ) where
  open res use {Resource}

  -- The arguments of a transfer that kportal_aread() and kportal_awrite() accept: `is_null` tells that
  -- the buffer is NULL.
  unfoldable pub transfer_portal : (portalid : ℤ) → (is_null : Bool) → ℕ → Option ℕ
  transfer_portal portalid is_null size = elim (passed (λ n. ltb n portal_max) portalid) [
    | none ↦ none
    | some i ↦ if is_null then none else if size == 0 || ltb max_size size then none else some i
  ]

  abbrev pub with_resource : ℕ → Resource → Ports Resource → Ports Resource
  with_resource i r t = record t { resources = update t.resources i r }

  -- The volume behind a transfer of `size` bytes.
  abbrev pub transferred : Ret → ℕ → Portal → Portal
  transferred (fail e) size portal = portal
  transferred (ok n) size portal = record portal { volume = (portal.volume + size) % 2 ^ size_bits }

  -- The end of kportal_aread(), which forgets the remote that was allowed.
  unfoldable pub complete_read : ℕ → Ret → ℕ → Ports Resource → Ports Resource
  complete_read i ret size t =
      let portal = transferred ret size (t.portals i) in
      let forgotten : Portal = record portal {
        mallow = none;
        mdata = none;
        config = record portal.config { remote = none; remote_port = none };
      } in
      let nreads : ℕ = elim ret [
        | fail e ↦ t.counters.nreads
        | ok n ↦ count_one t.counters.nreads
      ] in
      record t {
        resources = update t.resources i (res.set_notbusy (t.resources i));
        portals = update t.portals i forgotten;
        counters = record t.counters { nreads = nreads };
      }

  -- The end of kportal_awrite().
  unfoldable pub complete_write : ℕ → Ret → ℕ → Ports Resource → Ports Resource
  complete_write i ret size t =
      let nwrites : ℕ = elim ret [
        | fail e ↦ t.counters.nwrites
        | ok n ↦ count_one t.counters.nwrites
      ] in
      record t {
        resources = update t.resources i (res.set_notbusy (t.resources i));
        portals = update t.portals i (transferred ret size (t.portals i));
        counters = record t.counters { nwrites = nwrites };
      }
