-- ===== src/Ikc/Mportal/Accepted.antt =====
-- Calls of kportal_aread() and kportal_awrite() of src/libnanvix/ikc/mportal.c that are accepted.
use libnanvix.Shared.{
  ℕ, ◌≤◌, ◌<◌, ◌≡◌, refl, Bool, true, false, List, Option, none, some, Ret, pos, arith,
}
use libnanvix.Ikc.Resource.{Resources}
use libnanvix.Ikc.Mportal.Pieces.{Config, Message, Read, returned}
use libnanvix.Ikc.Mportal.Table.{Ports, accessible, bad}
use libnanvix.Ikc.Mportal.Allow.{Allow}
use libnanvix.Ikc.Mportal.Transfers.{
  Node, transfer_portal, with_resource, complete_read, complete_write,
}
use libnanvix.Ikc.Mportal.Aread.{read_portal, kportal_aread}
use libnanvix.Ikc.Mportal.Awrite.{write_portal, kportal_awrite}

module _ (res : Resources) (portal_max port_nr buffer_max buffer_size : ℕ) where
  open res use {Resource, is_used, is_readable, is_writable, is_busy}

  -- Portal `i` is an open input portal, or an output portal, that no other call uses.
  pub record IsIdle (input : Bool) (t : Ports Resource) (i : ℕ) : Type 0 where
    pub below : i < portal_max
    pub used : is_used (t.resources i) ≡ true
    pub kind : accessible res portal_max port_nr input (t.resources i) ≡ true
    pub free : is_busy (t.resources i) ≡ false

  transfer_portal-accepts :
      (max_size size_bits i size : ℕ)
      → i < portal_max
      → 0 < size
      → size ≤ max_size
      → transfer_portal res portal_max max_size size_bits (pos i) false size ≡ some i
  unfolding transfer_portal
  transfer_portal-accepts max_size size_bits i size below positive fits =
      ground (arith, below, positive, fits)

  bad-IsIdle :
      (input : Bool) (t : Ports Resource) (i : ℕ)
      → IsIdle input t i
      → bad res portal_max port_nr input (t.resources i) ≡ none
  unfolding bad
  bad-IsIdle input t i idle = rw (idle.used, idle.kind) refl

  module _ (max_size size_bits : ℕ) (node_is_valid node_is_local : ℕ → Bool) (fuel : ℕ)
      {W : Type 0} where
    -- A read that kportal_aread() accepts.
    pub kportal_aread-runs :
        (write_config : Option ℕ → Config → W → Ret × W) (kmailbox_read : Option ℕ → W → Read W)
        (as_config : List ℕ → Config) (t : Ports Resource) (i remote size : ℕ)
        (s s' : Node Resource W) (ret : Ret) (copied : List ℕ)
        → IsIdle true t i
        → 0 < size
        → size ≤ max_size
        → (t.portals i).config.remote ≡ some remote
        → read_portal res portal_max port_nr buffer_max buffer_size max_size size_bits node_is_valid
            node_is_local fuel write_config kmailbox_read as_config remote i size
            (with_resource res portal_max max_size size_bits i (res.set_busy (t.resources i)) t)
            s
          ≡ returned (ret, copied, s')
        → kportal_aread res portal_max port_nr buffer_max buffer_size max_size size_bits
            node_is_valid node_is_local fuel write_config kmailbox_read as_config
            (pos i)
            false
            size
            t
            s
          ≡ returned (
            ret,
            copied,
            complete_read res portal_max max_size size_bits i ret size (
                with_resource res portal_max max_size size_bits i (res.set_busy (t.resources i)) t),
            s',
          )
    unfolding kportal_aread
    kportal_aread-runs write_config kmailbox_read as_config t i remote size s s' ret copied idle
          positive fits from run =
        simp (
          kportal_aread,
          transfer_portal-accepts max_size size_bits i size idle.below positive fits,
          bad-IsIdle true t i idle,
          from,
          run,
          idle.free,
        )

    -- A write that kportal_awrite() accepts.
    pub kportal_awrite-runs :
        (data_size : ℕ) (read_config : Option ℕ → W → Allow W)
        (kmailbox_write : Option ℕ → Message → W → Ret × W) (t : Ports Resource) (i remote : ℕ)
        (buffer : List ℕ) (size : ℕ) (s s' : Node Resource W) (ret : Ret)
        → IsIdle false t i
        → 0 < size
        → size ≤ max_size
        → (t.portals i).config.remote ≡ some remote
        → write_portal res portal_max port_nr buffer_max buffer_size max_size size_bits
            node_is_valid node_is_local fuel data_size read_config kmailbox_write remote i buffer
            size
            (with_resource res portal_max max_size size_bits i (res.set_busy (t.resources i)) t)
            s
          ≡ returned (ret, s')
        → kportal_awrite res portal_max port_nr buffer_max buffer_size max_size size_bits
            node_is_valid node_is_local fuel data_size read_config kmailbox_write
            (pos i)
            false
            buffer
            size
            t
            s
          ≡ returned (
            ret,
            complete_write res portal_max max_size size_bits i ret size (
                with_resource res portal_max max_size size_bits i (res.set_busy (t.resources i)) t),
            s',
          )
    unfolding kportal_awrite
    kportal_awrite-runs data_size read_config kmailbox_write t i remote buffer size s s' ret idle
          positive fits from run =
        simp (
          kportal_awrite,
          transfer_portal-accepts max_size size_bits i size idle.below positive fits,
          bad-IsIdle false t i idle,
          from,
          run,
          idle.free,
        )
