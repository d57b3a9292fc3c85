-- ===== src/Ikc/Mportal/Aread.antt =====
-- kportal_aread() and kportal_read() of src/libnanvix/ikc/mportal.c, for one thread.
use libnanvix.Shared.{
  ℕ, Bool, true, not, List, [], Option, none, some, ℤ, Ret, fail, einval, ebusy, eacces,
  if◌then◌else◌, update,
}
use libnanvix.Ikc.Resource.{Resources}
use libnanvix.Ikc.Mportal.Pieces.{Config, Run, returned, asserted, out_of_fuel, Read}
use libnanvix.Ikc.Mportal.Local.{aread_local}
use libnanvix.Ikc.Mportal.Table.{Ports, bad}
use libnanvix.Ikc.Mportal.Arrival.{from_start, rounds}
use libnanvix.Ikc.Mportal.Transfers.{Node, transfer_portal, with_resource, complete_read}

module _ (res : Resources) (portal_max port_nr buffer_max buffer_size max_size size_bits : ℕ)
    (node_is_valid node_is_local : ℕ → Bool) where
  open res use {Resource, is_busy}

  -- The transfers of a portal that was set busy, to and from the node itself or another one. The fuel
  -- bounds the rounds, and the messages and buffers of each.
  module _ (fuel : ℕ) {W : Type 0} where
    unfoldable pub read_portal :
        (Option ℕ → Config → W → Ret × W)
        → (Option ℕ → W → Read W)
        → (List ℕ → Config)
        → ℕ
        → ℕ
        → ℕ
        → Ports Resource
        → Node Resource W
        → Run (Ret × List ℕ × Node Resource W)
    unfolding aread_local rounds
    read_portal write_config kmailbox_read as_config remote i size t s =
        let portal = t.portals i in
        let far : Run (Ret × List ℕ × Node Resource W) =
          elim (rounds res buffer_max buffer_size portal_max port_nr fuel node_is_local write_config
            kmailbox_read as_config fuel t portal size true (from_start size []) s.pool
            (s.read_channels remote) s.world) [
              | out_of_fuel ↦ out_of_fuel
              | asserted ↦ asserted
              | returned (ret, copied, pool, channel, world) ↦
                  let s' : Node Resource W = record s {
                    pool = pool;
                    read_channels = update s.read_channels remote channel;
                    world = world;
                  } in
                  returned (ret, copied, s')
            ] in
        let near : Run (Ret × List ℕ × Node Resource W) =
          elim (aread_local res buffer_max buffer_size fuel fuel portal.config size
            (from_start size []) s.pool) [
              | none ↦ out_of_fuel
              | some (ret, r, pool) ↦ returned (ret, r.copied, record s { pool = pool })
            ] in
        if node_is_local remote then near else if not (node_is_valid remote) then asserted else far

    -- kportal_aread(): the return value and what is in the buffer.
    unfoldable pub kportal_aread :
        (Option ℕ → Config → W → Ret × W)
        → (Option ℕ → W → Read W)
        → (List ℕ → Config)
        → (portalid : ℤ) → (is_null : Bool) → ℕ
        → Ports Resource
        → Node Resource W
        → Run (Ret × List ℕ × Ports Resource × Node Resource W)
    unfolding transfer_portal bad read_portal complete_read
    kportal_aread write_config kmailbox_read as_config portalid is_null size t s =
        elim (transfer_portal res portal_max max_size size_bits portalid is_null size) [
          | none ↦ returned (fail einval, [], t, s)
          | some i ↦ elim (bad res portal_max port_nr true (t.resources i)) [
            | some e ↦ returned (fail e, [], t, s)
            | none ↦ elim (t.portals i).config.remote [
              | none ↦ returned (fail eacces, [], t, s)
              | some remote ↦
                  let t' =
                    with_resource res portal_max max_size size_bits i (res.set_busy (t.resources i))
                      t in
                  let run : Run (Ret × List ℕ × Ports Resource × Node Resource W) =
                    elim (read_portal write_config kmailbox_read as_config remote i size t' s) [
                      | out_of_fuel ↦ out_of_fuel
                      | asserted ↦ asserted
                      | returned (ret, copied, s') ↦ returned (
                        ret,
                        copied,
                        complete_read res portal_max max_size size_bits i ret size t',
                        s',
                      )
                    ] in
                  if is_busy (t.resources i) then returned (fail ebusy, [], t, s) else run
            ]
          ]
        ]

    -- kportal_read()
    unfoldable pub kportal_read :
        (Option ℕ → Config → W → Ret × W)
        → (Option ℕ → W → Read W)
        → (List ℕ → Config)
        → (portalid : ℤ) → (is_null : Bool) → ℕ
        → Ports Resource
        → Node Resource W
        → Run (Ret × List ℕ × Ports Resource × Node Resource W)
    unfolding kportal_aread
    kportal_read write_config kmailbox_read as_config portalid is_null size t s =
        kportal_aread write_config kmailbox_read as_config portalid is_null size t s
