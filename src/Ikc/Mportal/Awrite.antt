-- ===== src/Ikc/Mportal/Awrite.antt =====
-- kportal_awrite() and kportal_write() of src/libnanvix/ikc/mportal.c, for one thread.
use libnanvix.Shared.{
  ℕ, Bool, false, List, Option, none, some, ℤ, Ret, ok, fail, einval, ebusy, done, panic,
  if◌then◌else◌, update,
}
use libnanvix.Ikc.Resource.{Resources}
use libnanvix.Ikc.Mportal.Pieces.{Message, Run, returned, asserted, out_of_fuel, send}
use libnanvix.Ikc.Mportal.Local.{awrite_local}
use libnanvix.Ikc.Mportal.Table.{Portal, Ports, bad}
use libnanvix.Ikc.Mportal.Allow.{Allow, wait_allow}
use libnanvix.Ikc.Mportal.Transfers.{Node, transfer_portal, with_resource, complete_write}

module _ (res : Resources) (portal_max port_nr buffer_max buffer_size max_size size_bits : ℕ)
    (node_is_valid node_is_local : ℕ → Bool) where
  open res use {Resource, is_busy}

  -- Writes. MPORTAL_MESSAGE_DATA_SIZE is `data_size`.
  module _ (fuel data_size : ℕ) {W : Type 0} where
    -- do_kportal_awrite() without the volume. Where it waits for a channel that is busy, it runs out of
    -- fuel.
    unfoldable pub write_far :
        (Option ℕ → W → Allow W)
        → (Option ℕ → Message → W → Ret × W)
        → ℕ
        → Portal
        → List ℕ
        → ℕ
        → Ports Resource
        → Node Resource W
        → Run (Ret × Node Resource W)
    unfolding wait_allow send
    write_far read_config kmailbox_write remote portal buffer size t s =
        elim (wait_allow res portal_max node_is_local (read_config portal.mallow) fuel remote t
          s.allowed s.world) [
            | none ↦ out_of_fuel
            | some panic ↦ asserted
            | some (done (fail e, allowed, w)) ↦
                returned (fail e, record s { allowed = allowed; world = w })
            | some (done (ok n, allowed, w)) ↦
                let channel = s.write_channels remote in
                let (ret, w') =
                  send data_size (kmailbox_write portal.mdata) portal.config buffer size w in
                let s' : Node Resource W = record s {
                  write_channels =
                      update s.write_channels remote (res.set_notbusy (res.set_busy channel));
                  allowed = allowed;
                  world = w';
                } in
                if is_busy channel then out_of_fuel else returned (ret, s')
          ]

    unfoldable pub write_portal :
        (Option ℕ → W → Allow W)
        → (Option ℕ → Message → W → Ret × W)
        → ℕ
        → ℕ
        → List ℕ
        → ℕ
        → Ports Resource
        → Node Resource W
        → Run (Ret × Node Resource W)
    unfolding awrite_local write_far
    write_portal read_config kmailbox_write remote i buffer size t s =
        let portal = t.portals i in
        let far = write_far read_config kmailbox_write remote portal buffer size t s in
        let near : Run (Ret × Node Resource W) =
          elim (awrite_local res buffer_max buffer_size fuel portal.config buffer size s.pool) [
            | none ↦ out_of_fuel
            | some (ret, pool) ↦ returned (ret, record s { pool = pool })
          ] in
        if node_is_local remote then near else far

    -- kportal_awrite(). An output portal has a remote: without one, the index of `write_lock` is -1.
    unfoldable pub kportal_awrite :
        (Option ℕ → W → Allow W)
        → (Option ℕ → Message → W → Ret × W)
        → (portalid : ℤ) → (is_null : Bool) → List ℕ
        → ℕ
        → Ports Resource
        → Node Resource W
        → Run (Ret × Ports Resource × Node Resource W)
    unfolding transfer_portal bad write_portal complete_write
    kportal_awrite read_config kmailbox_write portalid is_null buffer size t s =
        elim (transfer_portal res portal_max max_size size_bits portalid is_null size) [
          | none ↦ returned (fail einval, t, s)
          | some i ↦ elim (bad res portal_max port_nr false (t.resources i)) [
            | some e ↦ returned (fail e, t, s)
            | none ↦
                let t' =
                  with_resource res portal_max max_size size_bits i (res.set_busy (t.resources i))
                    t in
                let run : Run (Ret × Ports Resource × Node Resource W) =
                  elim (t.portals i).config.remote [
                    | none ↦ asserted
                    | some remote ↦
                        elim (write_portal read_config kmailbox_write remote i buffer size t' s) [
                          | out_of_fuel ↦ out_of_fuel
                          | asserted ↦ asserted
                          | returned (ret, s') ↦ returned (
                            ret,
                            complete_write res portal_max max_size size_bits i ret size t',
                            s',
                          )
                        ]
                  ] in
                if is_busy (t.resources i) then returned (fail ebusy, t, s) else run
          ]
        ]

    -- kportal_write()
    unfoldable pub kportal_write :
        (Option ℕ → W → Allow W)
        → (Option ℕ → Message → W → Ret × W)
        → (portalid : ℤ) → (is_null : Bool) → List ℕ
        → ℕ
        → Ports Resource
        → Node Resource W
        → Run (Ret × Ports Resource × Node Resource W)
    unfolding kportal_awrite
    kportal_write read_config kmailbox_write portalid is_null buffer size t s =
        kportal_awrite read_config kmailbox_write portalid is_null buffer size t s
