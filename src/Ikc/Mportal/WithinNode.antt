-- ===== src/Ikc/Mportal/WithinNode.antt =====
-- A message that kportal_awrite() of src/libnanvix/ikc/mportal.c writes to a portal of its own node, and
-- kportal_aread() reads there.
use libnanvix.Shared.{
  ℕ, ◌*◌, ◌^◌, ◌≤◌, ◌<◌, ◌≡◌, ap, ◌∙◌, Bool, true, false, List, [], Option, some, Ret, ok, pos,
  length, ◌==◌, is_some, arith,
}
use libnanvix.Ikc.Resource.{Resources}
use libnanvix.Ikc.Mportal.Pieces.{Config, Message, returned, Read}
use libnanvix.Ikc.Mportal.Buffers.{Pool}
use libnanvix.Ikc.Mportal.Local.{Reading, awrite_local, aread_local}
use libnanvix.Ikc.Mportal.Table.{Portal, Ports, accessible}
use libnanvix.Ikc.Mportal.Allow.{Allow}
use libnanvix.Ikc.Mportal.Arrival.{swapped, from_start}
use libnanvix.Ikc.Mportal.Filling.{free_buffers}
use libnanvix.Ikc.Mportal.Stored.{opens}
use libnanvix.Ikc.Mportal.Within.{awrite_local-aread_local}
use libnanvix.Ikc.Mportal.Transfers.{Node, with_resource, complete_read, complete_write}
use libnanvix.Ikc.Mportal.Aread.{read_portal, kportal_aread}
use libnanvix.Ikc.Mportal.Awrite.{write_portal, kportal_awrite}
use libnanvix.Ikc.Mportal.Accepted.{IsIdle, kportal_aread-runs, kportal_awrite-runs}

module _ (res : Resources) (portal_max port_nr buffer_max buffer_size max_size size_bits : ℕ) where
  open res use {Resource, is_used, is_busy}

  -- A write to portal `i` leaves portal `j` idle.
  complete_write-IsIdle :
      (t : Ports Resource) (i j : ℕ) (ret : Ret) (size : ℕ)
      → (i == j) ≡ false
      → IsIdle res portal_max port_nr buffer_max buffer_size true t j
      → IsIdle res portal_max port_nr buffer_max buffer_size true
          (complete_write res portal_max max_size size_bits i ret size
            (with_resource res portal_max max_size size_bits i (res.set_busy (t.resources i)) t))
          j
  unfolding complete_write accessible
  complete_write-IsIdle t i j ret size other idle = record {
    below = idle.below;
    used = ground (arith, other, idle.used);
    kind = ground (arith, other, idle.kind);
    free = ground (arith, other, idle.free);
  }

  complete_write-others :
      (t : Ports Resource) (i j : ℕ) (ret : Ret) (size : ℕ)
      → (i == j) ≡ false
      → (complete_write res portal_max max_size size_bits i ret size (
            with_resource res portal_max max_size size_bits i
              (res.set_busy (t.resources i))
              t)).portals
          j
        ≡ t.portals j
  unfolding complete_write
  complete_write-others t i j ret size other = ground (arith, other)

module _ (res : Resources)
    (portal_max port_nr buffer_max buffer_size max_size size_bits data_size fuel : ℕ)
    (node_is_valid node_is_local : ℕ → Bool) {W : Type 0} where
  open res use {Resource, is_used, is_busy}

  write_portal-near :
      (read_config : Option ℕ → W → Allow W) (kmailbox_write : Option ℕ → Message → W → Ret × W)
      (c : Config) (to i size : ℕ) (bytes : List ℕ) (t : Ports Resource) (s : Node Resource W)
      (ret : Ret) (q : Pool Resource)
      → (t.portals i).config ≡ c
      → node_is_local to ≡ true
      → awrite_local res buffer_max buffer_size fuel c bytes size s.pool ≡ some (ret, q)
      → write_portal res portal_max port_nr buffer_max buffer_size max_size size_bits node_is_valid
          node_is_local fuel data_size read_config kmailbox_write to i bytes size t s
        ≡ returned (ret, record s { pool = q })
  unfolding write_portal
  write_portal-near read_config kmailbox_write c to i size bytes t s ret q config here run =
      simp (write_portal, here, config, run)

  read_portal-near :
      (write_config : Option ℕ → Config → W → Ret × W) (kmailbox_read : Option ℕ → W → Read W)
      (as_config : List ℕ → Config) (c : Config) (from j size : ℕ) (t : Ports Resource)
      (s : Node Resource W) (ret : Ret) (r : Reading) (q : Pool Resource)
      → (t.portals j).config ≡ c
      → node_is_local from ≡ true
      → aread_local res buffer_max buffer_size fuel fuel c size (from_start size []) s.pool
        ≡ some (ret, r, q)
      → read_portal res portal_max port_nr buffer_max buffer_size max_size size_bits node_is_valid
          node_is_local fuel write_config kmailbox_read as_config from j size t s
        ≡ returned (ret, r.copied, record s { pool = q })
  unfolding read_portal
  read_portal-near write_config kmailbox_read as_config c from j size t s ret r q config here run =
      simp (read_portal, here, config, run)

  -- What kportal_awrite() writes to portal `i`, kportal_aread() reads from portal `j` of the same node, if
  -- `i` is an output portal and `j` is the input portal at its other end, which has allowed this: while
  -- neither is busy, the message of 1 to KPORTAL_MAX_SIZE bytes fits into the free buffers, and no message
  -- for portal `j` begins in the buffers in use, both calls return the number of bytes, the read leaves
  -- exactly these bytes in the reader's buffer, and the same portal buffers are in use as before. More
  -- fuel than bytes is enough.
  pub awrite-aread_within :
      (read_config : Option ℕ → W → Allow W) (kmailbox_write : Option ℕ → Message → W → Ret × W)
      (write_config : Option ℕ → Config → W → Ret × W) (kmailbox_read : Option ℕ → W → Read W)
      (as_config : List ℕ → Config) (c : Config) (from to i j : ℕ) (bytes : List ℕ)
      (t : Ports Resource) (s : Node Resource W)
      → 0 < buffer_size
      → 0 < length bytes
      → length bytes ≤ max_size
      → length bytes ≤ free_buffers res buffer_max buffer_size s.pool * buffer_size
      → length bytes < 2 ^ 64
      → length bytes < fuel
      → IsIdle res portal_max port_nr buffer_max buffer_size false t i
      → IsIdle res portal_max port_nr buffer_max buffer_size true t j
      → (i == j) ≡ false
      → (t.portals i).config ≡ c
      → (t.portals j).config ≡ swapped c
      → c.local ≡ some from
      → c.remote ≡ some to
      → node_is_local from ≡ true
      → node_is_local to ≡ true
      → ((k : ℕ) → k < buffer_max → opens res buffer_max buffer_size (swapped c) s.pool k ≡ false)
      → (t' : Ports Resource) × (s' : Node Resource W) × (u : Ports Resource) × (s'' : Node Resource
          W)
        × (kportal_awrite res portal_max port_nr buffer_max buffer_size max_size size_bits
              node_is_valid node_is_local fuel data_size read_config kmailbox_write
              (pos i)
              false
              bytes
              (length bytes)
              t
              s
            ≡ returned (ok (length bytes), t', s'))
        × (kportal_aread res portal_max port_nr buffer_max buffer_size max_size size_bits
              node_is_valid node_is_local fuel write_config kmailbox_read as_config
              (pos j)
              false
              (length bytes)
              t'
              s'
            ≡ returned (ok (length bytes), bytes, u, s''))
        × ((k : ℕ) → is_used (s''.pool.resources k) ≡ is_used (s.pool.resources k))
  awrite-aread_within read_config kmailbox_write write_config kmailbox_read as_config c from to i j
        bytes t s some_size some_bytes fits room small enough writer reader other config_i config_j
        local remote here there nothing =
      let size = length bytes in
      let (q, q', write, read, same) =
        awrite_local-aread_local res buffer_max buffer_size fuel fuel c bytes s.pool (omega arith)
          some_size some_bytes room small enough (ap is_some local) nothing in
      let s' : Node Resource W = record s { pool = q } in
      let s'' : Node Resource W = record s { pool = q' } in
      let busy =
        with_resource res portal_max max_size size_bits i (res.set_busy (t.resources i)) t in
      let t' = complete_write res portal_max max_size size_bits i (ok size) size busy in
      let t'' =
        with_resource res portal_max max_size size_bits j (res.set_busy (t'.resources j)) t' in
      let u = complete_read res portal_max max_size size_bits j (ok size) size t'' in
      let config_j' : (t'.portals j).config ≡ swapped c =
        ap (λ (x : Portal). x.config)
          (complete_write-others res portal_max port_nr buffer_max buffer_size max_size size_bits t
            i j (ok size) size other)
        ∙ config_j in
      (
        t',
        s',
        u,
        s'',
        kportal_awrite-runs res portal_max port_nr buffer_max buffer_size max_size size_bits
            node_is_valid node_is_local fuel data_size read_config kmailbox_write t i to bytes size
            s s' (ok size) writer some_bytes fits (ap (λ (x : Config). x.remote) config_i ∙ remote)
            (write_portal-near read_config kmailbox_write c to i size bytes busy s (ok size) q
              config_i there write),
        kportal_aread-runs res portal_max port_nr buffer_max buffer_size max_size size_bits
            node_is_valid node_is_local fuel write_config kmailbox_read as_config t' j from size s'
            s'' (ok size) bytes
            (complete_write-IsIdle res portal_max port_nr buffer_max buffer_size max_size size_bits
              t i j (ok size) size other reader)
            some_bytes fits (ap (λ (x : Config). x.remote) config_j' ∙ local)
            (read_portal-near write_config kmailbox_read as_config (swapped c) from j size t'' s'
              (ok size) _ q' config_j' here read),
        same,
      )
