-- ===== src/Ikc/Mportal/Misdelivered.antt =====
-- A read of src/libnanvix/ikc/mportal.c that takes the message of another portal.
use libnanvix.Shared.{
  ℕ, ◌≤◌, ◌<◌, ◌≡◌, refl, Bool, true, false, List, [], ◌∷◌, ◌++◌, none, some, ok, pos, length, ◌==◌,
  update, arith,
}
use libnanvix.Ikc.Resource.{Resources}
use libnanvix.Ikc.Mportal.Pieces.{Config, Message, returned, send}
use libnanvix.Ikc.Mportal.RoundTrip.{push, header_of, send-receive}
use libnanvix.Ikc.Mportal.Buffers.{buffer_search}
use libnanvix.Ikc.Mportal.Table.{Ports}
use libnanvix.Ikc.Mportal.Arrival.{swapped}
use libnanvix.Ikc.Mportal.Reads.{allowing, arriving, rounds-reads}
use libnanvix.Ikc.Mportal.Reordered.{read_portal-far, other-found}
use libnanvix.Ikc.Mportal.Transfers.{Node, with_resource, complete_read}
use libnanvix.Ikc.Mportal.Aread.{kportal_aread}
use libnanvix.Ikc.Mportal.Accepted.{IsIdle, kportal_aread-runs}

module _ (res : Resources)
    (portal_max port_nr buffer_max buffer_size max_size size_bits data_size fuel : ℕ)
    (node_is_valid node_is_local : ℕ → Bool) (as_config : List ℕ → Config) where
  open res use {Resource, is_busy}

  -- A read takes a message that is for another local port: when a node sends a message with the
  -- configuration `c`, which is for portal `j`, and portal `i` is not busy and has allowed the same port of
  -- that node, then a read of the message's size from portal `i`, whatever its own local port is,
  -- returns the message and takes it off the channel, if the channel is not busy and portal `i` finds
  -- nothing in the buffers. Portal `j` is in the table, not busy. Fuel above the number of bytes is
  -- enough.
  pub read-takes_other :
      (c : Config) (from here i j : ℕ) (bytes : List ℕ) (t : Ports Resource)
      (s : Node Resource (List Message)) (later : List Message)
      → 0 < data_size
      → 0 < length bytes
      → length bytes ≤ max_size
      → length bytes < fuel
      → IsIdle res portal_max port_nr buffer_max buffer_size true t i
      → IsIdle res portal_max port_nr buffer_max buffer_size true t j
      → (i == j) ≡ false
      → (t.portals j).config ≡ swapped c
      → (t.portals i).config.remote ≡ some from
      → (t.portals i).config.remote_port ≡ c.local_port
      → c.remote ≡ some here
      → node_is_local here ≡ true
      → node_is_local from ≡ false
      → node_is_valid from ≡ true
      → buffer_search res buffer_max buffer_size (t.portals i).config s.pool ≡ none
      → is_busy (s.read_channels from) ≡ false
      → (ms : List Message) × (t' : Ports Resource) × (s' : Node Resource (List Message)) × (send
            data_size push c bytes
            (length bytes)
            []
          ≡ (ok (length bytes), ms))
        × (kportal_aread res portal_max port_nr buffer_max buffer_size max_size size_bits
              node_is_valid node_is_local fuel allowing arriving as_config
              (pos i)
              false
              (length bytes)
              t
              (record s { world = ms ++ later })
            ≡ returned (ok (length bytes), bytes, t', s'))
        × (s'.world ≡ later)
        × (s'.pool ≡ s.pool)
  read-takes_other c from here i j bytes t s later some_data some_bytes fits enough idle_i idle_j
        other config_j remote remote_port local is_here far valid nobody free =
      let size = length bytes in
      let (ms, sent, received) =
        send-receive data_size fuel c bytes [] later some_data some_bytes enough in
      let busy =
        with_resource res portal_max max_size size_bits i (res.set_busy (t.resources i)) t in
      let channel = res.set_notbusy (res.set_busy (s.read_channels from)) in
      let s0 : Node Resource (List Message) = record s { world = header_of c ∷ ms ++ later } in
      let s' : Node Resource (List Message) = record s {
        read_channels = update s.read_channels from channel;
        world = later;
      } in
      (
        header_of c ∷ ms,
        complete_read res portal_max max_size size_bits i (ok size) size busy,
        s',
        sent,
        kportal_aread-runs res portal_max port_nr buffer_max buffer_size max_size size_bits
            node_is_valid node_is_local fuel allowing arriving as_config t i from size s0 s'
            (ok size) bytes idle_i some_bytes fits remote
            (read_portal-far res portal_max port_nr buffer_max buffer_size max_size size_bits fuel
              node_is_valid node_is_local as_config busy i from size s0 (ok size) bytes s.pool
              channel later far valid
              (rounds-reads res portal_max port_nr buffer_max buffer_size fuel node_is_local
                as_config fuel busy (t.portals i) c here size bytes s.pool (s.read_channels from)
                (ms ++ later) later (omega arith) local is_here
                (other-found res portal_max port_nr buffer_max buffer_size max_size size_bits t i j
                  c other idle_j config_j)
                remote_port nobody free some_bytes received)),
        refl,
        refl,
      )
