-- ===== src/Ikc/Mportal/EndToEnd.antt =====
-- A message that kportal_awrite() of src/libnanvix/ikc/mportal.c writes on one node and kportal_aread() reads
-- on another.
use libnanvix.Shared.{
  ℕ, zero, suc, ◌≤◌, ◌<◌, ◌≡◌, refl, ap, ◌∙◌, Bool, true, false, List, ◌∷◌, ◌++◌, Option, none,
  some, ok, length, pos, update, done, arith,
}
use libnanvix.Ikc.Resource.{Resources}
use libnanvix.Ikc.Mportal.Pieces.{Config, Message, returned, send}
use libnanvix.Ikc.Mportal.RoundTrip.{push, header_of, send-receive}
use libnanvix.Ikc.Mportal.Buffers.{buffer_search}
use libnanvix.Ikc.Mportal.Table.{Ports}
use libnanvix.Ikc.Mportal.Allow.{Allow, wait_allow}
use libnanvix.Ikc.Mportal.Arrival.{swapped}
use libnanvix.Ikc.Mportal.Transfers.{Node, with_resource, complete_read}
use libnanvix.Ikc.Mportal.Aread.{kportal_aread}
use libnanvix.Ikc.Mportal.Awrite.{write_far, write_portal, kportal_awrite}
use libnanvix.Ikc.Mportal.Accepted.{IsIdle, kportal_awrite-runs}
use libnanvix.Ikc.Mportal.Reads.{allowing, arriving, sending, kportal_aread-reads}

module _ (res : Resources)
    (portal_max port_nr buffer_max buffer_size max_size size_bits data_size fuel : ℕ)
    (node_is_valid : ℕ → Bool) where
  open res use {Resource, is_busy}

  wait_allow-passes :
      (k : ℕ) (node_is_local : ℕ → Bool) (kmailbox_read : List Message → Allow (List Message))
      (remote : ℕ) (t : Ports Resource) (allowed : ℕ → Bool) (w : List Message)
      → 0 < k
      → allowed remote ≡ true
      → wait_allow res portal_max node_is_local kmailbox_read k remote t allowed w
        ≡ some (done (ok 0, update allowed remote false, w))
  unfolding wait_allow
  wait_allow-passes zero node_is_local kmailbox_read remote t allowed w some_fuel came =
      absurd (omega arith)
  wait_allow-passes (suc k) node_is_local kmailbox_read remote t allowed w some_fuel came =
      rw came refl

  -- A write to another node that has allowed it.
  write_portal-sends :
      (node_is_local : ℕ → Bool) (read_config : Option ℕ → List Message → Allow (List Message))
      (remote i size : ℕ) (buffer : List ℕ) (t : Ports Resource) (s : Node Resource (List Message))
      (w : List Message)
      → 0 < fuel
      → node_is_local remote ≡ false
      → s.allowed remote ≡ true
      → is_busy (s.write_channels remote) ≡ false
      → send data_size push (t.portals i).config buffer size s.world ≡ (ok size, w)
      → write_portal res portal_max port_nr buffer_max buffer_size max_size size_bits node_is_valid
          node_is_local fuel data_size read_config sending remote i buffer size t s
        ≡ returned (
          ok size,
          record s {
            write_channels =
                update s.write_channels remote
                  (res.set_notbusy (res.set_busy (s.write_channels remote)));
            allowed = update s.allowed remote false;
            world = w;
          },
        )
  unfolding write_portal write_far
  write_portal-sends node_is_local read_config remote i size buffer t s w some_fuel far allowed free
        sent =
      simp (
        write_portal,
        write_far,
        far,
        sent,
        free,
        wait_allow-passes fuel node_is_local (read_config (t.portals i).mallow) remote t s.allowed
            s.world some_fuel allowed,
      )

  -- What kportal_awrite() writes on one node, kportal_aread() reads on another: portal `i` of the first
  -- node is an output portal with the configuration `c`, and portal `j` of the second node is the input
  -- portal at the other end, which has allowed this; neither is busy, and no other thread uses the
  -- channels or has kept a message for portal `j` in a buffer. Then a write of 1 to KPORTAL_MAX_SIZE
  -- bytes returns their number and appends messages to the channel, and the read of as many bytes
  -- from these messages on returns the number too, leaves exactly these bytes in the buffer, takes
  -- exactly these messages off the channel, and portal `j` forgets its remote. More fuel than bytes is
  -- enough.
  pub awrite-aread :
      (here there : ℕ → Bool) (read_config : Option ℕ → List Message → Allow (List Message))
      (as_config : List ℕ → Config) (c : Config) (from to i j : ℕ) (buffer : List ℕ)
      (t u : Ports Resource) (s r : Node Resource (List Message)) (later : List Message)
      → 0 < data_size
      → 0 < length buffer
      → length buffer ≤ max_size
      → length buffer < fuel
      → IsIdle res portal_max port_nr buffer_max buffer_size false t i
      → IsIdle res portal_max port_nr buffer_max buffer_size true u j
      → (t.portals i).config ≡ c
      → (u.portals j).config ≡ swapped c
      → c.local ≡ some from
      → c.remote ≡ some to
      → here to ≡ false
      → there to ≡ true
      → there from ≡ false
      → node_is_valid from ≡ true
      → s.allowed to ≡ true
      → is_busy (s.write_channels to) ≡ false
      → is_busy (r.read_channels from) ≡ false
      → buffer_search res buffer_max buffer_size (u.portals j).config r.pool ≡ none
      → (messages : List Message) × (t' : Ports Resource) × (u' : Ports Resource) × (s' : Node
          Resource
          (List Message))
        × (r' : Node Resource (List Message)) × (kportal_awrite res portal_max port_nr buffer_max
              buffer_size max_size size_bits node_is_valid here fuel data_size read_config sending
              (pos i)
              false
              buffer
              (length buffer)
              t
              s
            ≡ returned (ok (length buffer), t', s'))
        × (s'.world ≡ s.world ++ messages)
        × (kportal_aread res portal_max port_nr buffer_max buffer_size max_size size_bits
              node_is_valid there fuel allowing arriving as_config
              (pos j)
              false
              (length buffer)
              u
              (record r { world = messages ++ later })
            ≡ returned (ok (length buffer), buffer, u', r'))
        × (r'.world ≡ later)
        × ((u'.portals j).config.remote ≡ none)
  unfolding complete_read
  awrite-aread here there read_config as_config c from to i j buffer t u s r later some_data
        positive fits enough writer reader config_i config_j local remote far local_to far_from
        valid allowed write_free read_free nobody =
      let (messages, sent, received) =
        send-receive data_size fuel c buffer s.world later some_data positive enough in
      let t' = with_resource res portal_max max_size size_bits i (res.set_busy (t.resources i)) t in
      let (r', read, taken, kept) =
        kportal_aread-reads res portal_max port_nr buffer_max buffer_size fuel there as_config
          max_size size_bits node_is_valid u j c to from buffer
          (record r { world = header_of c ∷ messages ++ later }) (messages ++ later) later
          (omega arith) reader config_j remote local_to local far_from valid nobody read_free
          positive fits received refl in
      (
        header_of c ∷ messages,
        _,
        _,
        _,
        r',
        kportal_awrite-runs res portal_max port_nr buffer_max buffer_size max_size size_bits
            node_is_valid here fuel data_size read_config sending t i to buffer (length buffer) s _
            (ok (length buffer)) writer positive fits
            (ap (λ (x : Config). x.remote) config_i ∙ remote)
            (write_portal-sends here read_config to i (length buffer) buffer t' s
              (s.world ++ header_of c ∷ messages) (omega arith) far allowed write_free
              (ap (λ x. send data_size push x buffer (length buffer) s.world) config_i ∙ sent)),
        refl,
        read,
        taken,
        ground arith,
      )
