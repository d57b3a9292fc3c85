-- ===== src/Ikc/Mportal/Reordered.antt =====
-- Two messages from one node to two portals of src/libnanvix/ikc/mportal.c, read in the other order.
use libnanvix.Shared.{
  ℕ, ◌*◌, ◌^◌, ◌≤◌, ◌<◌, ◌≡◌, refl, ap, ◌∙◌, subst, Bool, true, false, List, [], ◌∷◌, ◌++◌, none,
  some, Ret, ok, pos, length, ◌==◌, ==_iff, Bool-cases, inl, inr, is_some, update, arith,
}
use libnanvix.Ikc.Resource.{Resources}
use libnanvix.Ikc.Mportal.Pieces.{Config, Message, returned, send}
use libnanvix.Ikc.Mportal.RoundTrip.{push, header_of, send-receive}
use libnanvix.Ikc.Mportal.Buffers.{Pool, same_id, buffer_search}
use libnanvix.Ikc.Mportal.Local.{buffer_read}
use libnanvix.Ikc.Mportal.Table.{Portal, Ports, accessible, matches, search}
use libnanvix.Ikc.Mportal.Arrival.{swapped, from_start, rounds}
use libnanvix.Ikc.Mportal.Filling.{free_buffers}
use libnanvix.Ikc.Mportal.Stored.{opens, Stored, Stored-others, Stored-read, search_rest}
use libnanvix.Ikc.Mportal.Within.{Stored-Freed}
use libnanvix.Ikc.Mportal.Tails.{send-Tail}
use libnanvix.Ikc.Mportal.Kept.{keep_message-Stored}
use libnanvix.Ikc.Mportal.Reads.{allowing, arriving, search-found, same_id_refl, busy-found}
use libnanvix.Ikc.Mportal.Keeps.{rounds-keeps, rounds-stored}
use libnanvix.Ikc.Mportal.Transfers.{Node, with_resource, complete_read}
use libnanvix.Ikc.Mportal.Aread.{read_portal, kportal_aread}
use libnanvix.Ikc.Mportal.Accepted.{IsIdle, kportal_aread-runs}

module _ (res : Resources) (portal_max port_nr buffer_max buffer_size max_size size_bits : ℕ) where
  open res use {Resource, is_used, is_busy}

  -- A read from portal `i` leaves portal `j` idle, and as it was.
  complete_read-IsIdle :
      (t : Ports Resource) (i j : ℕ) (ret : Ret) (size : ℕ)
      → (i == j) ≡ false
      → IsIdle res portal_max port_nr buffer_max buffer_size true t j
      → IsIdle res portal_max port_nr buffer_max buffer_size true
          (complete_read res portal_max max_size size_bits i ret size
            (with_resource res portal_max max_size size_bits i (res.set_busy (t.resources i)) t))
          j
  unfolding complete_read accessible
  complete_read-IsIdle t i j ret size other idle = record {
    below = idle.below;
    used = ground (arith, other, idle.used);
    kind = ground (arith, other, idle.kind);
    free = ground (arith, other, idle.free);
  }

  complete_read-others :
      (t : Ports Resource) (i j : ℕ) (ret : Ret) (size : ℕ)
      → (i == j) ≡ false
      → (complete_read res portal_max max_size size_bits i ret size (
            with_resource res portal_max max_size size_bits i
              (res.set_busy (t.resources i))
              t)).portals
          j
        ≡ t.portals j
  unfolding complete_read
  complete_read-others t i j ret size other = ground (arith, other)

  -- While portal `i` is busy, portal `j` is found.
  pub other-found :
      (t : Ports Resource) (i j : ℕ) (c : Config)
      → (i == j) ≡ false
      → IsIdle res portal_max port_nr buffer_max buffer_size true t j
      → (t.portals j).config ≡ swapped c
      → is_some (
          search res portal_max port_nr
            (with_resource res portal_max max_size size_bits i (res.set_busy (t.resources i)) t)
            (swapped c)
            true)
        ≡ true
  unfolding matches accessible
  other-found t i j c other idle config =
      search-found res portal_max port_nr buffer_max buffer_size _ (swapped c) j idle.below (
        ground (
          arith,
          other,
          idle.used,
          idle.kind,
          config,
          same_id_refl res portal_max port_nr buffer_max buffer_size c.remote,
          same_id_refl res portal_max port_nr buffer_max buffer_size c.remote_port,
        ))

  -- A message that is kept does not begin a message for the portal that reads.
  Stored-apart :
      (c d : Config) (b k : ℕ) (p q : Pool Resource) (is bytes : List ℕ)
      → Stored res buffer_max buffer_size c b p q is bytes
      → same_id d.local_port c.local_port ≡ false
      → opens res buffer_max buffer_size (swapped d) p k ≡ false
      → opens res buffer_max buffer_size (swapped d) q k ≡ false
  unfolding opens
  Stored-apart c d b k p q is bytes stored other before = elim (Bool-cases (b == k)) [
    | inr apart ↦
        Stored-others res buffer_max buffer_size c b k p q is bytes (swapped d) stored
          (ground (arith, apart)) before
    | inl here ↦
        let config : (q.buffers b).config ≡ c = stored.grown.config ∙ ground arith in
        subst (λ a. opens res buffer_max buffer_size (swapped d) q a ≡ false) ((==_iff b k).0 here)
          (ground (arith, other, config))
  ]

  pub read_portal-far :
      (fuel : ℕ) (node_is_valid node_is_local : ℕ → Bool) (as_config : List ℕ → Config)
      (t : Ports Resource) (i remote size : ℕ) (s : Node Resource (List Message)) (ret : Ret)
      (copied : List ℕ) (q : Pool Resource) (channel : Resource) (w : List Message)
      → node_is_local remote ≡ false
      → node_is_valid remote ≡ true
      → rounds res buffer_max buffer_size portal_max port_nr fuel node_is_local allowing arriving
          as_config fuel t
          (t.portals i)
          size
          true
          (from_start size [])
          s.pool
          (s.read_channels remote)
          s.world
        ≡ returned (ret, copied, q, channel, w)
      → read_portal res portal_max port_nr buffer_max buffer_size max_size size_bits node_is_valid
          node_is_local fuel allowing arriving as_config remote i size t s
        ≡ returned (
          ret,
          copied,
          record s { pool = q; read_channels = update s.read_channels remote channel; world = w },
        )
  unfolding read_portal
  read_portal-far fuel node_is_valid node_is_local as_config t i remote size s ret copied q channel
        w far valid run =
      simp (read_portal, far, valid, run)

  module _ (data_size fuel : ℕ) (node_is_valid node_is_local : ℕ → Bool)
      (as_config : List ℕ → Config) where
    -- A message that arrives while another portal reads is not lost: when one node sends a message with
    -- the configuration `c` and then one with the configuration `d`, from another port, to portals `j` and
    -- `i` of a node, which have allowed them and are not busy, then a read from portal `i` comes first and
    -- returns the second message, and a read from portal `j` after that returns the first one. Both
    -- messages have 1 to KPORTAL_MAX_SIZE bytes, the first one fits into the free buffers, no other
    -- message for these portals begins in the buffers, and no other thread uses the channel. Between the
    -- reads the channel is empty up to what came later, and in the end the same buffers are in use as at
    -- first. Fuel above the number of bytes of each message is enough.
    pub reads_reordered :
        (c d : Config) (from here i j : ℕ) (first second : List ℕ) (t : Ports Resource)
        (s : Node Resource (List Message)) (later : List Message)
        → 0 < data_size
        → data_size ≤ buffer_size
        → 0 < length first
        → length first ≤ max_size
        → length first < fuel
        → length first < 2 ^ 64
        → length first ≤ free_buffers res buffer_max buffer_size s.pool * buffer_size
        → 0 < length second
        → length second ≤ max_size
        → length second < fuel
        → IsIdle res portal_max port_nr buffer_max buffer_size true t i
        → IsIdle res portal_max port_nr buffer_max buffer_size true t j
        → (i == j) ≡ false
        → (t.portals i).config ≡ swapped d
        → (t.portals j).config ≡ swapped c
        → c.local ≡ some from
        → d.local ≡ some from
        → c.remote ≡ some here
        → d.remote ≡ some here
        → same_id d.local_port c.local_port ≡ false
        → node_is_local here ≡ true
        → node_is_local from ≡ false
        → node_is_valid from ≡ true
        → is_busy (s.read_channels from) ≡ false
        → ((k : ℕ) → k < buffer_max → opens res buffer_max buffer_size (swapped c) s.pool k ≡ false)
        → ((k : ℕ) → k < buffer_max → opens res buffer_max buffer_size (swapped d) s.pool k ≡ false)
        → (ms ms' : List Message) × (t1 : Ports Resource) × (s1 : Node Resource (List Message))
          × (t2 : Ports Resource) × (s2 : Node Resource (List Message)) × (send data_size push c
                first
                (length first)
                []
              ≡ (ok (length first), ms))
          × (send data_size push d second (length second) [] ≡ (ok (length second), ms'))
          × (kportal_aread res portal_max port_nr buffer_max buffer_size max_size size_bits
                node_is_valid node_is_local fuel allowing arriving as_config
                (pos i)
                false
                (length second)
                t
                (record s { world = ms ++ (ms' ++ later) })
              ≡ returned (ok (length second), second, t1, s1))
          × (s1.world ≡ later)
          × (kportal_aread res portal_max port_nr buffer_max buffer_size max_size size_bits
                node_is_valid node_is_local fuel allowing arriving as_config
                (pos j)
                false
                (length first)
                t1
                s1
              ≡ returned (ok (length first), first, t2, s2))
          × (s2.world ≡ later)
          × ((k : ℕ) → is_used (s2.pool.resources k) ≡ is_used (s.pool.resources k))
    unfolding buffer_search
    reads_reordered c d from here i j first second t s later some_data data_fits some_first
          fits_first enough_first small room some_second fits_second enough_second idle_i idle_j
          other config_i config_j local_c local_d remote_c remote_d apart is_here far valid free
          nothing_c nothing_d =
        let p = s.pool in
        let (ms, sent_c, tail, few) = send-Tail data_size c first [] some_data some_first in
        let (ms', sent_d, received) =
          send-receive data_size fuel d second [] later some_data some_second enough_second in
        let (m, b, q, is, kept, stored) =
          keep_message-Stored res buffer_max buffer_size fuel (t.portals i).mdata data_size c ms
            (header_of d ∷ ms' ++ later) first (from_start (length second) []) p tail data_fits
            some_first room small (omega (arith, few)) in
        let (q', read, freed) =
          Stored-read res buffer_max buffer_size fuel c b p q is first [] stored
            (ap is_some local_c) nothing_c enough_first in
        let search_i : (x : Pool Resource)
            → ((k : ℕ) → k < buffer_max → opens res buffer_max buffer_size (swapped d) x k ≡ false)
            → buffer_search res buffer_max buffer_size (t.portals i).config x ≡ none =
          λ x nothing.
            ap (λ (z : Config). buffer_search res buffer_max buffer_size z x) config_i
            ∙ search_rest res buffer_max buffer_size (swapped d) buffer_max 0 none x
                (ap is_some local_d) (λ k le lt. nothing k (omega arith)) in
        let busy_i =
          with_resource res portal_max max_size size_bits i (res.set_busy (t.resources i)) t in
        let channel = s.read_channels from in
        let channel' = res.set_notbusy (res.set_busy (res.set_notbusy (res.set_busy channel))) in
        let s0 : Node Resource (List Message) = record s {
          world = header_of c ∷ ms ++ (header_of d ∷ ms' ++ later);
        } in
        let s1 : Node Resource (List Message) = record s {
          pool = q;
          read_channels = update s.read_channels from channel';
          world = later;
        } in
        let t1 =
          complete_read res portal_max max_size size_bits i (ok (length second)) (length second)
            busy_i in
        let busy_j =
          with_resource res portal_max max_size size_bits j (res.set_busy (t1.resources j)) t1 in
        let config_j' =
          ap (λ (x : Portal). x.config)
            (complete_read-others t i j (ok (length second)) (length second) other)
          ∙ config_j in
        let s2 : Node Resource (List Message) = record s1 {
          pool = q';
          read_channels = update s1.read_channels from (s1.read_channels from);
          world = later;
        } in
        (
          header_of c ∷ ms,
          header_of d ∷ ms',
          t1,
          s1,
          complete_read res portal_max max_size size_bits j (ok (length first)) (length first)
              busy_j,
          s2,
          sent_c,
          sent_d,
          kportal_aread-runs res portal_max port_nr buffer_max buffer_size max_size size_bits
              node_is_valid node_is_local fuel allowing arriving as_config t i from (length second)
              s0 s1 (ok (length second)) second idle_i some_second fits_second
              (ap (λ (x : Config). x.remote) config_i ∙ local_d)
              (read_portal-far fuel node_is_valid node_is_local as_config busy_i i from
                (length second) s0 (ok (length second)) second q channel' later far valid
                (rounds-keeps res portal_max port_nr buffer_max buffer_size fuel node_is_local
                  as_config fuel busy_i (t.portals i) c d here (length second) m second p q channel
                  (ms ++ (header_of d ∷ ms' ++ later)) (ms' ++ later) later (omega arith) remote_c
                  remote_d is_here (other-found t i j c other idle_j config_j)
                  (busy-found res portal_max port_nr buffer_max buffer_size fuel node_is_local
                    as_config max_size size_bits node_is_valid t i d idle_i config_i)
                  (ap (λ z. same_id z c.local_port) (ap (λ (x : Config). x.remote_port) config_i)
                    ∙ apart)
                  (ap (λ (x : Config). x.remote_port) config_i) (search_i p nothing_d)
                  (search_i q
                    (λ k lt. Stored-apart c d b k p q is first stored apart (nothing_d k lt)))
                  free some_second kept received)),
          refl,
          kportal_aread-runs res portal_max port_nr buffer_max buffer_size max_size size_bits
              node_is_valid node_is_local fuel allowing arriving as_config t1 j from (length first)
              s1 s2 (ok (length first)) first
              (complete_read-IsIdle t i j (ok (length second)) (length second) other idle_j)
              some_first fits_first (ap (λ (x : Config). x.remote) config_j' ∙ local_c)
              (read_portal-far fuel node_is_valid node_is_local as_config busy_j j from
                (length first) s1 (ok (length first)) first q' (s1.read_channels from) later far
                valid
                (rounds-stored res portal_max port_nr buffer_max buffer_size fuel node_is_local
                  as_config fuel busy_j (busy_j.portals j) (length first) first q q'
                  (s1.read_channels from) later (omega arith) some_first
                  (ap
                      (λ z.
                        buffer_read res buffer_max buffer_size fuel z (from_start (length first) [])
                          q)
                      config_j'
                    ∙ read))),
          refl,
          Stored-Freed res buffer_max buffer_size c b p q q' is first stored freed,
        )
