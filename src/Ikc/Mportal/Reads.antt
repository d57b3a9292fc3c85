-- ===== src/Ikc/Mportal/Reads.antt =====
-- How a read from another node of src/libnanvix/ikc/mportal.c takes a message that is on the channel.
use libnanvix.Shared.{
  ℕ, zero, suc, ◌≤◌, ◌<◌, ◌≡◌, refl, ap, ◌∙◌, Bool, true, false, not, List, [], ◌∷◌, ◌++◌, Option,
  none, some, Ret, ok, length, pos, is_some, if◌then◌else◌, update, find_from-none, arith,
  Option-cases, inl, inr,
}
use libnanvix.Ikc.Resource.{Resources}
use libnanvix.Ikc.Mportal.Pieces.{Config, Message, Read, returned, receive}
use libnanvix.Ikc.Mportal.RoundTrip.{push, pop, header_of}
use libnanvix.Ikc.Mportal.Buffers.{Pool, same_id, buffer_release, buffer_search}
use libnanvix.Ikc.Mportal.Local.{Reading, read_buffers, release_last, buffer_read}
use libnanvix.Ikc.Mportal.Table.{Portal, Ports, accessible, matches, search}
use libnanvix.Ikc.Mportal.Arrival.{
  out, swapped, from_start, take_message, header_arrived, use_channel, at_exit, turn, rounds,
}
use libnanvix.Ikc.Mportal.Transfers.{Node, with_resource, complete_read}
use libnanvix.Ikc.Mportal.Aread.{read_portal, kportal_aread}
use libnanvix.Ikc.Mportal.Accepted.{IsIdle, kportal_aread-runs}

-- The mailbox of the allows takes what is sent.
abbrev pub allowing : Option ℕ → Config → List Message → Ret × List Message
allowing id c w = (ok 1, w)

abbrev pub arriving : Option ℕ → List Message → Read (List Message)
arriving id w = pop w

abbrev pub sending : Option ℕ → Message → List Message → Ret × List Message
sending id message w = push message w

-- The last of three tests.
three_tests {ℓ} :
    {A : Type ℓ} (a b c : Bool) (x y z v : A)
    → a ≡ false
    → b ≡ false
    → c ≡ false
    → (if a then x else if b then y else if c then z else v) ≡ v
three_tests a b c x y z v e f g = rw (e, f, g) refl

module _ (res : Resources) (portal_max port_nr buffer_max buffer_size : ℕ) where
  open res use {Resource, is_used, is_readable, is_writable, is_busy}

  pub same_id_refl : (a : Option ℕ) → same_id a a ≡ true
  same_id_refl none = refl
  same_id_refl (some n) = ground arith

  -- Without a buffer for the portal, a read takes nothing from the buffers.
  pub read_nothing :
      (fuel : ℕ) (c : Config) (r : Reading) (p : Pool Resource)
      → r.previous ≡ none
      → buffer_search res buffer_max buffer_size c p ≡ none
      → 0 < r.remainder
      → buffer_read res buffer_max buffer_size fuel c r p ≡ some (ok 0, r, p)
  unfolding buffer_read read_buffers release_last buffer_release
  read_nothing zero c r p behind nobody left = ground (arith, behind, nobody, left)
  read_nothing (suc fuel) c r p behind nobody left = ground (arith, behind, nobody, left)

  -- The input portal itself is found.
  pub search-found :
      (t : Ports Resource) (c : Config) (i : ℕ)
      → i < portal_max
      → matches res portal_max port_nr t c true i ≡ true
      → is_some (search res portal_max port_nr t c true) ≡ true
  unfolding search
  search-found t c i below fits = elim (Option-cases (search res portal_max port_nr t c true)) [
    | inr (k, found) ↦ ap is_some found
    | inl nobody ↦
        absurd
          (ground (arith, fits, find_from-none portal_max 0 _ nobody i (omega arith) (omega arith)))
  ]

  module _ (fuel : ℕ) (node_is_local : ℕ → Bool) (as_config : List ℕ → Config) where
    take_message-reads :
        (mdata : Option ℕ) (size : ℕ) (buffer : List ℕ) (r : Reading) (p : Pool Resource)
        (w later : List Message)
        → receive pop fuel size w ≡ returned (ok size, buffer, later)
        → take_message res buffer_max buffer_size portal_max port_nr fuel node_is_local allowing
            arriving as_config mdata false size r p w
          ≡ returned (record {
            ret = ok size;
            valid = true;
            buffering = false;
            reading = record r { copied = r.copied ++ buffer };
            pool = p;
            world = later;
          })
    unfolding take_message receive
    take_message-reads mdata size buffer r p w later received = rw (take_message, received) refl

    -- A message that arrives for the port that reads.
    header_arrived-reads :
        (t : Ports Resource) (portal : Portal) (c : Config) (n size : ℕ) (buffer : List ℕ)
        (r : Reading) (p : Pool Resource) (w later : List Message)
        → c.remote ≡ some n
        → node_is_local n ≡ true
        → is_some (search res portal_max port_nr t (swapped c) true) ≡ true
        → portal.config.remote_port ≡ c.local_port
        → receive pop fuel size w ≡ returned (ok size, buffer, later)
        → header_arrived res buffer_max buffer_size portal_max port_nr fuel node_is_local allowing
            arriving as_config t portal size
            (header_of c)
            r
            p
            w
          ≡ returned (record {
            ret = ok size;
            valid = true;
            buffering = false;
            reading = record r { copied = r.copied ++ buffer };
            pool = p;
            world = later;
          })
    unfolding header_arrived
    header_arrived-reads t portal c n size buffer r p w later there here found same received =
        let here_it_is : Bool = elim c.remote [ none ↦ false | some n ↦ node_is_local n ] in
        three_tests (not here_it_is) _ (not (same_id portal.config.remote_port c.local_port)) _ _ _
          _ (rw (there, here) refl) (ap not found) (rw (same, same_id_refl c.local_port) refl)
        ∙ take_message-reads portal.mdata size buffer r p w later received

    -- A round that reads the message on the channel.
    pub turn-reads :
        (t : Ports Resource) (portal : Portal) (c : Config) (n size : ℕ) (buffer : List ℕ)
        (p : Pool Resource) (channel : Resource) (w later : List Message)
        → c.remote ≡ some n
        → node_is_local n ≡ true
        → is_some (search res portal_max port_nr t (swapped c) true) ≡ true
        → portal.config.remote_port ≡ c.local_port
        → buffer_search res buffer_max buffer_size portal.config p ≡ none
        → is_busy channel ≡ false
        → 0 < size
        → receive pop fuel size w ≡ returned (ok size, buffer, later)
        → turn res buffer_max buffer_size portal_max port_nr fuel node_is_local allowing arriving
            as_config t portal size true
            (from_start size [])
            p
            channel
            (header_of c ∷ w)
          ≡ returned (
            out (ok size) (record (from_start size []) { copied = buffer }) p later,
            res.set_notbusy (res.set_busy channel),
          )
    unfolding turn use_channel at_exit
    turn-reads t portal c n size buffer p channel w later there here found same nobody free positive
          received =
        let nothing = read_nothing fuel portal.config (from_start size []) p refl nobody positive in
        rw
          (
            turn,
            nothing,
            nothing,
            free,
            use_channel,
            header_arrived-reads t portal c n size buffer (from_start size []) p w later there here
                found same received,
            at_exit,
          )
          (ground arith)

    pub rounds-reads :
        (k : ℕ) (t : Ports Resource) (portal : Portal) (c : Config) (n size : ℕ) (buffer : List ℕ)
        (p : Pool Resource) (channel : Resource) (w later : List Message)
        → 0 < k
        → c.remote ≡ some n
        → node_is_local n ≡ true
        → is_some (search res portal_max port_nr t (swapped c) true) ≡ true
        → portal.config.remote_port ≡ c.local_port
        → buffer_search res buffer_max buffer_size portal.config p ≡ none
        → is_busy channel ≡ false
        → 0 < size
        → receive pop fuel size w ≡ returned (ok size, buffer, later)
        → rounds res buffer_max buffer_size portal_max port_nr fuel node_is_local allowing arriving
            as_config k t portal size true
            (from_start size [])
            p
            channel
            (header_of c ∷ w)
          ≡ returned (ok size, buffer, p, res.set_notbusy (res.set_busy channel), later)
    unfolding rounds
    rounds-reads zero t portal c n size buffer p channel w later some_fuel there here found same
          nobody free positive received =
        absurd (omega arith)
    rounds-reads (suc k) t portal c n size buffer p channel w later some_fuel there here found same
          nobody free positive received =
        rw
          (
            rounds,
            turn-reads t portal c n size buffer p channel w later there here found same nobody free
                positive received,
          )
          refl

    module _ (max_size size_bits : ℕ) (node_is_valid : ℕ → Bool) where
      -- The portal still stands in the table while it is busy.
      pub busy-found :
          (t : Ports Resource) (i : ℕ) (c : Config)
          → IsIdle res portal_max port_nr buffer_max buffer_size true t i
          → (t.portals i).config ≡ swapped c
          → is_some (
              search res portal_max port_nr
                (with_resource res portal_max max_size size_bits i (res.set_busy (t.resources i)) t)
                (swapped c)
                true)
            ≡ true
      unfolding matches accessible
      busy-found t i c idle config = search-found _ (swapped c) i idle.below (
          ground (
            arith,
            res.used-set_busy (t.resources i),
            res.readable-set_busy (t.resources i),
            idle.used,
            idle.kind,
            config,
            same_id_refl c.remote,
            same_id_refl c.remote_port,
          ))

      read_portal-reads :
          (t : Ports Resource) (i : ℕ) (c : Config) (n remote size : ℕ) (buffer : List ℕ)
          (s : Node Resource (List Message)) (w later : List Message)
          → 0 < fuel
          → c.remote ≡ some n
          → node_is_local n ≡ true
          → node_is_local remote ≡ false
          → node_is_valid remote ≡ true
          → is_some (search res portal_max port_nr t (swapped c) true) ≡ true
          → (t.portals i).config.remote_port ≡ c.local_port
          → buffer_search res buffer_max buffer_size (t.portals i).config s.pool ≡ none
          → is_busy (s.read_channels remote) ≡ false
          → 0 < size
          → receive pop fuel size w ≡ returned (ok size, buffer, later)
          → s.world ≡ header_of c ∷ w
          → read_portal res portal_max port_nr buffer_max buffer_size max_size size_bits
              node_is_valid node_is_local fuel allowing arriving as_config remote i size t s
            ≡ returned (
              ok size,
              buffer,
              record s {
                read_channels =
                    update s.read_channels remote
                      (res.set_notbusy (res.set_busy (s.read_channels remote)));
                world = later;
              },
            )
      unfolding read_portal
      read_portal-reads t i c n remote size buffer s w later some_fuel there here far valid found
            same nobody free positive received waiting =
          simp (
            read_portal,
            far,
            valid,
            waiting,
            rounds-reads fuel t (t.portals i) c n size buffer s.pool (s.read_channels remote) w
                later some_fuel there here found same nobody free positive received,
          )

      -- kportal_aread() of a message that is on the channel.
      pub kportal_aread-reads :
          (t : Ports Resource) (i : ℕ) (c : Config) (n remote : ℕ) (buffer : List ℕ)
          (s : Node Resource (List Message)) (w later : List Message)
          → 0 < fuel
          → IsIdle res portal_max port_nr buffer_max buffer_size true t i
          → (t.portals i).config ≡ swapped c
          → c.remote ≡ some n
          → node_is_local n ≡ true
          → c.local ≡ some remote
          → node_is_local remote ≡ false
          → node_is_valid remote ≡ true
          → buffer_search res buffer_max buffer_size (t.portals i).config s.pool ≡ none
          → is_busy (s.read_channels remote) ≡ false
          → 0 < length buffer
          → length buffer ≤ max_size
          → receive pop fuel (length buffer) w ≡ returned (ok (length buffer), buffer, later)
          → s.world ≡ header_of c ∷ w
          → (s' : Node Resource (List Message)) × (kportal_aread res portal_max port_nr buffer_max
                buffer_size max_size size_bits node_is_valid node_is_local fuel allowing arriving
                as_config
                (pos i)
                false
                (length buffer)
                t
                s
              ≡ returned (
                ok (length buffer),
                buffer,
                complete_read res portal_max max_size size_bits i
                    (ok (length buffer))
                    (length buffer)
                    (with_resource res portal_max max_size size_bits i
                      (res.set_busy (t.resources i))
                      t),
                s',
              ))
            × (s'.world ≡ later)
            × (s'.pool ≡ s.pool)
      kportal_aread-reads t i c n remote buffer s w later some_fuel idle config there here from far
            valid nobody free positive fits received waiting =
          let t' =
            with_resource res portal_max max_size size_bits i (res.set_busy (t.resources i)) t in
          let s' : Node Resource (List Message) = record s {
            read_channels =
                update s.read_channels remote
                  (res.set_notbusy (res.set_busy (s.read_channels remote)));
            world = later;
          } in
          (
            s',
            kportal_aread-runs res portal_max port_nr buffer_max buffer_size max_size size_bits
                node_is_valid node_is_local fuel allowing arriving as_config t i remote
                (length buffer) s s' (ok (length buffer)) buffer idle positive fits
                (ap (λ (x : Config). x.remote) config ∙ from)
                (read_portal-reads t' i c n remote (length buffer) buffer s w later some_fuel there
                  here far valid (busy-found t i c idle config)
                  (ap (λ (x : Config). x.remote_port) config) nobody free positive received
                  waiting),
            refl,
            refl,
          )
