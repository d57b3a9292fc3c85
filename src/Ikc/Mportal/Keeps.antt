-- ===== src/Ikc/Mportal/Keeps.antt =====
-- Reads of src/libnanvix/ikc/mportal.c that keep a message for another port, and reads of a message that was
-- kept.
use libnanvix.Shared.{
  ℕ, zero, suc, ◌<◌, ◌≡◌, refl, ap, Bool, true, false, not, List, [], ◌∷◌, none, some, ok, ltb,
  ◌==◌, is_some, if◌then◌else◌, arith,
}
use libnanvix.Ikc.Resource.{Resources}
use libnanvix.Ikc.Mportal.Pieces.{Config, Message, returned, receive}
use libnanvix.Ikc.Mportal.RoundTrip.{pop, header_of}
use libnanvix.Ikc.Mportal.Buffers.{Pool, same_id, buffer_search}
use libnanvix.Ikc.Mportal.Local.{Reading, buffer_read}
use libnanvix.Ikc.Mportal.Table.{Portal, Ports, search}
use libnanvix.Ikc.Mportal.Keeping.{keep_message}
use libnanvix.Ikc.Mportal.Arrival.{
  out, again, swapped, from_start, header_arrived, use_channel, adjusted, at_exit, turn, rounds,
}
use libnanvix.Ikc.Mportal.Reads.{allowing, arriving, read_nothing, rounds-reads}

-- The third of three tests.
third_test {ℓ} :
    {A : Type ℓ} (a b c : Bool) (x y z v : A)
    → a ≡ false
    → b ≡ false
    → c ≡ true
    → (if a then x else if b then y else if c then z else v) ≡ z
third_test a b c x y z v e f g = rw (e, f, g) refl

module _ (res : Resources) (portal_max port_nr buffer_max buffer_size fuel : ℕ)
    (node_is_local : ℕ → Bool) (as_config : List ℕ → Config) where
  open res use {Resource, is_used, is_busy}

  header_arrived-keeps :
      (t : Ports Resource) (portal : Portal) (c : Config) (n size : ℕ) (r : Reading)
      (p : Pool Resource) (w : List Message)
      → c.remote ≡ some n
      → node_is_local n ≡ true
      → is_some (search res portal_max port_nr t (swapped c) true) ≡ true
      → same_id portal.config.remote_port c.local_port ≡ false
      → header_arrived res buffer_max buffer_size portal_max port_nr fuel node_is_local allowing
          arriving as_config t portal size
          (header_of c)
          r
          p
          w
        ≡ keep_message res buffer_max buffer_size fuel arriving portal.mdata false c r p w
  unfolding header_arrived
  header_arrived-keeps t portal c n size r p w there here found other =
      let here_it_is : Bool = elim c.remote [ none ↦ false | some n ↦ node_is_local n ] in
      third_test (not here_it_is) _ (not (same_id portal.config.remote_port c.local_port)) _ _ _ _
        (rw (there, here) refl) (ap not found) (ap not other)

  -- A round that keeps the message on the channel.
  turn-keeps :
      (t : Ports Resource) (portal : Portal) (c : Config) (n size m : ℕ) (p q : Pool Resource)
      (channel : Resource) (w later : List Message)
      → c.remote ≡ some n
      → node_is_local n ≡ true
      → is_some (search res portal_max port_nr t (swapped c) true) ≡ true
      → same_id portal.config.remote_port c.local_port ≡ false
      → buffer_search res buffer_max buffer_size portal.config p ≡ none
      → is_busy channel ≡ false
      → 0 < size
      → keep_message res buffer_max buffer_size fuel arriving portal.mdata false c
          (from_start size [])
          p
          w
        ≡ returned (record {
          ret = ok m;
          valid = true;
          buffering = true;
          reading = from_start size [];
          pool = q;
          world = later;
        })
      → turn res buffer_max buffer_size portal_max port_nr fuel node_is_local allowing arriving
          as_config t portal size true
          (from_start size [])
          p
          channel
          (header_of c ∷ w)
        ≡ returned (again true (from_start size []) q later, res.set_notbusy (res.set_busy channel))
  unfolding turn use_channel at_exit
  turn-keeps t portal c n size m p q channel w later there here found other nobody free positive
        kept =
      let nothing =
        read_nothing res portal_max port_nr buffer_max buffer_size fuel portal.config
          (from_start size []) p refl nobody positive in
      rw
        (
          turn,
          nothing,
          nothing,
          free,
          use_channel,
          header_arrived-keeps t portal c n size (from_start size []) p w there here found other,
          kept,
          at_exit,
        )
        refl

  -- A read that keeps a message and then takes the next one.
  pub rounds-keeps :
      (k : ℕ) (t : Ports Resource) (portal : Portal) (c d : Config) (n size m : ℕ) (buffer : List ℕ)
      (p q : Pool Resource) (channel : Resource) (w w' later : List Message)
      → 1 < k
      → c.remote ≡ some n
      → d.remote ≡ some n
      → node_is_local n ≡ true
      → is_some (search res portal_max port_nr t (swapped c) true) ≡ true
      → is_some (search res portal_max port_nr t (swapped d) true) ≡ true
      → same_id portal.config.remote_port c.local_port ≡ false
      → portal.config.remote_port ≡ d.local_port
      → buffer_search res buffer_max buffer_size portal.config p ≡ none
      → buffer_search res buffer_max buffer_size portal.config q ≡ none
      → is_busy channel ≡ false
      → 0 < size
      → keep_message res buffer_max buffer_size fuel arriving portal.mdata false c
          (from_start size [])
          p
          w
        ≡ returned (record {
          ret = ok m;
          valid = true;
          buffering = true;
          reading = from_start size [];
          pool = q;
          world = header_of d ∷ w';
        })
      → receive pop fuel size w' ≡ returned (ok size, buffer, later)
      → rounds res buffer_max buffer_size portal_max port_nr fuel node_is_local allowing arriving
          as_config k t portal size true
          (from_start size [])
          p
          channel
          (header_of c ∷ w)
        ≡ returned (
          ok size,
          buffer,
          q,
          res.set_notbusy (res.set_busy (res.set_notbusy (res.set_busy channel))),
          later,
        )
  unfolding rounds
  rounds-keeps zero t portal c d n size m buffer p q channel w w' later some_fuel there there' here
        found found' other same nobody nobody' free positive kept received =
      absurd (omega arith)
  rounds-keeps (suc k) t portal c d n size m buffer p q channel w w' later some_fuel there there'
        here found found' other same nobody nobody' free positive kept received =
      rw
        (
          rounds,
          turn-keeps t portal c n size m p q channel w (header_of d ∷ w') there here found other
              nobody free positive kept,
        )
        (rounds-reads res portal_max port_nr buffer_max buffer_size fuel node_is_local as_config k t
          portal d n size buffer q (res.set_notbusy (res.set_busy channel)) w' later (omega arith)
          there' here found' same nobody' (res.busy-set_notbusy (res.set_busy channel)) positive
          received)

  turn-stored :
      (t : Ports Resource) (portal : Portal) (size : ℕ) (bytes : List ℕ) (p q : Pool Resource)
      (channel : Resource) (w : List Message)
      → 0 < size
      → buffer_read res buffer_max buffer_size fuel portal.config (from_start size []) p
        ≡ some (ok size, record { copied = bytes; remainder = 0; previous = none }, q)
      → turn res buffer_max buffer_size portal_max port_nr fuel node_is_local allowing arriving
          as_config t portal size true
          (from_start size [])
          p
          channel
          w
        ≡ returned
            (out (ok size) (record { copied = bytes; remainder = 0; previous = none }) q w, channel)
  unfolding turn adjusted at_exit
  turn-stored t portal size bytes p q channel w positive read =
      let some_size : (size == 0) ≡ false = ground arith in
      let enough : ltb size size ≡ false = ground arith in
      rw (turn, read, some_size, at_exit, enough) refl

  -- A read of a message in the buffers does not use the channel.
  pub rounds-stored :
      (k : ℕ) (t : Ports Resource) (portal : Portal) (size : ℕ) (bytes : List ℕ)
      (p q : Pool Resource) (channel : Resource) (w : List Message)
      → 0 < k
      → 0 < size
      → buffer_read res buffer_max buffer_size fuel portal.config (from_start size []) p
        ≡ some (ok size, record { copied = bytes; remainder = 0; previous = none }, q)
      → rounds res buffer_max buffer_size portal_max port_nr fuel node_is_local allowing arriving
          as_config k t portal size true
          (from_start size [])
          p
          channel
          w
        ≡ returned (ok size, bytes, q, channel, w)
  unfolding rounds
  rounds-stored zero t portal size bytes p q channel w some_fuel positive read =
      absurd (omega arith)
  rounds-stored (suc k) t portal size bytes p q channel w some_fuel positive read =
      rw (rounds, turn-stored t portal size bytes p q channel w positive read) refl
