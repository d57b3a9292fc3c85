-- ===== src/Ikc/Mportal/Arrival.antt =====
-- do_kportal_aread() of src/libnanvix/ikc/mportal.c: reads from another node, with the messages for
-- other ports that they keep in buffers, for one thread. The mailboxes are parameters, over a world
-- `W`, and so is `as_config`, how data in the union of a message looks as a configuration. Ids of
-- mailboxes are `none` for -1. A buffer's latency and calls of kmailbox_ioctl() are not modelled.
use libnanvix.Shared.{
  ℕ, zero, suc, Bool, true, false, not, ◌&&◌, ◌||◌, List, [], ◌++◌, Option, none, some, Ret, ok,
  fail, Errno, is_some, ltb, ◌==◌, if◌then◌else◌,
}
use libnanvix.Ikc.Resource.{Resources}
use libnanvix.Ikc.Mportal.Pieces.{
  Config, Payload, config, data_of, Message, Run, returned, asserted, out_of_fuel, Read, got,
  failed, message_drop, receive_pieces, finish,
}
use libnanvix.Ikc.Mportal.Buffers.{Pool, same_id}
use libnanvix.Ikc.Mportal.Local.{Reading, buffer_read}
use libnanvix.Ikc.Mportal.Table.{Portal, Ports, search}
use libnanvix.Ikc.Mportal.Keeping.{Round, keep_message}

-- What follows: the function returns, or goes back to `again` with these variables.
pub data Turn (R W : Type 0) : Type 0 where
  out : Ret → Reading → Pool R → W → Turn R W
  again : Bool → Reading → Pool R → W → Turn R W

-- A configuration as the other side sees it.
abbrev pub swapped : Config → Config
swapped c = record {
  local = c.remote;
  local_port = c.remote_port;
  remote = c.local;
  remote_port = c.local_port;
}

-- The beginning of a read of `size` bytes, with what has gone to the reader's buffer.
abbrev pub from_start : ℕ → List ℕ → Reading
from_start size copied = record { copied = copied; remainder = size; previous = none }

-- KPORTAL_MAX is `portal_max` and KPORTAL_PORT_NR is `port_nr`; `fuel` bounds the messages and buffers
-- of a round.
module _ (res : Resources) (buffer_max buffer_size portal_max port_nr fuel : ℕ)
    (node_is_local : ℕ → Bool) {W : Type 0} (write_config : Option ℕ → Config → W → Ret × W)
    (kmailbox_read : Option ℕ → W → Read W) (as_config : List ℕ → Config) where
  open res use {Resource, is_busy}

  abbrev config_of : Payload → Config
  config_of (config c) = c
  config_of (data_of d) = as_config d

  -- A message for the port that reads, behind its header.
  unfoldable pub take_message :
      Option ℕ → (eof : Bool) → ℕ → Reading → Pool Resource → W → Run (Round Resource W)
  unfolding receive_pieces finish
  take_message mdata eof size r p w =
      elim (finish (kmailbox_read mdata) size
        (receive_pieces (kmailbox_read mdata) fuel size eof 0 [] w)) [
          | out_of_fuel ↦ out_of_fuel
          | asserted ↦ asserted
          | returned (ret, copied, w') ↦ returned (record {
            ret = ret;
            valid = true;
            buffering = false;
            reading = record r { copied = r.copied ++ copied };
            pool = p;
            world = w';
          })
        ]

  -- Behind a header. A KASSERT() in kportal_search() fails if the message is for another node.
  unfoldable pub header_arrived :
      Ports Resource → Portal → ℕ → Message → Reading → Pool Resource → W → Run (Round Resource W)
  unfolding search message_drop keep_message take_message
  header_arrived t portal size message r p w =
      let c = config_of message.payload in
      let here : Bool = elim c.remote [ none ↦ false | some n ↦ node_is_local n ] in
      let dropped : Run (Round Resource W) =
        elim (message_drop (kmailbox_read portal.mdata) fuel w) [
          | none ↦ out_of_fuel
          | some w' ↦ returned (record {
            ret = ok 1;
            valid = false;
            buffering = false;
            reading = r;
            pool = p;
            world = w';
          })
        ] in
      let kept =
        keep_message res buffer_max buffer_size fuel kmailbox_read portal.mdata message.eof c r p
          w in
      let taken = take_message portal.mdata message.eof size r p w in
      if not here
      then asserted
      else if not (is_some (search res portal_max port_nr t (swapped c) true))
      then dropped
      else if not (same_id portal.config.remote_port c.local_port)
      then kept
      else taken

  -- The use of the channel, from the allow on.
  unfoldable pub use_channel :
      Ports Resource → Portal → ℕ → Bool → Reading → Pool Resource → W → Run (Round Resource W)
  unfolding header_arrived
  use_channel t portal size valid r p w =
      let (answer, w') = write_config portal.mallow portal.config w in
      let left : Errno → W → Run (Round Resource W) = λ e w. returned (record {
        ret = fail e;
        valid = valid;
        buffering = false;
        reading = r;
        pool = p;
        world = w;
      }) in
      elim answer [
        | fail e ↦ left e w'
        | ok n ↦ elim (kmailbox_read portal.mdata w') [
          | failed e w'' ↦ left e w''
          | got message w'' ↦
              if not (message.header || not message.eof)
              then asserted
              else header_arrived t portal size message r p w''
        ]
      ]

  -- The return value of a read of buffers.
  unfoldable pub adjusted : ℕ → Ret → Reading → Ret
  adjusted size (fail e) r = fail e
  adjusted size (ok n) r = if r.remainder == 0 then ok size else ok n

  -- What stands behind the label `exit`, and the new values at `again`.
  unfoldable pub at_exit : ℕ → Round Resource W → Turn Resource W
  at_exit size s = elim s.ret [
    | fail e ↦ out (fail e) s.reading s.pool s.world
    | ok n ↦
        if s.buffering
        then again true (from_start size s.reading.copied) s.pool s.world
        else if not s.valid || ltb n size
        then again s.valid s.reading s.pool s.world
        else out (ok n) s.reading s.pool s.world
  ]

  -- From `again` to the next `again` or to the return, with the channel of the remote. Where it waits
  -- for a channel that is busy, it runs out of fuel.
  unfoldable pub turn :
      Ports Resource
      → Portal
      → ℕ
      → Bool
      → Reading
      → Pool Resource
      → Resource
      → W
      → Run (Turn Resource W × Resource)
  unfolding buffer_read adjusted use_channel at_exit
  turn t portal size valid r p channel w =
      let leave : Ret → Reading → Pool Resource → Run (Turn Resource W × Resource) = λ ret r p.
        returned (
          at_exit size (record {
            ret = adjusted size ret r;
            valid = valid;
            buffering = false;
            reading = r;
            pool = p;
            world = w;
          }),
          channel,
        ) in
      let held = res.set_busy channel in
      let uses : Reading → Pool Resource → Run (Turn Resource W × Resource) = λ r p.
        elim (use_channel t portal size valid r p w) [
          | out_of_fuel ↦ out_of_fuel
          | asserted ↦ asserted
          | returned s ↦ returned (at_exit size s, res.set_notbusy held)
        ] in
      let second : Reading → Pool Resource → Run (Turn Resource W × Resource) = λ r p.
        elim (buffer_read res buffer_max buffer_size fuel portal.config r p) [
          | none ↦ out_of_fuel
          | some (fail e, r', p') ↦ leave (fail e) r' p'
          | some (ok (suc n), r', p') ↦ leave (ok (suc n)) r' p'
          | some (ok zero, r', p') ↦ if is_busy channel then out_of_fuel else uses r' p'
        ] in
      elim (buffer_read res buffer_max buffer_size fuel portal.config r p) [
        | none ↦ out_of_fuel
        | some (fail e, r', p') ↦ leave (fail e) r' p'
        | some (ok n, r', p') ↦
            if not (n == 0) && (r'.remainder == 0)
            then leave (ok n) r' p'
            else if is_some r'.previous
            then returned (again valid r' p' w, channel)
            else second r' p'
      ]

  -- The rounds. The result has what is in the reader's buffer.
  unfoldable pub rounds :
      ℕ
      → Ports Resource
      → Portal
      → ℕ
      → Bool
      → Reading
      → Pool Resource
      → Resource
      → W
      → Run (Ret × List ℕ × Pool Resource × Resource × W)
  unfolding turn
  rounds zero t portal size valid r p channel w = out_of_fuel
  rounds (suc n) t portal size valid r p channel w = elim (turn t portal size valid r p channel w) [
    | out_of_fuel ↦ out_of_fuel
    | asserted ↦ asserted
    | returned (out ret r' p' w', channel') ↦ returned (ret, r'.copied, p', channel', w')
    | returned (again valid' r' p' w', channel') ↦ rounds n t portal size valid' r' p' channel' w'
  ]
