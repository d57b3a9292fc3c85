-- ===== src/Ikc/Mportal/Pieces.antt =====
-- How do_kportal_awrite() and do_kportal_aread() of src/libnanvix/ikc/mportal.c cut a transfer into
-- messages and put it together again, for one thread and a message for the port that reads. The
-- mailbox calls are parameters, over a world `W`; data is a list of bytes.
use libnanvix.Shared.{
  ℕ, zero, suc, ◌+◌, ◌-◌, ◌*◌, ◌/◌, Bool, true, false, not, List, [], ◌∷◌, ◌++◌, Option, none, some,
  Ret, ok, fail, Errno, einval, ltb, ◌==◌, if◌then◌else◌,
}

-- A struct mportal_config; -1 is `none`.
pub record Config : Type 0 where
  pub local : Option ℕ
  pub local_port : Option ℕ
  pub remote : Option ℕ
  pub remote_port : Option ℕ

-- The union of a struct mportal_message.
pub data Payload : Type 0 where
  config : Config → Payload
  data_of : List ℕ → Payload

-- A struct mportal_message. `size` is a char in C, which holds it if MPORTAL_MESSAGE_DATA_SIZE is below
-- 128; in a header it is not set, and is 0 here.
pub record Message : Type 0 where
  pub header : Bool
  pub eof : Bool
  pub size : ℕ
  pub payload : Payload

abbrev pub bytes : Payload → List ℕ
bytes (config c) = []
bytes (data_of d) = d

-- What kmemcpy() takes of a buffer, and what is behind it.
abbrev pub take : ℕ → List ℕ → List ℕ
take zero xs = []
take (suc n) [] = []
take (suc n) (x ∷ xs) = x ∷ take n xs

abbrev pub drop : ℕ → List ℕ → List ℕ
drop zero xs = xs
drop (suc n) [] = []
drop (suc n) (x ∷ xs) = drop n xs

-- MPORTAL_MESSAGE_DATA_SIZE is `data_size`.
module _ (data_size : ℕ) where
  -- The size of piece number `t`.
  abbrev pub piece_size : (times remainder t : ℕ) → ℕ
  piece_size times remainder t = if not (t == times) then data_size else remainder

  module _ {W : Type 0} (kmailbox_write : Message → W → Ret × W) where
    -- The loop over the pieces, for the `n` pieces from number `t` on: the return value of the last
    -- write, or of the one that failed.
    unfoldable pub send_pieces : (n t times remainder size sended : ℕ) → List ℕ → Ret → W → Ret × W
    send_pieces zero t times remainder size sended buffer ret w = (ret, w)
    send_pieces (suc n) t times remainder size sended buffer ret w =
        let k = piece_size times remainder t in
        let message : Message = record {
          header = false;
          eof = (sended + k) == size;
          size = k;
          payload = data_of (take k buffer);
        } in
        let (answer, w') = kmailbox_write message w in
        let rest =
          send_pieces n (suc t) times remainder size (sended + k) (drop k buffer) answer w' in
        elim answer [ fail e ↦ (fail e, w') | ok m ↦ rest ]

    -- do_kportal_awrite() once the remote has allowed it and the channel is free.
    unfoldable pub send : Config → List ℕ → ℕ → W → Ret × W
    unfolding send_pieces
    send c buffer size w =
        let times = size / data_size in
        let remainder = size - times * data_size in
        let pieces = times + (if not (remainder == 0) then 1 else 0) in
        let header : Message = record {
          header = true;
          eof = false;
          size = 0;
          payload = config c;
        } in
        let (answer, w') = kmailbox_write header w in
        elim answer [
          | fail e ↦ (fail e, w')
          | ok m ↦
              let (ret, w'') = send_pieces pieces 0 times remainder size 0 buffer (ok m) w' in
              elim ret [ fail e ↦ (fail e, w'') | ok l ↦ (ok size, w'') ]
        ]

-- What a loop on fuel gives: `asserted` is a KASSERT() that failed.
pub data Run (A : Type 0) : Type 0 where
  returned : A → Run A
  asserted : Run A
  out_of_fuel : Run A

-- The reader. `kmailbox_read` gives a message, or the error of a read that failed.
pub data Read (W : Type 0) : Type 0 where
  got : Message → W → Read W
  failed : Errno → W → Read W

module _ {W : Type 0} (kmailbox_read : W → Read W) where
  -- do_aread_message_drop(): the loop discards messages up to the next one with `eof`. The fuel bounds
  -- the messages; `none` means that it ran out.
  unfoldable pub message_drop : ℕ → W → Option W
  message_drop zero w = none
  message_drop (suc fuel) w = elim (kmailbox_read w) [
    | failed e w' ↦ some w'
    | got message w' ↦ let rest = message_drop fuel w' in if message.eof then some w' else rest
  ]

  -- The loop of do_kportal_aread() that reads the pieces behind a header without buffering, with the
  -- `eof` of the message before: `received` bytes stand in the buffer, which holds `copied`.
  unfoldable pub receive_pieces :
      ℕ → (size : ℕ) → (eof : Bool) → (received : ℕ) → List ℕ → W → Run (Ret × ℕ × List ℕ × W)
  unfolding message_drop
  receive_pieces fuel size true received copied w = returned (ok received, received, copied, w)
  receive_pieces zero size false received copied w = out_of_fuel
  receive_pieces (suc fuel) size false received copied w = elim (kmailbox_read w) [
    | failed e w' ↦ returned (fail e, received, copied, w')
    | got message w' ↦
        let rest =
          receive_pieces fuel size message.eof (received + message.size)
            (copied ++ take message.size (bytes message.payload)) w' in
        let dropped = message_drop fuel w' in
        if message.header
        then asserted
        else if ltb size (received + message.size)
        then (elim dropped [
          | none ↦ out_of_fuel
          | some w'' ↦ returned (fail einval, received, copied, w'')
        ])
        else rest
  ]

  -- The return value behind the loop.
  unfoldable pub finish : ℕ → Run (Ret × ℕ × List ℕ × W) → Run (Ret × List ℕ × W)
  finish size out_of_fuel = out_of_fuel
  finish size asserted = asserted
  finish size (returned (fail e, received, copied, w)) = returned (fail e, copied, w)
  finish size (returned (ok n, received, copied, w)) =
      returned (if received == size then ok size else fail einval, copied, w)

  -- A read of a transfer whose header has arrived: its return value and what is in the buffer.
  unfoldable pub receive : ℕ → ℕ → W → Run (Ret × List ℕ × W)
  unfolding receive_pieces finish
  receive fuel size w = finish size (receive_pieces fuel size false 0 [] w)
