-- ===== src/Ikc/Mportal/ShortRead.antt =====
-- What do_kportal_aread() of src/libnanvix/ikc/mportal.c does with a message that is longer than the
-- read.
use libnanvix.Shared.{
  ℕ, zero, suc, ◌+◌, ◌-◌, ◌*◌, ◌/◌, ◌<◌, ◌≡◌, true, false, not, List, [], ◌∷◌, ◌++◌, length, some,
  Ret, ok, fail, einval, ltb, ◌==◌, if◌then◌else◌, Bool-cases, inl, inr, arith,
}
use native.Mathlib.Nat.{div-eq_of_lt}
use libnanvix.Ikc.Mportal.Pieces.{
  Config, Message, bytes, asserted, out_of_fuel, take, send_pieces, send, Run, returned,
  message_drop, receive_pieces, finish, receive,
}
use libnanvix.Ikc.Mportal.RoundTrip.{push, pop, piece, header_of, send-receive}

-- A read and the loop that drops messages end at the same message.
receive_pieces-drops :
    (fuel size received : ℕ) (copied : List ℕ) (ms : List Message) (n r : ℕ) (copied' : List ℕ)
    (later : List Message)
    → receive_pieces pop fuel size false received copied ms ≡ returned (ok n, r, copied', later)
    → message_drop pop fuel ms ≡ some later
unfolding receive_pieces message_drop
receive_pieces-drops zero size received copied ms n r copied' later e = cc
receive_pieces-drops (suc fuel) size received copied [] n r copied' later e = cc
receive_pieces-drops (suc fuel) size received copied (m ∷ ms) n r copied' later e =
    elim (Bool-cases m.header) [
      | inl again ↦ ground (arith, again, e)
      | inr piece_of ↦ elim (Bool-cases (ltb size (received + m.size))) [
        | inl over ↦ ground (arith, piece_of, over, e)
        | inr fits ↦ elim (Bool-cases m.eof) [
          | inl ends ↦ ground (arith, piece_of, fits, ends, e)
          | inr goes ↦ ground (
            arith,
            goes,
            receive_pieces-drops fuel size (received + m.size)
                (copied ++ take m.size (bytes m.payload)) ms n r copied' later
                (ground (arith, piece_of, fits, goes, e)),
          )
        ]
      ]
    ]

finish-ok :
    (size : ℕ) (x : Run (Ret × ℕ × List ℕ × List Message)) (n : ℕ) (copied : List ℕ)
    (later : List Message)
    → finish pop size x ≡ returned (ok n, copied, later)
    → (m : ℕ) × (r : ℕ) × (x ≡ returned (ok m, r, copied, later))
unfolding finish
finish-ok size out_of_fuel n copied later e = cc
finish-ok size asserted n copied later e = cc
finish-ok size (returned (fail f, r, copied', w)) n copied later e = cc
finish-ok size (returned (ok m, r, copied', w)) n copied later e = (m, r, ground (arith, e))

pieces-piece :
    (data_size times remainder n : ℕ) (buffer : List ℕ) (channel : List Message)
    → times ≡ 0
    → remainder ≡ length buffer
    → n ≡ 1
    → send_pieces data_size push n 0 times remainder (length buffer) 0 buffer (ok 1) channel
      ≡ (ok 1, channel ++ piece true (length buffer) buffer ∷ [])
unfolding send_pieces
pieces-piece data_size times remainder n buffer channel e f g = rw (g, e, f) (ground arith)

-- A transfer of less than MPORTAL_MESSAGE_DATA_SIZE bytes is one piece.
one_piece :
    (data_size : ℕ) (c : Config) (buffer : List ℕ)
    → 0 < length buffer
    → length buffer < data_size
    → send data_size push c buffer (length buffer) []
      ≡ (ok (length buffer), header_of c ∷ piece true (length buffer) buffer ∷ [])
unfolding send send_pieces
one_piece data_size c buffer some_bytes small =
    let times = length buffer / data_size in
    let remainder = length buffer - times * data_size in
    let none : times ≡ 0 = div-eq_of_lt small in
    let all : remainder ≡ length buffer = omega (arith, product times data_size none) in
    ground (
      arith,
      pieces-piece data_size times remainder (times + (if not (remainder == 0) then 1 else 0))
          buffer (header_of c ∷ []) none all (ground (arith, none, all, some_bytes)),
    )
  where
    product : (q d : ℕ) → q ≡ 0 → q * d ≡ 0
    product q d e = rw e (omega arith)

-- A piece that does not fit makes the reader drop messages, although it was the last one.
over :
    (size fuel : ℕ) (buffer : List ℕ) (behind later : List Message)
    → size < length buffer
    → message_drop pop fuel behind ≡ some later
    → receive pop (suc fuel) size (piece true (length buffer) buffer ∷ behind)
      ≡ returned (fail einval, [], later)
unfolding receive receive_pieces finish
over size fuel buffer behind later short dropped = ground (arith, short, dropped)

-- A read that is too short for a transfer of one piece loses the transfer behind it too: the read
-- returns -EINVAL, and the messages that it drops are those of the next transfer, up to and with its
-- last piece. Here the messages of both transfers are what two writes have sent.
pub short_read-loses :
    (data_size fuel size : ℕ) (c c' : Config) (buffer buffer' : List ℕ) (later : List Message)
    → size < length buffer
    → length buffer < data_size
    → 0 < length buffer'
    → length buffer' < fuel
    → (messages : List Message) × (send data_size push c buffer (length buffer) []
        ≡ (ok (length buffer), header_of c ∷ piece true (length buffer) buffer ∷ []))
      × (send data_size push c' buffer' (length buffer') []
          ≡ (ok (length buffer'), header_of c' ∷ messages))
      × (receive pop
            (suc (suc fuel))
            size
            (piece true (length buffer) buffer ∷ header_of c' ∷ messages ++ later)
          ≡ returned (fail einval, [], later))
unfolding message_drop receive
short_read-loses data_size fuel size c c' buffer buffer' later short small some_bytes enough =
    let (messages, sent, read) =
      send-receive data_size fuel c' buffer' [] later (omega arith) some_bytes enough in
    let (m, r, pieces) =
      finish-ok (length buffer')
        (receive_pieces pop fuel (length buffer') false 0 [] (messages ++ later)) (length buffer')
        buffer' later read in
    let dropped =
      receive_pieces-drops fuel (length buffer') 0 [] (messages ++ later) m r buffer' later
        pieces in
    (
      messages,
      one_piece data_size c buffer (omega arith) small,
      sent,
      over size (suc fuel) buffer (header_of c' ∷ messages ++ later) later short
          (ground (arith, dropped)),
    )
