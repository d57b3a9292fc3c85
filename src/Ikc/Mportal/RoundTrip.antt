-- ===== src/Ikc/Mportal/RoundTrip.antt =====
-- A transfer over a channel that keeps the order of its messages: what one side of a portal of
-- src/libnanvix/ikc/mportal.c sends, the other side receives.
use libnanvix.Shared.{
  ℕ, zero, suc, ◌+◌, ◌-◌, ◌*◌, ◌/◌, ◌≤◌, ◌<◌, ◌≡◌, ◌≢◌, refl, sym, ap, ◌∙◌, Bool, true, false, not,
  List, [], ◌∷◌, ◌++◌, length, Ret, ok, eagain, ◌==◌, if◌then◌else◌, Bool-cases, inl, inr, arith,
}
use mathlib.Core.List.{append-nil, append_assoc}
use native.Mathlib.Nat.{div-add-mod', le-mul_of_pos_right}
use libnanvix.Ikc.Mportal.Pieces.{
  Config, Message, config, data_of, take, drop, piece_size, send_pieces, send, Read, got, failed,
  returned, receive_pieces, finish, receive,
}

-- The channel: a write appends a message, and a read takes the first one.
abbrev pub push : Message → List Message → Ret × List Message
push message channel = (ok 1, channel ++ message ∷ [])

abbrev pub pop : List Message → Read (List Message)
pop [] = failed eagain []
pop (message ∷ channel) = got message channel

pub take-drop : (n : ℕ) (xs : List ℕ) → take n xs ++ drop n xs ≡ xs
take-drop zero xs = refl
take-drop (suc n) [] = refl
take-drop (suc n) (x ∷ xs) = ap (λ ys. x ∷ ys) (take-drop n xs)

pub take-take : (n : ℕ) (xs : List ℕ) → take n (take n xs) ≡ take n xs
take-take zero xs = refl
take-take (suc n) [] = refl
take-take (suc n) (x ∷ xs) = ap (λ ys. x ∷ ys) (take-take n xs)

pub length-drop : (n : ℕ) (xs : List ℕ) → length (drop n xs) ≡ length xs - n
length-drop zero xs = omega arith
length-drop (suc n) [] = omega arith
length-drop (suc n) (x ∷ xs) = omega (arith, length-drop n xs)

-- The messages of the `n` pieces from number `t` on.
unfoldable pub pieces_of : (data_size n t times remainder size sended : ℕ) → List ℕ → List Message
pieces_of data_size zero t times remainder size sended buffer = []
pieces_of data_size (suc n) t times remainder size sended buffer =
    let k = piece_size data_size times remainder t in
    record {
      header = false;
      eof = (sended + k) == size;
      size = k;
      payload = data_of (take k buffer);
    }
    ∷ pieces_of data_size n (suc t) times remainder size (sended + k) (drop k buffer)

pub send_pieces-pieces_of :
    (data_size n t times remainder size sended : ℕ) (buffer : List ℕ) (channel : List Message)
    (m : ℕ)
    → (l : ℕ) × (send_pieces data_size push n t times remainder size sended buffer (ok m) channel
        ≡ (ok l, channel ++ pieces_of data_size n t times remainder size sended buffer))
unfolding send_pieces pieces_of
send_pieces-pieces_of data_size zero t times remainder size sended buffer channel m =
    (m, ap (λ c. (ok m, c)) (sym (append-nil channel)))
send_pieces-pieces_of data_size (suc n) t times remainder size sended buffer channel m =
    let k = piece_size data_size times remainder t in
    let message : Message = record {
      header = false;
      eof = (sended + k) == size;
      size = k;
      payload = data_of (take k buffer);
    } in
    let (l, e) =
      send_pieces-pieces_of data_size n (suc t) times remainder size (sended + k) (drop k buffer)
        (channel ++ message ∷ []) 1 in
    (l, e ∙ ap (λ c. (ok l, c)) (append_assoc channel (message ∷ []) _))

pub length-pieces_of :
    (data_size n t times remainder size sended : ℕ) (buffer : List ℕ)
    → length (pieces_of data_size n t times remainder size sended buffer) ≡ n
unfolding pieces_of
length-pieces_of data_size zero t times remainder size sended buffer = refl
length-pieces_of data_size (suc n) t times remainder size sended buffer =
    ap suc (length-pieces_of data_size n (suc t) times remainder size _ _)

pub take_all : (n : ℕ) (xs : List ℕ) → length xs ≤ n → take n xs ≡ xs
take_all zero [] h = refl
take_all zero (x ∷ xs) h = absurd (omega arith)
take_all (suc n) [] h = refl
take_all (suc n) (x ∷ xs) h = ap (λ ys. x ∷ ys) (take_all n xs (omega arith))

-- The reader of the last piece, and of one before it.
receive-last :
    (k fuel size received : ℕ) (buffer copied : List ℕ) (later : List Message)
    → received + k ≤ size
    → receive_pieces pop
        (suc fuel)
        size
        false
        received
        copied
        (record { header = false; eof = true; size = k; payload = data_of (take k buffer) } ∷ later)
      ≡ returned (ok (received + k), received + k, copied ++ take k buffer, later)
unfolding receive_pieces
receive-last k fuel size received buffer copied later fits =
    ground (arith, fits, take-take k buffer)

receive-next :
    (k fuel size received : ℕ) (buffer copied : List ℕ) (later : List Message)
    → received + k ≤ size
    → receive_pieces pop (suc fuel) size false received copied (
        record { header = false; eof = false; size = k; payload = data_of (take k buffer) } ∷ later)
      ≡ receive_pieces pop fuel size false (received + k) (copied ++ take k buffer) later
unfolding receive_pieces
receive-next k fuel size received buffer copied later fits =
    ground (arith, fits, take-take k buffer)

abbrev pub piece : Bool → ℕ → List ℕ → Message
piece eof k buffer = record {
  header = false;
  eof = eof;
  size = k;
  payload = data_of (take k buffer);
}

pub pieces_of-piece :
    (data_size n t times remainder size sended k : ℕ) (buffer : List ℕ) (eof : Bool)
    → piece_size data_size times remainder t ≡ k
    → ((sended + k) == size) ≡ eof
    → pieces_of data_size (suc n) t times remainder size sended buffer
      ≡ piece eof k buffer
        ∷ pieces_of data_size n (suc t) times remainder size (sended + k) (drop k buffer)
unfolding pieces_of
pieces_of-piece data_size n t times remainder size sended k buffer eof e f = rw (e, f) refl

-- The last piece completes the transfer.
complete :
    (data_size n t times remainder size received fuel k : ℕ) (buffer copied : List ℕ)
    (later : List Message)
    → n ≡ 0
    → piece_size data_size times remainder t ≡ k
    → received + k ≡ size
    → length buffer ≤ k
    → receive_pieces pop
        (suc fuel)
        size
        false
        received
        copied
        (pieces_of data_size (suc n) t times remainder size received buffer ++ later)
      ≡ returned (ok size, size, copied ++ buffer, later)
unfolding pieces_of
complete data_size (suc n) t times remainder size received fuel k buffer copied later none kind
      whole covers =
    absurd (omega arith)
complete data_size zero t times remainder size received fuel k buffer copied later none kind whole
      covers =
    ap (λ ms. receive_pieces pop (suc fuel) size false received copied (ms ++ later))
      (pieces_of-piece data_size 0 t times remainder size received k buffer true kind
        (ground (arith, whole)))
    ∙ receive-last k fuel size received buffer copied later (omega arith)
    ∙ rw (whole, take_all k buffer covers) refl

pub some_left : (q r d remainder : ℕ) → (0 < remainder → r ≡ 1) → 0 < q * d + remainder → q + r ≢ 0
some_left zero r d zero one h e = absurd (omega arith)
some_left zero r d (suc m) one h e = omega (arith, one)
some_left (suc q) r d remainder one h e = omega arith

-- What is left of a transfer: `n` pieces, which are `q` full ones and `r` smaller ones.
receive-pieces_of :
    (data_size q n r t times remainder size received fuel : ℕ) (buffer copied : List ℕ)
    (later : List Message)
    → 0 < data_size
    → n ≡ q + r
    → (remainder ≡ 0 → r ≡ 0)
    → (0 < remainder → r ≡ 1)
    → t + q ≡ times
    → length buffer ≡ q * data_size + remainder
    → received + length buffer ≡ size
    → 0 < length buffer
    → n ≤ fuel
    → receive_pieces pop fuel size false received copied
        (pieces_of data_size n t times remainder size received buffer ++ later)
      ≡ returned (ok size, size, copied ++ buffer, later)
receive-pieces_of data_size q zero r t times remainder size received fuel buffer copied later
      positive parts none one last long whole left enough =
    absurd (some_left q r data_size remainder one (omega (arith, long, left)) (sym parts))
receive-pieces_of data_size q (suc n) r t times remainder size received zero buffer copied later
      positive parts none one last long whole left enough =
    absurd (omega arith)
receive-pieces_of data_size zero (suc n) r t times remainder size received (suc fuel) buffer copied
      later positive parts none one last long whole left enough =
    complete data_size n t times remainder size received fuel remainder buffer copied later
      (omega (arith, none, one)) (ground (arith, last)) (omega arith) (omega arith)
receive-pieces_of data_size (suc q) (suc n) r t times remainder size received (suc fuel) buffer
      copied later positive parts none one last long whole left enough =
    elim (Bool-cases ((received + data_size) == size)) [
      | inl ends ↦
          complete data_size n t times remainder size received fuel data_size buffer copied later
            (omega (arith, at_end ends, le-mul_of_pos_right q positive, none (at_end ends).1))
            (ground (arith, last)) (ground (arith, ends)) (omega (arith, at_end ends))
      | inr goes ↦
          ap (λ ms. receive_pieces pop (suc fuel) size false received copied (ms ++ later))
            (pieces_of-piece data_size n t times remainder size received data_size buffer false
              (ground (arith, last)) goes)
          ∙ receive-next data_size fuel size received buffer copied _ (omega arith)
          ∙ receive-pieces_of data_size q n r (suc t) times remainder size (received + data_size)
              fuel (drop data_size buffer) (copied ++ take data_size buffer) later positive
              (omega arith) none one (omega arith) (omega (arith, length-drop data_size buffer))
              (omega (arith, length-drop data_size buffer))
              (ground (arith, goes, length-drop data_size buffer)) (omega arith)
          ∙ ap (λ ys. returned (ok size, size, ys, later))
              (append_assoc copied (take data_size buffer) (drop data_size buffer)
                ∙ ap (λ ys. copied ++ ys) (take-drop data_size buffer))
    ]
  where
    at_end : ((received + data_size) == size) ≡ true → (q * data_size ≡ 0) × (remainder ≡ 0)
    at_end ends = ground (arith, ends)

pub at_most_one : (n : ℕ) → (if not (n == 0) then 1 else 0) ≤ n
at_most_one n = ground arith

abbrev pub header_of : Config → Message
header_of c = record { header = true; eof = false; size = 0; payload = config c }

-- A message that is written to a portal is read as it was, in pieces of at most
-- MPORTAL_MESSAGE_DATA_SIZE bytes: over a channel that keeps the order of its messages and on which
-- no write fails, a write of `size` bytes returns `size` and sends a header and some messages, and a
-- read of `size` bytes behind this header returns `size`, leaves exactly the bytes in the buffer and
-- takes exactly these messages off the channel. More than `size` reads are never needed.
pub send-receive :
    (data_size fuel : ℕ) (c : Config) (buffer : List ℕ) (channel later : List Message)
    → 0 < data_size
    → 0 < length buffer
    → length buffer < fuel
    → (messages : List Message) × (send data_size push c buffer (length buffer) channel
        ≡ (ok (length buffer), channel ++ header_of c ∷ messages))
      × (receive pop fuel (length buffer) (messages ++ later)
          ≡ returned (ok (length buffer), buffer, later))
unfolding send receive finish
send-receive data_size fuel c buffer channel later positive some_bytes enough =
    let size = length buffer in
    let times = size / data_size in
    let remainder = size - times * data_size in
    let r = (if not (remainder == 0) then 1 else 0) in
    let (l, sent) =
      send_pieces-pieces_of data_size (times + r) 0 times remainder size 0 buffer
        (channel ++ header_of c ∷ []) 1 in
    (
      pieces_of data_size (times + r) 0 times remainder size 0 buffer,
      ground (
        arith,
        sent,
        append_assoc channel (header_of c ∷ [])
            (pieces_of data_size (times + r) 0 times remainder size 0 buffer),
      ),
      ground (
        arith,
        receive-pieces_of data_size times (times + r) r 0 times remainder size 0 fuel buffer []
            later positive refl (λ e. ground (arith, e)) (λ h. ground (arith, h)) (omega arith)
            (omega (arith, div-add-mod' size data_size)) (omega arith) some_bytes
            (omega (
              arith,
              le-mul_of_pos_right times positive,
              div-add-mod' size data_size,
              at_most_one remainder,
            )),
      ),
    )
