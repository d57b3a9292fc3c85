-- ===== src/Ikc/Mportal/Tails.antt =====
-- The messages that do_kportal_awrite() of src/libnanvix/ikc/mportal.c sends behind a header.
use libnanvix.Shared.{
  ℕ, zero, suc, ◌+◌, ◌-◌, ◌*◌, ◌/◌, ◌≤◌, ◌<◌, ◌≡◌, refl, sym, subst, Bool, true, false, not, List,
  [], ◌∷◌, ◌++◌, ok, length, ◌==◌, if◌then◌else◌, Bool-cases, inl, inr, arith,
}
use mathlib.Core.List.{append_assoc}
use native.Mathlib.Nat.{div-add-mod', mod-lt, le-mul_of_pos_right}
use libnanvix.Ikc.Mportal.Pieces.{Config, Message, data_of, take, drop, piece_size, send}
use libnanvix.Ikc.Mportal.RoundTrip.{
  push, header_of, piece, pieces_of, pieces_of-piece, send_pieces-pieces_of, length-pieces_of,
  some_left, at_most_one, take-drop, length-drop,
}
use libnanvix.Ikc.Mportal.Growing.{length-take}

abbrev pub piece_of : Bool → List ℕ → Message
piece_of eof x = record { header = false; eof = eof; size = length x; payload = data_of x }

-- The messages that follow one with this `eof`, and their bytes: pieces of 1 to `limit` bytes up to the
-- end of the transfer.
pub data Tail (limit : ℕ) : Bool → List Message → List ℕ → Type 0 where
  whole : Tail limit true [] []
  next :
      {eof : Bool} {ms : List Message} {bytes : List ℕ} (x : List ℕ)
      → 0 < length x
      → length x ≤ limit
      → Tail limit eof ms bytes
      → Tail limit false (piece_of eof x ∷ ms) (x ++ bytes)

-- One piece in front.
Tail-piece :
    (limit k : ℕ) (eof : Bool) (buffer : List ℕ) (ms : List Message)
    → 0 < k
    → k ≤ limit
    → k ≤ length buffer
    → Tail limit eof ms (drop k buffer)
    → Tail limit false (piece eof k buffer ∷ ms) buffer
Tail-piece limit k eof buffer ms some_bytes fits covered tail =
    let long = length-take k buffer covered in
    subst
      (λ m.
        Tail limit false
          (record { header = false; eof = eof; size = m; payload = data_of (take k buffer) } ∷ ms)
          buffer)
      long
      (subst (λ xs. Tail limit false (piece_of eof (take k buffer) ∷ ms) xs) (take-drop k buffer)
        (next (take k buffer) (omega (arith, long)) (omega (arith, long)) tail))

Tail-nothing : (limit : ℕ) (bytes : List ℕ) → length bytes ≡ 0 → Tail limit true [] bytes
Tail-nothing limit [] e = whole
Tail-nothing limit (x ∷ xs) e = absurd (omega (arith, e))

-- The last piece.
Tail-last :
    (data_size n t times remainder size sended k : ℕ) (buffer : List ℕ)
    → n ≡ 0
    → piece_size data_size times remainder t ≡ k
    → sended + k ≡ size
    → length buffer ≡ k
    → 0 < k
    → k ≤ data_size
    → Tail data_size false (pieces_of data_size (suc n) t times remainder size sended buffer) buffer
unfolding pieces_of
Tail-last data_size (suc n) t times remainder size sended k buffer none kind ends covers some_bytes
      fits =
    absurd (omega (arith, none))
Tail-last data_size zero t times remainder size sended k buffer none kind ends covers some_bytes
      fits =
    subst (λ ms. Tail data_size false ms buffer)
      (sym (
        pieces_of-piece data_size 0 t times remainder size sended k buffer true kind
          (ground (arith, ends))))
      (Tail-piece data_size k true buffer [] some_bytes fits (omega (arith, covers))
        (Tail-nothing data_size (drop k buffer) (omega (arith, length-drop k buffer, covers))))

-- All of them: `n` pieces, which are `q` full ones and `r` smaller ones.
pieces_of-Tail :
    (data_size q n r t times remainder size sended : ℕ) (buffer : List ℕ)
    → 0 < data_size
    → n ≡ q + r
    → (remainder ≡ 0 → r ≡ 0)
    → (0 < remainder → r ≡ 1)
    → remainder ≤ data_size
    → t + q ≡ times
    → length buffer ≡ q * data_size + remainder
    → sended + length buffer ≡ size
    → 0 < length buffer
    → Tail data_size false (pieces_of data_size n t times remainder size sended buffer) buffer
pieces_of-Tail data_size q zero r t times remainder size sended buffer positive parts none one small
      last long sums left =
    absurd (some_left q r data_size remainder one (omega (arith, long, left)) (sym parts))
pieces_of-Tail data_size zero (suc n) r t times remainder size sended buffer positive parts none one
      small last long sums left =
    Tail-last data_size n t times remainder size sended remainder buffer (omega (arith, none, one))
      (ground (arith, last)) (omega arith) (omega arith) (omega arith) small
pieces_of-Tail data_size (suc q) (suc n) r t times remainder size sended buffer positive parts none
      one small last long sums left =
    elim (Bool-cases ((sended + data_size) == size)) [
      | inl ends ↦
          Tail-last data_size n t times remainder size sended data_size buffer
            (omega (arith, at_end ends, le-mul_of_pos_right q positive, none (at_end ends).1))
            (ground (arith, last)) (ground (arith, ends)) (omega (arith, at_end ends)) positive
            (omega arith)
      | inr goes ↦
          subst (λ ms. Tail data_size false ms buffer)
            (sym (
              pieces_of-piece data_size n t times remainder size sended data_size buffer false
                (ground (arith, last)) goes))
            (Tail-piece data_size data_size false buffer _ positive (omega arith) (omega arith) (
              pieces_of-Tail data_size q n r (suc t) times remainder size (sended + data_size)
                (drop data_size buffer) positive (omega arith) none one small (omega arith)
                (omega (arith, length-drop data_size buffer))
                (omega (arith, length-drop data_size buffer))
                (ground (arith, goes, length-drop data_size buffer))))
    ]
  where
    at_end : ((sended + data_size) == size) ≡ true → (q * data_size ≡ 0) × (remainder ≡ 0)
    at_end ends = ground (arith, ends)

-- What a write sends: a header, and the pieces of the transfer, not more than it has bytes.
pub send-Tail :
    (data_size : ℕ) (c : Config) (buffer : List ℕ) (channel : List Message)
    → 0 < data_size
    → 0 < length buffer
    → (messages : List Message) × (send data_size push c buffer (length buffer) channel
        ≡ (ok (length buffer), channel ++ header_of c ∷ messages))
      × Tail data_size false messages buffer
      × (length messages ≤ length buffer)
unfolding send
send-Tail data_size c buffer channel positive some_bytes =
    let size = length buffer in
    let times = size / data_size in
    let remainder = size - times * data_size in
    let r = (if not (remainder == 0) then 1 else 0) in
    let (l, sent) =
      send_pieces-pieces_of data_size (times + r) 0 times remainder size 0 buffer
        (channel ++ header_of c ∷ []) 1 in
    let parts = div-add-mod' size data_size in
    let messages = pieces_of data_size (times + r) 0 times remainder size 0 buffer in
    (
      messages,
      ground (arith, sent, append_assoc channel (header_of c ∷ []) messages),
      pieces_of-Tail data_size times (times + r) r 0 times remainder size 0 buffer positive refl
          (λ e. ground (arith, e)) (λ h. ground (arith, h))
          (omega (arith, parts, mod-lt size positive)) (omega arith) (omega (arith, parts))
          (omega arith) some_bytes,
      omega (
        arith,
        length-pieces_of data_size (times + r) 0 times remainder size 0 buffer,
        le-mul_of_pos_right times positive,
        parts,
        at_most_one remainder,
      ),
    )
