-- ===== src/Ikc/Mportal/Kept.antt =====
-- A message for another port that a read of src/libnanvix/ikc/mportal.c keeps in the portal buffers.
use libnanvix.Shared.{
  ℕ, zero, suc, ◌+◌, ◌-◌, ◌*◌, ◌^◌, ◌≤◌, ◌<◌, ◌≡◌, refl, sym, ap, ◌∙◌, subst, Bool, true, false,
  List, [], ◌∷◌, ◌++◌, Option, none, some, ok, length, length-append, arith,
}
use native.Mathlib.Decide.{dec_lt}
use libnanvix.Ikc.Resource.{Resources}
use libnanvix.Ikc.Mportal.Pieces.{Config, Message, returned, drop}
use libnanvix.Ikc.Mportal.RoundTrip.{take-take, length-drop, take_all}
use libnanvix.Ikc.Mportal.Buffers.{Pool, buffer_alloc, set_available}
use libnanvix.Ikc.Mportal.Keeping.{append, keep_pieces, keep_message}
use libnanvix.Ikc.Mportal.Local.{Reading}
use libnanvix.Ikc.Mportal.Chains.{chunk}
use libnanvix.Ikc.Mportal.Growing.{
  Grown, Grown-refl, first_free-unused, behind, behind-given, placed, length-take, distinct,
}
use libnanvix.Ikc.Mportal.Filling.{free_buffers, free_buffers-first, free_buffers-behind}
use libnanvix.Ikc.Mportal.Stored.{alone, buffer_alloc-alone, Stored}
use libnanvix.Ikc.Mportal.Reads.{arriving}
use libnanvix.Ikc.Mportal.Within.{free_buffers-alone}
use libnanvix.Ikc.Mportal.Tails.{Tail, whole, next}
use libnanvix.Ikc.Mportal.Appending.{
  keep_pieces-append, keep_pieces-behind, append-given, append-Grown, room_left, first_room,
  some_room, append-used, append-free, split-Grown,
}

module _ (res : Resources) (buffer_max buffer_size fuel : ℕ) where
  open res use {Resource, is_used, is_busy}

  -- The pieces of a transfer are stored behind what stands in the buffer.
  pub keep_pieces-Grown :
      (limit n : ℕ) (mdata : Option ℕ) (received i : ℕ) {eof : Bool} {ms : List Message}
      {bytes : List ℕ} (later : List Message) (p : Pool Resource)
      → Tail limit eof ms bytes
      → limit ≤ buffer_size
      → is_used (p.resources i) ≡ true
      → (p.buffers i).next ≡ none
      → (p.buffers i).size ≡ received
      → length (chunk res buffer_max buffer_size p i) ≡ received
      → received ≤ buffer_size
      → length bytes
        ≤ free_buffers res buffer_max buffer_size p * buffer_size + (buffer_size - received)
      → (p.buffers i).seq + length bytes < 2 ^ 64
      → length ms ≤ n
      → (m last : ℕ) × (q : Pool Resource) × (is : List ℕ) × (keep_pieces res buffer_max buffer_size
            fuel arriving n mdata eof received i p
            (ms ++ later)
          ≡ returned (ok m, last, q, later))
        × Grown res buffer_max buffer_size i p
            (set_available res buffer_max buffer_size (some last) q)
            is
            bytes
  unfolding keep_pieces
  keep_pieces-Grown limit n mdata received i later p whole fitting used last size sized held room
        small enough =
      (received, i, p, [], refl, Grown-refl res buffer_max buffer_size i p last (sized ∙ sym size))
  keep_pieces-Grown limit zero mdata received i later p (next x some_bytes fits tail) fitting used
        last size sized held room small enough =
      absurd (omega arith)
  keep_pieces-Grown limit (suc n) mdata received i later p
        (next {eof} {ms} {bytes} x some_bytes fits tail) fitting used last size sized held room
        small enough =
      let whole = length-append x bytes in
      elim (dec_lt buffer_size (received + length x)) [
        | no under ↦
            let p1 = append res buffer_max buffer_size fuel arriving i received (length x) x p in
            let (chunk_i, size_i, sized_i, next_i, seq_i, config_i) =
              append-given res buffer_max buffer_size fuel i received (length x) x p size sized
                (omega arith) in
            let (m, last', q, is, run, grown) =
              keep_pieces-Grown limit n mdata (received + length x) i later p1 tail fitting
                (append-used res buffer_max buffer_size fuel i received (length x) x p used)
                (next_i ∙ last) size_i sized_i (omega arith)
                (subst (λ f. length bytes ≤ f * buffer_size + (buffer_size - (received + length x)))
                  (sym (append-free res buffer_max buffer_size fuel i received (length x) x p))
                  (omega (arith, whole, room)))
                (omega (arith, seq_i, whole)) (omega arith) in
            (
              m,
              last',
              q,
              is,
              keep_pieces-append res buffer_max buffer_size fuel n mdata received i eof x p
                    (ms ++ later) (omega arith)
                  ∙ run,
              subst
                  (λ xs.
                    Grown res buffer_max buffer_size i p
                      (set_available res buffer_max buffer_size (some last') q) is (xs ++ bytes))
                  (take_all (length x) x (omega arith))
                  (append-Grown res buffer_max buffer_size fuel i received (length x) x p
                    (set_available res buffer_max buffer_size (some last') q) is bytes used size
                    sized (omega arith) grown),
            )
        | yes over ↦
            let space = buffer_size - received in
            let left = length x - space in
            let c = (p.buffers i).config in
            let p1 = append res buffer_max buffer_size fuel arriving i received space x p in
            let rest = drop space x in
            let (chunk_i, size_i, sized_i, next_i, seq_i, config_i) =
              append-given res buffer_max buffer_size fuel i received space x p size sized
                (omega arith) in
            let used_i = append-used res buffer_max buffer_size fuel i received space x p used in
            let (j, found) = free_buffers-first res buffer_max buffer_size p1 (
              some_room res buffer_max buffer_size fuel (free_buffers res buffer_max buffer_size p1)
                buffer_size received (length x) (length (x ++ bytes)) (length bytes) whole held over
                (subst (λ f. length (x ++ bytes) ≤ f * buffer_size + space)
                  (sym (append-free res buffer_max buffer_size fuel i received space x p)) room)) in
            let (below, unused) = first_free-unused res buffer_max buffer_size p1 j found in
            let other = distinct (λ k. is_used (p1.resources k)) i j used_i unused in
            let p2 =
              placed res buffer_max buffer_size j left rest
                (behind res buffer_max buffer_size i j c p1) in
            let (used_j, next_j, seq_j, chunk_j, size_j, config_j) =
              behind-given res buffer_max buffer_size i j left c rest p1 other in
            let short : length rest ≡ left = length-drop space x in
            let exact = length-take left rest (omega (arith, short)) in
            let (m, last', q, is, run, grown) =
              keep_pieces-Grown limit n mdata left j later p2 tail fitting used_j next_j size_j
                (ap length (chunk_j ∙ take-take left rest) ∙ exact) (omega arith)
                (room_left res buffer_max buffer_size fuel
                  (free_buffers res buffer_max buffer_size p)
                  (free_buffers res buffer_max buffer_size p2) buffer_size received (length x)
                  (length (x ++ bytes)) (length bytes)
                  (free_buffers-behind res buffer_max buffer_size i j left c rest p1 used_i unused
                      below
                    ∙ append-free res buffer_max buffer_size fuel i received space x p)
                  whole held over (omega arith) room)
                (omega (arith, seq_j, seq_i, whole, some_bytes)) (omega arith) in
            let q' = set_available res buffer_max buffer_size (some last') q in
            (
              m,
              last',
              q,
              j ∷ is,
              keep_pieces-behind res buffer_max buffer_size fuel n mdata received i j eof x p
                    (ms ++ later) over found
                  ∙ run,
              split-Grown res buffer_max buffer_size fuel i j received space left c x p q' is bytes
                  used size sized (omega arith) refl (omega arith)
                  (omega (arith, whole, small, some_bytes)) unused grown,
            )
      ]

  keep_message-available :
      (mdata : Option ℕ) (c : Config) (r : Reading) (p q1 q : Pool Resource)
      (w later : List Message) (m i last : ℕ)
      → buffer_alloc res buffer_max buffer_size none (some c) p ≡ (some i, q1)
      → keep_pieces res buffer_max buffer_size fuel arriving fuel mdata false 0 i q1 w
        ≡ returned (ok m, last, q, later)
      → keep_message res buffer_max buffer_size fuel arriving mdata false c r p w
        ≡ returned (record {
          ret = ok m;
          valid = true;
          buffering = true;
          reading = r;
          pool = set_available res buffer_max buffer_size (some last) q;
          world = later;
        })
  unfolding keep_message
  keep_message-available mdata c r p q1 q w later m i last given run =
      simp (keep_message, given, run)

  -- The whole message for another port is stored, with its configuration.
  pub keep_message-Stored :
      (mdata : Option ℕ) (limit : ℕ) (c : Config) (ms later : List Message) (bytes : List ℕ)
      (r : Reading) (p : Pool Resource)
      → Tail limit false ms bytes
      → limit ≤ buffer_size
      → 0 < length bytes
      → length bytes ≤ free_buffers res buffer_max buffer_size p * buffer_size
      → length bytes < 2 ^ 64
      → length ms ≤ fuel
      → (m b : ℕ) × (q : Pool Resource) × (is : List ℕ) × (keep_message res buffer_max buffer_size
            fuel arriving mdata false c r p
            (ms ++ later)
          ≡ returned (record {
            ret = ok m;
            valid = true;
            buffering = true;
            reading = r;
            pool = q;
            world = later;
          }))
        × Stored res buffer_max buffer_size c b p q is bytes
  keep_message-Stored mdata limit c ms later bytes r p tail fitting some_bytes room small enough =
      let free = free_buffers res buffer_max buffer_size p in
      let (i, found) = free_buffers-first res buffer_max buffer_size p (
        some_room res buffer_max buffer_size fuel free buffer_size buffer_size (length bytes)
          (length bytes) 0 (omega arith) (omega arith) (omega arith) (omega (arith, room))) in
      let (below, unused) = first_free-unused res buffer_max buffer_size p i found in
      let q1 = alone res buffer_max buffer_size i c p in
      let used : is_used (q1.resources i) ≡ true = ground (
        arith,
        res.used-set_busy (res.set_used (p.resources i)),
        res.used-set_used (p.resources i),
      ) in
      let empty : chunk res buffer_max buffer_size q1 i ≡ [] = ground arith in
      let start : (q1.buffers i).seq ≡ 0 = ground arith in
      let (m, last, q, is, run, grown) =
        keep_pieces-Grown limit fuel mdata 0 i later q1 tail fitting used (ground arith)
          (ground arith) (ap length empty) (omega arith)
          (first_room res buffer_max buffer_size fuel free
            (free_buffers res buffer_max buffer_size q1) buffer_size (length bytes)
            (free_buffers-alone res buffer_max buffer_size i 0 c [] p unused below) room)
          (omega (arith, start)) enough in
      (
        m,
        i,
        set_available res buffer_max buffer_size (some last) q,
        is,
        keep_message-available mdata c r p q1 q (ms ++ later) later m i last
            (buffer_alloc-alone res buffer_max buffer_size i c p found) run,
        record { below = below; unused = unused; grown = grown },
      )
