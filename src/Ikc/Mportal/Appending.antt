-- ===== src/Ikc/Mportal/Appending.antt =====
-- What a piece does to a message that a read of src/libnanvix/ikc/mportal.c keeps for another port: it goes
-- to the buffer, or in part to one behind it.
use libnanvix.Shared.{
  ℕ, zero, suc, ◌+◌, ◌-◌, ◌*◌, ◌^◌, ◌≤◌, ◌<◌, ◌≡◌, refl, sym, ap, ◌∙◌, subst, Bool, true, false,
  List, [], ◌∷◌, ◌++◌, Option, none, some, Ret, length, length-append, ltb, ◌==◌, arith,
}
use mathlib.Core.List.{append_assoc}
use libnanvix.Ikc.Resource.{Resources}
use libnanvix.Ikc.Mportal.Pieces.{Config, Message, Run, out_of_fuel, take, drop}
use libnanvix.Ikc.Mportal.RoundTrip.{take-take, take-drop, length-drop, take_all}
use libnanvix.Ikc.Mportal.Buffers.{Pool}
use libnanvix.Ikc.Mportal.Keeping.{append, refill, keep_pieces}
use libnanvix.Ikc.Mportal.Chains.{chunk}
use libnanvix.Ikc.Mportal.Growing.{
  Grown, Grown-append, Grown-behind, first_free, behind, buffer_alloc-behind, placed, length-take,
}
use libnanvix.Ikc.Mportal.Filling.{free_buffers}
use libnanvix.Ikc.Mportal.Reads.{arriving}
use libnanvix.Ikc.Mportal.Tails.{piece_of}

take-append : (n k : ℕ) (a x : List ℕ) → length a ≡ n → take (n + k) (a ++ x) ≡ a ++ take k x
take-append zero k [] x e = let same : zero + k ≡ k = omega arith in ap (λ m. take m x) same
take-append zero k (y ∷ a) x e = absurd (omega (arith, e))
take-append (suc n) k [] x e = absurd (omega (arith, e))
take-append (suc n) k (y ∷ a) x e =
    let same : suc n + k ≡ suc (n + k) = omega arith in
    ap (λ m. take m (y ∷ a ++ x)) same ∙ ap (λ ys. y ∷ ys) (take-append n k a x (omega (arith, e)))

module _ (res : Resources) (buffer_max buffer_size fuel : ℕ) where
  open res use {Resource, is_used, is_busy}

  -- A piece that fits into the buffer.
  pub keep_pieces-append :
      (n : ℕ) (mdata : Option ℕ) (received i : ℕ) (eof : Bool) (x : List ℕ) (p : Pool Resource)
      (w : List Message)
      → received + length x ≤ buffer_size
      → keep_pieces res buffer_max buffer_size fuel arriving
          (suc n)
          mdata
          false
          received
          i
          p
          (piece_of eof x ∷ w)
        ≡ keep_pieces res buffer_max buffer_size fuel arriving n mdata eof
            (received + length x)
            i
            (append res buffer_max buffer_size fuel arriving i received (length x) x p)
            w
  unfolding keep_pieces
  keep_pieces-append n mdata received i eof x p w fits =
      let large : ltb buffer_size (received + length x) ≡ false = ground (arith, fits) in
      rw (keep_pieces, large) refl

  -- A piece that does not fit: the rest of it goes to a buffer behind.
  pub keep_pieces-behind :
      (n : ℕ) (mdata : Option ℕ) (received i j : ℕ) (eof : Bool) (x : List ℕ) (p : Pool Resource)
      (w : List Message)
      → buffer_size < received + length x
      → let room = buffer_size - received in
        let p1 = append res buffer_max buffer_size fuel arriving i received room x p in
        first_free res buffer_max buffer_size p1 ≡ some j
        → keep_pieces res buffer_max buffer_size fuel arriving
            (suc n)
            mdata
            false
            received
            i
            p
            (piece_of eof x ∷ w)
          ≡ keep_pieces res buffer_max buffer_size fuel arriving n mdata eof
              (length x - room)
              j
              (placed res buffer_max buffer_size j
                (length x - room)
                (drop room x)
                (behind res buffer_max buffer_size i j (p.buffers i).config p1))
              w
  unfolding keep_pieces refill
  keep_pieces-behind n mdata received i j eof x p w over found =
      let large : ltb buffer_size (received + length x) ≡ true = ground (arith, over) in
      let room = buffer_size - received in
      let left = length x - room in
      let p1 = append res buffer_max buffer_size fuel arriving i received room x p in
      let go : Option ℕ × Pool Resource → Run (Ret × ℕ × Pool Resource × List Message) = λ y.
        elim y.0 [
          | none ↦ out_of_fuel
          | some j ↦
              keep_pieces res buffer_max buffer_size fuel arriving n mdata eof left j
                (refill res buffer_max buffer_size fuel arriving j left (drop room x) y.1) w
        ] in
      rw (keep_pieces, large)
        (ap go (buffer_alloc-behind res buffer_max buffer_size i j (p.buffers i).config p1 found))

  -- The buffer after it took more.
  pub append-given :
      (i received n : ℕ) (x : List ℕ) (p : Pool Resource)
      → (p.buffers i).size ≡ received
      → length (chunk res buffer_max buffer_size p i) ≡ received
      → n ≤ length x
      → let q = append res buffer_max buffer_size fuel arriving i received n x p in
        (chunk res buffer_max buffer_size q i ≡ chunk res buffer_max buffer_size p i ++ take n x)
        × ((q.buffers i).size ≡ received + n)
        × (length (chunk res buffer_max buffer_size q i) ≡ received + n)
        × ((q.buffers i).next ≡ (p.buffers i).next)
        × ((q.buffers i).seq ≡ (p.buffers i).seq)
        × ((q.buffers i).config ≡ (p.buffers i).config)
  unfolding append
  append-given i received n x p size sized enough =
      let here : (i == i) ≡ true = ground arith in
      let old = take received (p.buffers i).content in
      let old_chunk : chunk res buffer_max buffer_size p i ≡ old =
        ap (λ m. take m (p.buffers i).content) size in
      let q = append res buffer_max buffer_size fuel arriving i received n x p in
      let new : chunk res buffer_max buffer_size q i
          ≡ chunk res buffer_max buffer_size p i ++ take n x =
        rw here (
          ap (λ m. take (m + n) (old ++ take n x)) size
          ∙ take-append received n old (take n x) (ap length (sym old_chunk) ∙ sized)
          ∙ ap (λ xs. old ++ xs) (take-take n x)
          ∙ ap (λ xs. xs ++ take n x) (sym old_chunk)) in
      (
        new,
        rw here (ap (λ m. m + n) size),
        ap length new
            ∙ length-append (chunk res buffer_max buffer_size p i) (take n x)
            ∙ omega (arith, sized, length-take n x enough),
        ground arith,
        ground arith,
        ground arith,
      )

  pub append-Grown :
      (i received n : ℕ) (x : List ℕ) (p q : Pool Resource) (is more : List ℕ)
      → is_used (p.resources i) ≡ true
      → (p.buffers i).size ≡ received
      → length (chunk res buffer_max buffer_size p i) ≡ received
      → n ≤ length x
      → Grown res buffer_max buffer_size i
          (append res buffer_max buffer_size fuel arriving i received n x p)
          q
          is
          more
      → Grown res buffer_max buffer_size i p q is (take n x ++ more)
  unfolding append
  append-Grown i received n x p q is more used size sized enough grown =
      let (chunk_i, size_i, sized_i, next_i, seq_i, config_i) =
        append-given i received n x p size sized enough in
      Grown-append res buffer_max buffer_size i p
        (append res buffer_max buffer_size fuel arriving i received n x p) q is (take n x) more refl
        chunk_i seq_i config_i used (λ j other. (refl, ground (arith, other))) grown

  pub room_left :
      (f f' size received k bytes rest : ℕ)
      → suc f' ≡ f
      → bytes ≡ k + rest
      → received ≤ size
      → size < received + k
      → k ≤ size
      → bytes ≤ f * size + (size - received)
      → rest ≤ f' * size + (size - (k - (size - received)))
  room_left zero f' size received k bytes rest one parts held over small room = absurd (omega arith)
  room_left (suc f) f' size received k bytes rest one parts held over small room =
      let same : f' ≡ f = omega (arith, one) in
      subst (λ z. rest ≤ z * size + (size - (k - (size - received)))) (sym same)
        (omega (arith, parts, room, held, over, small))

  pub first_room :
      (f f' size bytes : ℕ) → suc f' ≡ f → bytes ≤ f * size → bytes ≤ f' * size + (size - 0)
  first_room zero f' size bytes one room = absurd (omega arith)
  first_room (suc f) f' size bytes one room =
      let same : f' ≡ f = omega (arith, one) in
      subst (λ z. bytes ≤ z * size + (size - 0)) (sym same) (omega (arith, room))

  pub some_room :
      (f size received k bytes rest : ℕ)
      → bytes ≡ k + rest
      → received ≤ size
      → size < received + k
      → bytes ≤ f * size + (size - received)
      → 0 < f
  some_room zero size received k bytes rest parts held over room =
      absurd (omega (arith, parts, held, over, room))
  some_room (suc f) size received k bytes rest parts held over room = omega arith

  pub append-used :
      (i received n : ℕ) (x : List ℕ) (p : Pool Resource)
      → is_used (p.resources i) ≡ true
      → is_used ((append res buffer_max buffer_size fuel arriving i received n x p).resources i)
        ≡ true
  unfolding append
  append-used i received n x p used = used

  pub append-free :
      (i received n : ℕ) (x : List ℕ) (p : Pool Resource)
      → free_buffers res buffer_max buffer_size
          (append res buffer_max buffer_size fuel arriving i received n x p)
        ≡ free_buffers res buffer_max buffer_size p
  unfolding append
  append-free i received n x p = refl

  -- A piece of which the rest went to a buffer behind.
  pub split-Grown :
      (i j received space left : ℕ) (c : Config) (x : List ℕ) (p q : Pool Resource)
      (is more : List ℕ)
      → is_used (p.resources i) ≡ true
      → (p.buffers i).size ≡ received
      → length (chunk res buffer_max buffer_size p i) ≡ received
      → space ≤ length x
      → left ≡ length x - space
      → 0 < left
      → suc (p.buffers i).seq < 2 ^ 64
      → let p1 = append res buffer_max buffer_size fuel arriving i received space x p in
        is_used (p1.resources j) ≡ false
        → Grown res buffer_max buffer_size j
            (placed res buffer_max buffer_size j left
              (drop space x)
              (behind res buffer_max buffer_size i j c p1))
            q
            is
            more
        → Grown res buffer_max buffer_size i p q (j ∷ is) (x ++ more)
  split-Grown i j received space left c x p q is more used size sized enough is_left some_left small
        unused grown =
      let p1 = append res buffer_max buffer_size fuel arriving i received space x p in
      let rest = drop space x in
      let short : length rest ≡ left = length-drop space x ∙ sym is_left in
      let (chunk_i, size_i, sized_i, next_i, seq_i, config_i) =
        append-given i received space x p size sized enough in
      subst (λ xs. Grown res buffer_max buffer_size i p q (j ∷ is) xs)
        (ap (λ xs. take space x ++ (xs ++ more)) (take_all left rest (omega (arith, short)))
          ∙ sym (append_assoc (take space x) rest more)
          ∙ ap (λ xs. xs ++ more) (take-drop space x))
        (append-Grown i received space x p q (j ∷ is) (take left rest ++ more) used size sized
          enough
          (Grown-behind res buffer_max buffer_size i j left c rest p1 q is more
            (append-used i received space x p used) unused (sized_i ∙ sym size_i)
            (omega (arith, short)) some_left (omega (arith, seq_i, small)) grown))
