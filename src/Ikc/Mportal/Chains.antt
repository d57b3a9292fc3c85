-- ===== src/Ikc/Mportal/Chains.antt =====
-- Messages in the portal buffers of src/libnanvix/ikc/mportal.c: buffers that their `next` pointers
-- link, and what a read makes of them.
use libnanvix.Shared.{
  ℕ, zero, suc, ◌+◌, ◌-◌, ◌≤◌, ◌≡◌, refl, sym, ap, ◌∙◌, subst, Bool, true, false, not, ◌&&◌, ◌||◌,
  List, [], ◌∷◌, ◌++◌, Option, none, some, ok, length, length-append, ◌==◌, arith,
}
use mathlib.Core.List.{append-nil, append_assoc}
use libnanvix.Ikc.Resource.{Resources}
use libnanvix.Ikc.Mportal.Pieces.{take}
use libnanvix.Ikc.Mportal.Buffers.{Buffer, Pool, buffer_release}
use libnanvix.Ikc.Mportal.Local.{Reading, copy, read_buffers}

-- Is the number in the list?
unfoldable pub has : ℕ → List ℕ → Bool
has a [] = false
has a (x ∷ xs) = (a == x) || has a xs

module _ (res : Resources) (buffer_max buffer_size : ℕ) where
  open res use {Resource, is_used, is_busy}

  -- The bytes of a buffer.
  abbrev pub chunk : Pool Resource → ℕ → List ℕ
  chunk p i = take (p.buffers i).size (p.buffers i).content

  -- From the first index on the pointers lead through these buffers, which hold these bytes and can
  -- be read.
  pub data Chain (p : Pool Resource) : Option ℕ → List ℕ → List ℕ → Type 0 where
    end : Chain p none [] []
    link :
        {next : Option ℕ} {is bytes : List ℕ} (i : ℕ)
        → is_used (p.resources i) ≡ true
        → is_busy (p.resources i) ≡ false
        → length (chunk p i) ≡ (p.buffers i).size
        → (p.buffers i).next ≡ next
        → has i is ≡ false
        → Chain p next is bytes
        → Chain p (some i) (i ∷ is) (chunk p i ++ bytes)

  -- The buffers of the list are free, and the others are as they were.
  pub record Freed (is : List ℕ) (p q : Pool Resource) : Type 0 where
    pub used : (j : ℕ) → is_used (q.resources j) ≡ (not (has j is) && is_used (p.resources j))
    pub same :
        (j : ℕ) → has j is ≡ false → (q.resources j ≡ p.resources j) × (q.buffers j ≡ p.buffers j)

  -- A chain survives a change of other buffers.
  pub Chain-frame :
      (p q : Pool Resource) {h : Option ℕ} {is bytes : List ℕ}
      → Chain p h is bytes
      → ((j : ℕ) → has j is ≡ true → (q.resources j ≡ p.resources j) × (q.buffers j ≡ p.buffers j))
      → Chain q h is bytes
  unfolding has
  Chain-frame p q end same = end
  Chain-frame p q (link {next} {is} {bytes} i used free sized leads out rest) same =
      let (resource, buffer) = same i (ground arith) in
      subst (λ x. Chain q (some i) (i ∷ is) (x ++ bytes))
        (ap (λ (b : Buffer). take b.size b.content) buffer)
        (link i (ap is_used resource ∙ used) (ap is_busy resource ∙ free)
          (ap (λ (b : Buffer). length (take b.size b.content)) buffer
            ∙ sized
            ∙ ap (λ (b : Buffer). b.size) (sym buffer))
          (ap (λ (b : Buffer). b.next) buffer ∙ leads) out
          (Chain-frame p q rest (λ j inside. same j (ground (arith, inside)))))

  release-Freed :
      (b : ℕ) (p : Pool Resource)
      → is_used (p.resources b) ≡ true
      → Freed (b ∷ []) p (buffer_release res buffer_max buffer_size (some b) p).1
  unfolding has buffer_release
  release-Freed b p used = record {
    used = λ j. ground (arith, used, res.used-set_unused (p.resources b));
    same = λ j out. (ground (arith, out, used), ground (arith, out, used));
  }

  -- One more buffer in front is released first.
  step-Freed :
      (b i : ℕ) (is : List ℕ) (p q : Pool Resource)
      → is_used (p.resources b) ≡ true
      → has b (i ∷ is) ≡ false
      → Freed (i ∷ is) (buffer_release res buffer_max buffer_size (some b) p).1 q
      → Freed (b ∷ i ∷ is) p q
  unfolding has buffer_release
  step-Freed b i is p q used out f = record {
    used = λ j. ground (arith, f.used j, used, out, res.used-set_unused (p.resources b));
    same = λ j outside. (
      ground (arith, used, outside, (f.same j (ground (arith, outside))).0),
      ground (arith, used, outside, (f.same j (ground (arith, outside))).1),
    );
  }

  -- The release of another buffer keeps a chain.
  release-Chain :
      (b : ℕ) (p : Pool Resource) {h : Option ℕ} {is bytes : List ℕ}
      → has b is ≡ false
      → Chain p h is bytes
      → Chain (buffer_release res buffer_max buffer_size (some b) p).1 h is bytes
  unfolding buffer_release
  release-Chain b p out chain =
      Chain-frame p (buffer_release res buffer_max buffer_size (some b) p).1 chain
        (λ j inside. (ground (arith, inside, out), ground (arith, inside, out)))

  -- One round of a read, with the buffer before still held.
  read-link :
      (fuel total b i : ℕ) (r : Reading) (p : Pool Resource) (next : Option ℕ)
      → is_used (p.resources b) ≡ true
      → (p.buffers b).next ≡ some i
      → (b == i) ≡ false
      → r.previous ≡ some b
      → is_busy (p.resources i) ≡ false
      → (p.buffers i).next ≡ next
      → (p.buffers i).size ≤ r.remainder
      → read_buffers res buffer_max buffer_size (suc fuel) (some i) total r p
        ≡ read_buffers res buffer_max buffer_size fuel next
            (total + (p.buffers i).size)
            (record {
              copied = r.copied ++ chunk p i;
              remainder = r.remainder - (p.buffers i).size;
              previous = some i;
            })
            (buffer_release res buffer_max buffer_size (some b) p).1
  unfolding read_buffers copy buffer_release
  read-link fuel total b i r p next used leads differ behind free after fits =
      ground (arith, used, leads, differ, behind, free, after, fits)

  -- A read with nothing left to read ahead.
  read-end :
      (fuel total b : ℕ) (r : Reading) (p : Pool Resource)
      → r.previous ≡ some b
      → read_buffers res buffer_max buffer_size fuel none total r p
        ≡ some (
          ok (total + 0),
          record { copied = r.copied ++ []; remainder = r.remainder - 0; previous = some b },
          p,
        )
  unfolding read_buffers
  read-end zero total b r p behind = ground (arith, behind, append-nil r.copied)
  read-end (suc fuel) total b r p behind = ground (arith, behind, append-nil r.copied)

  -- A chain is read from the buffer before it on: its bytes are copied, and its buffers are free when
  -- the last one is released too.
  pub read-Chain :
      (fuel total b : ℕ) (r : Reading) (p : Pool Resource) {h : Option ℕ} {is bytes : List ℕ}
      → Chain p h is bytes
      → is_used (p.resources b) ≡ true
      → (p.buffers b).next ≡ h
      → has b is ≡ false
      → r.previous ≡ some b
      → length bytes ≤ r.remainder
      → length is ≤ fuel
      → (last : ℕ) × (q : Pool Resource) × (read_buffers res buffer_max buffer_size fuel h total r p
          ≡ some (
            ok (total + length bytes),
            record {
              copied = r.copied ++ bytes;
              remainder = r.remainder - length bytes;
              previous = some last;
            },
            q,
          ))
        × Freed (b ∷ is) p (buffer_release res buffer_max buffer_size (some last) q).1
  unfolding has
  read-Chain fuel total b r p end used leads out behind fits enough =
      (b, p, read-end fuel total b r p behind, release-Freed b p used)
  read-Chain zero total b r p (link i used_i free sized after out_i rest) used leads out behind fits
        enough =
      absurd (omega arith)
  read-Chain (suc fuel) total b r p (link {next} {is} {bytes} i used_i free sized after out_i rest)
        used leads out behind fits enough =
      let p1 = (buffer_release res buffer_max buffer_size (some b) p).1 in
      let r1 : Reading = record {
        copied = r.copied ++ chunk p i;
        remainder = r.remainder - (p.buffers i).size;
        previous = some i;
      } in
      let (resource, buffer) = (release-Freed b p used).same i (ground (arith, out)) in
      let whole = length-append (chunk p i) bytes in
      let (last, q, run, freed) =
        read-Chain fuel (total + (p.buffers i).size) i r1 p1
          (release-Chain b p (ground (arith, out)) rest) (ap is_used resource ∙ used_i)
          (ap (λ (x : Buffer). x.next) buffer ∙ after) out_i refl (omega (arith, whole, sized))
          (omega arith) in
      (
        last,
        q,
        read-link fuel total b i r p next used leads (ground (arith, out)) behind free after
              (omega (arith, whole, sized))
            ∙ run
            ∙ ground (arith, whole, sized, append_assoc r.copied (chunk p i) bytes),
        step-Freed b i is p (buffer_release res buffer_max buffer_size (some last) q).1 used out
            freed,
      )
