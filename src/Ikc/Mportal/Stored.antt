-- ===== src/Ikc/Mportal/Stored.antt =====
-- A message that stands in the portal buffers of src/libnanvix/ikc/mportal.c is found and read.
use libnanvix.Shared.{
  ℕ, zero, suc, ◌+◌, ◌-◌, ◌≤◌, ◌<◌, ◌≡◌, ◌≢◌, refl, sym, ap, ◌∙◌, subst, Bool, true, false, ◌&&◌,
  List, [], ◌∷◌, ◌++◌, Option, none, some, ok, length, length-append, ◌==◌, is_some, update,
  count_one, arith, Bool-cases, inl, inr,
}
use mathlib.Core.List.{append_assoc}
use native.Mathlib.Decide.{dec_lt}
use libnanvix.Ikc.Resource.{Resources}
use libnanvix.Ikc.Mportal.Pieces.{Config}
use libnanvix.Ikc.Mportal.Buffers.{
  Buffer, Pool, same_id, linked, next_seq, buffer_alloc, buffer_release, search_from, buffer_search,
}
use libnanvix.Ikc.Mportal.Local.{Reading, copy, read_buffers, release_last, buffer_read}
use libnanvix.Ikc.Mportal.Arrival.{swapped}
use libnanvix.Ikc.Mportal.Chains.{has, chunk, Freed, read-Chain}
use libnanvix.Ikc.Mportal.Growing.{Grown, first_free}

module _ (res : Resources) (buffer_max buffer_size : ℕ) where
  open res use {Resource, is_used, is_busy}

  -- Does a message from the remote of `d` to its port begin in buffer `i`?
  unfoldable pub opens : Config → Pool Resource → ℕ → Bool
  opens d p i =
      let buf = p.buffers i in
      is_used (p.resources i)
      && same_id d.local buf.config.remote
      && same_id d.local_port buf.config.remote_port
      && same_id d.remote buf.config.local
      && same_id d.remote_port buf.config.local_port
      && (buf.seq == 0)

  search_skips :
      (d : Config) (n i : ℕ) (best : Option ℕ) (p : Pool Resource)
      → is_some d.remote ≡ true
      → opens d p i ≡ false
      → search_from res buffer_max buffer_size d (suc n) i best p
        ≡ search_from res buffer_max buffer_size d n (suc i) best p
  unfolding search_from opens
  search_skips d n i best p reads other = ground (arith, reads, other)

  search_takes :
      (d : Config) (n i : ℕ) (p : Pool Resource)
      → is_some d.remote ≡ true
      → opens d p i ≡ true
      → is_busy (p.resources i) ≡ false
      → search_from res buffer_max buffer_size d (suc n) i none p
        ≡ search_from res buffer_max buffer_size d n (suc i) (some i) p
  unfolding search_from opens
  search_takes d n i p reads here free = ground (arith, reads, here, free)

  pub search_rest :
      (d : Config) (n i : ℕ) (best : Option ℕ) (p : Pool Resource)
      → is_some d.remote ≡ true
      → ((j : ℕ) → i ≤ j → j < i + n → opens d p j ≡ false)
      → search_from res buffer_max buffer_size d n i best p ≡ best
  unfolding search_from
  search_rest d zero i best p reads others = refl
  search_rest d (suc n) i best p reads others =
      search_skips d n i best p reads (others i (omega arith) (omega arith))
      ∙ search_rest d n (suc i) best p reads (λ j le lt. others j (omega arith) (omega arith))

  search_only :
      (d : Config) (n i b : ℕ) (p : Pool Resource)
      → is_some d.remote ≡ true
      → opens d p b ≡ true
      → is_busy (p.resources b) ≡ false
      → i ≤ b
      → b < i + n
      → ((j : ℕ) → j < i + n → b ≢ j → opens d p j ≡ false)
      → search_from res buffer_max buffer_size d n i none p ≡ some b
  unfolding search_from
  search_only d zero i b p reads here free from below others = absurd (omega arith)
  search_only d (suc n) i b p reads here free from below others = elim (dec_lt i b) [
    | yes later ↦
        search_skips d n i none p reads
          (others i (omega arith) (λ e. absurd (omega (arith, later, e))))
        ∙ search_only d n (suc i) b p reads here free later (omega arith)
            (λ j lt. others j (omega arith))
    | no at ↦
        let same : b ≡ i = omega arith in
        search_takes d n i p reads (subst (λ j. opens d p j ≡ true) same here)
          (subst (λ j. is_busy (p.resources j) ≡ false) same free)
        ∙ search_rest d n (suc i) (some i) p reads
            (λ j le lt. others j (omega arith) (λ e. absurd (omega (arith, e))))
        ∙ ap some (sym same)
  ]

  -- The pool where buffer `i` is given out as the first one of a message.
  abbrev pub alone : ℕ → Config → Pool Resource → Pool Resource
  alone i c p =
      let given : Buffer = record {
        age = p.next_age;
        seq = 0;
        size = 0;
        config = c;
        next = none;
        content = (p.buffers i).content;
      } in
      record {
        resources = update p.resources i (res.set_busy (res.set_used (p.resources i)));
        buffers = update p.buffers i given;
        next_age = count_one p.next_age;
      }

  pub buffer_alloc-alone :
      (i : ℕ) (c : Config) (p : Pool Resource)
      → first_free res buffer_max buffer_size p ≡ some i
      → buffer_alloc res buffer_max buffer_size none (some c) p ≡ (some i, alone i c p)
  unfolding buffer_alloc linked next_seq
  buffer_alloc-alone i c p found = rw (buffer_alloc, found) refl

  -- A whole message with the configuration `c` went to buffers that were free, of which `b` is the first.
  pub record Stored (c : Config) (b : ℕ) (p q : Pool Resource) (is bytes : List ℕ) : Type 0 where
    pub below : b < buffer_max
    pub unused : is_used (p.resources b) ≡ false
    pub grown : Grown res buffer_max buffer_size b (alone b c p) q is bytes

  pub alone-others :
      (b j : ℕ) (c : Config) (p : Pool Resource)
      → (j == b) ≡ false
      → ((alone b c p).resources j ≡ p.resources j) × ((alone b c p).buffers j ≡ p.buffers j)
  alone-others b j c p other = (ground (arith, other), ground (arith, other))

  Stored-used :
      (c : Config) (b : ℕ) (p q : Pool Resource) (is bytes : List ℕ)
      → Stored c b p q is bytes
      → is_used (q.resources b) ≡ true
  Stored-used c b p q is bytes stored =
      stored.grown.used
      ∙ ground (
        arith,
        res.used-set_busy (res.set_used (p.resources b)),
        res.used-set_used (p.resources b),
      )

  same_id-same : (a : Option ℕ) → same_id a a ≡ true
  same_id-same none = refl
  same_id-same (some n) = ground arith

  -- The first buffer of the message is where its reader begins.
  Stored-opens :
      (c : Config) (b : ℕ) (p q : Pool Resource) (is bytes : List ℕ)
      → Stored c b p q is bytes
      → opens (swapped c) q b ≡ true
  unfolding opens
  Stored-opens c b p q is bytes stored =
      let config : (q.buffers b).config ≡ c = stored.grown.config ∙ ground arith in
      let seq : (q.buffers b).seq ≡ 0 = stored.grown.seq ∙ ground arith in
      ground (
        arith,
        Stored-used c b p q is bytes stored,
        config,
        seq,
        same_id-same c.local,
        same_id-same c.local_port,
        same_id-same c.remote,
        same_id-same c.remote_port,
      )

  -- No other message to it begins in the buffers.
  pub Stored-others :
      (c : Config) (b j : ℕ) (p q : Pool Resource) (is bytes : List ℕ) (d : Config)
      → Stored c b p q is bytes
      → b ≢ j
      → opens d p j ≡ false
      → opens d q j ≡ false
  unfolding opens has
  Stored-others c b j p q is bytes d stored other before = elim (Bool-cases (has j is)) [
    | inl inside ↦ ground (arith, (stored.grown.fresh j inside).1)
    | inr outside ↦
        let (resource, buffer) = stored.grown.same j (ground (arith, outside, other)) in
        let (resource', buffer') = alone-others b j c p (ground (arith, other)) in
        rw (opens, resource ∙ resource', buffer ∙ buffer') before
  ]

  -- The reader at the other end finds the message.
  pub Stored-search :
      (c : Config) (b : ℕ) (p q : Pool Resource) (is bytes : List ℕ)
      → Stored c b p q is bytes
      → is_some c.local ≡ true
      → ((i : ℕ) → i < buffer_max → opens (swapped c) p i ≡ false)
      → buffer_search res buffer_max buffer_size (swapped c) q ≡ some b
  unfolding buffer_search
  Stored-search c b p q is bytes stored reads nothing =
      search_only (swapped c) buffer_max 0 b q reads (Stored-opens c b p q is bytes stored)
        stored.grown.free (omega arith) (omega (arith, stored.below))
        (λ j lt other.
          Stored-others c b j p q is bytes (swapped c) stored other (nothing j (omega arith)))

  -- One round of a read at the first buffer.
  read-first :
      (fuel total i : ℕ) (r : Reading) (p : Pool Resource)
      → r.previous ≡ none
      → is_busy (p.resources i) ≡ false
      → (p.buffers i).size ≤ r.remainder
      → read_buffers res buffer_max buffer_size (suc fuel) (some i) total r p
        ≡ read_buffers res buffer_max buffer_size fuel
            (p.buffers i).next
            (total + (p.buffers i).size)
            (record {
              copied = r.copied ++ chunk res buffer_max buffer_size p i;
              remainder = r.remainder - (p.buffers i).size;
              previous = some i;
            })
            p
  unfolding read_buffers copy buffer_release
  read-first fuel total i r p start free fits = ground (arith, start, free, fits)

  release_last_complete :
      (last : ℕ) (r : Reading) (p : Pool Resource)
      → r.remainder ≡ 0
      → r.previous ≡ some last
      → release_last res buffer_max buffer_size r p ≡ (
        record r { previous = none },
        (buffer_release res buffer_max buffer_size (some last) p).1,
      )
  unfolding release_last
  release_last_complete last r p whole behind = rw (release_last, whole, behind) refl

  buffer_read_complete :
      (fuel n b last : ℕ) (d : Config) (r r' : Reading) (q q1 : Pool Resource)
      → r.previous ≡ none
      → buffer_search res buffer_max buffer_size d q ≡ some b
      → read_buffers res buffer_max buffer_size fuel (some b) 0 r q ≡ some (ok n, r', q1)
      → r'.remainder ≡ 0
      → r'.previous ≡ some last
      → buffer_read res buffer_max buffer_size fuel d r q
        ≡ some (
          ok n,
          record r' { previous = none },
          (buffer_release res buffer_max buffer_size (some last) q1).1,
        )
  unfolding buffer_read
  buffer_read_complete fuel n b last d r r' q q1 start found run whole behind =
      simp (buffer_read, start, found, run, release_last_complete last r' q1 whole behind)

  -- A read of the whole message copies it, and all its buffers are free again.
  pub Stored-read :
      (fuel : ℕ) (c : Config) (b : ℕ) (p q : Pool Resource) (is bytes copied : List ℕ)
      → Stored c b p q is bytes
      → is_some c.local ≡ true
      → ((i : ℕ) → i < buffer_max → opens (swapped c) p i ≡ false)
      → length bytes < fuel
      → (q' : Pool Resource) × (buffer_read res buffer_max buffer_size fuel
            (swapped c)
            (record { copied = copied; remainder = length bytes; previous = none })
            q
          ≡ some (
            ok (length bytes),
            record { copied = copied ++ bytes; remainder = 0; previous = none },
            q',
          ))
        × Freed res buffer_max buffer_size (b ∷ is) q q'
  unfolding buffer_read
  Stored-read zero c b p q is bytes copied stored reads nothing enough = absurd (omega arith)
  Stored-read (suc fuel) c b p q is bytes copied stored reads nothing enough =
      let g = stored.grown in
      let r : Reading = record { copied = copied; remainder = length bytes; previous = none } in
      let first = chunk res buffer_max buffer_size q b in
      let empty : chunk res buffer_max buffer_size (alone b c p) b ≡ [] = ground arith in
      let whole : first ++ g.rest ≡ bytes = g.bytes ∙ ap (λ xs. xs ++ bytes) empty in
      let total : (q.buffers b).size + length g.rest ≡ length bytes =
        omega (arith, g.sized, length-append first g.rest, ap length whole) in
      let r1 : Reading = record {
        copied = copied ++ first;
        remainder = length bytes - (q.buffers b).size;
        previous = some b;
      } in
      let (last, q1, run, freed) =
        read-Chain res buffer_max buffer_size fuel (0 + (q.buffers b).size) b r1 q g.chain
          (Stored-used c b p q is bytes stored) refl g.out refl (omega (arith, total))
          (omega (arith, g.few)) in
      (
        (buffer_release res buffer_max buffer_size (some last) q1).1,
        buffer_read_complete (suc fuel) (length bytes) b last (swapped c) r
            (record { copied = copied ++ bytes; remainder = 0; previous = some last }) q q1 refl
            (Stored-search c b p q is bytes stored reads nothing)
            (read-first fuel 0 b r q refl g.free (omega (arith, total))
              ∙ run
              ∙ ground (arith, total, whole, append_assoc copied first g.rest))
            refl refl,
        freed,
      )
