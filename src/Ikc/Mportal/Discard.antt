-- ===== src/Ikc/Mportal/Discard.antt =====
-- What kportal_buffer_read() of src/libnanvix/ikc/mportal.c does with the buffers of a message that is
-- longer than the read.
use libnanvix.Shared.{
  ℕ, zero, suc, ◌<◌, ◌≡◌, ◌≢◌, ◌↔◌, ◌⊎◌, refl, ◌∙◌, ap, subst, Bool, true, false, not, ◌&&◌, Option,
  none, some, fail, einval, Bool-cases, inl, inr, is_some, sym, ltb, ◌==◌, if◌then◌else◌, arith,
}
use libnanvix.Ikc.Resource.{Resources}
use libnanvix.Ikc.Mportal.Pieces.{Config}
use libnanvix.Ikc.Mportal.Buffers.{
  Pool, same_id, search_from, buffer_search, buffer_release, discard,
}
use libnanvix.Ikc.Mportal.Local.{Reading, too_large, read_buffers, buffer_read}

-- The ways out of a round of a search that does not stop.
skips_or_takes :
    (other alone unfit : Bool) (stop skipped taken : Option ℕ) (k : ℕ)
    → alone ≡ false
    → (if other then skipped else if alone then stop else if unfit then skipped else taken) ≡ some k
    → (skipped ≡ some k) ⊎ (taken ≡ some k)
skips_or_takes true alone unfit stop skipped taken k reads e = inl e
skips_or_takes false alone true stop skipped taken k reads e = inl (ground (arith, reads, e))
skips_or_takes false alone false stop skipped taken k reads e = inr (ground (arith, reads, e))

module _ (res : Resources) (buffer_max buffer_size : ℕ) where
  open res use {Resource, is_used, is_busy}

  -- A release changes one buffer only.
  buffer_release-others :
      (i j : ℕ) (p : Pool Resource)
      → (i == j) ≡ false
      → let q = (buffer_release res buffer_max buffer_size (some i) p).1 in
        (q.resources j ≡ p.resources j) × (q.buffers j ≡ p.buffers j)
  unfolding buffer_release
  buffer_release-others i j p other = (ground (arith, other), ground (arith, other))

  -- The loop releases the first buffer, and then finds it free.
  discard-release :
      (i : ℕ) (p : Pool Resource)
      → discard res buffer_max buffer_size 2 i p
        ≡ some (buffer_release res buffer_max buffer_size (some i) p).1
  unfolding discard buffer_release
  discard-release i p = ground (arith, res.used-set_unused (p.resources i))

  -- One round of the loop of do_kportal_buffer_search() for a portal that reads: it goes on with the
  -- buffer found so far, or with this one, which is the first one of a message.
  search_from-round :
      (c : Config) (n i : ℕ) (best : Option ℕ) (p : Pool Resource) (k : ℕ)
      → is_some c.remote ≡ true
      → search_from res buffer_max buffer_size c (suc n) i best p ≡ some k
      → (search_from res buffer_max buffer_size c n (suc i) best p ≡ some k)
        ⊎ (((p.buffers i).seq ≡ 0)
            × (search_from res buffer_max buffer_size c n (suc i) (some i) p ≡ some k))
  unfolding search_from
  search_from-round c n i best p k reads e = elim (Bool-cases ((p.buffers i).seq == 0)) [
    | inl start ↦
        let buf = p.buffers i in
        let mine =
          is_used (p.resources i)
          && same_id c.local buf.config.remote
          && same_id c.local_port buf.config.remote_port in
        let older : Bool = elim best [ none ↦ false | some b ↦ ltb (p.buffers b).age buf.age ] in
        let readable =
          same_id c.remote buf.config.local
          && same_id c.remote_port buf.config.local_port
          && (buf.seq == 0)
          && not older
          && not (is_busy (p.resources i)) in
        elim (skips_or_takes (not mine) (not (is_some c.remote)) (not readable) (some i) _ _ k
          (rw reads refl) e) [
            | inl skips ↦ inl skips
            | inr takes ↦ inr (ground (arith, start), takes)
          ]
    | inr behind ↦ inl (ground (arith, reads, behind, e))
  ]

  search_from-first :
      (c : Config) (n i : ℕ) (best : Option ℕ) (p : Pool Resource) (k : ℕ)
      → is_some c.remote ≡ true
      → ((b : ℕ) → best ≡ some b → (p.buffers b).seq ≡ 0)
      → search_from res buffer_max buffer_size c n i best p ≡ some k
      → (p.buffers k).seq ≡ 0
  unfolding search_from
  search_from-first c zero i best p k reads first e = first k e
  search_from-first c (suc n) i best p k reads first e =
      elim (search_from-round c n i best p k reads e) [
        | inl skips ↦ search_from-first c n (suc i) best p k reads first skips
        | inr (start, takes) ↦
            search_from-first c n (suc i) (some i) p k reads
              (λ b e. subst (λ x. (p.buffers x).seq ≡ 0) (ground (arith, e)) start) takes
      ]

  -- The buffers that reads can get to: those that a search of a portal with a remote finds, and those
  -- that follow them.
  pub data Readable (p : Pool Resource) : ℕ → Type 0 where
    searched :
        (d : Config) (k : ℕ)
        → is_some d.remote ≡ true
        → buffer_search res buffer_max buffer_size d p ≡ some k
        → Readable p k
    followed : (k m : ℕ) → Readable p k → (p.buffers k).next ≡ some m → Readable p m

  -- A released buffer leads nowhere, and the others lead where they led.
  buffer_release-next :
      (i k m : ℕ) (p : Pool Resource)
      → ((buffer_release res buffer_max buffer_size (some i) p).1.buffers k).next ≡ some m
      → ((p.buffers k).next ≡ some m) × (is_used (p.resources i) ≡ true → k ≢ i)
  unfolding buffer_release
  buffer_release-next i k m p e = (ground (arith, e), λ used same. ground (arith, used, e, same))

  -- Without the link to it, a buffer that is not the first of its message is out of reach.
  unlinked :
      (p : Pool Resource) (j k : ℕ)
      → 0 < (p.buffers j).seq
      → ((k : ℕ) → (p.buffers k).next ≢ some j)
      → k ≡ j
      → ¬ (Readable p k)
  unfolding buffer_search
  unlinked p j k rest alone same (searched d _ reads found) =
      let seq = search_from-first d buffer_max 0 none p k reads (λ b e. cc e) found in
      ground (arith, rest, seq, same)
  unlinked p j k rest alone same (followed b _ r link) = alone b (link ∙ ap some same)

  -- A read that is too short for a message leaks buffers of it: when kportal_buffer_read() goes on from
  -- buffer `a` to the next buffer `i`, which is in use, not busy, not the first of its message, and
  -- larger than what is left to read, and buffer `i`, and no other, leads on to a buffer `j` in use that
  -- is not the first of its message either, then it returns -EINVAL, `j` is still in use, no buffer
  -- leads to `j` any more, and neither a search of a portal with a remote nor the way from the buffers
  -- that these searches find gets to `j`.
  pub short_read-leaks :
      (fuel : ℕ) (c : Config) (a i j : ℕ) (r : Reading) (p : Pool Resource)
      → r.previous ≡ some a
      → (p.buffers a).next ≡ some i
      → is_used (p.resources i) ≡ true
      → is_busy (p.resources i) ≡ false
      → r.remainder < (p.buffers i).size
      → 0 < (p.buffers i).seq
      → ((k : ℕ) → ((p.buffers k).next ≡ some j) ↔ (k ≡ i))
      → is_used (p.resources j) ≡ true
      → 0 < (p.buffers j).seq
      → i ≢ j
      → a ≢ j
      → (q : Pool Resource) × (buffer_read res buffer_max buffer_size (suc fuel) c r p
          ≡ some (fail einval, record r { previous = none }, q))
        × (is_used (q.resources j) ≡ true)
        × ((k : ℕ) → (q.buffers k).next ≢ some j)
        × ¬ (Readable q j)
  unfolding buffer_read read_buffers too_large
  short_read-leaks fuel c a i j r p behind next taken free large later leads used rest not_i not_a =
      let q = (buffer_release res buffer_max buffer_size (some i) p).1 in
      let q' = (buffer_release res buffer_max buffer_size (some a) q).1 in
      let (resource, buffer) = buffer_release-others i j p (ground (arith, not_i)) in
      let (resource', buffer') = buffer_release-others a j q (ground (arith, not_a)) in
      let cut : (k : ℕ) → (q'.buffers k).next ≢ some j = λ k e.
        let (link, other) = buffer_release-next i k j p (buffer_release-next a k j q e).0 in
        other taken ((leads k).0 link) in
      (
        q',
        ground (arith, behind, next, free, large, later, discard-release i p),
        ap is_used (resource' ∙ resource) ∙ used,
        cut,
        unlinked q' j j (subst (λ b. 0 < b.seq) (sym (buffer' ∙ buffer)) rest) cut refl,
      )
