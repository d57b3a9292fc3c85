-- ===== src/Thread/WaitQueue/Fifo.antt =====
-- The circular arrays of src/libnanvix/thread implement first-in first-out queues.
use native.Mathlib.Nat.{mod-add-mod, mod-eq_of_lt, mod-lt}
use libnanvix.Shared.{
  ap, sym, ℕ, ◌+◌, ◌%◌, ◌<◌, ◌≤◌, ◌≡◌, refl, ◌∙◌, List, [], ◌∷◌, ◌++◌, Option, none, some, arith,
  length, length-append, update, ◌-◌, ltb, true, none,
}
use libnanvix.Thread.WaitQueue.Defs.{
  WaitQueue, init, enqueue, dequeue, dequeue_clear, enqueue_after, dequeue_after,
}
use libnanvix.Thread.WaitQueue.Slots.{
  Slots, Slots-update_end, Slots-update_before, Slots-snoc, Slots-mod, mod_step,
}

-- The queue holds the threads `xs`, the oldest first. `first` is 0 where `begin` is the slot of
-- the oldest thread, and 1 where it is the slot before.
pub record Holds (first max : ℕ) (q : WaitQueue) (xs : List ℕ) : Type 0 where
  pub fits : length xs ≤ max
  pub counted : q.size ≡ length xs
  pub begins : q.begin < max
  pub ends : q.end ≡ (q.begin + length xs) % max
  pub slots : Slots max q.tids (q.begin + first) xs

pub init-Holds : (first max : ℕ) → 0 < max → Holds first max init []
unfolding init
init-Holds first max pos = record {
  fits = omega arith;
  counted = refl;
  begins = pos;
  ends = grind arith;
  slots = tt;
}

-- The slot behind the last thread moves on by one.
end_step :
    (max e b : ℕ) (xs : List ℕ) (x : ℕ)
    → e ≡ (b + length xs) % max
    → (e + 1) % max ≡ (b + length (xs ++ x ∷ [])) % max
end_step max e b xs x h =
    rw (h, mod_step max (b + length xs), length-append xs (x ∷ []))
      (ap (λ n. n % max) (omega arith))

-- Taking out the oldest thread moves `begin` on and leaves `end` behind the others.
begin_step :
    (max b e : ℕ) (x : ℕ) (xs : List ℕ)
    → e ≡ (b + length (x ∷ xs)) % max
    → e ≡ ((b + 1) % max + length xs) % max
begin_step max b e x xs h =
    rw (h, mod-add-mod (b + 1) max (length xs)) (ap (λ n. n % max) (omega arith))

module _ {max : ℕ} {q : WaitQueue} {xs : List ℕ} (tid : ℕ) (room : length xs < max) where
  -- mutex.c and semaphore.c: a new thread goes to the end.
  pub enqueue-Holds : Holds 0 max q xs → Holds 0 max (enqueue max tid q) (xs ++ tid ∷ [])
  unfolding enqueue
  enqueue-Holds h = record {
    fits = omega (arith, length-append xs (tid ∷ []));
    counted = omega (arith, length-append xs (tid ∷ []));
    begins = h.begins;
    ends = end_step max q.end q.begin xs tid h.ends;
    slots =
        Slots-snoc max (update q.tids q.end (some tid)) (q.begin + 0) xs tid
          (Slots-update_end max q.tids q.end (q.begin + 0) (length xs) (some tid) xs at_end
            (omega arith) room h.slots)
          (ground (arith, at_end));
  }
    where
      at_end : q.end ≡ (q.begin + 0 + length xs) % max
      at_end = h.ends ∙ ap (λ n. n % max) (omega arith)

  -- condvar.c: the same, one slot further.
  pub enqueue_after-Holds :
      Holds 1 max q xs → Holds 1 max (enqueue_after max tid q) (xs ++ tid ∷ [])
  unfolding enqueue_after
  enqueue_after-Holds h = record {
    fits = omega (arith, length-append xs (tid ∷ []));
    counted = omega (arith, length-append xs (tid ∷ []));
    begins = h.begins;
    ends = end_step max q.end q.begin xs tid h.ends;
    slots =
        Slots-snoc max (update q.tids ((q.end + 1) % max) (some tid)) (q.begin + 1) xs tid
          (Slots-update_end max q.tids ((q.end + 1) % max) (q.begin + 1) (length xs) (some tid) xs
            at_end (omega arith) room h.slots)
          (ground (arith, at_end));
  }
    where
      at_end : (q.end + 1) % max ≡ (q.begin + 1 + length xs) % max
      at_end = rw (h.ends, mod_step max (q.begin + length xs)) (ap (λ n. n % max) (omega arith))

-- `r` took the oldest thread out of a queue and left `q` and `xs`; from an empty queue nothing.
abbrev pub Dequeued : ℕ → ℕ → WaitQueue → List ℕ → Option ℕ × WaitQueue → Type 0
Dequeued first max q [] r = r ≡ (none, q)
Dequeued first max q (x ∷ xs) r = (r.0 ≡ some x) × Holds first max r.1 xs

module _ {max : ℕ} {q : WaitQueue} where
  begin_slot :
      (x : ℕ) (xs : List ℕ)
      → Holds 0 max q (x ∷ xs)
      → (q.tids q.begin ≡ some x) × Slots max q.tids ((q.begin + 1) % max + 0) xs
  begin_slot x xs h = (
    rw (← mod-eq_of_lt h.begins) (ap (λ n. q.tids (n % max)) plus_zero ∙ h.slots.0),
    Slots-mod max q.tids ((q.begin + 1) % max + 0) (q.begin + 0 + 1) xs
        (grind (arith, mod-add-mod (q.begin + 1) max 0)) h.slots.1,
  )
    where
      plus_zero : q.begin ≡ q.begin + 0
      plus_zero = omega arith

  -- What is left of `h` when the oldest thread is gone.
  rest :
      (first : ℕ) (x : ℕ) (xs : List ℕ) (tids : ℕ → Option ℕ)
      → Holds first max q (x ∷ xs)
      → Slots max tids ((q.begin + 1) % max + first) xs
      → Holds first max
          (record q { begin = (q.begin + 1) % max; size = q.size - 1; tids = tids })
          xs
  rest first x xs tids h s = record {
    fits = omega (arith, h.fits);
    counted = omega (arith, h.counted);
    begins = mod-lt (q.begin + 1) (omega (arith, h.begins));
    ends = begin_step max q.begin q.end x xs h.ends;
    slots = s;
  }

  -- mutex.c: the oldest thread comes out.
  pub dequeue-Holds : (xs : List ℕ) → Holds 0 max q xs → Dequeued 0 max q xs (dequeue max q)
  unfolding dequeue
  dequeue-Holds [] h = rw h.counted
  dequeue-Holds (x ∷ xs) h =
      rw (ltb-pos) ((begin_slot x xs h).0, rest 0 x xs q.tids h (begin_slot x xs h).1)
    where
      ltb-pos : ltb 0 q.size ≡ true
      ltb-pos = ground (arith, h.counted)

  -- semaphore.c: the same, and the slot is cleared.
  pub dequeue_clear-Holds :
      (xs : List ℕ) → Holds 0 max q xs → Dequeued 0 max q xs (dequeue_clear max q)
  unfolding dequeue_clear
  dequeue_clear-Holds [] h = rw h.counted
  dequeue_clear-Holds (x ∷ xs) h =
      rw ltb-pos ((begin_slot x xs h).0, rest 0 x xs (update q.tids q.begin none) h cleared)
    where
      ltb-pos : ltb 0 q.size ≡ true
      ltb-pos = ground (arith, h.counted)

      cleared : Slots max (update q.tids q.begin none) ((q.begin + 1) % max + 0) xs
      cleared =
          Slots-mod max (update q.tids q.begin none) ((q.begin + 1) % max + 0) (q.begin + 1) xs
            (grind (arith, mod-add-mod (q.begin + 1) max 0))
            (Slots-update_before max q.tids q.begin q.begin (q.begin + 1) 1 none xs
              (sym (mod-eq_of_lt h.begins)) refl (omega arith) (omega (arith, h.fits))
              (Slots-mod max q.tids (q.begin + 1) (q.begin + 0 + 1) xs
                (ap (λ n. n % max) (omega arith)) h.slots.1))

  -- condvar.c: the oldest thread stands one slot further.
  pub dequeue_after-Holds :
      (xs : List ℕ) → Holds 1 max q xs → Dequeued 1 max q xs (dequeue_after max q)
  unfolding dequeue_after
  dequeue_after-Holds [] h = rw h.counted
  dequeue_after-Holds (x ∷ xs) h = rw ltb-pos (
    h.slots.0,
    rest 1 x xs q.tids h (
        Slots-mod max q.tids ((q.begin + 1) % max + 1) (q.begin + 1 + 1) xs
          (mod-add-mod (q.begin + 1) max 1) h.slots.1),
  )
    where
      ltb-pos : ltb 0 q.size ≡ true
      ltb-pos = ground (arith, h.counted)
