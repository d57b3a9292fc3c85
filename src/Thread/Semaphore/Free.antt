-- ===== src/Thread/Semaphore/Free.antt =====
-- The slots of the semaphore's queue that hold no waiting thread are -1, so the checks of the debug
-- build hold.
use native.Mathlib.Nat.{mod-add-mod, mod-lt}
use native.Mathlib.Nat.{add-zero}
use native.Mathlib.Decide.{dec_lt}
use libnanvix.Shared.{
  ℕ, zero, suc, ◌+◌, ◌-◌, ◌%◌, ◌<◌, ◌≤◌, ◌≡◌, ◌≢◌, refl, ap, ◌∙◌, List, [], ◌∷◌, true, false,
  Option, none, some, arith, length, count, ltb, Bool-cases, inl, inr,
}
use libnanvix.Thread.WaitQueue.{WaitQueue, init, enqueue, dequeue_clear}
use libnanvix.Thread.WaitQueue.Slots.{Slots, mod-ne}
use libnanvix.Thread.WaitQueue.Fifo.{Holds}
use libnanvix.Thread.Semaphore.{is_queued, may_queue}

-- The slots from `first` on behind `begin` are -1.
pub record Free (max : ℕ) (q : WaitQueue) : Type 0 where
  pub free : (d : ℕ) → q.size ≤ d → d < max → q.tids ((q.begin + d) % max) ≡ none

pub init-Free : (max : ℕ) → Free max init
unfolding init
init-Free max = record { free = λ d le lt. refl }

slot-ne : (max b i j : ℕ) → i < j → j < max → (b + j) % max ≢ (b + i) % max
slot-ne max b i j lt fits e =
    mod-ne max (b + i) (j - i) (omega arith) (omega arith) (ap (λ n. n % max) (omega arith) ∙ e)

pub enqueue-Free :
    (max tid : ℕ) (q : WaitQueue) (xs : List ℕ)
    → Holds 0 max q xs
    → Free max q
    → Free max (enqueue max tid q)
unfolding enqueue
enqueue-Free max tid q xs h f = record {
  free = λ d le lt. ground (
    arith,
    f.free d (omega arith) lt,
    slot-ne max q.begin (length xs) d (omega (arith, h.counted)) lt,
    h.ends,
  );
}

-- The slot `d` behind the new `begin`, seen from the old one.
next_slot : (max b d : ℕ) → ((b + 1) % max + d) % max ≡ (b + (d + 1)) % max
next_slot max b d = mod-add-mod (b + 1) max d ∙ ap (λ n. n % max) (omega arith)

last_slot : (max b : ℕ) → b < max → (b + max) % max ≡ b
last_slot max b lt = grind arith

pub dequeue_clear-Free :
    (max : ℕ) (q : WaitQueue) → q.begin < max → Free max q → Free max (dequeue_clear max q).1
unfolding dequeue_clear
dequeue_clear-Free max q in_range f = elim (Bool-cases (ltb 0 q.size)) [
  | inr e ↦ rw e f
  | inl e ↦ rw e (record {
    free = λ d le lt. rw (next_slot max q.begin d) (elim (dec_lt (d + 1) max) [
      | yes inner ↦ ground (arith, f.free (d + 1) (ground arith) inner)
      | no last ↦
          ground (
            arith,
            last_slot max q.begin in_range,
            ap (λ n. (q.begin + n) % max) (at_max d lt last),
          )
    ]);
  })
]
  where
    at_max : (d : ℕ) → d < max → ¬ (d + 1 < max) → d + 1 ≡ max
    at_max d lt last = omega arith

-- A slot that holds a thread holds one of the queue.
Slots-count :
    (max : ℕ) (tids : ℕ → Option ℕ) (k d : ℕ) (xs : List ℕ) (t : ℕ)
    → Slots max tids k xs
    → d < length xs
    → tids ((k + d) % max) ≡ some t
    → 0 < count t xs
Slots-count max tids k d [] t s lt e = absurd (omega arith)
Slots-count max tids k zero (x ∷ xs) t s lt e =
    ground (arith, s.0, ap (λ n. tids (n % max)) (add-zero k))
Slots-count max tids k (suc d) (x ∷ xs) t s lt e = ground (
  arith,
  Slots-count max tids (k + 1) d xs t s.1 (omega arith) (ap (λ n. tids (n % max)) (shift k d) ∙ e),
)
  where
    shift : (k d : ℕ) → k + 1 + d ≡ k + suc d
    shift k d = omega arith

-- Every slot is at some distance behind `begin`.
distance : (max b j : ℕ) → b < max → j < max → (b + (j + max - b) % max) % max ≡ j
distance max b j lb lj = grind arith

stored-count :
    (max : ℕ) (q : WaitQueue) (xs : List ℕ) (j t : ℕ)
    → Holds 0 max q xs
    → Free max q
    → j < max
    → q.tids j ≡ some t
    → 0 < count t xs
stored-count max q xs j t h f lt e = elim (dec_lt d (length xs)) [
  | yes inside ↦
      Slots-count max q.tids (q.begin + 0) d xs t h.slots inside
        (ap (λ n. q.tids ((n + d) % max)) (add-zero q.begin) ∙ ap q.tids at ∙ e)
  | no outside ↦ absurd (
      ground (
        arith,
        f.free d (omega (arith, h.counted)) (mod-lt (j + max - q.begin) (omega arith)),
        ap q.tids at,
      ))
]
  where
    d : ℕ
    d = (j + max - q.begin) % max

    at : (q.begin + d) % max ≡ j
    at = distance max q.begin j h.begins lt

is_queued-false :
    (tid k : ℕ) (q : WaitQueue)
    → ((j : ℕ) → j < k → q.tids j ≢ some tid)
    → is_queued k tid q ≡ false
unfolding is_queued
is_queued-false tid zero q h = refl
is_queued-false tid (suc k) q h =
    ground (arith, h k, is_queued-false tid k q (λ j lt. h j (omega arith)))

-- The checks of the debug build hold for a thread that is not in the queue, if there is room.
pub may_queue-true :
    (max tid : ℕ) (q : WaitQueue) (xs : List ℕ)
    → Holds 0 max q xs
    → Free max q
    → count tid xs ≡ 0
    → length xs < max
    → may_queue max tid q ≡ true
unfolding may_queue
may_queue-true max tid q xs h f new room = ground (
  arith,
  h.counted,
  is_queued-false tid max q (λ j lt e. omega (arith, stored-count max q xs j tid h f lt e)),
  f.free (length xs),
  h.ends,
)
