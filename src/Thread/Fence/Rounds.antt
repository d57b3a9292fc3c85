-- ===== src/Thread/Fence/Rounds.antt =====
-- No thread leaves src/libnanvix/thread/fence.c before all have arrived.
use libnanvix.Shared.{
  ℕ, ◌+◌, ◌<◌, ◌≤◌, ◌≡◌, ◌≢◌, refl, inl, inr, Bool, true, not, arith, update, sum_below,
  sum_below-change, sum_below-zero, sum_below-full, sum_below-short, ◌==◌, if◌then◌else◌,
  Bool-cases,
}
use libnanvix.Thread.Fence.{Fence, init, arrive, exits}
use libnanvix.Thread.Fence.System.{
  Pc, outside, spinning, System, calls, arrives, leaves, start, Reach, begins, later,
}

-- 1 for a thread that waits for others to arrive.
abbrev reached : Bool → Pc → ℕ
reached release outside = 0
reached release (spinning l) = if release then (if l then 0 else 1) else (if l then 1 else 0)

-- Where a thread stands when `k` rounds are complete.
abbrev Place : ℕ → Bool → Pc → ℕ → Type 0
Place k release outside rounds = rounds ≡ k
Place k release (spinning l) rounds = rounds + 1 ≡ k + reached release (spinning l)

pub record Inv (n k : ℕ) (s : System) : Type 0 where
  pub cores : s.fence.ncores ≡ n
  pub few : s.fence.nreached < n
  pub counted : sum_below n (λ i. reached s.fence.release (s.pc i)) ≡ s.fence.nreached
  pub places : (i : ℕ) → i < n → Place k s.fence.release (s.pc i) (s.rounds i)

reached-le : (r : Bool) (p : Pc) → reached r p ≤ 1
reached-le r outside = omega arith
reached-le r (spinning l) = ground arith

start-Inv : (n : ℕ) → 0 < n → Inv n 0 (start n)
unfolding init
start-Inv n pos = record {
  cores = refl;
  few = pos;
  counted = sum_below-zero n (λ i. 0) (λ i lt. refl);
  places = λ i lt. refl;
}

count-update :
    (n i : ℕ) (r : Bool) (pc : ℕ → Pc) (p : Pc)
    → i < n
    → sum_below n (λ j. reached r (update pc i p j)) + reached r (pc i)
      ≡ sum_below n (λ j. reached r (pc j)) + reached r p
count-update n i r pc p lt = ground (
  arith,
  sum_below-change n (λ j. reached r (update pc i p j)) (λ j. reached r (pc j)) i
      (λ j ne. ground arith) lt,
)

-- When the last thread arrives, every thread waits for the round to complete.
all-reached :
    {n k : ℕ} {s : System} (i : ℕ) (l : Bool)
    → i < n
    → s.pc i ≡ outside
    → l ≡ not s.fence.release
    → s.fence.nreached + 1 ≡ n
    → Inv n k s
    → (j : ℕ) → j < n
    → reached s.fence.release (update s.pc i (spinning l) j) ≡ 1
all-reached {n} {k} {s} i l lt at flips last v =
    sum_below-full n (λ j. reached s.fence.release (update s.pc i (spinning l) j))
      (λ j. reached-le s.fence.release (update s.pc i (spinning l) j))
      (ground (arith, v.counted, count-update n i s.fence.release s.pc (spinning l) lt))

-- A thread that waits for one value of `release` goes on at the other.
flip-reached : (r : Bool) (p : Pc) → reached r p ≡ 1 → reached (not r) p ≡ 0
flip-reached r outside e = refl
flip-reached r (spinning l) e = ground arith

-- A thread arrives: the last one completes the round.
arrives-Inv :
    {n k : ℕ} {s : System} (i : ℕ) (l : Bool) (b : Fence)
    → i < n
    → s.pc i ≡ outside
    → arrive s.fence ≡ (l, b)
    → Inv n k s
    → (m : ℕ) × Inv n m (record s { fence = b; pc = update s.pc i (spinning l) })
unfolding arrive
arrives-Inv {n} {k} {s} i l b lt at e v = elim (Bool-cases (s.fence.nreached + 1 == n)) [
  | inl last ↦ (
    k + 1,
    record {
      cores = ground (arith, v.cores);
      few = ground (arith, v.cores);
      counted = ground (
        arith,
        v.cores,
        sum_below-zero n (λ j. reached b.release (update s.pc i (spinning l) j))
            (λ j lj. ground (
              arith,
              v.cores,
              everyone j last lj,
              flip-reached s.fence.release (update s.pc i (spinning l) j),
            )),
      );
      places = λ j lj. ground (arith, v.cores, v.places j lj, everyone j last lj);
    },
  )
  | inr more ↦ (
    k,
    record {
      cores = ground (arith, v.cores);
      few = ground (arith, v.cores, v.few);
      counted =
          ground (arith, v.cores, v.counted, count-update n i s.fence.release s.pc (spinning l) lt);
      places = λ j lj. ground (arith, v.cores, v.places j lj);
    },
  )
]
  where
    everyone :
        (j : ℕ)
        → s.fence.nreached + 1 == n ≡ true
        → j < n
        → reached s.fence.release (update s.pc i (spinning l) j) ≡ 1
    everyone j last = all-reached i l lt at (ground arith) (ground arith) v j

leaves-Inv :
    {n k : ℕ} {s : System} (i : ℕ) (l : Bool)
    → i < n
    → s.pc i ≡ spinning l
    → exits l s.fence ≡ true
    → Inv n k s
    → Inv n k (record s { rounds = update s.rounds i (s.rounds i + 1); pc = update s.pc i outside })
unfolding exits
leaves-Inv {n} {k} {s} i l lt at e v = record {
  cores = v.cores;
  few = v.few;
  counted = ground (arith, v.counted, count-update n i s.fence.release s.pc outside lt);
  places = λ j lj. ground (arith, v.places j lj);
}

module _ {n : ℕ} where
  Reach-Inv : {s : System} → 0 < n → Reach n s → (k : ℕ) × Inv n k s
  Reach-Inv pos begins = (0, start-Inv n pos)
  Reach-Inv pos (later r (arrives i l b lt at e)) =
      let (k, v) = Reach-Inv pos r in arrives-Inv i l b lt at e v
  Reach-Inv pos (later r (leaves i l lt at e)) =
      let (k, v) = Reach-Inv pos r in (k, leaves-Inv i l lt at e v)

  -- Nobody passes the fence alone: in every reachable state, a thread has returned from at most as
  -- many calls of fence() as any other thread has made.
  pub rounds-le-calls :
      {s : System}
      → 0 < n
      → Reach n s
      → (i j : ℕ) → i < n
      → j < n
      → s.rounds i ≤ calls (s.pc j) (s.rounds j)
  rounds-le-calls {s} pos r i j li lj =
      let (k, v) = Reach-Inv pos r in
      ground (arith, v.places i li, v.places j lj, reached-le s.fence.release (s.pc i))

  -- The fence does not block for ever: in every reachable state in which all threads are at the loop
  -- of fence(), some thread finds the exit open.
  pub somebody-exits :
      {s : System}
      → 0 < n
      → Reach n s
      → ((i : ℕ) → i < n → s.pc i ≢ outside)
      → (i : ℕ) × (l : Bool) × (i < n) × (s.pc i ≡ spinning l) × (exits l s.fence ≡ true)
  unfolding exits
  somebody-exits {s} pos r inside =
      let (k, v) = Reach-Inv pos r in
      let (i, lt, e) =
        sum_below-short n (λ i. reached s.fence.release (s.pc i))
          (omega (arith, v.counted, v.few)) in
      let (l, at) = spinning-at (s.pc i) (inside i lt) in (i, l, lt, at, ground arith)
    where
      spinning-at : (p : Pc) → p ≢ outside → (l : Bool) × (p ≡ spinning l)
      spinning-at outside h = absurd (h refl)
      spinning-at (spinning l) h = (l, refl)
