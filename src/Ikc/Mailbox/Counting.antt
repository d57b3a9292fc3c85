-- ===== src/Ikc/Mailbox/Counting.antt =====
-- The counters of src/libnanvix/ikc/mailbox.c count the calls that succeeded.
use libnanvix.Shared.{
  ℕ, ◌+◌, ◌%◌, ◌^◌, ◌<◌, ◌≡◌, ap, Bool, true, false, List, [], ◌∷◌, ℤ, Ret, ok, fail, if◌then◌else◌,
  arith,
}
use libnanvix.Kernel.{Kernel}
use libnanvix.Ikc.Mailbox.{World, Counters, no_calls, create, open_remote, unlink, close}

pub data Call : Type 0 where
  creates opens : ℤ → ℤ → Call
  unlinks closes : ℤ → Call

abbrev pub is_create : Call → Bool
is_create (creates _ _) = true
is_create _ = false

abbrev pub is_open : Call → Bool
is_open (opens _ _) = true
is_open _ = false

abbrev pub is_unlink : Call → Bool
is_unlink (unlinks _) = true
is_unlink _ = false

abbrev pub is_close : Call → Bool
is_close (closes _) = true
is_close _ = false

-- 1 for a call of the given kind that did not fail.
abbrev pub success : (Call → Bool) → Call → Ret → ℕ
success kind call (ok _) = if kind call then 1 else 0
success kind call (fail _) = 0

module _ (k : Kernel) (port_nr message_size : ℕ) where
  open k use {State}

  pub perform : Call → World State → Ret × World State
  perform (creates local port) = create k port_nr message_size local port
  perform (opens remote port) = open_remote k port_nr message_size remote port
  perform (unlinks mbxid) = unlink k port_nr message_size mbxid
  perform (closes mbxid) = close k port_nr message_size mbxid

  unfoldable pub run : List Call → World State → World State
  unfolding perform
  run [] w = w
  run (c ∷ cs) w = run cs (perform c w).1

  -- The calls of a kind that succeed in a run.
  unfoldable pub successes : (Call → Bool) → List Call → World State → ℕ
  unfolding perform
  successes kind [] w = 0
  successes kind (c ∷ cs) w = success kind c (perform c w).0 + successes kind cs (perform c w).1

  -- What one call does to each of the counters.
  record Counts (c : Call) (w : World State) : Type 0 where
    creates_by :
        (w.counters.ncreates < 2 ^ 64)
        → (perform c w).1.counters.ncreates
          ≡ (w.counters.ncreates + success is_create c (perform c w).0) % 2 ^ 64
    opens_by :
        (w.counters.nopens < 2 ^ 64)
        → (perform c w).1.counters.nopens
          ≡ (w.counters.nopens + success is_open c (perform c w).0) % 2 ^ 64
    unlinks_by :
        (w.counters.nunlinks < 2 ^ 64)
        → (perform c w).1.counters.nunlinks
          ≡ (w.counters.nunlinks + success is_unlink c (perform c w).0) % 2 ^ 64
    closes_by :
        (w.counters.ncloses < 2 ^ 64)
        → (perform c w).1.counters.ncloses
          ≡ (w.counters.ncloses + success is_close c (perform c w).0) % 2 ^ 64

  perform-Counts : (c : Call) (w : World State) → Counts c w
  unfolding perform create open_remote unlink close
  perform-Counts (creates local port) w = record {
    creates_by = λ h. ground arith;
    opens_by = λ h. ground arith;
    unlinks_by = λ h. ground arith;
    closes_by = λ h. ground arith;
  }
  perform-Counts call w = record {
    creates_by = λ h. ground arith;
    opens_by = λ h. ground arith;
    unlinks_by = λ h. ground arith;
    closes_by = λ h. ground arith;
  }

  run-counter :
      (counter : Counters → ℕ) (kind : Call → Bool)
      → ((c : Call) (w : World State)
          → counter w.counters < 2 ^ 64
          → counter (perform c w).1.counters
            ≡ (counter w.counters + success kind c (perform c w).0) % 2 ^ 64)
      → (cs : List Call) (w : World State) → counter w.counters < 2 ^ 64
      → counter (run cs w).counters ≡ (counter w.counters + successes kind cs w) % 2 ^ 64
  unfolding run successes
  run-counter counter kind one [] w small = omega arith
  run-counter counter kind one (c ∷ cs) w small = omega (
    arith,
    one c w small,
    run-counter counter kind one cs (perform c w).1 (omega (arith, one c w small)),
  )

  -- After any sequence of calls of create, open, unlink and close from counters at 0, each of the
  -- four counters is the number of calls of its kind that succeeded, modulo 2^64.
  pub counters-count :
      (cs : List Call) (w : World State)
      → w.counters ≡ no_calls
      → let c = (run cs w).counters in
        (c.ncreates ≡ successes is_create cs w % 2 ^ 64)
        × (c.nopens ≡ successes is_open cs w % 2 ^ 64)
        × (c.nunlinks ≡ successes is_unlink cs w % 2 ^ 64)
        × (c.ncloses ≡ successes is_close cs w % 2 ^ 64)
  counters-count cs w e = (
    omega (
      arith,
      ap (λ (c : Counters). c.ncreates) e,
      run-counter (λ c. c.ncreates) is_create (λ c v. (perform-Counts c v).creates_by) cs w,
    ),
    omega (
      arith,
      ap (λ (c : Counters). c.nopens) e,
      run-counter (λ c. c.nopens) is_open (λ c v. (perform-Counts c v).opens_by) cs w,
    ),
    omega (
      arith,
      ap (λ (c : Counters). c.nunlinks) e,
      run-counter (λ c. c.nunlinks) is_unlink (λ c v. (perform-Counts c v).unlinks_by) cs w,
    ),
    omega (
      arith,
      ap (λ (c : Counters). c.ncloses) e,
      run-counter (λ c. c.ncloses) is_close (λ c v. (perform-Counts c v).closes_by) cs w,
    ),
  )
