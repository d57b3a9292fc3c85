-- ===== src/Ikc/Barrier/Delay.antt =====
-- barrier_delay() of src/libnanvix/ikc/barrier.c, which a follower's barrier_create() calls behind its
-- calls of ksync_create() and ksync_open().
use libnanvix.Shared.{
  ℕ, zero, suc, ◌+◌, ◌-◌, ◌*◌, ◌%◌, ◌^◌, ◌≤◌, ◌<◌, ◌≡◌, refl, ap, ◌∙◌, Option, none, some,
  minus_u64, ltb, if◌then◌else◌, arith,
}
use native.Mathlib.Decide.{dec_lt}

-- kclock() is a parameter: the number that it leaves in its buffer, a uint64_t.
module _ {W : Type 0} (kclock : W → ℕ × W) where
  -- The loop that asks the clock until `cycles` cycles have gone by, for at most `fuel` calls.
  unfoldable pub wait_cycles : ℕ → (t0 cycles : ℕ) → W → Option W
  wait_cycles zero t0 cycles w = none
  wait_cycles (suc fuel) t0 cycles w =
      let (t1, w') = kclock w in
      let rest = wait_cycles fuel t0 cycles w' in
      if ltb (minus_u64 t1 t0) cycles then rest else some w'

  unfoldable pub barrier_delay : ℕ → (times cycles : ℕ) → W → Option W
  unfolding wait_cycles
  barrier_delay fuel zero cycles w = some w
  barrier_delay fuel (suc times) cycles w =
      let (t0, w') = kclock w in
      elim (wait_cycles fuel t0 cycles w') [
        | none ↦ none
        | some w'' ↦ barrier_delay fuel times cycles w''
      ]

  -- The clock shows the time modulo 2^64, and each call takes 1 to `step` cycles.
  pub record IsClock (time : W → ℕ) (step : ℕ) : Type 0 where
    pub shows : (w : W) → (kclock w).0 ≡ time w % 2 ^ 64
    pub ticks : (w : W) → time w < time (kclock w).1
    pub bounded : (w : W) → time (kclock w).1 ≤ time w + step

  elapsed : (a b : ℕ) → a ≤ b → b - a < 2 ^ 64 → minus_u64 (b % 2 ^ 64) (a % 2 ^ 64) ≡ b - a
  elapsed a b le near = omega arith

  wait_cycles-waits :
      (fuel a cycles step : ℕ) (w : W) (time : W → ℕ)
      → IsClock time step
      → cycles + step < 2 ^ 64
      → a ≤ time w
      → time w ≤ a + (cycles + step)
      → 0 < fuel
      → a + cycles < time w + fuel
      → (w' : W) × (wait_cycles fuel (a % 2 ^ 64) cycles w ≡ some w') × (a + cycles ≤ time w')
  unfolding wait_cycles
  wait_cycles-waits zero a cycles step w time clock small before near some_fuel enough =
      absurd (omega arith)
  wait_cycles-waits (suc fuel) a cycles step w time clock small before near some_fuel enough =
      let w' = (kclock w).1 in
      let shown : minus_u64 (kclock w).0 (a % 2 ^ 64) ≡ time w - a =
        ap (λ t. minus_u64 t (a % 2 ^ 64)) (clock.shows w)
        ∙ elapsed a (time w) before (omega arith) in
      elim (dec_lt (time w - a) cycles) [
        | no over ↦ (w', ground (arith, shown, over), omega (arith, clock.ticks w, over))
        | yes under ↦
            let (w'', run, late) =
              wait_cycles-waits fuel a cycles step w' time clock small
                (omega (arith, clock.ticks w)) (omega (arith, clock.bounded w, under))
                (omega (arith, under, enough)) (omega (arith, clock.ticks w, enough)) in
            (w'', ground (arith, shown, under, run), late)
      ]

  barrier_delay-next :
      (fuel times cycles t : ℕ) (w w1 : W)
      → (kclock w).0 ≡ t
      → wait_cycles fuel t cycles (kclock w).1 ≡ some w1
      → barrier_delay fuel (suc times) cycles w ≡ barrier_delay fuel times cycles w1
  unfolding barrier_delay
  barrier_delay-next fuel times cycles t w w1 shows run = rw (barrier_delay, shows, run) refl

  -- The delay ends, and not too early: if each call of kclock() takes 1 to `step` cycles and the sum of
  -- `step` and `cycles` fits into a uint64_t, then with fuel above the number of cycles it returns, and at
  -- least `times` times as many cycles have gone by as it was asked for, whether the clock wraps around
  -- meanwhile or not.
  pub barrier_delay-waits :
      (fuel times cycles step : ℕ) (w : W) (time : W → ℕ)
      → IsClock time step
      → cycles + step < 2 ^ 64
      → cycles < fuel
      → (w' : W) × (barrier_delay fuel times cycles w ≡ some w')
        × (time w + times * cycles ≤ time w')
  unfolding barrier_delay
  barrier_delay-waits fuel zero cycles step w time clock small enough = (w, refl, omega arith)
  barrier_delay-waits fuel (suc times) cycles step w time clock small enough =
      let (w1, run, late) =
        wait_cycles-waits fuel (time w) cycles step (kclock w).1 time clock small
          (omega (arith, clock.ticks w)) (omega (arith, clock.bounded w)) (omega arith)
          (omega (arith, clock.ticks w, enough)) in
      let (w2, rest, later) =
        barrier_delay-waits fuel times cycles step w1 time clock small enough in
      (
        w2,
        barrier_delay-next fuel times cycles (time w % 2 ^ 64) w w1 (clock.shows w) run ∙ rest,
        omega (arith, late, later),
      )
