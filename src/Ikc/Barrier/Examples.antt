-- ===== src/Ikc/Barrier/Examples.antt =====
-- Two nodes that go through one barrier, and the theorems of Barrier at them.
use libnanvix.Shared.{ℕ, ◌+◌, ◌*◌, ◌%◌, ◌^◌, some, ◌≤◌, ◌≡◌, refl, [], ◌∷◌, update, arith}
use libnanvix.Ikc.Barrier.Protocol.{
  wait1, signal1, script, System, Step, enters, signals0, waits0, signals1, Reach, begins, later,
  start, returned,
}
use libnanvix.Ikc.Barrier.Rounds.{returned-le-calls}
use libnanvix.Ikc.Barrier.Delay.{barrier_delay, barrier_delay-waits}
use libnanvix.Ikc.Barrier.Progress.{not_stuck}

-- The follower enters and signals, and then the leader enters.
abbrev entered : System
entered = record start { todo = update start.todo 1 (script 1); calls = update start.calls 1 1 }

abbrev signalled : System
signalled = record entered {
  todo = update entered.todo 1 (wait1 ∷ []);
  sent = update entered.sent 1 1;
}

abbrev both_inside : System
both_inside = record signalled {
  todo = update signalled.todo 0 (script 0);
  calls = update signalled.calls 0 1;
}

-- The leader gathers the follower and releases it; its call is over.
abbrev gathered : System
gathered = record both_inside { todo = update both_inside.todo 0 (signal1 ∷ []); waited = 1 }

abbrev freed : System
freed = record gathered { todo = update gathered.todo 0 []; released = 1 }

all_inside : Reach 2 both_inside
unfolding script
all_inside =
    later (later (later begins (enters 1 (omega arith) refl)) (signals0 1 _ (omega arith) refl))
      (enters 0 (omega arith) refl)

leader_out : Reach 2 freed
unfolding script
leader_out =
    later (later all_inside (waits0 0 _ (omega arith) refl (λ j h lt. ground arith)))
      (signals1 0 _ (omega arith) refl)

returned-le-calls_example : returned freed 0 ≤ 1
returned-le-calls_example = returned-le-calls 0 1 leader_out refl (omega arith)

not_stuck_example :
    (t : System) × Step 2 both_inside t
    × (t.calls ≡ both_inside.calls)
    × (t.failed ≡ both_inside.failed)
unfolding script
not_stuck_example = not_stuck 0 1 all_inside refl (omega arith) (λ e. cc e) (λ j lt. ground arith)

-- A clock that each call moves on by three cycles.
abbrev clock : ℕ → ℕ × ℕ
clock t = (t % 2 ^ 64, t + 3)

barrier_delay-waits_example :
    (w : ℕ) × (barrier_delay clock 11 2 10 100 ≡ some w) × (100 + 2 * 10 ≤ w)
barrier_delay-waits_example =
    barrier_delay-waits clock 11 2 10 3 100 (λ t. t)
      (record { shows = λ t. refl; ticks = λ t. omega arith; bounded = λ t. omega arith })
      (omega arith) (omega arith)
