-- ===== src/Ikc/Barrier/Protocol.antt =====
-- Nodes 0 to n - 1 that wait on one barrier of src/libnanvix/ikc/barrier.c, interleaved in any order.
-- The synchronization points are what barrier.c relies on: a wait passes if there is a signal left for
-- it from everybody that its point expects. Any call may fail instead: then barrier_wait() goes on with
-- its next call.
use libnanvix.Shared.{
  ℕ, zero, suc, ◌+◌, ◌-◌, ◌<◌, ◌≡◌, ◌≢◌, refl, List, [], ◌∷◌, ◌++◌, some, ok, update, Ret, arith,
}
use libnanvix.Ikc.Barrier.{SyncOps, Barrier, barrier_wait}

-- The calls of ksync_wait() and ksync_signal() on `syncs[0]` and `syncs[1]`.
pub data Action : Type 0 where
  wait0 signal0 wait1 signal1 : Action

abbrev wait_on : ℕ → Action
wait_on zero = wait0
wait_on (suc n) = wait1

abbrev signal_on : ℕ → Action
signal_on zero = signal0
signal_on (suc n) = signal1

-- Synchronization points that write down what is called, and answer it by `reply`.
abbrev writing : (Action → Ret) → SyncOps (List Action)
writing reply = record {
  create = λ nodes type w. (ok 0, w);
  open_output = λ nodes type w. (ok 0, w);
  unlink = λ id w. (ok 0, w);
  close = λ id w. (ok 0, w);
  wait = λ id w. (reply (wait_on id), w ++ wait_on id ∷ []);
  signal = λ id w. (reply (signal_on id), w ++ signal_on id ∷ []);
}

-- The calls that barrier_wait() makes at node `i`, for a barrier whose leader is node 0.
unfoldable pub script : ℕ → List Action
unfolding barrier_wait
script i =
    let b : Barrier = record { leader = some 0; sync0 = some 0; sync1 = some 1 } in
    (barrier_wait (writing (λ a. ok 0)) i b []).1

-- `todo` is what is left of a node's call of barrier_wait(), and `calls` counts its calls. The other
-- fields count the signals that each node has sent to `syncs[0]`, the waits of the leader that have
-- passed, the signals of the leader, the waits of each node on `syncs[1]` that have passed, and the
-- calls that have failed, which leave the others as they are.
pub record System : Type 0 where
  pub todo : ℕ → List Action
  pub calls : ℕ → ℕ
  pub sent : ℕ → ℕ
  pub waited : ℕ
  pub released : ℕ
  pub taken : ℕ → ℕ
  pub failed : ℕ

module _ (n : ℕ) where
  pub data Step (s : System) : System → Type 0 where
    enters :
        (i : ℕ)
        → i < n
        → s.todo i ≡ []
        → Step s (record s {
          todo = update s.todo i (script i);
          calls = update s.calls i (s.calls i + 1);
        })
    signals0 :
        (i : ℕ) (rest : List Action)
        → i < n
        → s.todo i ≡ signal0 ∷ rest
        → Step s (record s { todo = update s.todo i rest; sent = update s.sent i (s.sent i + 1) })
    waits0 :
        (i : ℕ) (rest : List Action)
        → i < n
        → s.todo i ≡ wait0 ∷ rest
        → ((j : ℕ) → j ≢ 0 → j < n → s.waited < s.sent j)
        → Step s (record s { todo = update s.todo i rest; waited = s.waited + 1 })
    signals1 :
        (i : ℕ) (rest : List Action)
        → i < n
        → s.todo i ≡ signal1 ∷ rest
        → Step s (record s { todo = update s.todo i rest; released = s.released + 1 })
    waits1 :
        (i : ℕ) (rest : List Action)
        → i < n
        → s.todo i ≡ wait1 ∷ rest
        → s.taken i < s.released
        → Step s
            (record s { todo = update s.todo i rest; taken = update s.taken i (s.taken i + 1) })
    fails :
        (i : ℕ) (a : Action) (rest : List Action)
        → i < n
        → s.todo i ≡ a ∷ rest
        → Step s (record s { todo = update s.todo i rest; failed = s.failed + 1 })

abbrev pub start : System
start = record {
  todo = λ _. [];
  calls = λ _. 0;
  sent = λ _. 0;
  waited = 0;
  released = 0;
  taken = λ _. 0;
  failed = 0;
}

pub data Reach (n : ℕ) : System → Type 0 where
  begins : Reach n start
  later : {s t : System} → Reach n s → Step n s t → Reach n t

-- The calls that a node has returned from.
abbrev pub returned : System → ℕ → ℕ
returned s i = s.calls i - (elim (s.todo i) [ [] ↦ 0 | _ ↦ 1 ])

-- The leader waits for the others and then releases them; a follower does it the other way round.
pub script-leader : script 0 ≡ wait0 ∷ signal1 ∷ []
unfolding script
script-leader = refl

pub script-follower : (i : ℕ) → i ≢ 0 → script i ≡ signal0 ∷ wait1 ∷ []
unfolding script
script-follower i h = ground arith

-- Whether its calls succeed or fail, barrier_wait() makes the same ones.
script-reply :
    (reply : Action → Ret) (i : ℕ)
    → let b : Barrier = record { leader = some 0; sync0 = some 0; sync1 = some 1 } in
      (barrier_wait (writing reply) i b []).1 ≡ script i
unfolding script
script-reply reply i = ground arith
