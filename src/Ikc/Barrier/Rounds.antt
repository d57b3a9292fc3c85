-- ===== src/Ikc/Barrier/Rounds.antt =====
-- No node leaves a barrier of src/libnanvix/ikc/barrier.c before all nodes have entered it.
use libnanvix.Shared.{
  ℕ, zero, suc, ◌+◌, ◌≤◌, ◌<◌, ◌≡◌, ◌≢◌, refl, List, [], ◌∷◌, ◌==◌, update, arith, inl, inr, sym,
  Bool-cases,
}
use libnanvix.Ikc.Barrier.Protocol.{
  Action, wait0, signal0, wait1, signal1, script, script-leader, script-follower, System, enters,
  signals0, waits0, signals1, waits1, fails, Reach, begins, later, returned,
}
use libnanvix.Ikc.Barrier.Places.{
  Inv, Leads-waits0, Leads-signals1, Leads-other, Follows-signals0, Follows-waits1, Follows-other,
  Leads-enters, Follows-enters, Follows-at, Leads-at, Leads-returned, Follows-returned, idle,
}

module _ {n : ℕ} where
  enters-Inv :
      {s : System} (i : ℕ)
      → s.todo i ≡ []
      → Inv n s
      → Inv n
          (record s { todo = update s.todo i (script i); calls = update s.calls i (s.calls i + 1) })
  enters-Inv {s} zero e v = record {
    leads = Leads-at (Leads-enters v.leads e) (sym script-leader) refl;
    follows = λ j h. Follows-at (v.follows j h) (ground arith) (ground arith) refl refl;
    gathered = v.gathered;
    freed = v.freed;
  }
  enters-Inv {s} (suc i) e v = record {
    leads = Leads-at v.leads (ground arith) (ground arith);
    follows = λ j h. elim (Bool-cases (suc i == j)) [
      | inl same ↦
          Follows-at (Follows-enters (v.follows j h) (ground (arith, e, same)))
            (ground (arith, script-follower j h, same)) (ground arith) refl refl
      | inr other ↦ Follows-at (v.follows j h) (ground arith) (ground arith) refl refl
    ];
    gathered = v.gathered;
    freed = v.freed;
  }

  signals0-Inv :
      {s : System} (i : ℕ) (rest : List Action)
      → s.todo i ≡ signal0 ∷ rest
      → Inv n s
      → Inv n (record s { todo = update s.todo i rest; sent = update s.sent i (s.sent i + 1) })
  signals0-Inv {s} zero rest e v = elim (Leads-other v.leads e) [ inl f ↦ cc | inr f ↦ cc ]
  signals0-Inv {s} (suc i) rest e v = record {
    leads = Leads-at v.leads (ground arith) (ground arith);
    follows = λ j h. elim (Bool-cases (suc i == j)) [
      | inl same ↦
          Follows-at {p = rest} (Follows-signals0 (v.follows j h) (ground (arith, e, same)))
            (ground arith) refl (ground arith) refl
      | inr other ↦ Follows-at (v.follows j h) (ground arith) refl (ground arith) refl
    ];
    gathered = λ j h lt. ground (arith, v.gathered j h lt);
    freed = v.freed;
  }

  waits0-Inv :
      {s : System} (i : ℕ) (rest : List Action)
      → s.todo i ≡ wait0 ∷ rest
      → ((j : ℕ) → j ≢ 0 → j < n → s.waited < s.sent j)
      → Inv n s
      → Inv n (record s { todo = update s.todo i rest; waited = s.waited + 1 })
  waits0-Inv {s} zero rest e all v = record {
    leads = Leads-waits0 v.leads e;
    follows = λ j h. Follows-at (v.follows j h) (ground arith) refl refl refl;
    gathered = λ j h lt. omega (arith, all j h lt);
    freed = v.freed;
  }
  waits0-Inv {s} (suc i) rest e all v = elim (Follows-other (v.follows (suc i) (omega arith)) e) [
    | inl f ↦ cc
    | inr f ↦ cc
  ]

  signals1-Inv :
      {s : System} (i : ℕ) (rest : List Action)
      → s.todo i ≡ signal1 ∷ rest
      → Inv n s
      → Inv n (record s { todo = update s.todo i rest; released = s.released + 1 })
  signals1-Inv {s} zero rest e v = record {
    leads = (Leads-signals1 v.leads e).0;
    follows = λ j h. Follows-at (v.follows j h) (ground arith) refl refl refl;
    gathered = v.gathered;
    freed = λ j h. omega (arith, v.freed j h);
  }
  signals1-Inv {s} (suc i) rest e v = elim (Follows-other (v.follows (suc i) (omega arith)) e) [
    | inl f ↦ cc
    | inr f ↦ cc
  ]

  waits1-Inv :
      {s : System} (i : ℕ) (rest : List Action)
      → s.todo i ≡ wait1 ∷ rest
      → s.taken i < s.released
      → Inv n s
      → Inv n (record s { todo = update s.todo i rest; taken = update s.taken i (s.taken i + 1) })
  waits1-Inv {s} zero rest e lt v = elim (Leads-other v.leads e) [ inl f ↦ cc | inr f ↦ cc ]
  waits1-Inv {s} (suc i) rest e lt v = record {
    leads = Leads-at v.leads (ground arith) (ground arith);
    follows = λ j h. elim (Bool-cases (suc i == j)) [
      | inl same ↦
          Follows-at {p = rest} (Follows-waits1 (v.follows j h) (ground (arith, e, same)))
            (ground arith) refl refl (ground arith)
      | inr other ↦ Follows-at (v.follows j h) (ground arith) refl refl (ground arith)
    ];
    gathered = v.gathered;
    freed = λ j h. ground (arith, v.freed j h);
  }

  pub Reach-Inv : {s : System} → Reach n s → s.failed ≡ 0 → Inv n s
  Reach-Inv begins none = record {
    leads = idle refl refl;
    follows = λ j h. idle refl refl;
    gathered = λ j h lt. omega arith;
    freed = λ j h. omega arith;
  }
  Reach-Inv (later r (enters i lt e)) none = enters-Inv i e (Reach-Inv r none)
  Reach-Inv (later r (signals0 i rest lt e)) none = signals0-Inv i rest e (Reach-Inv r none)
  Reach-Inv (later r (waits0 i rest lt e all)) none = waits0-Inv i rest e all (Reach-Inv r none)
  Reach-Inv (later r (signals1 i rest lt e)) none = signals1-Inv i rest e (Reach-Inv r none)
  Reach-Inv (later r (waits1 i rest lt e free)) none = waits1-Inv i rest e free (Reach-Inv r none)
  Reach-Inv (later r (fails i a rest lt e)) none = absurd (omega arith)

returned-le : {n : ℕ} {s : System} → Inv n s → (i : ℕ) → returned s i ≤ s.released
returned-le v zero = omega (arith, (Leads-returned v.leads).0)
returned-le v (suc i) =
    omega
      (arith, (Follows-returned (v.follows (suc i) (omega arith))).0, v.freed (suc i) (omega arith))

le-calls : {n : ℕ} {s : System} → Inv n s → (j : ℕ) → j < n → s.released ≤ s.calls j
le-calls v zero lt = omega (arith, Leads-returned v.leads)
le-calls v (suc j) lt = omega (
  arith,
  Leads-returned v.leads,
  (Follows-returned (v.follows (suc j) (omega arith))).1,
  v.gathered (suc j) (omega arith) lt,
)

-- No node returns from more calls of barrier_wait() than any other node has made, in any order of
-- the nodes' calls of ksync_wait() and ksync_signal() of which none has failed: if a node has returned
-- from its call number k, every node has entered its own call number k. The synchronization points let
-- a wait on `syncs[0]` pass only if every follower has sent one signal more than waits have passed, and
-- a wait on `syncs[1]` only if the leader has.
pub returned-le-calls :
    {n : ℕ} {s : System} (i j : ℕ) → Reach n s → s.failed ≡ 0 → j < n → returned s i ≤ s.calls j
returned-le-calls i j r none lt =
    let v = Reach-Inv r none in omega (arith, returned-le v i, le-calls v j lt)
