-- ===== src/Ikc/Barrier/Progress.antt =====
-- Nodes that are all inside a barrier of src/libnanvix/ikc/barrier.c get out of it.
use libnanvix.Shared.{
  ℕ, zero, suc, ◌-◌, ◌<◌, ◌≡◌, ◌≢◌, refl, List, [], ◌∷◌, arith, ◌⊎◌, inl, inr, ap, ◌∙◌,
}
use native.Mathlib.Decide.{dec_lt}
use libnanvix.Ikc.Barrier.Protocol.{
  Action, wait0, signal0, wait1, signal1, System, Step, signals0, waits0, signals1, waits1, Reach,
}
use libnanvix.Ikc.Barrier.Places.{
  Inv, Leads, Follows, idle, waiting, passing, arriving, arrived, Follows-returned,
}
use libnanvix.Ikc.Barrier.Rounds.{Reach-Inv}

-- The first of the nodes below `n` but 0 with a measure above 0, if there is one.
search_below :
    (n : ℕ) (w : ℕ → ℕ)
    → ((j : ℕ) × (j < n) × (j ≢ 0) × (0 < w j)) ⊎ ((j : ℕ) → j ≢ 0 → j < n → w j ≡ 0)
search_below zero w = inr (λ j h lt. absurd (omega arith))
search_below (suc zero) w = inr (λ j h lt. absurd (omega arith))
search_below (suc (suc n)) w = elim (dec_lt 0 (w (suc n))) [
  | yes here ↦ inl (suc n, omega arith, omega arith, here)
  | no none ↦ elim (search_below (suc n) w) [
    | inl (j, lt, h, found) ↦ inl (j, omega arith, h, found)
    | inr nothing ↦ inr (λ j h lt. ground (arith, nothing j h, none))
  ]
]

-- A follower that has not sent its signal is about to.
unsent : {p : List Action} {c w r : ℕ} → Follows p c w r → w < c → p ≡ signal0 ∷ wait1 ∷ []
unsent (idle a b) h = absurd (omega arith)
unsent (arriving a b) h = refl
unsent (arrived a b) h = absurd (omega arith)

-- One that has sent it, and has not returned, waits.
unreturned :
    {p : List Action} {c w r : ℕ} → Follows p c w r → w ≡ c → p ≢ [] → (p ≡ wait1 ∷ []) × (r < c)
unreturned (idle a b) e h = absurd (h refl)
unreturned (arriving a b) e h = absurd (omega arith)
unreturned (arrived a b) e h = (refl, omega arith)

Leads-cases :
    {p : List Action} {c w r : ℕ}
    → Leads p c w r
    → ((p ≡ []) × (r ≡ c)) ⊎ (((p ≡ wait0 ∷ signal1 ∷ []) × (w < c)) ⊎ (p ≡ signal1 ∷ []))
Leads-cases (idle a b) = inl (refl, b)
Leads-cases (waiting a b) = inr (inl (refl, omega arith))
Leads-cases (passing a b) = inr (inr refl)

module _ {n : ℕ} {s : System} (i c : ℕ) where
  -- The step that is possible once every follower has sent its signal.
  all_sent :
      Inv n s
      → 0 < n
      → i < n
      → s.todo i ≢ []
      → ((j : ℕ) → j < n → s.calls j ≡ c)
      → ((j : ℕ) → j ≢ 0 → j < n → s.calls j - s.sent j ≡ 0)
      → (t : System) × Step n s t × (t.calls ≡ s.calls) × (t.failed ≡ s.failed)
  all_sent v some_node lt inside same sent = elim (Leads-cases v.leads) [
    | inl (out, released) ↦
        let (e, early) =
          unreturned (v.follows i (inside_follower out))
            (omega (
              arith,
              sent i (inside_follower out) lt,
              (Follows-returned (v.follows i (inside_follower out))).1,
            ))
            inside in
        (
          _,
          waits1 i _ lt e (omega (arith, early, released, same 0 some_node, same i lt)),
          refl,
          refl,
        )
    | inr (inl (e, behind)) ↦ (
      _,
      waits0 0 _ some_node e (λ j h below. omega (
        arith,
        behind,
        same 0 some_node,
        same j below,
        sent j h below,
        (Follows-returned (v.follows j h)).1,
      )),
      refl,
      refl,
    )
    | inr (inr e) ↦ (_, signals1 0 _ some_node e, refl, refl)
  ]
    where
      inside_follower : s.todo 0 ≡ [] → i ≢ 0
      inside_follower out e = inside (ap s.todo e ∙ out)

-- Nodes that are inside a barrier are not stuck: if all nodes have made the same number of calls of
-- barrier_wait(), in any order of steps so far in which no call of ksync_wait() or ksync_signal() has
-- failed, and some node has not returned from its last call, then some node can make its next call of
-- ksync_wait() or ksync_signal() with success, with no new call of barrier_wait().
pub not_stuck :
    {n : ℕ} {s : System} (i c : ℕ)
    → Reach n s
    → s.failed ≡ 0
    → i < n
    → s.todo i ≢ []
    → ((j : ℕ) → j < n → s.calls j ≡ c)
    → (t : System) × Step n s t × (t.calls ≡ s.calls) × (t.failed ≡ s.failed)
not_stuck {n} {s} i c r none lt inside same =
    let v = Reach-Inv r none in
    elim (search_below n (λ j. s.calls j - s.sent j)) [
      | inl (j, below, h, behind) ↦
          (_, signals0 j _ below (unsent (v.follows j h) (omega arith)), refl, refl)
      | inr sent ↦ all_sent i c v (omega arith) lt inside same sent
    ]
