-- ===== src/Ikc/Barrier/Places.antt =====
-- Where the nodes stand in barrier_wait() of src/libnanvix/ikc/barrier.c, and what moves them.
use libnanvix.Shared.{ℕ, ◌+◌, ◌-◌, ◌≤◌, ◌<◌, ◌≡◌, ◌≢◌, List, [], ◌∷◌, arith, ◌⊎◌, inl, inr, subst}
use libnanvix.Ikc.Barrier.Protocol.{Action, wait0, signal0, wait1, signal1, System}

-- Where a node stands in its call, and what it has done by then.
pub data Leads : List Action → (calls waited released : ℕ) → Type 0 where
  idle : {c w r : ℕ} → w ≡ c → r ≡ c → Leads [] c w r
  waiting : {c w r : ℕ} → w + 1 ≡ c → r + 1 ≡ c → Leads (wait0 ∷ signal1 ∷ []) c w r
  passing : {c w r : ℕ} → w ≡ c → r + 1 ≡ c → Leads (signal1 ∷ []) c w r

pub data Follows : List Action → (calls sent taken : ℕ) → Type 0 where
  idle : {c w r : ℕ} → w ≡ c → r ≡ c → Follows [] c w r
  arriving : {c w r : ℕ} → w + 1 ≡ c → r + 1 ≡ c → Follows (signal0 ∷ wait1 ∷ []) c w r
  arrived : {c w r : ℕ} → w ≡ c → r + 1 ≡ c → Follows (wait1 ∷ []) c w r

pub record Inv (n : ℕ) (s : System) : Type 0 where
  pub leads : Leads (s.todo 0) (s.calls 0) s.waited s.released
  pub follows : (i : ℕ) → i ≢ 0 → Follows (s.todo i) (s.calls i) (s.sent i) (s.taken i)
  pub gathered : (i : ℕ) → i ≢ 0 → i < n → s.waited ≤ s.sent i
  pub freed : (i : ℕ) → i ≢ 0 → s.taken i ≤ s.released

-- What each action makes of a node's place.
pub Leads-waits0 :
    {p rest : List Action} {c w r : ℕ} → Leads p c w r → p ≡ wait0 ∷ rest → Leads rest c (w + 1) r
Leads-waits0 (idle a b) e = cc
Leads-waits0 {rest} {c} {w} {r} (waiting a b) e =
    subst (λ q. Leads q c (w + 1) r) (cc e) (passing a b)
Leads-waits0 (passing a b) e = cc

pub Leads-signals1 :
    {p rest : List Action} {c w r : ℕ}
    → Leads p c w r
    → p ≡ signal1 ∷ rest
    → Leads rest c w (r + 1) × (r < w)
Leads-signals1 (idle a b) e = cc
Leads-signals1 (waiting a b) e = cc
Leads-signals1 {rest} {c} {w} {r} (passing a b) e =
    (subst (λ q. Leads q c w (r + 1)) (cc e) (idle a b), omega arith)

pub Leads-other :
    {p rest : List Action} {c w r : ℕ} {a : Action}
    → Leads p c w r
    → p ≡ a ∷ rest
    → (a ≡ wait0) ⊎ (a ≡ signal1)
Leads-other (idle a b) e = cc
Leads-other (waiting a b) e = inl (cc e)
Leads-other (passing a b) e = inr (cc e)

pub Follows-signals0 :
    {p rest : List Action} {c w r : ℕ}
    → Follows p c w r
    → p ≡ signal0 ∷ rest
    → Follows rest c (w + 1) r
Follows-signals0 (idle a b) e = cc
Follows-signals0 {rest} {c} {w} {r} (arriving a b) e =
    subst (λ q. Follows q c (w + 1) r) (cc e) (arrived a b)
Follows-signals0 (arrived a b) e = cc

pub Follows-waits1 :
    {p rest : List Action} {c w r : ℕ}
    → Follows p c w r
    → p ≡ wait1 ∷ rest
    → Follows rest c w (r + 1)
Follows-waits1 (idle a b) e = cc
Follows-waits1 (arriving a b) e = cc
Follows-waits1 {rest} {c} {w} {r} (arrived a b) e =
    subst (λ q. Follows q c w (r + 1)) (cc e) (idle a b)

pub Follows-other :
    {p rest : List Action} {c w r : ℕ} {a : Action}
    → Follows p c w r
    → p ≡ a ∷ rest
    → (a ≡ signal0) ⊎ (a ≡ wait1)
Follows-other (idle a b) e = cc
Follows-other (arriving a b) e = inl (cc e)
Follows-other (arrived a b) e = inr (cc e)

pub Leads-enters :
    {p : List Action} {c w r : ℕ}
    → Leads p c w r
    → p ≡ []
    → Leads (wait0 ∷ signal1 ∷ []) (c + 1) w r
Leads-enters (idle a b) e = waiting (omega arith) (omega arith)
Leads-enters (waiting a b) e = cc
Leads-enters (passing a b) e = cc

pub Follows-enters :
    {p : List Action} {c w r : ℕ}
    → Follows p c w r
    → p ≡ []
    → Follows (signal0 ∷ wait1 ∷ []) (c + 1) w r
Follows-enters (idle a b) e = arriving (omega arith) (omega arith)
Follows-enters (arriving a b) e = cc
Follows-enters (arrived a b) e = cc

pub Follows-at :
    {p p' : List Action} {c c' w w' r r' : ℕ}
    → Follows p c w r
    → p ≡ p'
    → c ≡ c'
    → w ≡ w'
    → r ≡ r'
    → Follows p' c' w' r'
Follows-at {p} {p'} {c} {c'} {w} {w'} {r} {r'} f ep ec ew er =
    subst (λ q. Follows q c' w' r') ep
      (subst (λ x. Follows p x w' r') ec
        (subst (λ x. Follows p c x r') ew (subst (λ x. Follows p c w x) er f)))

pub Leads-at :
    {p p' : List Action} {c c' w r : ℕ} → Leads p c w r → p ≡ p' → c ≡ c' → Leads p' c' w r
Leads-at {p} {p'} {c} {c'} {w} {r} l ep ec =
    subst (λ q. Leads q c' w r) ep (subst (λ x. Leads p x w r) ec l)

-- What the places say of the calls that a node has returned from.
pub Leads-returned :
    {c w r : ℕ} {p : List Action}
    → Leads p c w r
    → (c - (elim p [ [] ↦ 0 | _ ↦ 1 ]) ≡ r) × (r ≤ w) × (w ≤ c)
Leads-returned (idle a b) = (omega arith, omega arith, omega arith)
Leads-returned (waiting a b) = (omega arith, omega arith, omega arith)
Leads-returned (passing a b) = (omega arith, omega arith, omega arith)

pub Follows-returned :
    {c w r : ℕ} {p : List Action}
    → Follows p c w r
    → (c - (elim p [ [] ↦ 0 | _ ↦ 1 ]) ≡ r) × (w ≤ c)
Follows-returned (idle a b) = (omega arith, omega arith)
Follows-returned (arriving a b) = (omega arith, omega arith)
Follows-returned (arrived a b) = (omega arith, omega arith)
