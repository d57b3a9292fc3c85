-- ===== src/Ikc/Mportal/Allowing.antt =====
-- When a writer of src/libnanvix/ikc/mportal.c may go on, and what it does with the allows for others.
use libnanvix.Shared.{
  ℕ, zero, suc, ◌<◌, ◌≡◌, ◌∙◌, ap, Bool, true, false, ◌&&◌, ◌||◌, List, [], ◌∷◌, ◌++◌, some, ok,
  eagain, done, length, count, Bool-cases, inl, inr, ◌==◌, ltb, if◌then◌else◌, update, arith,
}
use native.Mathlib.Decide.{ℕ_discrete}
use libnanvix.Ikc.Resource.{Resources}
use libnanvix.Ikc.Mportal.Pieces.{Config}
use libnanvix.Ikc.Mportal.Table.{Ports}
use libnanvix.Ikc.Mportal.Allow.{Allow, arrived, failed, is_open_to, receive_allow, wait_allow}

-- Allows are read in the order in which they arrive.
abbrev pub next_allow : List Config → Allow (List Config)
next_allow [] = failed eagain []
next_allow (c ∷ cs) = arrived c cs

-- Allows from these nodes for the node `here`.
pub data From (here : ℕ) : List Config → List ℕ → Type 0 where
  nobody : From here [] []
  another :
      {cs : List Config} {nodes : List ℕ} (c : Config) (n : ℕ)
      → c.local ≡ some n
      → c.remote ≡ some here
      → From here cs nodes
      → From here (c ∷ cs) (n ∷ nodes)

module _ (res : Resources) (portal_max : ℕ) (node_is_local : ℕ → Bool) where
  open res use {Resource}

  -- The allows after one more.
  abbrev noted : Ports Resource → ℕ → (ℕ → Bool) → ℕ → Bool
  noted t n allowed =
      if is_open_to res portal_max node_is_local t n then update allowed n true else allowed

  noted-other :
      (t : Ports Resource) (n m : ℕ) (allowed : ℕ → Bool)
      → (n == m) ≡ false
      → noted t n allowed m ≡ allowed m
  noted-other t n m allowed other = ground (arith, other)

  noted-count :
      (t : Ports Resource) (n m : ℕ) (allowed : ℕ → Bool) (nodes : List ℕ)
      → let open_to = is_open_to res portal_max node_is_local t m in
        (noted t n allowed m || (open_to && ltb 0 (count m nodes)))
        ≡ (allowed m || (open_to && ltb 0 (count m (n ∷ nodes))))
  noted-count t n m allowed nodes = elim (ℕ_discrete n m) [
    | yes same ↦
        let opens : is_open_to res portal_max node_is_local t n
            ≡ is_open_to res portal_max node_is_local t m =
          ap (λ x. is_open_to res portal_max node_is_local t x) same in
        elim (Bool-cases (is_open_to res portal_max node_is_local t m)) [
          | inl opened ↦ ground (arith, same, opens, opened)
          | inr shut ↦ ground (arith, same, opens, shut)
        ]
    | no differ ↦ ground (arith, differ, noted-other t n m allowed (ground (arith, differ)))
  ]

  round-other :
      (t : Ports Resource) (here n remote fuel : ℕ) (c : Config) (cs : List Config)
      (allowed : ℕ → Bool)
      → node_is_local here ≡ true
      → c.local ≡ some n
      → c.remote ≡ some here
      → (n == remote) ≡ false
      → allowed remote ≡ false
      → wait_allow res portal_max node_is_local next_allow (suc fuel) remote t allowed (c ∷ cs)
        ≡ wait_allow res portal_max node_is_local next_allow fuel remote t (noted t n allowed) cs
  unfolding wait_allow receive_allow
  round-other t here n remote fuel c cs allowed near from to other not_yet =
      ground (arith, near, from, to, not_yet, noted-other t n remote allowed other)

  -- Somebody who waits for the allow of `remote`, to which a portal is open, gets it: over allows that
  -- arrive in order, first from other nodes and then from `remote`, the wait returns 0 and takes just
  -- these off the mailbox, with one round for each. It uses up the allow of `remote`, and remembers an
  -- allow of another node if there was one before, or one arrived and a portal is open to that node.
  pub wait_allow-remembers :
      (t : Ports Resource) (here remote fuel : ℕ) (c : Config) {cs : List Config} {nodes : List ℕ}
      (later : List Config) (allowed : ℕ → Bool)
      → node_is_local here ≡ true
      → is_open_to res portal_max node_is_local t remote ≡ true
      → From here cs nodes
      → count remote nodes ≡ 0
      → c.local ≡ some remote
      → c.remote ≡ some here
      → allowed remote ≡ false
      → length nodes < fuel
      → (after : ℕ → Bool) × (wait_allow res portal_max node_is_local next_allow fuel remote t
            allowed
            (cs ++ c ∷ later)
          ≡ some (done (ok 0, after, later)))
        × ((m : ℕ)
            → after m ≡ (
                if m == remote
                then false
                else allowed m
                  || (is_open_to res portal_max node_is_local t m && ltb 0 (count m nodes))))
  unfolding wait_allow receive_allow
  wait_allow-remembers t here remote zero c later allowed near opened from nobody_else own to
        not_yet enough =
      absurd (omega arith)
  wait_allow-remembers t here remote (suc fuel) c later allowed near opened nobody none_else own to
        not_yet enough =
      (
        update (update allowed remote true) remote false,
        ground (arith, near, opened, own, to, not_yet),
        λ m. ground arith,
      )
  wait_allow-remembers t here remote (suc fuel) c {cs} {nodes} later allowed near opened
        (another {nodes = nodes'} d n own_d to_d rest) none_else own to not_yet enough =
      let other : (n == remote) ≡ false = ground (arith, none_else) in
      let (after, run, others) =
        wait_allow-remembers t here remote fuel c later (noted t n allowed) near opened rest
          (ground (arith, none_else)) own to (noted-other t n remote allowed other ∙ not_yet)
          (omega arith) in
      (
        after,
        round-other t here n remote fuel d _ allowed near own_d to_d other not_yet ∙ run,
        λ m. others m ∙ ground (arith, noted-count t n m allowed nodes'),
      )
