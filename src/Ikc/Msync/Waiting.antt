-- ===== src/Ikc/Msync/Waiting.antt =====
-- When ksync_wait() of src/libnanvix/ikc/msync.c returns.
use libnanvix.Shared.{
  ℕ, zero, suc, ◌≤◌, ◌<◌, ◌≡◌, refl, sym, ◌∙◌, subst, Bool, true, false, List, [], ◌∷◌, Option,
  none, some, ℤ, pos, Ret, ok, Bool-cases, inl, inr, count, length, find_from-same, ltb, update,
  arith,
}
use libnanvix.Ikc.Resource.{Resources}
use libnanvix.Ikc.Sync.{SyncType}
use libnanvix.Ikc.Msync.Nodes.{nodelist_is_valid}
use libnanvix.Ikc.Msync.Point.{MsyncHash, receive, barrier_consume, fresh, hash_for}
use libnanvix.Ikc.Msync.Reset.{SameNames, receive-SameNames}
use libnanvix.Ikc.Msync.Counting.{receive_all}
use libnanvix.Ikc.Msync.Created.{is_peer, nbarriers-signals}
use libnanvix.Ikc.Msync.Table.{Table, same_point, accessible, matches, search, refusal}
use libnanvix.Ikc.Msync.Wait.{deliver, do_ksync_wait, wait_loop, waited, mark_busy, ksync_wait}

same_point-SameNames : (a b h : MsyncHash) → SameNames a b → same_point a h ≡ same_point b h
unfolding same_point
same_point-SameNames a b h s = rw (s.type, s.master, s.nodeslist) refl

module _ (res : Resources) (ksync_max nodes_num : ℕ) (node_is_valid : ℕ → Bool) where
  open res use {Resource}

  -- A signal for a point leaves what the searches find.
  abbrev received : ℕ → ℕ → Table Resource → Table Resource
  received i source t = record t {
    points = update t.points i (receive nodes_num source (t.points i));
  }

  received-point :
      (t : Table Resource) (i source j : ℕ) (h : MsyncHash)
      → same_point (t.points j).hash h ≡ same_point ((received i source t).points j).hash h
  received-point t i source j h = ground (
    arith,
    same_point-SameNames (t.points i).hash (receive nodes_num source (t.points i)).hash h
        (receive-SameNames nodes_num source (t.points i)),
  )

  search-received :
      (t : Table Resource) (i source : ℕ) (h : MsyncHash) (input : Bool)
      → search res ksync_max t h input ≡ search res ksync_max (received i source t) h input
  unfolding search matches
  search-received t i source h input =
      find_from-same ksync_max 0 _ _ (λ j. rw (received-point t i source j h) refl)

  -- Signals from these nodes arrive, in this order, each with a hash that is `Good`.
  pub data Feeds {W : Type 0} (receive_signal : W → Option MsyncHash × W)
      (Good : MsyncHash → Type 0) : W → List ℕ → Type 0 where
    dry : {w : W} → Feeds receive_signal Good w []
    more :
        {w w' : W} {sources : List ℕ} (h : MsyncHash)
        → Good h
        → receive_signal w ≡ (some h, w')
        → Feeds receive_signal Good w' sources
        → Feeds receive_signal Good w (h.source ∷ sources)

  module _ {W : Type 0} (receive_signal : W → Option MsyncHash × W) (kclock : W → ℕ × W)
      (Good : MsyncHash → Type 0) where
    -- One round of the loop: with a complete barrier, and with a signal for the point.
    abbrev loop : ℕ → ℕ → Table Resource → W → Option (Ret × Table Resource × W)
    loop = wait_loop res ksync_max nodes_num node_is_valid receive_signal kclock

    wait_loop-done :
        (fuel i : ℕ) (t : Table Resource) (w : W)
        → ltb 0 (t.points i).nbarriers ≡ true
        → loop (suc fuel) i t w
          ≡ some (ok 0, record t { points = update t.points i (barrier_consume (t.points i)).1 }, w)
    unfolding wait_loop do_ksync_wait barrier_consume
    wait_loop-done fuel i t w here = ground (arith, here)

    wait_loop-more :
        (fuel i : ℕ) (t : Table Resource) (w w' : W) (h : MsyncHash)
        → ltb 0 (t.points i).nbarriers ≡ false
        → receive_signal w ≡ (some h, w')
        → node_is_valid h.source ≡ true
        → search res ksync_max t h true ≡ some i
        → loop (suc fuel) i t w ≡ loop fuel i (received i h.source t) w'
    unfolding wait_loop do_ksync_wait barrier_consume deliver
    wait_loop-more fuel i t w w' h none_yet arrives valid found =
        ground (arith, none_yet, arrives, valid, found)

    at_point :
        (t : Table Resource) (i source : ℕ)
        → (received i source t).points i ≡ receive nodes_num source (t.points i)
    at_point t i source = ground arith

    -- The loop ends when its signals complete the barrier.
    wait_loop-returns :
        (fuel i : ℕ) (t : Table Resource) {w : W} {sources : List ℕ}
        → Feeds receive_signal Good w sources
        → ((h : MsyncHash)
            → Good h
            → (node_is_valid h.source ≡ true) × (search res ksync_max t h true ≡ some i))
        → length sources < fuel
        → 0 < (receive_all nodes_num sources (t.points i)).nbarriers
        → (u : Table Resource) × (v : W) × (loop fuel i t w ≡ some (ok 0, u, v))
    unfolding receive_all
    wait_loop-returns zero i t f good enough complete = absurd (omega arith)
    wait_loop-returns (suc fuel) i t {w} dry good enough complete =
        (_, _, wait_loop-done fuel i t w (ground (arith, complete)))
    wait_loop-returns (suc fuel) i t {w} (more {w'} {sources} h fine arrives rest) good enough
          complete =
        elim (Bool-cases (ltb 0 (t.points i).nbarriers)) [
          | inl here ↦ (_, _, wait_loop-done fuel i t w here)
          | inr later ↦
              let (valid, found) = good h fine in
              let (u, v, e) =
                wait_loop-returns fuel i (received i h.source t) rest
                  (λ g good_g. (
                    (good g good_g).0,
                    sym (search-received t i h.source g true) ∙ (good g good_g).1,
                  ))
                  (omega arith)
                  (subst (λ x. 0 < (receive_all nodes_num sources x).nbarriers)
                    (sym (at_point t i h.source)) complete) in
              (u, v, wait_loop-more fuel i t w w' h later arrives valid found ∙ e)
        ]

  -- A point that is marked busy is found as before.
  marked-resource :
      (t : Table Resource) (i j : ℕ)
      → let r = t.resources j in
        let r' = (mark_busy res ksync_max nodes_num node_is_valid i t).resources j in
        (res.is_used r ≡ res.is_used r') × (res.is_readable r ≡ res.is_readable r')
  unfolding mark_busy
  marked-resource t i j = (
    ground (arith, res.used-set_busy (t.resources i)),
    ground (arith, res.readable-set_busy (t.resources i)),
  )

  search-mark_busy :
      (t : Table Resource) (i : ℕ) (h : MsyncHash)
      → search res ksync_max t h true
        ≡ search res ksync_max (mark_busy res ksync_max nodes_num node_is_valid i t) h true
  unfolding search matches accessible mark_busy
  search-mark_busy t i h =
      find_from-same ksync_max 0 _ _
        (λ j. let (used, readable) = marked-resource t i j in rw (used, readable) refl)

  -- What a wait returns if its loop returns 0.
  ksync_wait-wait_loop :
      {W : Type 0} (receive_signal : W → Option MsyncHash × W) (kclock : W → ℕ × W) (fuel i : ℕ)
      (t : Table Resource) (w : W) (u : Table Resource) (v : W)
      → i < ksync_max
      → refusal res ksync_max true (t.resources i) ≡ none
      → wait_loop res ksync_max nodes_num node_is_valid receive_signal kclock fuel i
          (mark_busy res ksync_max nodes_num node_is_valid i t)
          (kclock w).1
        ≡ some (ok 0, u, v)
      → ksync_wait res ksync_max nodes_num node_is_valid receive_signal kclock fuel (pos i) t w
        ≡ some (
          ok 0,
          (waited res ksync_max nodes_num node_is_valid i (kclock w).0 (kclock v).0 (ok 0, u)).1,
          (kclock v).1,
        )
  unfolding ksync_wait waited
  ksync_wait-wait_loop receive_signal kclock fuel i t w u v inside fine e =
      ground (arith, inside, fine, e)

  -- A wait returns 0 once everybody has signalled: on a point that was created from a valid list of
  -- at least two nodes and has received nothing yet, if the signals that arrive next are all for this
  -- point and from nodes that it waits for, and each of these nodes sends at least one, then a wait
  -- with fuel above the number of signals returns 0. PROCESSOR_NOC_NODES_NUM is at most 24.
  pub ksync_wait-returns :
      {W : Type 0} (receive_signal : W → Option MsyncHash × W) (kclock : W → ℕ × W) (fuel i : ℕ)
      (t : Table Resource) (w : W) (local source : ℕ) (type : SyncType) (first second : ℤ)
      (nodes : List ℤ) (is_the_one : Bool) (sources : List ℕ)
      → nodes_num ≤ 24
      → nodelist_is_valid nodes_num local first (second ∷ nodes) is_the_one ≡ true
      → i < ksync_max
      → refusal res ksync_max true (t.resources i) ≡ none
      → t.points i ≡ fresh (hash_for source type first (second ∷ nodes) true)
      → Feeds receive_signal
          (λ h. (node_is_valid h.source ≡ true) × (search res ksync_max t h true ≡ some i))
          (kclock w).1
          sources
      → ((j : ℕ) → 0 < count j sources → is_peer type first (second ∷ nodes) j ≡ true)
      → ((j : ℕ) → is_peer type first (second ∷ nodes) j ≡ true → 0 < count j sources)
      → length sources < fuel
      → (u : Table Resource) × (v : W) × (ksync_wait res ksync_max nodes_num node_is_valid
            receive_signal kclock fuel
            (pos i)
            t
            w
          ≡ some (ok 0, u, v))
  unfolding receive_all mark_busy
  ksync_wait-returns receive_signal kclock fuel i t w local source type first second nodes
        is_the_one sources fits valid inside fine created feeds peers all enough =
      let (least, (j, peer, reached)) =
        nbarriers-signals nodes_num local source type first second nodes is_the_one sources fits
          valid peers in
      let (u, v, e) =
        wait_loop-returns receive_signal kclock _ fuel i
          (mark_busy res ksync_max nodes_num node_is_valid i t) feeds
          (λ h (known, found). (known, sym (search-mark_busy t i h) ∙ found)) enough
          (omega (
            arith,
            least j,
            all j,
            subst (λ x. 0 < (receive_all nodes_num sources x).nbarriers) (sym created)
                (omega (arith, all j peer, reached)),
          )) in
      (
        (waited res ksync_max nodes_num node_is_valid i (kclock w).0 (kclock v).0 (ok 0, u)).1,
        (kclock v).1,
        ksync_wait-wait_loop receive_signal kclock fuel i t w u v inside fine e,
      )
