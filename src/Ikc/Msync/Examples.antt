-- ===== src/Ikc/Msync/Examples.antt =====
-- The theorems of Msync at a list of three nodes.
use libnanvix.Shared.{
  ℕ, find_from, ◌≤◌, ◌≡◌, ◌↔◌, ◌==◌, refl, Bool, true, false, List, [], ◌∷◌, ℤ, pos, arith, count,
  Option, none, some, Ret, ok, ltb, if◌then◌else◌,
}
use libnanvix.Ikc.Sync.{one_to_all, all_to_one}
use libnanvix.Ikc.Msync.Nodes.{nodelist_is_valid, is_node}
use libnanvix.Ikc.Msync.Point.{expected, hash_for, receive, fresh}
use libnanvix.Ikc.Msync.Counting.{receive_all}
use libnanvix.Ikc.Msync.Validity.{all_within, times, nodelist_is_valid_iff}
use libnanvix.Ikc.Msync.Created.{is_peer, expected-peers, nbarriers-signals}
use libnanvix.Ikc.Flags.{Flags, flags}
use libnanvix.Ikc.Msync.Point.{MsyncHash}
use libnanvix.Ikc.Msync.Nodes.{same_below, check_nodes, build_nodeslist}
use libnanvix.Ikc.Msync.Table.{
  Table, same_point, claimed, matches, search, refusal, hash_null, alloc_point, do_ksync_alloc,
  ksync_create,
}
use libnanvix.Ikc.Msync.Wait.{ksync_wait}
use libnanvix.Ikc.Msync.Signal.{do_ksync_signal}
use libnanvix.Ikc.Msync.Waiting.{dry, more, ksync_wait-returns}
use libnanvix.Ikc.Msync.Sending.{opposite, send_all, signal-peers}
use libnanvix.Ikc.Msync.Calls.{Call, perform, creates, later, begins, search_unique}
use libnanvix.Ikc.Msync.Control.{cleared}

-- Node 2 waits for the nodes 0 and 5, which have sent three and two signals.
abbrev others : List ℤ
others = pos 0 ∷ pos 5 ∷ []

abbrev signals : List ℕ
signals = 0 ∷ 0 ∷ 5 ∷ 0 ∷ 5 ∷ []

valid : nodelist_is_valid 16 2 (pos 2) others true ≡ true
unfolding nodelist_is_valid
valid = refl

nbarriers-signals_example :
    let rx = receive_all 16 signals (fresh (hash_for 2 all_to_one (pos 2) others true)) in
    ((i : ℕ) → is_peer all_to_one (pos 2) others i ≡ true → rx.nbarriers ≤ count i signals)
    × ((i : ℕ) × (is_peer all_to_one (pos 2) others i ≡ true) × (rx.nbarriers ≡ count i signals))
nbarriers-signals_example =
    nbarriers-signals 16 2 2 all_to_one (pos 2) (pos 0) (pos 5 ∷ []) true signals (omega arith)
      valid (λ i h. ground arith)

two_barriers :
    (receive_all 16 signals (fresh (hash_for 2 all_to_one (pos 2) others true))).nbarriers ≡ 2
unfolding receive_all hash_for receive
two_barriers = refl

expected-peers_example : expected (hash_for 2 all_to_one (pos 2) others true) 5 ≡ true
expected-peers_example = expected-peers 16 2 2 all_to_one (pos 2) others true (omega arith) valid 5

nodelist_is_valid_iff_example : (nodelist_is_valid 16 2 (pos 2) others true ≡ true) ↔ (
    (all_within 16 (pos 2 ∷ others) ≡ true)
    × ((n : ℕ) → times n (pos 2 ∷ others) ≤ 1)
    × (times 2 (pos 2 ∷ others) ≡ 1)
    × (is_node (pos 2) 2 ≡ true))
nodelist_is_valid_iff_example = nodelist_is_valid_iff 16 2 (pos 2) others true

-- A table of four points, and the first one while it waits.
abbrev points : Table Flags
points = record {
  resources = λ i. flags.initial;
  points = λ i. fresh (hash_null one_to_all);
  counters = record {
    ncreates = 0;
    nunlinks = 0;
    nopens = 0;
    ncloses = 0;
    nwaits = 0;
    nsignals = 0;
  };
  is_initialized = true;
}

abbrev created : Table Flags
created = record points {
  resources = λ i. record { used = true; readable = i == 0; writable = false; busy = false };
  points = λ i. fresh (hash_for 2 all_to_one (pos 2) others true);
}

abbrev in_nodes : ℕ → Bool
in_nodes i = ltb i 16

-- The hashes that the others send.
abbrev signal_from : ℕ → MsyncHash
signal_from source = hash_for source all_to_one (pos 2) others false

abbrev next_signal : List MsyncHash → Option MsyncHash × List MsyncHash
next_signal [] = (none, [])
next_signal (h ∷ hs) = (some h, hs)

abbrev stopped_clock : {W : Type 0} → W → ℕ × W
stopped_clock w = (0, w)

ksync_wait-returns_example :
    (u : Table Flags) × (v : List MsyncHash) × (ksync_wait flags 4 16 in_nodes next_signal
        stopped_clock 3
        (pos 0)
        created
        (signal_from 0 ∷ signal_from 5 ∷ [])
      ≡ some (ok 0, u, v))
unfolding hash_for refusal search matches find_from same_point
ksync_wait-returns_example =
    ksync_wait-returns flags 4 16 in_nodes next_signal stopped_clock 3 0 created
      (signal_from 0 ∷ signal_from 5 ∷ []) 2 2 all_to_one (pos 2) (pos 0) (pos 5 ∷ []) true
      (0 ∷ 5 ∷ []) (omega arith) valid (omega arith) refl refl
      (more (signal_from 0) (refl, refl) refl (more (signal_from 5) (refl, refl) refl dry))
      (λ j h. ground arith) (λ j h. ground arith) (omega arith)

abbrev outbox : ℕ → MsyncHash → List ℕ → Ret × List ℕ
outbox target hash w = (ok 8, target ∷ w)

signal-peers_example :
    (sent : List ℕ) × ((do_ksync_signal outbox stopped_clock 8 16
        (hash_for 2 one_to_all (pos 2) others false)
        []).1
      ≡ send_all outbox sent (hash_for 2 one_to_all (pos 2) others false) [])
    × ((j : ℕ) → count j sent ≡ (if is_peer (opposite one_to_all) (pos 2) others j then 1 else 0))
signal-peers_example =
    signal-peers outbox stopped_clock 8 16 2 2 one_to_all (pos 2) others true []
      (λ target hash v. refl) (omega arith) valid

-- A point that is created twice is one point.
abbrev create : Call
create = creates (some (pos 2 ∷ others)) (some all_to_one)

abbrev first_point : ℕ
first_point = 0

search_unique_example : first_point ≡ first_point
unfolding perform ksync_create do_ksync_alloc nodelist_is_valid alloc_point search matches hash_for
    cleared find_from same_point same_below check_nodes build_nodeslist claimed
search_unique_example =
    search_unique flags 4 16 2 one_to_all points _ true (signal_from 5) first_point first_point
      (later create (later create begins refl) refl) (omega arith) (omega arith) refl refl
