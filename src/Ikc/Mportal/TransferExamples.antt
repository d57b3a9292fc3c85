-- ===== src/Ikc/Mportal/TransferExamples.antt =====
-- The theorems of Mportal on kportal_aread() and kportal_awrite() at small transfers.
use libnanvix.Shared.{
  ℕ, ◌≡◌, refl, Bool, true, false, pos, List, [], ◌∷◌, ◌++◌, Option, none, some, ok, eagain, ltb,
  ◌==◌, update, sum_below, arith,
}
use libnanvix.Ikc.Flags.{Flags, flags}
use libnanvix.Ikc.Mportal.Pieces.{Config, Message, returned, send}
use libnanvix.Ikc.Mportal.RoundTrip.{push}
use libnanvix.Ikc.Mportal.Buffers.{Pool, buffer_search, search_from, config_null}
use libnanvix.Ikc.Mportal.Table.{Portal, Ports, accessible}
use libnanvix.Ikc.Mportal.Allow.{Allow}
use libnanvix.Ikc.Mportal.Arrival.{swapped}
use libnanvix.Ikc.Mportal.Stored.{opens}
use libnanvix.Ikc.Mportal.Transfers.{Node}
use libnanvix.Ikc.Mportal.Aread.{kportal_aread}
use libnanvix.Ikc.Mportal.Awrite.{kportal_awrite}
use libnanvix.Ikc.Mportal.Reads.{allowing, arriving, sending}
use libnanvix.Ikc.Mportal.EndToEnd.{awrite-aread}
use libnanvix.Ikc.Mportal.WithinNode.{awrite-aread_within}
use libnanvix.Ikc.Mportal.Reordered.{reads_reordered}
use libnanvix.Ikc.Mportal.Misdelivered.{read-takes_other}
use libnanvix.Ikc.Mportal.Examples.{hello, table, no_portal}

-- From node 0 to node 4: port 1 to port 2, and port 3 to port 0; and within node 0.
abbrev config : Config
config = record { local = some 0; local_port = some 1; remote = some 4; remote_port = some 2 }

abbrev second_config : Config
second_config = record {
  local = some 0;
  local_port = some 3;
  remote = some 4;
  remote_port = some 0;
}

abbrev near_config : Config
near_config = record { local = some 0; local_port = some 1; remote = some 0; remote_port = some 2 }

abbrev portal_of : Config → Portal
portal_of c = record no_portal { config = c }

abbrev input : Flags
input = record { used = true; readable = true; writable = false; busy = false }

abbrev output : Flags
output = record { used = true; readable = false; writable = true; busy = false }

-- The tables of the node that writes, of the one that reads from both ports, of one that reads with two
-- portals from the same port, and of a node that writes to itself.
abbrev writer : Ports Flags
writer = record table { resources = λ i. output; portals = λ i. portal_of config }

abbrev reader : Ports Flags
reader = record table {
  resources = λ i. input;
  portals = update (λ i. portal_of (swapped second_config)) 1 (portal_of (swapped config));
}

abbrev same_ports : Ports Flags
same_ports = record table {
  resources = λ i. input;
  portals =
      update
        (λ i.
          portal_of
            (record { local = some 4; local_port = some 0; remote = some 0; remote_port = some 1 }))
        1 (portal_of (swapped config));
}

abbrev within : Ports Flags
within = record table {
  resources = update (λ i. output) 1 input;
  portals = update (λ i. portal_of near_config) 1 (portal_of (swapped near_config));
}

-- No buffer is in use, no channel is busy, every node is allowed.
abbrev pool : Pool Flags
pool = record {
  resources = λ i. flags.initial;
  buffers =
      λ i. record { age = 0; seq = 0; size = 0; config = config_null; next = none; content = [] };
  next_age = 0;
}

abbrev state : Node Flags (List Message)
state = record {
  pool = pool;
  read_channels = λ i. flags.initial;
  write_channels = λ i. flags.initial;
  allowed = λ i. true;
  world = [];
}

abbrev is_node : ℕ → Bool
is_node i = ltb i 16

abbrev is_first : ℕ → Bool
is_first i = ltb i 1

abbrev is_fourth : ℕ → Bool
is_fourth i = i == 4

abbrev no_allow : Option ℕ → List Message → Allow (List Message)
no_allow id w = Allow.failed eagain w

abbrev no_config : List ℕ → Config
no_config d = config_null

awrite-aread_example :
    (messages : List Message) × (t' : Ports Flags) × (u' : Ports Flags) × (s' : Node Flags
      (List Message))
    × (r' : Node Flags (List Message)) × (kportal_awrite flags 2 3 4 4 16 64 is_node is_first 8 2
          no_allow sending
          (pos 0)
          false
          hello
          5
          writer
          state
        ≡ returned (ok 5, t', s'))
    × (s'.world ≡ [] ++ messages)
    × (kportal_aread flags 2 3 4 4 16 64 is_node is_fourth 8 allowing arriving no_config
          (pos 1)
          false
          5
          reader
          (record state { world = messages ++ [] })
        ≡ returned (ok 5, hello, u', r'))
    × (r'.world ≡ [])
    × ((u'.portals 1).config.remote ≡ none)
unfolding accessible buffer_search search_from
awrite-aread_example =
    awrite-aread flags 2 3 4 4 16 64 2 8 is_node is_first is_fourth no_allow no_config config 0 4 0
      1 hello writer reader state state [] (omega arith) (omega arith) (omega arith) (omega arith)
      (record { below = omega arith; used = refl; kind = refl; free = refl })
      (record { below = omega arith; used = refl; kind = refl; free = refl }) refl refl refl refl
      refl refl refl refl refl refl refl refl

awrite-aread_within_example :
    (t' : Ports Flags) × (s' : Node Flags (List Message)) × (u : Ports Flags) × (s'' : Node Flags
      (List Message))
    × (kportal_awrite flags 2 3 4 4 16 64 is_node is_first 8 2 no_allow sending
          (pos 0)
          false
          hello
          5
          within
          state
        ≡ returned (ok 5, t', s'))
    × (kportal_aread flags 2 3 4 4 16 64 is_node is_first 8 allowing arriving no_config
          (pos 1)
          false
          5
          t'
          s'
        ≡ returned (ok 5, hello, u, s''))
    × ((k : ℕ) → (s''.pool.resources k).used ≡ (pool.resources k).used)
unfolding accessible opens sum_below
awrite-aread_within_example =
    awrite-aread_within flags 2 3 4 4 16 64 2 8 is_node is_first no_allow sending allowing arriving
      no_config near_config 0 0 0 1 hello within state (omega arith) (omega arith) (omega arith)
      (omega arith) (omega arith) (omega arith)
      (record { below = omega arith; used = refl; kind = refl; free = refl })
      (record { below = omega arith; used = refl; kind = refl; free = refl }) refl refl refl refl
      refl refl refl (λ k lt. refl)

abbrev two_bytes : List ℕ
two_bytes = 1 ∷ 2 ∷ []

reads_reordered_example :
    (ms ms' : List Message) × (t1 : Ports Flags) × (s1 : Node Flags (List Message)) × (t2 : Ports
      Flags)
    × (s2 : Node Flags (List Message)) × (send 2 push config hello 5 [] ≡ (ok 5, ms))
    × (send 2 push second_config two_bytes 2 [] ≡ (ok 2, ms'))
    × (kportal_aread flags 2 3 4 4 16 64 is_node is_fourth 8 allowing arriving no_config
          (pos 0)
          false
          2
          reader
          (record state { world = ms ++ (ms' ++ []) })
        ≡ returned (ok 2, two_bytes, t1, s1))
    × (s1.world ≡ [])
    × (kportal_aread flags 2 3 4 4 16 64 is_node is_fourth 8 allowing arriving no_config
          (pos 1)
          false
          5
          t1
          s1
        ≡ returned (ok 5, hello, t2, s2))
    × (s2.world ≡ [])
    × ((k : ℕ) → (s2.pool.resources k).used ≡ (pool.resources k).used)
unfolding accessible opens sum_below
reads_reordered_example =
    reads_reordered flags 2 3 4 4 16 64 2 8 is_node is_fourth no_config config second_config 0 4 0 1
      hello two_bytes reader state [] (omega arith) (omega arith) (omega arith) (omega arith)
      (omega arith) (omega arith) (omega arith) (omega arith) (omega arith) (omega arith)
      (record { below = omega arith; used = refl; kind = refl; free = refl })
      (record { below = omega arith; used = refl; kind = refl; free = refl }) refl refl refl refl
      refl refl refl refl refl refl refl refl (λ k lt. refl) (λ k lt. refl)

read-takes_other_example :
    (ms : List Message) × (t' : Ports Flags) × (s' : Node Flags (List Message)) × (send 2 push
        config hello 5 []
      ≡ (ok 5, ms))
    × (kportal_aread flags 2 3 4 4 16 64 is_node is_fourth 8 allowing arriving no_config
          (pos 0)
          false
          5
          same_ports
          (record state { world = ms ++ [] })
        ≡ returned (ok 5, hello, t', s'))
    × (s'.world ≡ [])
    × (s'.pool ≡ pool)
unfolding accessible buffer_search search_from
read-takes_other_example =
    read-takes_other flags 2 3 4 4 16 64 2 8 is_node is_fourth no_config config 0 4 0 1 hello
      same_ports state [] (omega arith) (omega arith) (omega arith) (omega arith)
      (record { below = omega arith; used = refl; kind = refl; free = refl })
      (record { below = omega arith; used = refl; kind = refl; free = refl }) refl refl refl refl
      refl refl refl refl refl refl
