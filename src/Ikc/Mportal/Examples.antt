-- ===== src/Ikc/Mportal/Examples.antt =====
-- The theorems of Mportal at small transfers and tables.
use libnanvix.Shared.{
  ℕ, suc, find_from, ◌+◌, ◌≡◌, ◌≢◌, ◌↔◌, refl, Bool, true, false, done, panic, Errno, pos, List, [],
  ◌∷◌, ◌++◌, some, none, ok, fail, einval, ltb, ◌==◌, ◌&&◌, ◌||◌, count, if◌then◌else◌, arith,
}
use libnanvix.Ikc.Flags.{Flags, flags}
use libnanvix.Ikc.Mportal.Pieces.{Config, Message, send, receive, returned}
use libnanvix.Ikc.Mportal.RoundTrip.{push, pop, piece, header_of}
use libnanvix.Ikc.Mportal.ShortRead.{short_read-loses}
use libnanvix.Ikc.Mportal.Buffers.{Pool, buffer_search}
use libnanvix.Ikc.Mportal.Local.{Reading, buffer_read}
use libnanvix.Ikc.Mportal.Oldest.{IsOldest, buffer_search-IsOldest}
use libnanvix.Ikc.Mportal.Discard.{Readable, short_read-leaks}
use libnanvix.Ikc.Mportal.Table.{
  Portal, Channels, Ports, matches, search, port_alloc, open_with, open_portal,
}
use libnanvix.Ikc.Mportal.Calls.{kportal_open}
use libnanvix.Ikc.Mportal.Ownership.{IsOutput, Has}
use libnanvix.Ikc.Mportal.Sequences.{Call, opens, perform, begins, later, ports_owned}
use libnanvix.Ikc.Mportal.Leak.{open-leaks}
use libnanvix.Ikc.Mportal.Allow.{is_open_to, wait_allow}
use libnanvix.Ikc.Mportal.Allowing.{next_allow, nobody, another, wait_allow-remembers}

abbrev config : Config
config = record { local = some 0; local_port = some 1; remote = some 4; remote_port = some 2 }

abbrev pub hello : List ℕ
hello = 104 ∷ 101 ∷ 108 ∷ 108 ∷ 111 ∷ []

-- Three bytes are read of five.
short_read-loses_example :
    (messages : List Message) × (send 8 push config hello 5 []
      ≡ (ok 5, header_of config ∷ piece true 5 hello ∷ []))
    × (send 8 push config hello 5 [] ≡ (ok 5, header_of config ∷ messages))
    × (receive pop 8 3 (piece true 5 hello ∷ header_of config ∷ messages ++ [])
        ≡ returned (fail einval, [], []))
short_read-loses_example =
    short_read-loses 8 6 3 config config hello hello [] (omega arith) (omega arith) (omega arith)
      (omega arith)

-- A message in the first three of four buffers, of which the reader has the first.
abbrev chain : Pool Flags
chain = record {
  resources = λ i. record { used = ltb i 3; readable = true; writable = true; busy = false };
  buffers = λ i. record {
    age = i;
    seq = i;
    size = 4;
    config = config;
    next = some (suc i);
    content = 1 ∷ 2 ∷ 3 ∷ 4 ∷ [];
  };
  next_age = 3;
}

-- The other end of this configuration.
abbrev reader : Config
reader = record { local = some 4; local_port = some 2; remote = some 0; remote_port = some 1 }

abbrev reading : Reading
reading = record { copied = 1 ∷ 2 ∷ 3 ∷ 4 ∷ []; remainder = 1; previous = some 0 }

short_read-leaks_example :
    (q : Pool Flags) × (buffer_read flags 4 4 3 config reading chain
      ≡ some (fail einval, record reading { previous = none }, q))
    × ((q.resources 2).used ≡ true)
    × ((k : ℕ) → (q.buffers k).next ≢ some 2)
    × ¬ (Readable flags 4 4 q 2)
short_read-leaks_example =
    short_read-leaks flags 4 4 2 config 0 1 2 reading chain refl refl refl refl (omega arith)
      (omega arith) (λ k. (λ e. ground arith, λ e. ground arith)) refl (omega arith) (omega arith)
      (omega arith)

buffer_search-IsOldest_example :
    (buffer_search flags 4 4 reader chain ≡ some 0) ↔ IsOldest flags 4 4 reader chain 4 0
buffer_search-IsOldest_example = buffer_search-IsOldest flags 4 4 reader chain 0 refl

-- A table of two portals and three ports for each remote, and the same table with all portals taken.
abbrev pub no_portal : Portal
no_portal = record {
  refcount = pos 0;
  mallow = none;
  mdata = none;
  config = record { local = none; local_port = none; remote = none; remote_port = none };
  volume = 0;
  latency = 0;
}

abbrev pub table : Ports Flags
table = record {
  resources = λ i. flags.initial;
  portals = λ i. no_portal;
  ports = λ r p. flags.initial;
  counters = record {
    ncreates = 0;
    nunlinks = 0;
    nopens = 0;
    ncloses = 0;
    nreads = 0;
    nwrites = 0;
  };
  is_initialized = true;
}

abbrev full_table : Ports Flags
full_table = record table {
  resources = λ i. record { used = true; readable = true; writable = false; busy = false };
}

abbrev channels : Channels
channels = record {
  mallow_in = some 0;
  mallow_outs = λ i. some (i + 1);
  mdata_ins = λ i. some (i + 20);
  mdata_outs = λ i. some (i + 40);
}

abbrev node : ℕ → Bool
node i = ltb i 16

abbrev here : ℕ → Bool
here i = ltb i 1

-- Two portals are opened from node 0 to node 4, with the local ports 0 and 1.
abbrev two_opened : Ports Flags
two_opened = (open_portal flags 2 3 channels 0 4 1 (open_portal flags 2 3 channels 0 4 2 table).1).1

abbrev first_open : Call Flags
first_open = opens (pos 0) (pos 4) (pos 2)

abbrev second_open : Call Flags
second_open = opens (pos 0) (pos 4) (pos 1)

ports_owned_example :
    ((c : Call Flags) → perform flags 2 3 4 4 node here channels c two_opened ≢ panic)
    × ((i j r p : ℕ)
        → IsOutput flags 2 3 two_opened i
        → IsOutput flags 2 3 two_opened j
        → Has flags 2 3 two_opened i r p
        → Has flags 2 3 two_opened j r p
        → i ≡ j)
unfolding perform kportal_open open_portal open_with port_alloc search matches find_from
ports_owned_example =
    ports_owned flags 2 3 4 4 node here channels table two_opened refl (λ i lt. refl)
      (later second_open (later first_open begins refl) refl)

open-leaks_example :
    (e : Errno) × (u : Ports Flags) × (p : ℕ) × (open_portal flags 2 3 channels 0 4 5 full_table
      ≡ (fail e, u))
    × (u.resources ≡ full_table.resources)
    × (u.portals ≡ full_table.portals)
    × ((full_table.ports 4 p).used ≡ false)
    × ((u.ports 4 p).used ≡ true)
unfolding find_from
open-leaks_example = open-leaks flags 2 3 channels 0 4 5 1 full_table refl (omega arith) refl

-- Node 7 allows before node 4 does.
abbrev allow_from : ℕ → Config
allow_from n = record { local = some n; local_port = some 0; remote = some 0; remote_port = some 0 }

wait_allow-remembers_example :
    (after : ℕ → Bool) × (wait_allow flags 2 here next_allow 2 4 two_opened
        (λ _. false)
        (allow_from 7 ∷ allow_from 4 ∷ [])
      ≡ some (done (ok 0, after, [])))
    × ((m : ℕ)
        → after m ≡ (
            if m == 4
            then false
            else false || (is_open_to flags 2 here two_opened m && ltb 0 (count m (7 ∷ [])))))
unfolding is_open_to find_from open_portal open_with port_alloc search matches
wait_allow-remembers_example =
    wait_allow-remembers flags 2 here two_opened 0 4 2 (allow_from 4) [] (λ _. false) refl refl
      (another (allow_from 7) 7 refl refl nobody) refl refl refl refl (omega arith)
