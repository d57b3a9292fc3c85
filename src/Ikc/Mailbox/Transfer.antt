-- ===== src/Ikc/Mailbox/Transfer.antt =====
-- What the reads and writes of src/libnanvix/ikc/mailbox.c return, and when they do.
use libnanvix.Shared.{
  count_one, ℕ, zero, suc, ◌≤◌, ◌<◌, ◌≡◌, ◌≢◌, ◌⊎◌, inl, inr, Errno, true, [], ◌∷◌, Option, none,
  some, ℤ, pos, pos_part, ok, fail, if◌then◌else◌, arith,
}
use libnanvix.Kernel.{Kernel, Nr}
use libnanvix.Ikc.Retry.{answer, before, retry_stops}
use libnanvix.Ikc.Mailbox.{
  World, Counters, write_again, wait, awrite, aread, written, sent, write, read_loop, taken, read,
}

-- The counters after a transfer through the mailbox.
abbrev pub count_write : {S : Type 0} → ℤ → World S → Counters
count_write mbxid w =
    if w.user (pos_part mbxid)
    then record w.counters { nwrites = count_one w.counters.nwrites }
    else w.counters

abbrev pub count_read : {S : Type 0} → ℤ → World S → Counters
count_read mbxid w =
    if w.user (pos_part mbxid)
    then record w.counters { nreads = count_one w.counters.nreads }
    else w.counters

module _ (k : Kernel) (port_nr message_size : ℕ) where
  open k use {State, kcall}

  -- A write of a size above 0 and at most the message size succeeds, however often the kernel asks to
  -- try again: if the kernel's answer number `j` to awrite is the first that is none of -ETIMEDOUT, -EAGAIN and -EBUSY, and it is above 0,
  -- and the wait that follows succeeds, then with fuel above `j` the write returns `size`, leaves the
  -- state that the wait left, and counts one write if the mailbox is a user's.
  pub write-delivers :
      (fuel j n m : ℕ) (mbxid buffer : ℤ) (size : ℕ) (w : World State) (t : State)
      → 0 < size
      → size ≤ message_size
      → j < fuel
      → let call = kcall Nr.mailbox_awrite (mbxid ∷ buffer ∷ pos size ∷ []) in
        ((i : ℕ) → i < j → write_again (answer call write_again i w.state) ≡ true)
        → answer call write_again j w.state ≡ ok (suc n)
        → wait k port_nr message_size mbxid (before call write_again (suc j) w.state) ≡ (ok m, t)
        → write k port_nr message_size fuel mbxid (some buffer) size w
          ≡ some (ok size, record { state = t; user = w.user; counters = count_write mbxid w })
  unfolding write awrite sent written
  write-delivers fuel j n m mbxid buffer size w t positive fits lt busy stop waits =
      let call = kcall Nr.mailbox_awrite (mbxid ∷ buffer ∷ pos size ∷ []) in
      let loop = retry_stops call write_again fuel j w.state lt busy (ground (arith, stop)) in
      ground (arith, loop, stop, waits)

  -- The rounds of a read, from the state before each of them.
  read_loop_stops :
      (rounds r fuel size n : ℕ) (mbxid buffer : ℤ) (states : ℕ → State) (t t' : State)
      → r < rounds
      → ((i : ℕ)
          → i < r
          → (m : ℕ) × (l : ℕ) × (u : State) × (aread k port_nr message_size fuel mbxid buffer size
                (states i)
              ≡ some (ok m, u))
            × (wait k port_nr message_size mbxid u ≡ (ok (suc l), states (suc i))))
      → aread k port_nr message_size fuel mbxid buffer size (states r) ≡ some (ok n, t)
      → wait k port_nr message_size mbxid t ≡ (ok 0, t')
      → read_loop k port_nr message_size rounds fuel mbxid buffer size (states 0) ≡ some (ok 0, t')
  unfolding read_loop
  read_loop_stops zero r fuel size n mbxid buffer states t t' lt others mine waits =
      absurd (omega arith)
  read_loop_stops (suc rounds) zero fuel size n mbxid buffer states t t' lt others mine waits =
      ground (arith, mine, waits)
  read_loop_stops (suc rounds) (suc r) fuel size n mbxid buffer states t t' lt others mine waits =
      let (m, l, u, one, two) = others 0 (omega arith) in
      let rest =
        read_loop_stops rounds r fuel size n mbxid buffer (λ i. states (suc i)) t t' (omega arith)
          (λ i h. others (suc i) (omega arith)) mine waits in
      ground (arith, one, two, rest)

  -- A read of a size above 0 and at most the message size goes on until a message arrives for its
  -- port: if the rounds before number `r` each
  -- read a message that the wait then reports, by a number above 0, to be for another port, and round
  -- `r` reads one that the wait accepts with 0, then with more than `r` rounds the read returns
  -- `size`, leaves the state that this wait left, and counts one read if the mailbox is a user's.
  pub read-delivers :
      (rounds r fuel size n : ℕ) (mbxid buffer : ℤ) (states : ℕ → State) (t t' : State)
      (w : World State)
      → 0 < size
      → size ≤ message_size
      → states 0 ≡ w.state
      → r < rounds
      → ((i : ℕ)
          → i < r
          → (m : ℕ) × (l : ℕ) × (u : State) × (aread k port_nr message_size fuel mbxid buffer size
                (states i)
              ≡ some (ok m, u))
            × (wait k port_nr message_size mbxid u ≡ (ok (suc l), states (suc i))))
      → aread k port_nr message_size fuel mbxid buffer size (states r) ≡ some (ok n, t)
      → wait k port_nr message_size mbxid t ≡ (ok 0, t')
      → read k port_nr message_size rounds fuel mbxid (some buffer) size w
        ≡ some (ok size, record { state = t'; user = w.user; counters = count_read mbxid w })
  unfolding read taken
  read-delivers rounds r fuel size n mbxid buffer states t t' w positive fits first lt others mine
        waits =
      let loop =
        read_loop_stops rounds r fuel size n mbxid buffer states t t' lt others mine waits in
      ground (arith, loop, first)

  -- A read that returns a number returns `size`, which is then above 0 and at most the message size
  -- and comes with a buffer, and counts one read if the mailbox is a user's.
  pub read-ok :
      (rounds fuel n size : ℕ) (mbxid : ℤ) (buffer : Option ℤ) (w w' : World State)
      → read k port_nr message_size rounds fuel mbxid buffer size w ≡ some (ok n, w')
      → (n ≡ size)
        × (0 < size)
        × (size ≤ message_size)
        × (buffer ≢ none)
        × (w'.counters ≡ count_read mbxid w)
        × (w'.user ≡ w.user)
  unfolding read taken
  read-ok rounds fuel n size mbxid none w w' e = cc
  read-ok rounds fuel n size mbxid (some buffer) w w' e =
      (ground arith, ground arith, ground arith, λ f. cc, ground arith, ground arith)

  -- A transfer that fails leaves the counters and the marks of the mailboxes as they were.
  pub failure_keeps :
      (rounds fuel size : ℕ) (e : Errno) (mbxid : ℤ) (buffer : Option ℤ) (w w' : World State)
      → ((read k port_nr message_size rounds fuel mbxid buffer size w ≡ some (fail e, w'))
          ⊎ (write k port_nr message_size fuel mbxid buffer size w ≡ some (fail e, w')))
      → (w'.counters ≡ w.counters) × (w'.user ≡ w.user)
  unfolding read taken write sent written
  failure_keeps rounds fuel size e mbxid none w w' (inl f) = (ground arith, ground arith)
  failure_keeps rounds fuel size e mbxid none w w' (inr f) = (ground arith, ground arith)
  failure_keeps rounds fuel size e mbxid (some buffer) w w' (inl f) = (ground arith, ground arith)
  failure_keeps rounds fuel size e mbxid (some buffer) w w' (inr f) = (ground arith, ground arith)
