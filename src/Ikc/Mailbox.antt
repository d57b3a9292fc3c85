-- ===== src/Ikc/Mailbox.antt =====
-- src/libnanvix/ikc/mailbox.c, with __NANVIX_IKC_USES_ONLY_MAILBOX = 1 (with 0 the functions make the
-- same kernel calls and keep no counters). The kernel is a parameter, and so are KMAILBOX_PORT_NR and
-- KMAILBOX_MESSAGE_SIZE. A buffer is its address, NULL where it is `none`.
pub mod Counting
pub mod Transfer
pub mod Control
use libnanvix.Shared.{
  count_one, ℕ, zero, suc, ◌+◌, ◌%◌, ◌^◌, Bool, true, false, not, ◌&&◌, ◌||◌, List, [], ◌∷◌, Option,
  none, some, ℤ, pos, pos_part, within, Ret, ok, fail, einval, etimedout, eagain, ebusy, enomsg,
  ltb, ◌==◌, if◌then◌else◌, update,
}
use libnanvix.Kernel.{Kernel, Nr}
use libnanvix.Ikc.Retry.{retry}

-- Each counter is a uint64_t.
pub record Counters : Type 0 where
  pub ncreates : ℕ
  pub nunlinks : ℕ
  pub nopens : ℕ
  pub ncloses : ℕ
  pub nreads : ℕ
  pub nwrites : ℕ

-- kmailbox_init()
abbrev pub no_calls : Counters
no_calls = record { ncreates = 0; nunlinks = 0; nopens = 0; ncloses = 0; nreads = 0; nwrites = 0 }

-- The kernel's state, `user_mailboxes` and `mailbox_counters`.
pub record World (S : Type 0) : Type 0 where
  pub state : S
  pub user : ℕ → Bool
  pub counters : Counters

-- The return values after which the loops of awrite and of aread call the kernel again.
abbrev pub write_again : Ret → Bool
write_again (fail etimedout) = true
write_again (fail eagain) = true
write_again (fail ebusy) = true
write_again _ = false

abbrev pub read_again : Ret → Bool
read_again (fail etimedout) = true
read_again (fail ebusy) = true
read_again (fail enomsg) = true
read_again _ = false

abbrev bad_size : ℕ → ℕ → Bool
bad_size message_size size = size == 0 || ltb message_size size

module _ (k : Kernel) (port_nr message_size : ℕ) where
  open k use {State, kcall}

  -- A mailbox that the kernel has given out is marked as a user's, and counted by `count`.
  opened : (Counters → Counters) → World State → Ret × State → Ret × World State
  opened count w (fail e, s) = (fail e, record w { state = s })
  opened count w (ok id, s) =
      (ok id, record { state = s; user = update w.user id true; counters = count w.counters })

  -- A mailbox that the kernel has taken back is no longer a user's.
  released : (Counters → Counters) → ℤ → World State → Ret × State → Ret × World State
  released count mbxid w (fail e, s) = (fail e, record w { state = s })
  released count mbxid w (ok n, s) = (
    ok n,
    record { state = s; user = update w.user (pos_part mbxid) false; counters = count w.counters },
  )

  pub create : ℤ → ℤ → World State → Ret × World State
  unfolding opened
  create local port w =
      if not (within port 0 port_nr)
      then (fail einval, w)
      else opened (λ c. record c { ncreates = count_one c.ncreates }) w
          (kcall Nr.mailbox_create (local ∷ port ∷ []) w.state)

  -- kmailbox_open()
  pub open_remote : ℤ → ℤ → World State → Ret × World State
  unfolding opened
  open_remote remote remote_port w =
      if not (within remote_port 0 port_nr)
      then (fail einval, w)
      else opened (λ c. record c { nopens = count_one c.nopens }) w
          (kcall Nr.mailbox_open (remote ∷ remote_port ∷ []) w.state)

  pub unlink : ℤ → World State → Ret × World State
  unfolding released
  unlink mbxid w =
      released (λ c. record c { nunlinks = count_one c.nunlinks }) mbxid w
        (kcall Nr.mailbox_unlink (mbxid ∷ []) w.state)

  pub close : ℤ → World State → Ret × World State
  unfolding released
  close mbxid w =
      released (λ c. record c { ncloses = count_one c.ncloses }) mbxid w
        (kcall Nr.mailbox_close (mbxid ∷ []) w.state)

  pub awrite : ℕ → ℤ → ℤ → ℕ → State → Option (Ret × State)
  unfolding retry
  awrite fuel mbxid buffer size s =
      if bad_size message_size size
      then some (fail einval, s)
      else retry (kcall Nr.mailbox_awrite (mbxid ∷ buffer ∷ pos size ∷ [])) write_again fuel s

  unfoldable pub aread : ℕ → ℤ → ℤ → ℕ → State → Option (Ret × State)
  unfolding retry
  aread fuel mbxid buffer size s =
      if bad_size message_size size
      then some (fail einval, s)
      else retry (kcall Nr.mailbox_aread (mbxid ∷ buffer ∷ pos size ∷ [])) read_again fuel s

  unfoldable pub wait : ℤ → State → Ret × State
  wait mbxid = kcall Nr.mailbox_wait (mbxid ∷ [])

  -- kmailbox_write() behind kmailbox_wait(), and behind kmailbox_awrite().
  written : ℤ → ℕ → World State → Ret × State → Ret × World State
  written mbxid size w (fail e, s) = (fail e, record w { state = s })
  written mbxid size w (ok n, s) = (
    ok size,
    record w {
      state = s;
      counters =
          if w.user (pos_part mbxid)
          then record w.counters { nwrites = count_one w.counters.nwrites }
          else w.counters;
    },
  )

  sent : ℤ → ℕ → World State → Ret × State → Ret × World State
  unfolding written wait
  sent mbxid size w (fail e, s) = (fail e, record w { state = s })
  sent mbxid size w (ok n, s) =
      if ltb n 1 then (ok n, record w { state = s }) else written mbxid size w (wait mbxid s)

  pub write : ℕ → ℤ → Option ℤ → ℕ → World State → Option (Ret × World State)
  unfolding awrite sent
  write fuel mbxid none size w = some (fail einval, w)
  write fuel mbxid (some buffer) size w =
      if bad_size message_size size
      then some (fail einval, w)
      else elim (awrite fuel mbxid buffer size w.state) [
        | none ↦ none
        | some answer ↦ some (sent mbxid size w answer)
      ]

  -- The loop of kmailbox_read(), a round for each message that was for another port. Each of the
  -- `rounds` may make `fuel` calls of aread.
  pub read_loop : ℕ → ℕ → ℤ → ℤ → ℕ → State → Option (Ret × State)
  unfolding aread wait
  read_loop zero fuel mbxid buffer size s = none
  read_loop (suc rounds) fuel mbxid buffer size s = elim (aread fuel mbxid buffer size s) [
    | none ↦ none
    | some (fail e, s') ↦ some (fail e, s')
    | some (ok n, s') ↦
        let (ret, t) = wait mbxid s' in
        let rest = read_loop rounds fuel mbxid buffer size t in
        elim ret [ fail e ↦ some (fail e, t) | ok m ↦ if ltb 0 m then rest else some (ok m, t) ]
  ]

  taken : ℤ → ℕ → World State → Ret × State → Ret × World State
  taken mbxid size w (fail e, s) = (fail e, record w { state = s })
  taken mbxid size w (ok n, s) = (
    ok size,
    record w {
      state = s;
      counters =
          if w.user (pos_part mbxid)
          then record w.counters { nreads = count_one w.counters.nreads }
          else w.counters;
    },
  )

  unfoldable pub read : ℕ → ℕ → ℤ → Option ℤ → ℕ → World State → Option (Ret × World State)
  unfolding read_loop taken
  read rounds fuel mbxid none size w = some (fail einval, w)
  read rounds fuel mbxid (some buffer) size w =
      if bad_size message_size size
      then some (fail einval, w)
      else elim (read_loop rounds fuel mbxid buffer size w.state) [
        | none ↦ none
        | some answer ↦ some (taken mbxid size w answer)
      ]
