-- ===== src/Ikc/Examples.antt =====
-- A kernel of one mailbox that is busy at first, and the theorems of Ikc at it.
use libnanvix.Shared.{
  ℕ, zero, suc, ◌%◌, ◌^◌, ◌≡◌, refl, true, List, [], ◌∷◌, some, none, pos, Errno, ◌≢◌, ◌<◌, Ret, ok,
  fail, einval, eagain, enotsup, ebusy, arith,
}
use libnanvix.Kernel.{Kernel, Nr}
use libnanvix.Ikc.Retry.{before}
use libnanvix.Ikc.Mailbox.{World, no_calls, write, read, aread, wait}
use libnanvix.Ikc.Mailbox.Counting.{
  Call, creates, opens, unlinks, run, successes, is_create, is_open, is_unlink, is_close,
  counters-count,
}
use libnanvix.Ikc.Mailbox.Transfer.{write-delivers, read-delivers}
use libnanvix.Ikc.Mailbox.Control.{set_remote_of, set_remote-fails}
use libnanvix.Ikc.Sync.{ksync_signal, ksync_signal-retries}
use libnanvix.Ikc.Barrier.{SyncOps, barrier_create, barrier_destroy, barrier_wait}
use libnanvix.Ikc.Barrier.Outcomes.{destroy-create}

-- The state counts the kernel calls; the first call is answered by -EAGAIN.
abbrev reply : Nr → ℕ → Ret
reply Nr.mailbox_unlink s = fail einval
reply Nr.mailbox_create s = ok 1
reply Nr.mailbox_wait (suc (suc (suc s))) = ok 0
reply Nr.mailbox_wait s = ok 1
reply nr zero = fail eagain
reply nr (suc s) = ok 4

abbrev machine : Kernel
machine = record { State = ℕ; kcall = λ nr args s. (reply nr s, suc s) }

abbrev start : World ℕ
start = record { state = 0; user = λ _. true; counters = no_calls }

abbrev calls : List Call
calls =
    creates (pos 0) (pos 2) ∷ creates (pos 0) (pos 9) ∷ opens (pos 3) (pos 1) ∷ unlinks (pos 1) ∷ []

-- What holds of 0 holds of every number below 1.
only_first {ℓ} : (P : ℕ → Type ℓ) → P 0 → (i : ℕ) → i < 1 → P i
only_first P p zero h = p
only_first P p (suc i) h = absurd (omega arith)

counters-count_example :
    let c = (run machine 4 120 calls start).counters in
    (c.ncreates ≡ successes machine 4 120 is_create calls start % 2 ^ 64)
    × (c.nopens ≡ successes machine 4 120 is_open calls start % 2 ^ 64)
    × (c.nunlinks ≡ successes machine 4 120 is_unlink calls start % 2 ^ 64)
    × (c.ncloses ≡ successes machine 4 120 is_close calls start % 2 ^ 64)
counters-count_example = counters-count machine 4 120 calls start refl

-- The first call is answered by -EAGAIN, the second takes the message, and the third waits.
write-delivers_example :
    write machine 4 120 2 (pos 1) (some (pos 64)) 8 start
    ≡ some
        (ok 8, record { state = 3; user = λ _. true; counters = record no_calls { nwrites = 1 } })
unfolding before wait
write-delivers_example =
    write-delivers machine 4 120 2 1 3 1 (pos 1) (pos 64) 8 start 3 (omega arith) (omega arith)
      (omega arith) (only_first _ refl) refl refl

-- The second message is the one for the mailbox.
abbrev later : World ℕ
later = record { state = 1; user = λ _. true; counters = no_calls }

abbrev rounds : ℕ → ℕ
rounds zero = 1
rounds (suc r) = 3

read_once :
    read machine 4 120 2 1 (pos 1) (some (pos 64)) 8 later
    ≡ some (ok 8, record { state = 5; user = λ _. true; counters = record no_calls { nreads = 1 } })
unfolding read aread wait
read_once = refl

read-delivers_example :
    read machine 4 120 2 1 (pos 1) (some (pos 64)) 8 later
    ≡ some (ok 8, record { state = 5; user = λ _. true; counters = record no_calls { nreads = 1 } })
unfolding aread wait
read-delivers_example =
    read-delivers machine 4 120 2 1 1 8 4 (pos 1) (pos 64) rounds 4 5 later (omega arith)
      (omega arith) refl (omega arith) (only_first _ (4, 0, 2, refl, refl)) refl refl

set_remote-fails_example :
    let r =
      set_remote_of machine
        (λ _. pos 0)
        (λ _. pos 0)
        (pos 0)
        (λ _. true)
        16
        16
        (pos 1)
        (pos 2)
        (pos 3)
        start in
    (r.0 ≡ fail enotsup) × (r.1 ≡ start)
set_remote-fails_example =
    set_remote-fails machine (λ _. pos 0) (λ _. pos 0) (pos 0) (λ _. true) 16 16 (pos 1) (pos 2)
      (pos 3) start

-- A number is no error code.
ok≢fail : {n : ℕ} {e : Errno} → ok n ≢ fail e
ok≢fail e = cc

ksync_signal-retries_example :
    (r : Ret × ℕ) × (ksync_signal machine 16 (λ _. pos 0) 2 (pos 1) 0 ≡ some r) × (r.0 ≡ ok 4)
unfolding before
ksync_signal-retries_example =
    ksync_signal-retries machine 16 (λ _. pos 0) 2 1 (pos 1) 0 (omega arith) (only_first _ refl)
      ok≢fail

-- The world counts the calls, and opening a synchronization point fails.
abbrev syncs : SyncOps ℕ
syncs = record {
  create = λ nodes type w. (ok 7, suc w);
  open_output = λ nodes type w. (fail ebusy, suc w);
  unlink = λ id w. (ok 0, suc w);
  close = λ id w. (ok 0, suc w);
  wait = λ id w. (ok 0, suc w);
  signal = λ id w. (fail ebusy, suc w);
}

-- A follower that has created its point and could not open the leader's.
destroy-create_example :
    let (b, w) = barrier_create syncs 1 (some (0 ∷ 1 ∷ 2 ∷ [])) 0 in
    (w ≡ 2)
    × (b.sync1 ≡ some 7)
    × (b.sync0 ≡ none)
    × ((barrier_destroy syncs 1 b 2 ≡ (fail einval, 2))
        × (barrier_wait syncs 1 b 2 ≡ (fail einval, 2)))
destroy-create_example = destroy-create syncs 1 0 1 (2 ∷ []) 0
