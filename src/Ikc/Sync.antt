-- ===== src/Ikc/Sync.antt =====
-- src/libnanvix/ikc/sync.c: synchronization points that the kernel implements
-- (__NANVIX_IKC_USES_ONLY_MAILBOX = 0). A list of nodes is its address, NULL where it is `none`.
use libnanvix.Shared.{
  ℕ, suc, ◌+◌, ◌<◌, ◌≡◌, ◌≢◌, refl, Bool, true, false, not, [], ◌∷◌, Option, none, some, ℤ, within,
  Ret, ok, fail, einval, eagain, if◌then◌else◌, arith,
}
use libnanvix.Kernel.{Kernel, Nr}
use libnanvix.Ikc.Retry.{retry, answer, before, retry_stops}

-- The types SYNC_ONE_TO_ALL and SYNC_ALL_TO_ONE; any other integer is `none` of an Option.
pub data SyncType : Type 0 where
  one_to_all all_to_one : SyncType

abbrev pub signal_again : Ret → Bool
signal_again (fail eagain) = true
signal_again _ = false

not_again : (r : Ret) → r ≢ fail eagain → signal_again r ≡ false
not_again (ok n) h = refl
not_again (fail e) h = ground arith

module _ (k : Kernel) (nodes_num : ℕ) (code : SyncType → ℤ) where
  open k use {State, kcall}

  pub ksync_create : Option ℤ → ℤ → Option SyncType → State → Ret × State
  ksync_create none nnodes type s = (fail einval, s)
  ksync_create (some nodes) nnodes none s = (fail einval, s)
  ksync_create (some nodes) nnodes (some type) s =
      if not (within nnodes 2 (nodes_num + 1))
      then (fail einval, s)
      else kcall Nr.sync_create (nodes ∷ nnodes ∷ code type ∷ []) s

  pub ksync_open : Option ℤ → ℤ → Option SyncType → State → Ret × State
  ksync_open none nnodes type s = (fail einval, s)
  ksync_open (some nodes) nnodes none s = (fail einval, s)
  ksync_open (some nodes) nnodes (some type) s =
      if not (within nnodes 2 (nodes_num + 1))
      then (fail einval, s)
      else kcall Nr.sync_open (nodes ∷ nnodes ∷ code type ∷ []) s

  pub ksync_wait : ℤ → State → Ret × State
  ksync_wait syncid = kcall Nr.sync_wait (syncid ∷ [])

  pub ksync_close : ℤ → State → Ret × State
  ksync_close syncid = kcall Nr.sync_close (syncid ∷ [])

  pub ksync_unlink : ℤ → State → Ret × State
  ksync_unlink syncid = kcall Nr.sync_unlink (syncid ∷ [])

  -- `args` is the address of the variable arguments.
  pub ksync_ioctl : ℤ → ℤ → ℤ → State → Ret × State
  ksync_ioctl syncid request args = kcall Nr.sync_ioctl (syncid ∷ request ∷ args ∷ [])

  pub ksync_signal : ℕ → ℤ → State → Option (Ret × State)
  unfolding retry
  ksync_signal fuel syncid = retry (kcall Nr.sync_signal (syncid ∷ [])) signal_again fuel

  -- A signal is repeated until the kernel's answer is not -EAGAIN, and then returns that answer: if
  -- the answers before number `j` are -EAGAIN and that one is not, fuel above `j` is enough.
  pub ksync_signal-retries :
      (fuel j : ℕ) (syncid : ℤ) (s : State)
      → let call = kcall Nr.sync_signal (syncid ∷ []) in
        j < fuel
        → ((i : ℕ) → i < j → answer call signal_again i s ≡ fail eagain)
        → answer call signal_again j s ≢ fail eagain
        → (r : Ret × State) × (ksync_signal fuel syncid s ≡ some r)
          × (r.0 ≡ answer call signal_again j s)
  unfolding ksync_signal
  ksync_signal-retries fuel j syncid s lt busy stop =
      let call = kcall Nr.sync_signal (syncid ∷ []) in
      (
        (answer call signal_again j s, before call signal_again (suc j) s),
        retry_stops call signal_again fuel j s lt (λ i h. rw (busy i h)) (not_again _ stop),
        refl,
      )
