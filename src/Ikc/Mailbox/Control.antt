-- ===== src/Ikc/Mailbox/Control.antt =====
-- kmailbox_ioctl(), kmailbox_set_remote(), kmailbox_get_port() and kmailbox_init() of
-- src/libnanvix/ikc/mailbox.c, with __NANVIX_IKC_USES_ONLY_MAILBOX = 1.
use libnanvix.Shared.{
  ℕ, ◌+◌, ◌≡◌, Bool, true, false, not, [], ◌∷◌, Option, none, some, ℤ, within, Ret, ok, fail,
  einval, efault, enotsup, if◌then◌else◌, arith,
}
use libnanvix.Kernel.{Kernel, Nr}
use libnanvix.Kernel.Direct.{CommType, kcomm_get_port}
use libnanvix.Ikc.Mailbox.{World, Counters, no_calls}

-- The requests KMAILBOX_IOCTL_...; `unknown` is any other number.
pub data Request : Type 0 where
  get_volume get_latency get_ncreates get_nunlinks get_nopens get_ncloses get_nreads get_nwrites :
      Request
  set_remote : Request
  unknown : Request

-- The counter that a request reads.
pub counter_of : Request → Counters → Option ℕ
counter_of get_ncreates c = some c.ncreates
counter_of get_nunlinks c = some c.nunlinks
counter_of get_nopens c = some c.nopens
counter_of get_ncloses c = some c.ncloses
counter_of get_nreads c = some c.nreads
counter_of get_nwrites c = some c.nwrites
counter_of _ c = none

-- Is the request passed on to the kernel?
kernel_request : Request → Bool
kernel_request get_volume = true
kernel_request get_latency = true
kernel_request _ = false

unfoldable pub init : {S : Type 0} → World S → World S
init w = record w { counters = no_calls }

-- The parameters: the numbers of the communication types and of the requests, the address of the
-- variable arguments, and which addresses of a uint64_t lie in the user's memory (mm_check_area()).
module _ (k : Kernel) (code : CommType → ℤ) (number : Request → ℤ) (args : ℤ)
    (in_user_area : ℤ → Bool) where
  open k use {State, kcall}

  -- The value that goes to `*var` stands behind the return value.
  read_counter : ℕ → Option ℤ → World State → Ret × State → Ret × Option ℕ × World State
  read_counter value var w (fail e, s) = (fail e, none, record w { state = s })
  read_counter value none w (ok port, s) = (fail efault, none, record w { state = s })
  read_counter value (some address) w (ok port, s) =
      if not (in_user_area address)
      then (fail efault, none, record w { state = s })
      else (ok 0, some value, record w { state = s })

  -- `var` is the first of the variable arguments, NULL where it is `none`.
  pub ioctl : ℤ → Request → Option ℤ → World State → Ret × Option ℕ × World State
  unfolding counter_of kernel_request read_counter kcomm_get_port
  ioctl mbxid request var w =
      if kernel_request request
      then (let (ret, s) = kcall Nr.mailbox_ioctl (mbxid ∷ number request ∷ args ∷ []) w.state in
          (ret, none, record w { state = s }))
      else elim (counter_of request w.counters) [
        | none ↦ (fail enotsup, none, w)
        | some value ↦
            read_counter value var w (kcomm_get_port k code mbxid (some CommType.mailbox) w.state)
      ]

  -- kmailbox_set_remote(); the bounds are MAILBOX_ANY_SOURCE and MAILBOX_ANY_PORT.
  pub set_remote_of : ℕ → ℕ → ℤ → ℤ → ℤ → World State → Ret × World State
  unfolding ioctl
  set_remote_of any_source any_port mbxid remote remote_port w =
      if not (within remote 0 (any_source + 1))
      then (fail einval, w)
      else if not (within remote_port 0 (any_port + 1))
      then (fail einval, w)
      else (let (ret, value, w') = ioctl mbxid set_remote (some remote) w in (ret, w'))

  pub get_port : ℕ → ℤ → State → Ret × State
  unfolding kcomm_get_port
  get_port mailbox_max mbxid s =
      if not (within mbxid 0 mailbox_max)
      then (fail einval, s)
      else kcomm_get_port k code mbxid (some CommType.mailbox) s

  -- In this configuration kmailbox_set_remote() never succeeds, whatever its arguments are: the
  -- request is not among those that kmailbox_ioctl() handles. Nothing is changed, and the kernel is
  -- not called.
  pub set_remote-fails :
      (any_source any_port : ℕ) (mbxid remote remote_port : ℤ) (w : World State)
      → let r = set_remote_of any_source any_port mbxid remote remote_port w in
        (r.0 ≡ (
          if within remote 0 (any_source + 1)
          then (if within remote_port 0 (any_port + 1) then fail enotsup else fail einval)
          else fail einval))
        × (r.1 ≡ w)
  unfolding set_remote_of
  set_remote-fails any_source any_port mbxid remote remote_port w = (ground arith, ground arith)

  -- An ioctl writes a value only if it returns 0 for one of the six counters: the value is then that
  -- counter, the mailbox has a port, and the buffer is in the user's memory. No ioctl changes a
  -- counter or a mark.
  pub ioctl-reads :
      (mbxid : ℤ) (request : Request) (var : Option ℤ) (w : World State)
      → let r = ioctl mbxid request var w in
        ((v : ℕ) → r.1 ≡ some v → (r.0 ≡ ok 0) × (counter_of request w.counters ≡ some v))
        × (r.2.counters ≡ w.counters)
        × (r.2.user ≡ w.user)
  unfolding ioctl
  ioctl-reads mbxid request var w =
      (λ v e. (ground arith, ground arith), ground arith, ground arith)
