-- ===== src/Ikc/Portal.antt =====
-- src/libnanvix/ikc/portal.c: portals that the kernel implements (__NANVIX_IKC_USES_ONLY_MAILBOX = 0).
-- The kernel is a parameter, and so are KPORTAL_MAX, KPORTAL_MAX_SIZE and KPORTAL_MESSAGE_DATA_SIZE. A
-- buffer is its address, NULL where it is `none`.
pub mod Writing
mod Examples
use libnanvix.Shared.{
  ℕ, zero, suc, ◌+◌, ◌-◌, ◌*◌, ◌/◌, Bool, true, false, not, ◌&&◌, ◌||◌, List, [], ◌∷◌, Option, none,
  some, ℤ, pos, negsuc, pos_part, within, Ret, ok, fail, einval, eacces, ebusy, enomsg, ltb, ◌==◌,
  if◌then◌else◌, update,
}
use libnanvix.Kernel.{Kernel, Nr}
use libnanvix.Kernel.Direct.{CommType, portal, knode_get_num, kcomm_get_port}
use libnanvix.Ikc.Retry.{retry}
use libnanvix.Ikc.Mportal.Pieces.{piece_size}

-- An entry of `kportal_allows`.
pub record Allowed : Type 0 where
  pub remote : ℤ
  pub port : ℤ

abbrev pub no_allow : Allowed
no_allow = record { remote = negsuc 0; port = negsuc 0 }

-- The kernel's state and `kportal_allows`, whose index is not checked in C.
pub record World (S : Type 0) : Type 0 where
  pub state : S
  pub allows : ℕ → Allowed

-- The return values after which the loops of awrite and of aread call the kernel again.
abbrev pub write_again : Ret → Bool
write_again (fail eacces) = true
write_again (fail ebusy) = true
write_again _ = false

abbrev pub read_again : Ret → Bool
read_again (fail ebusy) = true
read_again (fail enomsg) = true
read_again _ = false

abbrev pub succeeds : Ret → Bool
succeeds (ok n) = true
succeeds (fail e) = false

module _ (k : Kernel) (portal_max max_size data_size : ℕ) where
  open k use {State, kcall}

  abbrev pub bad_size : ℕ → ℕ → Bool
  bad_size limit size = size == 0 || ltb limit size

  -- A new portal has no allow.
  unfoldable pub created : World State → Ret × State → Ret × World State
  created w (fail e, s) = (fail e, record w { state = s })
  created w (ok id, s) = (ok id, record { state = s; allows = update w.allows id no_allow })

  -- Is this the node that knode_get_num() returns? Its number is not negative.
  abbrev pub is_node : ℤ → Ret → Bool
  is_node (pos n) (ok m) = n == m
  is_node _ _ = false

  unfoldable pub kportal_create : (local local_port : ℤ) → World State → Ret × World State
  unfolding created knode_get_num
  kportal_create local local_port w =
      let (node, s) = knode_get_num k w.state in
      if not (is_node local node)
      then (fail einval, record w { state = s })
      else created w (kcall Nr.portal_create (local ∷ local_port ∷ []) s)

  -- What kportal_allow() does with the kernel's answer.
  unfoldable pub allowed :
      (portalid remote remote_port : ℤ) → World State → Ret × State → Ret × World State
  allowed portalid remote remote_port w (fail e, s) = (fail e, record w { state = s })
  allowed portalid remote remote_port w (ok n, s) =
      let entry : Allowed = record { remote = remote; port = remote_port } in
      (
        ok n,
        record {
          state = s;
          allows = if n == 0 then update w.allows (pos_part portalid) entry else w.allows;
        },
      )

  unfoldable pub kportal_allow : (portalid remote remote_port : ℤ) → World State → Ret × World State
  unfolding allowed
  kportal_allow portalid remote remote_port w =
      allowed portalid remote remote_port w
        (kcall Nr.portal_allow (portalid ∷ remote ∷ remote_port ∷ []) w.state)

  unfoldable pub kportal_open : (local remote remote_port : ℤ) → State → Ret × State
  unfolding knode_get_num
  kportal_open local remote remote_port s =
      let (node, s') = knode_get_num k s in
      if not (is_node local node)
      then (fail einval, s')
      else kcall Nr.portal_open (local ∷ remote ∷ remote_port ∷ []) s'

  unfoldable pub kportal_unlink : ℤ → State → Ret × State
  kportal_unlink portalid = kcall Nr.portal_unlink (portalid ∷ [])

  unfoldable pub kportal_close : ℤ → State → Ret × State
  kportal_close portalid = kcall Nr.portal_close (portalid ∷ [])

  unfoldable pub kportal_aread : ℕ → ℤ → Option ℕ → ℕ → State → Option (Ret × State)
  unfolding retry
  kportal_aread fuel portalid none size s = some (fail einval, s)
  kportal_aread fuel portalid (some buffer) size s =
      if bad_size data_size size
      then some (fail einval, s)
      else retry (kcall Nr.portal_aread (portalid ∷ pos buffer ∷ pos size ∷ [])) read_again fuel s

  unfoldable pub kportal_awrite : ℕ → ℤ → Option ℕ → ℕ → State → Option (Ret × State)
  unfolding retry
  kportal_awrite fuel portalid none size s = some (fail einval, s)
  kportal_awrite fuel portalid (some buffer) size s =
      if bad_size data_size size
      then some (fail einval, s)
      else retry (kcall Nr.portal_awrite (portalid ∷ pos buffer ∷ pos size ∷ [])) write_again fuel s

  unfoldable pub kportal_wait : ℤ → State → Ret × State
  kportal_wait portalid = kcall Nr.portal_wait (portalid ∷ [])

  -- The loop of kportal_write() over the `n` pieces from number `t` on, and the return behind it.
  unfoldable pub write_pieces :
      (fuel n t times remainder : ℕ) → ℤ → (buffer size : ℕ) → State → Option (Ret × State)
  unfolding kportal_awrite kportal_wait
  write_pieces fuel zero t times remainder portalid buffer size s = some (ok size, s)
  write_pieces fuel (suc n) t times remainder portalid buffer size s =
      let m = piece_size data_size times remainder t in
      elim (kportal_awrite fuel portalid (some buffer) m s) [
        | none ↦ none
        | some (fail e, s') ↦ some (fail e, s')
        | some (ok l, s') ↦
            let (waited, s'') = kportal_wait portalid s' in
            let rest = write_pieces fuel n (suc t) times remainder portalid (buffer + m) size s'' in
            elim waited [
              | fail e ↦ some (fail e, s'')
              | ok zero ↦ rest
              | ok (suc j) ↦ some (ok (suc j), s'')
            ]
      ]

  unfoldable pub kportal_write : ℕ → ℤ → Option ℕ → ℕ → State → Option (Ret × State)
  unfolding write_pieces
  kportal_write fuel portalid none size s = some (fail einval, s)
  kportal_write fuel portalid (some buffer) size s =
      let times = size / data_size in
      let remainder = size - times * data_size in
      if bad_size max_size size
      then some (fail einval, s)
      else write_pieces fuel (times + (if not (remainder == 0) then 1 else 0)) 0 times remainder
          portalid buffer size s

  -- The inner loop of kportal_read() for piece `t`, with the `ret` so far, for at most `rounds`
  -- messages: 0, or the error with which the read ends.
  unfoldable pub read_piece :
      (fuel rounds t : ℕ)
      → Ret
      → ℤ
      → Allowed
      → (buffer n : ℕ) → World State
      → Option (Ret × World State)
  unfolding kportal_allow kportal_aread kportal_wait
  read_piece fuel zero t ret portalid a buffer n w = none
  read_piece fuel (suc rounds) t ret portalid a buffer n w =
      let v =
        (if not (t == 0) && succeeds ret
          then (kportal_allow portalid a.remote a.port w).1
          else w) in
      elim (kportal_aread fuel portalid (some buffer) n v.state) [
        | none ↦ none
        | some (fail e, s) ↦ some (fail e, record v { state = s })
        | some (ok l, s) ↦
            let (waited, s') = kportal_wait portalid s in
            let rest =
              read_piece fuel rounds t waited portalid a buffer n (record v { state = s' }) in
            elim waited [
              | fail e ↦ some (fail e, record v { state = s' })
              | ok zero ↦ some (ok 0, record v { state = s' })
              | ok (suc m) ↦ rest
            ]
      ]

  -- The loop over the pieces, and what is behind it.
  unfoldable pub read_pieces :
      (fuel rounds n t times remainder : ℕ)
      → Ret
      → ℤ
      → Allowed
      → (buffer size : ℕ) → World State
      → Option (Ret × World State)
  unfolding read_piece
  read_pieces fuel rounds zero t times remainder ret portalid a buffer size w =
      some (ok size, record w { allows = update w.allows (pos_part portalid) no_allow })
  read_pieces fuel rounds (suc n) t times remainder ret portalid a buffer size w =
      let m = piece_size data_size times remainder t in
      elim (read_piece fuel rounds t ret portalid a buffer m w) [
        | none ↦ none
        | some (fail e, v) ↦ some (fail e, v)
        | some (ok l, v) ↦
            read_pieces fuel rounds n (suc t) times remainder (ok l) portalid a (buffer + m) size v
      ]

  unfoldable pub kportal_read :
      (fuel rounds : ℕ) → ℤ → Option ℕ → ℕ → World State → Option (Ret × World State)
  unfolding read_pieces
  kportal_read fuel rounds portalid none size w = some (fail einval, w)
  kportal_read fuel rounds portalid (some buffer) size w =
      let times = size / data_size in
      let remainder = size - times * data_size in
      if bad_size max_size size
      then some (fail einval, w)
      else read_pieces fuel rounds (times + (if not (remainder == 0) then 1 else 0)) 0 times
          remainder (fail einval) portalid (w.allows (pos_part portalid)) buffer size w

  -- `args` is the address of the variable arguments.
  unfoldable pub kportal_ioctl : ℤ → ℤ → ℤ → State → Ret × State
  kportal_ioctl portalid request args = kcall Nr.portal_ioctl (portalid ∷ request ∷ args ∷ [])

  unfoldable pub kportal_get_port : (CommType → ℤ) → ℤ → State → Ret × State
  unfolding kcomm_get_port
  kportal_get_port code portalid s =
      if not (within portalid 0 portal_max)
      then (fail einval, s)
      else kcomm_get_port k code portalid (some portal) s
