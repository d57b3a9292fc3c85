-- ===== src/Ikc/Mportal/Calls.antt =====
-- The calls on the table of portals of src/libnanvix/ikc/mportal.c.
use libnanvix.Shared.{
  ℕ, Bool, true, false, not, Option, none, some, ℤ, pos, negsuc, Ret, ok, fail, einval, ebadf,
  ebusy, efault, enotsup, Outcome, done, panic, is_some, ltb, if◌then◌else◌,
}
use libnanvix.Ikc.Resource.{Resources}
use libnanvix.Ikc.Mportal.Pieces.{Config}
use libnanvix.Ikc.Mportal.Buffers.{Pool, buffer_search}
use libnanvix.Ikc.Mportal.Table.{
  Counters, Portal, Channels, Ports, refusal, create_portal, open_portal, allow_portal,
  unlink_portal, close_portal,
}

-- The requests KPORTAL_IOCTL_...; `unknown` is any other number.
pub data Request : Type 0 where
  get_volume get_latency get_ncreates get_nunlinks get_nopens get_ncloses get_nreads get_nwrites :
      Request
  unknown : Request

unfoldable pub value_of : Request → Portal → Counters → Option ℕ
value_of get_volume portal c = some portal.volume
value_of get_latency portal c = some portal.latency
value_of get_ncreates portal c = some c.ncreates
value_of get_nunlinks portal c = some c.nunlinks
value_of get_nopens portal c = some c.nopens
value_of get_ncloses portal c = some c.ncloses
value_of get_nreads portal c = some c.nreads
value_of get_nwrites portal c = some c.nwrites
value_of unknown portal c = none

-- kportal_ioctl_valid(): which addresses lie in the user's memory is a parameter, and NULL is `none`.
unfoldable pub ioctl_valid : (ℤ → Bool) → Option ℤ → Bool
ioctl_valid in_user_area none = false
ioctl_valid in_user_area (some address) = in_user_area address

-- A number that passes a check, if it is not negative: of a node, and of a port or a portal.
abbrev pub passed : (ℕ → Bool) → ℤ → Option ℕ
passed test (pos n) = if test n then some n else none
passed test (negsuc n) = none

-- `node_is_valid` and `node_is_local` are parameters; the first refuses negative numbers.
module _ (res : Resources) (portal_max port_nr buffer_max buffer_size : ℕ)
    (node_is_valid node_is_local : ℕ → Bool) where
  open res use {Resource, is_used, is_busy}

  abbrev portal_at : ℤ → Option ℕ
  portal_at = passed (λ n. ltb n portal_max)

  abbrev port_at : ℤ → Option ℕ
  port_at = passed (λ n. ltb n port_nr)

  unfoldable pub kportal_create :
      (local local_port : ℤ) → Ports Resource → Outcome (Ret × Ports Resource)
  unfolding create_portal
  kportal_create local local_port t =
      if not t.is_initialized then panic else elim (passed node_is_valid local) [
        | none ↦ done (fail einval, t)
        | some l ↦
            if not (node_is_local l) then done (fail einval, t) else elim (port_at local_port) [
              | none ↦ done (fail einval, t)
              | some port ↦
                  let c : Config = record {
                    local = some l;
                    local_port = some port;
                    remote = none;
                    remote_port = none;
                  } in
                  done (create_portal res portal_max port_nr c t)
            ]
      ]

  unfoldable pub kportal_allow :
      Channels → (portalid remote remote_port : ℤ) → Ports Resource → Ret × Ports Resource
  unfolding refusal allow_portal
  kportal_allow ch portalid remote remote_port t = elim (portal_at portalid) [
    | none ↦ (fail einval, t)
    | some i ↦ elim (passed node_is_valid remote) [
      | none ↦ (fail einval, t)
      | some r ↦ elim (port_at remote_port) [
        | none ↦ (fail einval, t)
        | some port ↦ elim (refusal res portal_max port_nr true (t.resources i)) [
          | some e ↦ (fail e, t)
          | none ↦ allow_portal res portal_max port_nr ch i r port t
        ]
      ]
    ]
  ]

  unfoldable pub kportal_open :
      Channels → (local remote remote_port : ℤ) → Ports Resource → Outcome (Ret × Ports Resource)
  unfolding open_portal
  kportal_open ch local remote remote_port t =
      if not t.is_initialized then panic else elim (passed node_is_valid local) [
        | none ↦ done (fail einval, t)
        | some l ↦ elim (passed node_is_valid remote) [
          | none ↦ done (fail einval, t)
          | some r ↦
              if not (node_is_local l) then done (fail einval, t) else elim (port_at remote_port) [
                | none ↦ done (fail einval, t)
                | some port ↦ done (open_portal res portal_max port_nr ch l r port t)
              ]
        ]
      ]

  -- A portal with a buffer is busy.
  unfoldable pub kportal_unlink :
      Pool Resource → (portalid : ℤ) → Ports Resource → Ret × Ports Resource
  unfolding refusal unlink_portal buffer_search
  kportal_unlink pool portalid t = elim (portal_at portalid) [
    | none ↦ (fail einval, t)
    | some i ↦ elim (refusal res portal_max port_nr true (t.resources i)) [
      | some e ↦ (fail e, t)
      | none ↦
          if is_some (buffer_search res buffer_max buffer_size (t.portals i).config pool)
          then (fail ebusy, t)
          else unlink_portal res portal_max port_nr i t
    ]
  ]

  unfoldable pub kportal_close : (portalid : ℤ) → Ports Resource → Outcome (Ret × Ports Resource)
  unfolding refusal close_portal
  kportal_close portalid t = elim (portal_at portalid) [
    | none ↦ done (fail einval, t)
    | some i ↦ elim (refusal res portal_max port_nr false (t.resources i)) [
      | some e ↦ done (fail e, t)
      | none ↦ close_portal res portal_max port_nr i t
    ]
  ]

  unfoldable pub kportal_wait : (portalid : ℤ) → Ports Resource → Ret
  kportal_wait portalid t = elim (portal_at portalid) [
    | none ↦ fail einval
    | some i ↦
        if not (is_used (t.resources i))
        then fail ebadf
        else if is_busy (t.resources i)
        then fail ebusy
        else ok 0
  ]

  -- The port is -1, here `none`, for a portal that has none.
  unfoldable pub kportal_get_port : (portalid : ℤ) → Ports Resource → Option Ret
  kportal_get_port portalid t = elim (portal_at portalid) [
    | none ↦ some (fail einval)
    | some i ↦
        if not (is_used (t.resources i))
        then some (fail ebadf)
        else elim (t.portals i).config.local_port [ none ↦ none | some port ↦ some (ok port) ]
  ]

  -- `var` is the variable argument; the value that goes to `*var` stands behind the return value.
  unfoldable pub kportal_ioctl :
      (ℤ → Bool) → (portalid : ℤ) → Request → Option ℤ → Ports Resource → Ret × Option ℕ
  unfolding value_of ioctl_valid
  kportal_ioctl in_user_area portalid request var t = elim (portal_at portalid) [
    | none ↦ (fail einval, none)
    | some i ↦
        if not (is_used (t.resources i))
        then (fail ebadf, none)
        else if is_busy (t.resources i)
        then (fail ebusy, none)
        else elim (value_of request (t.portals i) t.counters) [
          | none ↦ (fail enotsup, none)
          | some value ↦
              if ioctl_valid in_user_area var then (ok 0, some value) else (fail efault, none)
        ]
  ]
