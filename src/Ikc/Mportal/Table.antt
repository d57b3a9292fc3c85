-- ===== src/Ikc/Mportal/Table.antt =====
-- The table of portals of src/libnanvix/ikc/mportal.c: how portals are found, created, allowed,
-- opened, unlinked and closed. KPORTAL_MAX is `portal_max` and KPORTAL_PORT_NR is `port_nr`.
use libnanvix.Shared.{
  ℕ, Bool, true, false, not, ◌&&◌, ◌||◌, Option, none, some, ℤ, pos, Ret, ok, fail, Errno, ebadf,
  ebusy, Outcome, done, panic, is_zero, decrement, count_one, is_some, find_first, ltb,
  if◌then◌else◌, update,
}
use libnanvix.Ikc.Resource.{Resources}
use libnanvix.Ikc.Mportal.Pieces.{Config}
use libnanvix.Ikc.Mportal.Buffers.{config_null, same_id}

-- Each counter is a uint64_t.
pub record Counters : Type 0 where
  pub ncreates : ℕ
  pub nunlinks : ℕ
  pub nopens : ℕ
  pub ncloses : ℕ
  pub nreads : ℕ
  pub nwrites : ℕ

-- A struct mportal without its resource.
pub record Portal : Type 0 where
  pub refcount : ℤ
  pub mallow : Option ℕ
  pub mdata : Option ℕ
  pub config : Config
  pub volume : ℕ
  pub latency : ℕ

-- The mailbox channels.
pub record Channels : Type 0 where
  pub mallow_in : Option ℕ
  pub mallow_outs : ℕ → Option ℕ
  pub mdata_ins : ℕ → Option ℕ
  pub mdata_outs : ℕ → Option ℕ

-- `mportals`, with the resources apart, `mports`, `mportal_counters` and `kportal_is_initialized`.
pub record Ports (R : Type 0) : Type 0 where
  pub resources : ℕ → R
  pub portals : ℕ → Portal
  pub ports : ℕ → ℕ → R
  pub counters : Counters
  pub is_initialized : Bool

module _ (res : Resources) (portal_max port_nr : ℕ) where
  open res use {Resource, is_used, is_readable, is_writable, is_busy}

  abbrev pub port_taken : ℕ → ℕ → Bool → Ports Resource → Ports Resource
  port_taken remote port taken t =
      let r = t.ports remote port in
      let r' = (if taken then res.set_used r else res.set_unused r) in
      record t { ports = update t.ports remote (update (t.ports remote) port r') }

  -- kportal_port_alloc(); `none` is -EBUSY.
  unfoldable pub port_alloc : ℕ → Ports Resource → Option ℕ × Ports Resource
  port_alloc remote t = elim (find_first port_nr (λ i. not (is_used (t.ports remote i)))) [
    | none ↦ (none, t)
    | some i ↦ (some i, port_taken remote i true t)
  ]

  unfoldable pub port_release : Option ℕ → Option ℕ → Ports Resource → Outcome (Ports Resource)
  port_release (some remote) (some port) t =
      if not (ltb port port_nr)
      then panic
      else if not (is_used (t.ports remote port))
      then panic
      else done (port_taken remote port false t)
  port_release _ _ t = panic

  unfoldable pub accessible : Bool → Resource → Bool
  accessible input r = if input then is_readable r else is_writable r

  -- The conditions under which the loop of kportal_search() stops at a portal.
  unfoldable pub matches : Ports Resource → Config → Bool → ℕ → Bool
  unfolding accessible
  matches t c input i =
      let own = (t.portals i).config in
      is_used (t.resources i)
      && accessible input (t.resources i)
      && same_id own.local c.local
      && same_id own.local_port c.local_port
      && (input || (same_id own.remote c.remote && same_id own.remote_port c.remote_port))

  -- kportal_search(); its callers have checked that the node is the local one.
  unfoldable pub search : Ports Resource → Config → Bool → Option ℕ
  unfolding matches
  search t c input = find_first portal_max (matches t c input)

  -- The first checks that a call makes of its portal: the error that it returns, if it makes no more.
  unfoldable pub bad : Bool → Resource → Option Errno
  unfolding accessible
  bad input r =
      if not (is_used r) then some ebadf else if not (accessible input r) then some ebadf else none

  unfoldable pub refusal : Bool → Resource → Option Errno
  unfolding bad
  refusal input r = elim (bad input r) [
    | some e ↦ some e
    | none ↦ if is_busy r then some ebusy else none
  ]

  -- What kportal_create() and kportal_open() make of the portal that they are given.
  abbrev pub new_portal : Config → Option ℕ → Option ℕ → Portal
  new_portal c mallow mdata = record {
    refcount = pos 1;
    mallow = mallow;
    mdata = mdata;
    config = c;
    volume = 0;
    latency = 0;
  }

  -- The critical section of kportal_create().
  unfoldable pub create_portal : Config → Ports Resource → Ret × Ports Resource
  unfolding search
  create_portal c t = elim (search t c true) [
    | some i ↦ (fail ebusy, t)
    | none ↦ elim (res.alloc portal_max t.resources) [
      | none ↦ (fail res.exhausted, t)
      | some i ↦ (
        ok i,
        record t {
          resources = update t.resources i (res.set_rdonly (res.given (t.resources i)));
          portals = update t.portals i (new_portal c (t.portals i).mallow (t.portals i).mdata);
          counters = record t.counters { ncreates = count_one t.counters.ncreates };
        },
      )
    ]
  ]

  -- What kportal_open() does once it has a local port.
  unfoldable pub open_with : Channels → ℕ → Config → Ports Resource → Ret × Ports Resource
  unfolding search
  open_with ch remote c t = elim (search t c false) [
    | some i ↦ (fail ebusy, t)
    | none ↦ elim (res.alloc portal_max t.resources) [
      | none ↦ (fail res.exhausted, t)
      | some i ↦ (
        ok i,
        record t {
          resources = update t.resources i (res.set_wronly (res.given (t.resources i)));
          portals = update t.portals i (new_portal c ch.mallow_in (ch.mdata_outs remote));
          counters = record t.counters { nopens = count_one t.counters.nopens };
        },
      )
    ]
  ]

  -- The critical section of kportal_open().
  unfoldable pub open_portal : Channels → ℕ → ℕ → ℕ → Ports Resource → Ret × Ports Resource
  unfolding port_alloc open_with
  open_portal ch local remote remote_port t =
      let (port, u) = port_alloc remote t in
      elim port [
        | none ↦ (fail ebusy, u)
        | some local_port ↦
            let c : Config = record {
              local = some local;
              local_port = some local_port;
              remote = some remote;
              remote_port = some remote_port;
            } in
            open_with ch remote c u
      ]

  -- The critical section of kportal_allow() behind its first checks.
  unfoldable pub allow_portal : Channels → ℕ → ℕ → ℕ → Ports Resource → Ret × Ports Resource
  allow_portal ch i remote remote_port t =
      let portal = t.portals i in
      let allowed : Portal = record portal {
        mallow = ch.mallow_outs remote;
        mdata = ch.mdata_ins remote;
        config = record portal.config { remote = some remote; remote_port = some remote_port };
      } in
      if is_some portal.config.remote
      then (fail ebusy, t)
      else (ok 0, record t { portals = update t.portals i allowed })

  -- A portal without references is given back.
  unfoldable pub dropped : ℕ → Ports Resource → Ports Resource
  dropped i t =
      let portal = t.portals i in
      let left = decrement portal.refcount in
      let empty : Portal = record portal {
        refcount = left;
        mallow = none;
        mdata = none;
        config = config_null;
      } in
      if is_zero left
      then record t {
        resources = update t.resources i (res.freed (t.resources i));
        portals = update t.portals i empty;
      }
      else record t { portals = update t.portals i (record portal { refcount = left }) }

  unfoldable pub unlink_portal : ℕ → Ports Resource → Ret × Ports Resource
  unfolding dropped
  unlink_portal i t =
      let u = dropped i t in
      (ok 0, record u { counters = record u.counters { nunlinks = count_one u.counters.nunlinks } })

  -- The port goes with the last reference.
  unfoldable pub close_portal : ℕ → Ports Resource → Outcome (Ret × Ports Resource)
  unfolding dropped port_release
  close_portal i t =
      let c = (t.portals i).config in
      let freed : Outcome (Ports Resource) =
        if is_zero (decrement (t.portals i).refcount)
        then port_release c.remote c.local_port t
        else done t in
      elim freed [
        | panic ↦ panic
        | done u ↦
            let v = dropped i u in
            done (
              ok 0,
              record v { counters = record v.counters { ncloses = count_one v.counters.ncloses } },
            )
      ]
