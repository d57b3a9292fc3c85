-- ===== src/Ikc/Mportal/Owners.antt =====
-- The calls of src/libnanvix/ikc/mportal.c keep what output portals and local ports have to do with
-- each other.
use libnanvix.Shared.{
  ℕ, ◌<◌, ◌≡◌, refl, sym, subst, true, false, not, some, ok, done, Bool-cases, Option-cases, inl,
  inr, find_first, find_from-some, is_zero, decrement, update, arith, is_some, count_one,
}
use libnanvix.Ikc.Resource.{Resources}
use libnanvix.Ikc.Mportal.Pieces.{Config}
use libnanvix.Ikc.Mportal.Table.{
  Counters, Portal, Channels, Ports, port_taken, port_alloc, port_release, search, create_portal,
  open_with, open_portal, allow_portal, dropped, unlink_portal, close_portal, new_portal,
}
use libnanvix.Ikc.Mportal.Ownership.{
  IsOutput, Has, Owned, Keeps, Keeps-Owned, input-Keeps, allowed-Keeps, dropped-Keeps, held-taken,
  taken-Keeps,
}
use libnanvix.Ikc.Mportal.Opened.{opened, opened-Owned}
use libnanvix.Ikc.Mportal.Closed.{closed, closed-Owned}

module _ (res : Resources) (portal_max port_nr : ℕ) where
  open res use {Resource, is_used, is_readable, is_writable}

  -- An equation of tables keeps the invariant, and so does a change of the counters.
  kept :
      (t u : Ports Resource)
      → Owned res portal_max port_nr t
      → t ≡ u
      → Owned res portal_max port_nr u
  kept t u o e = subst (λ x. Owned res portal_max port_nr x) e o

  counted-Keeps :
      (t : Ports Resource) (counters : Counters)
      → Owned res portal_max port_nr t
      → Keeps res portal_max port_nr t (record t { counters = counters })
  counted-Keeps t counters o = record {
    initialized = refl;
    outputs = λ i out. (out, refl);
    ports = λ r p e. e;
    one_way = o.one_way;
  }

  counted :
      (t : Ports Resource) (counters : Counters)
      → Owned res portal_max port_nr t
      → Owned res portal_max port_nr (record t { counters = counters })
  counted t counters o =
      Keeps-Owned res portal_max port_nr t (record t { counters = counters })
        (counted-Keeps t counters o) o

  pub create_portal-Owned :
      (c : Config) (t : Ports Resource)
      → Owned res portal_max port_nr t
      → Owned res portal_max port_nr (create_portal res portal_max port_nr c t).1
  unfolding create_portal
  create_portal-Owned c t o = elim (Option-cases (search res portal_max port_nr t c true)) [
    | inr (i, found) ↦ kept t (create_portal res portal_max port_nr c t).1 o (ground (arith, found))
    | inl none_found ↦ elim (Option-cases (res.alloc portal_max t.resources)) [
      | inl full ↦
          kept t (create_portal res portal_max port_nr c t).1 o (ground (arith, none_found, full))
      | inr (k, e) ↦
          let portal =
            new_portal res portal_max port_nr c (t.portals k).mallow (t.portals k).mdata in
          let counters = record t.counters { ncreates = count_one t.counters.ncreates } in
          kept _ (create_portal res portal_max port_nr c t).1
            (Keeps-Owned res portal_max port_nr t _
              (input-Keeps res portal_max port_nr t k portal counters o) o)
            (ground (arith, none_found, e))
    ]
  ]

  pub allow_portal-Owned :
      (ch : Channels) (k remote remote_port : ℕ) (t : Ports Resource)
      → Owned res portal_max port_nr t
      → k < portal_max
      → is_used (t.resources k) ≡ true
      → is_readable (t.resources k) ≡ true
      → Owned res portal_max port_nr
          (allow_portal res portal_max port_nr ch k remote remote_port t).1
  unfolding allow_portal
  allow_portal-Owned ch k remote remote_port t o inside used readable =
      elim (Bool-cases (is_some (t.portals k).config.remote)) [
        | inl busy ↦
            kept t (allow_portal res portal_max port_nr ch k remote remote_port t).1 o
              (ground (arith, busy))
        | inr free ↦
            let portal = t.portals k in
            let allowed : Portal = record portal {
              mallow = ch.mallow_outs remote;
              mdata = ch.mdata_ins remote;
              config = record portal.config {
                remote = some remote;
                remote_port = some remote_port;
              };
            } in
            kept (record t { portals = update t.portals k allowed })
              (allow_portal res portal_max port_nr ch k remote remote_port t).1
              (Keeps-Owned res portal_max port_nr t _
                (allowed-Keeps res portal_max port_nr t k allowed o inside used readable) o)
              (ground (arith, free))
      ]

  pub unlink_portal-Owned :
      (k : ℕ) (t : Ports Resource)
      → Owned res portal_max port_nr t
      → Owned res portal_max port_nr (unlink_portal res portal_max port_nr k t).1
  unfolding unlink_portal
  unlink_portal-Owned k t o =
      counted _ _
        (Keeps-Owned res portal_max port_nr t _ (dropped-Keeps res portal_max port_nr t k o) o)

  -- A close of an output portal succeeds.
  pub close_portal-Owned :
      (k : ℕ) (t : Ports Resource)
      → Owned res portal_max port_nr t
      → IsOutput res portal_max port_nr t k
      → (u : Ports Resource) × (close_portal res portal_max port_nr k t ≡ done (ok 0, u))
        × Owned res portal_max port_nr u
  unfolding close_portal port_release closed
  close_portal-Owned k t o out =
      let (r, p, has, inside, taken) = o.held k out in
      let v = dropped res portal_max port_nr k (port_taken res portal_max port_nr r p false t) in
      let w = dropped res portal_max port_nr k t in
      elim (Bool-cases (is_zero (decrement (t.portals k).refcount))) [
        | inl last ↦ (
          record v { counters = record v.counters { ncloses = count_one v.counters.ncloses } },
          ground (arith, last, has, inside, taken),
          counted v _ (closed-Owned res portal_max port_nr t k r p o out has last),
        )
        | inr more ↦ (
          record w { counters = record w.counters { ncloses = count_one w.counters.ncloses } },
          ground (arith, more),
          counted w _ (
              Keeps-Owned res portal_max port_nr t w (dropped-Keeps res portal_max port_nr t k o)
                o),
        )
      ]

  -- What kportal_port_alloc() gives was free, and is taken then.
  port_alloc-some :
      (remote p : ℕ) (t u : Ports Resource)
      → port_alloc res portal_max port_nr remote t ≡ (some p, u)
      → (p < port_nr)
        × (is_used (t.ports remote p) ≡ false)
        × (u ≡ port_taken res portal_max port_nr remote p true t)
  unfolding port_alloc
  port_alloc-some remote p t u e =
      elim (Option-cases (find_first port_nr (λ i. not (is_used (t.ports remote i))))) [
        | inl full ↦ absurd (ground (arith, full, e))
        | inr (i, found) ↦
            let (from, below, free, before) =
              find_from-some port_nr 0 i (λ i. not (is_used (t.ports remote i))) found in
            let same : i ≡ p = ground (arith, found, e) in
            (omega arith, ground (arith, free, same), ground (arith, found, e, same))
      ]

  open_with-Owned :
      (ch : Channels) (remote p : ℕ) (c : Config) (t : Ports Resource)
      → Owned res portal_max port_nr t
      → p < port_nr
      → is_used (t.ports remote p) ≡ true
      → c.remote ≡ some remote
      → c.local_port ≡ some p
      → ((i k : ℕ)
          → IsOutput res portal_max port_nr t i
          → Has res portal_max port_nr t i remote p
          → i ≡ k)
      → Owned res portal_max port_nr (open_with res portal_max port_nr ch remote c t).1
  unfolding open_with opened
  open_with-Owned ch remote p c t o inside taken e f lonely =
      elim (Option-cases (search res portal_max port_nr t c false)) [
        | inr (i, found) ↦
            kept t (open_with res portal_max port_nr ch remote c t).1 o (ground (arith, found))
        | inl none_found ↦ elim (Option-cases (res.alloc portal_max t.resources)) [
          | inl full ↦
              kept t (open_with res portal_max port_nr ch remote c t).1 o
                (ground (arith, none_found, full))
          | inr (k, at) ↦
              let portal =
                new_portal res portal_max port_nr c ch.mallow_in (ch.mdata_outs remote) in
              let counters = record t.counters { nopens = count_one t.counters.nopens } in
              kept
                (opened res portal_max port_nr t k remote p portal counters o inside taken (e, f)
                  (λ i. lonely i k))
                (open_with res portal_max port_nr ch remote c t).1
                (opened-Owned res portal_max port_nr t k remote p portal counters o inside taken
                  (e, f) (λ i. lonely i k))
                (ground (arith, none_found, at))
        ]
      ]

  -- A port that is given out was free: no output portal has it.
  given-Owned :
      (ch : Channels) (remote p : ℕ) (c : Config) (t u : Ports Resource)
      → Owned res portal_max port_nr t
      → c.remote ≡ some remote
      → c.local_port ≡ some p
      → port_alloc res portal_max port_nr remote t ≡ (some p, u)
      → Owned res portal_max port_nr (open_with res portal_max port_nr ch remote c u).1
  given-Owned ch remote p c t u o e f given =
      let (inside, free, same) = port_alloc-some remote p t u given in
      let v = port_taken res portal_max port_nr remote p true t in
      let owned : Owned res portal_max port_nr v =
        Keeps-Owned res portal_max port_nr t v (taken-Keeps res portal_max port_nr t remote p o)
          o in
      let taken : is_used (v.ports remote p) ≡ true =
        ground (arith, res.used-set_used (t.ports remote p)) in
      subst (λ x. Owned res portal_max port_nr (open_with res portal_max port_nr ch remote c x).1)
        (sym same)
        (open_with-Owned ch remote p c v owned inside taken e f (λ i k out has.
          absurd (cc (free, (held-taken res portal_max port_nr t i remote p o out has).1))))

  pub open_portal-Owned :
      (ch : Channels) (local remote remote_port : ℕ) (t : Ports Resource)
      → Owned res portal_max port_nr t
      → Owned res portal_max port_nr
          (open_portal res portal_max port_nr ch local remote remote_port t).1
  unfolding open_portal port_alloc
  open_portal-Owned ch local remote remote_port t o =
      elim (Option-cases (find_first port_nr (λ i. not (is_used (t.ports remote i))))) [
        | inl full ↦
            kept t (open_portal res portal_max port_nr ch local remote remote_port t).1 o
              (ground (arith, full))
        | inr (p, found) ↦
            let u = port_taken res portal_max port_nr remote p true t in
            let c : Config = record {
              local = some local;
              local_port = some p;
              remote = some remote;
              remote_port = some remote_port;
            } in
            kept (open_with res portal_max port_nr ch remote c u).1
              (open_portal res portal_max port_nr ch local remote remote_port t).1
              (given-Owned ch remote p c t u o refl refl (ground (arith, found)))
              (ground (arith, found))
      ]
