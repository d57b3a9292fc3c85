-- ===== src/Ikc/Mportal/Sequences.antt =====
-- Sequences of calls on the table of portals of src/libnanvix/ikc/mportal.c.
use libnanvix.Shared.{
  ℕ, ◌<◌, ◌≡◌, ◌≢◌, subst, Bool, true, false, none, some, ℤ, pos, negsuc, Ret, ok, fail, einval,
  ebusy, Outcome, done, panic, Bool-cases, Option-cases, inl, inr, ltb, arith, is_some,
}
use libnanvix.Ikc.Resource.{Resources}
use libnanvix.Ikc.Mportal.Pieces.{Config}
use libnanvix.Ikc.Mportal.Buffers.{Pool, buffer_search}
use libnanvix.Ikc.Mportal.Table.{
  Channels, Ports, accessible, bad, refusal, create_portal, open_portal, allow_portal,
  unlink_portal,
}
use libnanvix.Ikc.Mportal.Calls.{
  passed, kportal_create, kportal_allow, kportal_open, kportal_unlink, kportal_close,
}
use libnanvix.Ikc.Mportal.Ownership.{IsOutput, Has, Owned}
use libnanvix.Ikc.Mportal.Owners.{
  create_portal-Owned, allow_portal-Owned, open_portal-Owned, unlink_portal-Owned,
  close_portal-Owned,
}

-- A call, with the buffers that it meets.
pub data Call (R : Type 0) : Type 0 where
  creates : (local local_port : ℤ) → Call R
  allows : (portalid remote remote_port : ℤ) → Call R
  opens : (local remote remote_port : ℤ) → Call R
  unlinks : Pool R → (portalid : ℤ) → Call R
  closes : (portalid : ℤ) → Call R

module _ (res : Resources) (portal_max port_nr buffer_max buffer_size : ℕ)
    (node_is_valid node_is_local : ℕ → Bool) (ch : Channels) where
  open res use {Resource, is_used, is_readable, is_writable}

  unfoldable pub perform : Call Resource → Ports Resource → Outcome (Ret × Ports Resource)
  perform (creates local port) t =
      kportal_create res portal_max port_nr buffer_max buffer_size node_is_valid node_is_local local
        port t
  perform (allows i remote port) t = done (
      kportal_allow res portal_max port_nr buffer_max buffer_size node_is_valid node_is_local ch i
        remote port t)
  perform (opens local remote port) t =
      kportal_open res portal_max port_nr buffer_max buffer_size node_is_valid node_is_local ch
        local remote port t
  perform (unlinks pool i) t = done (
      kportal_unlink res portal_max port_nr buffer_max buffer_size node_is_valid node_is_local pool
        i t)
  perform (closes i) t =
      kportal_close res portal_max port_nr buffer_max buffer_size node_is_valid node_is_local i t

  pub data Reach (t : Ports Resource) : Ports Resource → Type 0 where
    begins : Reach t t
    later :
        {u v : Ports Resource} {r : Ret} (c : Call Resource)
        → Reach t u
        → perform c u ≡ done (r, v)
        → Reach t v

  -- A call that ends well.
  abbrev Fine : Outcome (Ret × Ports Resource) → Type 0
  Fine x = (r : Ret) × (u : Ports Resource) × (x ≡ done (r, u)) × Owned res portal_max port_nr u

  refusal-none :
      (input : Bool) (r : Resource)
      → refusal res portal_max port_nr input r ≡ none
      → (is_used r ≡ true) × (accessible res portal_max port_nr input r ≡ true)
  unfolding refusal bad
  refusal-none input r e = (ground (arith, e), ground (arith, e))

  passed-below : (n : ℕ) (x : ℤ) (i : ℕ) → passed (λ k. ltb k n) x ≡ some i → i < n
  passed-below n (pos k) i e = ground (arith, e)
  passed-below n (negsuc k) i e = cc e

  create-Fine :
      (local port : ℤ) (t : Ports Resource)
      → Owned res portal_max port_nr t
      → Fine (perform (creates local port) t)
  unfolding perform kportal_create
  create-Fine local port t o = elim (Option-cases (passed node_is_valid local)) [
    | inl invalid ↦ (fail einval, t, ground (arith, o.initialized, invalid), o)
    | inr (l, valid) ↦ elim (Bool-cases (node_is_local l)) [
      | inr far ↦ (fail einval, t, ground (arith, o.initialized, valid, far), o)
      | inl near ↦ elim (Option-cases (passed (λ n. ltb n port_nr) port)) [
        | inl no_port ↦ (fail einval, t, ground (arith, o.initialized, valid, near, no_port), o)
        | inr (p, at) ↦
            let c : Config = record {
              local = some l;
              local_port = some p;
              remote = none;
              remote_port = none;
            } in
            let done_with = create_portal res portal_max port_nr c t in
            (
              done_with.0,
              done_with.1,
              ground (arith, o.initialized, valid, near, at),
              create_portal-Owned res portal_max port_nr c t o,
            )
      ]
    ]
  ]

  open-Fine :
      (local remote port : ℤ) (t : Ports Resource)
      → Owned res portal_max port_nr t
      → Fine (perform (opens local remote port) t)
  unfolding perform kportal_open
  open-Fine local remote port t o = elim (Option-cases (passed node_is_valid local)) [
    | inl invalid ↦ (fail einval, t, ground (arith, o.initialized, invalid), o)
    | inr (l, valid) ↦ elim (Option-cases (passed node_is_valid remote)) [
      | inl nowhere ↦ (fail einval, t, ground (arith, o.initialized, valid, nowhere), o)
      | inr (r, there) ↦ elim (Bool-cases (node_is_local l)) [
        | inr far ↦ (fail einval, t, ground (arith, o.initialized, valid, there, far), o)
        | inl near ↦ elim (Option-cases (passed (λ n. ltb n port_nr) port)) [
          | inl no_port ↦
              (fail einval, t, ground (arith, o.initialized, valid, there, near, no_port), o)
          | inr (p, at) ↦
              let done_with = open_portal res portal_max port_nr ch l r p t in
              (
                done_with.0,
                done_with.1,
                ground (arith, o.initialized, valid, there, near, at),
                open_portal-Owned res portal_max port_nr ch l r p t o,
              )
        ]
      ]
    ]
  ]

  allow-Fine :
      (i remote port : ℤ) (t : Ports Resource)
      → Owned res portal_max port_nr t
      → Fine (perform (allows i remote port) t)
  unfolding perform kportal_allow accessible
  allow-Fine i remote port t o = elim (Option-cases (passed (λ n. ltb n portal_max) i)) [
    | inl outside ↦ (fail einval, t, ground (arith, outside), o)
    | inr (k, at) ↦ elim (Option-cases (passed node_is_valid remote)) [
      | inl nowhere ↦ (fail einval, t, ground (arith, at, nowhere), o)
      | inr (r, there) ↦ elim (Option-cases (passed (λ n. ltb n port_nr) port)) [
        | inl no_port ↦ (fail einval, t, ground (arith, at, there, no_port), o)
        | inr (p, port_at) ↦
            elim (Option-cases (refusal res portal_max port_nr true (t.resources k))) [
              | inr (e, refused) ↦ (fail e, t, ground (arith, at, there, port_at, refused), o)
              | inl free ↦
                  let (used, access) = refusal-none true (t.resources k) free in
                  let done_with = allow_portal res portal_max port_nr ch k r p t in
                  (
                    done_with.0,
                    done_with.1,
                    ground (arith, at, there, port_at, free),
                    allow_portal-Owned res portal_max port_nr ch k r p t o
                        (passed-below portal_max i k at) used access,
                  )
            ]
      ]
    ]
  ]

  unlink-Fine :
      (pool : Pool Resource) (i : ℤ) (t : Ports Resource)
      → Owned res portal_max port_nr t
      → Fine (perform (unlinks pool i) t)
  unfolding perform kportal_unlink
  unlink-Fine pool i t o = elim (Option-cases (passed (λ n. ltb n portal_max) i)) [
    | inl outside ↦ (fail einval, t, ground (arith, outside), o)
    | inr (k, at) ↦ elim (Option-cases (refusal res portal_max port_nr true (t.resources k))) [
      | inr (e, refused) ↦ (fail e, t, ground (arith, at, refused), o)
      | inl free ↦
          elim (Bool-cases
            (is_some (buffer_search res buffer_max buffer_size (t.portals k).config pool))) [
              | inl full ↦ (fail ebusy, t, ground (arith, at, free, full), o)
              | inr empty ↦
                  let done_with = unlink_portal res portal_max port_nr k t in
                  (
                    done_with.0,
                    done_with.1,
                    ground (arith, at, free, empty),
                    unlink_portal-Owned res portal_max port_nr k t o,
                  )
            ]
    ]
  ]

  close-Fine :
      (i : ℤ) (t : Ports Resource) → Owned res portal_max port_nr t → Fine (perform (closes i) t)
  unfolding perform kportal_close accessible
  close-Fine i t o = elim (Option-cases (passed (λ n. ltb n portal_max) i)) [
    | inl outside ↦ (fail einval, t, ground (arith, outside), o)
    | inr (k, at) ↦ elim (Option-cases (refusal res portal_max port_nr false (t.resources k))) [
      | inr (e, refused) ↦ (fail e, t, ground (arith, at, refused), o)
      | inl free ↦
          let (used, access) = refusal-none false (t.resources k) free in
          let (u, e, owned) =
            close_portal-Owned res portal_max port_nr k t o
              (passed-below portal_max i k at, used, access) in
          (ok 0, u, ground (arith, at, free, e), owned)
    ]
  ]

  perform-Fine :
      (c : Call Resource) (t : Ports Resource) → Owned res portal_max port_nr t → Fine (perform c t)
  perform-Fine (creates local port) t o = create-Fine local port t o
  perform-Fine (allows i remote port) t o = allow-Fine i remote port t o
  perform-Fine (opens local remote port) t o = open-Fine local remote port t o
  perform-Fine (unlinks pool i) t o = unlink-Fine pool i t o
  perform-Fine (closes i) t o = close-Fine i t o

  Reach-Owned :
      {t u : Ports Resource}
      → Owned res portal_max port_nr t
      → Reach t u
      → Owned res portal_max port_nr u
  Reach-Owned o begins = o
  Reach-Owned o (later {u} {v} {r} c path e) =
      let (r', v', f, owned) = perform-Fine c u (Reach-Owned o path) in
      subst (λ x. Owned res portal_max port_nr x) (cc (e, f)) owned

  -- From an initialized table without portals on, after any calls of kportal_create(),
  -- kportal_allow(), kportal_open(), kportal_unlink() and kportal_close(), with any arguments: no
  -- further such call fails the KASSERT() on kportal_is_initialized or those of
  -- kportal_port_release(), and two output portals with the same local port to the same remote are one
  -- portal.
  pub ports_owned :
      (t u : Ports Resource)
      → t.is_initialized ≡ true
      → ((i : ℕ) → i < portal_max → is_used (t.resources i) ≡ false)
      → Reach t u
      → ((c : Call Resource) → perform c u ≢ panic)
        × ((i j r p : ℕ)
            → IsOutput res portal_max port_nr u i
            → IsOutput res portal_max port_nr u j
            → Has res portal_max port_nr u i r p
            → Has res portal_max port_nr u j r p
            → i ≡ j)
  ports_owned t u initialized empty path =
      let start : Owned res portal_max port_nr t = record {
        initialized = initialized;
        held = λ i (lt, used, writable). absurd (cc (used, empty i lt));
        alone = λ i j r p (lt, used, writable) out_j has_i has_j. absurd (cc (used, empty i lt));
        one_way = λ i lt used readable. absurd (cc (used, empty i lt));
      } in
      let o = Reach-Owned start path in
      ((λ c fails. let (r, v, e, owned) = perform-Fine c u o in cc (fails, e)), o.alone)
