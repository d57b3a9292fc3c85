-- ===== src/Ikc/Mportal/Leak.antt =====
-- What a kportal_open() of src/libnanvix/ikc/mportal.c that fails leaves behind.
use libnanvix.Shared.{
  ℕ, ◌<◌, ◌≡◌, refl, true, false, not, none, some, fail, ebusy, Errno, Option-cases, inl, inr,
  find_first, find_from-some, find_from-none, arith,
}
use libnanvix.Ikc.Resource.{Resources}
use libnanvix.Ikc.Mportal.Pieces.{Config}
use libnanvix.Ikc.Mportal.Table.{
  Channels, Ports, port_taken, port_alloc, search, open_with, open_portal,
}

module _ (res : Resources) (portal_max port_nr : ℕ) where
  open res use {Resource, is_used}

  -- Without a free portal, whatever the search finds, the table stays as it is.
  open_with-fails :
      (ch : Channels) (remote : ℕ) (c : Config) (t : Ports Resource)
      → res.alloc portal_max t.resources ≡ none
      → (e : Errno) × (open_with res portal_max port_nr ch remote c t ≡ (fail e, t))
  unfolding open_with
  open_with-fails ch remote c t full =
      elim (Option-cases (search res portal_max port_nr t c false)) [
        | inl none_found ↦ (res.exhausted, ground (arith, none_found, full))
        | inr (i, found) ↦ (ebusy, ground (arith, found))
      ]

  -- While the table of portals is full, an open fails and still takes a local port to the remote, if one
  -- is free: the portals are as before, and the port is taken although no call returns it.
  pub open-leaks :
      (ch : Channels) (local remote remote_port free : ℕ) (t : Ports Resource)
      → res.alloc portal_max t.resources ≡ none
      → free < port_nr
      → is_used (t.ports remote free) ≡ false
      → (e : Errno) × (u : Ports Resource) × (p : ℕ) × (open_portal res portal_max port_nr ch local
            remote remote_port t
          ≡ (fail e, u))
        × (u.resources ≡ t.resources)
        × (u.portals ≡ t.portals)
        × (is_used (t.ports remote p) ≡ false)
        × (is_used (u.ports remote p) ≡ true)
  unfolding open_portal port_alloc
  open-leaks ch local remote remote_port free t full inside unused =
      elim (Option-cases (find_first port_nr (λ i. not (is_used (t.ports remote i))))) [
        | inl taken ↦ absurd (
            ground
              (arith, unused, find_from-none port_nr 0 _ taken free (omega arith) (omega arith)))
        | inr (p, found) ↦
            let (from, below, fresh, before) =
              find_from-some port_nr 0 p (λ i. not (is_used (t.ports remote i))) found in
            let u = port_taken res portal_max port_nr remote p true t in
            let c : Config = record {
              local = some local;
              local_port = some p;
              remote = some remote;
              remote_port = some remote_port;
            } in
            let (e, fails) = open_with-fails ch remote c u full in
            (
              e,
              u,
              p,
              ground (arith, found, fails),
              refl,
              refl,
              ground (arith, fresh),
              ground (arith, res.used-set_used (t.ports remote p)),
            )
      ]
