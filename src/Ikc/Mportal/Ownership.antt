-- ===== src/Ikc/Mportal/Ownership.antt =====
-- The local ports that the output portals of src/libnanvix/ikc/mportal.c hold.
use libnanvix.Shared.{ℕ, ◌<◌, ◌≡◌, refl, sym, ◌∙◌, ap, subst, true, false, some, update, arith}
use native.Mathlib.Decide.{ℕ_discrete}
use libnanvix.Ikc.Resource.{Resources}
use libnanvix.Ikc.Mportal.Table.{Counters, Portal, Ports, port_taken, dropped}

module _ (res : Resources) (portal_max port_nr : ℕ) where
  open res use {Resource, is_used, is_readable, is_writable}

  -- Portal `i` is in use for an output.
  abbrev pub IsOutput : Ports Resource → ℕ → Type 0
  IsOutput t i =
      (i < portal_max) × (is_used (t.resources i) ≡ true) × (is_writable (t.resources i) ≡ true)

  -- It has that local port to that remote.
  abbrev pub Has : Ports Resource → ℕ → ℕ → ℕ → Type 0
  Has t i r p = ((t.portals i).config.remote ≡ some r) × ((t.portals i).config.local_port ≡ some p)

  pub record Owned (t : Ports Resource) : Type 0 where
    pub initialized : t.is_initialized ≡ true
    -- An output portal has a port, which is taken.
    pub held :
        (i : ℕ)
        → IsOutput t i
        → (r : ℕ) × (p : ℕ) × Has t i r p × (p < port_nr) × (is_used (t.ports r p) ≡ true)
    -- Nobody else has it.
    pub alone : (i j r p : ℕ) → IsOutput t i → IsOutput t j → Has t i r p → Has t j r p → i ≡ j
    -- A portal for an input is none for an output.
    pub one_way :
        (i : ℕ)
        → i < portal_max
        → is_used (t.resources i) ≡ true
        → is_readable (t.resources i) ≡ true
        → is_writable (t.resources i) ≡ false

  -- A change after which there are no other output portals and the ports are taken still.
  pub record Keeps (t u : Ports Resource) : Type 0 where
    pub initialized : t.is_initialized ≡ u.is_initialized
    pub outputs :
        (i : ℕ) → IsOutput u i → IsOutput t i × ((t.portals i).config ≡ (u.portals i).config)
    pub ports : (r p : ℕ) → is_used (t.ports r p) ≡ true → is_used (u.ports r p) ≡ true
    pub one_way :
        (i : ℕ)
        → i < portal_max
        → is_used (u.resources i) ≡ true
        → is_readable (u.resources i) ≡ true
        → is_writable (u.resources i) ≡ false

  Has-same :
      (t u : Ports Resource) (i r p : ℕ)
      → (t.portals i).config ≡ (u.portals i).config
      → Has u i r p
      → Has t i r p
  Has-same t u i r p e (remote, port) =
      (ap (λ c. c.remote) e ∙ remote, ap (λ c. c.local_port) e ∙ port)

  pub Keeps-Owned : (t u : Ports Resource) → Keeps t u → Owned t → Owned u
  Keeps-Owned t u k o = record {
    initialized = sym k.initialized ∙ o.initialized;
    held = λ i out.
        let (before, config) = k.outputs i out in
        let (r, p, has, inside, taken) = o.held i before in
        (r, p, Has-same u t i r p (sym config) has, inside, k.ports r p taken);
    alone = λ i j r p out_i out_j has_i has_j.
        let (before_i, config_i) = k.outputs i out_i in
        let (before_j, config_j) = k.outputs j out_j in
        o.alone i j r p before_i before_j (Has-same t u i r p config_i has_i)
          (Has-same t u j r p config_j has_j);
    one_way = k.one_way;
  }

  -- A new portal for an input at place `k`.
  pub input-Keeps :
      (t : Ports Resource) (k : ℕ) (portal : Portal) (counters : Counters)
      → Owned t
      → Keeps t (record t {
        resources = update t.resources k (res.set_rdonly (res.given (t.resources k)));
        portals = update t.portals k portal;
        counters = counters;
      })
  input-Keeps t k portal counters o = record {
    initialized = refl;
    outputs = λ i (lt, used, writable). elim (ℕ_discrete k i) [
      | yes same ↦
          absurd
            (ground (arith, same, writable, res.writable-set_rdonly (res.given (t.resources k))))
      | no other ↦ (
        (lt, ground (arith, other, used), ground (arith, other, writable)),
        ground (arith, other),
      )
    ];
    ports = λ r p e. e;
    one_way = λ i lt used readable. elim (ℕ_discrete k i) [
      | yes same ↦ ground (arith, same, res.writable-set_rdonly (res.given (t.resources k)))
      | no other ↦ ground (
        arith,
        other,
        o.one_way i lt (ground (arith, other, used)) (ground (arith, other, readable)),
      )
    ];
  }

  -- The portal at place `k` changes, and is one for an input.
  pub allowed-Keeps :
      (t : Ports Resource) (k : ℕ) (portal : Portal)
      → Owned t
      → k < portal_max
      → is_used (t.resources k) ≡ true
      → is_readable (t.resources k) ≡ true
      → Keeps t (record t { portals = update t.portals k portal })
  allowed-Keeps t k portal o inside used readable = record {
    initialized = refl;
    outputs = λ i (lt, used_i, writable). elim (ℕ_discrete k i) [
      | yes same ↦ absurd (cc (writable, same, o.one_way k inside used readable))
      | no other ↦ ((lt, used_i, writable), ground (arith, other))
    ];
    ports = λ r p e. e;
    one_way = o.one_way;
  }

  -- A portal loses a reference.
  pub dropped-used :
      (t : Ports Resource) (k i : ℕ)
      → let u = dropped res portal_max port_nr k t in
        is_used (u.resources i) ≡ true
        → (t.resources i ≡ u.resources i) × ((t.portals i).config ≡ (u.portals i).config)
  unfolding dropped
  dropped-used t k i used = (
    ground (arith, used, res.used-freed (t.resources k)),
    ground (arith, used, res.used-freed (t.resources k)),
  )

  pub dropped-Keeps :
      (t : Ports Resource) (k : ℕ) → Owned t → Keeps t (dropped res portal_max port_nr k t)
  unfolding dropped
  dropped-Keeps t k o = record {
    initialized = ground arith;
    outputs = λ i (lt, used, writable).
        let (same, config) = dropped-used t k i used in
        ((lt, ap is_used same ∙ used, ap is_writable same ∙ writable), config);
    ports = λ r p e. ground (arith, e);
    one_way = λ i lt used readable.
        let (same, config) = dropped-used t k i used in
        sym (ap is_writable same)
        ∙ o.one_way i lt (ap is_used same ∙ used) (ap is_readable same ∙ readable);
  }

  -- The port of an output portal is taken.
  pub held-taken :
      (t : Ports Resource) (i r p : ℕ)
      → Owned t
      → IsOutput t i
      → Has t i r p
      → (p < port_nr) × (is_used (t.ports r p) ≡ true)
  held-taken t i r p o out (remote, port) =
      let (r', p', (remote', port'), inside, taken) = o.held i out in
      let same_r : r' ≡ r = cc (remote, remote') in
      let same_p : p' ≡ p = cc (port, port') in
      (
        subst (λ x. x < port_nr) same_p inside,
        subst (λ x. is_used (t.ports x p) ≡ true) same_r
            (subst (λ x. is_used (t.ports r' x) ≡ true) same_p taken),
      )

  pub taken-Keeps :
      (t : Ports Resource) (remote port : ℕ)
      → Owned t
      → Keeps t (port_taken res portal_max port_nr remote port true t)
  taken-Keeps t remote port o = record {
    initialized = refl;
    outputs = λ i out. (out, refl);
    ports = λ r p e. ground (arith, e, res.used-set_used (t.ports remote port));
    one_way = o.one_way;
  }
