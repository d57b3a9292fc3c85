-- ===== src/Ikc/Mportal/Opened.antt =====
-- An output portal that kportal_open() of src/libnanvix/ikc/mportal.c has just opened.
use libnanvix.Shared.{ℕ, ◌<◌, ◌≡◌, ◌≢◌, sym, ◌∙◌, ap, true, some, update, arith}
use native.Mathlib.Decide.{ℕ_discrete}
use libnanvix.Ikc.Resource.{Resources}
use libnanvix.Ikc.Mportal.Table.{Counters, Portal, Ports}
use libnanvix.Ikc.Mportal.Ownership.{IsOutput, Has, Owned}

module _ (res : Resources) (portal_max port_nr : ℕ) where
  open res use {Resource, is_used, is_readable, is_writable}

  -- A new portal for an output at place `k`, with a port that no portal has.
  module _ (t : Ports Resource) (k remote port : ℕ) (portal : Portal) (counters : Counters)
      (o : Owned res portal_max port_nr t) (inside : port < port_nr)
      (taken : is_used (t.ports remote port) ≡ true)
      (has : (portal.config.remote ≡ some remote) × (portal.config.local_port ≡ some port))
      (lonely : (i : ℕ)
        → IsOutput res portal_max port_nr t i
        → Has res portal_max port_nr t i remote port
        → i ≡ k) where
    unfoldable pub opened : Ports Resource
    opened = record t {
      resources = update t.resources k (res.set_wronly (res.given (t.resources k)));
      portals = update t.portals k portal;
      counters = counters;
    }

    other-IsOutput :
        (i : ℕ)
        → k ≢ i
        → IsOutput res portal_max port_nr opened i
        → IsOutput res portal_max port_nr t i
    unfolding opened
    other-IsOutput i other (lt, used, writable) =
        (lt, ground (arith, other, used), ground (arith, other, writable))

    other-Has :
        (i r p : ℕ)
        → k ≢ i
        → Has res portal_max port_nr opened i r p
        → Has res portal_max port_nr t i r p
    unfolding opened
    other-Has i r p other (e, f) = (ground (arith, other, e), ground (arith, other, f))

    new-Has :
        (i r p : ℕ) → k ≡ i → Has res portal_max port_nr opened i r p → (remote ≡ r) × (port ≡ p)
    unfolding opened
    new-Has i r p same (e, f) = (ground (arith, same, e, has), ground (arith, same, f, has))

    no_other :
        (i j r p : ℕ)
        → k ≡ i
        → IsOutput res portal_max port_nr opened j
        → Has res portal_max port_nr opened i r p
        → Has res portal_max port_nr opened j r p
        → i ≡ j
    no_other i j r p same out_j has_i has_j = elim (ℕ_discrete k j) [
      | yes also ↦ sym same ∙ also
      | no other ↦
          let (e, f) = new-Has i r p same has_i in
          let (g, h) = other-Has j r p other has_j in
          sym same
          ∙ sym (lonely j (other-IsOutput j other out_j) (g ∙ ap some (sym e), h ∙ ap some (sym f)))
    ]

    pub opened-Owned : Owned res portal_max port_nr opened
    unfolding opened
    opened-Owned = record {
      initialized = o.initialized;
      held = λ i out. elim (ℕ_discrete k i) [
        | yes same ↦
            (remote, port, (ground (arith, same, has), ground (arith, same, has)), inside, taken)
        | no other ↦
            let (r, p, (e, f), low, used) = o.held i (other-IsOutput i other out) in
            (r, p, (ground (arith, other, e), ground (arith, other, f)), low, used)
      ];
      alone = λ i j r p out_i out_j has_i has_j. elim (ℕ_discrete k i) [
        | yes same ↦ no_other i j r p same out_j has_i has_j
        | no other ↦ elim (ℕ_discrete k j) [
          | yes also ↦ sym (no_other j i r p also out_i has_j has_i)
          | no neither ↦
              o.alone i j r p (other-IsOutput i other out_i) (other-IsOutput j neither out_j)
                (other-Has i r p other has_i) (other-Has j r p neither has_j)
        ]
      ];
      one_way = λ i lt used readable. elim (ℕ_discrete k i) [
        | yes same ↦
            absurd
              (ground (arith, same, readable, res.readable-set_wronly (res.given (t.resources k))))
        | no other ↦ ground (
          arith,
          other,
          o.one_way i lt (ground (arith, other, used)) (ground (arith, other, readable)),
        )
      ];
    }
