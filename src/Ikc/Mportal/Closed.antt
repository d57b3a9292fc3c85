-- ===== src/Ikc/Mportal/Closed.antt =====
-- An output portal whose last reference kportal_close() of src/libnanvix/ikc/mportal.c drops.
use libnanvix.Shared.{ℕ, ◌≡◌, ◌≢◌, sym, ◌∙◌, ap, true, false, some, is_zero, decrement, arith}
use native.Mathlib.Decide.{ℕ_discrete}
use libnanvix.Ikc.Resource.{Resources}
use libnanvix.Ikc.Mportal.Table.{Ports, port_taken, dropped}
use libnanvix.Ikc.Mportal.Ownership.{IsOutput, Has, Owned, dropped-used}

module _ (res : Resources) (portal_max port_nr : ℕ) where
  open res use {Resource, is_used, is_readable, is_writable}

  -- The last reference of the output portal `k`, which has port `p` to `r`.
  module _ (t : Ports Resource) (k r p : ℕ) (o : Owned res portal_max port_nr t)
      (out : IsOutput res portal_max port_nr t k) (has : Has res portal_max port_nr t k r p)
      (last : is_zero (decrement (t.portals k).refcount) ≡ true) where
    unfoldable pub closed : Ports Resource
    closed = dropped res portal_max port_nr k (port_taken res portal_max port_nr r p false t)

    closed-other :
        (i : ℕ)
        → IsOutput res portal_max port_nr closed i
        → (k ≢ i)
          × IsOutput res portal_max port_nr t i
          × ((t.portals i).config ≡ (closed.portals i).config)
    unfolding closed dropped
    closed-other i (lt, used, writable) = (
      λ same. ground (arith, same, last, used, res.used-freed (t.resources k)),
      (
        lt,
        ground (arith, last, used, res.used-freed (t.resources k)),
        ground (arith, last, used, writable, res.used-freed (t.resources k)),
      ),
      ground (arith, last, used, res.used-freed (t.resources k)),
    )

    closed-port :
        (r' p' : ℕ)
        → (r ≡ r' → p ≡ p' → is_used (closed.ports r' p') ≡ true)
        → is_used (t.ports r' p') ≡ true
        → is_used (closed.ports r' p') ≡ true
    unfolding closed dropped
    closed-port r' p' differ used = elim (ℕ_discrete r r') [
      | yes same ↦ elim (ℕ_discrete p p') [
        | yes also ↦ differ same also
        | no other ↦ ground (arith, last, other, used)
      ]
      | no other ↦ ground (arith, last, other, used)
    ]

    pub closed-Owned : Owned res portal_max port_nr closed
    unfolding closed dropped
    closed-Owned = record {
      initialized = ground (arith, last, o.initialized);
      held = λ i out_i.
          let (other, before, config) = closed-other i out_i in
          let (r', p', (e, f), inside, taken) = o.held i before in
          (
            r',
            p',
            (ap (λ c. c.remote) (sym config) ∙ e, ap (λ c. c.local_port) (sym config) ∙ f),
            inside,
            closed-port r' p'
                (λ same also. absurd (
                  other (
                    o.alone k i r' p' out before (has.0 ∙ ap some same, has.1 ∙ ap some also)
                      (e, f))))
                taken,
          );
      alone = λ i j r' p' out_i out_j (e, f) (g, h).
          let (other_i, before_i, config_i) = closed-other i out_i in
          let (other_j, before_j, config_j) = closed-other j out_j in
          o.alone i j r' p' before_i before_j
            (ap (λ c. c.remote) config_i ∙ e, ap (λ c. c.local_port) config_i ∙ f)
            (ap (λ c. c.remote) config_j ∙ g, ap (λ c. c.local_port) config_j ∙ h);
      one_way = λ i lt used readable.
          let (same, config) =
            dropped-used res portal_max port_nr (port_taken res portal_max port_nr r p false t) k i
              used in
          sym (ap is_writable same)
          ∙ o.one_way i lt (ap is_used same ∙ used) (ap is_readable same ∙ readable);
    }
