-- ===== src/Ikc/Mportal/Allow.antt =====
-- How a writer waits until the other side allows it to write (do_kportal_wait_allow() of
-- src/libnanvix/ikc/mportal.c), for one thread. The mailbox `mallow` is a parameter, over a world `W`.
use libnanvix.Shared.{
  ℕ, zero, suc, Bool, true, false, not, ◌&&◌, Option, none, some, Ret, ok, fail, Errno, Outcome,
  done, panic, is_some, find_first, if◌then◌else◌, update,
}
use libnanvix.Ikc.Resource.{Resources}
use libnanvix.Ikc.Mportal.Pieces.{Config}
use libnanvix.Ikc.Mportal.Buffers.{same_id}
use libnanvix.Ikc.Mportal.Table.{Ports}

-- A read of an allow: the configuration of the reader, or an error.
pub data Allow (W : Type 0) : Type 0 where
  arrived : Config → W → Allow W
  failed : Errno → W → Allow W

module _ (res : Resources) (portal_max : ℕ) (node_is_local : ℕ → Bool) where
  open res use {Resource, is_used, is_writable}

  -- Is there an output portal to node `n`?
  unfoldable pub is_open_to : Ports Resource → ℕ → Bool
  is_open_to t n = is_some (
      find_first portal_max (λ i.
        is_used (t.resources i)
        && is_writable (t.resources i)
        && same_id (t.portals i).config.remote (some n)))

  -- kportal_receive_allow(), on `remote_is_allowed`. An index of -1 is undefined in C.
  unfoldable pub receive_allow : Config → Ports Resource → (ℕ → Bool) → Outcome (ℕ → Bool)
  unfolding is_open_to
  receive_allow c t allowed = elim c.remote [
    | none ↦ panic
    | some here ↦ elim c.local [
      | none ↦ panic
      | some n ↦
          if not (node_is_local here)
          then panic
          else done (if is_open_to t n then update allowed n true else allowed)
    ]
  ]

  module _ {W : Type 0} (kmailbox_read : W → Allow W) where
    -- The loop of do_kportal_wait_allow(), for at most `fuel` rounds.
    unfoldable pub wait_allow :
        ℕ → ℕ → Ports Resource → (ℕ → Bool) → W → Option (Outcome (Ret × (ℕ → Bool) × W))
    unfolding receive_allow
    wait_allow zero remote t allowed w = none
    wait_allow (suc fuel) remote t allowed w =
        if allowed remote
        then some (done (ok 0, update allowed remote false, w))
        else elim (kmailbox_read w) [
          | failed e w' ↦ some (done (fail e, allowed, w'))
          | arrived c w' ↦ elim (receive_allow c t allowed) [
            | panic ↦ some panic
            | done allowed' ↦
                let rest = wait_allow fuel remote t allowed' w' in
                if allowed' remote
                then some (done (ok 0, update allowed' remote false, w'))
                else rest
          ]
        ]
