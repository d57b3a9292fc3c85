-- ===== src/Ikc/Standard.antt =====
-- src/libnanvix/ikc/stdmailbox.c, and stdportal.c, whose functions have the same text but for the
-- cleanup. The thread's id is `tid`, SYS_THREAD_MAX is `sys_thread_max`, THREAD_MAX is `thread_max`, and
-- the mailboxes or portals are a parameter, over a world `W`.
mod Examples
use libnanvix.Shared.{
  ℕ, ◌+◌, ◌-◌, ◌<◌, ◌≡◌, refl, Bool, true, false, not, Option, none, some, Ret, ok, fail, Errno,
  other, ltb, ◌==◌, if◌then◌else◌, update, arith,
}

-- kmailbox_create() at the local node, by the port, and kmailbox_unlink(); or those of portals.
pub record Inputs (W : Type 0) : Type 0 where
  pub create : ℕ → W → Ret × W
  pub unlink : ℕ → W → Ret × W

-- The return value -1.
abbrev minus_one : Ret
minus_one = fail (other 1)

-- `tid - (SYS_THREAD_MAX - 1)`, or 0 where this is negative; SYS_THREAD_MAX is above 0.
unfoldable pub stdinbox_get_port : (sys_thread_max tid : ℕ) → ℕ
stdinbox_get_port sys_thread_max tid = tid + 1 - sys_thread_max

module _ {W : Type 0} (inputs : Inputs W) (sys_thread_max thread_max : ℕ) where
  open inputs use {create, unlink}

  -- What a function does with the entry of a thread: `none` is an access behind the end of the array,
  -- which has THREAD_MAX + 1 entries.
  unfoldable pub at_entry : {A : Type 0} → ℕ → A → (ℕ → A) → Option A
  unfolding stdinbox_get_port
  at_entry tid refused f =
      let i = stdinbox_get_port sys_thread_max tid in
      if ltb (thread_max + 1) i
      then some refused
      else if ltb i (thread_max + 1)
      then some (f i)
      else none

  -- __stdmailbox_setup(), on the array `__stdinbox`, whose entries are -1 at first.
  unfoldable pub setup : ℕ → (ℕ → Ret) → W → Option (Ret × (ℕ → Ret) × W)
  unfolding at_entry
  setup tid inbox w =
      at_entry tid (minus_one, inbox, w)
        (λ i.
          let (answer, w') = create i w in
          let result : Ret = elim answer [ ok id ↦ ok 0 | fail e ↦ minus_one ] in
          elim (inbox i) [
            | ok id ↦ (ok id, inbox, w)
            | fail e ↦ (result, update inbox i answer, w')
          ])

  -- __stdmailbox_cleanup(); `refuse` is what kmailbox_unlink() does with an id below 0.
  unfoldable pub cleanup : (Errno → W → Ret × W) → ℕ → (ℕ → Ret) → W → Option (Ret × W)
  unfolding at_entry
  cleanup refuse tid inbox w =
      at_entry tid (minus_one, w)
        (λ i. elim (inbox i) [ ok id ↦ unlink id w | fail e ↦ refuse e w ])

  -- __stdportal_cleanup()
  unfoldable pub portal_cleanup : ℕ → (ℕ → Ret) → W → Option (Ret × W)
  unfolding cleanup
  portal_cleanup = cleanup (λ e w. (minus_one, w))

  -- stdinbox_get()
  unfoldable pub stdinbox_get : ℕ → (ℕ → Ret) → Option Ret
  unfolding at_entry
  stdinbox_get tid inbox = at_entry tid minus_one inbox

  -- The mailbox of a thread is not created again: when a setup has created it and a cleanup has
  -- unlinked it, a second setup makes no call and returns the id of the mailbox that is gone. The port
  -- of the thread is at most THREAD_MAX, and it had no mailbox before.
  pub setup-stale :
      (refuse : Errno → W → Ret × W) (tid : ℕ) (inbox : ℕ → Ret) (e : Errno) (id n : ℕ) (w u v : W)
      → stdinbox_get_port sys_thread_max tid < thread_max + 1
      → inbox (stdinbox_get_port sys_thread_max tid) ≡ fail e
      → create (stdinbox_get_port sys_thread_max tid) w ≡ (ok id, u)
      → unlink id u ≡ (ok n, v)
      → (inbox' : ℕ → Ret) × (setup tid inbox w ≡ some (ok 0, inbox', u))
        × (cleanup refuse tid inbox' u ≡ some (ok n, v))
        × (setup tid inbox' v ≡ some (ok id, inbox', v))
  unfolding setup cleanup
  setup-stale refuse tid inbox e id n w u v inside empty created unlinked =
      let i = stdinbox_get_port sys_thread_max tid in
      (
        update inbox i (ok id),
        ground (arith, inside, empty, created),
        ground (arith, inside, unlinked),
        ground (arith, inside),
      )
