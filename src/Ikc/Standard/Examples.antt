-- ===== src/Ikc/Standard/Examples.antt =====
-- The theorem of Standard at a world that counts the mailboxes created.
use libnanvix.Shared.{ℕ, suc, ◌≡◌, refl, some, Ret, ok, fail, other, einval, arith}
use libnanvix.Ikc.Standard.{Inputs, stdinbox_get_port, setup, cleanup, setup-stale}

abbrev counting : Inputs ℕ
counting = record { create = λ port w. (ok w, suc w); unlink = λ id w. (ok 0, w) }

abbrev empty_inbox : ℕ → Ret
empty_inbox i = fail (other 1)

-- Thread 3 of 8, of which the first two are the system's, has port 2.
setup-stale_example :
    (inbox : ℕ → Ret) × (setup counting 2 8 3 empty_inbox 5 ≡ some (ok 0, inbox, 6))
    × (cleanup counting 2 8 (λ e w. (fail einval, w)) 3 inbox 6 ≡ some (ok 0, 6))
    × (setup counting 2 8 3 inbox 6 ≡ some (ok 5, inbox, 6))
unfolding stdinbox_get_port
setup-stale_example =
    setup-stale counting 2 8 (λ e w. (fail einval, w)) 3 empty_inbox (other 1) 5 0 5 6 6
      (omega arith) refl refl refl
