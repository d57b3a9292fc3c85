-- ===== src/Ikc/Portal/Examples.antt =====
-- The theorems of Portal at a kernel that counts its calls and takes what it is given.
use libnanvix.Shared.{ℕ, suc, ◌≡◌, refl, some, pos, ok, arith}
use libnanvix.Kernel.{Kernel}
use libnanvix.Ikc.Portal.{kportal_write}
use libnanvix.Ikc.Portal.Writing.{Covers, takes, all, parts_for, parts_of, kportal_write-Covers}

abbrev taker : Kernel
taker = record { State = ℕ; kcall = λ nr args s. (ok 0, suc s) }

-- Five bytes in pieces of two.
kportal_write-Covers_example :
    Covers 2 100 5 (parts_for taker 4 64 2 100 5)
    × (kportal_write taker 4 64 2 1 (pos 1) (some 100) 5 0 ≡ some (ok 5, 6))
unfolding parts_for parts_of
kportal_write-Covers_example =
    kportal_write-Covers taker 4 64 2 0 (pos 1) 100 5 0 6 (omega arith) (omega arith) (omega arith)
      (takes (record { start = 100; size = 2 }) refl refl
        (takes (record { start = 102; size = 2 }) refl refl
          (takes (record { start = 104; size = 1 }) refl refl all)))
