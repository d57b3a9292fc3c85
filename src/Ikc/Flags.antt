-- ===== src/Ikc/Flags.antt =====
-- An instance of the interface of resources: four flags.
use libnanvix.Shared.{
  ℕ, ◌<◌, ◌≡◌, refl, Bool, true, false, not, some, find_first, find_from-some, eagain, arith,
}
use libnanvix.Ikc.Resource.{Resources}

pub record Flags : Type 0 where
  pub used : Bool
  pub readable : Bool
  pub writable : Bool
  pub busy : Bool

abbrev pub free : (ℕ → Flags) → ℕ → Bool
free table i = not ((table i).used)

pub alloc_free :
    (n : ℕ) (table : ℕ → Flags) (i : ℕ)
    → find_first n (free table) ≡ some i
    → (i < n) × ((table i).used ≡ false)
alloc_free n table i e =
    let (from, below, found, before) = find_from-some n 0 i (free table) e in
    (omega arith, ground (arith, found))

abbrev pub flags : Resources
flags = record {
  Resource = Flags;
  is_used = λ r. r.used;
  is_readable = λ r. r.readable;
  is_writable = λ r. r.writable;
  is_busy = λ r. r.busy;
  set_used = λ r. record r { used = true };
  set_unused = λ r. record r { used = false };
  set_rdonly = λ r. record r { readable = true; writable = false };
  set_wronly = λ r. record r { readable = false; writable = true };
  set_busy = λ r. record r { busy = true };
  set_notbusy = λ r. record r { busy = false };
  initial = record { used = false; readable = false; writable = false; busy = false };
  alloc = λ n table. find_first n (free table);
  given = λ r. record { used = true; readable = false; writable = false; busy = false };
  exhausted = eagain;
  freed = λ r. record { used = false; readable = false; writable = false; busy = false };
  used-set_rdonly = λ r. refl;
  used-set_wronly = λ r. refl;
  used-set_busy = λ r. refl;
  used-set_notbusy = λ r. refl;
  used-set_used = λ r. refl;
  used-set_unused = λ r. refl;
  used-given = λ r. refl;
  used-freed = λ r. refl;
  used-initial = refl;
  readable-set_rdonly = λ r. refl;
  readable-set_wronly = λ r. refl;
  readable-set_busy = λ r. refl;
  readable-set_notbusy = λ r. refl;
  writable-set_rdonly = λ r. refl;
  writable-set_wronly = λ r. refl;
  writable-set_busy = λ r. refl;
  writable-set_notbusy = λ r. refl;
  busy-set_rdonly = λ r. refl;
  busy-set_wronly = λ r. refl;
  busy-set_busy = λ r. refl;
  busy-set_notbusy = λ r. refl;
  busy-set_used = λ r. refl;
  busy-given = λ r. refl;
  alloc-some = alloc_free;
}
