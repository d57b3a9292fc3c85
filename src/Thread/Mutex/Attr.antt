-- ===== src/Thread/Mutex/Attr.antt =====
-- The attributes of src/libnanvix/thread/mutex.c and the mutex types of include/nanvix/sys/mutex.h.
use libnanvix.Shared.{
  ℕ, ◌≡◌, Option, none, some, ℤ, pos_part, within, Ret, ok, fail, einval, if◌then◌else◌, arith,
}

abbrev pub normal : ℕ
normal = 0

abbrev pub errorcheck : ℕ
errorcheck = 1

abbrev pub recursive : ℕ
recursive = 2

abbrev pub default : ℕ
default = 3

abbrev pub limit : ℕ
limit = 4

pub record MutexAttr : Type 0 where
  pub type : ℕ

-- nanvix_mutexattr_init(), settype() and gettype(), over a pointer that is NULL where it is `none`.
unfoldable pub init : Option MutexAttr → Ret × Option MutexAttr
init none = (fail einval, none)
init (some a) = (ok 0, some (record a { type = default }))

unfoldable pub settype : Option MutexAttr → ℤ → Ret × Option MutexAttr
settype none t = (fail einval, none)
settype (some a) t =
    if within t 0 limit
    then (ok 0, some (record a { type = pos_part t }))
    else (fail einval, some a)

unfoldable pub gettype : Option MutexAttr → Ret
gettype none = fail einval
gettype (some a) = ok a.type

unfoldable pub destroy : Option MutexAttr → Ret
destroy none = fail einval
destroy (some a) = ok 0

-- The type that is read back is the last one that was set; a type out of range changes nothing.
pub gettype-settype :
    (a : MutexAttr) (t : ℤ)
    → gettype (settype (some a) t).1 ≡ (if within t 0 limit then ok (pos_part t) else ok a.type)
unfolding gettype settype
gettype-settype a t = ground arith
