-- ===== src/Ikc/Resource.antt =====
-- The interface to the kernel's `struct resource`, which src/libnanvix/ikc/{msync,mportal}.c keep in
-- their tables. The functions resource_*() are not in the repository: they are parameters, with the
-- laws that their callers rely on.
use libnanvix.Shared.{ℕ, ◌<◌, ◌≡◌, Bool, true, false, Option, some, Errno}

pub record Resources : Type 1 where
  pub Resource : Type 0
  pub is_used : Resource → Bool
  pub is_readable : Resource → Bool
  pub is_writable : Resource → Bool
  pub is_busy : Resource → Bool
  pub set_used : Resource → Resource
  pub set_unused : Resource → Resource
  pub set_rdonly : Resource → Resource
  pub set_wronly : Resource → Resource
  pub set_busy : Resource → Resource
  pub set_notbusy : Resource → Resource
  -- RESOURCE_INITIALIZER
  pub initial : Resource
  -- resource_alloc() on a pool of that many resources: the index that it returns, and what it makes
  -- of the resource there; `none` is the error `exhausted`.
  pub alloc : ℕ → (ℕ → Resource) → Option ℕ
  pub given : Resource → Resource
  pub exhausted : Errno
  -- What resource_free() makes of a resource.
  pub freed : Resource → Resource
  -- What the callers rely on: a flag is what was last set, the setters of the others leave it, and
  -- resource_alloc() gives out a resource that was not in use.
  pub used-set_rdonly : (r : Resource) → is_used (set_rdonly r) ≡ is_used r
  pub used-set_wronly : (r : Resource) → is_used (set_wronly r) ≡ is_used r
  pub used-set_busy : (r : Resource) → is_used (set_busy r) ≡ is_used r
  pub used-set_notbusy : (r : Resource) → is_used (set_notbusy r) ≡ is_used r
  pub used-set_used : (r : Resource) → is_used (set_used r) ≡ true
  pub used-set_unused : (r : Resource) → is_used (set_unused r) ≡ false
  pub used-given : (r : Resource) → is_used (given r) ≡ true
  pub used-freed : (r : Resource) → is_used (freed r) ≡ false
  pub used-initial : is_used initial ≡ false
  pub readable-set_rdonly : (r : Resource) → is_readable (set_rdonly r) ≡ true
  pub readable-set_wronly : (r : Resource) → is_readable (set_wronly r) ≡ false
  pub readable-set_busy : (r : Resource) → is_readable (set_busy r) ≡ is_readable r
  pub readable-set_notbusy : (r : Resource) → is_readable (set_notbusy r) ≡ is_readable r
  pub writable-set_rdonly : (r : Resource) → is_writable (set_rdonly r) ≡ false
  pub writable-set_wronly : (r : Resource) → is_writable (set_wronly r) ≡ true
  pub writable-set_busy : (r : Resource) → is_writable (set_busy r) ≡ is_writable r
  pub writable-set_notbusy : (r : Resource) → is_writable (set_notbusy r) ≡ is_writable r
  pub busy-set_rdonly : (r : Resource) → is_busy (set_rdonly r) ≡ is_busy r
  pub busy-set_wronly : (r : Resource) → is_busy (set_wronly r) ≡ is_busy r
  pub busy-set_busy : (r : Resource) → is_busy (set_busy r) ≡ true
  pub busy-set_notbusy : (r : Resource) → is_busy (set_notbusy r) ≡ false
  pub busy-set_used : (r : Resource) → is_busy (set_used r) ≡ is_busy r
  pub busy-given : (r : Resource) → is_busy (given r) ≡ false
  pub alloc-some :
      (n : ℕ) (table : ℕ → Resource) (i : ℕ)
      → alloc n table ≡ some i
      → (i < n) × (is_used (table i) ≡ false)
