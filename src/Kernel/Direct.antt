-- ===== src/Kernel/Direct.antt =====
-- The functions of src/libnanvix/mm, src/libnanvix/etc and src/libnanvix/ikc/noc.c that return the
-- kernel's answer as it is, and _kexit() of src/libnanvix/thread/_exit.c.
use libnanvix.Shared.{[], ◌∷◌, Option, none, some, ℤ, pos, negsuc, Ret, fail, einval}
use libnanvix.Kernel.{Kernel, Nr}

-- The communication types of kcomm_get_port(); any other integer is `none` of an Option.
pub data CommType : Type 0 where
  mailbox portal : CommType

module _ (k : Kernel) where
  open k use {State, kcall}

  unfoldable pub kthread_self : State → Ret × State
  kthread_self = kcall Nr.thread_get_id []

  -- _kexit(), whose call does not return.
  pub kexit : ℤ → State → State
  kexit status s = (kcall Nr.exit (status ∷ []) s).1

  pub page_alloc : ℤ → State → Ret × State
  page_alloc vaddr = kcall Nr.upage_alloc (vaddr ∷ [])

  pub page_free : ℤ → State → Ret × State
  page_free vaddr = kcall Nr.upage_free (vaddr ∷ [])

  pub page_map : ℤ → ℤ → State → Ret × State
  page_map vaddr frame = kcall Nr.upage_map (vaddr ∷ frame ∷ [])

  pub page_unmap : ℤ → State → Ret × State
  page_unmap vaddr = kcall Nr.upage_unmap (vaddr ∷ [])

  pub page_link : ℤ → ℤ → State → Ret × State
  page_link vaddr1 vaddr2 = kcall Nr.upage_link (vaddr1 ∷ vaddr2 ∷ [])

  pub kframe_alloc : State → Ret × State
  kframe_alloc = kcall Nr.frame_alloc []

  pub kframe_free : ℤ → State → Ret × State
  kframe_free vaddr = kcall Nr.frame_free (vaddr ∷ [])

  pub excp_ctrl : ℤ → ℤ → State → Ret × State
  excp_ctrl excpnum action = kcall Nr.excp_ctrl (excpnum ∷ action ∷ [])

  pub excp_pause : ℤ → State → Ret × State
  excp_pause excp = kcall Nr.excp_pause (excp ∷ [])

  pub excp_resume : State → Ret × State
  excp_resume = kcall Nr.excp_resume []

  unfoldable pub knode_get_num : State → Ret × State
  knode_get_num = kcall Nr.node_get_num []

  pub kcluster_get_num : State → Ret × State
  kcluster_get_num = kcall Nr.cluster_get_num []

  -- In the configuration in which portals have a kernel implementation. `code` gives the number of a
  -- communication type.
  unfoldable pub kcomm_get_port : (CommType → ℤ) → ℤ → Option CommType → State → Ret × State
  kcomm_get_port code (negsuc id) type s = (fail einval, s)
  kcomm_get_port code (pos id) none s = (fail einval, s)
  kcomm_get_port code (pos id) (some type) s = kcall Nr.comm_get_port (pos id ∷ code type ∷ []) s
