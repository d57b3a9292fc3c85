-- ===== src/Kernel.antt =====
-- The kernel below libnanvix, which is not part of the repository: a parameter of the functions that
-- only pass a call on to it.
pub mod Calls
pub mod Errno
pub mod Direct
pub mod Perf
mod Examples
use libnanvix.Shared.{List, ℤ, Ret}

-- The kernel call numbers NR_... that the sources name.
pub data Nr : Type 0 where
  thread_get_id thread_create thread_exit thread_join thread_yield exit : Nr
  sleep wakeup shutdown write sigctl alarm sigsend sigwait sigreturn : Nr
  upage_alloc upage_free upage_map upage_unmap upage_link frame_alloc frame_free : Nr
  excp_ctrl excp_pause excp_resume clock stats : Nr
  node_get_num cluster_get_num comm_get_port : Nr
  sync_create sync_open sync_wait sync_signal sync_close sync_unlink sync_ioctl : Nr
  mailbox_create mailbox_open mailbox_unlink mailbox_close : Nr
  mailbox_awrite mailbox_aread mailbox_wait mailbox_ioctl : Nr
  portal_create portal_allow portal_open portal_unlink portal_close : Nr
  portal_aread portal_awrite portal_wait portal_ioctl : Nr

-- kcall0() to kcall3(): a number and up to three words, each an integer or an address.
pub record Kernel : Type 1 where
  pub State : Type 0
  pub kcall : Nr → List ℤ → State → Ret × State
