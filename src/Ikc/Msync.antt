-- ===== src/Ikc/Msync.antt =====
-- src/libnanvix/ikc/msync.c: synchronization points over mailboxes
-- (__NANVIX_IKC_USES_ONLY_MAILBOX = 1). A critical section of `global_lock` is one function.
pub mod Nodes
pub mod Point
pub mod Reset
pub mod Counting
pub mod Validity
pub mod Created
pub mod Table
pub mod Distinct
pub mod Wait
pub mod Signal
pub mod Waiting
pub mod Sending
pub mod Control
pub mod Calls
mod Examples
