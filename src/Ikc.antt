-- ===== src/Ikc.antt =====
-- src/libnanvix/ikc: inter-kernel communication over kernel calls.
pub mod Retry
pub mod Mailbox
pub mod Resource
pub mod Sync
pub mod Barrier
pub mod Msync
pub mod Mportal
pub mod Portal
pub mod Standard
pub mod Stdsync
pub mod Noc
mod Flags
mod Examples
