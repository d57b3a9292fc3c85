-- ===== src/Ikc/Mportal.antt =====
-- src/libnanvix/ikc/mportal.c: portals over mailboxes (__NANVIX_IKC_USES_ONLY_MAILBOX = 1).
pub mod Pieces
pub mod RoundTrip
pub mod ShortRead
pub mod Buffers
pub mod Local
pub mod Discard
pub mod Chains
pub mod Growing
pub mod Filling
pub mod Stored
pub mod Oldest
pub mod Table
pub mod Calls
pub mod Ownership
pub mod Opened
pub mod Closed
pub mod Owners
pub mod Sequences
pub mod Leak
pub mod Init
pub mod Allow
pub mod Allowing
pub mod Keeping
pub mod Arrival
pub mod Transfers
pub mod Aread
pub mod Awrite
pub mod Accepted
pub mod Reads
pub mod EndToEnd
pub mod Within
pub mod WithinNode
pub mod Tails
pub mod Appending
pub mod Kept
pub mod Keeps
pub mod Reordered
pub mod Misdelivered
mod Examples
mod TransferExamples
