-- ===== src/Thread/WaitQueue.antt =====
-- The queue of waiting threads that src/libnanvix/thread/{mutex,semaphore,condvar}.c share.
mod Defs
pub mod Slots
pub mod Fifo
pub mod Refinement
unfoldable pub use Defs.*
