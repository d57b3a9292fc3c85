-- ===== src/Thread.antt =====
-- src/libnanvix/thread: locks, semaphores, condition variables and fences.
pub mod WaitQueue
pub mod Waiting
pub mod Mutex
pub mod Semaphore
pub mod CondVar
pub mod Fence
pub mod FastMutex
mod Examples
