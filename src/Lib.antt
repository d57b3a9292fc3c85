-- ===== src/Lib.antt =====
-- A verification library for libnanvix, the low-level user-space library of Nanvix.
--
-- The program's parts and the modules that model them:
--
-- * Thread models src/libnanvix/thread with its headers in include/nanvix. Thread.WaitQueue is the
--   circular queue of thread ids that mutexes, semaphores and condition variables share;
--   Thread.Waiting is the protocol of ksleep() and kwakeup() around it. Thread.Mutex,
--   Thread.Semaphore, Thread.CondVar and Thread.Fence model mutex.c, semaphore.c, condvar.c and
--   fence.c. A definition carries its C function's name without the prefix of its file.
--   Thread.FastMutex is sys/fmutex.h.
-- * Kernel models the functions that only make a kernel call: Kernel.Calls those of
--   thread/thread.c, thread/signal.c, thread/shutdown.c and dev/write.c, which set `errno`, and
--   Kernel.Direct those of mm, of etc/exception.c, of thread/_exit.c and of ikc/noc.c, and
--   Kernel.Perf those of etc/perf.c. The kernel is not in the repository: it is a parameter, a type
--   of states with one function for its calls, of which nothing is assumed.
-- * Ikc models src/libnanvix/ikc: Ikc.Mailbox is mailbox.c, Ikc.Sync is sync.c, Ikc.Barrier is
--   barrier.c over an interface SyncOps of the functions that sync.c and msync.c both provide, and
--   Ikc.Barrier.Protocol lets several nodes make the calls of barrier_wait() in any order, and each
--   of them fail, Ikc.Barrier.Delay is its delay, and Ikc.Noc is knoc_init();
--   Ikc.Msync is msync.c: its lists of nodes, one synchronization point with its barrier, the table
--   of points, the calls and ksync_init(). Ikc.Mportal is mportal.c: Mportal.Table and
--   Mportal.Calls are the table of portals and its calls, Mportal.Init is kportal_init(),
--   Mportal.Allow is the wait for an allow, Mportal.Pieces is how a transfer between nodes is cut
--   into messages and put together again, Mportal.Buffers is the pool of buffers, and Mportal.Local
--   are the transfers over it within a node. Mportal.Arrival is the loop of do_kportal_aread(), with
--   Mportal.Keeping for the messages that it keeps for other ports, and Mportal.Aread and
--   Mportal.Awrite are kportal_aread() and kportal_awrite() around all these, over Mportal.Transfers.
--   Mportal.Chains, Growing, Filling, Stored, Tails, Appending, Kept and Keeps follow a message through
--   the buffers: how it is stored, found, read and released. Ikc.Resource is the interface of the kernel's
--   functions resource_*(), with the laws that Msync and Mportal rely on. Ikc.Portal is portal.c,
--   over the kernel's portals. Ikc.Standard is stdmailbox.c and stdportal.c, and Ikc.Stdsync is
--   stdsync.c. Ikc.Retry is the loop that repeats a kernel call.
-- * Shared passes on library names and holds the return codes, the Boolean tests and the lemmas on
--   lists and on families indexed by number.
--
-- How state and operations correspond to the code. A struct is a record, and an operation takes the
-- old record and gives the new one with the return value. An id or index that is -1 in C is the
-- `none` of an Option, and so is a NULL pointer. An array is a function of its index; the theorems
-- on the queues show that the indices stay below THREAD_MAX. A return value is `ok n`, or `fail e`
-- for the negative error code -e. A KASSERT() that fails is `panic`. A critical section of a spinlock
-- is one function and one step of the threads; the System modules interleave such steps in any order
-- for a number `n` of threads, and Reach holds the states that they reach. Any thread may unlock a
-- mutex that is neither error checking nor recursive, as in the code; Disciplined are the runs of
-- Thread.Mutex in which only a thread that holds the mutex unlocks it. ksleep() and kwakeup() are
-- kernel calls: kwakeup() wakes up a thread that sleeps and fails on any other, and a thread sleeps
-- until it is woken up. THREAD_MAX is a parameter, `max` or `thread_max`.
--
-- A loop that repeats a kernel call runs on fuel, the number of calls that it may make, and gives
-- `none` when the fuel runs out. A kernel that always asks to try again keeps the C loop running for
-- ever, so no fuel is enough for every kernel; the theorems on these loops say that fuel above the
-- number of rounds that the kernel asks for is enough. A wait of msync.c and a read of mportal.c run
-- on fuel that bounds the messages that they take; fuel above the number of messages that complete the
-- barrier, or above the number of bytes of the transfer, is enough.
--
-- Modelled is the configuration in which the library sleeps: __NANVIX_MUTEX_SLEEP,
-- __NANVIX_SEMAPHORE_SLEEP and __NANVIX_CONDVAR_SLEEP are 1, CORES_NUM is above 1. mailbox.c,
-- msync.c and mportal.c are modelled with __NANVIX_IKC_USES_ONLY_MAILBOX = 1, sync.c and portal.c
-- with 0. The busy-waiting variants are not modelled, nor are cache control, kprintf() and
-- spinlock_init(). Counters of type int are unbounded numbers here: their overflow, after 2^31
-- calls, is undefined in C.
-- The contents of messages of mailbox.c stay behind the kernel's calls. A wait, a
-- signal, a read and a write of msync.c and mportal.c run alone on their tables: where kportal_aread()
-- and kportal_awrite() wait for a free buffer or for a channel that another thread uses, the model
-- runs out of fuel. The latencies of portals are not modelled.
pub mod Shared
pub mod Thread
pub mod Ikc
pub mod Kernel
