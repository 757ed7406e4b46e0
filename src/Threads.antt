-- ===== src/Threads.antt =====
-- pintos/threads: the scheduler of thread.c, the semaphores and locks of synch.c, and the kernel
-- that threads make of them, as a step relation.
pub mod State
pub mod Schedule
pub mod Synch
pub mod Step
pub mod Lists
pub mod Invariant
pub mod Operations
pub mod Semaphores
pub mod Progress
pub mod Locks
pub mod Mutex
pub mod Exclusion
pub mod Turns
pub mod Palloc
pub mod Examples
