-- ===== src/Sync.antt =====
-- kernel/mutex.c, kernel/cond.c, kernel/sem.c and kernel/rwlock.c: locks and what threads wait on.
pub mod Atomic
pub mod Mutex
pub mod Exclusion
pub mod Kernel
pub mod Free
pub mod Cond
pub mod Sem
pub mod Rwlock
mod Tests
