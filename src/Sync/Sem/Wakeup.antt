-- ===== src/Sync/Sem/Wakeup.antt =====
-- kernel/sem.c: what `sem_signal` and a `sem_wait` that need not sleep do.
use timix_next.Prelude.{ℕ, Ptr, ◌≡◌, refl, List, false, suc, arith}
use timix_next.Prelude.Int.{pos, ◌+ℤ◌, ◌-ℤ◌, ltb_ℤ}
use timix_next.Prelude.Run.{done}
use timix_next.Sync.Kernel.{SchedOps, Kernel, unlock_mutex}
use timix_next.Sync.Free.{MutexFree, taken, lock_mutex-taken, unlock_mutex-MutexFree}
use timix_next.Sync.Cond.{returned}
use timix_next.Sync.Cond.Wakeup.{Waits, IsFree, latest_first}
use timix_next.Sync.Cond.Signal.{Woke, oldest, others, cond_signal-Woke}
use timix_next.Sync.Sem.{Sem, sem_wait, sem_signal}

minus_one : (n : ℕ) → pos (suc n) -ℤ pos 1 ≡ pos n
unfolding ◌-ℤ◌
minus_one n = ground arith

not_negative : (n : ℕ) → ltb_ℤ (pos n) (pos 0) ≡ false
not_negative n = ground arith

module _ (o : SchedOps) where
  -- `sem_signal` with the semaphore's mutex and queue free adds 1 to the count, wakes the thread
  -- that has waited longest, if there is one, leaves the others waiting, and gives the mutex back.
  pub sem_signal-Woke :
      (sem : Sem) (k : Kernel o) (ts : List Ptr)
      → MutexFree o sem.sem_lock k
      → Waits o sem.sem_signal k (latest_first o ts)
      → IsFree o sem.sem_signal k
      → (k' : Kernel o) × (k'' : Kernel o) × (sem_signal o (sem, k)
          ≡ done (record sem { sem_count = sem.sem_count +ℤ pos 1 }, k''))
        × Woke o sem.sem_signal
            (oldest o ts)
            (latest_first o (others o ts))
            (taken o sem.sem_lock k)
            k'
        × (k'' ≡ unlock_mutex o sem.sem_lock k')
        × MutexFree o sem.sem_lock k''
  unfolding sem_signal
  sem_signal-Woke sem k ts free w q_free =
      let (k1, ran, woke) =
        cond_signal-Woke o sem.sem_signal (taken o sem.sem_lock k) ts
          (record { queue = w.queue; own = w.own }) q_free in
      (
        k1,
        unlock_mutex o sem.sem_lock k1,
        rw (lock_mutex-taken o sem.sem_lock k free, ran) refl,
        woke,
        refl,
        unlock_mutex-MutexFree o sem.sem_lock k1,
      )

  -- While the count is positive `sem_wait` returns 0 at once, takes 1 from the count, gives
  -- the semaphore's mutex back, and leaves the condition variables and the scheduler alone.
  pub sem_wait_positive :
      (t : Ptr) (sem : Sem) (k : Kernel o) (n : ℕ)
      → sem.sem_count ≡ pos (suc n)
      → MutexFree o sem.sem_lock k
      → (k' : Kernel o) × (sem_wait o t (sem, k)
          ≡ done (returned (pos 0), (record sem { sem_count = pos n }, k')))
        × MutexFree o sem.sem_lock k'
        × (k'.conds ≡ k.conds)
        × (k'.sched ≡ k.sched)
  unfolding sem_wait unlock_mutex
  sem_wait_positive t sem k n some_left free =
      let k1 = unlock_mutex o sem.sem_lock (taken o sem.sem_lock k) in
      (
        k1,
        rw (lock_mutex-taken o sem.sem_lock k free, some_left, minus_one n, not_negative n) refl,
        unlock_mutex-MutexFree o sem.sem_lock (taken o sem.sem_lock k),
        refl,
        refl,
      )
