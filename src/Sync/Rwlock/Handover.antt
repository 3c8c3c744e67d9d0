-- ===== src/Sync/Rwlock/Handover.antt =====
-- kernel/rwlock.c, `rwlock_unlock` of the last holder while others wait.
use timix_next.Prelude.{ℕ, ◌<◌, ◌≡◌, refl, List, [], some, length, Ptr}
use timix_next.Prelude.Int.{ℤ, pos, ◌-ℤ◌}
use timix_next.Prelude.Run.{done, assert}
use timix_next.Sync.Kernel.{SchedOps, Kernel, unlock_mutex}
use timix_next.Sync.Free.{MutexFree, taken, lock_mutex-taken, unlock_mutex-MutexFree}
use timix_next.Sync.Cond.Wakeup.{Waits, IsFree, latest_first}
use timix_next.Sync.Cond.Signal.{Woke, oldest, others, cond_signal-Woke, cond_broadcast-Woke}
use timix_next.Sync.Rwlock.{
  Access, for_read, for_write, mode_of, Rwlock, rwlock_q_peek, queue_of, rwlock_unlock,
}

peek_count : (lk : Rwlock) (n : ℤ) → rwlock_q_peek (record lk { count = n }) ≡ rwlock_q_peek lk
unfolding rwlock_q_peek
peek_count lk n = refl

module _ (o : SchedOps) where
  -- Of the threads `ts` that wait for this access: those that are woken, and those that are not.
  abbrev pub woken : Access → List Ptr → List Ptr
  woken for_read ts = ts
  woken for_write ts = oldest o ts

  abbrev pub left : Access → List Ptr → List Ptr
  left for_read ts = []
  left for_write ts = others o ts

  -- When the last holder gives the lock back and the queue answers with an access, the lock is handed
  -- over in that mode with no holder counted: all waiting readers are woken, or the writer that has
  -- waited longest, and the lock's mutex is given back; more fuel than waiting threads is enough.
  pub rwlock_unlock-Woke :
      (fuel : ℕ) (type : Access) (lk : Rwlock) (k : Kernel o) (ts : List Ptr)
      → lk.count ≡ pos 1
      → rwlock_q_peek lk ≡ some (mode_of type)
      → MutexFree o lk.lock k
      → Waits o (queue_of o type lk) k (latest_first o ts)
      → IsFree o (queue_of o type lk) k
      → length ts < fuel
      → (k' : Kernel o) × (k'' : Kernel o) × (rwlock_unlock o fuel (lk, k)
          ≡ done (record lk { count = pos 0; mode = mode_of type }, k''))
        × Woke o
            (queue_of o type lk)
            (woken type ts)
            (latest_first o (left type ts))
            (taken o lk.lock k)
            k'
        × (k'' ≡ unlock_mutex o lk.lock k')
        × MutexFree o lk.lock k''
  unfolding rwlock_unlock assert ◌-ℤ◌
  rwlock_unlock-Woke fuel for_read lk k ts one next free w q_free enough =
      let (k1, ran, woke) =
        cond_broadcast-Woke o fuel lk.readers (taken o lk.lock k) ts
          (record { queue = w.queue; own = w.own }) q_free enough in
      (
        k1,
        unlock_mutex o lk.lock k1,
        rw (lock_mutex-taken o lk.lock k free, one, peek_count lk (pos 0), next, ran, one) refl,
        woke,
        refl,
        unlock_mutex-MutexFree o lk.lock k1,
      )
  rwlock_unlock-Woke fuel for_write lk k ts one next free w q_free enough =
      let (k1, ran, woke) =
        cond_signal-Woke o lk.writers (taken o lk.lock k) ts
          (record { queue = w.queue; own = w.own }) q_free in
      (
        k1,
        unlock_mutex o lk.lock k1,
        rw (lock_mutex-taken o lk.lock k free, one, peek_count lk (pos 0), next, ran, one) refl,
        woke,
        refl,
        unlock_mutex-MutexFree o lk.lock k1,
      )
