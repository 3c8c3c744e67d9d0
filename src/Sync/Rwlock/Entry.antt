-- ===== src/Sync/Rwlock/Entry.antt =====
-- kernel/rwlock.c: who gets the lock at once, and what the queue of the others answers.
use mathlib.Core.Bool.{and-false}
use timix_next.Prelude.{ℕ, Ptr, null, ◌≡◌, ◌≢◌, refl, Bool, none, some, update, arith}
use timix_next.Prelude.Int.{pos, eqb_ℤ, ◌+ℤ◌, ◌-ℤ◌}
use timix_next.Prelude.Run.{done, assert}
use timix_next.Queue
use timix_next.Sync.Kernel.{SchedOps, Kernel, unlock_mutex}
use timix_next.Sync.Free.{MutexFree, taken, lock_mutex-taken, unlock_mutex-MutexFree}
use timix_next.Sync.Cond.{returned}
use timix_next.Sync.Rwlock.{
  Mode, read, write, Access, for_read, mode_of, Rwlock, rwlock_q_push, rwlock_q_peek, acquire,
  lock_start, rwlock_unlock,
}

-- The queue answers with the mode of the thread that came last, whatever stood in it before.
pub rwlock_q_peek-rwlock_q_push :
    (t : Ptr) (mode : Mode) (lk : Rwlock)
    → t ≢ null
    → rwlock_q_peek (rwlock_q_push t mode lk) ≡ some mode
unfolding rwlock_q_push rwlock_q_peek Queue.insert_front Queue.get_front update
rwlock_q_peek-rwlock_q_push t mode lk ne = ground (arith, ne)

peek_empty : (lk : Rwlock) → lk.waiting.head ≡ null → rwlock_q_peek lk ≡ none
unfolding rwlock_q_peek Queue.get_front
peek_empty lk nobody = rw (rwlock_q_peek, nobody)

module _ (o : SchedOps) where
  -- While the lock is in write mode and nobody is queued, a reader that asks for it does not wait:
  -- it gets 0 at once, the lock is in read mode, and it counts one holder more.
  pub lock_start_beside_writer :
      (fuel : ℕ) (t : Ptr) (uninterruptable : Bool) (lk : Rwlock) (k : Kernel o)
      → lk.mode ≡ write
      → lk.waiting.head ≡ null
      → MutexFree o lk.lock k
      → (k' : Kernel o) × (lock_start o fuel t for_read uninterruptable (lk, k)
          ≡ done (returned (pos 0), (record lk { mode = read; count = lk.count +ℤ pos 1 }, k')))
        × MutexFree o lk.lock k'
  unfolding lock_start acquire
  lock_start_beside_writer fuel t uninterruptable lk k writing nobody free = (
    unlock_mutex o lk.lock (taken o lk.lock k),
    rw
        (
          lock_mutex-taken o lk.lock k free,
          peek_empty lk nobody,
          writing,
          and-false (eqb_ℤ lk.count (pos 0)),
        )
        refl,
    unlock_mutex-MutexFree o lk.lock (taken o lk.lock k),
  )

  -- A thread that takes a free lock that nobody waits for, for reading or for writing, gets it at
  -- once, and when it gives it back the lock is as it was.
  pub lock_start-rwlock_unlock :
      (fuel : ℕ) (t : Ptr) (type : Access) (uninterruptable : Bool) (lk : Rwlock) (k : Kernel o)
      → lk.mode ≡ Mode.unlocked
      → lk.count ≡ pos 0
      → lk.waiting.head ≡ null
      → MutexFree o lk.lock k
      → (held : Kernel o) × (back : Kernel o) × (lock_start o fuel t type uninterruptable (lk, k)
          ≡ done (returned (pos 0), (record lk { mode = mode_of type; count = pos 1 }, held)))
        × (rwlock_unlock o fuel (record lk { mode = mode_of type; count = pos 1 }, held)
            ≡ done (record lk { mode = Mode.unlocked; count = pos 0 }, back))
        × MutexFree o lk.lock back
  unfolding lock_start rwlock_unlock acquire ◌+ℤ◌ ◌-ℤ◌ assert
  lock_start-rwlock_unlock fuel t type uninterruptable lk k idle zero nobody free =
      let held = unlock_mutex o lk.lock (taken o lk.lock k) in
      let again = unlock_mutex-MutexFree o lk.lock (taken o lk.lock k) in
      (
        held,
        unlock_mutex o lk.lock (taken o lk.lock held),
        rw (lock_mutex-taken o lk.lock k free, idle, zero) refl,
        rw
            (
              lock_mutex-taken o lk.lock held again,
              peek_empty (record lk { count = pos 0; mode = mode_of type }) nobody,
            )
            refl,
        unlock_mutex-MutexFree o lk.lock (taken o lk.lock held),
      )
