-- ===== src/Sync/Free.antt =====
-- Taking and giving back a mutex that is free: kernel/mutex.c as kernel/sem.c and kernel/rwlock.c
-- use it.
use timix_next.Prelude.{◌≡◌, refl, Ptr, update, update_self}
use timix_next.Prelude.Run.{done}
use timix_next.Sync.Mutex.{unlocked, mutex_lock, mutex_unlock}
use timix_next.Sync.Kernel.{SchedOps, Kernel, lock_mutex, unlock_mutex}

module _ (o : SchedOps) where
  abbrev pub MutexFree : Ptr → Kernel o → Type 0
  MutexFree mp k = (k.mutexes mp).owner ≡ unlocked

  -- The kernel with the mutex of the lock taken.
  abbrev pub taken : Ptr → Kernel o → Kernel o
  taken mp k = record k { mutexes = update k.mutexes mp (record { owner = 1 }) }

  pub lock_mutex-taken :
      (mp : Ptr) (k : Kernel o) → MutexFree mp k → lock_mutex o mp k ≡ done (taken mp k)
  unfolding lock_mutex mutex_lock
  lock_mutex-taken mp k free = rw free refl

  pub unlock_mutex-MutexFree : (mp : Ptr) (k : Kernel o) → MutexFree mp (unlock_mutex o mp k)
  unfolding unlock_mutex mutex_unlock
  unlock_mutex-MutexFree mp k = rw update_self refl
