-- ===== src/Sync/Rwlock/Exclusion.antt =====
-- kernel/rwlock.c from `rwlock_init` on: readers hold the lock together, a writer alone.
use timix_next.Prelude.{ℕ, ◌≡◌, ◌≢◌, refl, ap, List, [], Bool, Ptr, null, length}
use timix_next.Prelude.Int.{pos}
use timix_next.Prelude.Run.{done}
use timix_next.Sync.Mutex
use timix_next.Sync.Kernel.{SchedOps, Kernel}
use timix_next.Sync.Cond.{Sleep}
use timix_next.Sync.Cond.Block.{Willing}
use timix_next.Sync.Rwlock.{Rwlock, S, rwlock_init}
use timix_next.Sync.Rwlock.Model.{Call, View, exec_all, spec_all, AllAllowed}
use timix_next.Sync.Rwlock.Hold.{real}
use timix_next.Sync.Rwlock.Init.{fresh, memory, init-real, init-Stands}
use timix_next.Sync.Rwlock.Refine.{exec_all-Tried}
use timix_next.Sync.Rwlock.Exclude.{held_after_all, Exclusive, Agrees-Exclusive, AllCareful}
use timix_next.Sync.Rwlock.Holders.{spec_all-Fits}

module _ (o : SchedOps) (fuel : ℕ) (hard : Ptr → Bool) (lk : Rwlock) (k : Kernel o) where
  abbrev end : List Call → View o fuel lk.readers lk.writers hard
  end cs = (spec_all o fuel lk.readers lk.writers hard cs (fresh o fuel hard lk k)).1

  -- After `rwlock_init`, where no thread's own lock is held, any sequence of the calls of several
  -- threads on the lock, interrupts included, runs to its end, and by the answers of the calls readers
  -- hold the lock only, or one writer alone; `count` is the number of those that hold it. The
  -- condition variables are not `NULL`, the scheduler does not refuse to block, each call is allowed
  -- where it is made, and no thread asks for reading in write mode where nobody is queued, while
  -- somebody holds the lock.
  pub rwlock_init-Exclusive :
      Willing o
      → lk.readers ≢ null
      → lk.writers ≢ null
      → ((t : Ptr) → (k.nodes t).lock.owner ≡ Mutex.unlocked)
      → (cs : List Call) → AllAllowed o fuel lk.readers lk.writers hard cs (fresh o fuel hard lk k)
      → AllCareful o fuel lk.readers lk.writers hard cs (fresh o fuel hard lk k)
      → (rets : List Sleep) × (s : S o) × (exec_all o fuel lk.readers lk.writers hard cs
            (rwlock_init o (lk, k)).1
          ≡ done (rets, s))
        × (s.0.count ≡ pos (length (held_after_all cs rets [])))
        × Exclusive (held_after_all cs rets [])
  rwlock_init-Exclusive willing r_ne w_ne free cs ok care =
      let v = fresh o fuel hard lk k in
      let (m, ran, st) =
        exec_all-Tried o fuel lk.lock lk.readers lk.writers hard willing r_ne w_ne cs v
          (memory o fuel hard lk k) (init-Stands o fuel hard lk k free) ok in
      let fits =
        spec_all-Fits o fuel lk.readers lk.writers hard cs v []
          (record { how_many = refl; agrees = refl }) ok care in
      (
        (spec_all o fuel lk.readers lk.writers hard cs v).0,
        real o fuel lk.lock lk.readers lk.writers hard (end cs) m,
        rw (init-real o fuel hard lk k) ran,
        ap pos fits.how_many,
        Agrees-Exclusive (end cs).mode _ fits.agrees,
      )
