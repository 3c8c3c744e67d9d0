-- ===== src/Sync/Rwlock/Loop.antt =====
-- kernel/rwlock.c, the loops of `do_rwlock_lock`: one round, from the test to the sleep or to the
-- return, as the abstract lock says.
use timix_next.Prelude.{
  ℕ, ◌<◌, ◌≡◌, ◌≢◌, refl, Bool, true, false, Ptr, null, arith, length, Bool-cases, inl, inr,
  update_self, update_ne, ◌==◌,
}
use timix_next.Prelude.Int.{pos}
use timix_next.Prelude.Run.{Run, done}
use timix_next.Queue.View.{◌∈◌, ne_of_mem}
use timix_next.Sync.Kernel.{SchedOps, unlock_mutex}
use timix_next.Sync.Mutex.{Mutex}
use timix_next.Sync.Free.{unlock_mutex-MutexFree}
use timix_next.Sync.Cond.{Sleep, returned, asleep}
use timix_next.Sync.Cond.Block.{Willing}
use timix_next.Sync.Cond.Order.{has-without}
use timix_next.Sync.Cond.Family.{Awake}
use timix_next.Sync.Cond.Calls.{sleep-Shows}
use timix_next.Sync.Rwlock.{Access, for_read, for_write, S, must_wait, queue_of, wait_loop, acquire}
use timix_next.Sync.Sem.Balance.{plus_one}
use timix_next.Sync.Rwlock.Model.{cvs, cond_of, enter, leave, doze, held_off, try}
use timix_next.Sync.Rwlock.Hold.{
  V, Mem, lock_of, real, Inside, Marked, Stands, removed, must_remove_lem, removed-Inside,
  without_gone,
}

module _ (o : SchedOps) (fuel : ℕ) (mp readers writers : Ptr) (hard : Ptr → Bool) where
  -- The condition variables do not depend on the mutexes.
  pub mutexes-Inside :
      (v : V o fuel mp readers writers hard) (m : Mem o fuel mp readers writers hard)
      (f : Ptr → Mutex)
      → Inside o fuel mp readers writers hard v m
      → Inside o fuel mp readers writers hard v
          (record m { kernel = record m.kernel { mutexes = f } })
  mutexes-Inside v m f h = record {
    queue = h.queue;
    wants = h.wants;
    conds = record {
      each = λ c i.
          let x = h.conds.each c i in
          record {
            waits = record { queue = x.waits.queue; own = x.waits.own };
            free = x.free;
            locks = x.locks;
            marks = x.marks;
            told = x.told;
          };
      apart = h.conds.apart;
    };
  }

  abbrev pub released : Mem o fuel mp readers writers hard → Mem o fuel mp readers writers hard
  released m = record m { kernel = unlock_mutex o mp m.kernel }

  -- Giving the mutex back is what is left to do.
  pub released-Stands :
      (v : V o fuel mp readers writers hard) (m : Mem o fuel mp readers writers hard)
      → Inside o fuel mp readers writers hard v m
      → ((a : Ptr) → a ∈ v.queue → Marked o fuel mp readers writers hard a v m)
      → Stands o fuel mp readers writers hard v (released m)
  unfolding unlock_mutex
  released-Stands v m h marks = record {
    inside = mutexes-Inside v m (unlock_mutex o mp m.kernel).mutexes h;
    marked = marks;
    free = unlock_mutex-MutexFree o mp m.kernel;
  }

  must_wait-held_off :
      (a : Access) (v : V o fuel mp readers writers hard) (m : Mem o fuel mp readers writers hard)
      → must_wait o a (lock_of o fuel mp readers writers hard v m)
        ≡ held_off o fuel readers writers hard a v
  unfolding must_wait
  must_wait-held_off for_read v m = refl
  must_wait-held_off for_write v m = ground arith

  cond_of_mem :
      (a : Access) → cond_of o fuel readers writers hard a ∈ cvs o fuel readers writers hard
  cond_of_mem for_read = ground arith
  cond_of_mem for_write = ground arith

  queue_of-cond_of :
      (a : Access) (v : V o fuel mp readers writers hard) (m : Mem o fuel mp readers writers hard)
      → queue_of o a (lock_of o fuel mp readers writers hard v m)
        ≡ cond_of o fuel readers writers hard a
  queue_of-cond_of for_read v m = refl
  queue_of-cond_of for_write v m = refl

  -- What a run leaves behind, and what it answers.
  abbrev pub Tried : Run (Sleep × S o) → Sleep × V o fuel mp readers writers hard → Type 0
  Tried run (ret, v') =
      (m' : Mem o fuel mp readers writers hard) × (run
        ≡ done (ret, real o fuel mp readers writers hard v' m'))
      × Stands o fuel mp readers writers hard v' m'

  module _ (t : Ptr) (a : Access) (v : V o fuel mp readers writers hard)
      (m : Mem o fuel mp readers writers hard) where
    -- The thread sleeps where its access says.
    asleep-Tried :
        Willing o
        → Inside o fuel mp readers writers hard v m
        → t ≢ null
        → t ∈ v.queue
        → Awake o fuel (cvs o fuel readers writers hard) hard t v.sleeping
        → ((b : Ptr) → b ∈ v.queue → b ≢ t → Marked o fuel mp readers writers hard b v m)
        → held_off o fuel readers writers hard a v ≡ true
        → Tried
            (wait_loop o fuel t a (hard t) (real o fuel mp readers writers hard v m))
            (asleep, doze o fuel readers writers hard t a v)
    unfolding wait_loop
    asleep-Tried willing h ne i awake marks out =
        let cv = cond_of o fuel readers writers hard a in
        let (k', ran, h', free, f, flags) =
          sleep-Shows o fuel (cvs o fuel readers writers hard) hard willing t cv mp m.kernel
            (v.sleeping, v.sched) h.conds (cond_of_mem a, ne, awake) in
        (
          record m { kernel = k' },
          rw (must_wait-held_off a v m, out, queue_of-cond_of a v m, ran) refl,
          record {
            inside = record { queue = h.queue; wants = h.wants; conds = h' };
            marked = λ b j. elim (Bool-cases (b == t)) [
              | inl here ↦
                  let e : b ≡ t = ground (arith, here) in
                  rw (e, flags, update_self v.hit t false) (refl, λ _. refl)
              | inr there ↦
                  let b_ne : b ≢ t = ground (arith, there) in
                  rw (f.nodes b (ground (arith, there)), update_ne v.hit t false b_ne)
                    (marks b j b_ne)
            ];
            free = free;
          },
        )

    -- The thread leaves the queue and takes the lock.
    admitted-Tried :
        Inside o fuel mp readers writers hard v m
        → t ∈ v.queue
        → length v.queue < fuel
        → ((b : Ptr) → b ∈ v.queue → b ≢ t → Marked o fuel mp readers writers hard b v m)
        → held_off o fuel readers writers hard a v ≡ false
        → Tried (wait_loop o fuel t a (hard t) (real o fuel mp readers writers hard v m)) (
          returned (pos 0),
          enter o fuel readers writers hard a (leave o fuel readers writers hard t v),
        )
    unfolding wait_loop acquire
    admitted-Tried h i enough marks in_time =
        let m1 = removed o fuel mp readers writers hard t m in
        let h1 = removed-Inside o fuel mp readers writers hard t v m h i in
        let v1 = enter o fuel readers writers hard a (leave o fuel readers writers hard t v) in
        (
          released m1,
          rw
              (
                must_wait-held_off a v m,
                in_time,
                must_remove_lem o fuel mp readers writers hard t v m h i enough,
                plus_one v.count,
              )
              refl,
          released-Stands v1 m1 (record { queue = h1.queue; wants = h1.wants; conds = h1.conds })
              (λ b j.
                marks b (has-without b t v.queue j)
                  (ne_of_mem _ j (without_gone t v.queue h.queue.distinct))),
        )

    -- One round of the loop.
    pub loop-Tried :
        Willing o
        → Inside o fuel mp readers writers hard v m
        → t ≢ null
        → t ∈ v.queue
        → Awake o fuel (cvs o fuel readers writers hard) hard t v.sleeping
        → length v.queue < fuel
        → ((b : Ptr) → b ∈ v.queue → b ≢ t → Marked o fuel mp readers writers hard b v m)
        → Tried
            (wait_loop o fuel t a (hard t) (real o fuel mp readers writers hard v m))
            (try o fuel readers writers hard t a v)
    loop-Tried willing h ne i awake enough marks =
        elim (Bool-cases (held_off o fuel readers writers hard a v)) [
          | inl out ↦ rw out (asleep-Tried willing h ne i awake marks out)
          | inr in_time ↦ rw in_time (admitted-Tried h i enough marks in_time)
        ]
