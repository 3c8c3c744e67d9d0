-- ===== src/Sync/Rwlock/Refine.antt =====
-- kernel/rwlock.c: sequences of calls of several threads against the abstract lock.
use timix_next.Prelude.{
  ℕ, ◌≡◌, ◌≢◌, refl, List, [], ◌∷◌, Bool, true, Ptr, null, arith, Bool-cases, inl, inr, update_self,
  update_ne, ◌==◌,
}
use timix_next.Prelude.Run.{done}
use timix_next.Queue.View.{◌∉◌}
use timix_next.Sync.Kernel.{SchedOps}
use timix_next.Sync.Cond.Block.{Willing}
use timix_next.Sync.Cond.Calls.{soft_interrupt-Shows, hard_interrupt-Shows}
use timix_next.Sync.Rwlock.Model.{
  Call, lock, resume, unlock, downgrade, interrupt, exec, exec_all, cvs, spec, spec_all, Allowed,
  AllAllowed,
}
use timix_next.Sync.Rwlock.Hold.{V, Mem, real, Stands}
use timix_next.Sync.Rwlock.Loop.{Tried}
use timix_next.Sync.Rwlock.Start.{lock-Tried}
use timix_next.Sync.Rwlock.Resume.{resume-Tried}
use timix_next.Sync.Rwlock.Giveback.{downgrade-Tried}
use timix_next.Sync.Rwlock.Unlock.{unlock-Tried}

module _ (o : SchedOps) (fuel : ℕ) (mp readers writers : Ptr) (hard : Ptr → Bool) where
  interrupt-Tried :
      readers ≢ null
      → writers ≢ null
      → (t : Ptr) (v : V o fuel mp readers writers hard) (m : Mem o fuel mp readers writers hard)
      → Stands o fuel mp readers writers hard v m
      → Allowed o fuel readers writers hard (interrupt t) v
      → Tried o fuel mp readers writers hard
          (exec o fuel readers writers hard (interrupt t) (real o fuel mp readers writers hard v m))
          (spec o fuel readers writers hard (interrupt t) v)
  unfolding exec
  interrupt-Tried r_ne w_ne t v m h ok =
      let safe : null ∉ cvs o fuel readers writers hard = ground (arith, r_ne, w_ne) in
      elim (Bool-cases (hard t)) [
        | inl firm ↦
            let (k, ran, h', mutexes, same) =
              hard_interrupt-Shows o fuel (cvs o fuel readers writers hard) hard t m.kernel
                v.sleeping v.sched safe firm h.inside.conds ok in
            rw firm (
              record m { kernel = k },
              rw ran refl,
              record {
                inside = record { queue = h.inside.queue; wants = h.inside.wants; conds = h' };
                marked = λ a i. rw (same a) (h.marked a i);
                free = rw mutexes (h.free);
              },
            )
        | inr soft ↦
            let (k, ran, h', hit, mutexes, same) =
              soft_interrupt-Shows o fuel (cvs o fuel readers writers hard) hard t m.kernel
                v.sleeping v.sched safe soft h.inside.conds ok in
            rw soft (
              record m { kernel = k },
              rw ran refl,
              record {
                inside = record { queue = h.inside.queue; wants = h.inside.wants; conds = h' };
                marked = λ a i. elim (Bool-cases (a == t)) [
                  | inl here ↦
                      let e : a ≡ t = ground (arith, here) in
                      rw (e, hit, update_self v.hit t true) (refl, λ firm. cc)
                  | inr there ↦
                      let ne : a ≢ t = ground (arith, there) in
                      rw (same a ne, update_ne v.hit t true ne) (h.marked a i)
                ];
                free = rw mutexes (h.free);
              },
            )
      ]

  pub exec-Tried :
      Willing o
      → readers ≢ null
      → writers ≢ null
      → (c : Call) (v : V o fuel mp readers writers hard) (m : Mem o fuel mp readers writers hard)
      → Stands o fuel mp readers writers hard v m
      → Allowed o fuel readers writers hard c v
      → Tried o fuel mp readers writers hard
          (exec o fuel readers writers hard c (real o fuel mp readers writers hard v m))
          (spec o fuel readers writers hard c v)
  exec-Tried willing r_ne w_ne (lock t a) v m h ok =
      lock-Tried o fuel mp readers writers hard willing t a v m h ok
  exec-Tried willing r_ne w_ne (resume t a) v m h ok =
      resume-Tried o fuel mp readers writers hard willing t a v m h ok
  exec-Tried willing r_ne w_ne unlock v m h ok =
      unlock-Tried o fuel mp readers writers hard v m h ok
  exec-Tried willing r_ne w_ne downgrade v m h ok =
      downgrade-Tried o fuel mp readers writers hard v m h ok
  exec-Tried willing r_ne w_ne (interrupt t) v m h ok = interrupt-Tried r_ne w_ne t v m h ok

  -- Any sequence of `do_rwlock_lock` from its start and from a wake-up, `rwlock_unlock`,
  -- `rwlock_downgrade` and `cond_interrupt`, of any threads, on a lock whose mutexes are free, runs to
  -- its end, answers and does what the abstract lock of Sync/Rwlock/Model does: no assertion fails,
  -- no walk along a queue runs out of fuel, and the lock's count, mode and queue, the threads that
  -- sleep on its two condition variables and the scheduler are those of the abstract lock in the end.
  -- The scheduler does not refuse to block; the condition variables are not `NULL`; and each call is
  -- allowed where it is made: nobody asks who waits already, only a woken thread goes on, somebody
  -- holds the lock that is given back, the writer that keeps it for reading is alone, who is
  -- interrupted sleeps, and the fuel is more than the threads in the queue that is walked.
  pub exec_all-Tried :
      Willing o
      → readers ≢ null
      → writers ≢ null
      → (cs : List Call) (v : V o fuel mp readers writers hard)
        (m : Mem o fuel mp readers writers hard)
      → Stands o fuel mp readers writers hard v m
      → AllAllowed o fuel readers writers hard cs v
      → let (rets, v') = spec_all o fuel readers writers hard cs v in
        (m' : Mem o fuel mp readers writers hard) × (exec_all o fuel readers writers hard cs
            (real o fuel mp readers writers hard v m)
          ≡ done (rets, real o fuel mp readers writers hard v' m'))
        × Stands o fuel mp readers writers hard v' m'
  unfolding exec_all
  exec_all-Tried willing r_ne w_ne [] v m h ok = (m, refl, h)
  exec_all-Tried willing r_ne w_ne (c ∷ cs) v m h ok =
      let (m1, ran, h1) = exec-Tried willing r_ne w_ne c v m h ok.0 in
      let (m2, rest, h2) =
        exec_all-Tried willing r_ne w_ne cs (spec o fuel readers writers hard c v).1 m1 h1 ok.1 in
      (m2, rw (ran, rest) refl, h2)
