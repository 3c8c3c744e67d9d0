-- ===== src/Sync/Rwlock/Lost.antt =====
-- kernel/rwlock.c: a lock that is handed over to a writer that has been interrupted already.
use mathlib.Core.Path.{subst}
use timix_next.Prelude.{
  ℕ, ◌<◌, ◌≡◌, ◌≢◌, refl, ap, ◌∙◌, List, [], ◌∷◌, Bool, true, Ptr, null, arith, length, Bool-cases,
  inl, inr, update_self, update_ne, ◌==◌, if◌then◌else◌,
}
use timix_next.Prelude.Int.{pos}
use timix_next.Prelude.Run.{done}
use timix_next.Prelude.Errno.{minus_eintr}
use timix_next.Queue.View.{◌∉◌, mem_here}
use timix_next.Queue.Refine.{without}
use timix_next.Sync.Kernel.{SchedOps, Kernel}
use timix_next.Sync.Cond.{returned, asleep}
use timix_next.Sync.Cond.Wakeup.{unblock_all}
use timix_next.Sync.Cond.Signal.{oldest, others}
use timix_next.Sync.Cond.Block.{Willing, blocked}
use timix_next.Sync.Cond.Family.{Awake}
use timix_next.Sync.Rwlock.{write, Access, for_read, for_write, Rwlock}
use timix_next.Sync.Rwlock.Model.{
  View, wake, wake_writer, leave, try, enqueue, doze, lock, resume, unlock, exec, exec_all, cvs,
  spec,
}
use timix_next.Sync.Rwlock.Hold.{Mem, real, Stands}
use timix_next.Sync.Rwlock.Loop.{Tried}
use timix_next.Sync.Rwlock.Refine.{exec-Tried}

module _ (o : SchedOps) (fuel : ℕ) (mp readers writers : Ptr) (hard : Ptr → Bool) (t u r : Ptr)
    (rs : List Ptr) (want : Ptr → Access) (sleeping : Ptr → List Ptr) (hit : Ptr → Bool)
    (p : o.State) where
  -- A writer holds the lock, and the thread `t` has asked last of those that wait.
  abbrev pub behind_writer : View o fuel readers writers hard
  behind_writer = record {
    mode = write;
    count = 1;
    queue = t ∷ r ∷ rs;
    want = want;
    sleeping = sleeping;
    hit = hit;
    sched = p;
  }

  -- The writer has given the lock back.
  abbrev handed : View o fuel readers writers hard
  handed = wake_writer o fuel readers writers hard (record behind_writer { count = 0 })

  unlock-handed :
      want t ≡ for_write
      → spec o fuel readers writers hard unlock behind_writer ≡ (returned (pos 0), handed)
  unlock-handed writes =
      ap
        (λ a. (
          returned (pos 0),
          wake o fuel readers writers hard a (record behind_writer { count = 0 }),
        ))
        writes

  -- `t` has come back from its wait.
  abbrev given_up : View o fuel readers writers hard
  given_up = record handed { queue = r ∷ rs }

  left_behind : without t (t ∷ r ∷ rs) ≡ r ∷ rs
  left_behind = let same : (t == t) ≡ true = ground arith in rw same refl

  resume-given_up :
      hit t ≡ true
      → spec o fuel readers writers hard (resume t for_write) handed
        ≡ (returned minus_eintr, given_up)
  resume-given_up gone =
      ap
        (λ b.
          if b
          then (returned minus_eintr, leave o fuel readers writers hard t handed)
          else try o fuel readers writers hard t for_write handed)
        gone
      ∙ ap (λ ts. (returned minus_eintr, record handed { queue = ts })) left_behind

  -- `u` has asked for reading.
  abbrev stuck : View o fuel readers writers hard
  stuck =
      doze o fuel readers writers hard u for_read
        (enqueue o fuel readers writers hard u for_read given_up)

  lock-stuck : spec o fuel readers writers hard (lock u for_read) given_up ≡ (asleep, stuck)
  lock-stuck = refl

  Awake-handed :
      (a : Ptr)
      → sleeping writers ≡ []
      → Awake o fuel (cvs o fuel readers writers hard) hard a sleeping
      → Awake o fuel (cvs o fuel readers writers hard) hard a handed.sleeping
  Awake-handed a alone awake c i = elim (Bool-cases (c == writers)) [
    | inl here ↦
        let e : c ≡ writers = ground (arith, here) in
        rw (e, update_self sleeping writers (others o (sleeping writers)), alone) refl
    | inr there ↦
        let ne : c ≢ writers = ground (arith, there) in
        rw (update_ne sleeping writers (others o (sleeping writers)) ne) (awake c i)
  ]

  -- A writer is about to give the lock back, nobody sleeps for writing, and the thread `t` that asked
  -- last, for writing, has been interrupted and has not come back from its wait yet, while others are
  -- queued behind it. Then `rwlock_unlock` hands the lock over for writing and wakes nobody, `t` answers
  -- -EINTR, and a thread `u` that asks for reading next sleeps although nobody holds the lock: the
  -- count is 0, the mode is write, and the scheduler has been told to block `u` and nothing else. The
  -- condition variables are not `NULL`, the scheduler does not refuse to block, `t` and `u` are not
  -- `NULL` and sleep nowhere, `u` is not queued, and the fuel is more than the threads in a queue.
  pub unlock-stuck :
      (m : Mem o fuel mp readers writers hard)
      → Willing o
      → readers ≢ null
      → writers ≢ null
      → Stands o fuel mp readers writers hard behind_writer m
      → want t ≡ for_write
      → hit t ≡ true
      → sleeping writers ≡ []
      → (t ≢ null) × Awake o fuel (cvs o fuel readers writers hard) hard t sleeping
      → (u ≢ null) × Awake o fuel (cvs o fuel readers writers hard) hard u sleeping
      → u ∉ (r ∷ rs)
      → length (sleeping readers) < fuel
      → length (t ∷ r ∷ rs) < fuel
      → (lk : Rwlock) × (k : Kernel o) × (exec_all o fuel readers writers hard
            (unlock ∷ resume t for_write ∷ lock u for_read ∷ [])
            (real o fuel mp readers writers hard behind_writer m)
          ≡ done (returned (pos 0) ∷ returned minus_eintr ∷ asleep ∷ [], (lk, k)))
        × (lk.count ≡ pos 0)
        × (lk.mode ≡ write)
        × (k.sched ≡ blocked o u (hard u) p)
  unfolding exec_all
  unlock-stuck m willing r_ne w_ne st writes gone alone (t_ne, t_awake) (u_ne, u_awake) out few
        enough =
      let (m1, ran1, st1) =
        subst
          (Tried o fuel mp readers writers hard (
            exec o fuel readers writers hard unlock
              (real o fuel mp readers writers hard behind_writer m)))
          (unlock-handed writes)
          (exec-Tried o fuel mp readers writers hard willing r_ne w_ne unlock behind_writer m st
            (omega arith, few)) in
      let (m2, ran2, st2) =
        subst
          (Tried o fuel mp readers writers hard (
            exec o fuel readers writers hard (resume t for_write)
              (real o fuel mp readers writers hard handed m1)))
          (resume-given_up gone)
          (exec-Tried o fuel mp readers writers hard willing r_ne w_ne (resume t for_write) handed
            m1 st1 (t_ne, mem_here t (r ∷ rs), Awake-handed t alone t_awake, writes, enough)) in
      let (m3, ran3, st3) =
        exec-Tried o fuel mp readers writers hard willing r_ne w_ne (lock u for_read) given_up m2
          st2 (u_ne, out, Awake-handed u alone u_awake, omega (arith, enough)) in
      (
        (real o fuel mp readers writers hard stuck m3).0,
        m3.kernel,
        rw (ran1, ran2, ran3) refl,
        refl,
        refl,
        (st3.inside.conds.each readers (ground arith)).told
            ∙ ap (λ ts. blocked o u (hard u) (unblock_all o (oldest o ts) p)) alone,
      )
