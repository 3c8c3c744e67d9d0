-- ===== src/Sync/Cond/Resume.antt =====
-- kernel/cond.c, `do_cond_wait` from its start to its return: what a wait answers.
use timix_next.Prelude.{
  ℕ, ◌<◌, ◌+◌, ◌≡◌, ◌≢◌, update_ne, refl, ◌∙◌, ap, List, [], ◌∷◌, ◌++◌, false, if◌then◌else◌, Ptr,
  null, arith, length, update_self,
}
use timix_next.Prelude.Int.{pos}
use timix_next.Prelude.Run.{done}
use timix_next.Prelude.Errno.{minus_eintr}
use timix_next.Queue.View.{◌∉◌}
use timix_next.Sync.Mutex.{unlocked, mutex_lock, mutex_unlock}
use timix_next.Sync.Kernel.{SchedOps, Kernel, lock_node, unlock_node, set_node, lock_mutex}
use timix_next.Sync.Free.{MutexFree, taken}
use timix_next.Sync.Cond.{asleep, cond_sleep, cond_wake, cond_broadcast, cond_interrupt}
use timix_next.Sync.Cond.Wakeup.{Waits, IsFree, latest_first}
use timix_next.Sync.Cond.Signal.{cond_broadcast-Woke}
use timix_next.Sync.Cond.Interrupt.{cond_interrupt-Waits}
use timix_next.Sync.Cond.Order.{
  latest_first-append, has-latest_first, length-latest_first, length-append,
}
use timix_next.Sync.Cond.Block.{Willing, cond_sleep-asleep}

module _ (o : SchedOps) where
  -- The kernel after the thread has come back.
  abbrev back : (t mp : Ptr) → Kernel o → Kernel o
  back t mp s =
      let s1 = set_node o t (record (s.nodes t) { lock = record { owner = 1 } }) s in
      let s2 = set_node o t (record (s1.nodes t) { cv = null }) s1 in
      unlock_node o t (taken o mp s2)

  awake : (t : Ptr) → Kernel o → Kernel o
  awake t s =
      let s1 = set_node o t (record (s.nodes t) { lock = record { owner = 1 } }) s in
      set_node o t (record (s1.nodes t) { cv = null }) s1

  awake_flags : (t : Ptr) (s : Kernel o) → ((awake t s).nodes t).flags ≡ (s.nodes t).flags
  unfolding awake
  awake_flags t s = simp (update_self)

  -- A woken thread that finds its own lock and the mutex free returns with the mutex held, no longer
  -- marked as waiting, and answers -EINTR if it has been interrupted and 0 if not; the queues and
  -- the scheduler stay as they are.
  pub cond_wake_lem :
      (t mp : Ptr) (s : Kernel o)
      → (s.nodes t).lock.owner ≡ unlocked
      → MutexFree o mp s
      → (s' : Kernel o) × (cond_wake o t mp s
          ≡ done (if (s.nodes t).flags.interrupted then minus_eintr else pos 0, s'))
        × ((s'.mutexes mp).owner ≡ 1)
        × ((s'.nodes t).cv ≡ null)
        × ((s'.nodes t).lock.owner ≡ unlocked)
        × (s'.conds ≡ s.conds)
        × (s'.links ≡ s.links)
        × (s'.sched ≡ s.sched)
        × ((a : Ptr) → a ≢ t → s'.nodes a ≡ s.nodes a)
  unfolding cond_wake awake lock_node lock_mutex unlock_node mutex_lock mutex_unlock
  cond_wake_lem t mp s own free = (
    back t mp s,
    rw (own, free)
        (ap (λ f. done (if f.interrupted then minus_eintr else pos 0, back t mp s))
          (awake_flags t s)),
    rw update_self refl,
    simp (update_self),
    simp (update_self),
    refl,
    refl,
    refl,
    λ a other. update_ne _ _ _ other ∙ update_ne _ _ _ other ∙ update_ne _ _ _ other,
  )

  module _ (willing : Willing o) (t cv mp : Ptr) (s : Kernel o) (ts : List Ptr) where
    -- A thread that may be interrupted waits on `cv` with the mutex `mp`, behind the threads `ts`,
    -- with its own lock and the queue's lock free and the scheduler not refusing. If the thread is
    -- interrupted then, its wait answers -EINTR and the others still wait; if the condition is
    -- broadcast instead, its wait answers 0 and nobody waits. Either way it comes back with the
    -- mutex held. The fuel is more than the threads that wait.
    pub cond_wait-answers :
        (fuel : ℕ)
        → cv ≢ null
        → t ≢ null
        → t ∉ ts
        → Waits o cv s (latest_first o ts)
        → (s.nodes t).lock.owner ≡ unlocked
        → IsFree o cv s
        → length ts + 1 < fuel
        → (s1 : Kernel o) × (cond_sleep o t cv mp false s ≡ done (asleep, s1))
          × ((s2 : Kernel o) × (s3 : Kernel o) × (cond_interrupt o fuel t s1 ≡ done (pos 0, s2))
              × (cond_wake o t mp s2 ≡ done (minus_eintr, s3))
              × Waits o cv s2 (latest_first o ts)
              × ((s3.mutexes mp).owner ≡ 1))
          × ((s2 : Kernel o) × (s3 : Kernel o) × (cond_broadcast o fuel cv s1 ≡ done s2)
              × (cond_wake o t mp s2 ≡ done (pos 0, s3))
              × Waits o cv s2 []
              × ((s3.mutexes mp).owner ≡ 1))
    cond_wait-answers fuel cv_ne t_ne out w own free enough =
        let xs = latest_first o ts in
        let all = latest_first-append o ts (t ∷ []) in
        let (s1, slept, w1, free1, m_free, at, flags, own1, _, _, _, _) =
          cond_sleep-asleep o willing t cv mp false s xs t_ne (has-latest_first o t ts ∙ out) w own
            free in
        let (s2, ran, w2, hit, _, _, own2, _, mutexes, _, _) =
          cond_interrupt-Waits o fuel cv t s1 [] xs at cv_ne (ap (λ f. f.uninterruptable) flags)
            own1 free1 w1 (omega (arith, enough, length-latest_first o ts)) in
        let (s3, woken, held, _, _, _, _, _, _) = cond_wake_lem t mp s2 own2 (rw mutexes m_free) in
        let (s4, ran', woke) =
          cond_broadcast-Woke o fuel cv s1 (ts ++ t ∷ []) (rw all w1) free1
            (omega (arith, enough, length-append ts (t ∷ []))) in
        let (s5, woken', held', _, _, _, _, _, _) =
          cond_wake_lem t mp s4 (rw (woke.nodes) own1) (rw (woke.mutexes) m_free) in
        let calm = ap (λ n. (n t).flags) woke.nodes ∙ flags in
        (
          s1,
          slept,
          (s2, s3, ran, rw hit at woken, w2, held),
          (s4, s5, ran', rw calm at woken', woke.waits, held'),
        )
