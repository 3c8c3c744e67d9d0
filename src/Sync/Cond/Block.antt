-- ===== src/Sync/Cond/Block.antt =====
-- kernel/cond.c, `do_cond_wait` up to the yield: a thread that goes to sleep.
use timix_next.Prelude.{◌≡◌, ◌≢◌, refl, ◌∙◌, ap, List, ◌∷◌, Bool, true, false, Ptr, null, update_ne}
use timix_next.Prelude.Int.{eqb_ℤ}
use timix_next.Prelude.Run.{done}
use timix_next.Prelude.Errno.{minus_eintr}
use timix_next.Queue.View.{◌∉◌, SameOutside}
use timix_next.Sync.Mutex.{unlocked}
use timix_next.Sync.Kernel.{SchedOps, Kernel, unlock_mutex, unlock_queue}
use timix_next.Sync.Free.{MutexFree, unlock_mutex-MutexFree}
use timix_next.Sync.Cond.{asleep, cond_block, give_way, cond_sleep}
use timix_next.Sync.Cond.Wakeup.{Waits, IsFree}
use timix_next.Sync.Cond.Enqueue.{cond_enqueue-Waits}
use timix_next.Sync.Cond.Signal.{unlock_queue-Waits, unlock_queue-IsFree}

module _ (o : SchedOps) where
  -- The scheduler does not refuse to block: no thread is interrupted before it sleeps.
  abbrev pub Willing : Type 0
  Willing = (t : Ptr) (p : o.State) → eqb_ℤ (o.set_blocked t p).0 minus_eintr ≡ false

  -- What the scheduler is told when `t` goes to sleep.
  abbrev pub blocked : (t : Ptr) (uninterruptable : Bool) → o.State → o.State
  blocked t true p = o.unlock_scheduler_and_yield (o.force_set_blocked t (o.lock_scheduler p))
  blocked t false p = o.unlock_scheduler_and_yield (o.set_blocked t (o.lock_scheduler p)).1

  module _ (willing : Willing) (t cv mp : Ptr) where
    -- The scheduler's state when both locks are given back.
    abbrev waiting : Bool → o.State → o.State
    waiting true p = o.force_set_blocked t (o.lock_scheduler p)
    waiting false p = (o.set_blocked t (o.lock_scheduler p)).1

    cond_block-give_way :
        (u : Bool) (s : Kernel o)
        → cond_block o t cv mp u s ≡ give_way o cv mp (record s { sched = waiting u s.sched })
    unfolding cond_block
    cond_block-give_way true s = refl
    cond_block-give_way false s = rw (willing t (o.lock_scheduler s.sched)) refl

    waiting-blocked :
        (u : Bool) (p : o.State) → o.unlock_scheduler_and_yield (waiting u p) ≡ blocked t u p
    waiting-blocked true p = refl
    waiting-blocked false p = refl

    give_way-Waits :
        (s : Kernel o) (xs : List Ptr)
        → Waits o cv s xs
        → let (slept, s') = give_way o cv mp s in
          (slept ≡ asleep)
          × Waits o cv s' xs
          × IsFree o cv s'
          × MutexFree o mp s'
          × (s'.nodes ≡ s.nodes)
          × (s'.sched ≡ o.unlock_scheduler_and_yield s.sched)
          × ((c : Ptr) → c ≢ cv → s'.conds c ≡ s.conds c)
          × (s'.links ≡ s.links)
    unfolding give_way unlock_queue unlock_mutex
    give_way-Waits s xs w = (
      refl,
      (let v =
            unlock_queue-Waits o cv (unlock_mutex o mp s) xs
              (record { queue = w.queue; own = w.own }) in
          record { queue = v.queue; own = v.own }),
      unlock_queue-IsFree o cv (unlock_mutex o mp s),
      unlock_mutex-MutexFree o mp s,
      refl,
      refl,
      λ c other. update_ne _ _ _ other,
      refl,
    )

    -- A thread that waits on `cv`, is not in its queue, and finds its own lock and the queue's lock
    -- free goes to sleep, if the scheduler does not refuse: it is in the queue in front of the
    -- others, marked as waiting on `cv`, the mutex and all locks are free, and the scheduler has been
    -- told to block it and to give way. No other thread's entry, no other
    -- condition variable and no link of threads outside of the queue changes.
    pub cond_sleep-asleep :
        (u : Bool) (s : Kernel o) (xs : List Ptr)
        → t ≢ null
        → t ∉ xs
        → Waits o cv s xs
        → (s.nodes t).lock.owner ≡ unlocked
        → IsFree o cv s
        → (s' : Kernel o) × (cond_sleep o t cv mp u s ≡ done (asleep, s'))
          × Waits o cv s' (t ∷ xs)
          × IsFree o cv s'
          × MutexFree o mp s'
          × ((s'.nodes t).cv ≡ cv)
          × ((s'.nodes t).flags ≡ record { interrupted = false; uninterruptable = u })
          × ((s'.nodes t).lock.owner ≡ unlocked)
          × ((a : Ptr) → a ≢ t → s'.nodes a ≡ s.nodes a)
          × (s'.sched ≡ blocked t u s.sched)
          × ((c : Ptr) → c ≢ cv → s'.conds c ≡ s.conds c)
          × SameOutside (t ∷ xs) s.links s'.links
    unfolding cond_sleep
    cond_sleep-asleep u s xs ne out w own_free free =
        let (s1, ran, w1, at, flags, held, back, others, quiet, conds, links) =
          cond_enqueue-Waits o t cv u s xs ne out w own_free free in
        let s2 = record s1 { sched = waiting u s1.sched } in
        let (slept, w2, q_free, m_free, nodes, told, conds2, links2) =
          give_way-Waits s2 (t ∷ xs) (record { queue = w1.queue; own = w1.own }) in
        (
          (give_way o cv mp s2).1,
          rw (ran, cond_block-give_way u s1) (ap (λ r. done (r, (give_way o cv mp s2).1)) slept),
          w2,
          q_free,
          m_free,
          rw nodes at,
          rw nodes flags,
          rw nodes back,
          λ a other. rw nodes (others a other),
          told ∙ waiting-blocked u s1.sched ∙ ap (blocked t u) quiet,
          λ c other. conds2 c other ∙ conds c other,
          rw links2 links,
        )
