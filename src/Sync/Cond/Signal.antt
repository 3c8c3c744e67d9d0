-- ===== src/Sync/Cond/Signal.antt =====
-- kernel/cond.c, `cond_signal`, `cond_broadcast` and the roll-back in `do_cond_wait`: who is woken.
use timix_next.Prelude.{
  ℕ, ◌<◌, ◌≡◌, ◌≢◌, refl, ◌∙◌, List, [], ◌∷◌, ◌++◌, Ptr, arith, update_self, update_ne, length,
}
use timix_next.Prelude.Run.{done}
use timix_next.Prelude.Errno.{minus_eintr}
use timix_next.Queue.View.{SameOutside, has-append}
use timix_next.Sync.Mutex.{mutex_lock, mutex_unlock}
use timix_next.Sync.Kernel.{SchedOps, Kernel, set_cond, lock_queue, unlock_queue}
use timix_next.Sync.Cond.{returned, do_cond_signal_unsafe, cond_signal, cond_broadcast, roll_back}
use timix_next.Sync.Cond.Wakeup.{
  Waits, IsFree, unblock_all, latest_first, do_cond_signal_unsafe-Took, do_cond_signal_unsafe_empty,
  signal_all_lem, popped, cond_q_pop-last, popped-IsQueue,
}

module _ (o : SchedOps) where
  -- From `s` to `s'` the threads `ts` have been woken, and `xs` still wait.
  pub record Woke (cv : Ptr) (ts xs : List Ptr) (s s' : Kernel o) : Type 0 where
    pub waits : Waits o cv s' xs
    pub free : IsFree o cv s'
    pub told : s'.sched ≡ unblock_all o ts s.sched
    pub nodes : s'.nodes ≡ s.nodes
    pub mutexes : s'.mutexes ≡ s.mutexes
    pub conds : (c : Ptr) → c ≢ cv → s'.conds c ≡ s.conds c
    pub links : SameOutside (xs ++ latest_first o ts) s.links s'.links

  -- The one that has waited longest, and the rest.
  abbrev pub oldest : List Ptr → List Ptr
  oldest [] = []
  oldest (t ∷ ts) = t ∷ []

  abbrev pub others : List Ptr → List Ptr
  others [] = []
  others (t ∷ ts) = ts

  abbrev pub locked : Ptr → Kernel o → Kernel o
  locked cv s = set_cond o cv (record (s.conds cv) { q_lock = record { owner = 1 } }) s

  pub lock_queue-locked :
      (cv : Ptr) (s : Kernel o) → IsFree o cv s → lock_queue o cv s ≡ done (locked cv s)
  unfolding lock_queue mutex_lock
  lock_queue-locked cv s free = rw (free) refl

  pub locked-Waits :
      (cv : Ptr) (s : Kernel o) (xs : List Ptr) → Waits o cv s xs → Waits o cv (locked cv s) xs
  locked-Waits cv s xs w = record { queue = rw update_self (w.queue); own = w.own }

  pub unlock_queue-Waits :
      (cv : Ptr) (s : Kernel o) (xs : List Ptr)
      → Waits o cv s xs
      → Waits o cv (unlock_queue o cv s) xs
  unfolding unlock_queue
  unlock_queue-Waits cv s xs w = record { queue = rw update_self (w.queue); own = w.own }

  pub unlock_queue-IsFree : (cv : Ptr) (s : Kernel o) → IsFree o cv (unlock_queue o cv s)
  unfolding unlock_queue mutex_unlock
  unlock_queue-IsFree cv s = rw update_self refl

  -- `cond_signal` on a free queue that the threads `ts` have entered in this order wakes the first
  -- of them, leaves the others waiting, and with nobody there wakes nobody.
  pub cond_signal-Woke :
      (cv : Ptr) (s : Kernel o) (ts : List Ptr)
      → Waits o cv s (latest_first o ts)
      → IsFree o cv s
      → (s' : Kernel o) × (cond_signal o cv s ≡ done s')
        × Woke cv (oldest ts) (latest_first o (others ts)) s s'
  unfolding cond_signal unlock_queue
  cond_signal-Woke cv s [] w free =
      let w1 = locked-Waits cv s [] w in
      (
        unlock_queue o cv (locked cv s),
        rw (
          cond_signal,
          lock_queue-locked cv s free,
          do_cond_signal_unsafe_empty o cv (locked cv s) w1.queue,
        ),
        record {
          waits = unlock_queue-Waits cv (locked cv s) [] w1;
          free = unlock_queue-IsFree cv (locked cv s);
          told = refl;
          nodes = refl;
          mutexes = refl;
          conds = λ c other. update_ne _ _ _ other ∙ update_ne _ _ _ other;
          links = λ a out. (refl, refl);
        },
      )
  cond_signal-Woke cv s (t ∷ ts) w free =
      let s1 = do_cond_signal_unsafe o cv (locked cv s) in
      let one =
        do_cond_signal_unsafe-Took o cv (locked cv s) (latest_first o ts) t
          (locked-Waits cv s _ w) in
      (
        unlock_queue o cv s1,
        rw (cond_signal, lock_queue-locked cv s free),
        record {
          waits = unlock_queue-Waits cv s1 (latest_first o ts) one.waits;
          free = unlock_queue-IsFree cv s1;
          told = one.told;
          nodes = one.nodes;
          mutexes = one.mutexes;
          conds = λ c other. update_ne _ _ _ other ∙ one.conds c other ∙ update_ne _ _ _ other;
          links = one.links;
        },
      )

  -- `cond_broadcast` on a free queue that the threads `ts` have entered in this order wakes all of
  -- them, the first one first, and leaves the queue empty; more fuel than threads is enough.
  pub cond_broadcast-Woke :
      (fuel : ℕ) (cv : Ptr) (s : Kernel o) (ts : List Ptr)
      → Waits o cv s (latest_first o ts)
      → IsFree o cv s
      → length ts < fuel
      → (s' : Kernel o) × (cond_broadcast o fuel cv s ≡ done s') × Woke cv ts [] s s'
  unfolding cond_broadcast unlock_queue
  cond_broadcast-Woke fuel cv s ts w free enough =
      let (s1, ran, all) =
        signal_all_lem o ts fuel cv (locked cv s) (locked-Waits cv s _ w) enough in
      (
        unlock_queue o cv s1,
        rw (cond_broadcast, lock_queue-locked cv s free, ran),
        record {
          waits = unlock_queue-Waits cv s1 [] all.waits;
          free = unlock_queue-IsFree cv s1;
          told = all.told;
          nodes = all.nodes;
          mutexes = all.mutexes;
          conds = λ c other. update_ne _ _ _ other ∙ all.conds c other ∙ update_ne _ _ _ other;
          links = all.links;
        },
      )

  -- The roll-back of the caller, the last to enter the queue of `cv` where others wait, returns
  -- -EINTR, takes the thread out that has waited longest, without telling the scheduler of it, and
  -- leaves the caller in the queue.
  pub roll_back-oldest :
      (cv caller : Ptr) (s : Kernel o) (xs : List Ptr) (t : Ptr)
      → Waits o cv s (caller ∷ xs ++ t ∷ [])
      → ((roll_back o cv s).0 ≡ returned minus_eintr)
        × Waits o cv (roll_back o cv s).1 (caller ∷ xs)
        × ((roll_back o cv s).1.sched ≡ o.unlock_scheduler s.sched)
  unfolding roll_back unlock_queue
  roll_back-oldest cv caller s xs t w =
      let s1 = popped o cv s (caller ∷ xs) t in
      let after : Waits o cv (record s1 { sched = o.unlock_scheduler s.sched }) (caller ∷ xs) =
        record {
          queue = popped-IsQueue o cv s (caller ∷ xs) t w.queue;
          own = λ a i. w.own a (ground (arith, i, has-append a (caller ∷ xs) (t ∷ [])));
        } in
      rw (cond_q_pop-last o cv s (caller ∷ xs) t w.queue) (
        refl,
        unlock_queue-Waits cv (record s1 { sched = o.unlock_scheduler s.sched }) (caller ∷ xs)
            after,
        refl,
      )
