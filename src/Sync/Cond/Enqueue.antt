-- ===== src/Sync/Cond/Enqueue.antt =====
-- kernel/cond.c, the start of `do_cond_wait`: a thread enters the queue.
use timix_next.Prelude.{
  ◌≡◌, ◌≢◌, refl, List, ◌∷◌, Bool, false, Ptr, null, Bool-cases, inl, inr, arith, update,
  update_self, update_ne, ◌∙◌, eqb_false, ◌==◌,
}
use timix_next.Prelude.Run.{done}
use timix_next.Queue
use timix_next.Queue.Memory.{Links}
use timix_next.Queue.View.{◌∉◌, SameOutside, not-mem-cons}
use timix_next.Queue.Insert.{insert_front-cons}
use timix_next.Sync.Mutex.{unlocked, mutex_lock, mutex_unlock}
use timix_next.Sync.Kernel.{
  SchedOps, Flags, Kernel, lock_node, unlock_node, lock_queue, set_node, set_cond,
}
use timix_next.Sync.Cond.{cond_q_push, cond_enqueue}
use timix_next.Sync.Cond.Wakeup.{Waits, IsFree}
use timix_next.Queue.Refine.{init_elem-IsQueue}

module _ (o : SchedOps) where
  -- The state after each of the steps, when both locks are free.
  abbrev entered : (t cv : Ptr) → Bool → Kernel o → Kernel o
  entered t cv uninterruptable s =
      let s1 =
        set_node o t (record (s.nodes t) { lock = record { owner = 1 } })
          (record s { links = Queue.init_elem t s.links }) in
      let s2 = set_cond o cv (record (s1.conds cv) { q_lock = record { owner = 1 } }) s1 in
      let s3 = cond_q_push o cv t s2 in
      let flags : Flags = record { interrupted = false; uninterruptable = uninterruptable } in
      unlock_node o t (set_node o t (record (s3.nodes t) { flags = flags; cv = cv }) s3)

  init_elem_prev : (t : Ptr) (l : Links) → (Queue.init_elem t l).prev t ≡ null
  unfolding Queue.init_elem
  init_elem_prev t l = update_self l.prev t null

  init_elem_ne :
      (t a : Ptr) (l : Links)
      → a ≢ t
      → ((Queue.init_elem t l).next a ≡ l.next a) × ((Queue.init_elem t l).prev a ≡ l.prev a)
  unfolding Queue.init_elem
  init_elem_ne t a l ne = (update_ne _ _ _ ne, update_ne _ _ _ ne)

  module _ (t cv : Ptr) (u : Bool) (s : Kernel o) where
    entered_self : (entered t cv u s).nodes t ≡ record {
      lock = record { owner = unlocked };
      tcb = t;
      cv = cv;
      flags = record { interrupted = false; uninterruptable = u };
    }
    unfolding cond_q_push unlock_node mutex_unlock
    entered_self = simp (update_self)

    entered_ne : (a : Ptr) → a ≢ t → (entered t cv u s).nodes a ≡ s.nodes a
    unfolding cond_q_push unlock_node update
    entered_ne a ne = rw (eqb_false ne) refl

    entered_own : (a : Ptr) → (a ≢ t → (s.nodes a).tcb ≡ a) → ((entered t cv u s).nodes a).tcb ≡ a
    entered_own a own = elim (Bool-cases (a == t)) [
      | inl here ↦ let e : a ≡ t = ground (arith, here) in rw (e, entered_self) refl
      | inr there ↦ let ne : a ≢ t = ground (arith, there) in rw (entered_ne a ne) (own ne)
    ]

    entered_cond : (entered t cv u s).conds cv ≡ record {
      waiting = (Queue.insert_front (s.conds cv).waiting t (Queue.init_elem t s.links)).0;
      q_lock = record { owner = 1 };
    }
    unfolding cond_q_push unlock_node
    entered_cond = simp (update_self)

    entered_links :
        (entered t cv u s).links
        ≡ (Queue.insert_front (s.conds cv).waiting t (Queue.init_elem t s.links)).1
    unfolding cond_q_push unlock_node
    entered_links = simp (update_self)

  -- A thread that is not in the queue of `cv` and finds its own lock and the queue's lock free
  -- enters the queue in front of the others, with its flags reset and marked as waiting on `cv`,
  -- and goes on with the queue's lock held and its own lock given back. No other thread's entry
  -- changes, and the scheduler is not told.
  pub cond_enqueue-Waits :
      (t cv : Ptr) (uninterruptable : Bool) (s : Kernel o) (xs : List Ptr)
      → t ≢ null
      → t ∉ xs
      → Waits o cv s xs
      → (s.nodes t).lock.owner ≡ unlocked
      → IsFree o cv s
      → (s' : Kernel o) × (cond_enqueue o t cv uninterruptable s ≡ done s')
        × Waits o cv s' (t ∷ xs)
        × ((s'.nodes t).cv ≡ cv)
        × ((s'.nodes t).flags ≡ record { interrupted = false; uninterruptable = uninterruptable })
        × ((s'.conds cv).q_lock.owner ≡ 1)
        × ((s'.nodes t).lock.owner ≡ unlocked)
        × ((a : Ptr) → a ≢ t → s'.nodes a ≡ s.nodes a)
        × (s'.sched ≡ s.sched)
        × ((c : Ptr) → c ≢ cv → s'.conds c ≡ s.conds c)
        × SameOutside (t ∷ xs) s.links s'.links
  unfolding cond_enqueue cond_q_push lock_node lock_queue unlock_node mutex_lock mutex_unlock
  cond_enqueue-Waits t cv uninterruptable s xs ne out w own_free free =
      let is = init_elem-IsQueue (s.conds cv).waiting s.links t xs w.queue out in
      let (queued, same) = insert_front-cons t ne xs is out (init_elem_prev t s.links) in
      let self = entered_self t cv uninterruptable s in
      (
        entered t cv uninterruptable s,
        rw (own_free, free) refl,
        record {
          queue =
              rw (entered_cond t cv uninterruptable s, entered_links t cv uninterruptable s) queued;
          own = λ a i.
              entered_own t cv uninterruptable s a (λ other. w.own a (ground (arith, i, other)));
        },
        rw self refl,
        rw self refl,
        rw (entered_cond t cv uninterruptable s) refl,
        rw self refl,
        entered_ne t cv uninterruptable s,
        refl,
        λ c other. update_ne _ _ _ other ∙ update_ne _ _ _ other,
        rw (entered_links t cv uninterruptable s) (λ a out.
            let ne = (not-mem-cons a t xs out).0 in
            let kept = init_elem_ne t a s.links ne in
            ((same a out).0 ∙ kept.0, (same a out).1 ∙ kept.1)),
      )
