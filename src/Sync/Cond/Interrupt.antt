-- ===== src/Sync/Cond/Interrupt.antt =====
-- kernel/cond.c, `cond_interrupt`: a waiting thread is taken off the queue early.
use timix_next.Prelude.{
  ℕ, ◌<◌, ◌≡◌, ◌≢◌, refl, List, [], ◌∷◌, ◌++◌, Ptr, null, true, false, arith, update, update_self,
  update_ne, ◌∙◌, eqb_false, length, ◌==◌,
}
use timix_next.Prelude.Int.{pos}
use timix_next.Prelude.Run.{done, assert}
use timix_next.Queue
use timix_next.Queue.{Walk, found}
use timix_next.Queue.View.{IsQueue, SameOutside, ◌∈◌, Distinct, has-append}
use timix_next.Queue.Remove.{remove_lem}
use timix_next.Queue.Foreach.{find, foreach-find}
use timix_next.Sync.Mutex.{unlocked, mutex_lock, mutex_unlock}
use timix_next.Sync.Kernel.{SchedOps, Flags, Kernel, set_node, lock_node, unlock_node, unlock_queue}
use timix_next.Sync.Cond.{set_queue, cond_q_remove, interrupt_locked, cond_interrupt}
use timix_next.Sync.Cond.Wakeup.{Waits, IsFree}
use timix_next.Sync.Cond.Signal.{
  locked, lock_queue-locked, locked-Waits, unlock_queue-Waits, unlock_queue-IsFree,
}

-- Where each element has its own number the walk for one of them finds it.
find_own :
    (own : Ptr → Ptr) (t : Ptr) (xs ys : List Ptr)
    → Distinct (xs ++ t ∷ ys)
    → ((a : Ptr) → a ∈ (xs ++ t ∷ ys) → own a ≡ a)
    → find (λ n. own n == t) (xs ++ t ∷ ys) ≡ found t
unfolding find
find_own own t [] ys d same = ground (arith, same t (ground arith))
find_own own t (x ∷ xs) ys (out, d) same =
    let rest = find_own own t xs ys d (λ a i. same a (ground (arith, i))) in
    ground (arith, rest, same x (ground arith), out, has-append x xs (t ∷ ys))

module _ (o : SchedOps) where
  -- The state after the thread `t` has been taken out of the queue of `cv`.
  abbrev taken_out : (cv t : Ptr) → Kernel o → Kernel o
  taken_out cv t s = set_queue o cv (Queue.remove (s.conds cv).waiting t s.links) s

  cond_q_remove-found :
      (fuel : ℕ) (cv t : Ptr) (s : Kernel o) (xs ys : List Ptr)
      → Waits o cv s (xs ++ t ∷ ys)
      → length (xs ++ t ∷ ys) < fuel
      → cond_q_remove o fuel cv t s ≡ done (pos 0, taken_out cv t s)
  unfolding cond_q_remove assert
  cond_q_remove-found fuel cv t s xs ys w enough =
      let walk = foreach-find (λ n. (s.nodes n).tcb == t) fuel w.queue enough in
      let hit = find_own (λ n. (s.nodes n).tcb) t xs ys w.queue.distinct w.own in
      let same : (t == t) ≡ true = ground arith in rw (cond_q_remove, walk, hit, same) refl

  taken_out-Waits :
      (cv t : Ptr) (s : Kernel o) (xs ys : List Ptr)
      → Waits o cv s (xs ++ t ∷ ys)
      → Waits o cv (taken_out cv t s) (xs ++ ys)
  taken_out-Waits cv t s xs ys w =
      let (left, _, _, _) = remove_lem (s.conds cv).waiting s.links t xs ys w.queue in
      record {
        queue = rw update_self left;
        own = λ a i. w.own a (ground (arith, i, has-append a xs ys, has-append a xs (t ∷ ys)));
      }

  -- `t` is marked as interrupted, and the scheduler told.
  abbrev marked : (t : Ptr) → Kernel o → Kernel o
  marked t s =
      let flags : Flags = record (s.nodes t).flags { interrupted = true } in
      let s1 = set_node o t (record (s.nodes t) { flags = flags }) s in
      record s1 { sched = o.unblock_tcb t s1.sched }

  marked_self :
      (t : Ptr) (s : Kernel o)
      → ((unlock_node o t (marked t s)).nodes t).flags.interrupted ≡ true
        × ((unlock_node o t (marked t s)).nodes t).lock.owner ≡ unlocked
  unfolding unlock_node mutex_unlock
  marked_self t s = (simp (update_self), simp (update_self))

  marked_ne :
      (t : Ptr) (s : Kernel o) (a : Ptr)
      → a ≢ t
      → (unlock_node o t (marked t s)).nodes a ≡ s.nodes a
  unfolding unlock_node update
  marked_ne t s a ne = rw (eqb_false ne) refl

  marked_own :
      (t : Ptr) (s : Kernel o) (a : Ptr)
      → (s.nodes a).tcb ≡ a
      → ((unlock_node o t (marked t s)).nodes a).tcb ≡ a
  unfolding unlock_node update
  marked_own t s a own = ground (arith, own)

  marked-Waits :
      (cv t : Ptr) (s : Kernel o) (zs : List Ptr)
      → Waits o cv s zs
      → Waits o cv (unlock_node o t (marked t s)) zs
  unfolding unlock_node
  marked-Waits cv t s zs w = record { queue = w.queue; own = λ a i. marked_own t s a (w.own a i) }

  -- The state after the part under the lock of the thread's node.
  abbrev interrupted_at : (cv t : Ptr) → Kernel o → Kernel o
  interrupted_at cv t s = marked t (unlock_queue o cv (taken_out cv t (locked o cv s)))

  interrupt_locked_lem :
      (fuel : ℕ) (cv t : Ptr) (s : Kernel o) (xs ys : List Ptr)
      → (s.nodes t).cv ≡ cv
      → cv ≢ null
      → (s.nodes t).flags.uninterruptable ≡ false
      → IsFree o cv s
      → Waits o cv s (xs ++ t ∷ ys)
      → length (xs ++ t ∷ ys) < fuel
      → interrupt_locked o fuel t s ≡ done (pos 0, interrupted_at cv t s)
  unfolding interrupt_locked assert
  interrupt_locked_lem fuel cv t s xs ys at ne may free w enough =
      rw
        (
          at,
          eqb_false ne,
          may,
          lock_queue-locked o cv s free,
          cond_q_remove-found fuel cv t (locked o cv s) xs ys (locked-Waits o cv s _ w) enough,
        )
        refl

  taken_own :
      (t : Ptr) (s : Kernel o) (a : Ptr)
      → (s.nodes a).tcb ≡ a
      → (update s.nodes t (record (s.nodes t) { lock = record { owner = 1 } }) a).tcb ≡ a
  unfolding update
  taken_own t s a own = ground (arith, own)

  -- `cond_interrupt` of a thread that waits and may be interrupted, wherever it stands in the queue,
  -- returns 0, takes that thread out and keeps the order of the others, marks it as interrupted,
  -- tells the scheduler of it, and gives both locks back; more fuel than threads is enough. No other
  -- thread's entry and no mutex changes.
  pub cond_interrupt-Waits :
      (fuel : ℕ) (cv t : Ptr) (s : Kernel o) (xs ys : List Ptr)
      → (s.nodes t).cv ≡ cv
      → cv ≢ null
      → (s.nodes t).flags.uninterruptable ≡ false
      → (s.nodes t).lock.owner ≡ unlocked
      → IsFree o cv s
      → Waits o cv s (xs ++ t ∷ ys)
      → length (xs ++ t ∷ ys) < fuel
      → (s' : Kernel o) × (cond_interrupt o fuel t s ≡ done (pos 0, s'))
        × Waits o cv s' (xs ++ ys)
        × ((s'.nodes t).flags.interrupted ≡ true)
        × (s'.sched ≡ o.unblock_tcb t s.sched)
        × IsFree o cv s'
        × ((s'.nodes t).lock.owner ≡ unlocked)
        × ((a : Ptr) → a ≢ t → s'.nodes a ≡ s.nodes a)
        × (s'.mutexes ≡ s.mutexes)
        × ((c : Ptr) → c ≢ cv → s'.conds c ≡ s.conds c)
        × SameOutside (xs ++ t ∷ ys) s.links s'.links
  unfolding cond_interrupt lock_node mutex_lock unlock_node unlock_queue
  cond_interrupt-Waits fuel cv t s xs ys at ne may own_free free w enough =
      let s1 = set_node o t (record (s.nodes t) { lock = record { owner = 1 } }) s in
      let same = taken_own t s in
      let w1 : Waits o cv s1 (xs ++ t ∷ ys) = record {
        queue = w.queue;
        own = λ a i. same a (w.own a i);
      } in
      let ran =
        interrupt_locked_lem fuel cv t s1 xs ys (rw update_self at) ne (rw update_self may) free w1
          enough in
      let core = unlock_queue o cv (taken_out cv t (locked o cv s1)) in
      let out = taken_out-Waits cv t (locked o cv s1) xs ys (locked-Waits o cv s1 _ w1) in
      let kept = λ (is : IsQueue (s.conds cv).waiting s.links (xs ++ t ∷ ys)).
        (remove_lem (s.conds cv).waiting s.links t xs ys is).3 in
      (
        unlock_node o t (marked t core),
        rw (own_free, ran) refl,
        marked-Waits cv t core (xs ++ ys)
            (unlock_queue-Waits o cv (taken_out cv t (locked o cv s1)) _ out),
        (marked_self t core).0,
        refl,
        unlock_queue-IsFree o cv (taken_out cv t (locked o cv s1)),
        (marked_self t core).1,
        λ a other. marked_ne t core a other ∙ update_ne _ _ _ other,
        refl,
        λ c other. update_ne _ _ _ other ∙ update_ne _ _ _ other ∙ update_ne _ _ _ other,
        rw update_self (kept w.queue),
      )
