-- ===== src/Sync/Rwlock/Hold.antt =====
-- kernel/rwlock.c: how the lock's memory stands for the abstract lock of Sync/Rwlock/Model, and the
-- functions of its queue.
use timix_next.Prelude.{
  ℕ, ◌<◌, ◌≡◌, ◌≢◌, refl, sym, ap, ◌∙◌, List, [], ◌∷◌, Bool, true, false, Ptr, null, arith, length,
  Bool-cases, inl, inr, update, update_self, update_ne, ◌==◌,
}
use timix_next.Prelude.Int.{pos}
use timix_next.Prelude.Run.{done, assert}
use timix_next.Queue
use timix_next.Queue.{found}
use timix_next.Queue.Memory.{Head, Links}
use timix_next.Queue.View.{IsQueue, ◌∈◌, ◌∉◌, Distinct}
use timix_next.Queue.Foreach.{find, foreach-find}
use timix_next.Queue.Refine
use timix_next.Queue.Refine.{without}
use timix_next.Sync.Kernel.{SchedOps, Kernel}
use timix_next.Sync.Free.{MutexFree}
use timix_next.Sync.Cond.Order.{has-without}
use timix_next.Sync.Cond.Family
use timix_next.Sync.Rwlock.{
  Mode, Access, mode_of, Rwlock, S, rwlock_q_push, rwlock_q_remove, must_remove,
}
use timix_next.Sync.Rwlock.Model.{View, cvs, leave, enqueue}

find_self : (t : Ptr) (xs : List Ptr) → t ∈ xs → find (λ n. n == t) xs ≡ found t
unfolding find
find_self t [] i = cc
find_self t (x ∷ xs) i = ground (arith, i, find_self t xs)

-- A thread that has left a list without repetitions is not in it.
pub without_gone : (t : Ptr) (xs : List Ptr) → Distinct xs → t ∉ without t xs
without_gone t [] d = refl
without_gone t (x ∷ xs) (out, d) = ground (arith, out, d, without_gone t xs)

module _ (o : SchedOps) (fuel : ℕ) (mp readers writers : Ptr) (hard : Ptr → Bool) where
  abbrev pub V : Type 0
  V = View o fuel readers writers hard

  -- What the abstract lock does not show: the links of the queue, the modes in its entries, and the
  -- rest of the kernel.
  pub record Mem : Type 0 where
    pub head : Head
    pub entries : Links
    pub modes : Ptr → Mode
    pub kernel : Kernel o

  abbrev pub lock_of : V → Mem → Rwlock
  lock_of v m = record {
    lock = mp;
    readers = readers;
    writers = writers;
    waiting = m.head;
    entries = m.entries;
    modes = m.modes;
    count = pos v.count;
    mode = v.mode;
  }

  abbrev pub real : V → Mem → S o
  real v m = (lock_of v m, m.kernel)

  -- The queue and the condition variables show who waits and who sleeps.
  pub record Inside (v : V) (m : Mem) : Type 0 where
    pub queue : IsQueue m.head m.entries v.queue
    pub wants : (a : Ptr) → a ∈ v.queue → m.modes a ≡ mode_of (v.want a)
    pub conds :
        Family.Shows o fuel (cvs o fuel readers writers hard) hard m.kernel (v.sleeping, v.sched)

  -- The thread is marked as interrupted or not, and never if it locks uninterruptably.
  abbrev pub Marked : Ptr → V → Mem → Type 0
  Marked a v m =
      ((m.kernel.nodes a).flags.interrupted ≡ v.hit a) × (hard a ≡ true → v.hit a ≡ false)

  -- The lock stands for the view, and its mutex is free.
  pub record Stands (v : V) (m : Mem) : Type 0 where
    pub inside : Inside v m
    pub marked : (a : Ptr) → a ∈ v.queue → Marked a v m
    pub free : MutexFree o mp m.kernel

  abbrev pub removed : Ptr → Mem → Mem
  removed t m = let (q, l) = Queue.remove m.head t m.entries in record m { head = q; entries = l }

  abbrev pub pushed : Ptr → Access → Mem → Mem
  pushed t a m =
      let (q, l) = Queue.insert_front m.head t (Queue.init_elem t m.entries) in
      record m { head = q; entries = l; modes = update m.modes t (mode_of a) }

  module _ (t : Ptr) (v : V) (m : Mem) where
    -- A thread that is queued can be taken out: the assertion of `do_rwlock_lock` holds.
    pub must_remove_lem :
        Inside v m
        → t ∈ v.queue
        → length v.queue < fuel
        → must_remove o fuel t (lock_of v m)
          ≡ done (lock_of (leave o fuel readers writers hard t v) (removed t m))
    unfolding must_remove rwlock_q_remove assert
    must_remove_lem h i enough =
        let walk = foreach-find (λ n. n == t) fuel h.queue enough ∙ find_self t v.queue i in
        rw (must_remove, rwlock_q_remove, walk) refl

    pub removed-Inside :
        Inside v m → t ∈ v.queue → Inside (leave o fuel readers writers hard t v) (removed t m)
    unfolding Refine.exec
    removed-Inside h i = record {
      queue = Refine.exec-IsQueue (Refine.leave t) m.head m.entries v.queue h.queue i;
      wants = λ a j. h.wants a (has-without a t v.queue j);
      conds = h.conds;
    }

    pub pushed-real :
        (a : Access)
        → rwlock_q_push t (mode_of a) (lock_of v m)
          ≡ lock_of (enqueue o fuel readers writers hard t a v) (pushed t a m)
    unfolding rwlock_q_push
    pushed-real a = refl

    pub pushed-Inside :
        (a : Access)
        → Inside v m
        → t ≢ null
        → t ∉ v.queue
        → Inside (enqueue o fuel readers writers hard t a v) (pushed t a m)
    unfolding Refine.exec
    pushed-Inside a h ne out = record {
      queue = Refine.exec-IsQueue (Refine.enter_front t) m.head m.entries v.queue h.queue (ne, out);
      wants = λ b j. elim (Bool-cases (b == t)) [
        | inl here ↦
            let e : b ≡ t = ground (arith, here) in
            rw (e, update_self m.modes t (mode_of a), update_self v.want t a) refl
        | inr there ↦
            let b_ne : b ≢ t = ground (arith, there) in
            update_ne m.modes t (mode_of a) b_ne
            ∙ h.wants b (ground (arith, j, there))
            ∙ ap mode_of (sym (update_ne v.want t a b_ne))
      ];
      conds = h.conds;
    }
