-- ===== src/Sync/Sem/Interrupt.antt =====
-- kernel/sem.c, `sem_wait` of a thread that is interrupted while it waits.
use timix_next.Prelude.{
  ℕ, ◌+◌, ◌<◌, ◌≡◌, ◌≢◌, refl, sym, ◌∙◌, List, [], ◌∷◌, Ptr, null, arith, length, inl, inr,
  Bool-cases, ◌==◌,
}
use timix_next.Prelude.Int.{pos, ◌+ℤ◌, sub_ℕ}
use timix_next.Prelude.Run.{done}
use timix_next.Prelude.Errno.{minus_eintr}
use timix_next.Queue.View.{◌∈◌, ◌∉◌, ne_of_mem}
use timix_next.Queue.Refine.{without}
use timix_next.Sync.Mutex.{unlocked}
use timix_next.Sync.Kernel.{SchedOps, Kernel, unlock_mutex}
use timix_next.Sync.Free.{MutexFree, unlock_mutex-MutexFree}
use timix_next.Sync.Cond.{cond_interrupt}
use timix_next.Sync.Cond.Wakeup.{latest_first}
use timix_next.Sync.Cond.Order.{has-latest_first}
use timix_next.Sync.Cond.Fifo.{Shows}
use timix_next.Sync.Cond.Refine.{cond_interrupt-Shows}
use timix_next.Sync.Cond.Resume.{cond_wake_lem}
use timix_next.Sync.Sem.{Sem, S, sem_wake}
use timix_next.Sync.Sem.Counter.{count, soft, Stands}
use timix_next.Sync.Sem.Balance.{unlock_mutex-Shows}

length-without : (t : Ptr) (ts : List Ptr) → t ∈ ts → length (without t ts) + 1 ≡ length ts
length-without t [] i = cc
length-without t (u ∷ us) i = elim (Bool-cases (t == u)) [
  | inl same ↦ rw same (omega arith)
  | inr other ↦ rw other (omega (arith, length-without t us (ground (arith, i, other))))
]

count_of : (ts : List Ptr) → count 0 ts ≡ sub_ℕ 0 (length ts)
count_of [] = ground arith
count_of (t ∷ ts) = ground arith

one_less : (n : ℕ) → sub_ℕ 0 (n + 1) +ℤ pos 1 ≡ sub_ℕ 0 n
unfolding ◌+ℤ◌
one_less n = ground arith

count_without : (t : Ptr) (ts : List Ptr) → t ∈ ts → count 0 ts +ℤ pos 1 ≡ count 0 (without t ts)
count_without t ts i =
    rw (count_of ts, count_of (without t ts), sym (length-without t ts i))
      (one_less (length (without t ts)))

module _ (o : SchedOps) where
  -- The fuel stands in no field.
  other_fuel :
      (f g : ℕ) (cv : Ptr) (k : Kernel o) (v : List Ptr × o.State)
      → Shows o f cv (soft o) k v
      → Shows o g cv (soft o) k v
  other_fuel f g cv k v h = record {
    waits = h.waits;
    free = h.free;
    locks = h.locks;
    marks = h.marks;
    told = h.told;
  }

  -- A thread that is not in the queue comes back.
  back-Shows :
      (t cv : Ptr) (k k' : Kernel o) (ts : List Ptr) (p : o.State)
      → t ∉ ts
      → (k'.nodes t).lock.owner ≡ unlocked
      → k'.conds ≡ k.conds
      → k'.links ≡ k.links
      → k'.sched ≡ k.sched
      → ((a : Ptr) → a ≢ t → k'.nodes a ≡ k.nodes a)
      → Shows o 0 cv (soft o) k (ts, p)
      → Shows o 0 cv (soft o) k' (ts, p)
  back-Shows t cv k k' ts p out own conds links sched same h = record {
    waits = record {
      queue = rw (conds, links) (h.waits.queue);
      own = λ a i.
          rw (same a (ne_of_mem (latest_first o ts) i (has-latest_first o t ts ∙ out)))
            (h.waits.own a i);
    };
    free = rw conds (h.free);
    locks = λ a. elim (Bool-cases (a == t)) [
      | inl here ↦ let e : a ≡ t = ground (arith, here) in rw e own
      | inr there ↦ rw (same a (ground (arith, there))) (h.locks a)
    ];
    marks = λ a i. rw (same a (ne_of_mem ts i out)) (h.marks a i);
    told = sched ∙ h.told;
  }

  -- A thread that waits for the semaphore and is interrupted answers -EINTR from `sem_wait`, and the
  -- semaphore is as if the thread had never waited: the others wait in their order, the count is
  -- their number negated, and the mutex is free. The scheduler has been told to unblock it. The
  -- fuel is more than the threads that wait.
  pub sem_wake-interrupted :
      (fuel : ℕ) (t : Ptr) (sem : Sem) (k : Kernel o) (ts : List Ptr) (p : o.State)
      → sem.sem_signal ≢ null
      → Stands o (sem, k) (0, ts, p)
      → t ∈ ts
      → length ts < fuel
      → (k1 : Kernel o) × (s' : S o) × (cond_interrupt o fuel t k ≡ done (pos 0, k1))
        × (sem_wake o t (sem, k1) ≡ done (minus_eintr, s'))
        × Stands o s' (0, without t ts, o.unblock_tcb t p)
  unfolding sem_wake
  sem_wake-interrupted fuel t sem k ts p ne h i enough =
      let cv = sem.sem_signal in
      let (k1, ran, h1, hit, mutexes, out, _) =
        cond_interrupt-Shows o fuel cv (soft o) t k ts p ne refl
          (other_fuel 0 fuel cv k (ts, p) h.queue) (i, enough) in
      let free : MutexFree o sem.sem_lock k1 = rw mutexes (h.lock) in
      let (k2, woken, _, _, own, conds, links, sched, same) =
        cond_wake_lem o t sem.sem_lock k1 (h1.locks t) free in
      let h2 =
        back-Shows t cv k1 k2 (without t ts) (o.unblock_tcb t p) out own conds links sched same
          (other_fuel fuel 0 cv k1 _ h1) in
      (
        k1,
        (record sem { sem_count = sem.sem_count +ℤ pos 1 }, unlock_mutex o sem.sem_lock k2),
        ran,
        rw (rw hit at woken) refl,
        record {
          value = rw (h.value) (count_without t ts i);
          even = inl refl;
          lock = unlock_mutex-MutexFree o sem.sem_lock k2;
          queue = unlock_mutex-Shows o cv sem.sem_lock k2 _ h2;
        },
      )
