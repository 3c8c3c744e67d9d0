-- ===== src/Sync/Sem/Balance.antt =====
-- kernel/sem.c: the count of a semaphore against the threads that wait for it.
use timix_next.Prelude.{
  ℕ, zero, suc, ◌≡◌, ◌⊎◌, inl, inr, refl, List, [], ◌∷◌, ◌++◌, true, false, Ptr, arith, length,
}
use timix_next.Prelude.Int.{pos, negsuc, ◌+ℤ◌, ◌-ℤ◌, ltb_ℤ}
use timix_next.Prelude.Run.{done}
use timix_next.Sync.Kernel.{SchedOps, Kernel, unlock_mutex}
use timix_next.Sync.Free.{MutexFree, taken, lock_mutex-taken, unlock_mutex-MutexFree}
use timix_next.Sync.Cond.Wakeup.{unblock_all}
use timix_next.Sync.Cond.Signal.{oldest, others}
use timix_next.Sync.Cond.Order.{length-append}
use timix_next.Sync.Cond.Block.{Willing}
use timix_next.Sync.Cond.Fifo.{Shows}
use timix_next.Sync.Cond.Steps.{cond_sleep-Shows, cond_signal-Shows}
use timix_next.Sync.Sem.{Sem, S, sem_wait, sem_signal}
use timix_next.Sync.Sem.Counter.{
  Call, down, up, count, exec, exec_all, View, spec, spec_all, Allowed, answers, AllAllowed, soft,
  Stands, Ends,
}

module _ (o : SchedOps) where
  taken-Shows :
      (cv mp : Ptr) (k : Kernel o) (v : List Ptr × o.State)
      → Shows o 0 cv (soft o) k v
      → Shows o 0 cv (soft o) (taken o mp k) v
  taken-Shows cv mp k v h = record {
    waits = record { queue = h.waits.queue; own = h.waits.own };
    free = h.free;
    locks = h.locks;
    marks = h.marks;
    told = h.told;
  }

  pub unlock_mutex-Shows :
      (cv mp : Ptr) (k : Kernel o) (v : List Ptr × o.State)
      → Shows o 0 cv (soft o) k v
      → Shows o 0 cv (soft o) (unlock_mutex o mp k) v
  unfolding unlock_mutex
  unlock_mutex-Shows cv mp k v h = record {
    waits = record { queue = h.waits.queue; own = h.waits.own };
    free = h.free;
    locks = h.locks;
    marks = h.marks;
    told = h.told;
  }

minus_one :
    (ts : List Ptr) (t : Ptr)
    → (ltb_ℤ (count 0 ts -ℤ pos 1) (pos 0) ≡ true) × (count 0 ts -ℤ pos 1 ≡ count 0 (ts ++ t ∷ []))
unfolding ◌-ℤ◌
minus_one [] t = (refl, refl)
minus_one (u ∷ us) t = (ground arith, ground (arith, length-append us (t ∷ [])))

take_one : (n : ℕ) → (ltb_ℤ (pos (suc n) -ℤ pos 1) (pos 0) ≡ false) × (pos (suc n) -ℤ pos 1 ≡ pos n)
unfolding ◌-ℤ◌
take_one n = (ground arith, ground arith)

pub plus_one : (n : ℕ) → pos n +ℤ pos 1 ≡ pos (suc n)
unfolding ◌+ℤ◌
plus_one n = ground arith

count_less :
    (n : ℕ) (t : Ptr) (ts : List Ptr)
    → (n ≡ 0) ⊎ (t ∷ ts ≡ [])
    → negsuc (length ts) +ℤ pos 1 ≡ count n ts
unfolding ◌+ℤ◌
count_less n t [] e = ground (arith, e)
count_less n t (u ∷ us) e = ground arith

nobody_left : (n : ℕ) (t : Ptr) (ts : List Ptr) → (n ≡ 0) ⊎ (t ∷ ts ≡ []) → (n ≡ 0) ⊎ (ts ≡ [])
nobody_left n t ts e = ground (arith, e)

module _ (o : SchedOps) where
  sem_signal-Shows :
      (sem : Sem) (k : Kernel o) (ts : List Ptr) (p : o.State)
      → MutexFree o sem.sem_lock k
      → Shows o 0 sem.sem_signal (soft o) k (ts, p)
      → (k' : Kernel o) × (sem_signal o (sem, k)
          ≡ done (record sem { sem_count = sem.sem_count +ℤ pos 1 }, k'))
        × MutexFree o sem.sem_lock k'
        × Shows o 0 sem.sem_signal (soft o) k' (others o ts, unblock_all o (oldest o ts) p)
  unfolding sem_signal
  sem_signal-Shows sem k ts p free h =
      let (k1, ran, h1, _) =
        cond_signal-Shows o 0 sem.sem_signal (soft o) (taken o sem.sem_lock k) (ts, p)
          (taken-Shows o sem.sem_signal sem.sem_lock k (ts, p) h) in
      (
        unlock_mutex o sem.sem_lock k1,
        rw (lock_mutex-taken o sem.sem_lock k free, ran) refl,
        unlock_mutex-MutexFree o sem.sem_lock k1,
        unlock_mutex-Shows o sem.sem_signal sem.sem_lock k1 _ h1,
      )

  up-Stands : (s : S o) (v : View o) → Stands o s v → Ends o up s v
  unfolding exec
  up-Stands (sem, k) (n, [], p) h =
      let (k', ran, free, h') = sem_signal-Shows sem k [] p h.lock h.queue in
      (
        (record sem { sem_count = sem.sem_count +ℤ pos 1 }, k'),
        rw ran refl,
        record { value = rw (h.value) (plus_one n); even = inr refl; lock = free; queue = h' },
      )
  up-Stands (sem, k) (n, t ∷ ts, p) h =
      let (k', ran, free, h') = sem_signal-Shows sem k (t ∷ ts) p h.lock h.queue in
      (
        (record sem { sem_count = sem.sem_count +ℤ pos 1 }, k'),
        rw ran refl,
        record {
          value = rw (h.value) (count_less n t ts h.even);
          even = nobody_left n t ts h.even;
          lock = free;
          queue = h';
        },
      )

  down-Stands :
      Willing o
      → (t : Ptr) (s : S o) (v : View o) → Stands o s v
      → Allowed o (down t) v
      → Ends o (down t) s v
  unfolding exec sem_wait
  down-Stands willing t (sem, k) (zero, ts, p) h ok =
      let (neg, less) = minus_one ts t in
      let (k', ran, h', free, _, _) =
        cond_sleep-Shows o 0 sem.sem_signal (soft o) willing t sem.sem_lock (taken o sem.sem_lock k)
          (ts, p) (taken-Shows o sem.sem_signal sem.sem_lock k (ts, p) h.queue) ok in
      let same : sem.sem_count ≡ count 0 ts = h.value in
      let below : ltb_ℤ (sem.sem_count -ℤ pos 1) (pos 0) ≡ true = rw same neg in
      (
        (record sem { sem_count = sem.sem_count -ℤ pos 1 }, k'),
        rw (lock_mutex-taken o sem.sem_lock k h.lock, below, ran) refl,
        record { value = rw same less; even = inl refl; lock = free; queue = h' },
      )
  down-Stands willing t (sem, k) (suc n, [], p) h ok =
      let (room, less) = take_one n in
      let same : sem.sem_count ≡ pos (suc n) = h.value in
      let above : ltb_ℤ (sem.sem_count -ℤ pos 1) (pos 0) ≡ false = rw same room in
      let k1 = taken o sem.sem_lock k in
      (
        (record sem { sem_count = sem.sem_count -ℤ pos 1 }, unlock_mutex o sem.sem_lock k1),
        rw (lock_mutex-taken o sem.sem_lock k h.lock, above) refl,
        record {
          value = rw same less;
          even = inr refl;
          lock = unlock_mutex-MutexFree o sem.sem_lock k1;
          queue =
              unlock_mutex-Shows o sem.sem_signal sem.sem_lock k1 _
                (taken-Shows o sem.sem_signal sem.sem_lock k ([], p) h.queue);
        },
      )
  down-Stands willing t (sem, k) (suc n, u ∷ us, p) h ok = absurd (ground (arith, h.even))

  exec-Stands :
      Willing o → (c : Call) (s : S o) (v : View o) → Stands o s v → Allowed o c v → Ends o c s v
  exec-Stands willing (down t) s v h ok = down-Stands willing t s v h ok
  exec-Stands willing up s v h ok = up-Stands s v h

  -- Any sequence of `sem_wait` up to the return or the yield, and of `sem_signal`, on a semaphore
  -- whose locks are free runs to its end and does and answers what a counter with a queue of
  -- threads does. While units are left a wait takes one and answers 0 at once, and else the thread
  -- stands behind the others and sleeps; a signal wakes the one that came first, or adds a unit where nobody waits. Units are left
  -- only while nobody waits, and `sem_count` is their number, or that of the waiting threads negated.
  -- The scheduler does not refuse to block, and a thread that comes to wait is not `NULL` and does
  -- not wait yet.
  pub exec_all-Stands :
      (cs : List Call) (s : S o) (v : View o)
      → Willing o
      → Stands o s v
      → AllAllowed o cs v
      → (s' : S o) × (exec_all o cs s ≡ done (answers o cs v, s')) × Stands o s' (spec_all o cs v)
  unfolding exec_all
  exec_all-Stands [] s v willing h ok = (s, refl, h)
  exec_all-Stands (c ∷ cs) s v willing h ok =
      let (s1, ran, h1) = exec-Stands willing c s v h ok.0 in
      let (s2, rest, h2) = exec_all-Stands cs s1 (spec o c v) willing h1 ok.1 in
      (s2, rw (ran, rest) refl, h2)
