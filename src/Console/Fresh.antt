-- ===== src/Console/Fresh.antt =====
-- `sem_init` of kernel/sem.c for one of the semaphores of text_console.c, and the others.
use timix_next.Prelude.{
  ◌≡◌, ◌≢◌, refl, true, Ptr, arith, inl, inr, Bool-cases, ◌==◌, update_self, update_ne,
}
use timix_next.Prelude.Int.{pos}
use timix_next.Queue
use timix_next.Sync.Mutex.{mutex_init, unlocked}
use timix_next.Sync.Kernel.{SchedOps, Kernel}
use timix_next.Sync.Cond.{cond_init}
use timix_next.Sync.Sem.{Sem, sem_init}
use timix_next.Console.Driver.{SemName}
use timix_next.Console.Locks.{code, same}
use timix_next.Console.Sems.{Sems, sems, Quiet, Quiet-kept}

module _ (so : SchedOps) where
  -- The kernel after `sem_init`
  abbrev begun : Sem → Kernel so → Kernel so
  begun one k = (sem_init so (pos 1) (one, k)).1.1

  Quiet-new : (one : Sem) (k : Kernel so) → Quiet so one (begun one k)
  unfolding sem_init cond_init mutex_init Queue.init_head
  Quiet-new one k = record {
    lock = rw update_self refl;
    waits = record {
      queue = rw update_self (record { front = refl; back = refl; chain = tt; distinct = tt });
      own = λ a i. cc;
    };
    free = rw update_self refl;
  }

  mutex_begun :
      (one : Sem) (a : Ptr) (k : Kernel so)
      → (k.mutexes a).owner ≡ unlocked
      → ((begun one k).mutexes a).owner ≡ unlocked
  unfolding sem_init cond_init mutex_init
  mutex_begun one a k free = elim (Bool-cases (a == one.sem_lock)) [
    | inl here ↦ let h : a ≡ one.sem_lock = ground (arith, here) in rw (h, update_self) refl
    | inr away ↦
        let ne : a ≢ one.sem_lock = ground (arith, away) in rw (update_ne k.mutexes _ _ ne) free
  ]

  -- Initialising a semaphore leaves the others quiet.
  Quiet-begun : (one sem : Sem) (k : Kernel so) → Quiet so sem k → Quiet so sem (begun one k)
  unfolding sem_init cond_init
  Quiet-begun one sem k q = elim (Bool-cases (sem.sem_signal == one.sem_signal)) [
    | inl here ↦
        let h : sem.sem_signal ≡ one.sem_signal = ground (arith, here) in
        let new = Quiet-new one k in
        record {
          lock = mutex_begun one sem.sem_lock k q.lock;
          waits = rw h (record { queue = new.waits.queue; own = new.waits.own });
          free = rw h (new.free);
        }
    | inr away ↦
        let ne : sem.sem_signal ≢ one.sem_signal = ground (arith, away) in
        Quiet-kept so sem k (begun one k) q (update_ne k.conds _ _ ne)
          (mutex_begun one sem.sem_lock k q.lock)
  ]

  -- The semaphore has its unit, and nobody is near it.
  pub record Fresh (k : SemName) (s : Sems so) : Type 0 where
    pub quiet : Quiet so (s.table k) s.kernel
    pub left : (s.table k).sem_count ≡ pos 1

  abbrev pub init_sem : SemName → Sems so → Sems so
  init_sem k s = (sems so).init k 1 s

  pub Fresh-new : (j k : SemName) (s : Sems so) → code j ≡ code k → Fresh j (init_sem k s)
  unfolding sem_init
  Fresh-new j k s e =
      let here : same j k ≡ true = ground (arith, e) in
      let q = Quiet-new (s.table k) s.kernel in
      record {
        quiet = rw here (record { lock = q.lock; waits = q.waits; free = q.free });
        left = rw here refl;
      }

  pub Fresh-kept : (j k : SemName) (s : Sems so) → Fresh j s → Fresh j (init_sem k s)
  unfolding sem_init
  Fresh-kept j k s f = elim (Bool-cases (same j k)) [
    | inl here ↦ Fresh-new j k s (ground (arith, here))
    | inr away ↦ record {
      quiet = rw away (Quiet-begun (s.table k) (s.table j) s.kernel f.quiet);
      left = rw away (f.left);
    }
  ]
