-- ===== src/Console/Sems.antt =====
-- The semaphores of text_console.c as kernel/sem.c makes them: what a thread that nobody disturbs
-- meets.
use timix_next.Prelude.{
  Bool-cases, ◌≢◌, ◌≡◌, refl, [], Ptr, arith, inl, inr, ◌==◌, if◌then◌else◌, update, update_self,
  update_ne,
}
use timix_next.Prelude.Int.{pos, ◌+ℤ◌, ◌-ℤ◌}
use timix_next.Prelude.Run.{done, spin, ◌>>=◌}
use timix_next.Sync.Mutex.{Mutex, unlocked, mutex_unlock}
use timix_next.Sync.Kernel.{SchedOps, Kernel, unlock_mutex}
use timix_next.Sync.Free.{MutexFree, taken, lock_mutex-taken}
use timix_next.Sync.Cond.{returned, asleep}
use timix_next.Sync.Cond.Wakeup.{Waits, IsFree}
use timix_next.Sync.Sem.{Sem, sem_init, sem_wait, sem_signal}
use timix_next.Sync.Sem.Wakeup.{sem_signal-Woke}
use timix_next.Console.Driver.{SemOps, SemName}
use timix_next.Console.Locks.{same}

module _ (so : SchedOps) where
  -- The semaphores of the console by name, the kernel, and the thread that runs.
  pub record Sems : Type 0 where
    pub table : SemName → Sem
    pub kernel : Kernel so
    pub current : Ptr

  -- The state with the semaphore `k` and the kernel as they are after a call.
  abbrev pub store : SemName → Sem → Kernel so → Sems → Sems
  store k sem kern s = record {
    table = λ j. if same j k then sem else s.table j;
    kernel = kern;
    current = s.current;
  }

  -- A thread that has to sleep does not come back, since nobody else runs.
  abbrev pub sems : SemOps
  sems = record {
    State = Sems;
    init = λ k n s.
        let (_, (sem, kern)) = sem_init so (pos n) (s.table k, s.kernel) in store k sem kern s;
    wait = λ k s. sem_wait so s.current (s.table k, s.kernel) >>= λ (slept, (sem, kern)).
        elim slept [ asleep ↦ spin | returned ret ↦ done (ret, store k sem kern s) ];
    signal =
        λ k s. sem_signal so (s.table k, s.kernel) >>= λ (sem, kern). done (store k sem kern s);
  }

  -- The mutex and the queue of a semaphore are free and nobody waits for it.
  pub record Quiet (sem : Sem) (k : Kernel so) : Type 0 where
    pub lock : MutexFree so sem.sem_lock k
    pub waits : Waits so sem.sem_signal k []
    pub free : IsFree so sem.sem_signal k

  -- The mutex of a semaphore after it has been taken and given back
  abbrev pub passed : Ptr → Kernel so → Kernel so
  passed mp k = unlock_mutex so mp (taken so mp k)

  pub sem_wait_unit :
      (t : Ptr) (sem : Sem) (k : Kernel so)
      → sem.sem_count ≡ pos 1
      → MutexFree so sem.sem_lock k
      → sem_wait so t (sem, k)
        ≡ done (returned (pos 0), (record sem { sem_count = pos 0 }, passed sem.sem_lock k))
  unfolding sem_wait ◌-ℤ◌
  sem_wait_unit t sem k one free = rw (lock_mutex-taken so sem.sem_lock k free, one) refl

  -- A mutex that is free stays so when one of them is taken and given back.
  free_again :
      (mp a : Ptr) (m : Ptr → Mutex) (x y : Mutex)
      → y.owner ≡ unlocked
      → (m a).owner ≡ unlocked
      → (update (update m mp x) mp y a).owner ≡ unlocked
  free_again mp a m x y e f = elim (Bool-cases (a == mp)) [
    | inl h ↦ let e' : a ≡ mp = ground (arith, h) in rw (e', update_self) e
    | inr h ↦ let ne : a ≢ mp = ground (arith, h) in rw (update_ne _ mp y ne, update_ne m mp x ne) f
  ]

  -- A semaphore's queue that did not change is still quiet, if its mutex is free.
  pub Quiet-kept :
      (sem : Sem) (k k' : Kernel so)
      → Quiet sem k
      → k'.conds sem.sem_signal ≡ k.conds sem.sem_signal
      → MutexFree so sem.sem_lock k'
      → Quiet sem k'
  Quiet-kept sem k k' q e free = record {
    lock = free;
    waits = record {
      queue = rw e (record {
        front = q.waits.queue.front;
        back = q.waits.queue.back;
        chain = tt;
        distinct = tt;
      });
      own = λ a i. cc;
    };
    free = rw e (q.free);
  }

  pub Quiet-passed : (mp : Ptr) (sem : Sem) (k : Kernel so) → Quiet sem k → Quiet sem (passed mp k)
  unfolding unlock_mutex mutex_unlock
  Quiet-passed mp sem k q =
      Quiet-kept sem k (passed mp k) q refl (free_again mp sem.sem_lock k.mutexes _ _ refl q.lock)

  -- Signalling a quiet semaphore leaves all of them quiet.
  pub Quiet-signal :
      (one : Sem) (k : Kernel so)
      → Quiet one k
      → (k' : Kernel so) × (sem_signal so (one, k)
          ≡ done (record one { sem_count = one.sem_count +ℤ pos 1 }, k'))
        × ((sem : Sem) → Quiet sem k → Quiet sem k')
  unfolding unlock_mutex mutex_unlock
  Quiet-signal one k q =
      let (k1, k2, ran, woke, e, free) = sem_signal-Woke so one k [] q.lock q.waits q.free in
      (
        k2,
        ran,
        λ sem r. rw e (elim (Bool-cases (sem.sem_signal == one.sem_signal)) [
          | inl same_cv ↦
              let h : sem.sem_signal ≡ one.sem_signal = ground (arith, same_cv) in
              record {
                lock =
                    rw (woke.mutexes)
                      (free_again one.sem_lock sem.sem_lock k.mutexes _ _ refl r.lock);
                waits = rw h (record { queue = woke.waits.queue; own = woke.waits.own });
                free = rw h (woke.free);
              }
          | inr other_cv ↦
              let h : sem.sem_signal ≢ one.sem_signal = ground (arith, other_cv) in
              Quiet-kept sem k (unlock_mutex so one.sem_lock k1) r (woke.conds _ h)
                (rw (woke.mutexes) (free_again one.sem_lock sem.sem_lock k.mutexes _ _ refl r.lock))
        ]),
      )
