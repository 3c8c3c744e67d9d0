-- ===== src/Sync/Sem/Bound.antt =====
-- kernel/sem.c from `sem_init` on: how many threads get through.
use timix_next.Prelude.{
  ℕ, zero, suc, ◌+◌, ◌-◌, ◌≤◌, length, ◌++◌, false, if◌then◌else◌, ◌≡◌, refl, List, [], ◌∷◌, Ptr,
  arith, inr, update_self,
}
use timix_next.Prelude.Int.{pos, eqb_ℤ}
use timix_next.Prelude.Run.{done}
use timix_next.Queue
use timix_next.Sync.Mutex.{unlocked, mutex_init}
use timix_next.Sync.Kernel.{SchedOps, Kernel}
use timix_next.Sync.Cond.{Sleep, returned, asleep, cond_init}
use timix_next.Sync.Cond.Order.{length-append}
use timix_next.Sync.Cond.Block.{Willing, blocked}
use timix_next.Sync.Sem.{Sem, S, sem_init}
use timix_next.Sync.Sem.Counter.{Call, down, up, exec_all, spec_all, AllAllowed, answers, Stands}
use timix_next.Sync.Sem.Balance.{exec_all-Stands}

-- How often the semaphore is signalled.
abbrev pub signals : List Call → ℕ
signals [] = 0
signals (down t ∷ cs) = signals cs
signals (up ∷ cs) = suc (signals cs)

-- How many waits were answered 0 at once, and how many threads went to sleep
abbrev pub passed : List Sleep → List Call → ℕ
passed (returned ret ∷ rets) (down t ∷ cs) =
    let rest = passed rets cs in if eqb_ℤ ret (pos 0) then suc rest else rest
passed (ret ∷ rets) (c ∷ cs) = passed rets cs
passed [] cs = 0
passed rets [] = 0

abbrev pub slept : List Sleep → ℕ
slept [] = 0
slept (asleep ∷ rets) = suc (slept rets)
slept (returned ret ∷ rets) = slept rets

-- How many threads have got through, while `waiting` threads wait: those that were answered 0 at
-- once, and those that slept and wait no more.
abbrev pub through : List Sleep → List Call → (waiting : ℕ) → ℕ
through rets cs waiting = passed rets cs + (slept rets - waiting)

module _ (o : SchedOps) where
  -- The units and the threads that wait, against the answers of the calls.
  balance :
      (cs : List Call) (n : ℕ) (ts : List Ptr) (p : o.State)
      → let (n', ts', _) = spec_all o cs (n, ts, p) in
        let rets = answers o cs (n, ts, p) in
        (passed rets cs + slept rets + length ts + n' ≡ n + signals cs + length ts')
        × (length ts' ≤ slept rets + length ts)
  balance [] n ts p = (omega arith, omega arith)
  balance (down t ∷ cs) zero ts p =
      let longer : length (ts ++ t ∷ []) ≡ length ts + 1 = length-append ts (t ∷ []) in
      let (even, bound) = balance cs 0 (ts ++ t ∷ []) (blocked o t false p) in
      (omega (arith, longer, even), omega (arith, longer, bound))
  balance (down t ∷ cs) (suc n) ts p =
      let (even, bound) = balance cs n ts p in (omega (arith, even), omega (arith, bound))
  balance (up ∷ cs) n [] p =
      let (even, bound) = balance cs (suc n) [] p in (omega (arith, even), omega (arith, bound))
  balance (up ∷ cs) n (t ∷ ts) p =
      let (even, bound) = balance cs n ts (o.unblock_tcb t p) in
      (omega (arith, even), omega (arith, bound))

  sem_init-Stands :
      (n : ℕ) (sem : Sem) (k : Kernel o)
      → ((a : Ptr) → (k.nodes a).lock.owner ≡ unlocked)
      → Stands o (sem_init o (pos n) (sem, k)).1 (n, [], k.sched)
  unfolding sem_init cond_init mutex_init Queue.init_head
  sem_init-Stands n sem k locks = record {
    value = refl;
    even = inr refl;
    lock = rw update_self refl;
    queue = record {
      waits = record {
        queue = rw update_self (record { front = refl; back = refl; chain = tt; distinct = tt });
        own = λ a i. cc;
      };
      free = rw update_self refl;
      locks = locks;
      marks = λ a i. cc;
      told = refl;
    };
  }

  -- After `sem_init` with the count `n`, where no thread's lock is held, any sequence of waits and
  -- signals runs to its end. By the answers of the calls and the threads that the semaphore's queue
  -- shows in the end, no more threads have got through, at once or out of their sleep, than `n`
  -- and the signals together; what is left to that number are the units that the semaphore still
  -- has, and who waits in the end has been put to sleep. The scheduler does not refuse to block, and a
  -- thread that comes to wait is not `NULL` and does not wait yet.
  pub sem_init-granted :
      (n : ℕ) (cs : List Call) (sem : Sem) (k : Kernel o)
      → Willing o
      → ((a : Ptr) → (k.nodes a).lock.owner ≡ unlocked)
      → AllAllowed o cs (n, [], k.sched)
      → (rets : List Sleep) × (s' : S o) × (left : ℕ) × (ts : List Ptr) × (p : o.State) × (exec_all
            o cs
            (sem_init o (pos n) (sem, k)).1
          ≡ done (rets, s'))
        × Stands o s' (left, ts, p)
        × (length ts ≤ slept rets)
        × (through rets cs (length ts) + left ≡ n + signals cs)
  sem_init-granted n cs sem k willing locks ok =
      let (s', ran, h) =
        exec_all-Stands o cs (sem_init o (pos n) (sem, k)).1 (n, [], k.sched) willing
          (sem_init-Stands n sem k locks) ok in
      let (even, bound) = balance cs n [] k.sched in
      let (left, ts, p) = spec_all o cs (n, [], k.sched) in
      (
        answers o cs (n, [], k.sched),
        s',
        left,
        ts,
        p,
        ran,
        h,
        omega (arith, bound),
        omega (arith, even, bound),
      )
