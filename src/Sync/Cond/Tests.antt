-- ===== src/Sync/Cond/Tests.antt =====
-- A scheduler that always blocks, and threads that wait, for the theorems on sequences of calls on
-- kernel/cond.c and kernel/sem.c.
use timix_next.Prelude.{
  ℕ, ◌≡◌, inl, refl, List, [], ◌∷◌, ◌++◌, ◌+◌, ◌≤◌, length, Bool, false, arith, Ptr, ◌==◌,
  if◌then◌else◌,
}
use timix_next.Prelude.Int.{pos, negsuc}
use timix_next.Prelude.Run.{done}
use timix_next.Sync.Mutex.{Mutex}
use timix_next.Sync.Kernel.{SchedOps, Kernel}
use timix_next.Sync.Cond.{
  Sleep, returned, asleep, cond_sleep, cond_wake, cond_interrupt, cond_broadcast,
}
use timix_next.Sync.Cond.Resume.{cond_wait-answers}
use timix_next.Prelude.Errno.{minus_eintr}
use timix_next.Sync.Cond.Wakeup.{Waits}
use timix_next.Sync.Cond.Block.{Willing}
use timix_next.Sync.Cond.Fifo.{Call, wait, signal, broadcast, interrupt, exec, exec_all, Shows}
use timix_next.Sync.Cond.Served.{Unblocked, exec_all-Wakes}
use timix_next.Sync.Sem.{Sem, S, sem_init, sem_wake}
use timix_next.Sync.Sem.Interrupt.{sem_wake-interrupted}
use timix_next.Sync.Sem.Bound.{slept, through, sem_init-granted}
use timix_next.Sync.Sem.Counter.{down, up, Stands}
use timix_next.Sync.Sem.Balance.{exec_all-Stands}
use timix_next.Sync.Sem.Counter

-- It keeps the threads that it is told to wake, the last one first.
abbrev calm : SchedOps
calm = record {
  State = List Ptr;
  lock_scheduler = λ s. s;
  unlock_scheduler = λ s. s;
  unlock_scheduler_and_yield = λ s. s;
  force_set_blocked = λ t s. s;
  set_blocked = λ t s. (pos 0, s);
  unblock_tcb = λ t s. t ∷ s;
}

calm-Willing : Willing calm
calm-Willing t p = refl

abbrev open_mutex : Mutex
open_mutex = record { owner = 0 }

-- The threads 4, 5 and 6 wait on every condition variable; 4 was the first. Thread 6 waits
-- uninterruptably.
abbrev hard : Ptr → Bool
hard t = t == 6

abbrev kernel : Kernel calm
kernel = record {
  conds = λ c. record { waiting = record { head = 6; tail = 4; ptr = 0 }; q_lock = open_mutex };
  mutexes = λ p. open_mutex;
  nodes = λ t. record {
    lock = open_mutex;
    tcb = t;
    cv = 100;
    flags = record { interrupted = false; uninterruptable = hard t };
  };
  links = record {
    next = λ a. if a == 6 then 5 else if a == 5 then 4 else 0;
    prev = λ a. if a == 4 then 5 else if a == 5 then 6 else 0;
  };
  sched = [];
}

kernel-Waits : (cv : Ptr) → Waits calm cv kernel (6 ∷ 5 ∷ 4 ∷ [])
kernel-Waits cv = record {
  queue = record {
    front = refl;
    back = refl;
    distinct = (refl, (refl, (refl, tt)));
    chain = (omega arith, refl, refl, (omega arith, refl, refl, (omega arith, refl, refl, tt)));
  };
  own = λ a i. refl;
}

kernel-Shows : Shows calm 10 100 hard kernel (4 ∷ 5 ∷ 6 ∷ [], [])
kernel-Shows = record {
  waits = kernel-Waits 100;
  free = refl;
  locks = λ a. refl;
  marks = λ a i. (refl, refl);
  told = refl;
}

cond_wait-answers_example :
    (s1 : Kernel calm) × (cond_sleep calm 7 100 200 false kernel ≡ done (asleep, s1))
    × ((s2 : Kernel calm) × (s3 : Kernel calm) × (cond_interrupt calm 10 7 s1 ≡ done (pos 0, s2))
        × (cond_wake calm 7 200 s2 ≡ done (minus_eintr, s3))
        × Waits calm 100 s2 (6 ∷ 5 ∷ 4 ∷ [])
        × ((s3.mutexes 200).owner ≡ 1))
    × ((s2 : Kernel calm) × (s3 : Kernel calm) × (cond_broadcast calm 10 100 s1 ≡ done s2)
        × (cond_wake calm 7 200 s2 ≡ done (pos 0, s3))
        × Waits calm 100 s2 []
        × ((s3.mutexes 200).owner ≡ 1))
cond_wait-answers_example =
    cond_wait-answers calm calm-Willing 7 100 200 kernel (4 ∷ 5 ∷ 6 ∷ []) 10 (omega arith)
      (omega arith) refl (kernel-Waits 100) refl refl (omega arith)

-- 7 comes to wait, 5 is interrupted, 6 cannot be, and a signal wakes 4.
abbrev calls : List Call
calls = wait 7 200 ∷ interrupt 5 ∷ interrupt 6 ∷ signal ∷ []

-- Two more signals reach 6, since 5 is interrupted.
abbrev more : List Call
more = signal ∷ wait 7 200 ∷ broadcast ∷ []

exec_all-Wakes_example :
    (before : List Call) × (c : Call) × (after : List Call) × (k k' : Kernel calm) × (more
      ≡ before ++ c ∷ after)
    × (exec_all calm 10 100 hard before kernel ≡ done k)
    × (exec calm 10 100 hard c k ≡ done k')
    × Unblocked calm 10 100 hard 5 k k'
exec_all-Wakes_example =
    exec_all-Wakes calm 10 100 hard 5 more kernel (4 ∷ []) (6 ∷ []) [] calm-Willing (omega arith)
      kernel-Shows (tt, ((omega arith, refl), (omega arith, tt))) (omega arith)

-- A semaphore that 4, 5 and 6 wait for.
abbrev sem : Sem
sem = record { sem_signal = 100; sem_lock = 200; sem_count = negsuc 2 }

abbrev soft_kernel : Kernel calm
soft_kernel = record kernel {
  nodes = λ t. record (kernel.nodes t) {
    flags = record { interrupted = false; uninterruptable = false };
  };
}

sem-Stands : Stands calm (sem, soft_kernel) (0, 4 ∷ 5 ∷ 6 ∷ [], [])
sem-Stands = record {
  value = refl;
  even = inl refl;
  lock = refl;
  queue = record {
    waits = record { queue = (kernel-Waits 100).queue; own = λ a i. refl };
    free = refl;
    locks = λ a. refl;
    marks = λ a i. (refl, refl);
    told = refl;
  };
}

-- 7 waits behind them, four signals wake all, and a fifth leaves a unit for 8.
exec_all-Stands_example :
    (s : S calm) × (Counter.exec_all calm
        (down 7 ∷ up ∷ up ∷ up ∷ up ∷ up ∷ down 8 ∷ [])
        (sem, soft_kernel)
      ≡ done (
        asleep
            ∷ returned (pos 0)
            ∷ returned (pos 0)
            ∷ returned (pos 0)
            ∷ returned (pos 0)
            ∷ returned (pos 0)
            ∷ returned (pos 0)
            ∷ [],
        s,
      ))
    × Stands calm s (0, [], 7 ∷ 6 ∷ 5 ∷ 4 ∷ [])
exec_all-Stands_example =
    exec_all-Stands calm (down 7 ∷ up ∷ up ∷ up ∷ up ∷ up ∷ down 8 ∷ []) (sem, soft_kernel)
      (0, 4 ∷ 5 ∷ 6 ∷ [], []) calm-Willing sem-Stands
      ((omega arith, refl), (tt, (tt, (tt, (tt, (tt, ((omega arith, refl), tt)))))))

sem_wake-interrupted_example :
    (k : Kernel calm) × (s : S calm) × (cond_interrupt calm 4 5 soft_kernel ≡ done (pos 0, k))
    × (sem_wake calm 5 (sem, k) ≡ done (minus_eintr, s))
    × Stands calm s (0, 4 ∷ 6 ∷ [], 5 ∷ [])
sem_wake-interrupted_example =
    sem_wake-interrupted calm 4 5 sem soft_kernel (4 ∷ 5 ∷ 6 ∷ []) [] (omega arith) sem-Stands refl
      (omega arith)

-- From a count of 1: 7 gets through, 8 waits and is woken, and a signal more leaves a unit.
abbrev fresh : Kernel calm
fresh = record soft_kernel {
  conds = λ c. record { waiting = record { head = 0; tail = 0; ptr = 0 }; q_lock = open_mutex };
}

sem_init-granted_example :
    (rets : List Sleep) × (s : S calm) × (left : ℕ) × (ts : List Ptr) × (p : List Ptr)
    × (Counter.exec_all calm (down 7 ∷ down 8 ∷ up ∷ up ∷ []) (sem_init calm (pos 1) (sem, fresh)).1
        ≡ done (rets, s))
    × Stands calm s (left, ts, p)
    × (length ts ≤ slept rets)
    × (through rets (down 7 ∷ down 8 ∷ up ∷ up ∷ []) (length ts) + left ≡ 1 + 2)
sem_init-granted_example =
    sem_init-granted calm 1 (down 7 ∷ down 8 ∷ up ∷ up ∷ []) sem fresh calm-Willing (λ a. refl)
      ((omega arith, refl), ((omega arith, refl), (tt, (tt, tt))))
