-- ===== src/Sync/Tests.antt =====
-- A scheduler, and threads that wait, for the theorems on kernel/mutex.c, cond.c, sem.c and rwlock.c.
use timix_next.Prelude.{
  true, ℕ, ◌≡◌, refl, List, [], ◌∷◌, false, none, some, update, arith, Ptr, ◌==◌, if◌then◌else◌,
}
use timix_next.Prelude.Int.{pos}
use timix_next.Prelude.Run.{Run, done, fault, panic, spin, out_of_fuel, assert}
use timix_next.Prelude.Errno.{minus_eintr}
use timix_next.Queue
use timix_next.Sync.Mutex.{Mutex, mutex_lock}
use timix_next.Sync.Atomic.{arm_swap, arm_add, arm_swap_rounds}
use timix_next.Sync.Exclusion.{start, try, at_start, tried, Exclusive, Reachable-Exclusive}
use timix_next.Sync.Kernel.{SchedOps, Kernel, lock_mutex, lock_node, unlock_node}
use timix_next.Sync.Cond.{Sleep, cond_wake, returned, roll_back}
use timix_next.Sync.Cond.Wakeup.{Waits}
use timix_next.Sync.Cond.Signal.{roll_back-oldest}
use timix_next.Sync.Sem.{Sem}
use timix_next.Sync.Rwlock.{
  Mode, read, write, for_read, Rwlock, rwlock_q_peek, rwlock_q_remove, must_remove, must_wait,
  wait_loop, acquire, lock_resume, lock_start,
}

Reachable-Exclusive_example : Exclusive (try 2 (try 1 start))
Reachable-Exclusive_example =
    Reachable-Exclusive (try 2 (try 1 start)) (tried 2 (try 1 start) (tried 1 start at_start))

-- It keeps the threads that it is told to wake, the last one first.
abbrev sched : SchedOps
sched = record {
  State = List Ptr;
  lock_scheduler = λ s. s;
  unlock_scheduler = λ s. s;
  unlock_scheduler_and_yield = λ s. s;
  force_set_blocked = λ t s. s;
  set_blocked = λ t s. (minus_eintr, s);
  unblock_tcb = λ t s. t ∷ s;
}

abbrev open_mutex : Mutex
open_mutex = record { owner = 0 }

-- The threads 4, 5 and 6 wait on every condition variable; 4 was the first.
abbrev kernel : Kernel sched
kernel = record {
  conds = λ c. record { waiting = record { head = 6; tail = 4; ptr = 0 }; q_lock = open_mutex };
  mutexes = λ p. open_mutex;
  nodes = λ t. record {
    lock = open_mutex;
    tcb = t;
    cv = 100;
    flags = record { interrupted = false; uninterruptable = false };
  };
  links = record {
    next = λ a. if a == 6 then 5 else if a == 5 then 4 else 0;
    prev = λ a. if a == 4 then 5 else if a == 5 then 6 else 0;
  };
  sched = [];
}

kernel-Waits : (cv : Ptr) → Waits sched cv kernel (6 ∷ 5 ∷ 4 ∷ [])
kernel-Waits cv = record {
  queue = record {
    front = refl;
    back = refl;
    distinct = (refl, (refl, (refl, tt)));
    chain = (omega arith, refl, refl, (omega arith, refl, refl, (omega arith, refl, refl, tt)));
  };
  own = λ a i. refl;
}

roll_back-oldest_example :
    ((roll_back sched 100 kernel).0 ≡ returned minus_eintr)
    × Waits sched 100 (roll_back sched 100 kernel).1 (6 ∷ 5 ∷ [])
    × ((roll_back sched 100 kernel).1.sched ≡ [])
roll_back-oldest_example = roll_back-oldest sched 100 6 kernel (5 ∷ []) 4 (kernel-Waits 100)

abbrev sem : Sem
sem = record { sem_signal = 100; sem_lock = 200; sem_count = pos 2 }

-- A lock in a given mode with a given count, and nobody in its queue.
abbrev lock : Mode → ℕ → Rwlock
lock mode count = record {
  lock = 300;
  readers = 301;
  writers = 302;
  waiting = record { head = 0; tail = 0; ptr = 0 };
  entries = record { next = λ a. 0; prev = λ a. 0 };
  modes = λ a. Mode.unlocked;
  count = pos count;
  mode = mode;
}

-- A writer is alone in the lock, and a reader is first in its queue.
abbrev busy : Rwlock
busy = record (lock write 1) { waiting = record { head = 6; tail = 6; ptr = 0 }; modes = λ a. read }

busy_answer : rwlock_q_peek busy ≡ some read
unfolding rwlock_q_peek Queue.get_front
busy_answer = refl

-- What a run of the lock leaves.
abbrev left_by :
    Rwlock × Kernel sched → Run (Sleep × (Rwlock × Kernel sched)) → Rwlock × Kernel sched
left_by s (done (ret, s')) = s'
left_by s fault = s
left_by s panic = s
left_by s spin = s
left_by s out_of_fuel = s

-- A second reader joins the first.
abbrev joined : Rwlock × Kernel sched
joined = left_by (lock read 1, kernel) (lock_start sched 4 7 for_read false (lock read 1, kernel))

joined_run :
    lock_start sched 4 7 for_read false (lock read 1, kernel) ≡ done (returned (pos 0), joined)
unfolding lock_start acquire lock_mutex mutex_lock rwlock_q_peek Queue.get_front
joined_run = refl

-- A reader that waited comes back where another one reads.
abbrev reading : Rwlock
reading = record (lock read 1) {
  waiting = record { head = 6; tail = 6; ptr = 0 };
  modes = λ a. read;
}

abbrev resumed : Rwlock × Kernel sched
resumed = left_by (reading, kernel) (lock_resume sched 4 6 for_read false (reading, kernel))

resumed_run :
    lock_resume sched 4 6 for_read false (reading, kernel) ≡ done (returned (pos 0), resumed)
unfolding lock_resume wait_loop must_wait must_remove rwlock_q_remove acquire cond_wake lock_node
    unlock_node lock_mutex mutex_lock Queue.foreach assert update
resumed_run = refl

arm_swap_rounds_example :
    (arm_swap true (false ∷ true ∷ []) 3 8 ≡ none) × (arm_add true (false ∷ true ∷ []) 3 8 ≡ none)
arm_swap_rounds_example = arm_swap_rounds true false (true ∷ []) 3 8
