-- ===== src/Sync/Rwlock/Tests.antt =====
-- Runs of several threads on a read-write lock of kernel/rwlock.c, for the theorems on sequences of
-- calls.
mod Stuck
use timix_next.Prelude.{
  ℕ, ◌≡◌, ◌≢◌, ◌⊎◌, refl, List, [], ◌∷◌, Bool, true, false, Ptr, null, arith, update, ◌==◌, length,
  Bool-cases, inl, inr, if◌then◌else◌,
}
use timix_next.Prelude.Int.{pos}
use timix_next.Prelude.Run.{done}
use timix_next.Prelude.Errno.{minus_eintr}
use timix_next.Queue.View.{◌∈◌}
use timix_next.Sync.Mutex.{Mutex}
use timix_next.Sync.Kernel.{SchedOps, Kernel}
use timix_next.Sync.Cond.{Sleep, returned, asleep}
use timix_next.Sync.Cond.Block.{Willing, blocked}
use timix_next.Sync.Cond.Family
use timix_next.Sync.Cond.Family.{Awake}
use timix_next.Sync.Cond.Many.{exec_all-Shows_many}
use timix_next.Sync.Rwlock.{
  Mode, read, write, unlocked, Access, for_read, for_write, Rwlock, S, rwlock_init,
}
use timix_next.Sync.Rwlock.Model.{
  Call, View, lock, resume, unlock, downgrade, interrupt, exec_all, spec_all, AllAllowed, cvs,
}
use timix_next.Sync.Rwlock.Hold.{Mem, real, Inside, Stands}
use timix_next.Sync.Rwlock.Init.{fresh, memory, init-Stands}
use timix_next.Sync.Rwlock.Refine.{exec_all-Tried}
use timix_next.Queue.View.{has, mem_here, mem_there}
use timix_next.Sync.Rwlock.Alert.{IsRuns}
use timix_next.Sync.Rwlock.Live.{Served, rwlock_init-Served}
use timix_next.Sync.Rwlock.Exclude.{held_after_all, Exclusive, AllCareful}
use timix_next.Sync.Rwlock.Exclusion.{rwlock_init-Exclusive}
use timix_next.Sync.Rwlock.Lost.{behind_writer, unlock-stuck}

-- It keeps the threads that it is told to wake, the last one first.
abbrev calm : SchedOps
calm = record {
  State = List Ptr;
  lock_scheduler = λ s. s;
  unlock_scheduler = λ s. s;
  unlock_scheduler_and_yield = λ s. s;
  force_set_blocked = λ t s. s;
  set_blocked = λ t s. (pos 0, s);
  unblock_tcb = λ t s. t ∷ s;
}

calm-Willing : Willing calm
calm-Willing t p = refl

abbrev open_mutex : Mutex
open_mutex = record { owner = 0 }

abbrev soft : Ptr → Bool
soft t = false

abbrev kernel : Kernel calm
kernel = record {
  conds = λ c. record { waiting = record { head = 9; tail = 9; ptr = 9 }; q_lock = open_mutex };
  mutexes = λ p. open_mutex;
  nodes = λ t. record {
    lock = open_mutex;
    tcb = t;
    cv = 0;
    flags = record { interrupted = false; uninterruptable = false };
  };
  links = record { next = λ a. 9; prev = λ a. 9 };
  sched = [];
}

abbrev rwlock : Rwlock
rwlock = record {
  lock = 300;
  readers = 301;
  writers = 302;
  waiting = record { head = 9; tail = 9; ptr = 9 };
  entries = record { next = λ a. 9; prev = λ a. 9 };
  modes = λ t. unlocked;
  count = pos 9;
  mode = read;
}

-- Thread 4 writes; 5 waits to write and 6 to read; 4 gives the lock back.
abbrev calls : List Call
calls = lock 4 for_write ∷ lock 5 for_write ∷ lock 6 for_read ∷ unlock ∷ []

abbrev start : View calm 9 301 302 soft
start = fresh calm 9 soft rwlock kernel

calls-AllAllowed : AllAllowed calm 9 301 302 soft calls start
unfolding update
calls-AllAllowed = (
  (omega arith, refl, (λ c i. refl), omega arith),
  (
    (omega arith, refl, (λ c i. refl), omega arith),
    ((omega arith, refl, (λ c i. ground arith), omega arith), ((omega arith, omega arith), tt)),
  ),
)

exec_all-Tried_example :
    (m : Mem calm 9 300 301 302 soft) × (exec_all calm 9 301 302 soft calls
        (real calm 9 300 301 302 soft start (memory calm 9 soft rwlock kernel))
      ≡ done (
        returned (pos 0) ∷ asleep ∷ asleep ∷ returned (pos 0) ∷ [],
        real calm 9 300 301 302 soft (spec_all calm 9 301 302 soft calls start).1 m,
      ))
    × Stands calm 9 300 301 302 soft (spec_all calm 9 301 302 soft calls start).1 m
exec_all-Tried_example =
    exec_all-Tried calm 9 300 301 302 soft calm-Willing (omega arith) (omega arith) calls start
      (memory calm 9 soft rwlock kernel) (init-Stands calm 9 soft rwlock kernel (λ t. refl))
      calls-AllAllowed

-- Who has been woken runs.
abbrev told : Ptr → List Ptr → Bool
told t p = has t p

told-IsRuns : IsRuns calm told
told-IsRuns = record {
  woken = λ t p. mem_here t p;
  unblock_keeps = λ t u p e. mem_there t u p e;
  lock_keeps = λ u p e. e;
  yield_keeps = λ u p e. e;
  force_keeps = λ t u p ne e. e;
  block_keeps = λ t u p ne e. e;
}

rwlock_init-Served_example :
    (rets : List Sleep) × (s : S calm) × (exec_all calm 9 301 302 soft calls
        (rwlock_init calm (rwlock, kernel)).1
      ≡ done (rets, s))
    × Served calm 9 soft rwlock kernel told s
unfolding update
rwlock_init-Served_example =
    rwlock_init-Served calm 9 soft rwlock kernel told told-IsRuns calm-Willing (omega arith)
      (omega arith) (omega arith) (λ t. refl) calls (tt, (tt, (tt, (tt, tt)))) calls-AllAllowed
      (omega arith)

rwlock_init-Exclusive_example :
    (rets : List Sleep) × (s : S calm) × (exec_all calm 9 301 302 soft calls
        (rwlock_init calm (rwlock, kernel)).1
      ≡ done (rets, s))
    × (s.0.count ≡ pos (length (held_after_all calls rets [])))
    × Exclusive (held_after_all calls rets [])
rwlock_init-Exclusive_example =
    rwlock_init-Exclusive calm 9 soft rwlock kernel calm-Willing (omega arith) (omega arith)
      (λ t. refl) calls calls-AllAllowed (tt, (tt, ((λ _ e. cc), (tt, tt))))

abbrev cond_calls : List Family.Call
cond_calls =
    Family.wait 4 301 300 ∷ Family.wait 5 302 300 ∷ Family.signal 302 ∷ Family.interrupt 4 ∷ []

exec_all-Shows_many_example :
    (s : Kernel calm) × (Family.exec_all calm 9
        (301 ∷ 302 ∷ [])
        soft
        cond_calls
        (memory calm 9 soft rwlock kernel).kernel
      ≡ done s)
    × Family.Shows calm 9
        (301 ∷ 302 ∷ [])
        soft
        s
        (Family.spec_all calm 9 (301 ∷ 302 ∷ []) soft cond_calls ((λ c. []), []))
unfolding update
exec_all-Shows_many_example =
    exec_all-Shows_many calm 9 (301 ∷ 302 ∷ []) soft calm-Willing refl cond_calls
      (memory calm 9 soft rwlock kernel).kernel ((λ c. []), [])
      (init-Stands calm 9 soft rwlock kernel (λ t. refl)).inside.conds
      (
        (refl, omega arith, λ c i. refl),
        ((refl, omega arith, λ c i. ground arith), (refl, ((301, refl, refl, omega arith), tt))),
      )
