-- ===== src/Console/Tests/Session.antt =====
-- Two threads that print and one that switches the screens, over semaphores at addresses of their own.
use timix_next.Prelude.{◌+◌, ◌*◌, ◌≡◌, List, [], ◌∷◌, Ptr, arith, false}
use timix_next.Prelude.Int.{pos}
use timix_next.Prelude.Run.{done}
use timix_next.Prelude.Errno.{minus_eintr}
use timix_next.Sync.Mutex.{Mutex}
use timix_next.Sync.Kernel.{SchedOps}
use timix_next.Console.Screen.{visible}
use timix_next.Console.Driver.{console_init}
use timix_next.Console.Locks.{code}
use timix_next.Console.Sems.{Sems, sems}
use timix_next.Console.Session.{shown}
use timix_next.Console.Terminals.{Call, print, show, Console, exec_all, DoesAll, Rests}
use timix_next.Console.Refine.{console_init-DoesAll}
use timix_next.Console.Tests.{small, copy, copy-IsMemcpy, small-IsConfig, full, full-IsLegal}

-- Nobody is to be blocked.
abbrev idle : SchedOps
idle = record {
  State = List Ptr;
  lock_scheduler = λ s. s;
  unlock_scheduler = λ s. s;
  unlock_scheduler_and_yield = λ s. s;
  force_set_blocked = λ t s. s;
  set_blocked = λ t s. (minus_eintr, s);
  unblock_tcb = λ t s. t ∷ s;
}

abbrev any_mutex : Mutex
any_mutex = record { owner = 7 }

-- What `console_init` finds is not set.
abbrev found : Sems idle
found = record {
  table =
      λ k. record { sem_signal = 2 * code k + 100; sem_lock = 2 * code k + 101; sem_count = pos 5 };
  kernel = record {
    conds = λ c. record { waiting = record { head = 1; tail = 1; ptr = 0 }; q_lock = any_mutex };
    mutexes = λ p. any_mutex;
    nodes = λ t. record {
      lock = any_mutex;
      tcb = t;
      cv = 0;
      flags = record { interrupted = false; uninterruptable = false };
    };
    links = record { next = λ a. 0; prev = λ a. 0 };
    sched = [];
  };
  current = 1;
}

abbrev start : Console small copy idle
start = record {
  console = full visible;
  screens = λ k. full visible;
  screen_idx = 1;
  locks = found;
  ports = [];
}

abbrev calls : List Call
calls = print 4 0 (98 ∷ 10 ∷ []) ∷ show 6 0 ∷ print 5 1 (98 ∷ []) ∷ print 4 0 (99 ∷ []) ∷ []

abbrev initialised : Console small copy idle
initialised = console_init small copy (sems idle) start

console_init-DoesAll_example :
    (e : Console small copy idle) × (exec_all small copy idle calls initialised
      ≡ done (pos 0 ∷ pos 0 ∷ pos 0 ∷ pos 0 ∷ [], e))
    × DoesAll small copy idle calls
        (shown small copy (sems idle) initialised)
        (shown small copy (sems idle) e)
    × Rests small copy idle e
console_init-DoesAll_example =
    console_init-DoesAll small copy idle calls start small-IsConfig copy-IsMemcpy (omega arith)
      full-IsLegal (omega arith, (omega arith, (omega arith, (omega arith, tt))))
