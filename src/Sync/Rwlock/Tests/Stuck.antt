-- ===== src/Sync/Rwlock/Tests/Stuck.antt =====
-- A read-write lock of kernel/rwlock.c that is handed over to a writer that has been interrupted.
use timix_next.Prelude.{
  ◌≡◌, refl, List, [], ◌∷◌, Bool, false, Ptr, arith, ◌==◌, Bool-cases, inl, inr, if◌then◌else◌,
}
use timix_next.Prelude.Int.{pos}
use timix_next.Prelude.Run.{done}
use timix_next.Prelude.Errno.{minus_eintr}
use timix_next.Queue.View.{◌∈◌}
use timix_next.Sync.Kernel.{Kernel}
use timix_next.Sync.Cond.{returned, asleep}
use timix_next.Sync.Cond.Block.{blocked}
use timix_next.Sync.Cond.Fifo
use timix_next.Sync.Rwlock.{read, write, Access, for_read, for_write, Rwlock}
use timix_next.Sync.Rwlock.Model.{View, lock, resume, unlock, exec_all}
use timix_next.Sync.Rwlock.Hold.{Mem, real, Stands}
use timix_next.Sync.Rwlock.Lost.{behind_writer, unlock-stuck}
use timix_next.Sync.Rwlock.Tests.{calm, calm-Willing, open_mutex, soft, kernel}

-- A writer holds the lock. Thread 6 sleeps to read; 7 asked to write, was interrupted and has not come
-- back yet.
abbrev wants : Ptr → Access
wants a = if a == 6 then for_read else for_write

abbrev asleep_at : Ptr → List Ptr
asleep_at c = if c == 301 then 6 ∷ [] else []

abbrev struck : Ptr → Bool
struck a = a == 7

abbrev held_lock : View calm 9 301 302 soft
held_lock = behind_writer calm 9 300 301 302 soft 7 8 6 [] wants asleep_at struck []

abbrev held_memory : Mem calm 9 300 301 302 soft
held_memory = record {
  head = record { head = 7; tail = 6; ptr = 0 };
  entries = record { next = λ a. if a == 7 then 6 else 0; prev = λ a. if a == 6 then 7 else 0 };
  modes = λ a. if a == 6 then read else write;
  kernel = record kernel {
    conds = λ c. record {
      waiting =
          if c == 301
          then record { head = 6; tail = 6; ptr = 0 }
          else record { head = 0; tail = 0; ptr = 0 };
      q_lock = open_mutex;
    };
    nodes = λ t. record {
      lock = open_mutex;
      tcb = t;
      cv = 301;
      flags = record { interrupted = t == 7; uninterruptable = false };
    };
    links = record { next = λ a. 0; prev = λ a. 0 };
  };
}

held_cond :
    (c : Ptr) → c ∈ (301 ∷ 302 ∷ []) → Fifo.Shows calm 9 c soft held_memory.kernel (asleep_at c, [])
held_cond c i = elim (Bool-cases (c == 301)) [
  | inl here ↦
      let e : c ≡ 301 = ground (arith, here) in
      rw e (record {
        waits = record {
          queue = record {
            front = refl;
            back = refl;
            chain = (omega arith, refl, refl, tt);
            distinct = (refl, tt);
          };
          own = λ a j. refl;
        };
        free = refl;
        locks = λ a. refl;
        marks = λ a j. (refl, refl);
        told = refl;
      })
  | inr there ↦
      let e : c ≡ 302 = ground (arith, i, there) in
      rw e (record {
        waits = record {
          queue = record { front = refl; back = refl; chain = tt; distinct = tt };
          own = λ a j. refl;
        };
        free = refl;
        locks = λ a. refl;
        marks = λ a j. cc;
        told = refl;
      })
]

held-Stands : Stands calm 9 300 301 302 soft held_lock held_memory
held-Stands = record {
  inside = record {
    queue = record {
      front = refl;
      back = refl;
      chain = (omega arith, refl, refl, (omega arith, refl, refl, tt));
      distinct = (refl, (refl, tt));
    };
    wants = λ a i. ground arith;
    conds = record { each = held_cond; apart = λ c d a i j ne k. ground arith };
  };
  marked = λ a i. (refl, λ firm. cc);
  free = refl;
}

unlock-stuck_example :
    (lk : Rwlock) × (k : Kernel calm) × (exec_all calm 9 301 302 soft
        (unlock ∷ resume 7 for_write ∷ lock 8 for_read ∷ [])
        (real calm 9 300 301 302 soft held_lock held_memory)
      ≡ done (returned (pos 0) ∷ returned minus_eintr ∷ asleep ∷ [], (lk, k)))
    × (lk.count ≡ pos 0)
    × (lk.mode ≡ write)
    × (k.sched ≡ blocked calm 8 false [])
unlock-stuck_example =
    unlock-stuck calm 9 300 301 302 soft 7 8 6 [] wants asleep_at struck [] held_memory calm-Willing
      (omega arith) (omega arith) held-Stands refl refl refl (omega arith, λ c i. ground arith)
      (omega arith, λ c i. ground arith) refl (omega arith) (omega arith)
