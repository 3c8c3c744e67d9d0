-- ===== src/Sync/Sem.antt =====
-- kernel/sem.c and include/timix/sem.h. `sem_wait` is cut where `cond_wait` yields.
pub mod Wakeup
pub mod Counter
pub mod Balance
pub mod Bound
pub mod Interrupt
use timix_next.Prelude.{ℕ, Ptr, Bool, false, update, ◌==◌, if◌then◌else◌}
use timix_next.Prelude.Int.{ℤ, pos, negsuc, eqb_ℤ, ltb_ℤ, ◌+ℤ◌, ◌-ℤ◌}
use timix_next.Prelude.Run.{Run, done, ◌>>=◌, ◌>>◌, assert}
use timix_next.Prelude.Errno.{minus_eintr}
use timix_next.Sync.Mutex.{Mutex, mutex_init, mutex_destroy}
use timix_next.Sync.Kernel.{SchedOps, Kernel, lock_mutex, unlock_mutex}
use timix_next.Sync.Cond.{
  Sleep, returned, asleep, cond_init, cond_destroy, cond_sleep, cond_wake, cond_signal,
}

-- `struct sem`: the addresses of its condition variable and of its mutex, and its value
pub record Sem : Type 0 where
  pub sem_signal : Ptr
  pub sem_lock : Ptr
  pub sem_count : ℤ

module _ (o : SchedOps) where
  -- The semaphore and the rest of the kernel.
  abbrev pub S : Type 0
  S = Sem × Kernel o

  -- For a semaphore that is not `NULL`, for which the assertion fails; its parts are not `NULL` then.
  unfoldable pub sem_init : ℤ → S → ℤ × S
  sem_init count (sem, k) =
      let k1 = cond_init o sem.sem_signal k in
      (
        pos 0,
        (
          record sem { sem_count = count },
          record k1 { mutexes = update k1.mutexes sem.sem_lock mutex_init },
        ),
      )

  unfoldable pub sem_destroy : S → Run S
  sem_destroy (sem, k) =
      assert (eqb_ℤ sem.sem_count (pos 0))
      >> mutex_destroy (k.mutexes sem.sem_lock)
      >> cond_destroy o sem.sem_signal k
      >>= λ k1. done (record sem { sem_count = pos 0 }, k1)

  abbrev add : ℤ → Sem → Sem
  add n sem = record sem { sem_count = sem.sem_count +ℤ n }

  -- `sem_wait` up to its return or to the yield.
  unfoldable pub sem_wait : (t : Ptr) → S → Run (Sleep × S)
  sem_wait t (sem, k) = lock_mutex o sem.sem_lock k >>= λ k1.
      let sem1 = record sem { sem_count = sem.sem_count -ℤ pos 1 } in
      if ltb_ℤ sem1.sem_count (pos 0)
      then (cond_sleep o t sem.sem_signal sem.sem_lock false k1 >>= λ (slept, k2). elim slept [
        | asleep ↦ done (asleep, (sem1, k2))
        | returned ret ↦
            if eqb_ℤ ret minus_eintr
            then done (returned minus_eintr, (add (pos 1) sem1, unlock_mutex o sem.sem_lock k2))
            else done (returned (pos 0), (sem1, unlock_mutex o sem.sem_lock k2))
      ])
      else done (returned (pos 0), (sem1, unlock_mutex o sem.sem_lock k1))

  -- `sem_wait` after the yield.
  unfoldable pub sem_wake : (t : Ptr) → S → Run (ℤ × S)
  sem_wake t (sem, k) = cond_wake o t sem.sem_lock k >>= λ (ret, k1).
      if eqb_ℤ ret minus_eintr
      then done (minus_eintr, (add (pos 1) sem, unlock_mutex o sem.sem_lock k1))
      else done (pos 0, (sem, unlock_mutex o sem.sem_lock k1))

  unfoldable pub sem_signal : S → Run S
  sem_signal (sem, k) = lock_mutex o sem.sem_lock k >>= λ k1.
      cond_signal o sem.sem_signal k1 >>= λ k2.
      done (add (pos 1) sem, unlock_mutex o sem.sem_lock k2)
