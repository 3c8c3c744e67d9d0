-- ===== src/Sync/Rwlock.antt =====
-- kernel/rwlock.c and include/timix/rwlock.h. `do_rwlock_lock` is cut where it waits: `lock_start`
-- runs to its return or to the first yield, `lock_resume` from a wake-up to the return or to the
-- next yield.
pub mod Entry
pub mod Handover
pub mod Same
pub mod Grant
pub mod Model
pub mod Hold
pub mod Loop
pub mod Start
pub mod Resume
pub mod Giveback
pub mod Unlock
pub mod Refine
pub mod Ready
pub mod Progress
pub mod Handing
pub mod Served
pub mod Alert
pub mod Runnable
pub mod Init
pub mod Live
pub mod Lost
pub mod Exclude
pub mod Holders
pub mod Exclusion
mod Tests
use timix_next.Prelude.{
  ℕ, Ptr, null, Bool, true, false, ◌&&◌, Option, none, some, update, ◌==◌, if◌then◌else◌,
}
use timix_next.Prelude.Int.{ℤ, pos, negsuc, eqb_ℤ, ltb_ℤ, leb_ℤ, ◌+ℤ◌, ◌-ℤ◌}
use timix_next.Prelude.Run.{Run, done, out_of_fuel, ◌>>=◌, ◌>>◌, assert}
use timix_next.Prelude.Errno.{minus_eintr}
use timix_next.Queue
use timix_next.Queue.Memory.{Head, Links}
use timix_next.Sync.Mutex.{Mutex, mutex_init, mutex_destroy}
use timix_next.Sync.Kernel.{SchedOps, Kernel, lock_mutex, unlock_mutex}
use timix_next.Sync.Cond.{
  Sleep, returned, asleep, cond_init, cond_destroy, cond_sleep, cond_wake,
  cond_wake_uninterruptable, cond_signal, cond_broadcast,
}

-- RWLOCK_UNLOCKED, RWLOCK_READ and RWLOCK_WRITE
pub data Mode : Type 0 where
  unlocked read write : Mode

abbrev pub is_unlocked : Mode → Bool
is_unlocked unlocked = true
is_unlocked read = false
is_unlocked write = false

abbrev pub is_write : Mode → Bool
is_write unlocked = false
is_write read = false
is_write write = true

-- What a thread asks for.
pub data Access : Type 0 where
  for_read for_write : Access

abbrev pub mode_of : Access → Mode
mode_of for_read = read
mode_of for_write = write

-- `struct rwlock`, with the addresses of its mutex and its condition variables. `entries` and
-- `modes` are the `rwlock_q_node` of the threads.
pub record Rwlock : Type 0 where
  pub lock : Ptr
  pub readers : Ptr
  pub writers : Ptr
  pub waiting : Head
  pub entries : Links
  pub modes : Ptr → Mode
  pub count : ℤ
  pub mode : Mode

unfoldable pub rwlock_q_push : Ptr → Mode → Rwlock → Rwlock
rwlock_q_push q mode lk =
    let (waiting, entries) = Queue.insert_front lk.waiting q (Queue.init_elem q lk.entries) in
    record lk { waiting = waiting; entries = entries; modes = update lk.modes q mode }

-- `none` is RWLOCK_Q_EMPTY; otherwise `*mode`.
unfoldable pub rwlock_q_peek : Rwlock → Option Mode
rwlock_q_peek lk =
    let head = Queue.get_front lk.waiting in if head == null then none else some (lk.modes head)

-- RWLOCK_Q_SUCCESS is 0 and RWLOCK_Q_NOT_FOUND is -1. The fuel is for the walk along the queue.
unfoldable pub rwlock_q_remove : (fuel : ℕ) → Ptr → Rwlock → Run (ℤ × Rwlock)
rwlock_q_remove fuel thr lk =
    elim (Queue.foreach fuel (λ curr. curr == thr) lk.waiting.head lk.entries) [
      | Queue.out_of_fuel ↦ out_of_fuel
      | Queue.not_found ↦ done (negsuc 0, lk)
      | Queue.found curr ↦
          let (waiting, entries) = Queue.remove lk.waiting curr lk.entries in
          done (pos 0, record lk { waiting = waiting; entries = entries })
    ]

module _ (o : SchedOps) where
  abbrev pub S : Type 0
  S = Rwlock × Kernel o

  -- For a lock that is not `NULL`; for `NULL` the function returns -1 and does nothing.
  unfoldable pub rwlock_init : S → ℤ × S
  rwlock_init (lk, k) =
      let k1 = cond_init o lk.writers (cond_init o lk.readers k) in
      (
        pos 0,
        (
          record lk { count = pos 0; waiting = Queue.init_head; mode = unlocked },
          record k1 { mutexes = update k1.mutexes lk.lock mutex_init },
        ),
      )

  unfoldable pub rwlock_destroy : S → Run S
  rwlock_destroy (lk, k) =
      assert (is_unlocked lk.mode)
      >> assert (eqb_ℤ lk.count (pos 0))
      >> cond_destroy o lk.readers k
      >>= λ k1. cond_destroy o lk.writers k1 >>= λ k2.
          (mutex_destroy (k2.mutexes lk.lock) >> done (lk, k2))

  -- `assert(rwlock_q_remove(lock, q) == RWLOCK_Q_SUCCESS)`
  unfoldable pub must_remove : (fuel : ℕ) → Ptr → Rwlock → Run Rwlock
  must_remove fuel q lk =
      rwlock_q_remove fuel q lk >>= λ (ret, lk1). (assert (eqb_ℤ ret (pos 0)) >> done lk1)

  -- The end of `do_rwlock_lock`.
  unfoldable pub acquire : Access → S → Sleep × S
  acquire type (lk, k) = (
    returned (pos 0),
    (record lk { mode = mode_of type; count = lk.count +ℤ pos 1 }, unlock_mutex o lk.lock k),
  )

  -- The early return from a wait that was interrupted.
  unfoldable pub give_up : (fuel : ℕ) → Ptr → S → Run (Sleep × S)
  give_up fuel t (lk, k) =
      must_remove fuel t lk >>= λ lk1. done (returned minus_eintr, (lk1, unlock_mutex o lk.lock k))

  -- The condition of the loop that thread waits in.
  unfoldable pub must_wait : Access → Rwlock → Bool
  must_wait for_read lk = is_write lk.mode
  must_wait for_write lk = if eqb_ℤ lk.count (pos 0) then false else true

  abbrev pub queue_of : Access → Rwlock → Ptr
  queue_of for_read lk = lk.readers
  queue_of for_write lk = lk.writers

  -- The loop, from its test to the yield or to the return.
  unfoldable pub wait_loop : (fuel : ℕ) → (t : Ptr) → Access → Bool → S → Run (Sleep × S)
  wait_loop fuel t type uninterruptable (lk, k) =
      if must_wait type lk
      then (cond_sleep o t (queue_of type lk) lk.lock uninterruptable k >>= λ (slept, k1).
          elim slept [ asleep ↦ done (asleep, (lk, k1)) | returned ret ↦ give_up fuel t (lk, k1) ])
      else (must_remove fuel t lk >>= λ lk1. done (acquire type (lk1, k)))

  -- `do_rwlock_lock` up to its return or to the first yield.
  unfoldable pub lock_start : (fuel : ℕ) → (t : Ptr) → Access → Bool → S → Run (Sleep × S)
  lock_start fuel t type uninterruptable (lk, k) = lock_mutex o lk.lock k >>= λ k1.
      let queued = wait_loop fuel t type uninterruptable (rwlock_q_push t (mode_of type) lk, k1) in
      if eqb_ℤ lk.count (pos 0) && is_unlocked lk.mode
      then done (acquire type (lk, k1))
      else elim type [
        | for_read ↦ elim (rwlock_q_peek lk) [
          | none ↦ done (acquire for_read (lk, k1))
          | some mode ↦ queued
        ]
        | for_write ↦ queued
      ]

  -- `do_rwlock_lock` from a wake-up.
  unfoldable pub lock_resume : (fuel : ℕ) → (t : Ptr) → Access → Bool → S → Run (Sleep × S)
  lock_resume fuel t type uninterruptable (lk, k) =
      (if uninterruptable then cond_wake_uninterruptable o t lk.lock k else cond_wake o t lk.lock k)
      >>= λ (ret, k1).
          if eqb_ℤ ret minus_eintr
          then give_up fuel t (lk, k1)
          else wait_loop fuel t type uninterruptable (lk, k1)

  -- `rwlock_lock` passes no flag, and `rwlock_lock_uninterruptable` the other one. A thread that comes
  -- back from a wait goes on as `lock_resume`, and what the assertion sees is the answer in the end.
  unfoldable pub rwlock_lock : (fuel : ℕ) → (t : Ptr) → Access → S → Run (Sleep × S)
  rwlock_lock fuel t type s = lock_start fuel t type false s

  unfoldable pub rwlock_lock_uninterruptable : (fuel : ℕ) → (t : Ptr) → Access → S → Run (Sleep × S)
  rwlock_lock_uninterruptable fuel t type s = lock_start fuel t type true s >>= λ (slept, s1).
      elim slept [
        | asleep ↦ done (asleep, s1)
        | returned ret ↦ (assert (eqb_ℤ ret (pos 0)) >> done (returned ret, s1))
      ]

  -- `pos 0 ≤ count` is asserted after the decrement.
  unfoldable pub rwlock_unlock : (fuel : ℕ) → S → Run S
  rwlock_unlock fuel (lk, k) = lock_mutex o lk.lock k >>= λ k1.
      let lk1 = record lk { count = lk.count -ℤ pos 1 } in
      assert (leb_ℤ (pos 0) lk1.count)
      >> (if ltb_ℤ (pos 0) lk1.count
          then done (lk1, unlock_mutex o lk.lock k1)
          else elim (rwlock_q_peek lk1) [
            | none ↦ done (record lk1 { mode = unlocked }, unlock_mutex o lk.lock k1)
            | some next_mode ↦ elim next_mode [
              | read ↦ cond_broadcast o fuel lk.readers k1 >>= λ k2.
                  done (record lk1 { mode = read }, unlock_mutex o lk.lock k2)
              | write ↦ cond_signal o lk.writers k1 >>= λ k2.
                  done (record lk1 { mode = write }, unlock_mutex o lk.lock k2)
              | unlocked ↦ done (lk1, unlock_mutex o lk.lock k1)
            ]
          ])

  unfoldable pub rwlock_downgrade : (fuel : ℕ) → S → Run S
  rwlock_downgrade fuel (lk, k) =
      assert (is_write lk.mode)
      >> assert (eqb_ℤ lk.count (pos 1))
      >> lock_mutex o lk.lock k
      >>= λ k1. cond_broadcast o fuel lk.readers k1 >>= λ k2.
          done (record lk { mode = read }, unlock_mutex o lk.lock k2)
