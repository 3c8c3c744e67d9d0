-- ===== src/Sync/Cond.antt =====
-- kernel/cond.c and include/timix/cond.h. `do_cond_wait` is cut at the yield: `cond_sleep` is the
-- part before it and `cond_wake` the part after the thread has been made runnable again.
pub mod Wakeup
pub mod Enqueue
pub mod Signal
pub mod Interrupt
pub mod Block
pub mod Order
pub mod Frame
pub mod Family
pub mod Move
pub mod Calls
pub mod Many
pub mod Fifo
pub mod Steps
pub mod Refine
pub mod Resume
pub mod Served
mod Tests
use timix_next.Prelude.{
  ℕ, zero, suc, Ptr, null, Bool, true, false, Option, none, some, update, ◌==◌, if◌then◌else◌,
}
use timix_next.Prelude.Int.{ℤ, pos, negsuc, eqb_ℤ}
use timix_next.Prelude.Run.{Run, done, out_of_fuel, ◌>>=◌, ◌>>◌, assert}
use timix_next.Prelude.Errno.{minus_eintr, minus_einval, minus_esrch}
use timix_next.Queue
use timix_next.Queue.Memory.{Head, Links}
use timix_next.Sync.Mutex.{Mutex, mutex_init, mutex_destroy}
use timix_next.Sync.Kernel.{
  SchedOps, Flags, Node, Cond, Kernel, set_cond, set_node, lock_mutex, unlock_mutex, lock_queue,
  unlock_queue, lock_node, unlock_node,
}

-- What a thread that calls `cond_wait` has come to: a return value, or the yield.
pub data Sleep : Type 0 where
  returned : ℤ → Sleep
  asleep : Sleep

module _ (o : SchedOps) where
  abbrev pub K : Type 0
  K = Kernel o

  -- For a `cv` that is not `NULL`; for `NULL` the assertion fails.
  unfoldable pub cond_init : Ptr → K → K
  unfolding mutex_init Queue.init_head
  cond_init cv = set_cond o cv (record { waiting = Queue.init_head; q_lock = mutex_init })

  unfoldable pub cond_destroy : Ptr → K → Run K
  unfolding mutex_destroy assert Queue.get_front
  cond_destroy cv s =
      assert (Queue.get_front (s.conds cv).waiting == null)
      >> mutex_destroy (s.conds cv).q_lock
      >> done s

  unfoldable pub cond_thread_init : Ptr → K → K
  unfolding mutex_init Queue.init_elem
  cond_thread_init t s = record s {
    nodes = update s.nodes t (record {
      lock = mutex_init;
      tcb = t;
      cv = null;
      flags = record { interrupted = false; uninterruptable = false };
    });
    links = Queue.init_elem t s.links;
  }

  -- Put the queue of `cv` and the links back.
  abbrev pub set_queue : Ptr → Queue.State → K → K
  set_queue cv (q, l) s = record s {
    conds = update s.conds cv (record (s.conds cv) { waiting = q });
    links = l;
  }

  unfoldable pub cond_q_push : Ptr → (t : Ptr) → K → K
  cond_q_push cv t s =
      let s1 = set_node o t (record (s.nodes t) { tcb = t }) s in
      set_queue cv (Queue.insert_front (s1.conds cv).waiting t s1.links) s1

  -- `none` is COND_Q_EMPTY.
  unfoldable pub cond_q_pop : Ptr → K → Option Ptr × K
  cond_q_pop cv s =
      let node = Queue.get_tail (s.conds cv).waiting in
      let (q, l) = Queue.remove (s.conds cv).waiting node s.links in
      if node == null
      then (none, s)
      else (some (s.nodes node).tcb, set_queue cv (q, Queue.init_elem node l) s)

  -- The fuel is for the walk along the queue.
  unfoldable pub cond_q_remove : (fuel : ℕ) → Ptr → (thread : Ptr) → K → Run (ℤ × K)
  cond_q_remove fuel cv thread s =
      elim (Queue.foreach fuel (λ n. (s.nodes n).tcb == thread) (s.conds cv).waiting.head s.links) [
        | Queue.out_of_fuel ↦ out_of_fuel
        | Queue.not_found ↦ done (minus_esrch, s)
        | Queue.found node ↦
            assert (node == thread)
            >> done (pos 0, set_queue cv (Queue.remove (s.conds cv).waiting node s.links) s)
      ]

  unfoldable pub do_cond_signal_unsafe : Ptr → K → K
  do_cond_signal_unsafe cv s =
      let (popped, s1) = cond_q_pop cv s in
      elim popped [ none ↦ s1 | some t ↦ record s1 { sched = o.unblock_tcb t s1.sched } ]

  unfoldable pub cond_signal : Ptr → K → Run K
  cond_signal cv s =
      lock_queue o cv s >>= λ s1. done (unlock_queue o cv (do_cond_signal_unsafe cv s1))

  -- The loop of `cond_broadcast`.
  unfoldable pub signal_all : (fuel : ℕ) → Ptr → K → Run K
  signal_all zero cv s = out_of_fuel
  signal_all (suc k) cv s =
      let rest = signal_all k cv (do_cond_signal_unsafe cv s) in
      if Queue.get_front (s.conds cv).waiting == null then done s else rest

  unfoldable pub cond_broadcast : (fuel : ℕ) → Ptr → K → Run K
  cond_broadcast fuel cv s =
      lock_queue o cv s >>= λ s1. signal_all fuel cv s1 >>= λ s2. done (unlock_queue o cv s2)

  -- Thread `t` gets ready to sleep: from the start of `do_cond_wait` to the scheduler's lock.
  unfoldable pub cond_enqueue : (t cv : Ptr) → Bool → K → Run K
  cond_enqueue t cv uninterruptable s =
      lock_node o t (record s { links = Queue.init_elem t s.links }) >>= λ s1.
      lock_queue o cv s1 >>= λ s2.
      let s3 = cond_q_push cv t s2 in
      let flags : Flags = record { interrupted = false; uninterruptable = uninterruptable } in
      let s4 = set_node o t (record (s3.nodes t) { flags = flags; cv = cv }) s3 in
      done (unlock_node o t s4)

  -- The roll-back after a refused `sched_set_blocked`.
  unfoldable pub roll_back : (cv : Ptr) → K → Sleep × K
  roll_back cv s =
      let s1 = unlock_queue o cv (cond_q_pop cv s).1 in
      (returned minus_eintr, record s1 { sched = o.unlock_scheduler s1.sched })

  unfoldable pub give_way : (cv mp : Ptr) → K → Sleep × K
  give_way cv mp s =
      let s1 = unlock_queue o cv (unlock_mutex o mp s) in
      (asleep, record s1 { sched = o.unlock_scheduler_and_yield s1.sched })

  -- From the scheduler's lock to the yield, or to the early return.
  unfoldable pub cond_block : (t cv mp : Ptr) → Bool → K → Sleep × K
  cond_block t cv mp uninterruptable s =
      let locked = o.lock_scheduler s.sched in
      let (ret, tried) = o.set_blocked t locked in
      if uninterruptable
      then give_way cv mp (record s { sched = o.force_set_blocked t locked })
      else if eqb_ℤ ret minus_eintr
      then roll_back cv (record s { sched = tried })
      else give_way cv mp (record s { sched = tried })

  unfoldable pub cond_sleep : (t cv mp : Ptr) → Bool → K → Run (Sleep × K)
  cond_sleep t cv mp uninterruptable s =
      cond_enqueue t cv uninterruptable s >>= λ s1. done (cond_block t cv mp uninterruptable s1)

  -- After the yield.
  unfoldable pub cond_wake : (t mp : Ptr) → K → Run (ℤ × K)
  cond_wake t mp s = lock_node o t s >>= λ s1.
      let s2 = set_node o t (record (s1.nodes t) { cv = null }) s1 in
      lock_mutex o mp s2 >>= λ s3.
      done (if (s3.nodes t).flags.interrupted then minus_eintr else pos 0, unlock_node o t s3)

  -- The rest of `cond_wait_uninterruptable`, which asserts that it was not interrupted.
  unfoldable pub cond_wake_uninterruptable : (t mp : Ptr) → K → Run (ℤ × K)
  cond_wake_uninterruptable t mp s =
      cond_wake t mp s >>= λ (ret, s1). (assert (eqb_ℤ ret (pos 0)) >> done (pos 0, s1))

  -- The part of `cond_interrupt` under the lock of the thread's node.
  unfoldable pub interrupt_locked : (fuel : ℕ) → (thread : Ptr) → K → Run (ℤ × K)
  interrupt_locked fuel thread s =
      let node = s.nodes thread in
      let dequeue = lock_queue o node.cv s >>= λ s1.
      cond_q_remove fuel node.cv thread s1 >>= λ (val, s2).
      let s3 = unlock_queue o node.cv s2 in
      let flags : Flags = record (s3.nodes thread).flags { interrupted = true } in
      let s4 = set_node o thread (record (s3.nodes thread) { flags = flags }) s3 in
      if eqb_ℤ val minus_esrch
      then done (minus_einval, s3)
      else (assert (eqb_ℤ val (pos 0))
          >> done (pos 0, record s4 { sched = o.unblock_tcb thread s4.sched })) in
      if node.cv == null
      then done (minus_einval, s)
      else if node.flags.uninterruptable
      then done (minus_einval, s)
      else dequeue

  unfoldable pub cond_interrupt : (fuel : ℕ) → (thread : Ptr) → K → Run (ℤ × K)
  cond_interrupt fuel thread s = lock_node o thread s >>= λ s1.
      interrupt_locked fuel thread s1 >>= λ (val, s2). done (val, unlock_node o thread s2)
