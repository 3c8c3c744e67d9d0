-- ===== src/Sync/Kernel.antt =====
-- The state that kernel/cond.c and its clients work on, and the scheduler, which the repository does
-- not hold. A thread is the address of its `tcb`; `&tcb->cond_q_node` is the same number.
use timix_next.Prelude.{Ptr, Bool, update}
use timix_next.Prelude.Int.{ℤ}
use timix_next.Prelude.Run.{Run, ◌>>=◌, done}
use timix_next.Queue.Memory.{Head, Links}
use timix_next.Sync.Mutex.{Mutex, mutex_lock, mutex_unlock}

-- sched.h: `set_blocked` returns 0, or -EINTR when the thread has been interrupted.
pub record SchedOps : Type 1 where
  pub State : Type 0
  pub lock_scheduler : State → State
  pub unlock_scheduler : State → State
  pub unlock_scheduler_and_yield : State → State
  pub force_set_blocked : Ptr → State → State
  pub set_blocked : Ptr → State → ℤ × State
  pub unblock_tcb : Ptr → State → State

-- `flags` of a `cond_q_entry`: COND_INTERRUPTED and COND_UNINTERRUPTABLE
pub record Flags : Type 0 where
  pub interrupted : Bool
  pub uninterruptable : Bool

-- `struct cond_q_entry`, less its link
pub record Node : Type 0 where
  pub lock : Mutex
  pub tcb : Ptr
  pub cv : Ptr
  pub flags : Flags

-- `struct cond`
pub record Cond : Type 0 where
  pub waiting : Head
  pub q_lock : Mutex

module _ (o : SchedOps) where
  pub record Kernel : Type 0 where
    pub conds : Ptr → Cond
    pub mutexes : Ptr → Mutex
    pub nodes : Ptr → Node
    pub links : Links
    pub sched : o.State

  abbrev pub set_cond : Ptr → Cond → Kernel → Kernel
  set_cond cv v s = record s { conds = update s.conds cv v }

  abbrev pub set_node : Ptr → Node → Kernel → Kernel
  set_node t v s = record s { nodes = update s.nodes t v }

  -- `mutex_lock` and `mutex_unlock` on a mutex of the kernel, on `cv->q_lock` and on the `lock` of
  -- a thread's node.
  unfoldable pub lock_mutex : Ptr → Kernel → Run Kernel
  unfolding mutex_lock
  lock_mutex mp s =
      mutex_lock (s.mutexes mp) >>= λ m. done (record s { mutexes = update s.mutexes mp m })

  unfoldable pub unlock_mutex : Ptr → Kernel → Kernel
  unfolding mutex_unlock
  unlock_mutex mp s = record s { mutexes = update s.mutexes mp (mutex_unlock (s.mutexes mp)) }

  unfoldable pub lock_queue : Ptr → Kernel → Run Kernel
  unfolding mutex_lock
  lock_queue cv s = mutex_lock (s.conds cv).q_lock >>= λ m.
      done (set_cond cv (record (s.conds cv) { q_lock = m }) s)

  unfoldable pub unlock_queue : Ptr → Kernel → Kernel
  unfolding mutex_unlock
  unlock_queue cv s =
      set_cond cv (record (s.conds cv) { q_lock = mutex_unlock (s.conds cv).q_lock }) s

  unfoldable pub lock_node : Ptr → Kernel → Run Kernel
  unfolding mutex_lock
  lock_node t s =
      mutex_lock (s.nodes t).lock >>= λ m. done (set_node t (record (s.nodes t) { lock = m }) s)

  unfoldable pub unlock_node : Ptr → Kernel → Kernel
  unfolding mutex_unlock
  unlock_node t s = set_node t (record (s.nodes t) { lock = mutex_unlock (s.nodes t).lock }) s
