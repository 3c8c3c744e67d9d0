-- ===== src/Sync/Cond/Fifo.antt =====
-- kernel/cond.c as an abstract queue: what sequences of calls on one condition variable do.
use timix_next.Prelude.{
  ℕ, ◌<◌, ◌≡◌, ◌≢◌, List, [], ◌∷◌, ◌++◌, Bool, Ptr, null, length, if◌then◌else◌,
}
use timix_next.Prelude.Run.{Run, done, ◌>>=◌}
use timix_next.Queue.View.{◌∈◌, ◌∉◌}
use timix_next.Queue.Refine.{without}
use timix_next.Sync.Mutex.{unlocked}
use timix_next.Sync.Kernel.{SchedOps, Kernel}
use timix_next.Sync.Cond.{cond_sleep, cond_signal, cond_broadcast, cond_interrupt}
use timix_next.Sync.Cond.Wakeup.{Waits, IsFree, unblock_all, latest_first}
use timix_next.Sync.Cond.Signal.{oldest, others}
use timix_next.Sync.Cond.Block.{blocked}

-- A thread waits with a mutex, somebody signals, broadcasts, or interrupts a thread.
pub data Call : Type 0 where
  wait : (t mp : Ptr) → Call
  signal : Call
  broadcast : Call
  interrupt : Ptr → Call

-- `hard` says which threads wait uninterruptably.
module _ (o : SchedOps) (fuel : ℕ) (cv : Ptr) (hard : Ptr → Bool) where
  unfoldable pub exec : Call → Kernel o → Run (Kernel o)
  exec (wait t mp) s = cond_sleep o t cv mp (hard t) s >>= λ (_, s'). done s'
  exec signal s = cond_signal o cv s
  exec broadcast s = cond_broadcast o fuel cv s
  exec (interrupt t) s = cond_interrupt o fuel t s >>= λ (_, s'). done s'

  unfoldable pub exec_all : List Call → Kernel o → Run (Kernel o)
  unfolding exec
  exec_all [] s = done s
  exec_all (c ∷ cs) s = exec c s >>= λ s'. exec_all cs s'

  -- The threads that wait, the one that came first in front, and the scheduler.
  abbrev pub View : Type 0
  View = List Ptr × o.State

  abbrev pub spec : Call → View → View
  spec (wait t mp) (ts, p) = (ts ++ t ∷ [], blocked o t (hard t) p)
  spec signal (ts, p) = (others o ts, unblock_all o (oldest o ts) p)
  spec broadcast (ts, p) = ([], unblock_all o ts p)
  spec (interrupt t) (ts, p) = if hard t then (ts, p) else (without t ts, o.unblock_tcb t p)

  abbrev pub spec_all : List Call → View → View
  spec_all [] v = v
  spec_all (c ∷ cs) v = spec_all cs (spec c v)

  abbrev pub Allowed : Call → View → Type 0
  Allowed (wait t mp) (ts, p) = (t ≢ null) × (t ∉ ts)
  Allowed signal v = Unit
  Allowed broadcast (ts, p) = length ts < fuel
  Allowed (interrupt t) (ts, p) = (t ∈ ts) × (length ts < fuel)

  abbrev pub AllAllowed : List Call → View → Type 0
  AllAllowed [] v = Unit
  AllAllowed (c ∷ cs) v = Allowed c v × AllAllowed cs (spec c v)

  -- The kernel's state stands for the view: nobody holds a lock, and each thread that waits is
  -- marked as waiting on `cv`.
  pub record Shows (s : Kernel o) (v : View) : Type 0 where
    pub waits : Waits o cv s (latest_first o v.0)
    pub free : IsFree o cv s
    pub locks : (a : Ptr) → (s.nodes a).lock.owner ≡ unlocked
    pub marks :
        (a : Ptr) → a ∈ v.0 → ((s.nodes a).cv ≡ cv) × ((s.nodes a).flags.uninterruptable ≡ hard a)
    pub told : s.sched ≡ v.1

  abbrev pub Ends : Call → Kernel o → View → Type 0
  Ends c s v = (s' : Kernel o) × (exec c s ≡ done s') × Shows s' (spec c v)
