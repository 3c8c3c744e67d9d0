-- ===== src/Sync/Cond/Family.antt =====
-- kernel/cond.c with several condition variables: an abstract queue for each, over the threads and
-- the scheduler that they share.
use timix_next.Prelude.{
  ℕ, ◌<◌, ◌≡◌, ◌≢◌, List, [], ◌∷◌, ◌++◌, Bool, Ptr, null, length, update, if◌then◌else◌,
}
use timix_next.Prelude.Run.{Run, done, ◌>>=◌}
use timix_next.Queue.View.{◌∈◌, ◌∉◌}
use timix_next.Queue.Refine.{without}
use timix_next.Sync.Kernel.{SchedOps, Kernel}
use timix_next.Sync.Cond.{cond_sleep, cond_signal, cond_broadcast, cond_interrupt}
use timix_next.Sync.Cond.Wakeup.{unblock_all}
use timix_next.Sync.Cond.Signal.{oldest, others}
use timix_next.Sync.Cond.Block.{blocked}
use timix_next.Sync.Cond.Fifo

-- A thread waits on `cv` with a mutex, somebody signals or broadcasts `cv`, or interrupts a thread.
pub data Call : Type 0 where
  wait : (t cv mp : Ptr) → Call
  signal : (cv : Ptr) → Call
  broadcast : (cv : Ptr) → Call
  interrupt : Ptr → Call

-- `hard` says which threads wait uninterruptably, and `cvs` which condition variables there are.
module _ (o : SchedOps) (fuel : ℕ) (cvs : List Ptr) (hard : Ptr → Bool) where
  unfoldable pub exec : Call → Kernel o → Run (Kernel o)
  exec (wait t cv mp) s = cond_sleep o t cv mp (hard t) s >>= λ (_, s'). done s'
  exec (signal cv) s = cond_signal o cv s
  exec (broadcast cv) s = cond_broadcast o fuel cv s
  exec (interrupt t) s = cond_interrupt o fuel t s >>= λ (_, s'). done s'

  unfoldable pub exec_all : List Call → Kernel o → Run (Kernel o)
  unfolding exec
  exec_all [] s = done s
  exec_all (c ∷ cs) s = exec c s >>= λ s'. exec_all cs s'

  -- The threads that wait on each condition variable, the one that came first in front, and the
  -- scheduler.
  abbrev pub View : Type 0
  View = (Ptr → List Ptr) × o.State

  abbrev pub spec : Call → View → View
  spec (wait t cv mp) (w, p) = (update w cv (w cv ++ t ∷ []), blocked o t (hard t) p)
  spec (signal cv) (w, p) = (update w cv (others o (w cv)), unblock_all o (oldest o (w cv)) p)
  spec (broadcast cv) (w, p) = (update w cv [], unblock_all o (w cv) p)
  spec (interrupt t) (w, p) = if hard t then (w, p) else (λ c. without t (w c), o.unblock_tcb t p)

  abbrev pub spec_all : List Call → View → View
  spec_all [] v = v
  spec_all (c ∷ cs) v = spec_all cs (spec c v)

  -- The thread waits nowhere.
  abbrev pub Awake : Ptr → (Ptr → List Ptr) → Type 0
  Awake t w = (c : Ptr) → c ∈ cvs → t ∉ w c

  abbrev pub Allowed : Call → View → Type 0
  Allowed (wait t cv mp) (w, p) = (cv ∈ cvs) × (t ≢ null) × Awake t w
  Allowed (signal cv) (w, p) = cv ∈ cvs
  Allowed (broadcast cv) (w, p) = (cv ∈ cvs) × (length (w cv) < fuel)
  Allowed (interrupt t) (w, p) = (c : Ptr) × (c ∈ cvs) × (t ∈ w c) × (length (w c) < fuel)

  abbrev pub AllAllowed : List Call → View → Type 0
  AllAllowed [] v = Unit
  AllAllowed (c ∷ cs) v = Allowed c v × AllAllowed cs (spec c v)

  -- The kernel's state stands for the view: each condition variable shows its queue, and no thread
  -- stands in two of them.
  pub record Shows (s : Kernel o) (v : View) : Type 0 where
    pub each : (c : Ptr) → c ∈ cvs → Fifo.Shows o fuel c hard s (v.0 c, v.1)
    pub apart : (c d a : Ptr) → c ∈ cvs → d ∈ cvs → c ≢ d → a ∈ v.0 c → a ∉ v.0 d

  abbrev pub Ends : Call → Kernel o → View → Type 0
  Ends c s v = (s' : Kernel o) × (exec c s ≡ done s') × Shows s' (spec c v)
