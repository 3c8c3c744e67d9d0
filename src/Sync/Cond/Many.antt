-- ===== src/Sync/Cond/Many.antt =====
-- kernel/cond.c with several condition variables: sequences of calls against the family of queues.
use timix_next.Prelude.{ℕ, ◌≡◌, refl, List, [], ◌∷◌, Bool, Ptr, null, Bool-cases, inl, inr}
use timix_next.Prelude.Run.{done}
use timix_next.Queue.View.{◌∉◌}
use timix_next.Sync.Kernel.{SchedOps, Kernel}
use timix_next.Sync.Cond.Block.{Willing}
use timix_next.Sync.Cond.Family.{
  Call, wait, signal, broadcast, interrupt, exec, exec_all, View, spec, spec_all, Allowed,
  AllAllowed, Shows, Ends,
}
use timix_next.Sync.Cond.Calls.{
  sleep-Shows, signal-Shows, broadcast-Shows, soft_interrupt-Shows, hard_interrupt-Shows,
}

module _ (o : SchedOps) (fuel : ℕ) (cvs : List Ptr) (hard : Ptr → Bool) where
  exec-Shows :
      Willing o
      → null ∉ cvs
      → (c : Call) (s : Kernel o) (v : View o fuel cvs hard) → Shows o fuel cvs hard s v
      → Allowed o fuel cvs hard c v
      → Ends o fuel cvs hard c s v
  unfolding exec
  exec-Shows willing safe (wait t cv mp) s v h ok =
      let (s', ran, h', _, _, _) = sleep-Shows o fuel cvs hard willing t cv mp s v h ok in
      (s', rw ran refl, h')
  exec-Shows willing safe (signal cv) s v h ok =
      let (s', ran, h', _) = signal-Shows o fuel cvs hard cv s v h ok in (s', ran, h')
  exec-Shows willing safe (broadcast cv) s v h ok =
      let (s', ran, h', _) = broadcast-Shows o fuel cvs hard cv s v h ok in (s', ran, h')
  exec-Shows willing safe (interrupt t) s (w, p) h ok = elim (Bool-cases (hard t)) [
    | inl firm ↦
        let (s', ran, h', _, _) = hard_interrupt-Shows o fuel cvs hard t s w p safe firm h ok in
        rw firm (s', rw ran refl, h')
    | inr soft ↦
        let (s', ran, h', _, _, _) = soft_interrupt-Shows o fuel cvs hard t s w p safe soft h ok in
        rw soft (s', rw ran refl, h')
  ]

  -- On any number of condition variables, which share the threads and the scheduler, any sequence of
  -- waits, signals, broadcasts and interrupts runs to its end and does what a queue of threads for
  -- each of them does: who waits stands behind the others of that queue; a signal wakes the one that
  -- came first there, a broadcast all of them in the order in which they came, and an interrupt takes
  -- the thread that it names out of the queue that it stands in, unless it waits uninterruptably; the
  -- other queues stay as they are, and the scheduler is told of these threads and of no others. It
  -- starts with every lock free and each queue showing the threads that wait, none in two queues, and
  -- ends so. The scheduler does not refuse to block; no condition variable is `NULL`; a thread that
  -- comes to wait is not `NULL` and waits nowhere yet; one that is interrupted waits; and the fuel is
  -- more than the threads in the queue that is walked.
  pub exec_all-Shows_many :
      Willing o
      → null ∉ cvs
      → (cs : List Call) (s : Kernel o) (v : View o fuel cvs hard) → Shows o fuel cvs hard s v
      → AllAllowed o fuel cvs hard cs v
      → (s' : Kernel o) × (exec_all o fuel cvs hard cs s ≡ done s')
        × Shows o fuel cvs hard s' (spec_all o fuel cvs hard cs v)
  unfolding exec_all
  exec_all-Shows_many willing safe [] s v h ok = (s, refl, h)
  exec_all-Shows_many willing safe (c ∷ cs) s v h ok =
      let (s1, ran, h1) = exec-Shows willing safe c s v h ok.0 in
      let (s2, rest, h2) =
        exec_all-Shows_many willing safe cs s1 (spec o fuel cvs hard c v) h1 ok.1 in
      (s2, rw ran rest, h2)
