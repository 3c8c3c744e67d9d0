-- ===== src/Sync/Cond/Refine.antt =====
-- kernel/cond.c: sequences of calls on a condition variable against the abstract queue.
use timix_next.Prelude.{
  ℕ, ◌≡◌, ◌≢◌, refl, sym, ◌∙◌, ap, List, [], ◌∷◌, ◌++◌, Bool, true, false, Ptr, null, arith,
  Bool-cases, inl, inr, update_self, update_ne, eqb_false, ◌==◌,
}
use timix_next.Prelude.Int.{pos}
use timix_next.Prelude.Run.{done}
use timix_next.Prelude.Errno.{minus_einval}
use mathlib.Core.List.{append_assoc}
use timix_next.Queue.View.{has, ◌∈◌, ◌∉◌, ne_of_mem, not-mem-cons}
use timix_next.Queue.Refine.{without, mem-Split}
use timix_next.Sync.Mutex.{unlocked, mutex_lock, mutex_unlock}
use timix_next.Sync.Kernel.{SchedOps, Kernel, set_node, lock_node, unlock_node}
use timix_next.Sync.Cond.{cond_interrupt, interrupt_locked}
use timix_next.Sync.Cond.Wakeup.{Waits, latest_first}
use timix_next.Sync.Cond.Interrupt.{cond_interrupt-Waits}
use timix_next.Sync.Cond.Block.{Willing}
use timix_next.Sync.Cond.Order.{
  latest_first-append, has-latest_first, length-latest_first, has-without, gone,
}
use timix_next.Sync.Cond.Frame.{Frame}
use timix_next.Sync.Cond.Fifo.{
  Call, wait, signal, broadcast, interrupt, exec, exec_all, View, spec, spec_all, Allowed,
  AllAllowed, Shows, Ends,
}
use timix_next.Sync.Cond.Steps.{wait-Shows, signal-Shows, broadcast-Shows}

apart_of : (ts : List Ptr) (a t : Ptr) → a ∉ ts → t ∈ ts → a ≢ t
apart_of ts a t out i e = cc

module _ (o : SchedOps) (fuel : ℕ) (cv : Ptr) (hard : Ptr → Bool) where
  -- `cond_interrupt` of a thread that waits uninterruptably.
  unfoldable pub refused : (t : Ptr) (s : Kernel o) → Kernel o
  refused t s =
      unlock_node o t (set_node o t (record (s.nodes t) { lock = record { owner = 1 } }) s)

  pub refused_lem :
      (t : Ptr) (s : Kernel o)
      → (s.nodes t).lock.owner ≡ unlocked
      → (s.nodes t).cv ≡ cv
      → cv ≢ null
      → (s.nodes t).flags.uninterruptable ≡ true
      → cond_interrupt o fuel t s ≡ done (minus_einval, refused t s)
  unfolding cond_interrupt interrupt_locked lock_node mutex_lock refused
  refused_lem t s free at ne firm = rw (free, update_self, at, eqb_false ne, firm) refl

  refused_self :
      (t : Ptr) (s : Kernel o)
      → (refused t s).nodes t ≡ record (s.nodes t) { lock = record { owner = unlocked } }
  unfolding refused unlock_node mutex_unlock
  refused_self t s = simp (update_self)

  pub refused-nodes :
      (t a : Ptr) (s : Kernel o)
      → (s.nodes t).lock.owner ≡ unlocked
      → (refused t s).nodes a ≡ s.nodes a
  unfolding refused unlock_node
  refused-nodes t a s free = elim (Bool-cases (a == t)) [
    | inl here ↦
        let e : a ≡ t = ground (arith, here) in
        rw e (
          refused_self t s
          ∙ ap (λ x. record (s.nodes t) { lock = record { owner = x } }) (sym free))
    | inr there ↦ let ne : a ≢ t = ground (arith, there) in update_ne _ _ _ ne ∙ update_ne _ _ _ ne
  ]

  pub refused-Shows :
      (t : Ptr) (s : Kernel o) (v : View o fuel cv hard)
      → Shows o fuel cv hard s v
      → Shows o fuel cv hard (refused t s) v
  unfolding refused unlock_node
  refused-Shows t s v h =
      let same = λ (a : Ptr). refused-nodes t a s (h.locks t) in
      record {
        waits = record {
          queue = h.waits.queue;
          own = λ a i. ap (λ n. n.tcb) (same a) ∙ h.waits.own a i;
        };
        free = h.free;
        locks = λ a. ap (λ n. n.lock.owner) (same a) ∙ h.locks a;
        marks = λ a i. (
          ap (λ n. n.cv) (same a) ∙ (h.marks a i).0,
          ap (λ n. n.flags.uninterruptable) (same a) ∙ (h.marks a i).1,
        );
        told = h.told;
      }

  hard_interrupt-Shows :
      (t : Ptr) (s : Kernel o) (v : View o fuel cv hard)
      → cv ≢ null
      → hard t ≡ true
      → Shows o fuel cv hard s v
      → Allowed o fuel cv hard (interrupt t) v
      → Ends o fuel cv hard (interrupt t) s v
  unfolding exec
  hard_interrupt-Shows t s v ne firm h ok =
      let (at, flag) = h.marks t ok.0 in
      rw firm (
        refused t s,
        rw (refused_lem t s (h.locks t) at ne (flag ∙ firm)) refl,
        refused-Shows t s v h,
      )

  pub cond_interrupt-Shows :
      (t : Ptr) (s : Kernel o) (ts : List Ptr) (p : o.State)
      → cv ≢ null
      → hard t ≡ false
      → Shows o fuel cv hard s (ts, p)
      → Allowed o fuel cv hard (interrupt t) (ts, p)
      → (s' : Kernel o) × (cond_interrupt o fuel t s ≡ done (pos 0, s'))
        × Shows o fuel cv hard s' (without t ts, o.unblock_tcb t p)
        × ((s'.nodes t).flags.interrupted ≡ true)
        × (s'.mutexes ≡ s.mutexes)
        × (t ∉ without t ts)
        × Frame o cv ts (t ∷ []) s s'
  cond_interrupt-Shows t s ts p ne soft h (i, enough) =
      let (at, flag) = h.marks t i in
      let (bs, cs, parts, left) = mem-Split t ts i in
      let order =
        ap (latest_first o) parts
        ∙ latest_first-append o bs (t ∷ cs)
        ∙ append_assoc (latest_first o cs) (t ∷ []) (latest_first o bs) in
      let w : Waits o cv s (latest_first o cs ++ t ∷ latest_first o bs) = rw order at (h.waits) in
      let count = length-latest_first o ts in
      let (s', ran, w', hit, told, free, back, same, mutexes, conds, links) =
        cond_interrupt-Waits o fuel cv t s (latest_first o cs) (latest_first o bs) at ne
          (flag ∙ soft) (h.locks t) h.free w (rw (sym order, count) enough) in
      let away = gone o bs cs t w.queue.distinct in
      (
        s',
        ran,
        record {
          waits = rw (left, latest_first-append o bs cs) w';
          free = free;
          locks = λ a. elim (Bool-cases (a == t)) [
            | inl here ↦ let e : a ≡ t = ground (arith, here) in rw e back
            | inr there ↦ rw (same a (ground (arith, there))) (h.locks a)
          ];
          marks = λ a j.
              rw (same a (ne_of_mem (without t ts) j (rw left away)))
                (h.marks a (has-without a t ts j));
          told = told ∙ ap (o.unblock_tcb t) h.told;
        },
        hit,
        mutexes,
        rw left away,
        record {
          conds = conds;
          links = λ a out. links a (ap (has a) (sym order) ∙ has-latest_first o a ts ∙ out);
          nodes = λ a out. same a (not-mem-cons a t [] out).0;
          within = λ a out. ground (arith, apart_of ts a t out i);
        },
      )

  soft_interrupt-Shows :
      (t : Ptr) (s : Kernel o) (v : View o fuel cv hard)
      → cv ≢ null
      → hard t ≡ false
      → Shows o fuel cv hard s v
      → Allowed o fuel cv hard (interrupt t) v
      → Ends o fuel cv hard (interrupt t) s v
  unfolding exec
  soft_interrupt-Shows t s (ts, p) ne soft h ok =
      let (s', ran, h', _, _, _, _) = cond_interrupt-Shows t s ts p ne soft h ok in
      rw soft (s', rw ran refl, h')

  pub exec-Shows :
      Willing o
      → cv ≢ null
      → (c : Call) (s : Kernel o) (v : View o fuel cv hard) → Shows o fuel cv hard s v
      → Allowed o fuel cv hard c v
      → Ends o fuel cv hard c s v
  exec-Shows willing ne (wait t mp) s v h ok = wait-Shows o fuel cv hard willing t mp s v h ok
  exec-Shows willing ne signal s v h ok = signal-Shows o fuel cv hard s v h
  exec-Shows willing ne broadcast s v h ok = broadcast-Shows o fuel cv hard s v h ok
  exec-Shows willing ne (interrupt t) s v h ok = elim (Bool-cases (hard t)) [
    | inl firm ↦ hard_interrupt-Shows t s v ne firm h ok
    | inr soft ↦ soft_interrupt-Shows t s v ne soft h ok
  ]

  -- On one condition variable any sequence of waits, signals, broadcasts and interrupts runs to its
  -- end and does what a queue of threads does: who waits stands behind the others; a signal wakes the
  -- one that came first, a broadcast all of them in the order in which they came, and an interrupt
  -- the thread that it names, unless it waits uninterruptably; the scheduler is told of these and of
  -- no others. It starts with every lock free and the queue showing the threads that wait, and ends
  -- so. The scheduler does not refuse to block; a thread that comes to wait is not `NULL` and does not wait
  -- yet; one that is interrupted waits; and the fuel is more than the threads that wait when the
  -- queue is walked.
  pub exec_all-Shows :
      Willing o
      → cv ≢ null
      → (cs : List Call) (s : Kernel o) (v : View o fuel cv hard) → Shows o fuel cv hard s v
      → AllAllowed o fuel cv hard cs v
      → (s' : Kernel o) × (exec_all o fuel cv hard cs s ≡ done s')
        × Shows o fuel cv hard s' (spec_all o fuel cv hard cs v)
  unfolding exec_all
  exec_all-Shows willing ne [] s v h ok = (s, refl, h)
  exec_all-Shows willing ne (c ∷ cs) s v h ok =
      let (s1, ran, h1) = exec-Shows willing ne c s v h ok.0 in
      let (s2, rest, h2) = exec_all-Shows willing ne cs s1 (spec o fuel cv hard c v) h1 ok.1 in
      (s2, rw ran rest, h2)
