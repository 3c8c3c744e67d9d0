-- ===== src/Sync/Cond/Calls.antt =====
-- kernel/cond.c with several condition variables: what one call does to the family of queues.
use timix_next.Prelude.{
  ℕ, ◌≡◌, ◌≢◌, refl, sym, ap, ◌∙◌, List, [], ◌∷◌, ◌++◌, Bool, true, false, Ptr, null, arith,
}
use timix_next.Prelude.Int.{pos}
use timix_next.Prelude.Run.{done}
use timix_next.Prelude.Errno.{minus_einval}
use timix_next.Queue.View.{has, ◌∈◌, ◌∉◌, not-mem_both, ne_of_mem}
use timix_next.Queue.Refine.{without}
use timix_next.Sync.Kernel.{SchedOps, Kernel, unlock_node}
use timix_next.Sync.Free.{MutexFree}
use timix_next.Sync.Cond.{asleep, cond_sleep, cond_signal, cond_broadcast, cond_interrupt}
use timix_next.Sync.Cond.Signal.{others}
use timix_next.Sync.Cond.Block.{Willing}
use timix_next.Sync.Cond.Order.{has-without}
use timix_next.Sync.Cond.Frame.{Frame}
use timix_next.Sync.Cond.Steps.{
  cond_sleep-Shows, cond_signal-Shows, cond_broadcast-Shows, others_sub,
}
use timix_next.Sync.Cond.Refine.{
  cond_interrupt-Shows, refused, refused_lem, refused-nodes, refused-Shows,
}
use timix_next.Sync.Cond.Family.{wait, signal, broadcast, interrupt, spec, View, Allowed, Shows}
use timix_next.Sync.Cond.Move.{move, others_keep}

module _ (o : SchedOps) (fuel : ℕ) (cvs : List Ptr) (hard : Ptr → Bool) where
  -- One call: the state that it ends in, and what it shows there.
  pub sleep-Shows :
      Willing o
      → (t cv mp : Ptr) (s : Kernel o) (v : View o fuel cvs hard) → Shows o fuel cvs hard s v
      → Allowed o fuel cvs hard (wait t cv mp) v
      → (s' : Kernel o) × (cond_sleep o t cv mp (hard t) s ≡ done (asleep, s'))
        × Shows o fuel cvs hard s' (spec o fuel cvs hard (wait t cv mp) v)
        × MutexFree o mp s'
        × Frame o cv (v.0 cv ++ t ∷ []) (t ∷ []) s s'
        × ((s'.nodes t).flags ≡ record { interrupted = false; uninterruptable = hard t })
  sleep-Shows willing t cv mp s (w, p) h (i, ne, awake) =
      let (s', ran, h', free, f, flags) =
        cond_sleep-Shows o fuel cv hard willing t mp s (w cv, p) (h.each cv i) (ne, awake cv i) in
      (
        s',
        ran,
        move o fuel cvs hard cv (w cv ++ t ∷ []) (t ∷ []) (w cv ++ t ∷ []) s s' w p _ i h h' f
            (λ a c ic c_ne j.
              not-mem_both a (w cv) (t ∷ []) (h.apart c cv a ic i c_ne j)
                (ground (arith, ne_of_mem (w c) j (awake c ic))))
            (λ a j. j),
        free,
        f,
        flags,
      )

  pub signal-Shows :
      (cv : Ptr) (s : Kernel o) (v : View o fuel cvs hard)
      → Shows o fuel cvs hard s v
      → cv ∈ cvs
      → (s' : Kernel o) × (cond_signal o cv s ≡ done s')
        × Shows o fuel cvs hard s' (spec o fuel cvs hard (signal cv) v)
        × Frame o cv (v.0 cv) [] s s'
  signal-Shows cv s (w, p) h i =
      let (s', ran, h', f) = cond_signal-Shows o fuel cv hard s (w cv, p) (h.each cv i) in
      (
        s',
        ran,
        move o fuel cvs hard cv (w cv) [] (others o (w cv)) s s' w p _ i h h' f
            (λ a c ic c_ne j. h.apart c cv a ic i c_ne j) (others_sub o fuel cv hard (w cv)),
        f,
      )

  pub broadcast-Shows :
      (cv : Ptr) (s : Kernel o) (v : View o fuel cvs hard)
      → Shows o fuel cvs hard s v
      → Allowed o fuel cvs hard (broadcast cv) v
      → (s' : Kernel o) × (cond_broadcast o fuel cv s ≡ done s')
        × Shows o fuel cvs hard s' (spec o fuel cvs hard (broadcast cv) v)
        × Frame o cv (v.0 cv) [] s s'
  broadcast-Shows cv s (w, p) h (i, enough) =
      let (s', ran, h', f) = cond_broadcast-Shows o fuel cv hard s (w cv, p) (h.each cv i) enough in
      (
        s',
        ran,
        move o fuel cvs hard cv (w cv) [] [] s s' w p _ i h h' f
            (λ a c ic c_ne j. h.apart c cv a ic i c_ne j) (λ a j. cc),
        f,
      )

  -- An interrupt takes the thread out of the one queue that it stands in.
  pub soft_interrupt-Shows :
      (t : Ptr) (s : Kernel o) (w : Ptr → List Ptr) (p : o.State)
      → null ∉ cvs
      → hard t ≡ false
      → Shows o fuel cvs hard s (w, p)
      → Allowed o fuel cvs hard (interrupt t) (w, p)
      → (s' : Kernel o) × (cond_interrupt o fuel t s ≡ done (pos 0, s'))
        × Shows o fuel cvs hard s' (λ c. without t (w c), o.unblock_tcb t p)
        × ((s'.nodes t).flags.interrupted ≡ true)
        × (s'.mutexes ≡ s.mutexes)
        × ((a : Ptr) → a ≢ t → s'.nodes a ≡ s.nodes a)
  soft_interrupt-Shows t s w p safe soft h (cv, i, at, enough) =
      let cv_ne : cv ≢ null = ne_of_mem cvs i safe in
      let (s', ran, h', hit, mutexes, _, f) =
        cond_interrupt-Shows o fuel cv hard t s (w cv) p cv_ne soft (h.each cv i) (at, enough) in
      let moved =
        move o fuel cvs hard cv (w cv) (t ∷ []) (without t (w cv)) s s' w p _ i h h' f
          (λ a c ic c_ne j. h.apart c cv a ic i c_ne j) (λ a j. has-without a t (w cv) j) in
      let same = λ (c : Ptr) (ic : c ∈ cvs).
        others_keep cv t w c (λ ne. h.apart cv c t i ic (λ e. ne (sym e)) at) in
      (
        s',
        ran,
        record {
          each = λ c ic. rw (same c ic) at (moved.each c ic);
          apart = λ c d a ic id ne j.
              ap (has a) (sym (same d id))
              ∙ moved.apart c d a ic id ne (ap (has a) (same c ic) ∙ j);
        },
        hit,
        mutexes,
        λ a ne. f.nodes a (ground (arith, ne)),
      )

  -- A thread that waits uninterruptably stays where it is.
  pub hard_interrupt-Shows :
      (t : Ptr) (s : Kernel o) (w : Ptr → List Ptr) (p : o.State)
      → null ∉ cvs
      → hard t ≡ true
      → Shows o fuel cvs hard s (w, p)
      → Allowed o fuel cvs hard (interrupt t) (w, p)
      → (s' : Kernel o) × (cond_interrupt o fuel t s ≡ done (minus_einval, s'))
        × Shows o fuel cvs hard s' (w, p)
        × (s'.mutexes ≡ s.mutexes)
        × ((a : Ptr) → s'.nodes a ≡ s.nodes a)
  unfolding refused unlock_node
  hard_interrupt-Shows t s w p safe firm h (cv, i, at, enough) =
      let (marked, flag) = (h.each cv i).marks t at in
      let free = (h.each cv i).locks t in
      (
        refused o fuel cv hard t s,
        refused_lem o fuel cv hard t s free marked (ne_of_mem cvs i safe) (flag ∙ firm),
        record {
          each = λ c ic. refused-Shows o fuel c hard t s (w c, p) (h.each c ic);
          apart = h.apart;
        },
        refl,
        λ a. refused-nodes o fuel cv hard t a s free,
      )
