-- ===== src/Sync/Rwlock/Runnable.antt =====
-- kernel/rwlock.c, the abstract lock without interrupts: each call keeps who waits and does not sleep
-- ready to run.
use timix_next.Prelude.{
  ℕ, ◌-◌, ◌≢◌, sym, List, [], ◌∷◌, Bool, ◌&&◌, Ptr, arith, Bool-cases, inl, inr, update_self,
  update_ne, ltb, ◌==◌,
}
use timix_next.Queue.View.{has, ◌∉◌, ne_of_mem}
use timix_next.Queue.Refine.{without}
use timix_next.Sync.Kernel.{SchedOps}
use timix_next.Sync.Cond.Signal.{oldest, others}
use timix_next.Sync.Cond.Order.{has-without}
use timix_next.Sync.Rwlock.{is_unlocked, Access, for_read, for_write}
use timix_next.Sync.Rwlock.Model.{
  Call, lock, resume, unlock, downgrade, interrupt, enqueue, unasked, held_off, try, wake_readers,
  wake_writer, wake, hand_over, spec, spec_all, Allowed, AllAllowed,
}
use timix_next.Sync.Rwlock.Hold.{without_gone}
use timix_next.Sync.Rwlock.Ready.{W, Inv}
use timix_next.Sync.Rwlock.Progress.{Undisturbed, AllUndisturbed}
use timix_next.Sync.Rwlock.Served.{spec-Inv}
use timix_next.Sync.Rwlock.Alert.{
  IsRuns, AlertBut, Alert, doze-Alert, unblock_all_keeps, unblock_all_wakes, oldest_wakes,
}
use timix_next.Queue.View.{Distinct}

module _ (o : SchedOps) (runs : Ptr → o.State → Bool) (law : IsRuns o runs) (fuel : ℕ)
    (readers writers : Ptr) (hard : Ptr → Bool) (apart : readers ≢ writers) where
  abbrev V : Type 0
  V = W o fuel readers writers hard apart

  abbrev A : V → Type 0
  A = Alert o runs law fuel readers writers hard apart

  try-Alert :
      (t : Ptr) (a : Access) (v : V)
      → Distinct v.queue
      → AlertBut o runs law fuel readers writers hard apart t v
      → A (try o fuel readers writers hard t a v).1
  try-Alert t a v d h = elim (Bool-cases (held_off o fuel readers writers hard a v)) [
    | inl out ↦ rw out (doze-Alert o runs law fuel readers writers hard apart t a v h)
    | inr in_time ↦ rw in_time (λ u i r w.
        h u (ne_of_mem (without t v.queue) i (without_gone t v.queue d)) (has-without u t v.queue i)
          r w)
  ]

  lock-Alert :
      (t : Ptr) (a : Access) (v : V)
      → t ∉ v.queue
      → Distinct v.queue
      → A v
      → A (spec o fuel readers writers hard (lock t a) v).1
  lock-Alert t a v out d h = elim (Bool-cases ((v.count == 0) && is_unlocked v.mode)) [
    | inl free ↦ rw free h
    | inr busy ↦ rw busy (elim (Bool-cases (unasked o fuel readers writers hard a v.queue)) [
      | inl nobody ↦ rw nobody h
      | inr queued ↦ rw queued (
          try-Alert t a (enqueue o fuel readers writers hard t a v) (out, d)
            (λ u ne i r w. h u (ground (arith, i, ne)) r w))
    ])
  ]

  wake_readers-Alert : (v : V) → A v → A (wake_readers o fuel readers writers hard v)
  wake_readers-Alert v h u i r w =
      let w' = rw (update_ne v.sleeping readers [] (λ e. apart (sym e))) at w in
      elim (Bool-cases (has u (v.sleeping readers))) [
        | inl slept ↦ unblock_all_wakes o runs law (v.sleeping readers) u v.sched slept
        | inr r' ↦ unblock_all_keeps o runs law (v.sleeping readers) u v.sched (h u i r' w')
      ]

  wake_writer-Alert : (v : V) → A v → A (wake_writer o fuel readers writers hard v)
  wake_writer-Alert v h u i r w =
      let ts = v.sleeping writers in
      let r' = rw (update_ne v.sleeping writers (others o ts) apart) at r in
      let rest = rw (update_self v.sleeping writers (others o ts)) at w in
      elim (Bool-cases (has u ts)) [
        | inl slept ↦ oldest_wakes o runs law ts u v.sched slept rest
        | inr w' ↦ unblock_all_keeps o runs law (oldest o ts) u v.sched (h u i r' w')
      ]

  hand_over-Alert : (ts : List Ptr) (v : V) → A v → A (hand_over o fuel readers writers hard ts v)
  hand_over-Alert [] v h = h
  hand_over-Alert (t ∷ ts) v h = woken (v.want t)
    where
      woken : (a : Access) → A (wake o fuel readers writers hard a v)
      woken for_read = wake_readers-Alert v h
      woken for_write = wake_writer-Alert v h

  spec-Alert :
      (c : Call) (v : V)
      → Undisturbed c
      → Inv o fuel readers writers hard apart v
      → Allowed o fuel readers writers hard c v
      → A v
      → A (spec o fuel readers writers hard c v).1
  spec-Alert (lock t a) v quiet inv ok h = lock-Alert t a v ok.1 inv.sound.distinct h
  spec-Alert (resume t a) v quiet inv ok h =
      rw (inv.calm t ok.1) (try-Alert t a v inv.sound.distinct (λ u ne. h u))
  spec-Alert unlock v quiet inv ok h = elim (Bool-cases (ltb 1 v.count)) [
    | inl more ↦ rw more h
    | inr last ↦ rw last (hand_over-Alert v.queue (record v { count = v.count - 1 }) h)
  ]
  spec-Alert downgrade v quiet inv ok h = wake_readers-Alert v h
  spec-Alert (interrupt t) v quiet inv ok h = elim quiet [ ]

  pub spec_all-Alert :
      (cs : List Call) (v : V)
      → AllUndisturbed cs
      → Inv o fuel readers writers hard apart v
      → AllAllowed o fuel readers writers hard cs v
      → A v
      → A (spec_all o fuel readers writers hard cs v).1
  spec_all-Alert [] v quiet inv ok h = h
  spec_all-Alert (c ∷ cs) v quiet inv ok h =
      spec_all-Alert cs (spec o fuel readers writers hard c v).1 quiet.1
        (spec-Inv o fuel readers writers hard apart c v quiet.0 inv ok.0) ok.1
        (spec-Alert c v quiet.0 inv ok.0 h)
