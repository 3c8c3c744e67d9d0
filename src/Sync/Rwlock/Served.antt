-- ===== src/Sync/Rwlock/Served.antt =====
-- kernel/rwlock.c: a lock that nobody holds goes to a thread that waits for it.
use timix_next.Prelude.{
  ℕ, ◌-◌, ◌≡◌, ◌≢◌, refl, List, [], ◌∷◌, Bool, false, ◌&&◌, Ptr, arith, Bool-cases, inl, inr,
  update_self, ltb, ◌==◌,
}
use timix_next.Queue.View.{◌∈◌, mem_here}
use timix_next.Sync.Kernel.{SchedOps}
use timix_next.Sync.Rwlock.{is_unlocked, Access}
use timix_next.Sync.Rwlock.Model.{
  Call, lock, resume, unlock, downgrade, interrupt, enqueue, unasked, spec, spec_all, Allowed,
  AllAllowed,
}
use timix_next.Sync.Rwlock.Ready.{W, Sound, Inv, enter-Inv, enqueue-Sound}
use timix_next.Sync.Rwlock.Progress.{AllUndisturbed, Undisturbed, try-Inv, enqueue-Next}
use timix_next.Sync.Rwlock.Handing.{readers-Sound, hand_over-Inv}

module _ (o : SchedOps) (fuel : ℕ) (readers writers : Ptr) (hard : Ptr → Bool)
    (apart : readers ≢ writers) where
  abbrev V : Type 0
  V = W o fuel readers writers hard apart

  abbrev I : V → Type 0
  I = Inv o fuel readers writers hard apart

  -- A lock that is not to be had at once is in one of the two modes.
  taken_mode :
      (v : V) → I v → ((v.count == 0) && is_unlocked v.mode) ≡ false → is_unlocked v.mode ≡ false
  taken_mode v h busy = elim (Bool-cases (is_unlocked v.mode)) [
    | inl free ↦ absurd (ground (arith, busy, free, (h.idle free).0))
    | inr e ↦ e
  ]

  waited_mode : (t : Ptr) (v : V) → I v → t ∈ v.queue → is_unlocked v.mode ≡ false
  waited_mode t v h i = elim (Bool-cases (is_unlocked v.mode)) [
    | inl free ↦ let nobody : t ∈ [] = rw ((h.idle free).1) at i in cc
    | inr e ↦ e
  ]

  lock-Inv :
      (t : Ptr) (a : Access) (v : V)
      → I v
      → Allowed o fuel readers writers hard (lock t a) v
      → I (spec o fuel readers writers hard (lock t a) v).1
  lock-Inv t a v h (ne, out, awake, _) =
      let s = h.sound in
      let at_once = enter-Inv o fuel readers writers hard apart a v s h.calm in
      elim (Bool-cases ((v.count == 0) && is_unlocked v.mode)) [
        | inl free ↦ rw free at_once
        | inr busy ↦ rw busy (elim (Bool-cases (unasked o fuel readers writers hard a v.queue)) [
          | inl nobody ↦ rw nobody at_once
          | inr queued ↦ rw queued (
              try-Inv o fuel readers writers hard apart t a
                (enqueue o fuel readers writers hard t a v)
                (enqueue-Sound o fuel readers writers hard apart t a v s out) (mem_here t v.queue)
                (update_self v.want t a) (awake readers (ground arith))
                (awake writers (ground arith)) (λ b j b_ne. h.calm b (ground (arith, j, b_ne)))
                (taken_mode v h busy)
                (λ none_holds.
                  enqueue-Next o fuel readers writers hard apart t a v out
                    (h.next none_holds (taken_mode v h busy))))
        ])
      ]

  resume-Inv :
      (t : Ptr) (a : Access) (v : V)
      → I v
      → Allowed o fuel readers writers hard (resume t a) v
      → I (spec o fuel readers writers hard (resume t a) v).1
  resume-Inv t a v h (ne, i, awake, want, _) = rw (h.calm t i) (
      try-Inv o fuel readers writers hard apart t a v h.sound i want (awake readers (ground arith))
        (awake writers (ground arith)) (λ b j _. h.calm b j) (waited_mode t v h i)
        (λ none_holds. h.next none_holds (waited_mode t v h i)))

  unlock-Inv :
      (v : V)
      → I v
      → Allowed o fuel readers writers hard unlock v
      → I (spec o fuel readers writers hard unlock v).1
  unlock-Inv v h (lt, _) =
      let s = h.sound in
      let left : Sound o fuel readers writers hard apart (record v { count = v.count - 1 }) =
        record {
          distinct = s.distinct;
          readers_in = s.readers_in;
          writers_in = s.writers_in;
          once = s.once;
        } in
      elim (Bool-cases (ltb 1 v.count)) [
        | inl more ↦ rw more (record {
          sound = left;
          calm = h.calm;
          idle = λ e. absurd (ground (arith, (h.idle e).0, lt));
          next = λ e. absurd (ground (arith, e, more));
        })
        | inr last ↦ rw last (
            hand_over-Inv o fuel readers writers hard apart v.queue
              (record v { count = v.count - 1 }) refl left h.calm (ground (arith, last, lt)))
      ]

  downgrade-Inv :
      (v : V)
      → I v
      → Allowed o fuel readers writers hard downgrade v
      → I (spec o fuel readers writers hard downgrade v).1
  downgrade-Inv v h (_, one, _) = record {
    sound = readers-Sound o fuel readers writers hard apart v h.sound;
    calm = h.calm;
    idle = λ e. cc;
    next = λ e. absurd (ground (arith, e, one));
  }

  pub spec-Inv :
      (c : Call) (v : V)
      → Undisturbed c
      → I v
      → Allowed o fuel readers writers hard c v
      → I (spec o fuel readers writers hard c v).1
  spec-Inv (lock t a) v quiet h ok = lock-Inv t a v h ok
  spec-Inv (resume t a) v quiet h ok = resume-Inv t a v h ok
  spec-Inv unlock v quiet h ok = unlock-Inv v h ok
  spec-Inv downgrade v quiet h ok = downgrade-Inv v h ok
  spec-Inv (interrupt t) v quiet h ok = elim quiet [ ]

  pub spec_all-Inv :
      (cs : List Call) (v : V)
      → AllUndisturbed cs
      → I v
      → AllAllowed o fuel readers writers hard cs v
      → I (spec_all o fuel readers writers hard cs v).1
  spec_all-Inv [] v quiet h ok = h
  spec_all-Inv (c ∷ cs) v quiet h ok =
      spec_all-Inv cs (spec o fuel readers writers hard c v).1 quiet.1 (spec-Inv c v quiet.0 h ok.0)
        ok.1
