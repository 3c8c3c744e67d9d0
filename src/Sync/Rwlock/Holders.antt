-- ===== src/Sync/Rwlock/Holders.antt =====
-- kernel/rwlock.c from `rwlock_init` on: readers hold the lock together, a writer alone.
use timix_next.Prelude.{
  ℕ, ◌-◌, ◌<◌, ◌≡◌, ◌≢◌, refl, sym, ◌∙◌, List, [], ◌∷◌, Bool, true, ◌&&◌, Ptr, arith, length,
  Bool-cases, inl, inr, ltb, ◌==◌,
}
use timix_next.Sync.Kernel.{SchedOps}
use timix_next.Sync.Rwlock.{
  Mode, unlocked, read, write, is_unlocked, is_write, Access, for_read, for_write,
}
use timix_next.Sync.Rwlock.Model.{
  Call, lock, resume, unlock, downgrade, interrupt, unasked, enqueue, hand_over, wake, spec,
  spec_all, Allowed, AllAllowed,
}
use timix_next.Sync.Rwlock.Exclude.{
  held_after, held_after_all, AllRead, Agrees, Agrees-nil, reads_on, nobody, V, Careful, AllCareful,
  Fits, Took, enter-Took, try-Took,
}

-- One holder less.
Agrees-less :
    (mode : Mode) (h : Access) (hs : List Access) → Agrees mode (h ∷ hs) → hs ≢ [] → Agrees mode hs
Agrees-less unlocked h hs e ne = cc
Agrees-less read h hs e ne = e.1
Agrees-less write h hs (inl e) ne = cc
Agrees-less write h hs (inr e) ne = absurd (ne (tail_eq e))
  where
    tail_eq : h ∷ hs ≡ for_write ∷ [] → hs ≡ []
    tail_eq e = cc

module _ (o : SchedOps) (fuel : ℕ) (readers writers : Ptr) (hard : Ptr → Bool) where
  abbrev W : Type 0
  W = V o fuel readers writers hard

  abbrev F : W → List Access → Type 0
  F = Fits o fuel readers writers hard

  lock-Fits :
      (t : Ptr) (a : Access) (v : W) (hs : List Access)
      → F v hs
      → Careful o fuel readers writers hard (lock t a) v
      → Took o fuel readers writers hard a (spec o fuel readers writers hard (lock t a) v) hs
  lock-Fits t a v hs f care = elim (Bool-cases ((v.count == 0) && is_unlocked v.mode)) [
    | inl free ↦
        let e : hs ≡ [] = nobody hs (ground (arith, free, f.how_many)) in
        rw free (enter-Took o fuel readers writers hard a v hs f (λ _. rw e tt) (λ _. e))
    | inr busy ↦ rw busy (elim (Bool-cases (unasked o fuel readers writers hard a v.queue)) [
      | inl at_once ↦ rw at_once (
          enter-Took o fuel readers writers hard a v hs f (beside a v.queue refl care at_once)
            (no_writer a v.queue at_once))
      | inr queued ↦ rw queued (
          try-Took o fuel readers writers hard t a (enqueue o fuel readers writers hard t a v) hs
            (record { how_many = f.how_many; agrees = f.agrees }))
    ])
  ]
    where
      beside :
          (a : Access) (ts : List Ptr)
          → v.queue ≡ ts
          → Careful o fuel readers writers hard (lock t a) v
          → unasked o fuel readers writers hard a ts ≡ true
          → a ≡ for_read
          → AllRead hs
      beside for_read [] e care k _ = elim (Bool-cases (is_write v.mode)) [
        | inl writing ↦
            let none_hold : hs ≡ [] = nobody hs (sym f.how_many ∙ care writing e) in rw none_hold tt
        | inr other ↦ reads_on v.mode hs other f.agrees
      ]
      beside for_read (x ∷ xs) e care k _ = cc
      beside for_write ts e care k _ = cc

      no_writer :
          (a : Access) (ts : List Ptr)
          → unasked o fuel readers writers hard a ts ≡ true
          → a ≡ for_write
          → hs ≡ []
      no_writer for_read ts k e = cc
      no_writer for_write ts k e = cc

  hand_over-count :
      (ts : List Ptr) (v : W) → (hand_over o fuel readers writers hard ts v).count ≡ v.count
  hand_over-count [] v = refl
  hand_over-count (t ∷ ts) v = wake-count (v.want t)
    where
      wake-count : (a : Access) → (wake o fuel readers writers hard a v).count ≡ v.count
      wake-count for_read = refl
      wake-count for_write = refl

  unlock-Fits :
      (v : W) (hs : List Access)
      → F v hs
      → 0 < v.count
      → let (ret, v') = spec o fuel readers writers hard unlock v in F v' (held_after unlock ret hs)
  unlock-Fits v [] f lt = absurd (omega (arith, lt, f.how_many))
  unlock-Fits v (h ∷ hs) f lt = elim (Bool-cases (ltb 1 v.count)) [
    | inl more ↦ rw more (record {
      how_many = omega (arith, f.how_many);
      agrees =
          Agrees-less v.mode h hs f.agrees
            (λ e. still_some hs (ground (arith, more, f.how_many)) e);
    })
    | inr last ↦
        let e : hs ≡ [] = nobody hs (ground (arith, last, f.how_many)) in
        rw (last, e)
          (record {
            how_many =
                hand_over-count v.queue (record v { count = v.count - 1 })
                ∙ ground (arith, last, lt);
            agrees = Agrees-nil _;
          })
  ]
    where
      still_some : (hs : List Access) → 0 < length hs → hs ≢ []
      still_some [] l e = absurd (omega (arith, l))
      still_some (x ∷ xs) l e = cc

  spec-Fits :
      (c : Call) (v : W) (hs : List Access)
      → F v hs
      → Allowed o fuel readers writers hard c v
      → Careful o fuel readers writers hard c v
      → let (ret, v') = spec o fuel readers writers hard c v in F v' (held_after c ret hs)
  spec-Fits (lock t a) v hs f ok care = lock-Fits t a v hs f care
  spec-Fits (resume t a) v hs f ok care = elim (Bool-cases (v.hit t)) [
    | inl gone ↦ rw gone (record { how_many = f.how_many; agrees = f.agrees })
    | inr calm ↦ rw calm (try-Took o fuel readers writers hard t a v hs f)
  ]
  spec-Fits unlock v hs f ok care = unlock-Fits v hs f ok.0
  spec-Fits downgrade v hs f ok care = record { how_many = ok.1; agrees = (refl, tt) }
  spec-Fits (interrupt t) v hs f ok care = elim (Bool-cases (hard t)) [
    | inl firm ↦ rw firm f
    | inr soft ↦ rw soft (record { how_many = f.how_many; agrees = f.agrees })
  ]

  pub spec_all-Fits :
      (cs : List Call) (v : W) (hs : List Access)
      → F v hs
      → AllAllowed o fuel readers writers hard cs v
      → AllCareful o fuel readers writers hard cs v
      → let (rets, v') = spec_all o fuel readers writers hard cs v in
        F v' (held_after_all cs rets hs)
  spec_all-Fits [] v hs f ok care = f
  spec_all-Fits (c ∷ cs) v hs f ok care =
      let (ret, v') = spec o fuel readers writers hard c v in
      spec_all-Fits cs (spec o fuel readers writers hard c v).1
        (held_after c (spec o fuel readers writers hard c v).0 hs) (spec-Fits c v hs f ok.0 care.0)
        ok.1 care.1
