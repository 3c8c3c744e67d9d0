-- ===== src/Sync/Rwlock/Exclude.antt =====
-- kernel/rwlock.c: who holds the lock together.
use timix_next.Prelude.{
  ℕ, suc, ◌≡◌, ◌⊎◌, refl, ap, List, [], ◌∷◌, Bool, true, false, Ptr, arith, length, Bool-cases, inl,
  inr, if◌then◌else◌,
}
use timix_next.Prelude.Int.{pos, eqb_ℤ}
use timix_next.Sync.Kernel.{SchedOps}
use timix_next.Sync.Cond.{Sleep, returned, asleep}
use timix_next.Sync.Rwlock.{
  Mode, unlocked, read, write, is_write, Access, for_read, for_write, mode_of,
}
use timix_next.Sync.Rwlock.Model.{
  Call, View, lock, resume, unlock, downgrade, interrupt, enter, leave, held_off, try, spec,
}

-- The accesses with which the lock is held after a call, from its answer: who is answered 0 holds it
-- from then on, and the one that gives it back does not.
abbrev pub taken_with : Access → Sleep → List Access → List Access
taken_with a asleep hs = hs
taken_with a (returned ret) hs = if eqb_ℤ ret (pos 0) then a ∷ hs else hs

abbrev pub held_after : Call → Sleep → List Access → List Access
held_after (lock t a) ret hs = taken_with a ret hs
held_after (resume t a) ret hs = taken_with a ret hs
held_after unlock ret [] = []
held_after unlock ret (h ∷ hs) = hs
held_after downgrade ret hs = for_read ∷ []
held_after (interrupt t) ret hs = hs

abbrev pub held_after_all : List Call → List Sleep → List Access → List Access
held_after_all [] rets hs = hs
held_after_all (c ∷ cs) [] hs = hs
held_after_all (c ∷ cs) (ret ∷ rets) hs = held_after_all cs rets (held_after c ret hs)

abbrev pub AllRead : List Access → Type 0
AllRead [] = Unit
AllRead (h ∷ hs) = (h ≡ for_read) × AllRead hs

-- Readers only, or one writer alone.
abbrev pub Exclusive : List Access → Type 0
Exclusive hs = AllRead hs ⊎ (hs ≡ for_write ∷ [])

-- The mode says how the lock is held.
abbrev pub Agrees : Mode → List Access → Type 0
Agrees unlocked hs = hs ≡ []
Agrees read hs = AllRead hs
Agrees write hs = (hs ≡ []) ⊎ (hs ≡ for_write ∷ [])

pub Agrees-Exclusive : (mode : Mode) (hs : List Access) → Agrees mode hs → Exclusive hs
Agrees-Exclusive unlocked hs e = inl (rw e tt)
Agrees-Exclusive read hs all = inl all
Agrees-Exclusive write hs (inl e) = inl (rw e tt)
Agrees-Exclusive write hs (inr e) = inr e

pub Agrees-nil : (mode : Mode) → Agrees mode []
Agrees-nil unlocked = refl
Agrees-nil read = tt
Agrees-nil write = inl refl

pub Agrees-one : (a : Access) → Agrees (mode_of a) (a ∷ [])
Agrees-one for_read = (refl, tt)
Agrees-one for_write = inr refl

-- Where a reader is not kept out, all that hold the lock read.
pub reads_on :
    (mode : Mode) (hs : List Access) → is_write mode ≡ false → Agrees mode hs → AllRead hs
reads_on unlocked hs e h = rw h tt
reads_on read hs e h = h
reads_on write hs e h = cc

pub nobody : (hs : List Access) → length hs ≡ 0 → hs ≡ []
nobody [] e = refl
nobody (h ∷ hs) e = ground (arith, e)

module _ (o : SchedOps) (fuel : ℕ) (readers writers : Ptr) (hard : Ptr → Bool) where
  abbrev pub V : Type 0
  V = View o fuel readers writers hard

  -- Nobody asks for reading in write mode where nobody is queued, while somebody holds the lock.
  abbrev pub Careful : Call → V → Type 0
  Careful (lock t for_read) v = is_write v.mode ≡ true → v.queue ≡ [] → v.count ≡ 0
  Careful (lock t for_write) v = Unit
  Careful (resume t a) v = Unit
  Careful unlock v = Unit
  Careful downgrade v = Unit
  Careful (interrupt t) v = Unit

  abbrev pub AllCareful : List Call → V → Type 0
  AllCareful [] v = Unit
  AllCareful (c ∷ cs) v = Careful c v × AllCareful cs (spec o fuel readers writers hard c v).1

  -- The lock is held with `hs`.
  pub record Fits (v : V) (hs : List Access) : Type 0 where
    pub how_many : v.count ≡ length hs
    pub agrees : Agrees v.mode hs

  -- The answer and the state after a call that may take the lock.
  abbrev pub Took : Access → Sleep × V → List Access → Type 0
  Took a (ret, v) hs = Fits v (taken_with a ret hs)

  pub enter-Took :
      (a : Access) (v : V) (hs : List Access)
      → Fits v hs
      → (a ≡ for_read → AllRead hs)
      → (a ≡ for_write → hs ≡ [])
      → Took a (returned (pos 0), enter o fuel readers writers hard a v) hs
  enter-Took for_read v hs f r w = record { how_many = ap suc f.how_many; agrees = (refl, r refl) }
  enter-Took for_write v hs f r w = record {
    how_many = ap suc f.how_many;
    agrees = inr (ap (λ ts. for_write ∷ ts) (w refl));
  }

  pub try-Took :
      (t : Ptr) (a : Access) (v : V) (hs : List Access)
      → Fits v hs
      → Took a (try o fuel readers writers hard t a v) hs
  try-Took t a v hs f = elim (Bool-cases (held_off o fuel readers writers hard a v)) [
    | inl out ↦ rw out (record { how_many = f.how_many; agrees = f.agrees })
    | inr in_time ↦ rw in_time (
        enter-Took a (leave o fuel readers writers hard t v) hs
          (record { how_many = f.how_many; agrees = f.agrees }) (may_read a in_time)
          (may_write a in_time))
  ]
    where
      may_read :
          (a : Access)
          → held_off o fuel readers writers hard a v ≡ false
          → a ≡ for_read
          → AllRead hs
      may_read for_read e _ = reads_on v.mode hs e f.agrees
      may_read for_write e k = cc

      may_write :
          (a : Access) → held_off o fuel readers writers hard a v ≡ false → a ≡ for_write → hs ≡ []
      may_write for_read e k = cc
      may_write for_write e _ = nobody hs (ground (arith, e, f.how_many))
