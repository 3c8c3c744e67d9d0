-- ===== src/Sync/Cond/Order.antt =====
-- The order in which threads stand in the queue of a condition variable of kernel/cond.c.
use timix_next.Prelude.{◌+◌, ◌≡◌, refl, sym, ◌∙◌, List, [], ◌∷◌, ◌++◌, Ptr, arith, length}
use mathlib.Core.List.{append-nil, append_assoc}
use timix_next.Queue.View.{
  has, ◌∈◌, ◌∉◌, has-append, Distinct, Distinct-cut, apart_sym, mem_here, not-mem_both,
}
use timix_next.Queue.Refine.{without}
use timix_next.Sync.Kernel.{SchedOps}
use timix_next.Sync.Cond.Wakeup.{latest_first}

pub length-append : (xs ys : List Ptr) → length (xs ++ ys) ≡ length xs + length ys
length-append [] ys = omega arith
length-append (x ∷ xs) ys = omega (arith, length-append xs ys)

module _ (o : SchedOps) where
  pub latest_first-append :
      (ts us : List Ptr) → latest_first o (ts ++ us) ≡ latest_first o us ++ latest_first o ts
  latest_first-append [] us = sym (append-nil _)
  latest_first-append (t ∷ ts) us =
      rw (latest_first-append ts us) (append_assoc (latest_first o us) (latest_first o ts) (t ∷ []))

  pub has-latest_first : (a : Ptr) (ts : List Ptr) → has a (latest_first o ts) ≡ has a ts
  has-latest_first a [] = refl
  has-latest_first a (t ∷ ts) =
      ground (arith, has-append a (latest_first o ts) (t ∷ []), has-latest_first a ts)

  pub length-latest_first : (ts : List Ptr) → length (latest_first o ts) ≡ length ts
  length-latest_first [] = refl
  length-latest_first (t ∷ ts) =
      length-append (latest_first o ts) (t ∷ []) ∙ omega (arith, length-latest_first ts)

-- Who is left was there before.
pub has-without : (a t : Ptr) (ts : List Ptr) → a ∈ without t ts → a ∈ ts
has-without a t [] i = i
has-without a t (u ∷ us) i = ground (arith, i, has-without a t us)

module _ (o : SchedOps) where
  -- A thread that stands in the queue stands there once.
  pub gone :
      (bs cs : List Ptr) (t : Ptr)
      → Distinct (latest_first o cs ++ t ∷ latest_first o bs)
      → t ∉ (bs ++ cs)
  gone bs cs t d =
      let (_, (out, _), apart) = Distinct-cut (latest_first o cs) (t ∷ latest_first o bs) d in
      let out' = apart_sym t (latest_first o cs) (t ∷ latest_first o bs) (apart t) (mem_here t _) in
      not-mem_both t bs cs (sym (has-latest_first o t bs) ∙ out)
        (sym (has-latest_first o t cs) ∙ out')
