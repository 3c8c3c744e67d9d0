-- ===== src/Sync/Cond/Wakeup.antt =====
-- kernel/cond.c, `do_cond_signal_unsafe` and the loop of `cond_broadcast`: who is taken off the queue.
use timix_next.Prelude.{
  ℕ, zero, suc, ◌<◌, ◌≡◌, ◌≢◌, refl, ap, ◌∙◌, List, [], ◌∷◌, ◌++◌, Option, none, some, Ptr, null,
  arith, update, update_self, update_ne, eqb_false, length,
}
use timix_next.Prelude.Run.{done}
use mathlib.Core.List.{append-nil}
use timix_next.Queue
use timix_next.Queue.Memory.{Head, Links}
use timix_next.Queue.View.{
  IsQueue, SameOutside, last-append, ne-null_of_mem, mem_here, ◌∈◌, has-append, Distinct-cut,
  apart_sym, not-mem-append, not-mem-cons,
}
use timix_next.Queue.Remove.{remove_lem}
use timix_next.Queue.Refine.{init_elem-IsQueue}
use timix_next.Sync.Mutex.{unlocked}
use timix_next.Sync.Kernel.{SchedOps, Kernel}
use timix_next.Sync.Cond.{cond_q_pop, do_cond_signal_unsafe, signal_all}

module _ (o : SchedOps) where
  -- The threads `xs` wait on `cv`, the latest first, and nobody holds the queue's lock.
  pub record Waits (cv : Ptr) (s : Kernel o) (xs : List Ptr) : Type 0 where
    pub queue : IsQueue (s.conds cv).waiting s.links xs
    pub own : (a : Ptr) → a ∈ xs → (s.nodes a).tcb ≡ a

  abbrev pub IsFree : Ptr → Kernel o → Type 0
  IsFree cv s = (s.conds cv).q_lock.owner ≡ unlocked

  module _ (cv : Ptr) (s : Kernel o) (xs : List Ptr) (t : Ptr) where
    tail_is :
        IsQueue (s.conds cv).waiting s.links (xs ++ t ∷ [])
        → Queue.get_tail (s.conds cv).waiting ≡ t
    unfolding Queue.get_tail
    tail_is is = is.back ∙ last-append null xs (t ∷ [])

    tail_ne : IsQueue (s.conds cv).waiting s.links (xs ++ t ∷ []) → t ≢ null
    tail_ne is =
        ne-null_of_mem s.links null t (xs ++ t ∷ []) null is.chain
          (ground (arith, has-append t xs (t ∷ [])))

    -- The state after the oldest thread has been taken out.
    abbrev pub popped : Kernel o
    popped =
        let (q, l) = Queue.remove (s.conds cv).waiting t s.links in
        record s {
          conds = update s.conds cv (record (s.conds cv) { waiting = q });
          links = Queue.init_elem t l;
        }

    pub cond_q_pop-last :
        IsQueue (s.conds cv).waiting s.links (xs ++ t ∷ [])
        → cond_q_pop o cv s ≡ (some (s.nodes t).tcb, popped)
    unfolding cond_q_pop
    cond_q_pop-last is = rw (tail_is is, eqb_false (tail_ne is))

    pub popped-IsQueue :
        IsQueue (s.conds cv).waiting s.links (xs ++ t ∷ [])
        → IsQueue (popped.conds cv).waiting popped.links xs
    popped-IsQueue is =
        let (q, l) = Queue.remove (s.conds cv).waiting t s.links in
        let (left, _, _, _) = remove_lem (s.conds cv).waiting s.links t xs [] is in
        let (_, _, apart) = Distinct-cut xs (t ∷ []) is.distinct in
        rw update_self (
          init_elem-IsQueue q l t xs (rw append-nil at left)
            (apart_sym t xs (t ∷ []) (apart t) (mem_here t [])))

    -- The links of other threads are kept.
    popped-SameOutside :
        IsQueue (s.conds cv).waiting s.links (xs ++ t ∷ [])
        → SameOutside (xs ++ t ∷ []) s.links popped.links
    unfolding Queue.init_elem
    popped-SameOutside is a o =
        let (_, _, _, same) = remove_lem (s.conds cv).waiting s.links t xs [] is in
        let ne = (not-mem-cons a t [] (not-mem-append a xs (t ∷ []) o).1).0 in
        (update_ne _ _ _ ne ∙ (same a o).0, update_ne _ _ _ ne ∙ (same a o).1)

  -- The scheduler after it has been told of the threads `ts`, the first one first.
  abbrev pub unblock_all : List Ptr → o.State → o.State
  unblock_all [] p = p
  unblock_all (t ∷ ts) p = unblock_all ts (o.unblock_tcb t p)

  -- One round, under the queue's lock: `who` is the lock's owner.
  pub record Took (cv : Ptr) (t : Ptr) (xs : List Ptr) (s s' : Kernel o) : Type 0 where
    pub waits : Waits cv s' xs
    pub told : s'.sched ≡ o.unblock_tcb t s.sched
    pub nodes : s'.nodes ≡ s.nodes
    pub mutexes : s'.mutexes ≡ s.mutexes
    pub owner : (s'.conds cv).q_lock ≡ (s.conds cv).q_lock
    pub conds : (c : Ptr) → c ≢ cv → s'.conds c ≡ s.conds c
    pub links : SameOutside (xs ++ t ∷ []) s.links s'.links

  -- A queue that `ts` have entered in this order.
  abbrev pub latest_first : List Ptr → List Ptr
  latest_first [] = []
  latest_first (t ∷ ts) = latest_first ts ++ t ∷ []

  pub record Emptied (cv : Ptr) (ts : List Ptr) (s s' : Kernel o) : Type 0 where
    pub waits : Waits cv s' []
    pub told : s'.sched ≡ unblock_all ts s.sched
    pub nodes : s'.nodes ≡ s.nodes
    pub mutexes : s'.mutexes ≡ s.mutexes
    pub owner : (s'.conds cv).q_lock ≡ (s.conds cv).q_lock
    pub conds : (c : Ptr) → c ≢ cv → s'.conds c ≡ s.conds c
    pub links : SameOutside (latest_first ts) s.links s'.links

  -- What `do_cond_signal_unsafe` does with the popped thread.
  abbrev tell : Option Ptr × Kernel o → Kernel o
  tell (popped, s1) = elim popped [
    | none ↦ s1
    | some t ↦ record s1 { sched = o.unblock_tcb t s1.sched }
  ]

  do_cond_signal_unsafe-last :
      (cv : Ptr) (s : Kernel o) (xs : List Ptr) (t : Ptr)
      → IsQueue (s.conds cv).waiting s.links (xs ++ t ∷ [])
      → do_cond_signal_unsafe o cv s
        ≡ record (popped cv s xs t) { sched = o.unblock_tcb (s.nodes t).tcb s.sched }
  unfolding do_cond_signal_unsafe
  do_cond_signal_unsafe-last cv s xs t is = ap tell (cond_q_pop-last cv s xs t is)

  pub do_cond_signal_unsafe-Took :
      (cv : Ptr) (s : Kernel o) (xs : List Ptr) (t : Ptr)
      → Waits cv s (xs ++ t ∷ [])
      → Took cv t xs s (do_cond_signal_unsafe o cv s)
  do_cond_signal_unsafe-Took cv s xs t w =
      rw (do_cond_signal_unsafe-last cv s xs t w.queue) (record {
        waits = record {
          queue = popped-IsQueue cv s xs t w.queue;
          own = λ a i. w.own a (ground (arith, i, has-append a xs (t ∷ [])));
        };
        told = rw (w.own t (ground (arith, has-append t xs (t ∷ []))));
        nodes = refl;
        mutexes = refl;
        owner = rw update_self;
        conds = λ c other. update_ne _ _ _ other;
        links = popped-SameOutside cv s xs t w.queue;
      })

  cond_q_pop_empty :
      (cv : Ptr) (s : Kernel o)
      → IsQueue (s.conds cv).waiting s.links []
      → cond_q_pop o cv s ≡ (none, s)
  unfolding cond_q_pop Queue.get_tail
  cond_q_pop_empty cv s is = rw (cond_q_pop, is.back)

  pub do_cond_signal_unsafe_empty :
      (cv : Ptr) (s : Kernel o)
      → IsQueue (s.conds cv).waiting s.links []
      → do_cond_signal_unsafe o cv s ≡ s
  unfolding do_cond_signal_unsafe
  do_cond_signal_unsafe_empty cv s is = ap tell (cond_q_pop_empty cv s is)

  front_ne :
      (q : Head) (l : Links) (xs : List Ptr) (t : Ptr)
      → IsQueue q l (xs ++ t ∷ [])
      → Queue.get_front q ≢ null
  unfolding Queue.get_front
  front_ne q l [] t is = rw (is.front) (is.chain.0)
  front_ne q l (x ∷ xs) t is = rw (is.front) (is.chain.0)

  pub signal_all_lem :
      (ts : List Ptr) (fuel : ℕ) (cv : Ptr) (s : Kernel o)
      → Waits cv s (latest_first ts)
      → length ts < fuel
      → (s' : Kernel o) × (signal_all o fuel cv s ≡ done s') × Emptied cv ts s s'
  unfolding signal_all Queue.get_front
  signal_all_lem ts zero cv s w enough = ground (arith, enough)
  signal_all_lem [] (suc k) cv s w enough = (
    s,
    rw (w.queue.front) refl,
    record {
      waits = w;
      told = refl;
      nodes = refl;
      mutexes = refl;
      owner = refl;
      conds = λ c other. refl;
      links = λ a o. (refl, refl);
    },
  )
  signal_all_lem (t ∷ ts) (suc k) cv s w enough =
      let one = do_cond_signal_unsafe-Took cv s (latest_first ts) t w in
      let (s', ran, all) =
        signal_all_lem ts k cv (do_cond_signal_unsafe o cv s) one.waits (omega (arith, enough)) in
      (
        s',
        rw (eqb_false (front_ne _ _ (latest_first ts) t w.queue)) ran,
        record {
          waits = all.waits;
          told = all.told ∙ ap (unblock_all ts) one.told;
          nodes = all.nodes ∙ one.nodes;
          mutexes = all.mutexes ∙ one.mutexes;
          owner = all.owner ∙ one.owner;
          conds = λ c other. all.conds c other ∙ one.conds c other;
          links = λ a o.
              let (out, _) = not-mem-append a (latest_first ts) (t ∷ []) o in
              ((all.links a out).0 ∙ (one.links a o).0, (all.links a out).1 ∙ (one.links a o).1);
        },
      )
