-- ===== src/Sync/Rwlock/Alert.antt =====
-- kernel/rwlock.c, the abstract lock without interrupts: who waits and does not sleep may run.
use timix_next.Prelude.{
  ℕ, ◌≡◌, ◌≢◌, sym, List, [], ◌∷◌, ◌++◌, Bool, true, false, Ptr, arith, Bool-cases, inl, inr,
  update_self, update_ne, ◌==◌,
}
use timix_next.Queue.View.{◌∈◌, ◌∉◌, mem_here, ne_of_mem, not-mem-append}
use timix_next.Sync.Kernel.{SchedOps}
use timix_next.Sync.Cond.Wakeup.{unblock_all}
use timix_next.Sync.Cond.Signal.{oldest, others}
use timix_next.Sync.Cond.Block.{blocked}
use timix_next.Sync.Rwlock.{Access, for_read, for_write}
use timix_next.Sync.Rwlock.Model.{doze}
use timix_next.Sync.Rwlock.Ready.{W}

module _ (o : SchedOps) where
  -- `runs t p` says that the scheduler in state `p` lets `t` run. A thread that is unblocked runs, and
  -- goes on until it is blocked itself.
  pub record IsRuns (runs : Ptr → o.State → Bool) : Type 0 where
    pub woken : (t : Ptr) (p : o.State) → runs t (o.unblock_tcb t p) ≡ true
    pub unblock_keeps :
        (t u : Ptr) (p : o.State) → runs u p ≡ true → runs u (o.unblock_tcb t p) ≡ true
    pub lock_keeps : (u : Ptr) (p : o.State) → runs u p ≡ true → runs u (o.lock_scheduler p) ≡ true
    pub yield_keeps :
        (u : Ptr) (p : o.State) → runs u p ≡ true → runs u (o.unlock_scheduler_and_yield p) ≡ true
    pub force_keeps :
        (t u : Ptr) (p : o.State)
        → u ≢ t
        → runs u p ≡ true
        → runs u (o.force_set_blocked t p) ≡ true
    pub block_keeps :
        (t u : Ptr) (p : o.State) → u ≢ t → runs u p ≡ true → runs u (o.set_blocked t p).1 ≡ true

  module _ (runs : Ptr → o.State → Bool) (law : IsRuns runs) where
    blocked_keeps :
        (t u : Ptr) (firm : Bool) (p : o.State)
        → u ≢ t
        → runs u p ≡ true
        → runs u (blocked o t firm p) ≡ true
    blocked_keeps t u true p ne e =
        law.yield_keeps u _ (law.force_keeps t u _ ne (law.lock_keeps u p e))
    blocked_keeps t u false p ne e =
        law.yield_keeps u _ (law.block_keeps t u _ ne (law.lock_keeps u p e))

    pub unblock_all_keeps :
        (ts : List Ptr) (u : Ptr) (p : o.State)
        → runs u p ≡ true
        → runs u (unblock_all o ts p) ≡ true
    unblock_all_keeps [] u p e = e
    unblock_all_keeps (t ∷ ts) u p e =
        unblock_all_keeps ts u (o.unblock_tcb t p) (law.unblock_keeps t u p e)

    pub unblock_all_wakes :
        (ts : List Ptr) (u : Ptr) (p : o.State) → u ∈ ts → runs u (unblock_all o ts p) ≡ true
    unblock_all_wakes [] u p i = cc
    unblock_all_wakes (t ∷ ts) u p i = elim (Bool-cases (u == t)) [
      | inl here ↦
          let e : u ≡ t = ground (arith, here) in
          rw e (unblock_all_keeps ts t (o.unblock_tcb t p) (law.woken t p))
      | inr there ↦ unblock_all_wakes ts u (o.unblock_tcb t p) (ground (arith, i, there))
    ]

    -- A thread of the list that is not among the others is the oldest.
    pub oldest_wakes :
        (ts : List Ptr) (u : Ptr) (p : o.State)
        → u ∈ ts
        → u ∉ others o ts
        → runs u (unblock_all o (oldest o ts) p) ≡ true
    oldest_wakes [] u p i out = cc
    oldest_wakes (t ∷ ts) u p i out = unblock_all_wakes (t ∷ []) u p (ground (arith, i, out))

    module _ (fuel : ℕ) (readers writers : Ptr) (hard : Ptr → Bool)
        (apart : readers ≢ writers) where
      abbrev V : Type 0
      V = W o fuel readers writers hard apart

      -- Who waits and sleeps on neither condition variable may run, `t` perhaps excepted.
      abbrev pub AlertBut : Ptr → V → Type 0
      AlertBut t v =
          (u : Ptr)
          → u ≢ t
          → u ∈ v.queue
          → u ∉ v.sleeping readers
          → u ∉ v.sleeping writers
          → runs u v.sched ≡ true

      abbrev pub Alert : V → Type 0
      Alert v =
          (u : Ptr)
          → u ∈ v.queue
          → u ∉ v.sleeping readers
          → u ∉ v.sleeping writers
          → runs u v.sched ≡ true

      pub doze-Alert :
          (t : Ptr) (a : Access) (v : V)
          → AlertBut t v
          → Alert (doze o fuel readers writers hard t a v)
      doze-Alert t for_read v h u i r w =
          let both =
            not-mem-append u (v.sleeping readers) (t ∷ [])
              (rw (update_self v.sleeping readers (v.sleeping readers ++ t ∷ [])) at r) in
          let w' =
            rw (update_ne v.sleeping readers (v.sleeping readers ++ t ∷ []) (λ e. apart (sym e))) at
              w in
          let ne : u ≢ t = ne_of_mem (u ∷ []) (mem_here u []) (ground (arith, both.1)) in
          blocked_keeps t u (hard t) v.sched ne (h u ne i both.0 w')
      doze-Alert t for_write v h u i r w =
          let both =
            not-mem-append u (v.sleeping writers) (t ∷ [])
              (rw (update_self v.sleeping writers (v.sleeping writers ++ t ∷ [])) at w) in
          let r' = rw (update_ne v.sleeping writers (v.sleeping writers ++ t ∷ []) apart) at r in
          let ne : u ≢ t = ne_of_mem (u ∷ []) (mem_here u []) (ground (arith, both.1)) in
          blocked_keeps t u (hard t) v.sched ne (h u ne i r' both.0)
