-- ===== src/Sync/Cond/Served.antt =====
-- kernel/cond.c: a thread that waits is woken by one of the calls, if there are enough of them.
use timix_next.Prelude.{
  ℕ, suc, ◌<◌, ◌≤◌, ◌≡◌, ◌≢◌, refl, sym, ◌∙◌, ap, List, [], ◌∷◌, ◌++◌, Bool, false, Ptr, null,
  arith, Bool-cases, inl, inr, length, ◌==◌,
}
use timix_next.Prelude.Run.{done}
use mathlib.Core.List.{append_assoc}
use timix_next.Queue.View.{◌∈◌, has-append, mem_here}
use timix_next.Queue.Refine.{without}
use timix_next.Sync.Kernel.{SchedOps, Kernel}
use timix_next.Sync.Cond.Wakeup.{unblock_all}
use timix_next.Sync.Cond.Signal.{oldest}
use timix_next.Sync.Cond.Block.{Willing, blocked}
use timix_next.Sync.Cond.Fifo.{
  Call, wait, signal, broadcast, interrupt, exec, exec_all, View, spec, spec_all, Allowed,
  AllAllowed, Shows,
}
use timix_next.Sync.Cond.Refine.{exec-Shows, exec_all-Shows}

-- How many calls wake somebody who waits.
abbrev pub wakeups : List Call → ℕ
wakeups [] = 0
wakeups (wait t mp ∷ cs) = wakeups cs
wakeups (signal ∷ cs) = suc (wakeups cs)
wakeups (broadcast ∷ cs) = suc (wakeups cs)
wakeups (interrupt t ∷ cs) = wakeups cs

-- Taking somebody else out does not move a thread back.
Kept : Ptr → List Ptr → List Ptr → Type 0
Kept t bs ts = (bs' cs' : List Ptr) × (ts ≡ bs' ++ t ∷ cs') × (length bs' ≤ length bs)

without-Kept :
    (u t : Ptr) (bs cs : List Ptr) → (u == t) ≡ false → Kept t bs (without u (bs ++ t ∷ cs))
unfolding Kept
without-Kept u t [] cs ne = ([], without u cs, rw ne refl, omega arith)
without-Kept u t (b ∷ bs) cs ne = elim (Bool-cases (u == b)) [
  | inl same ↦ rw same (bs, cs, refl, omega arith)
  | inr other ↦
      let (bs', cs', at, shorter) = without-Kept u t bs cs ne in
      rw other (b ∷ bs', cs', ap (λ zs. b ∷ zs) at, omega (arith, shorter))
]

module _ (o : SchedOps) (fuel : ℕ) (cv : Ptr) (hard : Ptr → Bool) where
  -- The call tells the scheduler to unblock `t`, where `ts` wait.
  abbrev pub Wakes : Ptr → Call → List Ptr → Type 0
  Wakes t (wait u mp) ts = ⊥
  Wakes t signal ts = oldest o ts ≡ t ∷ []
  Wakes t broadcast ts = t ∈ ts
  Wakes t (interrupt u) ts = (u ≡ t) × (hard t ≡ false)

  -- One of the calls wakes `t`.
  Served : Ptr → List Call → View o fuel cv hard → Type 0
  Served t calls v =
      (before : List Call) × (c : Call) × (after : List Call) × (calls ≡ before ++ c ∷ after)
      × Wakes t c (spec_all o fuel cv hard before v).0

  AllAllowed-front :
      (before after : List Call) (v : View o fuel cv hard)
      → AllAllowed o fuel cv hard (before ++ after) v
      → AllAllowed o fuel cv hard before v
  AllAllowed-front [] after v ok = tt
  AllAllowed-front (c ∷ cs) after v ok =
      (ok.0, AllAllowed-front cs after (spec o fuel cv hard c v) ok.1)

  AllAllowed-middle :
      (before : List Call) (c : Call) (after : List Call) (v : View o fuel cv hard)
      → AllAllowed o fuel cv hard (before ++ c ∷ after) v
      → Allowed o fuel cv hard c (spec_all o fuel cv hard before v)
  AllAllowed-middle [] c after v ok = ok.0
  AllAllowed-middle (d ∷ ds) c after v ok =
      AllAllowed-middle ds c after (spec o fuel cv hard d v) ok.1

  later :
      (t : Ptr) (c : Call) (calls : List Call) (v : View o fuel cv hard)
      → Served t calls (spec o fuel cv hard c v)
      → Served t (c ∷ calls) v
  unfolding Served
  later t c calls v (before, d, after, parts, wakes) =
      (c ∷ before, d, after, ap (λ cs. c ∷ cs) parts, wakes)

  served :
      (t : Ptr) (calls : List Call) (bs cs : List Ptr) (p : o.State)
      → length bs < wakeups calls
      → Served t calls (bs ++ t ∷ cs, p)
  unfolding Served Kept
  served t [] bs cs p h = ground (arith, h)
  served t (wait u mp ∷ calls) bs cs p h =
      later t (wait u mp) calls (bs ++ t ∷ cs, p)
        (rw (append_assoc bs (t ∷ cs) (u ∷ []))
          (served t calls bs (cs ++ u ∷ []) (blocked o u (hard u) p) (ground (arith, h))))
  served t (signal ∷ calls) [] cs p h = ([], signal, calls, refl, refl)
  served t (signal ∷ calls) (b ∷ bs) cs p h =
      later t signal calls _ (served t calls bs cs _ (omega (arith, h)))
  served t (broadcast ∷ calls) bs cs p h =
      ([], broadcast, calls, refl, ground (arith, has-append t bs (t ∷ cs)))
  served t (interrupt u ∷ calls) bs cs p h = elim (Bool-cases (hard u)) [
    | inl firm ↦
        later t (interrupt u) calls (bs ++ t ∷ cs, p)
          (rw firm (served t calls bs cs p (ground (arith, h))))
    | inr soft ↦ elim (Bool-cases (u == t)) [
      | inl same ↦
          let e : u ≡ t = ground (arith, same) in
          ([], interrupt u, calls, refl, (e, rw (sym e) soft))
      | inr other ↦
          let (bs', cs', at, shorter) = without-Kept u t bs cs other in
          later t (interrupt u) calls (bs ++ t ∷ cs, p)
            (rw (soft, at)
              (served t calls bs' cs' (o.unblock_tcb u p) (ground (arith, h, shorter))))
    ]
  ]

  -- Between `s` and `s'` the scheduler is told to unblock some threads, and `t` is one of them.
  pub record Unblocked (t : Ptr) (s s' : Kernel o) : Type 0 where
    pub woken : List Ptr
    pub among : t ∈ woken
    pub told : s'.sched ≡ unblock_all o woken s.sched

  -- The call that wakes `t` in the abstract queue tells the scheduler so.
  Wakes-Unblocked :
      (t : Ptr) (c : Call) (v : View o fuel cv hard) (s s' : Kernel o)
      → Shows o fuel cv hard s v
      → Shows o fuel cv hard s' (spec o fuel cv hard c v)
      → Wakes t c v.0
      → Unblocked t s s'
  Wakes-Unblocked t (wait u mp) v s s' h h' w = elim w [ ]
  Wakes-Unblocked t signal v s s' h h' w = record {
    woken = t ∷ [];
    among = mem_here t [];
    told = h'.told ∙ ap (λ ts. unblock_all o ts v.1) w ∙ ap (unblock_all o (t ∷ [])) (sym h.told);
  }
  Wakes-Unblocked t broadcast v s s' h h' w = record {
    woken = v.0;
    among = w;
    told = h'.told ∙ ap (unblock_all o v.0) (sym h.told);
  }
  Wakes-Unblocked t (interrupt u) v s s' h h' (same, soft) =
      let soft_u : hard u ≡ false = ap hard same ∙ soft in
      let told : s'.sched ≡ o.unblock_tcb u v.1 = rw soft_u at (h'.told) in
      record {
        woken = u ∷ [];
        among = rw same (mem_here t []);
        told = told ∙ ap (o.unblock_tcb u) (sym h.told);
      }

  -- A thread that waits on a free condition variable behind the threads `bs` is woken, if more
  -- signals and broadcasts follow than threads stand before it, whatever other threads come to wait
  -- or are interrupted meanwhile: one of the calls, made in the state `s'` that the calls before it
  -- have left, runs to its end and tells the scheduler to unblock the thread. The scheduler does not
  -- refuse to block, `cv` is not `NULL`, a thread that comes to wait is not `NULL` and does not wait
  -- yet, one that is interrupted waits, and the fuel is more than the threads that wait when the
  -- queue is walked.
  pub exec_all-Wakes :
      (t : Ptr) (calls : List Call) (s : Kernel o) (bs cs : List Ptr) (p : o.State)
      → Willing o
      → cv ≢ null
      → Shows o fuel cv hard s (bs ++ t ∷ cs, p)
      → AllAllowed o fuel cv hard calls (bs ++ t ∷ cs, p)
      → length bs < wakeups calls
      → (before : List Call) × (c : Call) × (after : List Call) × (s' s'' : Kernel o) × (calls
          ≡ before ++ c ∷ after)
        × (exec_all o fuel cv hard before s ≡ done s')
        × (exec o fuel cv hard c s' ≡ done s'')
        × Unblocked t s' s''
  unfolding Served
  exec_all-Wakes t calls s bs cs p willing ne h ok enough =
      let v : View o fuel cv hard = (bs ++ t ∷ cs, p) in
      let (before, c, after, parts, wakes) = served t calls bs cs p enough in
      let ok' : AllAllowed o fuel cv hard (before ++ c ∷ after) v = rw parts at ok in
      let (s', ran, h') =
        exec_all-Shows o fuel cv hard willing ne before s v h
          (AllAllowed-front before (c ∷ after) v ok') in
      let (s'', ran', h'') =
        exec-Shows o fuel cv hard willing ne c s' (spec_all o fuel cv hard before v) h'
          (AllAllowed-middle before c after v ok') in
      (
        before,
        c,
        after,
        s',
        s'',
        parts,
        ran,
        ran',
        Wakes-Unblocked t c (spec_all o fuel cv hard before v) s' s'' h' h'' wakes,
      )
