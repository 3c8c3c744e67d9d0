-- ===== src/Sync/Cond/Move.antt =====
-- kernel/cond.c with several condition variables: a step on one of them, and the family of queues.
use timix_next.Prelude.{
  ℕ, ◌≡◌, ◌≢◌, refl, sym, ap, ◌∙◌, List, [], ◌∷◌, Bool, Ptr, arith, Bool-cases, inl, inr, update,
  update_self, update_ne, ◌==◌,
}
use timix_next.Queue.View.{has, ◌∈◌, ◌∉◌, apart_sym, ne_of_mem}
use timix_next.Queue.Refine.{without}
use timix_next.Sync.Kernel.{SchedOps, Kernel}
use timix_next.Sync.Cond.Wakeup.{latest_first}
use timix_next.Sync.Cond.Order.{has-latest_first}
use timix_next.Sync.Cond.Frame.{Frame, Frame-Waits}
use timix_next.Sync.Cond.Fifo
use timix_next.Sync.Cond.Family.{Shows}

without_out : (t : Ptr) (ts : List Ptr) → t ∉ ts → without t ts ≡ ts
without_out t [] out = refl
without_out t (u ∷ us) out = ground (arith, out, without_out t us)

out_of_part : (a : Ptr) (us zs : List Ptr) → (a ∈ us → a ∈ zs) → a ∉ zs → a ∉ us
out_of_part a us zs sub out = elim (Bool-cases (has a us)) [
  | inl i ↦ absurd (ne_of_mem zs (sub i) out refl)
  | inr away ↦ away
]

pub others_keep :
    (cv t : Ptr) (w : Ptr → List Ptr) (c : Ptr)
    → (c ≢ cv → t ∉ w c)
    → update w cv (without t (w cv)) c ≡ without t (w c)
others_keep cv t w c out = elim (Bool-cases (c == cv)) [
  | inl here ↦ let e : c ≡ cv = ground (arith, here) in rw e (update_self w cv (without t (w cv)))
  | inr there ↦
      let ne : c ≢ cv = ground (arith, there) in
      update_ne w cv _ ne ∙ sym (without_out t (w c) (out ne))
]

module _ (o : SchedOps) (fuel : ℕ) (cvs : List Ptr) (hard : Ptr → Bool) where
  -- A step on `cv` that touches only the threads `zs`, which wait nowhere else, moves the family.
  pub move :
      (cv : Ptr) (zs ns us : List Ptr) (s s' : Kernel o) (w : Ptr → List Ptr) (p p' : o.State)
      → cv ∈ cvs
      → Shows o fuel cvs hard s (w, p)
      → Fifo.Shows o fuel cv hard s' (us, p')
      → Frame o cv zs ns s s'
      → ((a c : Ptr) → c ∈ cvs → c ≢ cv → a ∈ w c → a ∉ zs)
      → ((a : Ptr) → a ∈ us → a ∈ zs)
      → Shows o fuel cvs hard s' (update w cv us, p')
  move cv zs ns us s s' w p p' i h h' f away sub = record {
    each = λ c ic. elim (Bool-cases (c == cv)) [
      | inl here ↦ let e : c ≡ cv = ground (arith, here) in rw e (rw (update_self w cv us) h')
      | inr there ↦
          let ne : c ≢ cv = ground (arith, there) in
          let old = h.each c ic in
          let same : update w cv us c ≡ w c = update_ne w cv us ne in
          rw same (record {
            waits =
                Frame-Waits o cv c zs ns (latest_first o (w c)) s s' f ne
                  (λ a j. away a c ic ne (sym (has-latest_first o a (w c)) ∙ j)) old.waits;
            free = rw (f.conds c ne) (old.free);
            locks = h'.locks;
            marks = λ a j. rw (f.nodes a (f.within a (away a c ic ne j))) (old.marks a j);
            told = h'.told;
          })
    ];
    apart = λ c d a ic id ne j. elim (Bool-cases (c == cv)) [
      | inl here ↦
          let e : c ≡ cv = ground (arith, here) in
          let d_ne : d ≢ cv = λ x. ne (e ∙ sym x) in
          let at : a ∈ us =
            ap (λ ts. has a ts) (sym (ap (update w cv us) e ∙ update_self w cv us)) ∙ j in
          ap (has a) (update_ne w cv us d_ne)
          ∙ apart_sym a (w d) zs (λ k. away a d id d_ne k) (sub a at)
      | inr there ↦
          let c_ne : c ≢ cv = ground (arith, there) in
          let at : a ∈ w c = ap (has a) (sym (update_ne w cv us c_ne)) ∙ j in
          elim (Bool-cases (d == cv)) [
            | inl hit ↦
                let e : d ≡ cv = ground (arith, hit) in
                ap (has a) (ap (update w cv us) e ∙ update_self w cv us)
                ∙ out_of_part a us zs (sub a) (away a c ic c_ne at)
            | inr miss ↦
                ap (has a) (update_ne w cv us (ground (arith, miss))) ∙ h.apart c d a ic id ne at
          ]
    ];
  }
