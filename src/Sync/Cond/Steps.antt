-- ===== src/Sync/Cond/Steps.antt =====
-- kernel/cond.c: each call on a condition variable against the abstract queue of Sync/Cond/Fifo.
use timix_next.Prelude.{
  ℕ, ◌≡◌, refl, ◌∙◌, ap, List, [], ◌∷◌, ◌++◌, Bool, false, Ptr, arith, Bool-cases, inl, inr, ◌==◌,
}
use timix_next.Prelude.Run.{done}
use timix_next.Queue.View.{◌∈◌, ◌∉◌, has-append, not-mem-append, not-mem-cons}
use timix_next.Sync.Kernel.{SchedOps, Kernel}
use timix_next.Sync.Cond.{asleep, cond_sleep, cond_signal, cond_broadcast}
use timix_next.Sync.Free.{MutexFree}
use timix_next.Sync.Cond.Wakeup.{unblock_all, latest_first}
use timix_next.Sync.Cond.Signal.{Woke, oldest, others, cond_signal-Woke, cond_broadcast-Woke}
use timix_next.Sync.Cond.Block.{Willing, blocked, cond_sleep-asleep}
use timix_next.Sync.Cond.Order.{latest_first-append, has-latest_first}
use timix_next.Sync.Cond.Frame.{Frame}
use timix_next.Sync.Cond.Fifo.{wait, signal, broadcast, exec, View, spec, Allowed, Shows, Ends}

module _ (o : SchedOps) (fuel : ℕ) (cv : Ptr) (hard : Ptr → Bool) where
  pub cond_sleep-Shows :
      Willing o
      → (t mp : Ptr) (s : Kernel o) (v : View o fuel cv hard) → Shows o fuel cv hard s v
      → Allowed o fuel cv hard (wait t mp) v
      → (s' : Kernel o) × (cond_sleep o t cv mp (hard t) s ≡ done (asleep, s'))
        × Shows o fuel cv hard s' (spec o fuel cv hard (wait t mp) v)
        × MutexFree o mp s'
        × Frame o cv (v.0 ++ t ∷ []) (t ∷ []) s s'
        × ((s'.nodes t).flags ≡ record { interrupted = false; uninterruptable = hard t })
  cond_sleep-Shows willing t mp s (ts, p) h (ne, out) =
      let out' : t ∉ latest_first o ts = has-latest_first o t ts ∙ out in
      let (s', ran, w, free, m_free, at, flags, back, same, told, conds, links) =
        cond_sleep-asleep o willing t cv mp (hard t) s (latest_first o ts) ne out' h.waits
          (h.locks t) h.free in
      (
        s',
        ran,
        record {
          waits = rw (latest_first-append o ts (t ∷ [])) w;
          free = free;
          locks = λ a. elim (Bool-cases (a == t)) [
            | inl here ↦ let e : a ≡ t = ground (arith, here) in rw e back
            | inr there ↦ rw (same a (ground (arith, there))) (h.locks a)
          ];
          marks = λ a i. elim (Bool-cases (a == t)) [
            | inl here ↦
                let e : a ≡ t = ground (arith, here) in rw e (at, ap (λ f. f.uninterruptable) flags)
            | inr there ↦
                rw (same a (ground (arith, there)))
                  (h.marks a (ground (arith, i, there, has-append a ts (t ∷ []))))
          ];
          told = told ∙ ap (blocked o t (hard t)) h.told;
        },
        m_free,
        record {
          conds = conds;
          links = λ a away.
              let (before, other) = not-mem-append a ts (t ∷ []) away in
              links a (ground (arith, before, other, has-latest_first o a ts));
          nodes = λ a away. same a (not-mem-cons a t [] away).0;
          within = λ a away. (not-mem-append a ts (t ∷ []) away).1;
        },
        flags,
      )

  pub wait-Shows :
      Willing o
      → (t mp : Ptr) (s : Kernel o) (v : View o fuel cv hard) → Shows o fuel cv hard s v
      → Allowed o fuel cv hard (wait t mp) v
      → Ends o fuel cv hard (wait t mp) s v
  unfolding exec
  wait-Shows willing t mp s v h ok =
      let (s', ran, h', _, _, _) = cond_sleep-Shows willing t mp s v h ok in (s', rw ran refl, h')

  -- What a wake-up of `ts` leaves, where `us` remain.
  Woke-Shows :
      (ts us : List Ptr) (s s' : Kernel o) (v : View o fuel cv hard)
      → Shows o fuel cv hard s v
      → Woke o cv ts (latest_first o us) s s'
      → ((a : Ptr) → a ∈ us → a ∈ v.0)
      → Shows o fuel cv hard s' (us, unblock_all o ts v.1)
  Woke-Shows ts us s s' v h woke sub = record {
    waits = woke.waits;
    free = woke.free;
    locks = rw (woke.nodes) h.locks;
    marks = λ a i. rw (woke.nodes) (h.marks a (sub a i));
    told = woke.told ∙ ap (unblock_all o ts) h.told;
  }

  -- A wake-up touches none but those that waited.
  Woke-Frame :
      (ts us zs : List Ptr) (s s' : Kernel o)
      → Woke o cv ts (latest_first o us) s s'
      → ((a : Ptr) → a ∉ zs → a ∉ (latest_first o us ++ latest_first o ts))
      → Frame o cv zs [] s s'
  Woke-Frame ts us zs s s' woke sub = record {
    conds = woke.conds;
    links = λ a away. woke.links a (sub a away);
    nodes = λ a away. ap (λ f. f a) woke.nodes;
    within = λ a away. refl;
  }

  parts_out :
      (ts : List Ptr) (a : Ptr)
      → a ∉ ts
      → a ∉ (latest_first o (others o ts) ++ latest_first o (oldest o ts))
  parts_out [] a out = out
  parts_out (t ∷ ts) a out = has-latest_first o a (t ∷ ts) ∙ out

  pub others_sub : (ts : List Ptr) (a : Ptr) → a ∈ others o ts → a ∈ ts
  others_sub [] a i = i
  others_sub (t ∷ ts) a i = ground (arith, i)

  pub cond_signal-Shows :
      (s : Kernel o) (v : View o fuel cv hard)
      → Shows o fuel cv hard s v
      → (s' : Kernel o) × (cond_signal o cv s ≡ done s')
        × Shows o fuel cv hard s' (spec o fuel cv hard signal v)
        × Frame o cv v.0 [] s s'
  cond_signal-Shows s (ts, p) h =
      let (s', ran, woke) = cond_signal-Woke o cv s ts h.waits h.free in
      (
        s',
        ran,
        Woke-Shows (oldest o ts) (others o ts) s s' (ts, p) h woke (others_sub ts),
        Woke-Frame (oldest o ts) (others o ts) ts s s' woke (parts_out ts),
      )

  pub signal-Shows :
      (s : Kernel o) (v : View o fuel cv hard)
      → Shows o fuel cv hard s v
      → Ends o fuel cv hard signal s v
  unfolding exec
  signal-Shows s v h = let (s', ran, h', _) = cond_signal-Shows s v h in (s', ran, h')

  pub cond_broadcast-Shows :
      (s : Kernel o) (v : View o fuel cv hard)
      → Shows o fuel cv hard s v
      → Allowed o fuel cv hard broadcast v
      → (s' : Kernel o) × (cond_broadcast o fuel cv s ≡ done s')
        × Shows o fuel cv hard s' (spec o fuel cv hard broadcast v)
        × Frame o cv v.0 [] s s'
  cond_broadcast-Shows s (ts, p) h enough =
      let (s', ran, woke) = cond_broadcast-Woke o fuel cv s ts h.waits h.free enough in
      (
        s',
        ran,
        Woke-Shows ts [] s s' (ts, p) h woke (λ a i. cc),
        Woke-Frame ts [] ts s s' woke (λ a out. has-latest_first o a ts ∙ out),
      )

  pub broadcast-Shows :
      (s : Kernel o) (v : View o fuel cv hard)
      → Shows o fuel cv hard s v
      → Allowed o fuel cv hard broadcast v
      → Ends o fuel cv hard broadcast s v
  unfolding exec
  broadcast-Shows s v h enough =
      let (s', ran, h', _) = cond_broadcast-Shows s v h enough in (s', ran, h')
