-- ===== src/Sync/Rwlock/Resume.antt =====
-- kernel/rwlock.c, `do_rwlock_lock` from a wake-up, as the abstract lock says.
use timix_next.Prelude.{
  ℕ, ◌<◌, ◌≡◌, ◌≢◌, refl, sym, ◌∙◌, Bool, true, false, Ptr, arith, length, Bool-cases, inl, inr,
  ◌==◌, if◌then◌else◌,
}
use timix_next.Prelude.Int.{pos}
use timix_next.Prelude.Run.{done, assert}
use timix_next.Prelude.Errno.{minus_eintr}
use timix_next.Queue.View.{◌∈◌, ne_of_mem}
use timix_next.Sync.Mutex.{unlocked}
use timix_next.Sync.Kernel.{SchedOps, Kernel}
use timix_next.Sync.Cond.{returned, cond_wake, cond_wake_uninterruptable}
use timix_next.Sync.Cond.Block.{Willing}
use timix_next.Sync.Cond.Order.{has-latest_first, has-without}
use timix_next.Sync.Cond.Resume.{cond_wake_lem}
use timix_next.Sync.Cond.Family.{Awake}
use timix_next.Sync.Rwlock.{Access, give_up, lock_resume}
use timix_next.Sync.Rwlock.Model.{resume, exec, cvs, leave, spec, Allowed}
use timix_next.Sync.Rwlock.Hold.{
  V, Mem, real, Inside, Marked, Stands, removed, must_remove_lem, removed-Inside, without_gone,
}
use timix_next.Sync.Rwlock.Loop.{Tried, released, released-Stands, loop-Tried}

module _ (o : SchedOps) (fuel : ℕ) (mp readers writers : Ptr) (hard : Ptr → Bool) where
  -- What the wait answers: for a thread that may not be interrupted it is 0, as asserted.
  woke_up :
      (t : Ptr) (k k' : Kernel o) (hit : Bool)
      → cond_wake o t mp k ≡ done (if hit then minus_eintr else pos 0, k')
      → (hard t ≡ true → hit ≡ false)
      → (if hard t then cond_wake_uninterruptable o t mp k else cond_wake o t mp k)
        ≡ done (if hit then minus_eintr else pos 0, k')
  unfolding cond_wake_uninterruptable assert
  woke_up t k k' hit ran firm = elim (Bool-cases (hard t)) [
    | inl u ↦ rw (u, ran, firm u) refl
    | inr u ↦ rw u ran
  ]

  -- The entry of a thread that sleeps nowhere can change but for its lock.
  woken-Inside :
      (t : Ptr) (v : V o fuel mp readers writers hard) (m : Mem o fuel mp readers writers hard)
      (k : Kernel o)
      → Inside o fuel mp readers writers hard v m
      → Awake o fuel (cvs o fuel readers writers hard) hard t v.sleeping
      → ((k.nodes t).lock.owner ≡ unlocked)
      → k.conds ≡ m.kernel.conds
      → k.links ≡ m.kernel.links
      → k.sched ≡ m.kernel.sched
      → ((a : Ptr) → a ≢ t → k.nodes a ≡ m.kernel.nodes a)
      → Inside o fuel mp readers writers hard v (record m { kernel = k })
  woken-Inside t v m k h awake free conds links sched same = record {
    queue = h.queue;
    wants = h.wants;
    conds = record {
      each = λ c i.
          let x = h.conds.each c i in
          let other =
            λ (a : Ptr) (j : a ∈ v.sleeping c). same a (ne_of_mem (v.sleeping c) j (awake c i)) in
          record {
            waits = record {
              queue = rw (conds, links) (x.waits.queue);
              own = λ a j.
                  rw (other a (sym (has-latest_first o a (v.sleeping c)) ∙ j)) (x.waits.own a j);
            };
            free = rw conds (x.free);
            locks = λ a. elim (Bool-cases (a == t)) [
              | inl here ↦ let e : a ≡ t = ground (arith, here) in rw e free
              | inr there ↦ rw (same a (ground (arith, there))) (x.locks a)
            ];
            marks = λ a j. rw (other a j) (x.marks a j);
            told = sched ∙ x.told;
          };
      apart = h.conds.apart;
    };
  }

  marked_still :
      (b : Ptr) (v : V o fuel mp readers writers hard) (m : Mem o fuel mp readers writers hard)
      (k : Kernel o)
      → k.nodes b ≡ m.kernel.nodes b
      → Marked o fuel mp readers writers hard b v m
      → Marked o fuel mp readers writers hard b v (record m { kernel = k })
  marked_still b v m k e (hit, firm) = (rw e hit, firm)

  module _ (t : Ptr) (v : V o fuel mp readers writers hard)
      (m : Mem o fuel mp readers writers hard) where
    -- A thread that was interrupted leaves the queue.
    gave_up :
        Inside o fuel mp readers writers hard v m
        → t ∈ v.queue
        → length v.queue < fuel
        → ((b : Ptr) → b ∈ v.queue → b ≢ t → Marked o fuel mp readers writers hard b v m)
        → Tried o fuel mp readers writers hard
            (give_up o fuel t (real o fuel mp readers writers hard v m))
            (returned minus_eintr, leave o fuel readers writers hard t v)
    unfolding give_up
    gave_up h i enough marks =
        let m1 = removed o fuel mp readers writers hard t m in
        (
          released o fuel mp readers writers hard m1,
          rw (must_remove_lem o fuel mp readers writers hard t v m h i enough) refl,
          released-Stands o fuel mp readers writers hard (leave o fuel readers writers hard t v) m1
              (removed-Inside o fuel mp readers writers hard t v m h i)
              (λ b j.
                marks b (has-without b t v.queue j)
                  (ne_of_mem _ j (without_gone t v.queue h.queue.distinct))),
        )

  -- `do_rwlock_lock` from a wake-up does what the abstract lock does.
  pub resume-Tried :
      Willing o
      → (t : Ptr) (a : Access) (v : V o fuel mp readers writers hard)
        (m : Mem o fuel mp readers writers hard)
      → Stands o fuel mp readers writers hard v m
      → Allowed o fuel readers writers hard (resume t a) v
      → Tried o fuel mp readers writers hard
          (exec o fuel readers writers hard (resume t a) (real o fuel mp readers writers hard v m))
          (spec o fuel readers writers hard (resume t a) v)
  unfolding exec lock_resume
  resume-Tried willing t a v m h (ne, i, awake, want, enough) =
      let (hit, firm) = h.marked t i in
      let own = (h.inside.conds.each readers (ground arith)).locks t in
      let (k, ran, _, _, own', conds, links, sched, same) =
        cond_wake_lem o t mp m.kernel own h.free in
      let m1 : Mem o fuel mp readers writers hard = record m { kernel = k } in
      let h1 = woken-Inside t v m k h.inside awake own' conds links sched same in
      let marks = λ (b : Ptr) (j : b ∈ v.queue) (b_ne : b ≢ t).
        marked_still b v m k (same b b_ne) (h.marked b j) in
      rw (woke_up t m.kernel k (v.hit t) (rw hit at ran) firm) (elim (Bool-cases (v.hit t)) [
        | inl gone ↦ rw gone (gave_up t v m1 h1 i enough marks)
        | inr calm ↦
            rw calm (
              loop-Tried o fuel mp readers writers hard t a v m1 willing h1 ne i awake enough marks)
      ])
