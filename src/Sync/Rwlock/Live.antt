-- ===== src/Sync/Rwlock/Live.antt =====
-- kernel/rwlock.c from `rwlock_init` on: a lock that nobody holds goes to a thread that waits for it.
use timix_next.Prelude.{
  ℕ, ◌<◌, ◌≡◌, ◌≢◌, ◌⊎◌, refl, sym, ap, ◌∙◌, List, [], Bool, true, false, Ptr, null, none, arith,
  length, Bool-cases, inl, inr, ◌==◌,
}
use timix_next.Prelude.Int.{pos}
use timix_next.Prelude.Run.{done}
use timix_next.Queue.View.{has, ◌∈◌, IsQueue, ◌∉◌, ne-null_of_mem}
use timix_next.Sync.Mutex.{mutex_init}
use timix_next.Sync.Mutex
use timix_next.Sync.Kernel.{SchedOps, Kernel}
use timix_next.Sync.Cond.{Sleep, returned}
use timix_next.Sync.Cond.Block.{Willing}
use timix_next.Sync.Cond.Family.{Awake}
use timix_next.Sync.Rwlock.{
  Mode, unlocked, is_unlocked, Access, for_read, for_write, mode_of, Rwlock, S, rwlock_init,
  rwlock_q_peek, lock_resume,
}
use timix_next.Sync.Rwlock.Model.{Call, View, cond_of, exec, exec_all, cvs, spec_all, AllAllowed}
use timix_next.Sync.Rwlock.Init.{fresh, memory, init-real, init-Stands}
use timix_next.Sync.Rwlock.Hold.{Mem, real, Stands}
use timix_next.Sync.Rwlock.Start.{peek_lem}
use timix_next.Sync.Rwlock.Resume.{resume-Tried}
use timix_next.Sync.Rwlock.Refine.{exec_all-Tried}
use timix_next.Sync.Rwlock.Ready.{Inv, Next}
use timix_next.Sync.Rwlock.Progress.{AllUndisturbed}
use timix_next.Sync.Rwlock.Alert.{IsRuns, Alert}
use timix_next.Sync.Rwlock.Runnable.{spec_all-Alert}
use timix_next.Sync.Cond.Wakeup.{Waits, latest_first}
use timix_next.Sync.Cond.Order.{has-latest_first}
use timix_next.Sync.Rwlock.Served.{spec_all-Inv}

other_kind : for_read ≢ for_write
other_kind e = cc

zero_held : (n : ℕ) → (n == 0) ≡ false → n ≢ 0
zero_held n e = ground (arith, e)

module _ (o : SchedOps) (fuel : ℕ) (readers writers : Ptr) (hard : Ptr → Bool)
    (apart : readers ≢ writers) where
  -- The thread that takes the lock next sleeps nowhere.
  Next-Awake :
      (v : View o fuel readers writers hard)
      → Inv o fuel readers writers hard apart v
      → (n : Next o fuel readers writers hard apart v)
      → Awake o fuel (cvs o fuel readers writers hard) hard n.who v.sleeping
  Next-Awake v h n = in_neither n.kind n.wanted n.awake
    where
      in_neither :
          (kind : Access)
          → v.want n.who ≡ kind
          → n.who ∉ v.sleeping (cond_of o fuel readers writers hard kind)
          → Awake o fuel (cvs o fuel readers writers hard) hard n.who v.sleeping
      in_neither for_read want out c i = elim (Bool-cases (c == readers)) [
        | inl here ↦ let e : c ≡ readers = ground (arith, here) in rw e out
        | inr there ↦
            let e : c ≡ writers = ground (arith, i, there) in
            rw e (elim (Bool-cases (has n.who (v.sleeping writers))) [
              | inl hit ↦
                  let k = (h.sound.writers_in n.who hit).1 in absurd (other_kind (sym want ∙ k))
              | inr miss ↦ miss
            ])
      ]
      in_neither for_write want out c i = elim (Bool-cases (c == readers)) [
        | inl here ↦
            let e : c ≡ readers = ground (arith, here) in
            rw e (elim (Bool-cases (has n.who (v.sleeping readers))) [
              | inl hit ↦
                  let k = (h.sound.readers_in n.who hit).1 in absurd (other_kind (sym k ∙ want))
              | inr miss ↦ miss
            ])
        | inr there ↦ let e : c ≡ writers = ground (arith, i, there) in rw e out
      ]

module _ (o : SchedOps) (fuel : ℕ) (hard : Ptr → Bool) (lk : Rwlock) (k : Kernel o) where
  fresh-Inv :
      (apart : lk.readers ≢ lk.writers)
      → Inv o fuel lk.readers lk.writers hard apart (fresh o fuel hard lk k)
  fresh-Inv apart = record {
    sound = record { distinct = tt; readers_in = λ a i. cc; writers_in = λ a i. cc; once = tt };
    calm = λ a i. cc;
    idle = λ e. (refl, refl);
    next = λ _ e. cc;
  }

  abbrev end : List Call → View o fuel lk.readers lk.writers hard
  end cs = (spec_all o fuel lk.readers lk.writers hard cs (fresh o fuel hard lk k)).1

  -- Somebody who waits gets the lock: the thread `who` is in the lock's queue with what it asked for,
  -- sleeps on neither condition variable, is let run by the scheduler, and is answered 0 when it goes
  -- on.
  pub record Takes (runs : Ptr → o.State → Bool) (s : S o) : Type 0 where
    pub who : Ptr
    pub kind : Access
    pub queue : List Ptr
    pub shows : IsQueue s.0.waiting s.0.entries queue
    pub queued : who ∈ queue
    pub asked : s.0.modes who ≡ mode_of kind
    pub awake :
        (c : Ptr)
        → c ∈ cvs o fuel lk.readers lk.writers hard
        → (ts : List Ptr) × Waits o c s.1 ts × (who ∉ ts)
    pub may_run : runs who s.1.sched ≡ true
    pub after : S o
    pub gets : lock_resume o fuel who kind (hard who) s ≡ done (returned (pos 0), after)

  Next-Takes :
      (runs : Ptr → o.State → Bool) (law : IsRuns o runs) (apart : lk.readers ≢ lk.writers)
      (v : View o fuel lk.readers lk.writers hard)
      (m : Mem o fuel lk.lock lk.readers lk.writers hard)
      → Willing o
      → Inv o fuel lk.readers lk.writers hard apart v
      → Alert o runs law fuel lk.readers lk.writers hard apart v
      → Stands o fuel lk.lock lk.readers lk.writers hard v m
      → length v.queue < fuel
      → Next o fuel lk.readers lk.writers hard apart v
      → Takes runs (real o fuel lk.lock lk.readers lk.writers hard v m)
  unfolding exec
  Next-Takes runs law apart v m willing h alert st enough n =
      let t_ne = ne-null_of_mem m.entries null n.who v.queue null st.inside.queue.chain n.queued in
      let up = Next-Awake o fuel lk.readers lk.writers hard apart v h n in
      let (m', ran, _) =
        resume-Tried o fuel lk.lock lk.readers lk.writers hard willing n.who n.kind v m st
          (t_ne, n.queued, up, n.wanted, enough) in
      let told = (st.inside.conds.each lk.readers (ground arith)).told in
      record {
        who = n.who;
        kind = n.kind;
        queue = v.queue;
        shows = st.inside.queue;
        queued = n.queued;
        asked = st.inside.wants n.who n.queued ∙ ap mode_of n.wanted;
        awake = λ c i. (
          latest_first o (v.sleeping c),
          (st.inside.conds.each c i).waits,
          has-latest_first o n.who (v.sleeping c) ∙ up c i,
        );
        may_run =
            rw told
              (alert n.who n.queued (up lk.readers (ground arith)) (up lk.writers (ground arith)));
        after = _;
        gets = rw (h.calm n.who n.queued, n.let_in) at ran;
      }

  pos_zero : (n : ℕ) → pos n ≡ pos 0 → n ≡ 0
  pos_zero n e = cc

  only_unlocked : (mode : Mode) → is_unlocked mode ≡ true → mode ≡ unlocked
  only_unlocked mode e = ground (arith, e)

  -- Somebody holds the lock, or it is unlocked and nobody waits, or somebody who waits takes it.
  abbrev pub Served : (runs : Ptr → o.State → Bool) → S o → Type 0
  Served runs s =
      (s.0.count ≢ pos 0) ⊎ ((rwlock_q_peek s.0 ≡ none) × (s.0.mode ≡ unlocked)) ⊎ Takes runs s

  served :
      (runs : Ptr → o.State → Bool) (law : IsRuns o runs) (apart : lk.readers ≢ lk.writers)
      (v : View o fuel lk.readers lk.writers hard)
      (m : Mem o fuel lk.lock lk.readers lk.writers hard)
      → Willing o
      → Inv o fuel lk.readers lk.writers hard apart v
      → Alert o runs law fuel lk.readers lk.writers hard apart v
      → Stands o fuel lk.lock lk.readers lk.writers hard v m
      → length v.queue < fuel
      → Served runs (real o fuel lk.lock lk.readers lk.writers hard v m)
  served runs law apart v m willing h alert st enough = elim (Bool-cases (v.count == 0)) [
    | inr held ↦ inl (λ e. zero_held v.count held (pos_zero v.count e))
    | inl free ↦ elim (Bool-cases (is_unlocked v.mode)) [
      | inl idle ↦ inr (
          inl (
            peek_lem o fuel lk.lock lk.readers lk.writers hard [] v m (h.idle idle).1 st.inside,
            only_unlocked v.mode idle,
          ))
      | inr locked ↦ inr (
          inr (
            Next-Takes runs law apart v m willing h alert st enough
              (h.next (ground (arith, free)) locked)))
    ]
  ]

  -- After `rwlock_init`, where no thread's own lock is held, any sequence of the calls of several
  -- threads on the lock, in which nobody is interrupted, runs to its end. Then somebody holds the lock,
  -- or it is in mode unlocked and nobody waits, or one of the threads that wait gets it: this thread
  -- is in the lock's queue, sleeps on neither condition variable, may run by what the scheduler has
  -- been told, and is answered 0 for what it asked for when it goes on. So no wake-up is lost. In the
  -- scheduler, a thread that is unblocked may run until it is blocked itself. The two condition
  -- variables are not `NULL` and not the same, the scheduler does not refuse to block, and each call
  -- is allowed where it is made: nobody asks who waits already, only a woken thread goes on, somebody
  -- holds the lock that is given back, the writer that keeps it for reading is alone, and the fuel is
  -- more than the threads in the queue that is walked.
  pub rwlock_init-Served :
      (runs : Ptr → o.State → Bool)
      → IsRuns o runs
      → Willing o
      → lk.readers ≢ null
      → lk.writers ≢ null
      → lk.readers ≢ lk.writers
      → ((t : Ptr) → (k.nodes t).lock.owner ≡ Mutex.unlocked)
      → (cs : List Call) → AllUndisturbed cs
      → AllAllowed o fuel lk.readers lk.writers hard cs (fresh o fuel hard lk k)
      → length (end cs).queue < fuel
      → (rets : List Sleep) × (s : S o) × (exec_all o fuel lk.readers lk.writers hard cs
            (rwlock_init o (lk, k)).1
          ≡ done (rets, s))
        × Served runs s
  rwlock_init-Served runs law willing r_ne w_ne apart free cs quiet ok enough =
      let v = fresh o fuel hard lk k in
      let (m, ran, st) =
        exec_all-Tried o fuel lk.lock lk.readers lk.writers hard willing r_ne w_ne cs v
          (memory o fuel hard lk k) (init-Stands o fuel hard lk k free) ok in
      let h =
        spec_all-Inv o fuel lk.readers lk.writers hard apart cs v quiet (fresh-Inv apart) ok in
      (
        (spec_all o fuel lk.readers lk.writers hard cs v).0,
        real o fuel lk.lock lk.readers lk.writers hard (end cs) m,
        rw (init-real o fuel hard lk k) ran,
        served runs law apart (end cs) m willing h
            (spec_all-Alert o runs law fuel lk.readers lk.writers hard apart cs v quiet
              (fresh-Inv apart) ok (λ u i. cc))
            st enough,
      )
