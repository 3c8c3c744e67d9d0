-- ===== src/Sync/Rwlock/Progress.antt =====
-- kernel/rwlock.c, the abstract lock without interrupts: each call keeps a thread that takes the lock
-- next.
use timix_next.Prelude.{
  ℕ, ◌≡◌, ◌≢◌, ◌∙◌, List, [], ◌∷◌, Bool, false, Ptr, arith, Bool-cases, inl, inr, update_self,
  update_ne, ◌==◌,
}
use timix_next.Queue.View.{◌∈◌, ◌∉◌, ne_of_mem, mem_there}
use timix_next.Queue.Refine.{without}
use timix_next.Sync.Kernel.{SchedOps}
use timix_next.Sync.Rwlock.{is_unlocked, Access, for_read, for_write}
use timix_next.Sync.Rwlock.Model.{
  Call, lock, resume, unlock, downgrade, interrupt, leave, enqueue, held_off, try,
}
use timix_next.Sync.Rwlock.Hold.{without_gone}
use timix_next.Sync.Rwlock.Ready.{
  W, Next, Sound, Inv, enter-Inv, leave-Sound, doze-Sound, doze-Next,
}
use timix_next.Sync.Cond.Order.{has-without}

-- The call is no interrupt.
abbrev pub Undisturbed : Call → Type 0
Undisturbed (lock t a) = Unit
Undisturbed (resume t a) = Unit
Undisturbed unlock = Unit
Undisturbed downgrade = Unit
Undisturbed (interrupt t) = ⊥

abbrev pub AllUndisturbed : List Call → Type 0
AllUndisturbed [] = Unit
AllUndisturbed (c ∷ cs) = Undisturbed c × AllUndisturbed cs

module _ (o : SchedOps) (fuel : ℕ) (readers writers : Ptr) (hard : Ptr → Bool)
    (apart : readers ≢ writers) where
  abbrev V : Type 0
  V = W o fuel readers writers hard apart

  abbrev I : V → Type 0
  I = Inv o fuel readers writers hard apart

  pub try-Inv :
      (t : Ptr) (a : Access) (v : V)
      → Sound o fuel readers writers hard apart v
      → t ∈ v.queue
      → v.want t ≡ a
      → t ∉ v.sleeping readers
      → t ∉ v.sleeping writers
      → ((b : Ptr) → b ∈ v.queue → b ≢ t → v.hit b ≡ false)
      → is_unlocked v.mode ≡ false
      → (v.count ≡ 0 → Next o fuel readers writers hard apart v)
      → I (try o fuel readers writers hard t a v).1
  try-Inv t a v h i want r w calm locked next =
      elim (Bool-cases (held_off o fuel readers writers hard a v)) [
        | inr in_time ↦ rw in_time (
            enter-Inv o fuel readers writers hard apart a (leave o fuel readers writers hard t v)
              (leave-Sound o fuel readers writers hard apart t v h r w)
              (λ b j.
                calm b (has-without b t v.queue j)
                  (ne_of_mem (without t v.queue) j (without_gone t v.queue h.distinct))))
        | inl out ↦ rw out (record {
          sound = doze-Sound o fuel readers writers hard apart t a v h i want w;
          calm = λ b j. elim (Bool-cases (b == t)) [
            | inl here ↦ let e : b ≡ t = ground (arith, here) in rw e (update_self v.hit t false)
            | inr there ↦
                let ne : b ≢ t = ground (arith, there) in update_ne v.hit t false ne ∙ calm b j ne
          ];
          idle = λ e. absurd (ground (arith, e, locked));
          next = λ none_holds e.
              doze-Next o fuel readers writers hard apart t a v none_holds want out
                (next none_holds);
        })
      ]

  pub enqueue-Next :
      (t : Ptr) (a : Access) (v : V)
      → t ∉ v.queue
      → Next o fuel readers writers hard apart v
      → Next o fuel readers writers hard apart (enqueue o fuel readers writers hard t a v)
  enqueue-Next t a v out n = record {
    who = n.who;
    kind = n.kind;
    queued = mem_there t n.who v.queue n.queued;
    wanted = update_ne v.want t a (ne_of_mem v.queue n.queued out) ∙ n.wanted;
    awake = n.awake;
    let_in = let_in_same n.kind n.let_in;
  }
    where
      let_in_same :
          (kind : Access)
          → held_off o fuel readers writers hard kind v ≡ false
          → held_off o fuel readers writers hard kind (enqueue o fuel readers writers hard t a v)
            ≡ false
      let_in_same for_read e = e
      let_in_same for_write e = e
