-- ===== src/Sync/Rwlock/Same.antt =====
-- kernel/rwlock.c: the queue of the lock leaves its mode and its count alone.
use timix_next.Prelude.{ℕ, Ptr, ◌≡◌, refl, ◌==◌}
use timix_next.Prelude.Int.{pos, negsuc, eqb_ℤ}
use timix_next.Prelude.Run.{done, out_of_fuel, assert}
use timix_next.Prelude.Gives.{Gives, Gives-bind, Gives-all}
use timix_next.Queue
use timix_next.Sync.Kernel.{SchedOps}
use timix_next.Sync.Rwlock.{Rwlock, rwlock_q_remove, must_remove}

-- Nothing but the queue's links has changed.
unfoldable pub SameLock : Rwlock → Rwlock → Type 0
SameLock lk lk' = (lk'.mode ≡ lk.mode) × (lk'.count ≡ lk.count)

rwlock_q_remove-SameLock :
    (fuel : ℕ) (t : Ptr) (lk : Rwlock)
    → Gives (λ (_, lk'). SameLock lk lk') (rwlock_q_remove fuel t lk)
unfolding rwlock_q_remove SameLock
rwlock_q_remove-SameLock fuel t lk =
    elim (Queue.foreach fuel (λ curr. curr == t) lk.waiting.head lk.entries)
      as (λ w.
        Gives (λ (_, lk'). SameLock lk lk')
          (elim w [
            | Queue.out_of_fuel ↦ out_of_fuel
            | Queue.not_found ↦ done (negsuc 0, lk)
            | Queue.found curr ↦
                let (waiting, entries) = Queue.remove lk.waiting curr lk.entries in
                done (pos 0, record lk { waiting = waiting; entries = entries })
          ])) [
            | Queue.out_of_fuel ↦ tt
            | Queue.not_found ↦ (refl, refl)
            | Queue.found curr ↦ (refl, refl)
          ]

module _ (o : SchedOps) where
  pub must_remove-SameLock :
      (fuel : ℕ) (t : Ptr) (lk : Rwlock) → Gives (SameLock lk) (must_remove o fuel t lk)
  unfolding must_remove
  must_remove-SameLock fuel t lk =
      Gives-bind (λ (_, lk'). SameLock lk lk') (SameLock lk) (rwlock_q_remove fuel t lk) _
        (rwlock_q_remove-SameLock fuel t lk)
        (λ (ret, lk1) same.
          Gives-bind (λ _. Unit) (SameLock lk) (assert (eqb_ℤ ret (pos 0))) _
            (Gives-all (λ _. Unit) (assert (eqb_ℤ ret (pos 0))) (λ _. tt)) (λ _ _. same))
