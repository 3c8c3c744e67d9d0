-- ===== src/Sync/Rwlock/Start.antt =====
-- kernel/rwlock.c, `do_rwlock_lock` from its start, as the abstract lock says.
use timix_next.Prelude.{
  ℕ, ◌≡◌, refl, ap, List, [], ◌∷◌, Bool, ◌&&◌, Option, none, some, Ptr, arith, eqb_false,
  Bool-cases, inl, inr, ◌==◌, if◌then◌else◌,
}
use timix_next.Prelude.Int.{pos, eqb_ℤ}
use timix_next.Prelude.Run.{done}
use timix_next.Queue.View.{IsQueue, ◌∈◌, mem_here}
use timix_next.Queue
use timix_next.Sync.Kernel.{SchedOps}
use timix_next.Sync.Free.{MutexFree, taken, lock_mutex-taken}
use timix_next.Sync.Cond.{returned}
use timix_next.Sync.Cond.Block.{Willing}
use timix_next.Sync.Sem.Balance.{plus_one}
use timix_next.Sync.Rwlock.{
  Mode, is_unlocked, Access, for_read, for_write, mode_of, rwlock_q_peek, rwlock_q_push, wait_loop,
  acquire, lock_start,
}
use timix_next.Sync.Rwlock.Model.{lock, exec, enter, enqueue, unasked, spec, Allowed}
use timix_next.Sync.Rwlock.Hold.{
  V, Mem, lock_of, real, Inside, Marked, Stands, pushed, pushed-Inside,
}
use timix_next.Sync.Rwlock.Loop.{Tried, released, released-Stands, mutexes-Inside, loop-Tried}

module _ (o : SchedOps) (fuel : ℕ) (mp readers writers : Ptr) (hard : Ptr → Bool) where
  -- What the queue of the lock answers.
  abbrev pub asked : List Ptr → (Ptr → Access) → Option Mode
  asked [] want = none
  asked (t ∷ ts) want = some (mode_of (want t))

  pub peek_lem :
      (ts : List Ptr) (v : V o fuel mp readers writers hard)
      (m : Mem o fuel mp readers writers hard)
      → v.queue ≡ ts
      → Inside o fuel mp readers writers hard v m
      → rwlock_q_peek (lock_of o fuel mp readers writers hard v m) ≡ asked ts v.want
  unfolding rwlock_q_peek Queue.get_front
  peek_lem [] v m e h =
      let is : IsQueue m.head m.entries [] = rw e at (h.queue) in rw (rwlock_q_peek, is.front)
  peek_lem (t ∷ ts) v m e h =
      let is : IsQueue m.head m.entries (t ∷ ts) = rw e at (h.queue) in
      let want : m.modes t ≡ mode_of (v.want t) = h.wants t (rw e (mem_here t ts)) in
      rw (rwlock_q_peek, is.front, eqb_false (is.chain.0)) (ap some want)

  -- The part of `do_rwlock_lock` behind the first test.
  zero_test : (n : ℕ) → eqb_ℤ (pos n) (pos 0) ≡ (n == 0)
  zero_test n = ground arith

  abbrev pub with_mutex : Mem o fuel mp readers writers hard → Mem o fuel mp readers writers hard
  with_mutex m = record m { kernel = taken o mp m.kernel }

  -- What `do_rwlock_lock` does from its start, with the mutex taken.
  start_lem :
      (t : Ptr) (a : Access) (ts : List Ptr) (v : V o fuel mp readers writers hard)
      (m : Mem o fuel mp readers writers hard)
      → v.queue ≡ ts
      → MutexFree o mp m.kernel
      → Inside o fuel mp readers writers hard v m
      → lock_start o fuel t a (hard t) (real o fuel mp readers writers hard v m) ≡ (
          if (v.count == 0) && is_unlocked v.mode
          then done (acquire o a (real o fuel mp readers writers hard v (with_mutex m)))
          else if unasked o fuel readers writers hard a ts
          then done (acquire o a (real o fuel mp readers writers hard v (with_mutex m)))
          else wait_loop o fuel t a (hard t) (
              real o fuel mp readers writers hard
                (enqueue o fuel readers writers hard t a v)
                (pushed o fuel mp readers writers hard t a (with_mutex m))))
  unfolding lock_start rwlock_q_push
  start_lem t for_read [] v m e free h =
      rw (lock_mutex-taken o mp m.kernel free, zero_test v.count, peek_lem [] v m e h) refl
  start_lem t for_read (x ∷ xs) v m e free h =
      rw (lock_mutex-taken o mp m.kernel free, zero_test v.count, peek_lem (x ∷ xs) v m e h) refl
  start_lem t for_write ts v m e free h =
      rw (lock_mutex-taken o mp m.kernel free, zero_test v.count) refl

  -- The thread takes the lock at once.
  entered-Tried :
      (a : Access) (v : V o fuel mp readers writers hard) (m : Mem o fuel mp readers writers hard)
      → Inside o fuel mp readers writers hard v m
      → ((b : Ptr) → b ∈ v.queue → Marked o fuel mp readers writers hard b v m)
      → Tried o fuel mp readers writers hard
          (done (acquire o a (real o fuel mp readers writers hard v m)))
          (returned (pos 0), enter o fuel readers writers hard a v)
  unfolding acquire
  entered-Tried a v m h marks = (
    released o fuel mp readers writers hard m,
    rw (plus_one v.count) refl,
    released-Stands o fuel mp readers writers hard (enter o fuel readers writers hard a v) m
        (record { queue = h.queue; wants = h.wants; conds = h.conds }) marks,
  )

  -- `do_rwlock_lock` from its start does what the abstract lock does.
  pub lock-Tried :
      Willing o
      → (t : Ptr) (a : Access) (v : V o fuel mp readers writers hard)
        (m : Mem o fuel mp readers writers hard)
      → Stands o fuel mp readers writers hard v m
      → Allowed o fuel readers writers hard (lock t a) v
      → Tried o fuel mp readers writers hard
          (exec o fuel readers writers hard (lock t a) (real o fuel mp readers writers hard v m))
          (spec o fuel readers writers hard (lock t a) v)
  unfolding exec
  lock-Tried willing t a v m h (ne, out, awake, enough) =
      let m1 = with_mutex m in
      let h1 = mutexes-Inside o fuel mp readers writers hard v m m1.kernel.mutexes h.inside in
      let more = enqueue o fuel readers writers hard t a v in
      let m2 = pushed o fuel mp readers writers hard t a m1 in
      let h2 = pushed-Inside o fuel mp readers writers hard t v m1 a h1 ne out in
      let at_once = entered-Tried a v m1 h1 h.marked in
      rw (start_lem t a v.queue v m refl h.free h.inside)
        (elim (Bool-cases ((v.count == 0) && is_unlocked v.mode)) [
          | inl idle ↦ rw idle at_once
          | inr busy ↦ rw busy (elim (Bool-cases (unasked o fuel readers writers hard a v.queue)) [
            | inl nobody ↦ rw nobody at_once
            | inr queued ↦ rw queued (
                loop-Tried o fuel mp readers writers hard t a more m2 willing h2 ne
                  (mem_here t v.queue) awake (omega (arith, enough))
                  (λ b j other. h.marked b (ground (arith, j, other))))
          ])
        ])
