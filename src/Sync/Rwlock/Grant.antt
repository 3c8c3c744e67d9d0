-- ===== src/Sync/Rwlock/Grant.antt =====
-- kernel/rwlock.c, `do_rwlock_lock`: what must hold of the lock where it answers 0.
use timix_next.Prelude.{
  ℕ, Ptr, ◌≡◌, ◌⊎◌, ◌&&◌, inl, inr, refl, ap, Bool, true, false, Bool-cases, Option, none, some,
  arith, if◌then◌else◌,
}
use timix_next.Prelude.Int.{ℤ, pos, negsuc, eqb_ℤ, ◌+ℤ◌}
use timix_next.Prelude.Run.{Run, done}
use timix_next.Prelude.Gives.{Gives, Gives-bind, Gives-all, Gives-mono}
use timix_next.Prelude.Errno.{minus_eintr}
use timix_next.Sync.Kernel.{SchedOps, Kernel, lock_mutex}
use timix_next.Sync.Cond.{Sleep, returned, asleep, cond_sleep, cond_wake, cond_wake_uninterruptable}
use timix_next.Sync.Rwlock.{
  Mode, is_write, is_unlocked, read, write, Access, for_read, for_write, mode_of, Rwlock,
  rwlock_q_push, rwlock_q_peek, must_remove, give_up, must_wait, queue_of, wait_loop, acquire,
  lock_start, lock_resume, S,
}
use timix_next.Sync.Rwlock.Same.{SameLock, must_remove-SameLock}

equals_zero : (z : ℤ) → eqb_ℤ z (pos 0) ≡ true → z ≡ pos 0
equals_zero (pos n) e = ground (arith, e)
equals_zero (negsuc n) e = ground (arith, e)

both : (a b : Bool) → (a && b) ≡ true → (a ≡ true) × (b ≡ true)
both true b e = (refl, e)
both false b e = cc

not_write : (m : Mode) → is_unlocked m ≡ true → is_write m ≡ false
not_write m e = ground (arith, e)

Option-cases : {A : Type 0} (x : Option A) → (x ≡ none) ⊎ ((a : A) × (x ≡ some a))
Option-cases none = inl refl
Option-cases (some a) = inr (a, refl)

is_zero : (z : ℤ) → (if eqb_ℤ z (pos 0) then false else true) ≡ false → z ≡ pos 0
is_zero (pos n) e = ground (arith, e)
is_zero (negsuc n) e = ground (arith, e)

module _ (o : SchedOps) where
  -- What holds of the lock as it was found, where the access is granted at once or after waiting.
  abbrev pub MayEnter : Access → Rwlock → Type 0
  MayEnter for_read lk = is_write lk.mode ≡ false
  MayEnter for_write lk = lk.count ≡ pos 0

  -- The answer 0 means that the lock was free for the access, and that it is held by one more.
  abbrev pub Granted : Access → Rwlock → Sleep × S o → Type 0
  Granted type lk (ret, (lk', k')) =
      ret ≡ returned (pos 0)
      → MayEnter type lk × (lk'.mode ≡ mode_of type) × (lk'.count ≡ lk.count +ℤ pos 1)

  give_up-Granted :
      (fuel : ℕ) (t : Ptr) (type : Access) (lk0 lk : Rwlock) (k : Kernel o)
      → Gives (Granted type lk0) (give_up o fuel t (lk, k))
  unfolding give_up
  give_up-Granted fuel t type lk0 lk k =
      Gives-bind (SameLock lk) (Granted type lk0) (must_remove o fuel t lk) _
        (must_remove-SameLock o fuel t lk) (λ lk1 same e. cc)

  must_wait-MayEnter :
      (type : Access) (lk : Rwlock) → must_wait o type lk ≡ false → MayEnter type lk
  unfolding must_wait
  must_wait-MayEnter for_read lk e = e
  must_wait-MayEnter for_write lk e = is_zero lk.count e

  after :
      (fuel : ℕ) (t : Ptr) (type : Access) (lk : Rwlock) (slept : Sleep) (k1 : Kernel o)
      → Gives (Granted type lk) (elim slept [
        | asleep ↦ done (asleep, (lk, k1))
        | returned ret ↦ give_up o fuel t (lk, k1)
      ])
  after fuel t type lk asleep k1 = λ e. cc
  after fuel t type lk (returned ret) k1 = give_up-Granted fuel t type lk lk k1

  wait_loop-Granted :
      (fuel : ℕ) (t : Ptr) (type : Access) (u : Bool) (lk : Rwlock) (k : Kernel o)
      → Gives (Granted type lk) (wait_loop o fuel t type u (lk, k))
  unfolding wait_loop acquire SameLock
  wait_loop-Granted fuel t type u lk k = elim (Bool-cases (must_wait o type lk)) [
    | inl waits ↦ rw waits (
        Gives-bind (λ _. Unit) (Granted type lk) (cond_sleep o t (queue_of o type lk) lk.lock u k) _
          (Gives-all (λ _. Unit) (cond_sleep o t (queue_of o type lk) lk.lock u k) (λ _. tt))
          (λ (slept, k1) _. after fuel t type lk slept k1))
    | inr enters ↦ rw enters (
        Gives-bind (SameLock lk) (Granted type lk) (must_remove o fuel t lk) _
          (must_remove-SameLock o fuel t lk)
          (λ lk1 same e. (must_wait-MayEnter type lk enters, refl, ap (λ z. z +ℤ pos 1) same.1)))
  ]

  -- The answer 0 of `do_rwlock_lock` means that the lock was found as it should be.
  abbrev pub Enters : Access → Rwlock → Type 0
  Enters for_read lk = (is_write lk.mode ≡ false) ⊎ (rwlock_q_peek lk ≡ none)
  Enters for_write lk = lk.count ≡ pos 0

  Lets : Access → Rwlock → Sleep × S o → Type 0
  Lets type lk (ret, (lk', k')) =
      ret ≡ returned (pos 0)
      → Enters type lk × (lk'.mode ≡ mode_of type) × (lk'.count ≡ lk.count +ℤ pos 1)

  queued-Lets :
      (fuel : ℕ) (t : Ptr) (type : Access) (u : Bool) (lk : Rwlock) (k : Kernel o)
      → Gives (Lets type lk) (wait_loop o fuel t type u (rwlock_q_push t (mode_of type) lk, k))
  unfolding Lets rwlock_q_push
  queued-Lets fuel t for_read u lk k =
      let pushed = rwlock_q_push t read lk in
      Gives-mono (Granted for_read pushed) (Lets for_read lk)
        (wait_loop o fuel t for_read u (pushed, k)) (wait_loop-Granted fuel t for_read u pushed k)
        (λ x g e. let (a, b, c) = g e in (inl a, b, c))
  queued-Lets fuel t for_write u lk k =
      wait_loop-Granted fuel t for_write u (rwlock_q_push t write lk) k

  free_lock :
      (type : Access) (lk : Rwlock)
      → (eqb_ℤ lk.count (pos 0) && is_unlocked lk.mode) ≡ true
      → Enters type lk
  free_lock for_read lk e =
      inl (not_write lk.mode (both (eqb_ℤ lk.count (pos 0)) (is_unlocked lk.mode) e).1)
  free_lock for_write lk e =
      equals_zero lk.count (both (eqb_ℤ lk.count (pos 0)) (is_unlocked lk.mode) e).0

  acquire-Lets :
      (type : Access) (lk : Rwlock) (k : Kernel o)
      → Enters type lk
      → Lets type lk (acquire o type (lk, k))
  unfolding Lets acquire
  acquire-Lets type lk k may e = (may, refl, refl)

  peeked :
      (type : Access) (lk : Rwlock) (k : Kernel o) (queued : Run (Sleep × S o))
      → Gives (Lets type lk) queued
      → Gives (Lets type lk) (elim type [
        | for_read ↦ elim (rwlock_q_peek lk) [
          | none ↦ done (acquire o for_read (lk, k))
          | some mode ↦ queued
        ]
        | for_write ↦ queued
      ])
  peeked for_write lk k queued g = g
  peeked for_read lk k queued g = elim (Option-cases (rwlock_q_peek lk)) [
    | inl nobody ↦ rw nobody (acquire-Lets for_read lk k (inr nobody))
    | inr (mode, e) ↦ rw e g
  ]

  lock_start-Lets :
      (fuel : ℕ) (t : Ptr) (type : Access) (u : Bool) (lk : Rwlock) (k : Kernel o)
      → Gives (Lets type lk) (lock_start o fuel t type u (lk, k))
  unfolding lock_start
  lock_start-Lets fuel t type u lk k =
      Gives-bind (λ _. Unit) (Lets type lk) (lock_mutex o lk.lock k) _
        (Gives-all (λ _. Unit) (lock_mutex o lk.lock k) (λ _. tt))
        (λ k1 _. elim (Bool-cases (eqb_ℤ lk.count (pos 0) && is_unlocked lk.mode)) [
          | inl free ↦ rw free (acquire-Lets type lk k1 (free_lock type lk free))
          | inr held ↦ rw held (peeked type lk k1 _ (queued-Lets fuel t type u lk k1))
        ])

  lock_resume-Granted :
      (fuel : ℕ) (t : Ptr) (type : Access) (u : Bool) (lk : Rwlock) (k : Kernel o)
      → Gives (Granted type lk) (lock_resume o fuel t type u (lk, k))
  unfolding lock_resume
  lock_resume-Granted fuel t type u lk k =
      let woken = if u then cond_wake_uninterruptable o t lk.lock k else cond_wake o t lk.lock k in
      Gives-bind (λ _. Unit) (Granted type lk) woken _ (Gives-all (λ _. Unit) woken (λ _. tt))
        (λ (ret, k1) _. elim (Bool-cases (eqb_ℤ ret minus_eintr)) [
          | inl hit ↦ rw hit (give_up-Granted fuel t type lk lk k1)
          | inr fine ↦ rw fine (wait_loop-Granted fuel t type u lk k1)
        ])

  -- Where `do_rwlock_lock` answers 0 without having slept, the lock is in the mode that was asked for
  -- and has one holder more. For writing nobody held it before; for reading it was not in write mode,
  -- but for the case that nobody was queued.
  pub lock_start-Enters :
      (fuel : ℕ) (t : Ptr) (type : Access) (u : Bool) (lk lk' : Rwlock) (k k' : Kernel o)
      → lock_start o fuel t type u (lk, k) ≡ done (returned (pos 0), (lk', k'))
      → Enters type lk × (lk'.mode ≡ mode_of type) × (lk'.count ≡ lk.count +ℤ pos 1)
  unfolding Lets
  lock_start-Enters fuel t type u lk lk' k k' ran =
      (rw ran at (lock_start-Lets fuel t type u lk k)) refl

  -- Where `do_rwlock_lock` answers 0 after a wake-up, the lock is in the mode that was asked for and
  -- has one holder more, and it was not in write mode, for reading, or nobody held it, for writing.
  pub lock_resume-MayEnter :
      (fuel : ℕ) (t : Ptr) (type : Access) (u : Bool) (lk lk' : Rwlock) (k k' : Kernel o)
      → lock_resume o fuel t type u (lk, k) ≡ done (returned (pos 0), (lk', k'))
      → MayEnter type lk × (lk'.mode ≡ mode_of type) × (lk'.count ≡ lk.count +ℤ pos 1)
  lock_resume-MayEnter fuel t type u lk lk' k k' ran =
      (rw ran at (lock_resume-Granted fuel t type u lk k)) refl
