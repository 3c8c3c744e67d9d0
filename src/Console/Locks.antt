-- ===== src/Console/Locks.antt =====
-- The semaphores of text_console.c as its functions use them: who takes them and gives them back.
use timix_next.Prelude.{
  ℕ, ◌+◌, ◌*◌, ◌<◌, ◌≡◌, ◌⊎◌, refl, ap, ◌∙◌, Bool, false, List, [], ◌∷◌, arith, inl, inr, ◌==◌,
  if◌then◌else◌,
}
use timix_next.Prelude.Int.{ℤ, pos}
use timix_next.Prelude.Run.{done}
use timix_next.Prelude.Errno.{minus_eintr}
use timix_next.Console.Config.{Config, Memcpy}
use timix_next.Console.Driver.{
  SemOps, SemName, console_lock, console_buffer_lock, cons_lock, cons_buffer_lock, on_console,
  on_screen, nothing, signal_sem,
}
use timix_next.Console.Api.{D, lock_screen, scr_unlock_screen}

-- The semaphores, numbered.
abbrev pub code : SemName → ℕ
code console_lock = 0
code console_buffer_lock = 1
code (cons_lock i) = 2 * i + 2
code (cons_buffer_lock i) = 2 * i + 3

abbrev pub same : SemName → SemName → Bool
same j k = code j == code k

-- The semaphore is none of those.
abbrev pub Apart : SemName → List SemName → Type 0
Apart k [] = Unit
Apart k (j ∷ ks) = (same k j ≡ false) × Apart k ks

-- The semaphores of the screens that there are.
abbrev pub Known : Config → SemName → Type 0
Known c console_lock = Unit
Known c console_buffer_lock = Unit
Known c (cons_lock n) = n < c.screen_count
Known c (cons_buffer_lock n) = n < c.screen_count

-- What the driver relies on. `Holds ks` are the states in which the caller has the semaphores `ks`
-- and nobody has any other one. A wait for one that nobody has comes back with it and answers 0, or
-- without it and answers -EINTR; a signal gives it back.
pub record IsSem (c : Config) (o : SemOps) : Type 1 where
  pub Holds : List SemName → o.State → Type 0
  pub acquire :
      (k : SemName) (ks : List SemName) (s : o.State)
      → Known c k
      → Apart k ks
      → Holds ks s
      → (ret : ℤ) × (s' : o.State) × (o.wait k s ≡ done (ret, s'))
        × (((ret ≡ pos 0) × Holds (k ∷ ks) s') ⊎ ((ret ≡ minus_eintr) × Holds ks s'))
  pub release :
      (k : SemName) (ks : List SemName) (s : o.State)
      → Known c k
      → Apart k ks
      → Holds (k ∷ ks) s
      → (s' : o.State) × (o.signal k s ≡ done s') × Holds ks s'

-- A wait for a semaphore that nobody holds is never interrupted.
abbrev pub NeverInterrupted : (c : Config) (o : SemOps) → IsSem c o → Type 0
NeverInterrupted c o sem =
    (k : SemName) (ks : List SemName) (s s' : o.State) (ret : ℤ)
    → Known c k
    → Apart k ks
    → sem.Holds ks s
    → o.wait k s ≡ done (ret, s')
    → ret ≡ pos 0

module _ (c : Config) (o : SemOps) (sem : IsSem c o) where
  -- A wait that is not interrupted answers 0 and has the semaphore.
  pub take :
      (k : SemName) (ks : List SemName) (s : o.State)
      → NeverInterrupted c o sem
      → Known c k
      → Apart k ks
      → sem.Holds ks s
      → (s' : o.State) × (o.wait k s ≡ done (pos 0, s')) × sem.Holds (k ∷ ks) s'
  take k ks s calm known apart h =
      let (ret, l, ran, got) = sem.acquire k ks s known apart h in
      let e = calm k ks s l ret known apart h ran in
      elim got [ inl (_, h1) ↦ (l, ran ∙ ap (λ r. done (r, l)) e, h1) | inr (f, _) ↦ cc ]

module _ (c : Config) (m : Memcpy) (o : SemOps) (sem : IsSem c o) (n : ℕ)
    (lt : n < c.screen_count) where
  -- The two semaphores of the calling thread's screen.
  abbrev pub both : List SemName
  both = cons_buffer_lock n ∷ cons_lock n ∷ []

  -- `scr_lock_thread_screen` was interrupted and holds nothing, or it holds both semaphores.
  pub lock_screen-cases :
      (d : D c m o)
      → sem.Holds [] d.locks
      → ((l : o.State) × (lock_screen c m o n d ≡ done (nothing, record d { locks = l }))
          × sem.Holds [] l)
        ⊎ ((l : o.State) × (lock_screen c m o n d
              ≡ done
                  (if n == d.screen_idx then on_console else on_screen n, record d { locks = l }))
            × sem.Holds both l)
  unfolding lock_screen
  lock_screen-cases d h =
      let apart : same (cons_buffer_lock n) (cons_lock n) ≡ false = ground arith in
      let (ret, l, ran, got) = sem.acquire (cons_lock n) [] d.locks lt tt h in
      elim got [
        | inr (e, h1) ↦ inl (l, rw (ran, e) refl, h1)
        | inl (e, h1) ↦
            let (ret', l', ran', got') =
              sem.acquire (cons_buffer_lock n) (cons_lock n ∷ []) l lt (apart, tt) h1 in
            elim got' [
              | inl (e', h2) ↦ inr (l', rw (ran, e, ran', e') refl, h2)
              | inr (e', h2) ↦
                  let (l'', back, h3) = sem.release (cons_lock n) [] l' lt tt h2 in
                  inl (l'', rw (ran, e, ran', e', back) refl, h3)
            ]
      ]

  -- When no wait is interrupted it holds both.
  pub lock_screen-calm :
      (d : D c m o)
      → NeverInterrupted c o sem
      → sem.Holds [] d.locks
      → (l : o.State) × (lock_screen c m o n d
          ≡ done (if n == d.screen_idx then on_console else on_screen n, record d { locks = l }))
        × sem.Holds both l
  unfolding lock_screen
  lock_screen-calm d calm h =
      let apart : same (cons_buffer_lock n) (cons_lock n) ≡ false = ground arith in
      let (l, ran, h1) = take c o sem (cons_lock n) [] d.locks calm lt tt h in
      let (l', ran', h2) =
        take c o sem (cons_buffer_lock n) (cons_lock n ∷ []) l calm lt (apart, tt) h1 in
      (l', rw (ran, ran') refl, h2)

  -- `scr_unlock_screen` gives both back.
  pub scr_unlock_screen-Holds :
      (d : D c m o)
      → sem.Holds both d.locks
      → (l : o.State) × (scr_unlock_screen c m o n d ≡ done (record d { locks = l }))
        × sem.Holds [] l
  unfolding scr_unlock_screen signal_sem
  scr_unlock_screen-Holds d h =
      let apart : same (cons_buffer_lock n) (cons_lock n) ≡ false = ground arith in
      let (l, ran, h1) =
        sem.release (cons_buffer_lock n) (cons_lock n ∷ []) d.locks lt (apart, tt) h in
      let (l', ran', h2) = sem.release (cons_lock n) [] l lt tt h1 in (l', rw (ran, ran') refl, h2)
