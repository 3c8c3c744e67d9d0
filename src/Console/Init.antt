-- ===== src/Console/Init.antt =====
-- `console_init` of text_console.c over the semaphores of kernel/sem.c.
use timix_next.Prelude.{
  ℕ, zero, suc, ◌+◌, ◌<◌, ◌≡◌, ◌≢◌, refl, [], arith, inl, inr, Bool-cases, ◌==◌, update_self,
  update_ne,
}
use timix_next.Prelude.Int.{pos}
use mathlib.Core.Path.{subst}
use timix_next.Sync.Kernel.{SchedOps}
use timix_next.Console.Config.{Config, Memcpy}
use timix_next.Console.Driver.{
  SemName, console_lock, console_buffer_lock, cons_lock, cons_buffer_lock, Driver, init_screen,
  init_screens, console_init,
}
use timix_next.Console.Locks.{Known}
use timix_next.Console.Sems.{Sems, sems}
use timix_next.Console.Ready.{Ready}
use timix_next.Console.Fresh.{Fresh, init_sem, Fresh-new, Fresh-kept}

module _ (so : SchedOps) where
  -- The semaphores of the console and of the first `i` screens
  abbrev Below : ℕ → SemName → Type 0
  Below i console_lock = Unit
  Below i console_buffer_lock = Unit
  Below i (cons_lock j) = j < i
  Below i (cons_buffer_lock j) = j < i

  module _ (c : Config) (m : Memcpy) where
    abbrev Console : Type 0
    Console = Driver c m (sems so)

    -- What the loop of `console_init` has done when the first `i` screens are set.
    pub record Begun (i : ℕ) (d e : Console) : Type 0 where
      pub fresh : (k : SemName) → Below i k → Fresh so k e.locks
      pub cursor :
          (j : ℕ) → j < i → ((e.screens j).cons_cur_x ≡ pos 0) × ((e.screens j).cons_cur_y ≡ pos 0)
      pub console : e.console ≡ d.console
      pub current : e.screen_idx ≡ d.screen_idx

    either_lock :
        (i j : ℕ) (s : Sems so)
        → j < i + 1
        → (j < i → Fresh so (cons_lock j) s)
        → Fresh so (cons_lock j) (init_sem so (cons_buffer_lock i) (init_sem so (cons_lock i) s))
    either_lock i j s lt f =
        Fresh-kept so (cons_lock j) (cons_buffer_lock i) _ (elim (Bool-cases (j == i)) [
          | inl here ↦ Fresh-new so (cons_lock j) (cons_lock i) s (ground (arith, here))
          | inr away ↦ Fresh-kept so (cons_lock j) (cons_lock i) s (f (ground (arith, away, lt)))
        ])

    either_buffer_lock :
        (i j : ℕ) (s : Sems so)
        → j < i + 1
        → (j < i → Fresh so (cons_buffer_lock j) s)
        → Fresh so
            (cons_buffer_lock j)
            (init_sem so (cons_buffer_lock i) (init_sem so (cons_lock i) s))
    either_buffer_lock i j s lt f = elim (Bool-cases (j == i)) [
      | inl here ↦
          Fresh-new so (cons_buffer_lock j) (cons_buffer_lock i) (init_sem so (cons_lock i) s)
            (ground (arith, here))
      | inr away ↦
          Fresh-kept so (cons_buffer_lock j) (cons_buffer_lock i) _
            (Fresh-kept so (cons_buffer_lock j) (cons_lock i) s (f (ground (arith, away, lt))))
    ]

    init_screen-Begun :
        (i : ℕ) (d e : Console) → Begun i d e → Begun (i + 1) d (init_screen c m (sems so) i e)
    unfolding init_screen
    init_screen-Begun i d e b = record {
      fresh = fresh;
      cursor = λ j lt. elim (Bool-cases (j == i)) [
        | inl here ↦ let h : j ≡ i = ground (arith, here) in rw (h, update_self) (refl, refl)
        | inr away ↦
            let ne : j ≢ i = ground (arith, away) in
            rw (update_ne e.screens i _ ne) (b.cursor j (ground (arith, away, lt)))
      ];
      console = b.console;
      current = b.current;
    }
      where
        fresh :
            (k : SemName)
            → Below (i + 1) k
            → Fresh so k (init_sem so (cons_buffer_lock i) (init_sem so (cons_lock i) e.locks))
        fresh console_lock h =
            Fresh-kept so _ (cons_buffer_lock i) _
              (Fresh-kept so _ (cons_lock i) _ (b.fresh console_lock tt))
        fresh console_buffer_lock h =
            Fresh-kept so _ (cons_buffer_lock i) _
              (Fresh-kept so _ (cons_lock i) _ (b.fresh console_buffer_lock tt))
        fresh (cons_lock j) h = either_lock i j e.locks h (λ lt. b.fresh (cons_lock j) lt)
        fresh (cons_buffer_lock j) h =
            either_buffer_lock i j e.locks h (λ lt. b.fresh (cons_buffer_lock j) lt)

    init_screens-Begun :
        (n i : ℕ) (d e : Console) → Begun i d e → Begun (i + n) d (init_screens c m (sems so) n i e)
    unfolding init_screens
    init_screens-Begun zero i d e b = subst (λ k. Begun k d e) (omega arith) b
    init_screens-Begun (suc n) i d e b =
        subst
          (λ k. Begun k d (init_screens c m (sems so) n (i + 1) (init_screen c m (sems so) i e)))
          (omega arith)
          (init_screens-Begun n (i + 1) d (init_screen c m (sems so) i e)
            (init_screen-Begun i d e b))

    -- After `console_init` nobody holds a semaphore of the console, and the cursor of each screen is
    -- in the upper left corner.
    pub console_init-Begun : (d : Console) → Begun c.screen_count d (console_init c m (sems so) d)
    unfolding console_init
    console_init-Begun d =
        subst (λ k. Begun k d (console_init c m (sems so) d)) (omega arith)
          (init_screens-Begun c.screen_count 0 d
            (record d {
              locks = init_sem so console_buffer_lock (init_sem so console_lock d.locks);
            })
            (record {
              fresh = fresh;
              cursor = λ j lt. absurd (omega (arith, lt));
              console = refl;
              current = refl;
            }))
      where
        fresh :
            (k : SemName)
            → Below 0 k
            → Fresh so k (init_sem so console_buffer_lock (init_sem so console_lock d.locks))
        fresh console_lock h =
            Fresh-kept so console_lock console_buffer_lock (init_sem so console_lock d.locks)
              (Fresh-new so console_lock console_lock d.locks refl)
        fresh console_buffer_lock h =
            Fresh-new so console_buffer_lock console_buffer_lock (init_sem so console_lock d.locks)
              refl
        fresh (cons_lock j) h = absurd (omega (arith, h))
        fresh (cons_buffer_lock j) h = absurd (omega (arith, h))

    pub Begun-Ready : (d e : Console) → Begun c.screen_count d e → Ready so c [] e.locks
    Begun-Ready d e b = record {
      quiet = λ k known. (fresh k known).quiet;
      left = λ k known. (fresh k known).left;
    }
      where
        fresh : (k : SemName) → Known c k → Fresh so k e.locks
        fresh console_lock h = b.fresh console_lock h
        fresh console_buffer_lock h = b.fresh console_buffer_lock h
        fresh (cons_lock j) h = b.fresh (cons_lock j) h
        fresh (cons_buffer_lock j) h = b.fresh (cons_buffer_lock j) h
