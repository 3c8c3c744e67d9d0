-- ===== src/Console/Refine.antt =====
-- text_console.c over kernel/sem.c does what separate terminals do.
use timix_next.Prelude.{
  ℕ, ◌<◌, ◌≡◌, ◌≢◌, refl, ◌∙◌, ap, List, [], ◌∷◌, Ptr, arith, inl, inr, Bool-cases, ◌==◌, map,
  update,
}
use timix_next.Prelude.Int.{pos}
use timix_next.Prelude.Run.{done}
use timix_next.Sync.Kernel.{SchedOps}
use timix_next.Console.Config.{Config, Memcpy, IsMemcpy}
use timix_next.Console.Screen.{Screen}
use timix_next.Console.Legal.{IsConfig, IsLegal}
use timix_next.Console.Driver.{console_init, scr_set_screen}
use timix_next.Console.Switch.{set_screen-Switched, scr_set_screen_bounds}
use timix_next.Console.Sems.{sems}
use timix_next.Console.Ready.{Ready, kernel_sem, kernel_sem-calm}
use timix_next.Console.Init.{console_init-Begun, Begun-Ready}
use timix_next.Console.Session.{shown, putbytes-Printed}
use timix_next.Console.Terminals.{
  Call, print, show, Console, run_as, exec, exec_all, Does, DoesAll, Allowed, AllAllowed, Rests,
  Alike-IsLegal, Alike-refl, Switched-shown,
}

module _ (c : Config) (m : Memcpy) (so : SchedOps) where
  -- The screens as the threads see them
  abbrev view : Console c m so → ℕ → Screen
  view d = shown c m (sems so) d

  -- A call answers 0, does to the terminals what it should, and rests.
  abbrev Ends : Call → Console c m so → Type 0
  Ends call d =
      (e : Console c m so) × (exec c m so call d ≡ done (pos 0, e))
      × Does c m so call (view d) (view e)
      × Rests c m so e

  print-Does :
      (t : Ptr) (n : ℕ) (str : List ℕ) (d : Console c m so)
      → IsConfig c
      → n < c.screen_count
      → Rests c m so d
      → Ends (print t n str) d
  unfolding exec update
  print-Does t n str d g lt r =
      let (s, e, p, locks) =
        putbytes-Printed c m (sems so) n str (run_as c m so t d) (kernel_sem so c)
          (kernel_sem-calm so c) (record { quiet = r.locks.quiet; left = r.locks.left }) g lt
          (r.legal n lt) in
      (
        e,
        p.ran,
        (s, p.wrote, p.screens),
        record {
          locks = locks;
          index = rw (p.current) (r.index);
          legal = λ k kt. elim (Bool-cases (k == n)) [
            | inl here ↦ rw (p.screens k, here) (p.legal)
            | inr away ↦ rw (p.screens k, away) (r.legal k kt)
          ];
        },
      )

  show-Does :
      (t : Ptr) (n : ℕ) (d : Console c m so)
      → IsMemcpy m
      → n < c.screen_count
      → Rests c m so d
      → Ends (show t n) d
  unfolding exec
  show-Does t n d ok lt r =
      let d1 = run_as c m so t d in
      let rest : Ready so c [] d1.locks = record { quiet = r.locks.quiet; left = r.locks.left } in
      elim (Bool-cases (n == d.screen_idx)) [
        | inl here ↦
            let h : n ≡ d.screen_idx = ground (arith, here) in
            let (_, already, _, _) = scr_set_screen_bounds c m (sems so) d1 r.index in
            (
              d1,
              ap (λ k. scr_set_screen c m (sems so) (pos k) d1) h ∙ already,
              λ k. Alike-refl c m so (view d k),
              record { locks = rest; index = r.index; legal = r.legal },
            )
        | inr away ↦
            let ne : n ≢ d.screen_idx = ground (arith, away) in
            let (e, ran, w, locks) =
              set_screen-Switched c m (sems so) n d1 (kernel_sem so c) rest (kernel_sem-calm so c)
                ok lt r.index ne in
            (
              e,
              ran,
              λ k. Switched-shown c m so n k d1 e ne w,
              record {
                locks = locks;
                index = rw (w.current) lt;
                legal = λ k kt.
                    Alike-IsLegal c m so _ _ (Switched-shown c m so n k d1 e ne w) (r.legal k kt);
              },
            )
      ]

  exec_all-DoesAll :
      (cs : List Call) (d : Console c m so)
      → IsConfig c
      → IsMemcpy m
      → AllAllowed c m so cs
      → Rests c m so d
      → (e : Console c m so) × (exec_all c m so cs d ≡ done (map (λ call. pos 0) cs, e))
        × DoesAll c m so cs (view d) (view e)
        × Rests c m so e
  unfolding exec_all
  exec_all-DoesAll [] d g ok all r = (d, refl, λ k. refl, r)
  exec_all-DoesAll (call ∷ cs) d g ok (one, all) r =
      let (d1, ran, does, r1) = step call one in
      let (e, ran_all, does_all, r2) = exec_all-DoesAll cs d1 g ok all r1 in
      (e, rw (ran, ran_all) refl, (view d1, does, does_all), r2)
    where
      step : (call : Call) → Allowed c m so call → Ends call d
      step (print t n str) lt = print-Does t n str d g lt r
      step (show t n) lt = show-Does t n d ok lt r

  -- After `console_init` over the semaphores of kernel/sem.c, any sequence of `putbytes` by threads
  -- of the console's screens and of `scr_set_screen` to one of them, one call after the other, runs
  -- to its end: no thread sleeps, no assertion fails and nothing is reached outside of a buffer,
  -- every call answers 0, and no semaphore is held in the end. Each screen is a terminal of its
  -- own: printing writes to the one of the thread and to no other, as `scr_putbytes` does, whichever
  -- screen is shown, and showing a screen changes the contents, the cursor and the color of none.
  -- `memcpy` copies, the screen has a column and two rows, one of the screens is shown, and the
  -- console's cursor is legal.
  pub console_init-DoesAll :
      (cs : List Call) (d : Console c m so)
      → IsConfig c
      → IsMemcpy m
      → d.screen_idx < c.screen_count
      → IsLegal c d.console
      → AllAllowed c m so cs
      → (e : Console c m so) × (exec_all c m so cs (console_init c m (sems so) d)
          ≡ done (map (λ call. pos 0) cs, e))
        × DoesAll c m so cs (view (console_init c m (sems so) d)) (view e)
        × Rests c m so e
  console_init-DoesAll cs d g ok shown_lt legal all =
      let d0 = console_init c m (sems so) d in
      let b = console_init-Begun so c m d in
      exec_all-DoesAll cs d0 g ok all (record {
        locks = Begun-Ready so c m d d0 b;
        index = rw (b.current) shown_lt;
        legal = λ k kt. elim (Bool-cases (k == d0.screen_idx)) [
          | inl here ↦ rw (here, b.console) legal
          | inr away ↦ rw away (corner (d0.screens k) (b.cursor k kt).0 (b.cursor k kt).1)
        ];
      })
    where
      corner : (s : Screen) → s.cons_cur_x ≡ pos 0 → s.cons_cur_y ≡ pos 0 → IsLegal c s
      corner s x y = record {
        left = rw x (ground arith);
        right = rw x (ground (arith, g.wide));
        top = rw y (ground arith);
        bottom = rw y (ground (arith, g.tall));
        waiting = λ e. x;
      }
