-- ===== src/Console/Calls.antt =====
-- What the calls of text_console.c keep: other screens, and the locks.
use mathlib.Core.Option
use timix_next.Prelude.{
  ℕ, ◌<◌, ◌≡◌, ◌≢◌, ◌⊎◌, refl, ap, sym, ◌∙◌, true, Option, some, List, [], arith, update,
  update_self, update_ne, lt→ltb, eqb_false, inl, inr, ◌==◌,
}
use timix_next.Prelude.Int.{ℤ, pos}
use timix_next.Prelude.Run.{done}
use timix_next.Prelude.Errno.{minus_eintr}
use timix_next.Console.Config.{Config, Memcpy}
use timix_next.Console.Screen.{Screen, scr_putbytes}
use timix_next.Console.Legal.{IsConfig, IsLegal, scr_putbytes-IsLegal}
use timix_next.Console.Driver.{SemOps, Target, on_console, on_screen, nothing, cursor_sync}
use timix_next.Console.Locks.{IsSem, lock_screen-cases, scr_unlock_screen-Holds}
use timix_next.Console.Api.{
  D, lock_screen, scr_unlock_screen, set_buffer, sync_if_console, locked, putbytes,
}

module _ (c : Config) (m : Memcpy) (o : SemOps) where
  -- The driver's state but for the background screen `n` and the locks is the same.
  pub record OnlyScreen (n : ℕ) (d e : D c m o) : Type 0 where
    pub console : e.console ≡ d.console
    pub screen_idx : e.screen_idx ≡ d.screen_idx
    pub ports : e.ports ≡ d.ports
    pub others : (k : ℕ) → k ≢ n → e.screens k ≡ d.screens k

  module _ {A : Type 0} (n : ℕ) (refused : A) (work : Screen → Option (A × Screen))
      (after : Target → D c m o → D c m o) (d : D c m o) (lt : n < c.screen_count) where
    pub locked-refused :
        {d1 : D c m o}
        → lock_screen c m o n d ≡ done (nothing, d1)
        → locked c m o n refused work after d ≡ done (refused, d1)
    unfolding locked
    locked-refused e = rw (lt→ltb n c.screen_count lt, e)

    pub locked-screen :
        {d1 e : D c m o} {a : A} {s : Screen}
        → lock_screen c m o n d ≡ done (on_screen n, d1)
        → work (d1.screens n) ≡ some (a, s)
        → scr_unlock_screen c m o n (after (on_screen n) (set_buffer c m o (on_screen n) s d1))
          ≡ done e
        → locked c m o n refused work after d ≡ done (a, e)
    unfolding locked
    locked-screen e w u = rw (lt→ltb n c.screen_count lt, e, w, u)

    pub locked-console :
        {d1 e : D c m o} {a : A} {s : Screen}
        → lock_screen c m o n d ≡ done (on_console, d1)
        → work d1.console ≡ some (a, s)
        → scr_unlock_screen c m o n (after on_console (set_buffer c m o on_console s d1)) ≡ done e
        → locked c m o n refused work after d ≡ done (a, e)
    unfolding locked
    locked-console e w u = rw (lt→ltb n c.screen_count lt, e, w, u)

  -- What `putbytes` does to the buffer.
  abbrev pub work : List ℕ → Screen → Option (ℤ × Screen)
  work str s = Option.map (λ t. (pos 0, t)) (scr_putbytes c m str s)

  -- The call was interrupted and did nothing, or it wrote the string to the screen.
  abbrev pub Wrote : List ℕ → ℤ → (before after : Screen) → Type 0
  Wrote str ret s t =
      ((ret ≡ minus_eintr) × (t ≡ s)) ⊎ ((ret ≡ pos 0) × (scr_putbytes c m str s ≡ some t))

  -- Where nobody holds a semaphore and from a legal cursor, `putbytes` of a thread whose screen is
  -- in the background returns, touches that screen only (and no port), and leaves no semaphore
  -- held, also when it is interrupted. A wait for a semaphore that nobody holds comes back, with it
  -- or interrupted.
  pub putbytes_background :
      (n : ℕ) (str : List ℕ) (d : D c m o) (sem : IsSem c o)
      → sem.Holds [] d.locks
      → IsConfig c
      → n < c.screen_count
      → n ≢ d.screen_idx
      → IsLegal c (d.screens n)
      → (ret : ℤ) × (e : D c m o) × (putbytes c m o n str d ≡ done (ret, e))
        × sem.Holds [] e.locks
        × OnlyScreen n d e
        × Wrote str ret (d.screens n) (e.screens n)
  unfolding putbytes set_buffer sync_if_console
  putbytes_background n str d sem h g lt ne l =
      let (t, ran, _) = scr_putbytes-IsLegal c m str (d.screens n) g l in
      elim (lock_screen-cases c m o sem n lt d h) [
        | inl (k, e, h1) ↦ (
          minus_eintr,
          record d { locks = k },
          locked-refused n minus_eintr (work str) (sync_if_console c m o) d lt e,
          h1,
          record { console = refl; screen_idx = refl; ports = refl; others = λ k h. refl },
          inl (refl, refl),
        )
        | inr (k, e, h1) ↦
            let (k', back, h2) =
              scr_unlock_screen-Holds c m o sem n lt
                (record d { screens = update d.screens n t; locks = k }) h1 in
            (
              pos 0,
              record d { screens = update d.screens n t; locks = k' },
              locked-screen n minus_eintr (work str) (sync_if_console c m o) d lt {a = pos 0}
                  {s = t} (rw (eqb_false ne) at e) (rw ran refl) back,
              h2,
              record {
                console = refl;
                screen_idx = refl;
                ports = refl;
                others = λ k h. update_ne _ _ _ h;
              },
              inr (refl, ran ∙ ap some (sym (update_self _ _ _))),
            )
      ]

  -- Where nobody holds a semaphore and from a legal cursor, `putbytes` of a thread whose screen is
  -- shown returns, touches no background screen, and leaves no semaphore held; if it was
  -- interrupted it wrote nothing to the ports either. A wait for a semaphore that nobody holds
  -- comes back, with it or interrupted.
  pub putbytes_foreground :
      (n : ℕ) (str : List ℕ) (d : D c m o) (sem : IsSem c o)
      → sem.Holds [] d.locks
      → IsConfig c
      → n < c.screen_count
      → n ≡ d.screen_idx
      → IsLegal c d.console
      → (ret : ℤ) × (e : D c m o) × (putbytes c m o n str d ≡ done (ret, e))
        × sem.Holds [] e.locks
        × (e.screens ≡ d.screens)
        × (e.screen_idx ≡ d.screen_idx)
        × Wrote str ret d.console e.console
        × (ret ≡ minus_eintr → e.ports ≡ d.ports)
  unfolding putbytes set_buffer sync_if_console cursor_sync
  putbytes_foreground n str d sem h g lt eq l =
      let (t, ran, _) = scr_putbytes-IsLegal c m str d.console g l in
      let shown : (n == d.screen_idx) ≡ true = ground arith in
      elim (lock_screen-cases c m o sem n lt d h) [
        | inl (k, e, h1) ↦ (
          minus_eintr,
          record d { locks = k },
          locked-refused n minus_eintr (work str) (sync_if_console c m o) d lt e,
          h1,
          refl,
          refl,
          inl (refl, refl),
          λ _. refl,
        )
        | inr (k, e, h1) ↦
            let d2 = cursor_sync c m o (record d { console = t; locks = k }) in
            let (k', back, h2) = scr_unlock_screen-Holds c m o sem n lt d2 h1 in
            (
              pos 0,
              record d2 { locks = k' },
              locked-console n minus_eintr (work str) (sync_if_console c m o) d lt {a = pos 0}
                  {s = t} (rw shown at e) (rw ran refl) back,
              h2,
              refl,
              refl,
              inr (refl, ran),
              λ h. cc,
            )
      ]
