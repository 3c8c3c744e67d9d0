-- ===== src/Console/Session.antt =====
-- text_console.c over the semaphores of kernel/sem.c, from `console_init` on: the threads' calls of
-- `putbytes`, one after the other.
use timix_next.Prelude.{
  ℕ, ◌<◌, ◌≡◌, ◌≢◌, refl, false, some, List, [], arith, inl, inr, Bool-cases, ◌==◌, if◌then◌else◌,
  update,
}
use timix_next.Prelude.Int.{pos}
use timix_next.Prelude.Run.{done}
use timix_next.Prelude.Errno.{minus_eintr}
use timix_next.Console.Config.{Config, Memcpy}
use timix_next.Console.Screen.{Screen, scr_putbytes}
use timix_next.Console.Legal.{IsConfig, IsLegal, scr_putbytes-IsLegal}
use timix_next.Console.Driver.{SemOps, Driver, cursor_sync}
use timix_next.Console.Api.{set_buffer, sync_if_console, putbytes}
use timix_next.Console.Locks.{IsSem, NeverInterrupted, lock_screen-calm, scr_unlock_screen-Holds}
use timix_next.Console.Calls.{work, locked-screen, locked-console}

-- Screen `k` where screen `i` is shown on the console
abbrev look : ℕ → Screen → (ℕ → Screen) → ℕ → Screen
look i front back k = if k == i then front else back k

look_front :
    (n i k : ℕ) (s front : Screen) (back : ℕ → Screen)
    → n ≡ i
    → look i s back k ≡ update (look i front back) n s k
unfolding update
look_front n i k s front back e =
    rw e (elim (Bool-cases (k == i)) [ inl here ↦ rw here refl | inr away ↦ rw away refl ])

look_behind :
    (n i k : ℕ) (s front : Screen) (back : ℕ → Screen)
    → n ≢ i
    → look i front (update back n s) k ≡ update (look i front back) n s k
unfolding update
look_behind n i k s front back ne = elim (Bool-cases (k == n)) [
  | inl here ↦ let away : (k == i) ≡ false = ground (arith, here, ne) in rw (here, away) refl
  | inr there ↦ rw there refl
]

module _ (c : Config) (m : Memcpy) (o : SemOps) where
  -- What a thread of screen `n` writes to: the console while the screen is shown.
  abbrev pub shown : Driver c m o → ℕ → Screen
  shown d = look d.screen_idx d.console d.screens

  -- `putbytes` on screen `n` has returned 0 with `e`, and the screen is `s` then.
  pub record Printed (n : ℕ) (str : List ℕ) (s : Screen) (d e : Driver c m o) : Type 0 where
    pub wrote : scr_putbytes c m str (shown d n) ≡ some s
    pub legal : IsLegal c s
    pub ran : putbytes c m o n str d ≡ done (pos 0, e)
    pub current : e.screen_idx ≡ d.screen_idx
    pub screens : (k : ℕ) → shown e k ≡ update (shown d) n s k

  pub putbytes-Printed :
      (n : ℕ) (str : List ℕ) (d : Driver c m o) (sem : IsSem c o)
      → NeverInterrupted c o sem
      → sem.Holds [] d.locks
      → IsConfig c
      → n < c.screen_count
      → IsLegal c (shown d n)
      → (s : Screen) × (e : Driver c m o) × Printed n str s d e × sem.Holds [] e.locks
  unfolding putbytes set_buffer sync_if_console cursor_sync
  putbytes-Printed n str d sem calm h g lt l =
      let (s, wrote, legal) = scr_putbytes-IsLegal c m str (shown d n) g l in
      let (k, e, h1) = lock_screen-calm c m o sem n lt d calm h in
      elim (Bool-cases (n == d.screen_idx)) [
        | inl here ↦
            let d2 = cursor_sync c m o (record d { console = s; locks = k }) in
            let (k', back, h2) = scr_unlock_screen-Holds c m o sem n lt d2 h1 in
            (
              s,
              record d2 { locks = k' },
              record {
                wrote = wrote;
                legal = legal;
                ran =
                    locked-console c m o n minus_eintr (work c m o str) (sync_if_console c m o) d lt
                      {a = pos 0} {s = s} (rw here at e) (rw (rw here at wrote) refl) back;
                current = refl;
                screens = λ j. look_front n _ j s d.console d.screens (ground (arith, here));
              },
              h2,
            )
        | inr away ↦
            let (k', back, h2) =
              scr_unlock_screen-Holds c m o sem n lt
                (record d { screens = update d.screens n s; locks = k }) h1 in
            (
              s,
              record d { screens = update d.screens n s; locks = k' },
              record {
                wrote = wrote;
                legal = legal;
                ran =
                    locked-screen c m o n minus_eintr (work c m o str) (sync_if_console c m o) d lt
                      {a = pos 0} {s = s} (rw away at e) (rw (rw away at wrote) refl) back;
                current = refl;
                screens = λ j. look_behind n _ j s d.console d.screens (ground (arith, away));
              },
              h2,
            )
      ]
