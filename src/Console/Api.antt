-- ===== src/Console/Api.antt =====
-- drivers/text_console.c, the functions that threads call: each takes the two locks of the calling
-- thread's screen `n`, works on the buffer that shows it, and releases the locks.
use timix_next.Prelude.{ℕ, ◌*◌, ◌/◌, not, Option, none, some, List, update, ◌==◌, if◌then◌else◌}
use mathlib.Core.Option
use timix_next.Prelude.Int.{ℤ, pos, negsuc, eqb_ℤ}
use timix_next.Prelude.Run.{Run, done, ◌>>=◌, access}
use timix_next.Prelude.Errno.{minus_eintr, minus_einval}
use timix_next.Console.Config.{Config, Memcpy}
use timix_next.Console.Screen.{
  Screen, scr_draw_char, scr_putbyte, scr_putbytes, scr_clear_console, scr_set_term_color,
  scr_get_term_color, scr_set_cursor, scr_get_cursor, scr_hide_cursor, scr_show_cursor,
  scr_get_char, to_char,
}
use timix_next.Console.Driver.{
  SemOps, cons_lock, cons_buffer_lock, Target, on_console, on_screen, nothing, Driver, cursor_sync,
  signal_sem, screen_at,
}

module _ (c : Config) (m : Memcpy) (o : SemOps) where
  abbrev pub D : Type 0
  D = Driver c m o

  -- `scr_lock_thread_screen` behind the access to `screens[n]`.
  unfoldable pub lock_screen : ℕ → D → Run (Target × D)
  lock_screen n d = o.wait (cons_lock n) d.locks >>= λ (ret, l).
      if eqb_ℤ ret minus_eintr
      then done (nothing, record d { locks = l })
      else (o.wait (cons_buffer_lock n) l >>= λ (ret', l').
          if eqb_ℤ ret' minus_eintr
          then (o.signal (cons_lock n) l' >>= λ l''. done (nothing, record d { locks = l'' }))
          else done
              (if n == d.screen_idx then on_console else on_screen n, record d { locks = l' }))

  unfoldable pub scr_lock_thread_screen : ℕ → D → Run (Target × D)
  unfolding screen_at
  scr_lock_thread_screen n d = screen_at c m o (pos n) >>= λ k. lock_screen k d

  unfoldable pub scr_unlock_screen : ℕ → D → Run D
  unfolding signal_sem
  scr_unlock_screen n d =
      signal_sem c m o (cons_buffer_lock n) d >>= λ d1. signal_sem c m o (cons_lock n) d1

  -- `*buf`, and a write to it
  unfoldable pub buffer : Target → D → Screen
  buffer on_console d = d.console
  buffer (on_screen n) d = d.screens n
  buffer nothing d = d.console

  unfoldable pub set_buffer : Target → Screen → D → D
  set_buffer on_console s d = record d { console = s }
  set_buffer (on_screen n) s d = record d { screens = update d.screens n s }
  set_buffer nothing s d = d

  -- `if (scr_is_console(buf)) cursor_sync();`
  unfoldable pub sync_if_console : Target → D → D
  unfolding cursor_sync
  sync_if_console on_console d = cursor_sync c m o d
  sync_if_console (on_screen n) d = d
  sync_if_console nothing d = d

  -- The shape of every call: lock, give up with `refused` when interrupted, work, unlock.
  unfoldable pub locked :
      {A : Type 0} → ℕ → A → (Screen → Option (A × Screen)) → (Target → D → D) → D → Run (A × D)
  unfolding scr_lock_thread_screen scr_unlock_screen buffer set_buffer
  locked n refused work after d = scr_lock_thread_screen n d >>= λ (t, d1). elim t [
    | nothing ↦ done (refused, d1)
    | on_console ↦ access (work d1.console) >>= λ (a, s).
        scr_unlock_screen n (after on_console (set_buffer on_console s d1)) >>= λ d2. done (a, d2)
    | on_screen k ↦ access (work (d1.screens k)) >>= λ (a, s).
        scr_unlock_screen n (after (on_screen k) (set_buffer (on_screen k) s d1)) >>= λ d2.
        done (a, d2)
  ]

  abbrev no_sync : Target → D → D
  no_sync t d = d

  abbrev with_result : {A : Type 0} → A → Option Screen → Option (A × Screen)
  with_result a r = Option.map (λ s. (a, s)) r

  unfoldable pub putbyte : ℕ → ℕ → D → Run (ℤ × D)
  unfolding locked sync_if_console scr_putbyte
  putbyte n ch =
      locked n minus_eintr (λ s. with_result (to_char c.char_signed ch) (scr_putbyte c m ch s))
        sync_if_console

  unfoldable pub putbytes : ℕ → List ℕ → D → Run (ℤ × D)
  unfolding locked sync_if_console scr_putbytes
  putbytes n str =
      locked n minus_eintr (λ s. with_result (pos 0) (scr_putbytes c m str s)) sync_if_console

  unfoldable pub draw_char : ℕ → ℤ → ℤ → ℕ → ℕ → D → Run (Unit {0} × D)
  unfolding locked sync_if_console scr_draw_char
  draw_char n row col ch color =
      locked n tt (λ s. with_result tt (scr_draw_char c row col ch color s)) sync_if_console

  unfoldable pub clear_console : ℕ → D → Run (Unit {0} × D)
  unfolding locked scr_clear_console
  clear_console n = locked n tt (λ s. with_result tt (scr_clear_console c s)) no_sync

  -- The color is refused unless it fits VALID_COLOR_MASK.
  unfoldable pub cons_set_term_color : ℕ → ℤ → D → Run (ℤ × D)
  unfolding locked scr_set_term_color
  cons_set_term_color n (negsuc k) d = done (minus_einval, d)
  cons_set_term_color n (pos color) d =
      if not (color / 256 * 256 == 0)
      then done (minus_einval, d)
      else locked n minus_eintr (λ s. some (pos 0, scr_set_term_color c color s)) no_sync d

  -- The return value and `*color`, which is set only on success.
  unfoldable pub get_term_color : ℕ → D → Run ((ℤ × Option ℕ) × D)
  unfolding locked scr_get_term_color
  get_term_color n =
      locked n (minus_eintr, none) (λ s. some ((pos 0, some (scr_get_term_color c s)), s)) no_sync

  unfoldable pub set_cursor : ℕ → ℤ → ℤ → D → Run (ℤ × D)
  unfolding locked sync_if_console scr_set_cursor
  set_cursor n row col =
      locked n minus_eintr (λ s. some (scr_set_cursor c row col s)) sync_if_console

  -- The return value, and `*row` and `*col`, which are set only on success.
  unfoldable pub get_cursor : ℕ → D → Run ((ℤ × Option (ℤ × ℤ)) × D)
  unfolding locked scr_get_cursor
  get_cursor n =
      locked n (minus_eintr, none) (λ s. some ((pos 0, some (scr_get_cursor c s)), s)) no_sync

  unfoldable pub hide_cursor : ℕ → D → Run (ℤ × D)
  unfolding locked sync_if_console scr_hide_cursor
  hide_cursor n = locked n minus_eintr (λ s. some (pos 0, scr_hide_cursor c s)) sync_if_console

  unfoldable pub show_cursor : ℕ → D → Run (ℤ × D)
  unfolding locked sync_if_console scr_show_cursor
  show_cursor n = locked n minus_eintr (λ s. some (pos 0, scr_show_cursor c s)) sync_if_console

  unfoldable pub get_char : ℕ → ℤ → ℤ → D → Run (ℤ × D)
  unfolding locked scr_get_char
  get_char n row col =
      locked n minus_eintr (λ s. Option.map (λ ch. (ch, s)) (scr_get_char c row col s)) no_sync
