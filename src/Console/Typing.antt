-- ===== src/Console/Typing.antt =====
-- What one ordinary character does to the screen, and what can be read back.
use timix_next.Prelude.{
  ℕ, ◌+◌, ◌-◌, ◌*◌, ◌≤◌, ◌<◌, ◌≡◌, ◌≢◌, ◌∙◌, true, not, ◌&&◌, some, inl, arith, update, update_ne,
  eqb_false, Ends, ◌>>=◌,
}
use timix_next.Prelude.Int.{pos, leb_ℤ, ◌+ℤ◌, ◌-ℤ◌}
use timix_next.Console.Config.{Config, Memcpy}
use timix_next.Console.Screen.{
  Screen, to_char, to_byte, hidden, blank, scr_draw_char, scr_get_char, load, term_char_index,
  scrollback, wrap_right, wrap_left, pending, scroll_down, check_cursor, typed, advance,
  scr_putbyte,
}
use timix_next.Console.Draw.{draw_char_inside, draw_char_at, draw_char_outside, cell}
use timix_next.Console.Legal.{scrollback-Scrolled}
use timix_next.Console.Content.{select_within, index-lt}

-- A character that is none of '\n', '\r' and '\b'.
abbrev pub IsPlain : ℕ → Type 0
IsPlain ch = (ch ≢ b'\n') × (ch ≢ b'\r') × (ch ≢ 8)

-- The screen with the cursor in a given column and line.
abbrev pub at : ℕ → ℕ → Screen → Screen
at k r s = record s { cons_cur_x = pos k; cons_cur_y = pos r }

module _ (c : Config) where
  open c use {width, height, clear_color}

  abbrev pub put : ℕ → ℕ → ℕ → Screen → Screen
  put k r ch s = record s {
    cons_buf = update s.cons_buf (r * width + k) (cell c ch s.cons_cur_color);
  }

  typed-at : (k r : ℕ) (s : Screen) → k + 1 < width → typed c (at k r s) ≡ at (k + 1) r s
  unfolding typed ◌+ℤ◌
  typed-at k r s h = ground arith

  wrap-at : (k r : ℕ) (s : Screen) → k < width → wrap_left c (wrap_right c (at k r s)) ≡ at k r s
  unfolding wrap_left wrap_right
  wrap-at k r s h = ground arith

  module _ (m : Memcpy) where
    advance-plain :
        (ch : ℕ) (s : Screen)
        → IsPlain ch
        → advance c m ch s ≡ (
            scr_draw_char c s.cons_cur_y s.cons_cur_x ch s.cons_cur_color s >>= λ t.
            some (typed c t))
    unfolding advance
    advance-plain ch s (a, b, d) = rw (eqb_false a, eqb_false b, eqb_false d)

    check_cursor-at :
        (k r : ℕ) (s : Screen)
        → k < width
        → r < height
        → check_cursor c m (at k r s) ≡ some (at k r s)
    unfolding check_cursor scroll_down
    check_cursor-at k r s p q = rw (wrap-at k r s p) (ground arith)

    -- Away from the right edge an ordinary character is drawn at the cursor in the current color,
    -- the cursor moves one column to the right and the character under it is blanked.
    pub scr_putbyte-plain :
        (ch k r : ℕ) (s : Screen)
        → IsPlain ch
        → k + 1 < width
        → r < height
        → scr_putbyte c m ch (at k r s) ≡ some (at (k + 1) r (put (k + 1) r blank (put k r ch s)))
    unfolding scr_putbyte
    scr_putbyte-plain ch k r s plain p q =
        rw
          (
            advance-plain ch (at k r s) plain,
            draw_char_inside c r k ch s.cons_cur_color (at k r s) q (omega arith),
            typed-at k r (put k r ch s) p,
            check_cursor-at (k + 1) r (put k r ch s) p q,
          )
          (draw_char_inside c r (k + 1) blank s.cons_cur_color (at (k + 1) r (put k r ch s)) q p)

    one_line : (pos height -ℤ pos height) +ℤ pos 1 ≡ pos 1
    unfolding ◌+ℤ◌ ◌-ℤ◌
    one_line = ground arith

    must_scroll :
        (s : Screen) → (not (pending c (at 1 height s)) && leb_ℤ (pos height) (pos height)) ≡ true
    unfolding pending
    must_scroll s = ground arith

    check_cursor-below :
        (s t : Screen)
        → 1 < width
        → scrollback c m (pos 1) (at 1 height s) ≡ some t
        → check_cursor c m (at 1 height s) ≡ some t
    unfolding check_cursor scroll_down
    check_cursor-below s t p e = rw (wrap-at 1 height s p, must_scroll s, one_line) e

    last_line : 0 < height → pos height -ℤ pos 1 ≡ pos (height - 1)
    unfolding ◌-ℤ◌
    last_line h = ground arith

    -- While the cursor is hidden and waits below the last line, the next ordinary character is not
    -- drawn: the screen scrolls, and column 0 of the last line is blank instead.
    pub scr_putbyte-pending :
        (ch : ℕ) (s : Screen)
        → IsPlain ch
        → 1 < width
        → 0 < height
        → s.cons_cur_state ≡ hidden
        → Ends
            (scr_putbyte c m ch (at 0 height s))
            λ t. (t.cons_buf ((height - 1) * width) ≡ cell c blank clear_color)
    unfolding scr_putbyte
    scr_putbyte-pending ch s plain w h hid =
        let (t, ran, done) = scrollback-Scrolled c m 1 (at 1 height s) (omega arith) in
        (
          record t {
            cons_buf = update t.cons_buf ((height - 1) * width + 1) (cell c blank t.cons_cur_color);
          },
          rw
              (
                advance-plain ch (at 0 height s) plain,
                draw_char_outside c (pos height) (pos 0) ch s.cons_cur_color (at 0 height s)
                    (inl (omega arith)),
                typed-at 0 height s w,
                check_cursor-below s t w ran,
              )
              (draw_char_at c (height - 1) 1 blank t.cons_cur_color t (done.line ∙ last_line h)
                done.column (omega arith) w),
          update_ne _ _ _ (omega arith)
              ∙ done.cells ((height - 1) * width)
              ∙ select_within c ((height - 1) * width) (height * width) ((height - 1) * width) _ _
                  (omega arith) (grind arith),
        )

  abbrev put_cell : ℕ → ℕ → ℕ → ℕ → Screen → Screen
  put_cell r k ch color s = record s {
    cons_buf = update s.cons_buf (r * width + k) (cell c ch color);
  }

  get_char-put :
      (r k ch color : ℕ) (s : Screen)
      → r < height
      → k < width
      → k < height
      → scr_get_char c
          (pos r)
          (pos k)
          (record s { cons_buf = update s.cons_buf (r * width + k) (cell c ch color) })
        ≡ some (to_char c.char_signed (to_byte ch))
  unfolding scr_get_char term_char_index load update
  get_char-put r k ch color s p q low = ground (arith, index-lt c r k p q)

  get_char_right :
      (r k : ℕ) (s : Screen)
      → r < height
      → k < width
      → height ≤ k
      → scr_get_char c (pos r) (pos k) s ≡ some (pos 0)
  unfolding scr_get_char
  get_char_right r k s p q high = ground arith

  -- At a row and column of the screen `scr_get_char` gives back the `char` that `scr_draw_char` put
  -- there, which keeps the low byte of the `int` that it is given, if the column is below the number
  -- of rows, and 0 if it is not. A byte from 128 on is a negative `char` where `char` is signed.
  pub get_char-draw_char :
      (r k ch color : ℕ) (s : Screen)
      → r < height
      → k < width
      → let read = scr_draw_char c (pos r) (pos k) ch color s >>= scr_get_char c (pos r) (pos k) in
        (k < height → read ≡ some (to_char c.char_signed (to_byte ch)))
        × (height ≤ k → read ≡ some (pos 0))
  get_char-draw_char r k ch color s p q =
      rw (draw_char_inside c r k ch color s p q)
        (get_char-put r k ch color s p q, get_char_right r k (put_cell r k ch color s) p q)
