-- ===== src/Console/Screen.antt =====
-- drivers/text_console.c, the functions on one screen (`scr_…`, `scrollback`, `check_cursor`).
-- `none` is an access outside of the screen's buffer of width * height characters. An `int` is an
-- unbounded integer here. A `char` that is passed is its byte, a number below 256; an `int` that holds
-- a character or a color is not negative.
use timix_next.Prelude.{
  ℕ, ◌+◌, ◌-◌, ◌*◌, ◌%◌, Bool, true, false, ◌&&◌, ◌||◌, not, Option, none, some, List, [], ◌∷◌,
  update, ◌>>=◌, for_range, ltb, ◌==◌, if◌then◌else◌,
}
use timix_next.Prelude.Int.{
  ℤ, pos, negsuc, pos_part, neg_part, sub_ℕ, ltb_ℤ, leb_ℤ, eqb_ℤ, ◌+ℤ◌, ◌-ℤ◌,
}
use timix_next.Console.Config.{Char, Config, Cells, Memcpy}

-- CURSOR_STATE_VISIBLE and CURSOR_STATE_HIDDEN
pub data CursorState : Type 0 where
  visible hidden : CursorState

abbrev pub is_hidden : CursorState → Bool
is_hidden visible = false
is_hidden hidden = true

-- `struct console_screen`, less its two locks, which the driver's state holds
pub record Screen : Type 0 where
  pub cons_buf : Cells
  pub cons_cur_x : ℤ
  pub cons_cur_y : ℤ
  pub cons_cur_state : CursorState
  pub cons_cur_color : ℕ

abbrev pub blank : ℕ
blank = 0x20

-- A byte as a `char`, and an `int` that is not negative as the byte of its `char`
abbrev pub to_char : (char_signed : Bool) → ℕ → ℤ
to_char true b = if ltb b 128 then pos b else negsuc (255 - b)
to_char false b = pos b

abbrev pub to_byte : ℕ → ℕ
to_byte n = n % 256

module _ (c : Config) where
  open c use {width, height, clear_color}

  -- TERM_CHAR_INDEX
  unfoldable pub term_char_index : ℤ → ℤ → ℤ
  term_char_index row col =
      sub_ℕ (pos_part row * width + pos_part col) (neg_part row * width + neg_part col)

  -- `buf->cons_buf[index] = …`
  unfoldable pub store : ℤ → Char → Screen → Option Screen
  store (pos i) v s =
      if ltb i (width * height) then some (record s { cons_buf = update s.cons_buf i v }) else none
  store (negsuc i) v s = none

  unfoldable pub scr_draw_char : ℤ → ℤ → ℕ → ℕ → Screen → Option Screen
  unfolding term_char_index store
  scr_draw_char row col ch color s =
      if leb_ℤ (pos height) row || leb_ℤ (pos width) col
      then some s
      else store (term_char_index row col)
          (record { cc_code = to_byte ch; cc_color = to_byte color }) s

  -- `for (col = 0; col < CONSOLE_WIDTH; col++) scr_draw_char(buf, row, col, ' ', …)`
  unfoldable pub clear_row : ℕ → Screen → Option Screen
  unfolding scr_draw_char for_range
  clear_row row = for_range width 0 λ col. scr_draw_char (pos row) (pos col) blank clear_color

  unfoldable pub scr_clear_console : Screen → Option Screen
  unfolding clear_row
  scr_clear_console = for_range height 0 clear_row

  -- The first two tests of `check_cursor`.
  unfoldable pub wrap_right : Screen → Screen
  unfolding ◌+ℤ◌
  wrap_right s =
      if leb_ℤ (pos width) s.cons_cur_x
      then record s { cons_cur_x = pos 0; cons_cur_y = s.cons_cur_y +ℤ pos 1 }
      else s

  unfoldable pub wrap_left : Screen → Screen
  unfolding ◌-ℤ◌
  wrap_left s =
      if ltb_ℤ s.cons_cur_x (pos 0)
      then if ltb_ℤ (pos 0) s.cons_cur_y
        then record s { cons_cur_y = s.cons_cur_y -ℤ pos 1; cons_cur_x = pos width -ℤ pos 1 }
        else record s { cons_cur_x = pos 0 }
      else s

  -- The cursor waits in column 0 below the last line.
  unfoldable pub pending : Screen → Bool
  pending s =
      eqb_ℤ s.cons_cur_y (pos height) && is_hidden s.cons_cur_state && eqb_ℤ s.cons_cur_x (pos 0)

  -- `buf->cons_cur_x += 1` and the test that follows it in `scr_putbyte`.
  unfoldable pub typed : Screen → Screen
  unfolding wrap_right ◌+ℤ◌
  typed s = wrap_right (record s { cons_cur_x = s.cons_cur_x +ℤ pos 1 })

  module _ (m : Memcpy) where
    -- For a negative `n` or one above the height the length handed to `memcpy` is no length of the
    -- buffer.
    unfoldable pub scrollback : ℤ → Screen → Option Screen
    unfolding clear_row ◌-ℤ◌
    scrollback (negsuc n) s = none
    scrollback (pos n) s =
        if ltb height n
        then none
        else (for_range n (height - n) clear_row
              (record s { cons_buf = m.within s.cons_buf 0 (n * width) ((height - n) * width) })
            >>= λ t. some (record t { cons_cur_y = t.cons_cur_y -ℤ pos n }))

    unfoldable pub scroll_down : Screen → Option Screen
    unfolding pending scrollback ◌+ℤ◌ ◌-ℤ◌
    scroll_down s =
        if not (pending s) && leb_ℤ (pos height) s.cons_cur_y
        then scrollback ((s.cons_cur_y -ℤ pos height) +ℤ pos 1) s
        else some s

    unfoldable pub check_cursor : Screen → Option Screen
    unfolding wrap_right wrap_left scroll_down
    check_cursor s = scroll_down (wrap_left (wrap_right s))

    -- The `switch` of `scr_putbyte`.
    unfoldable pub advance : ℕ → Screen → Option Screen
    unfolding scr_draw_char ◌+ℤ◌ ◌-ℤ◌ typed
    advance ch s =
        if ch == b'\n'
        then some (record s { cons_cur_x = pos 0; cons_cur_y = s.cons_cur_y +ℤ pos 1 })
        else if ch == b'\r'
        then some (record s { cons_cur_x = pos 0 })
        else if ch == 8
        then some (record s { cons_cur_x = s.cons_cur_x -ℤ pos 1 })
        else (scr_draw_char s.cons_cur_y s.cons_cur_x ch s.cons_cur_color s >>= λ t. some (typed t))

    -- It returns the character that it is given, besides the screen.
    unfoldable pub scr_putbyte : ℕ → Screen → Option Screen
    unfolding advance check_cursor
    scr_putbyte ch s = advance ch s >>= λ t.
        check_cursor t >>= λ u. scr_draw_char u.cons_cur_y u.cons_cur_x blank u.cons_cur_color u

    unfoldable pub scr_putbytes : List ℕ → Screen → Option Screen
    unfolding scr_putbyte
    scr_putbytes [] s = some s
    scr_putbytes (ch ∷ str) s = scr_putbyte ch s >>= scr_putbytes str

  unfoldable pub scr_set_term_color : ℕ → Screen → Screen
  scr_set_term_color color s = record s { cons_cur_color = color }

  unfoldable pub scr_get_term_color : Screen → ℕ
  scr_get_term_color s = s.cons_cur_color

  -- The return value and the screen.
  unfoldable pub scr_set_cursor : ℤ → ℤ → Screen → ℤ × Screen
  scr_set_cursor row col s =
      if ltb_ℤ row (pos 0) || ltb_ℤ col (pos 0)
      then (negsuc 0, s)
      else if leb_ℤ (pos height) row || leb_ℤ (pos width) col
      then (negsuc 0, s)
      else (pos 0, record s { cons_cur_x = col; cons_cur_y = row })

  -- `*row` and `*col`
  unfoldable pub scr_get_cursor : Screen → ℤ × ℤ
  unfolding ◌+ℤ◌
  scr_get_cursor s =
      if is_hidden s.cons_cur_state && leb_ℤ (pos width) s.cons_cur_y
      then (s.cons_cur_y +ℤ pos 1, pos 0)
      else (s.cons_cur_y, s.cons_cur_x)

  unfoldable pub scr_hide_cursor : Screen → Screen
  scr_hide_cursor s = record s { cons_cur_state = hidden }

  unfoldable pub scr_show_cursor : Screen → Screen
  scr_show_cursor s = record s { cons_cur_state = visible }

  -- `buf->cons_buf[index].cc_code`
  unfoldable pub load : ℤ → Screen → Option ℕ
  load (pos i) s = if ltb i (width * height) then some (s.cons_buf i).cc_code else none
  load (negsuc i) s = none

  unfoldable pub scr_get_char : ℤ → ℤ → Screen → Option ℤ
  unfolding load term_char_index
  scr_get_char row col s =
      if ltb_ℤ row (pos 0) || ltb_ℤ col (pos 0) || leb_ℤ (pos height) row || leb_ℤ (pos height) col
      then some (pos 0)
      else (load (term_char_index row col) s >>= λ b. some (to_char c.char_signed b))
