-- ===== src/Console/Legal.antt =====
-- The cursor stays in a legal position, and no access leaves the buffer.
use timix_next.Prelude.{
  ℕ, ◌+◌, ◌-◌, ◌*◌, ◌≤◌, ◌<◌, ◌≡◌, refl, true, false, not, ◌&&◌, arith, Ends, Ends-bind, ltb, leb,
  ◌==◌, if◌then◌else◌, inl, inr, List, [], ◌∷◌, Bool-cases,
}
use timix_next.Prelude.Int.{pos, negsuc, pos_part, ◌≤ℤ◌, ◌<ℤ◌, leb_ℤ, ◌+ℤ◌, ◌-ℤ◌}
use timix_next.Console.Config.{Config, Memcpy}
use timix_next.Console.Screen.{
  Screen, visible, blank, scrollback, wrap_right, wrap_left, pending, scroll_down, check_cursor,
  typed, advance, scr_putbyte, scr_putbytes,
}
use timix_next.Console.Draw.{SameCursor, draw_char_Ends, clear_rows-Cleared, cell}

module _ (c : Config) where
  open c use {width, height, clear_color}

  -- The screen has a column and two rows, which the driver takes for granted.
  pub record IsConfig : Type 0 where
    pub wide : 0 < width
    pub tall : 1 < height

  -- The cursor is in the screen, or in column 0 of the line below the last one.
  pub record IsLegal (s : Screen) : Type 0 where
    pub left : pos 0 ≤ℤ s.cons_cur_x
    pub right : s.cons_cur_x <ℤ pos width
    pub top : pos 0 ≤ℤ s.cons_cur_y
    pub bottom : s.cons_cur_y ≤ℤ pos height
    pub waiting : s.cons_cur_y ≡ pos height → s.cons_cur_x ≡ pos 0

  -- The cursor is in the screen; only while it is hidden may it wait below the last line.
  pub record IsShown (s : Screen) : Type 0 where
    pub legal : IsLegal s
    pub inside : s.cons_cur_state ≡ visible → s.cons_cur_y <ℤ pos height

  -- After the `switch`, before `check_cursor`.
  record IsNear (s : Screen) : Type 0 where
    left : negsuc 0 ≤ℤ s.cons_cur_x
    right : s.cons_cur_x <ℤ pos width
    top : pos 0 ≤ℤ s.cons_cur_y
    bottom : s.cons_cur_y ≤ℤ pos (height + 1)

  -- After the first two tests of `check_cursor`.
  record IsWrapped (s : Screen) : Type 0 where
    left : pos 0 ≤ℤ s.cons_cur_x
    right : s.cons_cur_x <ℤ pos width
    top : pos 0 ≤ℤ s.cons_cur_y
    bottom : s.cons_cur_y ≤ℤ pos (height + 1)

  line_feed-IsNear :
      (s : Screen)
      → IsConfig
      → IsLegal s
      → IsNear (record s { cons_cur_x = pos 0; cons_cur_y = s.cons_cur_y +ℤ pos 1 })
  unfolding ◌+ℤ◌
  line_feed-IsNear s g l = ground arith

  carriage_return-IsNear :
      (s : Screen) → IsConfig → IsLegal s → IsNear (record s { cons_cur_x = pos 0 })
  carriage_return-IsNear s g l = ground arith

  backspace-IsNear :
      (s : Screen) → IsConfig → IsLegal s → IsNear (record s { cons_cur_x = s.cons_cur_x -ℤ pos 1 })
  unfolding ◌-ℤ◌
  backspace-IsNear s g l = ground arith

  not_above :
      (s : Screen)
      → (not (pending c s) && leb_ℤ (pos height) s.cons_cur_y) ≡ true
      → pos height ≤ℤ s.cons_cur_y
  not_above s e = ground arith

  below-le : (s : Screen) → IsConfig → IsWrapped s → pos_part s.cons_cur_y + 1 - height ≤ height
  below-le s g w = ground arith

  lines_below :
      (s : Screen)
      → IsWrapped s
      → pos height ≤ℤ s.cons_cur_y
      → (s.cons_cur_y -ℤ pos height) +ℤ pos 1 ≡ pos (pos_part s.cons_cur_y + 1 - height)
  unfolding ◌+ℤ◌ ◌-ℤ◌
  lines_below s w h = ground arith

  stays-IsShown :
      (s : Screen)
      → IsWrapped s
      → (not (pending c s) && leb_ℤ (pos height) s.cons_cur_y) ≡ false
      → IsShown s
  unfolding pending
  stays-IsShown s w e = ground arith

  same-IsShown : (s t : Screen) → SameCursor s t → IsShown s → IsShown t
  same-IsShown s t e h = ground (arith, h.legal)

  module _ (m : Memcpy) where
    -- What `scrollback` by `n` lines does.
    pub record Scrolled (n : ℕ) (s t : Screen) : Type 0 where
      pub column : t.cons_cur_x ≡ s.cons_cur_x
      pub line : t.cons_cur_y ≡ s.cons_cur_y -ℤ pos n
      pub state : t.cons_cur_state ≡ s.cons_cur_state
      pub color : t.cons_cur_color ≡ s.cons_cur_color
      pub cells :
          (j : ℕ)
          → t.cons_buf j ≡ (
              if leb ((height - n) * width) j && ltb j (height * width)
              then cell c blank clear_color
              else m.within s.cons_buf 0 (n * width) ((height - n) * width) j)

    pub scrollback-Scrolled :
        (n : ℕ) (s : Screen) → n ≤ height → Ends (scrollback c m (pos n) s) (Scrolled n s)
    unfolding scrollback
    scrollback-Scrolled n s h =
        let moved : Screen = record s {
          cons_buf = m.within s.cons_buf 0 (n * width) ((height - n) * width);
        } in
        let (t, ran, done) =
          clear_rows-Cleared c n (height - n) height moved (omega arith) (omega arith) in
        let fits : ltb height n ≡ false = ground arith in
        (
          record t { cons_cur_y = t.cons_cur_y -ℤ pos n },
          rw (fits, ran) refl,
          record {
            column = done.cursor.0;
            line = rw done.cursor.1;
            state = done.cursor.2;
            color = done.cursor.3;
            cells = done.cells;
          },
        )

    Scrolled-IsShown :
        (s t : Screen)
        → IsConfig
        → IsWrapped s
        → pos height ≤ℤ s.cons_cur_y
        → Scrolled (pos_part s.cons_cur_y + 1 - height) s t
        → IsShown t
    unfolding ◌-ℤ◌
    Scrolled-IsShown s t g w h done = ground (arith, done.column, done.line, done.state)

    typed-IsNear : (s t : Screen) → IsConfig → IsLegal s → SameCursor s t → IsNear (typed c t)
    unfolding typed wrap_right ◌+ℤ◌
    typed-IsNear s t g l e = ground arith

    advance-IsNear : (ch : ℕ) (s : Screen) → IsConfig → IsLegal s → Ends (advance c m ch s) IsNear
    unfolding advance
    advance-IsNear ch s g l = elim (Bool-cases (ch == b'\n')) [
      | inl e ↦ rw e (_, refl, line_feed-IsNear s g l)
      | inr ne ↦ rw ne (elim (Bool-cases (ch == b'\r')) [
        | inl e ↦ rw e (_, refl, carriage_return-IsNear s g l)
        | inr ne' ↦ rw ne' (elim (Bool-cases (ch == 8)) [
          | inl e ↦ rw e (_, refl, backspace-IsNear s g l)
          | inr other ↦ rw other (
              Ends-bind (SameCursor s) IsNear _ _
                (draw_char_Ends c s.cons_cur_y s.cons_cur_x ch s.cons_cur_color s l.top l.left)
                (λ t same. (typed c t, refl, typed-IsNear s t g l same)))
        ])
      ])
    ]

    wrap-IsWrapped : (s : Screen) → IsConfig → IsNear s → IsWrapped (wrap_left c (wrap_right c s))
    unfolding wrap_left wrap_right ◌+ℤ◌ ◌-ℤ◌
    wrap-IsWrapped s g n = ground arith

    scroll_down-IsShown : (s : Screen) → IsConfig → IsWrapped s → Ends (scroll_down c m s) IsShown
    unfolding scroll_down
    scroll_down-IsShown s g w =
        elim (Bool-cases (not (pending c s) && leb_ℤ (pos height) s.cons_cur_y)) [
          | inl e ↦
              let n = pos_part s.cons_cur_y + 1 - height in
              let (t, ran, done) = scrollback-Scrolled n s (below-le s g w) in
              (
                t,
                rw (e, lines_below s w (not_above s e)) ran,
                Scrolled-IsShown s t g w (not_above s e) done,
              )
          | inr e ↦ (s, rw e refl, stays-IsShown s w e)
        ]

    check_cursor-IsShown : (s : Screen) → IsConfig → IsNear s → Ends (check_cursor c m s) IsShown
    unfolding check_cursor
    check_cursor-IsShown s g n =
        scroll_down-IsShown (wrap_left c (wrap_right c s)) g (wrap-IsWrapped s g n)

    -- On a screen with a column and two rows, from a legal cursor, `scr_putbyte` writes inside the
    -- buffer only, whatever the character, and the cursor is legal again and not below the last
    -- line unless it is hidden.
    pub scr_putbyte-IsShown :
        (ch : ℕ) (s : Screen) → IsConfig → IsLegal s → Ends (scr_putbyte c m ch s) IsShown
    unfolding scr_putbyte
    scr_putbyte-IsShown ch s g l =
        Ends-bind IsNear IsShown (advance c m ch s) _ (advance-IsNear ch s g l) λ t near.
          Ends-bind IsShown IsShown (check_cursor c m t) _ (check_cursor-IsShown t g near)
            λ u shown.
              let (v, drawn, same) =
                draw_char_Ends c u.cons_cur_y u.cons_cur_x blank u.cons_cur_color u shown.legal.top
                  shown.legal.left in
              (v, drawn, same-IsShown u v same shown)

    -- On a screen with a column and two rows, from a legal cursor, `scr_putbytes` of any string
    -- writes inside the buffer only, returns, and leaves the cursor legal.
    pub scr_putbytes-IsLegal :
        (str : List ℕ) (s : Screen) → IsConfig → IsLegal s → Ends (scr_putbytes c m str s) IsLegal
    unfolding scr_putbytes
    scr_putbytes-IsLegal [] s g l = (s, refl, l)
    scr_putbytes-IsLegal (ch ∷ str) s g l =
        Ends-bind IsShown IsLegal (scr_putbyte c m ch s) (scr_putbytes c m str)
          (scr_putbyte-IsShown ch s g l) (λ t shown. scr_putbytes-IsLegal str t g shown.legal)
