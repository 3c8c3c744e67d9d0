-- ===== src/Console/Draw.antt =====
-- Drawing one character, a row and the whole screen.
use timix_next.Prelude.{
  ℕ, ◌+◌, ◌*◌, ◌≤◌, ◌<◌, ◌≡◌, refl, ◌&&◌, some, arith, update, Ends, for_range, for_range_Ends, ltb,
  leb, if◌then◌else◌, ◌⊎◌, inl, inr,
}
use mathlib.Core.Path.{subst, ap₂, ◌∙◌}
use native.Mathlib.Decide.{dec_lt}
use timix_next.Prelude.Int.{ℤ, pos, negsuc, ◌≤ℤ◌}
use timix_next.Console.Config.{Char, Config}
use timix_next.Console.Screen.{
  Screen, blank, to_byte, store, scr_draw_char, term_char_index, clear_row, scr_clear_console,
}

abbrev pub SameCursor : Screen → Screen → Type 0
SameCursor s t =
    (t.cons_cur_x ≡ s.cons_cur_x)
    × (t.cons_cur_y ≡ s.cons_cur_y)
    × (t.cons_cur_state ≡ s.cons_cur_state)
    × (t.cons_cur_color ≡ s.cons_cur_color)

index_lt : (w h r k : ℕ) → r < h → k < w → r * w + k < w * h
index_lt w h r k p q = grind arith

module _ (c : Config) where
  open c use {width, height, clear_color}

  abbrev pub cell : ℕ → ℕ → Char
  cell ch color = record { cc_code = to_byte ch; cc_color = to_byte color }

  -- A character drawn inside the screen lands at its row and column.
  pub draw_char_inside :
      (r k ch color : ℕ) (s : Screen)
      → r < height
      → k < width
      → scr_draw_char c (pos r) (pos k) ch color s
        ≡ some (record s { cons_buf = update s.cons_buf (r * width + k) (cell ch color) })
  unfolding scr_draw_char term_char_index store
  draw_char_inside r k ch color s p q = ground (arith, index_lt width height r k p q)

  pub draw_char_at :
      (r k ch color : ℕ) (s : Screen)
      → s.cons_cur_y ≡ pos r
      → s.cons_cur_x ≡ pos k
      → r < height
      → k < width
      → scr_draw_char c s.cons_cur_y s.cons_cur_x ch color s
        ≡ some (record s { cons_buf = update s.cons_buf (r * width + k) (cell ch color) })
  draw_char_at r k ch color s e f p q =
      ap₂ (λ row col. scr_draw_char c row col ch color s) e f ∙ draw_char_inside r k ch color s p q

  -- One drawn below or to the right of the screen is dropped.
  pub draw_char_outside :
      (row col : ℤ) (ch color : ℕ) (s : Screen)
      → (pos height ≤ℤ row) ⊎ (pos width ≤ℤ col)
      → scr_draw_char c row col ch color s ≡ some s
  unfolding scr_draw_char
  draw_char_outside row col ch color s (inl p) = ground arith
  draw_char_outside row col ch color s (inr p) = ground arith

  pub draw_char_Ends :
      (row col : ℤ) (ch color : ℕ) (s : Screen)
      → pos 0 ≤ℤ row
      → pos 0 ≤ℤ col
      → Ends (scr_draw_char c row col ch color s) (SameCursor s)
  draw_char_Ends (negsuc r) col ch color s p q = absurd (omega arith)
  draw_char_Ends (pos r) (negsuc k) ch color s p q = absurd (omega arith)
  draw_char_Ends (pos r) (pos k) ch color s p q = elim (dec_lt r height) [
    | no out ↦ (
      s,
      draw_char_outside (pos r) (pos k) ch color s (inl (omega arith)),
      (refl, refl, refl, refl),
    )
    | yes low ↦ elim (dec_lt k width) [
      | no out ↦ (
        s,
        draw_char_outside (pos r) (pos k) ch color s (inr (omega arith)),
        (refl, refl, refl, refl),
      )
      | yes left ↦ (_, draw_char_inside r k ch color s low left, (refl, refl, refl, refl))
    ]
  ]

  -- From `s` to `t` the characters from index `lo` to below `hi` are cleared, and nothing else.
  pub record Cleared (lo hi : ℕ) (s t : Screen) : Type 0 where
    pub cursor : SameCursor s t
    pub cells :
        (j : ℕ)
        → t.cons_buf j ≡ (if leb lo j && ltb j hi then cell blank clear_color else s.cons_buf j)

  Cleared-refl : (lo hi : ℕ) (s : Screen) → hi ≤ lo → Cleared lo hi s s
  Cleared-refl lo hi s h = record { cursor = (refl, refl, refl, refl); cells = λ j. ground arith }

  Cleared-trans :
      {lo mid hi : ℕ} {s t u : Screen}
      → lo ≤ mid
      → mid ≤ hi
      → Cleared lo mid s t
      → Cleared mid hi t u
      → Cleared lo hi s u
  Cleared-trans p q a b = record {
    cursor = ground (arith, a.cursor, b.cursor);
    cells = λ j. ground (arith, a.cells j, b.cells j);
  }

  Cleared-one :
      (i : ℕ) (s : Screen)
      → Cleared i (i + 1) s (record s { cons_buf = update s.cons_buf i (cell blank clear_color) })
  unfolding update
  Cleared-one i s = record { cursor = (refl, refl, refl, refl); cells = λ j. ground arith }

  pub clear_row-Cleared :
      (r : ℕ) (s : Screen)
      → r < height
      → Ends (clear_row c r s) (Cleared (r * width) (r * width + width) s)
  unfolding clear_row
  clear_row-Cleared r s low =
      for_range_Ends (λ k t. Cleared (r * width) (r * width + k) s t) _ width 0 width (omega arith)
        (λ k t lo hi done.
          let t' : Screen = record t {
            cons_buf = update t.cons_buf (r * width + k) (cell blank clear_color);
          } in
          (
            t',
            draw_char_inside r k blank clear_color t low hi,
            Cleared-trans (omega arith) (omega arith) done (
                subst (λ n. Cleared (r * width + k) n t t') (omega arith)
                  (Cleared-one (r * width + k) t)),
          ))
        s (Cleared-refl (r * width) (r * width + 0) s (omega arith))

  -- The rows from `lo` to below `hi`.
  pub clear_rows-Cleared :
      (n lo hi : ℕ) (s : Screen)
      → lo + n ≡ hi
      → hi ≤ height
      → Ends (for_range n lo (clear_row c) s) (Cleared (lo * width) (hi * width) s)
  clear_rows-Cleared n lo hi s e h =
      for_range_Ends (λ k t. Cleared (lo * width) (k * width) s t) (clear_row c) n lo hi e
        (λ k t a b done.
          let (u, ran, row) = clear_row-Cleared k t (omega arith) in
          (
            u,
            ran,
            Cleared-trans (grind arith) (omega arith) done
                (subst (λ n. Cleared (k * width) n t u) (omega arith) row),
          ))
        s (Cleared-refl (lo * width) (lo * width) s (omega arith))

-- `scr_clear_console` writes blanks in the clear color over the whole screen, stays inside the
-- buffer, and leaves the cursor where it is.
pub scr_clear_console-Cleared :
    (c : Config) (s : Screen) → Ends (scr_clear_console c s) (Cleared c 0 (c.height * c.width) s)
unfolding scr_clear_console
scr_clear_console-Cleared c s =
    let (t, ran, done) = clear_rows-Cleared c c.height 0 c.height s (omega arith) (omega arith) in
    (t, ran, subst (λ n. Cleared c n (c.height * c.width) s t) (omega arith) done)
