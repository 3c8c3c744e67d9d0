-- ===== src/Console/Content.antt =====
-- What the screen shows after a scroll, after a character, and what can be read back.
use timix_next.Prelude.{
  ℕ, ◌+◌, ◌-◌, ◌*◌, ◌≤◌, ◌<◌, ◌≡◌, ap, ◌∙◌, ◌&&◌, arith, Ends, ltb, leb, if◌then◌else◌,
}
use timix_next.Prelude.Int.{pos}
use timix_next.Console.Config.{Char, Config, Memcpy, IsMemcpy}
use timix_next.Console.Screen.{Screen, blank, scrollback}
use timix_next.Console.Draw.{cell}
use timix_next.Console.Legal.{Scrolled, scrollback-Scrolled}

module _ (c : Config) where
  open c use {width, height, clear_color}

  row-lt :
      (r n k : ℕ) → n ≤ height → r < height - n → k < width → r * width + k < (height - n) * width
  row-lt r n k le p q = grind arith

  select_before : (lo hi j : ℕ) (a b : Char) → j < lo → (if leb lo j && ltb j hi then a else b) ≡ b
  select_before lo hi j a b h = ground arith

  pub select_within :
      (lo hi j : ℕ) (a b : Char) → lo ≤ j → j < hi → (if leb lo j && ltb j hi then a else b) ≡ a
  select_within lo hi j a b h p = ground arith

  pub row-le : (r lo k : ℕ) → lo ≤ r → lo * width ≤ r * width + k
  row-le r lo k p = grind arith

  pub index-lt : (r k : ℕ) → r < height → k < width → r * width + k < height * width
  index-lt r k p q = grind arith

  -- From half of the lines on, the lines that stay are copied to a place apart.
  no_overlap : (n : ℕ) → height ≤ n + n → 0 + (height - n) * width ≤ n * width
  no_overlap n half = grind arith

  -- From `s` to `t` every line moves up by `n`, and the `n` lines at the bottom are cleared.
  pub record LinesUp (n : ℕ) (s t : Screen) : Type 0 where
    pub above :
        (r k : ℕ)
        → r < height - n
        → k < width
        → t.cons_buf (r * width + k) ≡ s.cons_buf ((n + r) * width + k)
    pub below :
        (r k : ℕ)
        → height - n ≤ r
        → r < height
        → k < width
        → t.cons_buf (r * width + k) ≡ cell c blank clear_color

  module _ (m : Memcpy) (ok : IsMemcpy m) where
    Scrolled-LinesUp :
        (n : ℕ) (s t : Screen) → n ≤ height → height ≤ n + n → Scrolled c m n s t → LinesUp n s t
    Scrolled-LinesUp n s t h half done = record {
      above = λ r k p q.
          let low = row-lt r n k h p q in
          done.cells (r * width + k)
          ∙ select_before _ _ _ _ _ low
          ∙ ap (m.within s.cons_buf 0 (n * width) ((height - n) * width)) (omega arith)
          ∙ ok.within_apart s.cons_buf 0 (n * width) ((height - n) * width) (r * width + k)
              (no_overlap n half) low
          ∙ ap s.cons_buf (omega arith);
      below = λ r k p q lt.
          done.cells (r * width + k)
          ∙ select_within _ _ _ _ _ (row-le r (height - n) k p) (index-lt r k q lt);
    }

    -- When `memcpy` copies places that do not overlap, `scrollback` by `n` lines, at most all and at
    -- least half of them, moves every line up by `n` and clears the `n` lines at the bottom.
    pub scrollback-LinesUp :
        (n : ℕ) (s : Screen)
        → n ≤ height
        → height ≤ n + n
        → Ends (scrollback c m (pos n) s) (LinesUp n s)
    scrollback-LinesUp n s h half =
        let (t, ran, done) = scrollback-Scrolled c m n s h in
        (t, ran, Scrolled-LinesUp n s t h half done)
