-- ===== src/Console/Config.antt =====
-- What drivers/text_console.c takes from headers that the repository does not hold (console.h and
-- x86/video_defines.h), and from `memcpy`, which the repository declares and does not define.
use timix_next.Prelude.{ℕ, ◌+◌, ◌≤◌, ◌<◌, ◌≡◌, Bool}

-- `struct console_char`: a code and a color, by their bytes
pub record Char : Type 0 where
  pub cc_code : ℕ
  pub cc_color : ℕ

-- Whether the compiler's `char` is signed, CONSOLE_WIDTH, CONSOLE_HEIGHT, CONFIG_SCREEN_COUNT, the colors FGND_WHITE | BGND_BLACK and
-- FGND_BLACK | BGND_BLACK, and the registers of the CRTC
pub record Config : Type 0 where
  pub width : ℕ
  pub height : ℕ
  pub screen_count : ℕ
  pub char_signed : Bool
  pub start_color : ℕ
  pub clear_color : ℕ
  pub crtc_idx_reg : ℕ
  pub crtc_data_reg : ℕ
  pub cursor_lsb_idx : ℕ
  pub cursor_msb_idx : ℕ

-- A character buffer, by the index of the character.
abbrev pub Cells : Type 0
Cells = ℕ → Char

-- `memcpy(&buf[dst], &buf[src], n characters)` within one buffer, and `memcpy(to, from, n
-- characters)` between two.
pub record Memcpy : Type 0 where
  pub within : (buf : Cells) (dst src n : ℕ) → Cells
  pub between : (to from : Cells) (n : ℕ) → Cells

-- What the driver relies on: the bytes arrive where the two places do not overlap, and nothing is
-- written behind the place that is copied to.
pub record IsMemcpy (m : Memcpy) : Type 0 where
  pub within_apart :
      (buf : Cells) (dst src n i : ℕ)
      → dst + n ≤ src
      → i < n
      → m.within buf dst src n (dst + i) ≡ buf (src + i)
  pub within_above :
      (buf : Cells) (dst src n i : ℕ) → dst + n ≤ i → m.within buf dst src n i ≡ buf i
  pub between_copies : (to from : Cells) (n i : ℕ) → i < n → m.between to from n i ≡ from i
  pub between_above : (to from : Cells) (n i : ℕ) → n ≤ i → m.between to from n i ≡ to i
