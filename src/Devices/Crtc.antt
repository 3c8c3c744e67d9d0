-- ===== src/Devices/Crtc.antt =====
-- drivers/crtc.c and drivers/crtc.h. `crtc_init` returns no value although its type promises an
-- `int`; only what it does to the device is modelled.
use timix_next.Prelude.{ℕ, Ptr, List}
use timix_next.Prelude.Int.{ℤ, pos}

-- The functions that a `struct chardev` can point to.
pub data Function : Type 0 where
  crtc_read_function crtc_write_function : Function

-- CRTC_MODE_TEXT and CRTC_MODE_VIDEO
pub data CrtcMode : Type 0 where
  text_mode video_mode : CrtcMode

-- `struct crtc_text_screen`
pub record CrtcTextScreen : Type 0 where
  pub screen : Ptr
  pub cursor_x : ℤ
  pub cursor_y : ℤ
  pub cursor_state : ℤ
  pub cursor_color : ℕ

-- `struct crtc`; `struct crtc_video_screen` is empty.
pub record Crtc : Type 0 where
  pub read : Function
  pub write : Function
  pub mode : CrtcMode
  pub text : CrtcTextScreen

-- CRTC_MEM_BASE
abbrev pub crtc_mem_base : ℕ
crtc_mem_base = 0xb8000

-- CRTC_FGND_WHITE | CRTC_BGND_BLACK
abbrev pub white_on_black : ℕ
white_on_black = 0x0f

unfoldable pub crtc_init : Crtc → Crtc
crtc_init dev = record {
  read = crtc_read_function;
  write = crtc_write_function;
  mode = text_mode;
  text = record {
    screen = crtc_mem_base;
    cursor_x = pos 0;
    cursor_y = pos 0;
    cursor_state = pos 1;
    cursor_color = white_on_black;
  };
}

-- The number of characters read or written, and the buffer.
unfoldable pub crtc_read : List ℕ → (len : ℕ) → ℤ × List ℕ
crtc_read buf len = (pos 0, buf)

unfoldable pub crtc_write : List ℕ → (len : ℕ) → ℤ
crtc_write buf len = pos 0
