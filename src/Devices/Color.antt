-- ===== src/Devices/Color.antt =====
-- drivers/crtc.h and include/timix/chardev.h: the colors of the text mode, the ports of the device and
-- what a character device is.
use Prim.Native.Nat.{bit_or}
use timix_next.Prelude.{ℕ, ◌≡◌, ◌%◌, ◌/◌, ◌<◌, arith}
use timix_next.Prelude.Int.{ℤ}

abbrev pub crtc_index : ℕ
crtc_index = 0x3d4

abbrev pub crtc_data : ℕ
crtc_data = 0x3d5

abbrev pub crtc_text_width : ℕ
crtc_text_width = 80

abbrev pub crtc_text_height : ℕ
crtc_text_height = 25

abbrev pub cursor_state_visible : ℕ
cursor_state_visible = 1

abbrev pub cursor_state_hidden : ℕ
cursor_state_hidden = 0

abbrev pub crtc_blink : ℕ
crtc_blink = 0x80

-- CRTC_FGND_BLACK to CRTC_FGND_WHITE
pub data Fgnd : Type 0 where
  fgnd_black : Fgnd
  fgnd_blue : Fgnd
  fgnd_green : Fgnd
  fgnd_cyan : Fgnd
  fgnd_red : Fgnd
  fgnd_magenta : Fgnd
  fgnd_brown : Fgnd
  fgnd_lgrey : Fgnd
  fgnd_dgrey : Fgnd
  fgnd_bblue : Fgnd
  fgnd_bgreen : Fgnd
  fgnd_bcyan : Fgnd
  fgnd_pink : Fgnd
  fgnd_bmagenta : Fgnd
  fgnd_yellow : Fgnd
  fgnd_white : Fgnd

unfoldable pub fgnd : Fgnd → ℕ
fgnd fgnd_black = 0x0
fgnd fgnd_blue = 0x1
fgnd fgnd_green = 0x2
fgnd fgnd_cyan = 0x3
fgnd fgnd_red = 0x4
fgnd fgnd_magenta = 0x5
fgnd fgnd_brown = 0x6
fgnd fgnd_lgrey = 0x7
fgnd fgnd_dgrey = 0x8
fgnd fgnd_bblue = 0x9
fgnd fgnd_bgreen = 0xa
fgnd fgnd_bcyan = 0xb
fgnd fgnd_pink = 0xc
fgnd fgnd_bmagenta = 0xd
fgnd fgnd_yellow = 0xe
fgnd fgnd_white = 0xf

-- CRTC_BGND_BLACK to CRTC_BGND_LGREY
pub data Bgnd : Type 0 where
  bgnd_black : Bgnd
  bgnd_blue : Bgnd
  bgnd_green : Bgnd
  bgnd_cyan : Bgnd
  bgnd_red : Bgnd
  bgnd_magenta : Bgnd
  bgnd_brown : Bgnd
  bgnd_lgrey : Bgnd

unfoldable pub bgnd : Bgnd → ℕ
bgnd bgnd_black = 0x00
bgnd bgnd_blue = 0x10
bgnd bgnd_green = 0x20
bgnd bgnd_cyan = 0x30
bgnd bgnd_red = 0x40
bgnd bgnd_magenta = 0x50
bgnd bgnd_brown = 0x60
bgnd bgnd_lgrey = 0x70

-- `struct crtc_char`
pub record CrtcChar : Type 0 where
  pub ascii : ℕ
  pub color : ℕ

-- `struct chardev`: functions from a buffer's length, over what they read and write.
pub record Chardev (Device : Type 0) : Type 0 where
  pub read : ℕ → Device → ℤ × Device
  pub write : ℕ → Device → ℤ × Device

-- A foreground and a background stand side by side in the attribute of a character, and leave the
-- blink bit clear.
pub bit_or-fgnd :
    (f : Fgnd) (b : Bgnd)
    → (bit_or (fgnd f) (bgnd b) % 16 ≡ fgnd f)
      × (bit_or (fgnd f) (bgnd b) / 16 ≡ bgnd b / 16)
      × (bit_or (fgnd f) (bgnd b) < crtc_blink)
unfolding fgnd bgnd
bit_or-fgnd f b = ground arith
