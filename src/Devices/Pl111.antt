-- ===== src/Devices/Pl111.antt =====
-- include/timix/fb.h, include/drivers/pl111.h and drivers/pl111.c: the PL111 display controller. The
-- driver's file does not compile as it stands (two missing separators); the model reads it with them.
use timix_next.Prelude.{ℕ, Ptr, null}

-- `uint16_t`, `uint8_t` and `uint32_t` fields, in the source's order.
pub record Fbmode : Type 0 where
  pub bpp : ℕ
  pub rmax : ℕ
  pub gmax : ℕ
  pub bmax : ℕ
  pub rshift : ℕ
  pub gshift : ℕ
  pub bshift : ℕ
  pub width : ℕ
  pub height : ℕ

pub record Fbdev : Type 0 where
  pub bufptr : Ptr
  pub mode : Fbmode

pub record Pl111 : Type 0 where
  pub upper_panel : Fbdev
  pub lower_panel : Fbdev

-- The registers, and their offsets from the device's base.
pub data Register : Type 0 where
  lcdtiming0 : Register
  lcdtiming1 : Register
  lcdtiming2 : Register
  lcdtiming3 : Register
  lcdupbase : Register
  lcdlpbase : Register
  lcdcontrol : Register
  lcdimsc : Register
  lcdris : Register
  lcdmis : Register
  lcdicr : Register
  lcdupcurr : Register
  lcdlpcurr : Register
  lcdpalette : Register
  cursor_image : Register
  clcd_crsr_ctrl : Register
  clcd_crsr_config : Register
  clcd_crsr_palette0 : Register
  clcd_crsr_palette1 : Register
  clcd_crsr_xy : Register
  clcd_crsr_clip : Register
  clcd_crsr_imsc : Register
  clcd_crsr_icr : Register
  clcd_crsr_ris : Register
  clcd_crsr_mis : Register
  clcd_periph_id0 : Register
  clcd_periph_id1 : Register
  clcd_periph_id2 : Register
  clcd_periph_id3 : Register
  clcd_pcell_id0 : Register
  clcd_pcell_id1 : Register
  clcd_pcell_id2 : Register
  clcd_pcell_id3 : Register

unfoldable pub offset : Register → ℕ
offset lcdtiming0 = 0x000
offset lcdtiming1 = 0x004
offset lcdtiming2 = 0x008
offset lcdtiming3 = 0x00c
offset lcdupbase = 0x010
offset lcdlpbase = 0x014
offset lcdcontrol = 0x018
offset lcdimsc = 0x01c
offset lcdris = 0x020
offset lcdmis = 0x024
offset lcdicr = 0x028
offset lcdupcurr = 0x02c
offset lcdlpcurr = 0x030
offset lcdpalette = 0x200
offset cursor_image = 0x800
offset clcd_crsr_ctrl = 0xc00
offset clcd_crsr_config = 0xc04
offset clcd_crsr_palette0 = 0xc08
offset clcd_crsr_palette1 = 0xc0c
offset clcd_crsr_xy = 0xc10
offset clcd_crsr_clip = 0xc14
offset clcd_crsr_imsc = 0xc20
offset clcd_crsr_icr = 0xc24
offset clcd_crsr_ris = 0xc28
offset clcd_crsr_mis = 0xc2c
offset clcd_periph_id0 = 0xfe0
offset clcd_periph_id1 = 0xfe4
offset clcd_periph_id2 = 0xfe8
offset clcd_periph_id3 = 0xfec
offset clcd_pcell_id0 = 0xff0
offset clcd_pcell_id1 = 0xff4
offset clcd_pcell_id2 = 0xff8
offset clcd_pcell_id3 = 0xffc

abbrev cleared_mode : Fbmode
cleared_mode = record {
  bpp = 0;
  rmax = 0;
  gmax = 0;
  bmax = 0;
  rshift = 0;
  gshift = 0;
  bshift = 0;
  width = 0;
  height = 0;
}

abbrev cleared_panel : Fbdev
cleared_panel = record { bufptr = null; mode = cleared_mode }

-- `memset(dev, 0, sizeof(*dev))`, which leaves each field 0. The body has no `return`.
unfoldable pub pl111_init : Pl111 → Pl111
pl111_init dev = record { upper_panel = cleared_panel; lower_panel = cleared_panel }

-- The body is empty.
unfoldable pub pl111_mode_set : Pl111 → Fbmode → Pl111
pl111_mode_set dev fbmode = dev
