-- ===== src/Boot/Atags.antt =====
-- arch/arm/include/arch/atags.h: the list of tags that an ARM boot loader hands over. A tag is read
-- as the record of its header and of the union's member that its number names.
use timix_next.Prelude.{ℕ, ◌+◌, ◌*◌, ◌%◌, ◌^◌, Bool, ◌&&◌, ◌||◌, Ptr, List, ◌==◌}

abbrev pub atag_none : ℕ
atag_none = 0x00000000

abbrev pub atag_core : ℕ
atag_core = 0x54410001

abbrev pub atag_mem : ℕ
atag_mem = 0x54410002

abbrev pub atag_videotext : ℕ
atag_videotext = 0x54410003

abbrev pub atag_ramdisk : ℕ
atag_ramdisk = 0x54410004

abbrev pub atag_initrd1 : ℕ
atag_initrd1 = 0x54410005

abbrev pub atag_initrd2 : ℕ
atag_initrd2 = 0x54420005

abbrev pub atag_serial : ℕ
atag_serial = 0x54410006

abbrev pub atag_revision : ℕ
atag_revision = 0x54410007

abbrev pub atag_videolfb : ℕ
atag_videolfb = 0x54410008

abbrev pub atag_cmdline : ℕ
atag_cmdline = 0x54410009

pub record AtagHeader : Type 0 where
  pub size : ℕ
  pub tag : ℕ

pub record AtagCore : Type 0 where
  pub flags : ℕ
  pub pagesize : ℕ
  pub rootdev : ℕ

pub record AtagMem : Type 0 where
  pub size : ℕ
  pub start : ℕ

pub record AtagVideotext : Type 0 where
  pub x : ℕ
  pub y : ℕ
  pub video_page : ℕ
  pub video_mode : ℕ
  pub video_cols : ℕ
  pub video_ega_bx : ℕ
  pub video_lines : ℕ
  pub video_isvga : ℕ
  pub video_points : ℕ

pub record AtagRamdisk : Type 0 where
  pub flags : ℕ
  pub size : ℕ
  pub start : ℕ

pub record AtagInitrd : Type 0 where
  pub start : ℕ
  pub size : ℕ

pub record AtagSerial : Type 0 where
  pub low : ℕ
  pub high : ℕ

pub record AtagRevision : Type 0 where
  pub rev : ℕ

pub record AtagVideolfb : Type 0 where
  pub lfb_width : ℕ
  pub lfb_height : ℕ
  pub lfb_depth : ℕ
  pub lfb_linelength : ℕ
  pub lfb_base : ℕ
  pub lfb_size : ℕ
  pub red_size : ℕ
  pub red_pos : ℕ
  pub green_size : ℕ
  pub green_pos : ℕ
  pub blue_size : ℕ
  pub blue_pos : ℕ
  pub rsvd_size : ℕ
  pub rsvd_pos : ℕ

pub record AtagCmdline : Type 0 where
  pub cmdline : List ℕ

-- The union `u`, of which `AtagCmdline` is no member.
pub data Body : Type 0 where
  core : AtagCore → Body
  mem : AtagMem → Body
  videotext : AtagVideotext → Body
  ramdisk : AtagRamdisk → Body
  initrd : AtagInitrd → Body
  serial : AtagSerial → Body
  revision : AtagRevision → Body
  videolfb : AtagVideolfb → Body

pub record Atag : Type 0 where
  pub hdr : AtagHeader
  pub u : Body

-- `((uint32_t*)ptr) + size`: sizes count words of four bytes, and pointers have 32 bits.
unfoldable pub atag_next : Ptr → AtagHeader → Ptr
atag_next ptr hdr = (ptr + 4 * hdr.size) % 2 ^ 32

unfoldable pub atags_ok : Atag → Bool
atags_ok atag = (atag.hdr.size == 2 || atag.hdr.size == 5) && atag.hdr.tag == atag_core
