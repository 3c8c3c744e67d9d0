-- ===== src/Boot/Multiboot.antt =====
-- arch/x86/include/arch/multiboot.h: what an x86 boot loader hands over.
use timix_next.Prelude.{ℕ, Ptr}

abbrev pub mb_mem_valid : ℕ
mb_mem_valid = 0x0001

abbrev pub mb_bootdev_valid : ℕ
mb_bootdev_valid = 0x0002

abbrev pub mb_cmdline_valid : ℕ
mb_cmdline_valid = 0x0004

abbrev pub mb_mods_valid : ℕ
mb_mods_valid = 0x0008

abbrev pub mb_syms1_valid : ℕ
mb_syms1_valid = 0x0010

abbrev pub mb_syms2_valid : ℕ
mb_syms2_valid = 0x0020

abbrev pub mb_mmap_valid : ℕ
mb_mmap_valid = 0x0040

abbrev pub mb_drives_valid : ℕ
mb_drives_valid = 0x0080

abbrev pub mb_cfgtab_valid : ℕ
mb_cfgtab_valid = 0x0100

abbrev pub mb_blname_valid : ℕ
mb_blname_valid = 0x0200

abbrev pub mb_apmtab_valid : ℕ
mb_apmtab_valid = 0x0400

abbrev pub mb_gfxtab_valid : ℕ
mb_gfxtab_valid = 0x0800

-- `struct mb_syms`
pub record MbSyms : Type 0 where
  pub tabsize : ℕ
  pub strsize : ℕ
  pub addr : Ptr
  pub reserved : ℕ

-- `struct mb_module`
pub record MbModule : Type 0 where
  pub mod_start : Ptr
  pub mod_end : Ptr
  pub mod_name : Ptr
  pub reserved : ℕ

-- `struct mb_info`
pub record MbInfo : Type 0 where
  pub flags : ℕ
  pub mem_lower : ℕ
  pub mem_upper : ℕ
  pub boot_device : ℕ
  pub cmdline : Ptr
  pub mods_count : ℕ
  pub mods_addr : Ptr
  pub syms : MbSyms
  pub mmap_length : ℕ
  pub mmap_addr : Ptr
  pub drives_length : ℕ
  pub drives_addr : Ptr
  pub config_table : Ptr
  pub boot_loader_name : Ptr
  pub apm_table : Ptr
  pub vbe_control_info : ℕ
  pub vbe_mode_info : ℕ
  pub vbe_mode : ℕ
  pub vbe_interface_seg : ℕ
  pub vbe_interface_off : ℕ
  pub vbe_interface_len : ℕ
