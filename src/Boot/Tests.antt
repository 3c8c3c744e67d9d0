-- ===== src/Boot/Tests.antt =====
-- Tables of memory regions, for the theorems on kernel/mm/pmm.c and the kernel's entry points.
use timix_next.Prelude.{ℕ, ◌≡◌, refl, [], ◌∷◌, ◌++◌, arith}
use timix_next.Prelude.Run.{done}
use timix_next.Boot.Pmm.{Region, RegionMap, held, add_all, add_all-take}
use timix_next.Boot.Multiboot.{MbInfo}
use timix_next.Boot.Entry.{c_entry_x86, c_entry_arm, c_entry_x86-drops_report}

abbrev region : ℕ → Region
region n = record { start = n; size = 16 }

-- Eight regions in the table.
abbrev eight : RegionMap
eight = record { count = 8; regions = region }

add_all-take_example :
    held (add_all (region 20 ∷ region 21 ∷ []) eight) ≡ held eight ++ region 20 ∷ []
add_all-take_example = add_all-take 1 (region 20 ∷ region 21 ∷ []) eight refl

-- A report of 640 and of 130048, with its flag set.
abbrev info : MbInfo
info = record {
  flags = 1;
  mem_lower = 640;
  mem_upper = 130048;
  boot_device = 0;
  cmdline = 0;
  mods_count = 0;
  mods_addr = 0;
  syms = record { tabsize = 0; strsize = 0; addr = 0; reserved = 0 };
  mmap_length = 0;
  mmap_addr = 0;
  drives_length = 0;
  drives_addr = 0;
  config_table = 0;
  boot_loader_name = 0;
  apm_table = 0;
  vbe_control_info = 0;
  vbe_mode_info = 0;
  vbe_mode = 0;
  vbe_interface_seg = 0;
  vbe_interface_off = 0;
  vbe_interface_len = 0;
}

c_entry_x86-drops_report_example :
    (q q' : RegionMap) × (c_entry_x86 info eight ≡ done q)
    × (c_entry_arm eight ≡ done q')
    × (held q ≡ record { start = 0; size = 52428800 } ∷ [])
    × (held q' ≡ held q)
c_entry_x86-drops_report_example = c_entry_x86-drops_report info eight (omega arith)
