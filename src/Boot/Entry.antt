-- ===== src/Boot/Entry.antt =====
-- arch/x86/kernel/entry.c and arch/arm/kernel/entry.c up to the call of `kernel_main`, which never
-- returns (kernel/kernel.c); a run is `done` there, with the table of memory regions. `panic`
-- (kernel/panic.c) never returns either.
use Prim.Native.Nat.{bit_and}
use timix_next.Prelude.{
  ℕ, ◌*◌, ◌^◌, ◌≡◌, ◌≢◌, refl, not, update, eqb_false, [], ◌∷◌, ◌==◌, if◌then◌else◌,
}
use timix_next.Prelude.Run.{Run, done, panic}
use timix_next.Boot.Multiboot.{MbInfo, mb_mem_valid}
use timix_next.Boot.Pmm.{RegionMap, pmm_init, pmm_add_region, held, entries}

abbrev pub x86_highmem_start : ℕ
x86_highmem_start = 0x00100000

-- `if (size) pmm_add_region(base, size);`, whose result the caller drops
unfoldable pub add_detected : ℕ → ℕ → RegionMap → RegionMap
unfolding pmm_add_region
add_detected base size p = if not (size == 0) then (pmm_add_region base size p).1 else p

-- `pmm_init(); pmm_add_region(0x0000, 0x32 << 20);`
unfoldable pub add_fixed : RegionMap → RegionMap
unfolding pmm_init pmm_add_region
add_fixed p = (pmm_add_region 0x0000 (0x32 * 2 ^ 20) (pmm_init p)).1

unfoldable pub c_entry_x86 : MbInfo → RegionMap → Run RegionMap
unfolding add_detected add_fixed
c_entry_x86 info p =
    if not (bit_and info.flags mb_mem_valid == 0)
    then done (
        add_fixed (add_detected x86_highmem_start info.mem_upper (add_detected 0 info.mem_lower p)))
    else panic

-- The tags are not read.
unfoldable pub c_entry_arm : RegionMap → Run RegionMap
unfolding add_fixed
c_entry_arm p = done (add_fixed p)

-- Whatever memory the boot loader reports, with the flag of a valid report set, and whatever the
-- table held, the x86 kernel starts with the one region from 0 of 50 MiB, as the ARM kernel does.
pub c_entry_x86-drops_report :
    (info : MbInfo) (p : RegionMap)
    → bit_and info.flags mb_mem_valid ≢ 0
    → (q q' : RegionMap) × (c_entry_x86 info p ≡ done q)
      × (c_entry_arm p ≡ done q')
      × (held q ≡ record { start = 0; size = 52428800 } ∷ [])
      × (held q' ≡ held q)
unfolding c_entry_x86 c_entry_arm add_fixed entries update
c_entry_x86-drops_report info p ne = (
  add_fixed (add_detected x86_highmem_start info.mem_upper (add_detected 0 info.mem_lower p)),
  add_fixed p,
  rw (eqb_false ne) refl,
  refl,
  refl,
  refl,
)
