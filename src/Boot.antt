-- ===== src/Boot.antt =====
-- kernel/mm/pmm.c, and the boot code of arch/x86/kernel/entry.c and arch/arm/kernel/entry.c.
pub mod Atags
pub mod Multiboot
pub mod Pmm
pub mod Entry
mod Tests
