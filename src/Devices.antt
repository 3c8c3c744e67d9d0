-- ===== src/Devices.antt =====
-- The small devices and stubs: drivers/crtc.c, arch/arm/kernel/io.c and kernel/malloc.c.
pub mod Cp
pub mod Access
pub mod Pl111
pub mod Color
pub mod Crtc
pub mod Io
pub mod Malloc
mod Tests
