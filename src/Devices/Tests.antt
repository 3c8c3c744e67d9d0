-- ===== src/Devices/Tests.antt =====
-- A word stored and read back, for the theorem on arch/arm/kernel/io.c, and register names for those
-- on arch/arm/include/arch/cp.h.
use timix_next.Prelude.{◌<◌, ◌≤◌, ◌≡◌, ◌⊎◌, ◌↔◌, arith, Ptr}
use timix_next.Devices.Cp.Debug
use timix_next.Devices.Cp.Names.{debug, expand, first}
use timix_next.Devices.Cp.Apart.{expand-first}
use timix_next.Devices.Io.{Bytes, read32, write32, read32-write32}

abbrev empty : Bytes
empty = λ a. 0

read32-write32_example :
    (read32 16 (write32 16 305419896 empty) ≡ 305419896)
    × ((a : Ptr) → (a < 16) ⊎ (20 ≤ a) → write32 16 305419896 empty a ≡ 0)
read32-write32_example = read32-write32 16 305419896 empty (omega arith)

expand-first_example :
    (expand (debug Debug.dbgwvr3) ≡ expand (debug Debug.dbgbcr3))
    ↔ (first (debug Debug.dbgwvr3) ≡ first (debug Debug.dbgbcr3))
expand-first_example = expand-first (debug Debug.dbgwvr3) (debug Debug.dbgbcr3)
