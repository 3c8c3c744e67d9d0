-- ===== src/Devices/Cp/Names.antt =====
-- arch/arm/include/arch/cp.h: all register names together.
use timix_next.Prelude.{ℕ}
use timix_next.Devices.Cp.{Operands}
use timix_next.Devices.Cp.Memory
use timix_next.Devices.Cp.Cache
use timix_next.Devices.Cp.Counters
use timix_next.Devices.Cp.Debug

-- A register's name, in the section of the header that has it.
pub data Register : Type 0 where
  cr0 : Memory.Cr0 → Register
  cr1 : Memory.Cr1 → Register
  cr2 : Memory.Cr2 → Register
  cr3 : Memory.Cr3 → Register
  cr5 : Memory.Cr5 → Register
  cr6 : Memory.Cr6 → Register
  cr7 : Cache.Cr7 → Register
  cr8 : Cache.Cr8 → Register
  cr9 : Counters.Cr9 → Register
  cr10 : Counters.Cr10 → Register
  cr12 : Counters.Cr12 → Register
  cr13 : Counters.Cr13 → Register
  cr14 : Counters.Cr14 → Register
  cr15 : Counters.Cr15 → Register
  debug : Debug.Debug → Register

unfoldable pub expand : Register → Operands
unfolding Memory.cr0_operands Memory.cr1_operands Memory.cr2_operands Memory.cr3_operands
    Memory.cr5_operands Memory.cr6_operands Cache.cr7_operands Cache.cr8_operands
    Counters.cr9_operands Counters.cr10_operands Counters.cr12_operands Counters.cr13_operands
    Counters.cr14_operands Counters.cr15_operands Debug.debug_operands
expand (cr0 r) = Memory.cr0_operands r
expand (cr1 r) = Memory.cr1_operands r
expand (cr2 r) = Memory.cr2_operands r
expand (cr3 r) = Memory.cr3_operands r
expand (cr5 r) = Memory.cr5_operands r
expand (cr6 r) = Memory.cr6_operands r
expand (cr7 r) = Cache.cr7_operands r
expand (cr8 r) = Cache.cr8_operands r
expand (cr9 r) = Counters.cr9_operands r
expand (cr10 r) = Counters.cr10_operands r
expand (cr12 r) = Counters.cr12_operands r
expand (cr13 r) = Counters.cr13_operands r
expand (cr14 r) = Counters.cr14_operands r
expand (cr15 r) = Counters.cr15_operands r
expand (debug r) = Debug.debug_operands r

-- The first name in the header with the same operands.
unfoldable pub first : Register → Register
first (cr10 Counters.mari0) = cr10 Counters.prrr
first (cr10 Counters.mari1) = cr10 Counters.nmrr
first (cr10 Counters.amari1) = cr10 Counters.amari0
first (debug Debug.dbgwvr0) = debug Debug.dbgbcr0
first (debug Debug.dbgwvr1) = debug Debug.dbgbcr1
first (debug Debug.dbgwvr2) = debug Debug.dbgbcr2
first (debug Debug.dbgwvr3) = debug Debug.dbgbcr3
first (debug Debug.dbgwvr4) = debug Debug.dbgbcr4
first (debug Debug.dbgwvr5) = debug Debug.dbgbcr5
first (debug Debug.dbgwvr6) = debug Debug.dbgbcr6
first (debug Debug.dbgwvr7) = debug Debug.dbgbcr7
first (debug Debug.dbgwvr8) = debug Debug.dbgbcr8
first (debug Debug.dbgwvr9) = debug Debug.dbgbcr9
first (debug Debug.dbgwvr10) = debug Debug.dbgbcr10
first (debug Debug.dbgwvr11) = debug Debug.dbgbcr11
first (debug Debug.dbgwvr12) = debug Debug.dbgbcr12
first (debug Debug.dbgwvr13) = debug Debug.dbgbcr13
first (debug Debug.dbgwvr14) = debug Debug.dbgbcr14
first (debug Debug.dbgwvr15) = debug Debug.dbgbcr15
first r = r

unfoldable pub section : Register → ℕ
section (cr0 r) = 240
section (cr1 r) = 241
section (cr2 r) = 242
section (cr3 r) = 243
section (cr5 r) = 245
section (cr6 r) = 246
section (cr7 r) = 247
section (cr8 r) = 248
section (cr9 r) = 249
section (cr10 r) = 250
section (cr12 r) = 252
section (cr13 r) = 253
section (cr14 r) = 254
section (cr15 r) = 255
section (debug r) = 224
