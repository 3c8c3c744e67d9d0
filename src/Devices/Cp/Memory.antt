-- ===== src/Devices/Cp/Memory.antt =====
-- arch/arm/include/arch/cp.h, the register names of cr0 to cr6: identification, system control, translation tables and faults.
use timix_next.Devices.Cp.{Operands, operands}

pub data Cr0 : Type 0 where
  midr : Cr0
  ctr : Cr0
  tcmtr : Cr0
  tlbtr : Cr0
  mpidr : Cr0
  revidr : Cr0
  id_pfr0 : Cr0
  id_pfr1 : Cr0
  id_dfr0 : Cr0
  id_afr0 : Cr0
  id_mmfr0 : Cr0
  id_mmfr1 : Cr0
  id_mmfr2 : Cr0
  id_mmfr3 : Cr0
  id_isar0 : Cr0
  id_isar1 : Cr0
  id_isar2 : Cr0
  id_isar3 : Cr0
  id_isar4 : Cr0
  id_isar5 : Cr0
  ccsidr : Cr0
  clidr : Cr0
  aidr : Cr0
  csselr : Cr0
  vpidr : Cr0
  vmpidr : Cr0

unfoldable pub cr0_operands : Cr0 → Operands
cr0_operands midr = operands 15 0 0 0 0
cr0_operands ctr = operands 15 0 0 0 1
cr0_operands tcmtr = operands 15 0 0 0 2
cr0_operands tlbtr = operands 15 0 0 0 3
cr0_operands mpidr = operands 15 0 0 0 5
cr0_operands revidr = operands 15 0 0 0 6
cr0_operands id_pfr0 = operands 15 0 0 1 0
cr0_operands id_pfr1 = operands 15 0 0 1 1
cr0_operands id_dfr0 = operands 15 0 0 1 2
cr0_operands id_afr0 = operands 15 0 0 1 3
cr0_operands id_mmfr0 = operands 15 0 0 1 4
cr0_operands id_mmfr1 = operands 15 0 0 1 5
cr0_operands id_mmfr2 = operands 15 0 0 1 6
cr0_operands id_mmfr3 = operands 15 0 0 1 7
cr0_operands id_isar0 = operands 15 0 0 2 0
cr0_operands id_isar1 = operands 15 0 0 2 1
cr0_operands id_isar2 = operands 15 0 0 2 2
cr0_operands id_isar3 = operands 15 0 0 2 3
cr0_operands id_isar4 = operands 15 0 0 2 4
cr0_operands id_isar5 = operands 15 0 0 2 5
cr0_operands ccsidr = operands 15 1 0 0 0
cr0_operands clidr = operands 15 1 0 0 1
cr0_operands aidr = operands 15 1 0 0 7
cr0_operands csselr = operands 15 2 0 0 0
cr0_operands vpidr = operands 15 4 0 0 0
cr0_operands vmpidr = operands 15 4 0 0 5

pub data Cr1 : Type 0 where
  sctlr : Cr1
  actlr : Cr1
  cpacr : Cr1
  scr : Cr1
  sder : Cr1
  nsacr : Cr1
  hsctlr : Cr1
  hactlr : Cr1
  hcr : Cr1
  hdcr : Cr1
  hcptr : Cr1
  hstr : Cr1
  hacr : Cr1

unfoldable pub cr1_operands : Cr1 → Operands
cr1_operands sctlr = operands 15 0 1 0 0
cr1_operands actlr = operands 15 0 1 0 1
cr1_operands cpacr = operands 15 0 1 0 2
cr1_operands scr = operands 15 0 1 1 0
cr1_operands sder = operands 15 0 1 1 1
cr1_operands nsacr = operands 15 0 1 1 2
cr1_operands hsctlr = operands 15 4 1 0 0
cr1_operands hactlr = operands 15 4 1 0 1
cr1_operands hcr = operands 15 4 1 1 0
cr1_operands hdcr = operands 15 4 1 1 1
cr1_operands hcptr = operands 15 4 1 1 2
cr1_operands hstr = operands 15 4 1 1 3
cr1_operands hacr = operands 15 4 1 1 7

pub data Cr2 : Type 0 where
  ttbr0 : Cr2
  ttbr1 : Cr2
  ttbcr : Cr2
  htcr : Cr2
  vtcr : Cr2

unfoldable pub cr2_operands : Cr2 → Operands
cr2_operands ttbr0 = operands 15 0 2 0 0
cr2_operands ttbr1 = operands 15 0 2 0 1
cr2_operands ttbcr = operands 15 0 2 0 2
cr2_operands htcr = operands 15 4 2 0 2
cr2_operands vtcr = operands 15 4 2 1 2

pub data Cr3 : Type 0 where
  dacr : Cr3

unfoldable pub cr3_operands : Cr3 → Operands
cr3_operands dacr = operands 15 0 3 0 0

pub data Cr5 : Type 0 where
  dfsr : Cr5
  ifsr : Cr5
  adfsr : Cr5
  aifsr : Cr5
  hadfsr : Cr5
  haifsr : Cr5
  hsr : Cr5

unfoldable pub cr5_operands : Cr5 → Operands
cr5_operands dfsr = operands 15 0 5 0 0
cr5_operands ifsr = operands 15 0 5 0 1
cr5_operands adfsr = operands 15 0 5 1 0
cr5_operands aifsr = operands 15 0 5 1 1
cr5_operands hadfsr = operands 15 4 5 1 0
cr5_operands haifsr = operands 15 4 5 1 1
cr5_operands hsr = operands 15 4 5 2 0

pub data Cr6 : Type 0 where
  dfar : Cr6
  ifar : Cr6
  hdfar : Cr6
  hifar : Cr6
  hpfar : Cr6

unfoldable pub cr6_operands : Cr6 → Operands
cr6_operands dfar = operands 15 0 6 0 0
cr6_operands ifar = operands 15 0 6 0 2
cr6_operands hdfar = operands 15 4 6 0 0
cr6_operands hifar = operands 15 4 6 0 2
cr6_operands hpfar = operands 15 4 6 0 4
