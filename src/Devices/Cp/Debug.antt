-- ===== src/Devices/Cp/Debug.antt =====
-- arch/arm/include/arch/cp.h, the register names of coprocessor 14: the debug registers.
-- `DBGPRCR` is read without the comma that ends its line.
use timix_next.Devices.Cp.{Operands, operands}

pub data Debug : Type 0 where
  dbgdidr : Debug
  dbgwfar : Debug
  dbgvcr : Debug
  dbgdtrrx_ext : Debug
  dbgdscr_ext : Debug
  dbgdtrtx_ext : Debug
  dbgbvr0 : Debug
  dbgbvr1 : Debug
  dbgbvr2 : Debug
  dbgbvr3 : Debug
  dbgbvr4 : Debug
  dbgbvr5 : Debug
  dbgbvr6 : Debug
  dbgbvr7 : Debug
  dbgbvr8 : Debug
  dbgbvr9 : Debug
  dbgbvr10 : Debug
  dbgbvr11 : Debug
  dbgbvr12 : Debug
  dbgbvr13 : Debug
  dbgbvr14 : Debug
  dbgbvr15 : Debug
  dbgbcr0 : Debug
  dbgbcr1 : Debug
  dbgbcr2 : Debug
  dbgbcr3 : Debug
  dbgbcr4 : Debug
  dbgbcr5 : Debug
  dbgbcr6 : Debug
  dbgbcr7 : Debug
  dbgbcr8 : Debug
  dbgbcr9 : Debug
  dbgbcr10 : Debug
  dbgbcr11 : Debug
  dbgbcr12 : Debug
  dbgbcr13 : Debug
  dbgbcr14 : Debug
  dbgbcr15 : Debug
  dbgwvr0 : Debug
  dbgwvr1 : Debug
  dbgwvr2 : Debug
  dbgwvr3 : Debug
  dbgwvr4 : Debug
  dbgwvr5 : Debug
  dbgwvr6 : Debug
  dbgwvr7 : Debug
  dbgwvr8 : Debug
  dbgwvr9 : Debug
  dbgwvr10 : Debug
  dbgwvr11 : Debug
  dbgwvr12 : Debug
  dbgwvr13 : Debug
  dbgwvr14 : Debug
  dbgwvr15 : Debug
  dbgwcr0 : Debug
  dbgwcr1 : Debug
  dbgwcr2 : Debug
  dbgwcr3 : Debug
  dbgwcr4 : Debug
  dbgwcr5 : Debug
  dbgwcr6 : Debug
  dbgwcr7 : Debug
  dbgwcr8 : Debug
  dbgwcr9 : Debug
  dbgwcr10 : Debug
  dbgwcr11 : Debug
  dbgwcr12 : Debug
  dbgwcr13 : Debug
  dbgwcr14 : Debug
  dbgwcr15 : Debug
  dbgxvr0 : Debug
  dbgxvr1 : Debug
  dbgoslar : Debug
  dbgoslsr : Debug
  dbgprcr : Debug
  dbgclaimset : Debug
  dbgclaimclr : Debug
  dbgauthstatus : Debug
  dbgdevid2 : Debug
  dbgdevid1 : Debug
  dbgdevid : Debug
  dbgdscr_int : Debug
  dbgdtrrx_int : Debug
  dgbdrar : Debug
  dgbosdlr : Debug
  dgbdsar : Debug

unfoldable pub debug_operands : Debug → Operands
debug_operands dbgdidr = operands 14 0 0 0 0
debug_operands dbgwfar = operands 14 0 0 6 0
debug_operands dbgvcr = operands 14 0 0 7 0
debug_operands dbgdtrrx_ext = operands 14 0 0 0 2
debug_operands dbgdscr_ext = operands 14 0 0 2 2
debug_operands dbgdtrtx_ext = operands 14 0 0 3 2
debug_operands dbgbvr0 = operands 14 0 0 0 4
debug_operands dbgbvr1 = operands 14 0 0 1 4
debug_operands dbgbvr2 = operands 14 0 0 2 4
debug_operands dbgbvr3 = operands 14 0 0 3 4
debug_operands dbgbvr4 = operands 14 0 0 4 4
debug_operands dbgbvr5 = operands 14 0 0 5 4
debug_operands dbgbvr6 = operands 14 0 0 6 4
debug_operands dbgbvr7 = operands 14 0 0 7 4
debug_operands dbgbvr8 = operands 14 0 0 8 4
debug_operands dbgbvr9 = operands 14 0 0 9 4
debug_operands dbgbvr10 = operands 14 0 0 10 4
debug_operands dbgbvr11 = operands 14 0 0 11 4
debug_operands dbgbvr12 = operands 14 0 0 12 4
debug_operands dbgbvr13 = operands 14 0 0 13 4
debug_operands dbgbvr14 = operands 14 0 0 14 4
debug_operands dbgbvr15 = operands 14 0 0 15 4
debug_operands dbgbcr0 = operands 14 0 0 0 5
debug_operands dbgbcr1 = operands 14 0 0 1 5
debug_operands dbgbcr2 = operands 14 0 0 2 5
debug_operands dbgbcr3 = operands 14 0 0 3 5
debug_operands dbgbcr4 = operands 14 0 0 4 5
debug_operands dbgbcr5 = operands 14 0 0 5 5
debug_operands dbgbcr6 = operands 14 0 0 6 5
debug_operands dbgbcr7 = operands 14 0 0 7 5
debug_operands dbgbcr8 = operands 14 0 0 8 5
debug_operands dbgbcr9 = operands 14 0 0 9 5
debug_operands dbgbcr10 = operands 14 0 0 10 5
debug_operands dbgbcr11 = operands 14 0 0 11 5
debug_operands dbgbcr12 = operands 14 0 0 12 5
debug_operands dbgbcr13 = operands 14 0 0 13 5
debug_operands dbgbcr14 = operands 14 0 0 14 5
debug_operands dbgbcr15 = operands 14 0 0 15 5
debug_operands dbgwvr0 = operands 14 0 0 0 5
debug_operands dbgwvr1 = operands 14 0 0 1 5
debug_operands dbgwvr2 = operands 14 0 0 2 5
debug_operands dbgwvr3 = operands 14 0 0 3 5
debug_operands dbgwvr4 = operands 14 0 0 4 5
debug_operands dbgwvr5 = operands 14 0 0 5 5
debug_operands dbgwvr6 = operands 14 0 0 6 5
debug_operands dbgwvr7 = operands 14 0 0 7 5
debug_operands dbgwvr8 = operands 14 0 0 8 5
debug_operands dbgwvr9 = operands 14 0 0 9 5
debug_operands dbgwvr10 = operands 14 0 0 10 5
debug_operands dbgwvr11 = operands 14 0 0 11 5
debug_operands dbgwvr12 = operands 14 0 0 12 5
debug_operands dbgwvr13 = operands 14 0 0 13 5
debug_operands dbgwvr14 = operands 14 0 0 14 5
debug_operands dbgwvr15 = operands 14 0 0 15 5
debug_operands dbgwcr0 = operands 14 0 0 0 6
debug_operands dbgwcr1 = operands 14 0 0 1 6
debug_operands dbgwcr2 = operands 14 0 0 2 6
debug_operands dbgwcr3 = operands 14 0 0 3 6
debug_operands dbgwcr4 = operands 14 0 0 4 6
debug_operands dbgwcr5 = operands 14 0 0 5 6
debug_operands dbgwcr6 = operands 14 0 0 6 6
debug_operands dbgwcr7 = operands 14 0 0 7 6
debug_operands dbgwcr8 = operands 14 0 0 8 6
debug_operands dbgwcr9 = operands 14 0 0 9 6
debug_operands dbgwcr10 = operands 14 0 0 10 6
debug_operands dbgwcr11 = operands 14 0 0 11 6
debug_operands dbgwcr12 = operands 14 0 0 12 6
debug_operands dbgwcr13 = operands 14 0 0 13 6
debug_operands dbgwcr14 = operands 14 0 0 14 6
debug_operands dbgwcr15 = operands 14 0 0 15 6
debug_operands dbgxvr0 = operands 14 0 1 4 1
debug_operands dbgxvr1 = operands 14 0 1 5 1
debug_operands dbgoslar = operands 14 0 1 0 4
debug_operands dbgoslsr = operands 14 0 1 1 4
debug_operands dbgprcr = operands 14 0 1 4 4
debug_operands dbgclaimset = operands 14 0 7 8 6
debug_operands dbgclaimclr = operands 14 0 7 9 6
debug_operands dbgauthstatus = operands 14 0 7 14 6
debug_operands dbgdevid2 = operands 14 0 7 0 7
debug_operands dbgdevid1 = operands 14 0 7 1 7
debug_operands dbgdevid = operands 14 0 7 2 7
debug_operands dbgdscr_int = operands 14 0 0 1 0
debug_operands dbgdtrrx_int = operands 14 0 0 5 0
debug_operands dgbdrar = operands 14 0 1 0 0
debug_operands dgbosdlr = operands 14 0 1 3 4
debug_operands dgbdsar = operands 14 0 2 0 0
