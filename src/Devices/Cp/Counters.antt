-- ===== src/Devices/Cp/Counters.antt =====
-- arch/arm/include/arch/cp.h, the register names of cr9 to cr15: performance monitors, memory attributes, vectors, threads, the timer and the L1 arrays.
use timix_next.Devices.Cp.{Operands, operands}

pub data Cr9 : Type 0 where
  pmcr : Cr9
  pmcntenset : Cr9
  pmcntenclr : Cr9
  pmovsr : Cr9
  pmswinc : Cr9
  pmselr : Cr9
  pmceid0 : Cr9
  pmceid1 : Cr9
  pmccntr : Cr9
  pmxevtyper : Cr9
  pmxevcntr : Cr9
  pmusernr : Cr9
  pmintenset : Cr9
  pmintenclr : Cr9
  pmovsset : Cr9
  l2ctlr : Cr9
  l2ectlr : Cr9

unfoldable pub cr9_operands : Cr9 → Operands
cr9_operands pmcr = operands 15 0 9 12 0
cr9_operands pmcntenset = operands 15 0 9 12 1
cr9_operands pmcntenclr = operands 15 0 9 12 2
cr9_operands pmovsr = operands 15 0 9 12 3
cr9_operands pmswinc = operands 15 0 9 12 4
cr9_operands pmselr = operands 15 0 9 12 5
cr9_operands pmceid0 = operands 15 0 9 12 6
cr9_operands pmceid1 = operands 15 0 9 12 7
cr9_operands pmccntr = operands 15 0 9 13 0
cr9_operands pmxevtyper = operands 15 0 9 13 1
cr9_operands pmxevcntr = operands 15 0 9 13 2
cr9_operands pmusernr = operands 15 0 9 14 0
cr9_operands pmintenset = operands 15 0 9 14 1
cr9_operands pmintenclr = operands 15 0 9 14 2
cr9_operands pmovsset = operands 15 0 9 14 3
cr9_operands l2ctlr = operands 15 1 9 0 2
cr9_operands l2ectlr = operands 15 1 9 0 3

pub data Cr10 : Type 0 where
  prrr : Cr10
  mari0 : Cr10
  nmrr : Cr10
  mari1 : Cr10
  amari0 : Cr10
  amari1 : Cr10
  hmair0 : Cr10
  hmair1 : Cr10
  hamair0 : Cr10
  hamair1 : Cr10

unfoldable pub cr10_operands : Cr10 → Operands
cr10_operands prrr = operands 15 0 10 2 0
cr10_operands mari0 = operands 15 0 10 2 0
cr10_operands nmrr = operands 15 0 10 2 1
cr10_operands mari1 = operands 15 0 10 2 1
cr10_operands amari0 = operands 15 0 10 3 0
cr10_operands amari1 = operands 15 0 10 3 0
cr10_operands hmair0 = operands 15 4 10 2 0
cr10_operands hmair1 = operands 15 4 10 2 1
cr10_operands hamair0 = operands 15 4 10 3 0
cr10_operands hamair1 = operands 15 4 10 3 1

pub data Cr12 : Type 0 where
  vbar : Cr12
  mvbar : Cr12
  isr : Cr12
  hvbar : Cr12

unfoldable pub cr12_operands : Cr12 → Operands
cr12_operands vbar = operands 15 0 12 0 0
cr12_operands mvbar = operands 15 0 12 0 1
cr12_operands isr = operands 15 0 12 1 0
cr12_operands hvbar = operands 15 4 12 0 0

pub data Cr13 : Type 0 where
  fcseidr : Cr13
  contextidr : Cr13
  tpidrurw : Cr13
  tpidruro : Cr13
  tpidrprw : Cr13
  htpidr : Cr13

unfoldable pub cr13_operands : Cr13 → Operands
cr13_operands fcseidr = operands 15 0 13 0 0
cr13_operands contextidr = operands 15 0 13 0 1
cr13_operands tpidrurw = operands 15 0 13 0 2
cr13_operands tpidruro = operands 15 0 13 0 3
cr13_operands tpidrprw = operands 15 0 13 0 4
cr13_operands htpidr = operands 15 4 13 0 2

pub data Cr14 : Type 0 where
  cntfrq : Cr14
  cntkctl : Cr14
  cntp_tval : Cr14
  cntp_ctl : Cr14
  cntv_tval : Cr14
  cntv_ctl : Cr14
  cnthctl : Cr14
  cnthp_tval : Cr14
  cnthp_ctl : Cr14

unfoldable pub cr14_operands : Cr14 → Operands
cr14_operands cntfrq = operands 15 0 14 0 0
cr14_operands cntkctl = operands 15 0 14 1 0
cr14_operands cntp_tval = operands 15 0 14 2 0
cr14_operands cntp_ctl = operands 15 0 14 2 1
cr14_operands cntv_tval = operands 15 0 14 3 0
cr14_operands cntv_ctl = operands 15 0 14 3 1
cr14_operands cnthctl = operands 15 4 14 1 0
cr14_operands cnthp_tval = operands 15 4 14 2 0
cr14_operands cnthp_ctl = operands 15 4 14 2 1

pub data Cr15 : Type 0 where
  il1data0 : Cr15
  il1data1 : Cr15
  il1data2 : Cr15
  dl1data0 : Cr15
  dl1data1 : Cr15
  dl1data2 : Cr15
  dl1data3 : Cr15
  ramindex : Cr15
  l2actlr : Cr15
  l2pfr : Cr15
  actlr2 : Cr15
  cbar : Cr15

unfoldable pub cr15_operands : Cr15 → Operands
cr15_operands il1data0 = operands 15 0 15 0 0
cr15_operands il1data1 = operands 15 0 15 0 1
cr15_operands il1data2 = operands 15 0 15 0 2
cr15_operands dl1data0 = operands 15 0 15 1 0
cr15_operands dl1data1 = operands 15 0 15 1 1
cr15_operands dl1data2 = operands 15 0 15 1 2
cr15_operands dl1data3 = operands 15 0 15 1 3
cr15_operands ramindex = operands 15 0 15 4 0
cr15_operands l2actlr = operands 15 1 15 0 0
cr15_operands l2pfr = operands 15 1 15 0 3
cr15_operands actlr2 = operands 15 1 15 0 4
cr15_operands cbar = operands 15 4 15 0 0
