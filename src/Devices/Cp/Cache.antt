-- ===== src/Devices/Cp/Cache.antt =====
-- arch/arm/include/arch/cp.h, the register names of cr7 and cr8: caches, address translation and the TLB.
use timix_next.Devices.Cp.{Operands, operands}

pub data Cr7 : Type 0 where
  icialluis : Cr7
  bpiallis : Cr7
  par : Cr7
  iciallu : Cr7
  icimvau : Cr7
  cp15isb : Cr7
  bpiall : Cr7
  bpimva : Cr7
  dcimvac : Cr7
  dcisw : Cr7
  ats1cpr : Cr7
  ats1cpw : Cr7
  ats1cur : Cr7
  ats1cuw : Cr7
  ats12nsopr : Cr7
  ats12nsopw : Cr7
  ats12nsour : Cr7
  ats12nsouw : Cr7
  dccmvac : Cr7
  dccsw : Cr7
  cp15dsb : Cr7
  cp15dmb : Cr7
  dccmvau : Cr7
  dccimvac : Cr7
  dccisw : Cr7
  ats1hr : Cr7
  ats1hw : Cr7

unfoldable pub cr7_operands : Cr7 → Operands
cr7_operands icialluis = operands 15 0 7 1 0
cr7_operands bpiallis = operands 15 0 7 1 6
cr7_operands par = operands 15 0 7 4 0
cr7_operands iciallu = operands 15 0 7 5 0
cr7_operands icimvau = operands 15 0 7 5 1
cr7_operands cp15isb = operands 15 0 7 5 4
cr7_operands bpiall = operands 15 0 7 5 6
cr7_operands bpimva = operands 15 0 7 5 7
cr7_operands dcimvac = operands 15 0 7 6 1
cr7_operands dcisw = operands 15 0 7 6 2
cr7_operands ats1cpr = operands 15 0 7 8 0
cr7_operands ats1cpw = operands 15 0 7 8 1
cr7_operands ats1cur = operands 15 0 7 8 2
cr7_operands ats1cuw = operands 15 0 7 8 3
cr7_operands ats12nsopr = operands 15 0 7 8 4
cr7_operands ats12nsopw = operands 15 0 7 8 5
cr7_operands ats12nsour = operands 15 0 7 8 6
cr7_operands ats12nsouw = operands 15 0 7 8 7
cr7_operands dccmvac = operands 15 0 7 10 1
cr7_operands dccsw = operands 15 0 7 10 2
cr7_operands cp15dsb = operands 15 0 7 10 4
cr7_operands cp15dmb = operands 15 0 7 10 5
cr7_operands dccmvau = operands 15 0 7 11 1
cr7_operands dccimvac = operands 15 0 7 14 1
cr7_operands dccisw = operands 15 0 7 14 2
cr7_operands ats1hr = operands 15 4 7 8 0
cr7_operands ats1hw = operands 15 4 7 8 1

pub data Cr8 : Type 0 where
  tlbiallis : Cr8
  tlbimvais : Cr8
  tlbiasidis : Cr8
  tlbimvaais : Cr8
  itlbiall : Cr8
  itlbimva : Cr8
  itlbiasid : Cr8
  dtlbiall : Cr8
  dtlbimva : Cr8
  dtlbiasid : Cr8
  tlbiall : Cr8
  tlbimva : Cr8
  tlbiasid : Cr8
  tlbimvaa : Cr8
  tlbiallhis : Cr8
  tlbimvahis : Cr8
  tlbiallnsnhis : Cr8
  tlbiallh : Cr8
  tlbimvah : Cr8
  tlbiallnsnh : Cr8

unfoldable pub cr8_operands : Cr8 → Operands
cr8_operands tlbiallis = operands 15 0 8 3 0
cr8_operands tlbimvais = operands 15 0 8 3 1
cr8_operands tlbiasidis = operands 15 0 8 3 2
cr8_operands tlbimvaais = operands 15 0 8 3 3
cr8_operands itlbiall = operands 15 0 8 5 0
cr8_operands itlbimva = operands 15 0 8 5 1
cr8_operands itlbiasid = operands 15 0 8 5 2
cr8_operands dtlbiall = operands 15 0 8 6 0
cr8_operands dtlbimva = operands 15 0 8 6 1
cr8_operands dtlbiasid = operands 15 0 8 6 2
cr8_operands tlbiall = operands 15 0 8 7 0
cr8_operands tlbimva = operands 15 0 8 7 1
cr8_operands tlbiasid = operands 15 0 8 7 2
cr8_operands tlbimvaa = operands 15 0 8 7 3
cr8_operands tlbiallhis = operands 15 4 8 3 0
cr8_operands tlbimvahis = operands 15 4 8 3 1
cr8_operands tlbiallnsnhis = operands 15 4 8 3 4
cr8_operands tlbiallh = operands 15 4 8 7 0
cr8_operands tlbimvah = operands 15 4 8 7 1
cr8_operands tlbiallnsnh = operands 15 4 8 7 4
