-- ===== src/Devices/Cp/Apart.antt =====
-- arch/arm/include/arch/cp.h: what the register names expand to, and which mean the same register.
use timix_next.Prelude.{ℕ, ◌<◌, ◌≡◌, ◌⊎◌, ◌↔◌, arith, ap, ◌+◌, ◌*◌, ◌∙◌, sym, ◌==◌, if◌then◌else◌}
use timix_next.Devices.Cp.{Operands}
use timix_next.Devices.Cp.Memory
use timix_next.Devices.Cp.Cache
use timix_next.Devices.Cp.Counters
use timix_next.Devices.Cp.Debug
use timix_next.Devices.Cp.Names.{
  Register, cr0, cr1, cr2, cr3, cr5, cr6, cr7, cr8, cr9, cr10, cr12, cr13, cr14, cr15, debug,
  expand, first, section,
}

expand_of_first : (r : Register) → expand (first r) ≡ expand r
unfolding first expand
expand_of_first r = ground arith

abbrev place : Operands → ℕ
place r = if r.cp == 14 then 224 else r.cp * 16 + r.crn

pub record IsEncodable (n : ℕ) (r : Operands) : Type 0 where
  pub cp : (r.cp ≡ 15) ⊎ (r.cp ≡ 14)
  pub crn : r.cp ≡ 15 → r.crn + 240 ≡ n
  pub fits : (r.op1 < 8) × (r.crn < 16) × (r.crm < 16) × (r.op2 < 8)

section_lem : (r : Register) → section r ≡ place (expand r)
unfolding expand section
section_lem (cr0 r) = ground arith
section_lem (cr1 r) = ground arith
section_lem (cr2 r) = ground arith
section_lem (cr3 r) = ground arith
section_lem (cr5 r) = ground arith
section_lem (cr6 r) = ground arith
section_lem (cr7 r) = ground arith
section_lem (cr8 r) = ground arith
section_lem (cr9 r) = ground arith
section_lem (cr10 r) = ground arith
section_lem (cr12 r) = ground arith
section_lem (cr13 r) = ground arith
section_lem (cr14 r) = ground arith
section_lem (cr15 r) = ground arith
section_lem (debug r) = ground arith

cr0-first : (a b : Memory.Cr0) → expand (cr0 a) ≡ expand (cr0 b) → first (cr0 a) ≡ first (cr0 b)
unfolding expand first
cr0-first a b h = ground (arith, h)

cr1-first : (a b : Memory.Cr1) → expand (cr1 a) ≡ expand (cr1 b) → first (cr1 a) ≡ first (cr1 b)
unfolding expand first
cr1-first a b h = ground (arith, h)

cr2-first : (a b : Memory.Cr2) → expand (cr2 a) ≡ expand (cr2 b) → first (cr2 a) ≡ first (cr2 b)
unfolding expand first
cr2-first a b h = ground (arith, h)

cr3-first : (a b : Memory.Cr3) → expand (cr3 a) ≡ expand (cr3 b) → first (cr3 a) ≡ first (cr3 b)
unfolding expand first
cr3-first a b h = ground (arith, h)

cr5-first : (a b : Memory.Cr5) → expand (cr5 a) ≡ expand (cr5 b) → first (cr5 a) ≡ first (cr5 b)
unfolding expand first
cr5-first a b h = ground (arith, h)

cr6-first : (a b : Memory.Cr6) → expand (cr6 a) ≡ expand (cr6 b) → first (cr6 a) ≡ first (cr6 b)
unfolding expand first
cr6-first a b h = ground (arith, h)

cr7-first : (a b : Cache.Cr7) → expand (cr7 a) ≡ expand (cr7 b) → first (cr7 a) ≡ first (cr7 b)
unfolding expand first
cr7-first a b h = ground (arith, h)

cr8-first : (a b : Cache.Cr8) → expand (cr8 a) ≡ expand (cr8 b) → first (cr8 a) ≡ first (cr8 b)
unfolding expand first
cr8-first a b h = ground (arith, h)

cr9-first : (a b : Counters.Cr9) → expand (cr9 a) ≡ expand (cr9 b) → first (cr9 a) ≡ first (cr9 b)
unfolding expand first
cr9-first a b h = ground (arith, h)

cr10-first :
    (a b : Counters.Cr10) → expand (cr10 a) ≡ expand (cr10 b) → first (cr10 a) ≡ first (cr10 b)
unfolding expand first
cr10-first a b h = ground (arith, h)

cr12-first :
    (a b : Counters.Cr12) → expand (cr12 a) ≡ expand (cr12 b) → first (cr12 a) ≡ first (cr12 b)
unfolding expand first
cr12-first a b h = ground (arith, h)

cr13-first :
    (a b : Counters.Cr13) → expand (cr13 a) ≡ expand (cr13 b) → first (cr13 a) ≡ first (cr13 b)
unfolding expand first
cr13-first a b h = ground (arith, h)

cr14-first :
    (a b : Counters.Cr14) → expand (cr14 a) ≡ expand (cr14 b) → first (cr14 a) ≡ first (cr14 b)
unfolding expand first
cr14-first a b h = ground (arith, h)

cr15-first :
    (a b : Counters.Cr15) → expand (cr15 a) ≡ expand (cr15 b) → first (cr15 a) ≡ first (cr15 b)
unfolding expand first
cr15-first a b h = ground (arith, h)

debug-first :
    (a b : Debug.Debug) → expand (debug a) ≡ expand (debug b) → first (debug a) ≡ first (debug b)
unfolding expand first
debug-first a b h = ground (arith, h)

by_section : (a b : Register) → section a ≡ section b → expand a ≡ expand b → first a ≡ first b
unfolding section
by_section (cr0 a) (cr0 b) same h = cr0-first a b h
by_section (cr1 a) (cr1 b) same h = cr1-first a b h
by_section (cr2 a) (cr2 b) same h = cr2-first a b h
by_section (cr3 a) (cr3 b) same h = cr3-first a b h
by_section (cr5 a) (cr5 b) same h = cr5-first a b h
by_section (cr6 a) (cr6 b) same h = cr6-first a b h
by_section (cr7 a) (cr7 b) same h = cr7-first a b h
by_section (cr8 a) (cr8 b) same h = cr8-first a b h
by_section (cr9 a) (cr9 b) same h = cr9-first a b h
by_section (cr10 a) (cr10 b) same h = cr10-first a b h
by_section (cr12 a) (cr12 b) same h = cr12-first a b h
by_section (cr13 a) (cr13 b) same h = cr13-first a b h
by_section (cr14 a) (cr14 b) same h = cr14-first a b h
by_section (cr15 a) (cr15 b) same h = cr15-first a b h
by_section (debug a) (debug b) same h = debug-first a b h
by_section a b same h = ground (arith, same)

-- Every register name of cp.h expands to operands that fit their fields in the instruction: three
-- bits each for `op1` and `op2`, four each for the rest. The coprocessor is 14 or 15, and for 15 the
-- section of the header is the number `crn`.
pub expand-IsEncodable : (r : Register) → IsEncodable (section r) (expand r)
unfolding expand section
expand-IsEncodable (cr0 r) = ground arith
expand-IsEncodable (cr1 r) = ground arith
expand-IsEncodable (cr2 r) = ground arith
expand-IsEncodable (cr3 r) = ground arith
expand-IsEncodable (cr5 r) = ground arith
expand-IsEncodable (cr6 r) = ground arith
expand-IsEncodable (cr7 r) = ground arith
expand-IsEncodable (cr8 r) = ground arith
expand-IsEncodable (cr9 r) = ground arith
expand-IsEncodable (cr10 r) = ground arith
expand-IsEncodable (cr12 r) = ground arith
expand-IsEncodable (cr13 r) = ground arith
expand-IsEncodable (cr14 r) = ground arith
expand-IsEncodable (cr15 r) = ground arith
expand-IsEncodable (debug r) = ground arith

-- Two names of cp.h that stand for the same operands are the same name, but for the aliases of cr10
-- and for the watchpoint value registers `DBGWVRn`, which have the operands of `DBGBCRn`: `first`
-- is the same for them. The other way, names with the same `first` have the same operands.
pub expand-first : (a b : Register) → (expand a ≡ expand b) ↔ (first a ≡ first b)
expand-first a b = (
  λ h. by_section a b (section_lem a ∙ ap place h ∙ sym (section_lem b)) h,
  λ h. sym (expand_of_first a) ∙ ap expand h ∙ expand_of_first b,
)
