-- ===== src/Devices/Cp.antt =====
-- arch/arm/include/arch/cp.h: the coprocessor instructions `mrc` and `mcr`, whose operands the
-- register names stand for. The processor that runs an instruction is a parameter.
use timix_next.Prelude.{ℕ, Ptr}
pub mod Memory
pub mod Cache
pub mod Counters
pub mod Debug
pub mod Names
pub mod Apart

-- What a register's name expands to: the coprocessor, and the operands of the instruction.
pub record Operands : Type 0 where
  pub cp : ℕ
  pub op1 : ℕ
  pub crn : ℕ
  pub crm : ℕ
  pub op2 : ℕ

abbrev pub operands : (cp op1 crn crm op2 : ℕ) → Operands
operands cp op1 crn crm op2 = record { cp = cp; op1 = op1; crn = crn; crm = crm; op2 = op2 }

-- The instruction that the inline assembly writes.
pub data Instruction : Type 0 where
  mrc : Operands → Instruction
  mcr : Operands → Instruction

-- The processor: its state, and what an instruction with the word in the core's register does.
pub record Processor : Type 1 where
  pub State : Type 0
  pub run : Instruction → (word : ℕ) → State → ℕ × State

module _ (p : Processor) where
  unfoldable pub cp_read_raw : Operands → (var : ℕ) → p.State → ℕ × p.State
  cp_read_raw reg var s = p.run (mrc reg) var s

  unfoldable pub cp_write_raw : (var : ℕ) → Operands → p.State → p.State
  cp_write_raw var reg s = (p.run (mcr reg) var s).1

  unfoldable pub cp_read : Operands → (var : ℕ) → p.State → ℕ × p.State
  unfolding cp_read_raw
  cp_read reg var s = cp_read_raw reg var s

  unfoldable pub cp_write : (var : ℕ) → Operands → p.State → p.State
  unfolding cp_write_raw
  cp_write var reg s = cp_write_raw var reg s
