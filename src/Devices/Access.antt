-- ===== src/Devices/Access.antt =====
-- include/timix/io.h: the input and output functions over those of the architecture, which
-- Devices/Io gives for ARM; here they are a parameter.
use timix_next.Prelude.{ℕ, Ptr}

-- The architecture's `__write32` to `__rmb`.
pub record Arch : Type 1 where
  pub State : Type 0
  pub write32 : Ptr → ℕ → State → State
  pub write16 : Ptr → ℕ → State → State
  pub write8 : Ptr → ℕ → State → State
  pub read32 : Ptr → State → ℕ × State
  pub read16 : Ptr → State → ℕ × State
  pub read8 : Ptr → State → ℕ × State
  pub wmb : State → State
  pub rmb : State → State

module _ (arch : Arch) where
  unfoldable pub wmb : arch.State → arch.State
  wmb s = arch.wmb s

  unfoldable pub rmb : arch.State → arch.State
  rmb s = arch.rmb s

  unfoldable pub write32 : Ptr → ℕ → arch.State → arch.State
  write32 addr val s = arch.write32 addr val s

  unfoldable pub write16 : Ptr → ℕ → arch.State → arch.State
  write16 addr val s = arch.write16 addr val s

  unfoldable pub write8 : Ptr → ℕ → arch.State → arch.State
  write8 addr val s = arch.write8 addr val s

  unfoldable pub read32 : Ptr → arch.State → ℕ × arch.State
  read32 addr s = arch.read32 addr s

  unfoldable pub read16 : Ptr → arch.State → ℕ × arch.State
  read16 addr s = arch.read16 addr s

  unfoldable pub read8 : Ptr → arch.State → ℕ × arch.State
  read8 addr s = arch.read8 addr s
