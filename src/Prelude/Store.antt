-- ===== src/Prelude/Store.antt =====
-- Memory as a function from addresses, and a write at one address.
use Prim.Native.Nat.{ℕ}
use mathlib.Core.Path.{◌≡◌}
use mathlib.Core.Logic.{◌≢◌}
use mathlib.Core.Bool.{false}
use native.Mathlib.Omega.{arith}
use timix_next.Prelude.Tests.{◌==◌, if◌then◌else◌}

-- An address, as a number; `NULL` is 0.
abbrev pub Ptr : Type 0
Ptr = ℕ

abbrev pub null : Ptr
null = 0

unfoldable pub update {ℓ} : {A : Type ℓ} → (Ptr → A) → Ptr → A → Ptr → A
update f p v a = if a == p then v else f a

module _ {ℓ} {A : Type ℓ} (f : Ptr → A) (p : Ptr) (v : A) where
  pub update_self : update f p v p ≡ v
  unfolding update
  update_self = ground arith

  pub update_ne : {a : Ptr} → a ≢ p → update f p v a ≡ f a
  unfolding update
  update_ne ne = ground arith

pub eqb_false : {a b : Ptr} → a ≢ b → (a == b) ≡ false
eqb_false ne = ground arith
