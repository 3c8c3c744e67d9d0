-- ===== src/Prelude/Run.antt =====
-- Kernel code that can stop: a bad access, a failed `assert` (which calls `panic`, and that loops
-- for ever), or a lock that is not to be had. `out_of_fuel` belongs to the model of a loop alone.
use mathlib.Core.Option.{Option, none, some}
use mathlib.Core.Bool.{Bool, true, false}

pub data Run {ℓ} (A : Type ℓ) : Type ℓ where
  done : A → Run A
  fault : Run A
  panic : Run A
  spin : Run A
  out_of_fuel : Run A

infixl 5 ◌>>=◌ ◌>>◌
abbrev pub ◌>>=◌ {ℓ κ} : {A : Type ℓ} {B : Type κ} → Run A → (A → Run B) → Run B
done a >>= f = f a
fault >>= f = fault
panic >>= f = panic
spin >>= f = spin
out_of_fuel >>= f = out_of_fuel

abbrev pub ◌>>◌ {ℓ} : {B : Type ℓ} → Run (Unit {0}) → Run B → Run B
m >> k = m >>= λ _. k

-- include/timix/assert.h
unfoldable pub assert : Bool → Run (Unit {0})
assert true = done tt
assert false = panic

-- An access that is a fault when it is out of bounds.
abbrev pub access {ℓ} : {A : Type ℓ} → Option A → Run A
access none = fault
access (some a) = done a
