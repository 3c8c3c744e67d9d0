-- ===== src/Prelude/Fault.antt =====
-- Code that can go wrong: `none` is a fault, such as a write outside of an array.
use Prim.Native.Nat.{ℕ, zero, suc, ◌+◌, ◌≤◌, ◌<◌}
use mathlib.Core.Path.{◌≡◌, refl}
use mathlib.Core.Option.{Option, none, some}
use native.Mathlib.Omega.{arith}

infixl 5 ◌>>=◌
abbrev pub ◌>>=◌ {ℓ κ} : {A : Type ℓ} {B : Type κ} → Option A → (A → Option B) → Option B
none >>= f = none
some a >>= f = f a

-- The run ends without a fault, in a state with the property.
abbrev pub Ends {ℓ κ} : {A : Type ℓ} → Option A → (A → Type κ) → Type (ℓ ⊔ κ)
Ends {A} m P = (a : A) × (m ≡ some a) × P a

-- `for (i = start; i < start + n; i++)`
unfoldable pub for_range {ℓ} : {S : Type ℓ} → (n start : ℕ) → (ℕ → S → Option S) → S → Option S
for_range zero i body s = some s
for_range (suc n) i body s = body i s >>= for_range n (i + 1) body

-- The loop ends without a fault, and what each round keeps holds in the end. The end `j` is a
-- variable with an equation, since `i + 0` is stuck.
pub for_range_Ends {ℓ κ} :
    {S : Type ℓ} (P : ℕ → S → Type κ) (body : ℕ → S → Option S) (n i j : ℕ)
    → i + n ≡ j
    → ((k : ℕ) (s : S) → i ≤ k → k < j → P k s → Ends (body k s) (P (k + 1)))
    → (s : S) → P i s
    → Ends (for_range n i body s) (P j)
unfolding for_range
for_range_Ends P body zero i j e keep s h = (s, refl, let e' : i ≡ j = omega arith in rw (← e') h)
for_range_Ends P body (suc n) i j e keep s h =
    let (t, ran, h') = keep i s (omega arith) (omega arith) h in
    let (u, rest, h'') =
      for_range_Ends P body n (i + 1) j (omega arith) (λ k v lo hi. keep k v (omega arith) hi) t
        h' in
    (u, rw ran rest, h'')

pub Ends-bind {ℓ κ μ ν} :
    {A : Type ℓ} {B : Type κ} (P : A → Type μ) (Q : B → Type ν) (m : Option A) (f : A → Option B)
    → Ends m P
    → ((a : A) → P a → Ends (f a) Q)
    → Ends (m >>= f) Q
Ends-bind P Q m f (a, e, p) next = let (b, e', q) = next a p in (b, rw e e', q)
