-- ===== src/Prelude/Gives.antt =====
-- What holds of the value that a run gives, if it gives one.
use timix_next.Prelude.Run.{Run, done, fault, panic, spin, out_of_fuel, ◌>>=◌}

-- What the run gives, if it ends well, satisfies `P`.
abbrev pub Gives : {A : Type 0} → (A → Type 0) → Run A → Type 0
Gives P (done x) = P x
Gives P fault = Unit
Gives P panic = Unit
Gives P spin = Unit
Gives P out_of_fuel = Unit

pub Gives-bind :
    {A : Type 0} {B : Type 0} (P : A → Type 0) (Q : B → Type 0) (r : Run A) (f : A → Run B)
    → Gives P r
    → ((x : A) → P x → Gives Q (f x))
    → Gives Q (r >>= f)
Gives-bind P Q (done x) f g h = h x g
Gives-bind P Q fault f g h = tt
Gives-bind P Q panic f g h = tt
Gives-bind P Q spin f g h = tt
Gives-bind P Q out_of_fuel f g h = tt

pub Gives-all : {A : Type 0} (P : A → Type 0) (r : Run A) → ((x : A) → P x) → Gives P r
Gives-all P (done x) h = h x
Gives-all P fault h = tt
Gives-all P panic h = tt
Gives-all P spin h = tt
Gives-all P out_of_fuel h = tt

pub Gives-mono :
    {A : Type 0} (P Q : A → Type 0) (r : Run A) → Gives P r → ((x : A) → P x → Q x) → Gives Q r
Gives-mono P Q (done x) g h = h x g
Gives-mono P Q fault g h = tt
Gives-mono P Q panic g h = tt
Gives-mono P Q spin g h = tt
Gives-mono P Q out_of_fuel g h = tt
