-- ===== src/Text/Dup.antt =====
-- `_strdup` of include/timix/string-impl.h, over `malloc` of kernel/malloc.c.
use timix_next.Prelude.{
  ℕ, ◌<◌, ◌≡◌, Option, none, some, List, Ptr, null, length, ◌==◌, refl, if◌then◌else◌,
}
use timix_next.Prelude.Run.{Run, done, panic, out_of_fuel, ◌>>=◌, assert}
use timix_next.Devices.Malloc.{malloc}
use timix_next.Text.Strings.{Memory, IsString, strlen, strcpy}
use timix_next.Text.Read.{strlen_lem}

-- A loop, where `none` is that it needs more fuel
abbrev fuelled {ℓ} : {A : Type ℓ} → Option A → Run A
fuelled none = out_of_fuel
fuelled (some a) = done a

unfoldable pub strdup : ℕ → Ptr → Memory → Run (Ptr × Memory)
unfolding strlen strcpy malloc
strdup k s m = fuelled (strlen k s m) >>= λ len. malloc len >>= λ new.
    let copied = fuelled (strcpy k new s m) >>= λ (_, m'). done (new, m') in
    if new == null then done (null, m) else copied

-- `_strdup` of any string counts its characters and fails the assertion of `malloc` then: it copies
-- nothing and does not return.
pub strdup_panics :
    (k : ℕ) (s : Ptr) (cs : List ℕ) (m : Memory)
    → IsString m s cs
    → length cs < k
    → strdup k s m ≡ panic
unfolding strdup malloc assert
strdup_panics k s cs m is enough = rw (strlen_lem m k s cs is enough) refl
