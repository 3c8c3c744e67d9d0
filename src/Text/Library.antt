-- ===== src/Text/Library.antt =====
-- lib/*.c: each function of include/timix/string.h that is there calls its namesake of
-- include/timix/string-impl.h.
use timix_next.Prelude.{ℕ, Option, Ptr}
use timix_next.Prelude.Int.{ℤ}
use timix_next.Prelude.Run.{Run}
use timix_next.Text.Strings.{Memory}
use timix_next.Text.Strings
use timix_next.Text.Dup
use timix_next.Text.Token

unfoldable pub strlen : ℕ → Ptr → Memory → Option ℕ
strlen k s m = Strings.strlen k s m

unfoldable pub strcpy : ℕ → (dest src : Ptr) → Memory → Option (Ptr × Memory)
strcpy k dest src m = Strings.strcpy k dest src m

unfoldable pub strncpy : ℕ → (str1 str2 : Ptr) → (n : ℕ) → Memory → Option (Ptr × Memory)
strncpy k str1 str2 n m = Strings.strncpy k str1 str2 n m

unfoldable pub strdup : ℕ → Ptr → Memory → Run (Ptr × Memory)
strdup k s m = Dup.strdup k s m

unfoldable pub strcat : ℕ → (s1 s2 : Ptr) → Memory → Option (Ptr × Memory)
strcat k s1 s2 m = Strings.strcat k s1 s2 m

unfoldable pub strcmp : ℕ → (s1 s2 : Ptr) → Memory → Option ℤ
strcmp k s1 s2 m = Strings.strcmp k s1 s2 m

unfoldable pub strncmp : ℕ → (str1 str2 : Ptr) → (n : ℕ) → Memory → Option ℤ
strncmp k str1 str2 n m = Strings.strncmp k str1 str2 n m

unfoldable pub strchr : ℕ → Ptr → (c : ℕ) → Memory → Option Ptr
strchr k s c m = Strings.strchr k s c m

unfoldable pub strtok : ℕ → (tok : Ptr) → (str delim : Ptr) → Memory → Option (Ptr × Ptr × Memory)
strtok k tok str delim m = Token.strtok k tok str delim m

unfoldable pub memset : (to c len : ℕ) → Memory → Ptr × Memory
memset to c len m = Strings.memset to c len m
