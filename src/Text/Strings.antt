-- ===== src/Text/Strings.antt =====
-- The functions of include/timix/string-impl.h but `_strtok` and `_strdup`. A character is its byte, as where `char`
-- is unsigned (ARM); where it is signed, `_strcmp` and `_strncmp` return another number for bytes from
-- 128 on.
use timix_next.Prelude.{
  ℕ, zero, suc, ◌+◌, ◌%◌, ◌≢◌, ◌≡◌, not, ◌&&◌, Option, none, some, List, [], ◌∷◌, Ptr, null, update,
  ltb, ◌==◌, if◌then◌else◌, ◌>>=◌,
}
use timix_next.Prelude.Int.{ℤ, sub_ℕ}

abbrev pub Memory : Type 0
Memory = Ptr → ℕ

-- The bytes `cs`, none of them 0, and the terminator stand at `p`.
abbrev pub IsString : Memory → Ptr → List ℕ → Type 0
IsString m p [] = m p ≡ 0
IsString m p (c ∷ cs) = (m p ≡ c) × (c ≢ 0) × IsString m (p + 1) cs

-- `while (s[len]) len++;`
unfoldable pub strlen_loop : ℕ → Ptr → ℕ → Memory → Option ℕ
strlen_loop zero s len m = none
strlen_loop (suc k) s len m =
    let rest = strlen_loop k s (len + 1) m in if m (s + len) == 0 then some len else rest

unfoldable pub strlen : ℕ → Ptr → Memory → Option ℕ
unfolding strlen_loop
strlen k s m = strlen_loop k s 0 m

-- `while ((*dest++ = *src++) != '\0');`, and `dest` after it
unfoldable pub strcpy : ℕ → (dest src : Ptr) → Memory → Option (Ptr × Memory)
strcpy zero dest src m = none
strcpy (suc k) dest src m =
    let m' = update m dest (m src) in
    let rest = strcpy k (dest + 1) (src + 1) m' in if m src == 0 then some (dest + 1, m') else rest

-- `while (*str1) str1++;`
unfoldable pub find_end : ℕ → Ptr → Memory → Option Ptr
find_end zero p m = none
find_end (suc k) p m = let rest = find_end k (p + 1) m in if m p == 0 then some p else rest

-- The second loop of `_strcat` is that of `_strcpy`.
unfoldable pub strcat : ℕ → (str1 str2 : Ptr) → Memory → Option (Ptr × Memory)
unfolding find_end strcpy
strcat k str1 str2 m = find_end k str1 m >>= λ p. strcpy k p str2 m

-- `while ((*dest++ = *src++) != '\0' && i++ < n);`
unfoldable pub strncpy_loop : ℕ → (dest src : Ptr) → (n i : ℕ) → Memory → Option (Ptr × Memory)
strncpy_loop zero dest src n i m = none
strncpy_loop (suc k) dest src n i m =
    let m' = update m dest (m src) in
    let rest = strncpy_loop k (dest + 1) (src + 1) n (i + 1) m' in
    if not (m src == 0) && ltb i n then rest else some (dest + 1, m')

unfoldable pub strncpy : ℕ → (dest src : Ptr) → (n : ℕ) → Memory → Option (Ptr × Memory)
unfolding strncpy_loop
strncpy k dest src n m = strncpy_loop k dest src n 0 m

-- `while (s1[i] == s2[i] && s1[i]) i++;` and the difference behind it
unfoldable pub strcmp_loop : ℕ → (s1 s2 : Ptr) → (i : ℕ) → Memory → Option ℤ
strcmp_loop zero s1 s2 i m = none
strcmp_loop (suc k) s1 s2 i m =
    let rest = strcmp_loop k s1 s2 (i + 1) m in
    if (m (s1 + i) == m (s2 + i)) && not (m (s1 + i) == 0)
    then rest
    else some (sub_ℕ (m (s1 + i)) (m (s2 + i)))

unfoldable pub strcmp : ℕ → (s1 s2 : Ptr) → Memory → Option ℤ
unfolding strcmp_loop
strcmp k s1 s2 m = strcmp_loop k s1 s2 0 m

-- `while (s1[i] == s2[i] && i < n) i++;`
unfoldable pub strncmp_loop : ℕ → (s1 s2 : Ptr) → (n i : ℕ) → Memory → Option ℤ
strncmp_loop zero s1 s2 n i m = none
strncmp_loop (suc k) s1 s2 n i m =
    let rest = strncmp_loop k s1 s2 n (i + 1) m in
    if (m (s1 + i) == m (s2 + i)) && ltb i n then rest else some (sub_ℕ (m (s1 + i)) (m (s2 + i)))

unfoldable pub strncmp : ℕ → (s1 s2 : Ptr) → (n : ℕ) → Memory → Option ℤ
unfolding strncmp_loop
strncmp k s1 s2 n m = strncmp_loop k s1 s2 n 0 m

-- `while (len-- > 0) *to++ = c;`, where a `char` keeps the low byte of `c`
unfoldable pub fill : (len : ℕ) → (to c : ℕ) → Memory → Memory
fill zero to c m = m
fill (suc len) to c m = fill len (to + 1) c (update m to (c % 256))

unfoldable pub memset : (to c len : ℕ) → Memory → Ptr × Memory
unfolding fill
memset to c len m = (to, fill len to c m)

-- `null` is the answer for a character that does not occur.
unfoldable pub strchr : ℕ → Ptr → (c : ℕ) → Memory → Option Ptr
strchr zero s c m = none
strchr (suc k) s c m =
    let rest = strchr k (s + 1) c m in
    if m s == 0 then some null else if m s == c then some s else rest
