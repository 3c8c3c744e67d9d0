-- ===== src/Text/Join.antt =====
-- `_strcat` and `_strncmp` of include/timix/string-impl.h.
use timix_next.Prelude.{
  ltb, ℕ, zero, suc, ◌+◌, ◌<◌, ◌≤◌, ◌≢◌, ◌≡◌, ◌⊎◌, inl, refl, ◌∙◌, some, List, [], ◌∷◌, ◌++◌, Ptr,
  true, length, arith,
}
use timix_next.Prelude.Int.{sub_ℕ}
use timix_next.Text.Strings.{Memory, IsString, find_end, strcat, strncmp, strncmp_loop}
use timix_next.Text.Write.{OnlyIn, strcpy_lem}

find_end_lem :
    (k : ℕ) (p : Ptr) (cs : List ℕ) (m : Memory)
    → IsString m p cs
    → length cs < k
    → find_end k p m ≡ some (p + length cs)
unfolding find_end
find_end_lem zero p cs m is enough = ground (arith, enough)
find_end_lem (suc k) p [] m is enough = let e : p + 0 ≡ p = omega arith in rw (is, e) refl
find_end_lem (suc k) p (c ∷ cs) m (at, ne, is) enough =
    let e : p + suc (length cs) ≡ p + 1 + length cs = omega arith in
    rw (e) (ground (arith, at, ne, find_end_lem k (p + 1) cs m is (omega (arith, enough))))

-- The characters of a string that stay, and another string behind them.
IsString-append :
    (m m' : Memory) (p : Ptr) (cs ds : List ℕ)
    → IsString m p cs
    → ((a : Ptr) → p ≤ a → a < p + length cs → m' a ≡ m a)
    → IsString m' (p + length cs) ds
    → IsString m' p (cs ++ ds)
IsString-append m m' p [] ds is same there = let e : p + 0 ≡ p = omega arith in rw e at there
IsString-append m m' p (c ∷ cs) ds (at, ne, is) same there =
    let e : p + suc (length cs) ≡ p + 1 + length cs = omega arith in
    (
      same p (omega arith) (omega arith) ∙ at,
      ne,
      IsString-append m m' (p + 1) cs ds is
          (λ a lo hi. same a (omega (arith, lo)) (omega (arith, hi))) (rw e at there),
    )

-- `_strcat` of two strings, where the place for the second one behind the first does not overlap it,
-- leaves both at `str1`, one after the other, changes nothing but the bytes from the first
-- terminator on that the second string takes, and returns the address behind the new terminator;
-- more fuel than characters is enough.
pub strcat_lem :
    (k : ℕ) (str1 str2 : Ptr) (cs ds : List ℕ) (m : Memory)
    → IsString m str1 cs
    → IsString m str2 ds
    → (str1 + length cs + length ds < str2) ⊎ (str2 + length ds < str1 + length cs)
    → length cs + length ds < k
    → (m' : Memory) × (strcat k str1 str2 m ≡ some (str1 + length cs + length ds + 1, m'))
      × IsString m' str1 (cs ++ ds)
      × OnlyIn (str1 + length cs) (length ds + 1) m m'
unfolding strcat
strcat_lem k str1 str2 cs ds m is js apart enough =
    let (m', ran, there, same) =
      strcpy_lem k (str1 + length cs) str2 ds m js apart (omega (arith, enough)) in
    (
      m',
      rw (find_end_lem k str1 cs m is (omega (arith, enough))) ran,
      IsString-append m m' str1 cs ds is (λ a lo hi. same a (inl hi)) there,
      same,
    )

strncmp_loop_lem :
    (k : ℕ) (s1 s2 : Ptr) (n i d : ℕ) (m : Memory)
    → i + d ≤ n
    → ((j : ℕ) → j < d → m (s1 + (i + j)) ≡ m (s2 + (i + j)))
    → (i + d ≡ n) ⊎ (m (s1 + (i + d)) ≢ m (s2 + (i + d)))
    → d < k
    → strncmp_loop k s1 s2 n i m ≡ some (sub_ℕ (m (s1 + (i + d))) (m (s2 + (i + d))))
unfolding strncmp_loop
strncmp_loop_lem zero s1 s2 n i d m le same stop enough = ground (arith, enough)
strncmp_loop_lem (suc k) s1 s2 n i zero m le same stop enough =
    let e : i + 0 ≡ i = omega arith in rw e (ground (arith, rw e at stop))
strncmp_loop_lem (suc k) s1 s2 n i (suc d) m le same stop enough =
    let e : i + suc d ≡ i + 1 + d = omega arith in
    let z : i + 0 ≡ i = omega arith in
    let here : m (s1 + i) ≡ m (s2 + i) = rw z at (same 0 (omega arith)) in
    let rest =
      strncmp_loop_lem k s1 s2 n (i + 1) d m (omega (arith, le))
        (λ j lt.
          let f : i + 1 + j ≡ i + suc j = omega arith in rw f (same (suc j) (omega (arith, lt))))
        (rw e at stop) (omega (arith, enough)) in
    let more : ltb i n ≡ true = ground (arith, le) in rw e (ground (arith, here, more, rest))

-- `_strncmp` answers the difference of the characters at `d`, the first place below `n` where the two
-- strings differ, or `n` itself where they agree in their first `n` characters; a terminator on the
-- way does not stop it. The fuel is more than `d`.
pub strncmp-difference :
    (k : ℕ) (s1 s2 : Ptr) (n d : ℕ) (m : Memory)
    → d ≤ n
    → ((j : ℕ) → j < d → m (s1 + j) ≡ m (s2 + j))
    → (d ≡ n) ⊎ (m (s1 + d) ≢ m (s2 + d))
    → d < k
    → strncmp k s1 s2 n m ≡ some (sub_ℕ (m (s1 + d)) (m (s2 + d)))
unfolding strncmp
strncmp-difference k s1 s2 n d m le same stop enough =
    let z : (j : ℕ) → 0 + j ≡ j = λ j. omega arith in
    rw (z d) at (
      strncmp_loop_lem k s1 s2 n 0 d m (omega (arith, le)) (λ j lt. rw (z j) (same j lt))
        (rw (z d) stop) enough)
