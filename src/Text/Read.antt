-- ===== src/Text/Read.antt =====
-- The functions of include/timix/string-impl.h that only read, on strings that end.
use timix_next.Prelude.{
  ℕ, zero, suc, ◌+◌, ◌<◌, ◌≡◌, ◌↔◌, refl, some, List, [], ◌∷◌, Ptr, null, Bool-cases, inl, inr,
  length, arith, ◌==◌, if◌then◌else◌,
}
use timix_next.Prelude.Int.{ℤ, pos, sub_ℕ}
use timix_next.Text.Strings.{Memory, IsString, strlen_loop, strlen, strcmp_loop, strcmp, strchr}

module _ (m : Memory) where
  shift : (s i : ℕ) (cs : List ℕ) → IsString m (s + i + 1) cs → IsString m (s + (i + 1)) cs
  shift s i cs is = let e : s + (i + 1) ≡ s + i + 1 = omega arith in rw e is

  start : (s : ℕ) (cs : List ℕ) → IsString m s cs → IsString m (s + 0) cs
  start s cs is = let e : s + 0 ≡ s = omega arith in rw e is

  strlen_loop_lem :
      (k : ℕ) (s len : ℕ) (cs : List ℕ)
      → IsString m (s + len) cs
      → length cs < k
      → strlen_loop k s len m ≡ some (len + length cs)
  unfolding strlen_loop
  strlen_loop_lem zero s len cs is enough = ground (arith, enough)
  strlen_loop_lem (suc k) s len [] is enough = ground (arith, is)
  strlen_loop_lem (suc k) s len (c ∷ cs) (at, ne, is) enough =
      let rest = strlen_loop_lem k s (len + 1) cs (shift s len cs is) (omega (arith, enough)) in
      ground (arith, at, ne, rest)

  -- `_strlen` is the number of characters in front of the terminator; more fuel than that is
  -- enough.
  pub strlen_lem :
      (k : ℕ) (s : Ptr) (cs : List ℕ)
      → IsString m s cs
      → length cs < k
      → strlen k s m ≡ some (length cs)
  unfolding strlen
  strlen_lem k s cs is enough =
      let zero_add : 0 + length cs ≡ length cs = omega arith in
      rw (← zero_add) (strlen_loop_lem k s 0 cs (start s cs is) enough)

  -- Where `c` stands first in `cs`, a string at `s`; `null` when it does not occur.
  abbrev pub find_char : ℕ → Ptr → List ℕ → Ptr
  find_char c s [] = null
  find_char c s (x ∷ xs) = if x == c then s else find_char c (s + 1) xs

  -- `_strchr` finds the first place of a character, does not find the terminator, and answers
  -- `null` for a character that does not occur; more fuel than characters is enough.
  pub strchr_lem :
      (k : ℕ) (s c : ℕ) (cs : List ℕ)
      → IsString m s cs
      → length cs < k
      → strchr k s c m ≡ some (find_char c s cs)
  unfolding strchr
  strchr_lem zero s c cs is enough = ground (arith, enough)
  strchr_lem (suc k) s c [] is enough = ground (arith, is)
  strchr_lem (suc k) s c (x ∷ cs) (at, ne, is) enough =
      let rest = strchr_lem k (s + 1) c cs is (omega (arith, enough)) in
      ground (arith, at, ne, rest)

  -- The difference at the first place where two strings differ, the terminators included.
  abbrev pub difference : List ℕ → List ℕ → ℤ
  difference [] [] = pos 0
  difference [] (d ∷ ds) = sub_ℕ 0 d
  difference (c ∷ cs) [] = sub_ℕ c 0
  difference (c ∷ cs) (d ∷ ds) = if c == d then difference cs ds else sub_ℕ c d

  strcmp_loop_lem :
      (k : ℕ) (s1 s2 i : ℕ) (cs ds : List ℕ)
      → IsString m (s1 + i) cs
      → IsString m (s2 + i) ds
      → length cs < k
      → strcmp_loop k s1 s2 i m ≡ some (difference cs ds)
  unfolding strcmp_loop
  strcmp_loop_lem zero s1 s2 i cs ds is js enough = ground (arith, enough)
  strcmp_loop_lem (suc k) s1 s2 i [] [] is js enough = rw (is, js) refl
  strcmp_loop_lem (suc k) s1 s2 i [] (d ∷ ds) is (at, ne, js) enough =
      rw (is, at) (ground (arith, ne))
  strcmp_loop_lem (suc k) s1 s2 i (c ∷ cs) [] (at, ne, is) js enough =
      rw (at, js) (ground (arith, ne))
  strcmp_loop_lem (suc k) s1 s2 i (c ∷ cs) (d ∷ ds) (at, ne, is) (at2, ne2, js) enough =
      let rest =
        strcmp_loop_lem k s1 s2 (i + 1) cs ds (shift s1 i cs is) (shift s2 i ds js)
          (omega (arith, enough)) in
      rw (at, at2) (ground (arith, ne, ne2, rest))

  sub_zero : (a b : ℕ) → sub_ℕ a b ≡ pos 0 → a ≡ b
  sub_zero a b e = ground (arith, e)

  difference_zero :
      (s1 s2 : Ptr) (cs ds : List ℕ)
      → IsString m s1 cs
      → IsString m s2 ds
      → difference cs ds ≡ pos 0
      → cs ≡ ds
  difference_zero s1 s2 [] [] is js e = refl
  difference_zero s1 s2 [] (d ∷ ds) is (at, ne, js) e = ground (arith, ne, sub_zero 0 d e)
  difference_zero s1 s2 (c ∷ cs) [] (at, ne, is) js e = ground (arith, ne, sub_zero c 0 e)
  difference_zero s1 s2 (c ∷ cs) (d ∷ ds) (at, ne, is) (at2, ne2, js) e =
      elim (Bool-cases (c == d)) [
        | inl same ↦
            (let c_d : c ≡ d = ground (arith, same) in
              let rest = difference_zero (s1 + 1) (s2 + 1) cs ds is js (ground (arith, same, e)) in
              rw (c_d, rest) refl)
        | inr other ↦ ground (arith, other, sub_zero c d (ground (arith, other, e)))
      ]

  difference_same : (cs : List ℕ) → difference cs cs ≡ pos 0
  difference_same [] = refl
  difference_same (c ∷ cs) = ground (arith, difference_same cs)

  -- `_strcmp` returns the difference of the characters where two strings differ first, and returns
  -- 0 for equal strings only; more fuel than the first string has characters is enough.
  pub strcmp-difference :
      (k : ℕ) (s1 s2 : Ptr) (cs ds : List ℕ)
      → IsString m s1 cs
      → IsString m s2 ds
      → length cs < k
      → (strcmp k s1 s2 m ≡ some (difference cs ds)) × ((difference cs ds ≡ pos 0) ↔ (cs ≡ ds))
  unfolding strcmp
  strcmp-difference k s1 s2 cs ds is js enough = (
    strcmp_loop_lem k s1 s2 0 cs ds (start s1 cs is) (start s2 ds js) enough,
    (difference_zero s1 s2 cs ds is js, λ e. rw (← e) (difference_same cs)),
  )
