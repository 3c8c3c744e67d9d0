-- ===== src/Text/Tests.antt =====
-- A memory with the strings "ab" at 10 and "ad" at 20, for the theorems on string-impl.h.
use timix_next.Prelude.{
  ℕ, ◌+◌, ◌≤◌, ◌<◌, ◌≡◌, ◌↔◌, inl, inr, refl, List, [], ◌∷◌, ◌++◌, some, arith, Ptr, update, ◌==◌,
  if◌then◌else◌,
}
use timix_next.Prelude.Int.{pos, negsuc}
use timix_next.Text.Strings.{Memory, IsString, strcat, strncmp, strcmp, strcpy, memset}
use timix_next.Text.Read.{strcmp-difference}
use timix_next.Text.Join.{strcat_lem, strncmp-difference}
use timix_next.Text.Token.{strtok}
use timix_next.Text.Split.{strtok-token, strtok_past_end}
use timix_next.Text.Write.{OnlyIn, strcpy_lem, memset_lem}

abbrev memory : Memory
memory = λ a.
    if (a == 10)
    then 97
    else if (a == 11)
    then 98
    else if (a == 20)
    then 97
    else if (a == 21)
    then 100
    else 0

abbrev ab : List ℕ
ab = 97 ∷ 98 ∷ []

abbrev ad : List ℕ
ad = 97 ∷ 100 ∷ []

ab-IsString : IsString memory 10 ab
ab-IsString = (refl, omega arith, (refl, omega arith, refl))

ad-IsString : IsString memory 20 ad
ad-IsString = (refl, omega arith, (refl, omega arith, refl))

strcmp-difference_example :
    (strcmp 3 10 20 memory ≡ some (negsuc 1)) × ((negsuc 1 ≡ pos 0) ↔ (ab ≡ ad))
strcmp-difference_example =
    strcmp-difference memory 3 10 20 ab ad ab-IsString ad-IsString (omega arith)

strcpy_lem_example :
    (m : Memory) × (strcpy 3 30 10 memory ≡ some (33, m)) × IsString m 30 ab × OnlyIn 30 3 memory m
strcpy_lem_example = strcpy_lem 3 30 10 ab memory ab-IsString (inr (omega arith)) (omega arith)

memset_lem_example :
    let (p, m) = memset 10 353 5 memory in
    (p ≡ 10) × ((a : Ptr) → 10 ≤ a → a < 15 → m a ≡ 97) × OnlyIn 10 5 memory m
memset_lem_example = memset_lem 10 353 5 memory

strcat_lem_example :
    (m : Memory) × (strcat 5 20 10 memory ≡ some (25, m))
    × IsString m 20 (ad ++ ab)
    × OnlyIn 22 3 memory m
strcat_lem_example =
    strcat_lem 5 20 10 ad ab memory ad-IsString ab-IsString (inr (omega arith)) (omega arith)

agree : (j : ℕ) → j < 1 → memory (10 + j) ≡ memory (20 + j)
agree j h = ground (arith, h)

-- "ab" and "ad" agree in one character, and the answer is the difference of the next.
strncmp-difference_example : strncmp 3 10 20 1 memory ≡ some (negsuc 1)
strncmp-difference_example =
    strncmp-difference 3 10 20 1 1 memory (omega arith) agree (inl refl) (omega arith)

-- The strings " ab c" at 40 and " " at 60, with a blank behind the end of the second.
abbrev words : Memory
words = λ a.
    if (a == 40)
    then 32
    else if (a == 41)
    then 97
    else if (a == 42)
    then 98
    else if (a == 43)
    then 32
    else if (a == 44)
    then 99
    else if (a == 50)
    then 32
    else if (a == 60)
    then 32
    else if (a == 62)
    then 32
    else 0

blank-IsString : IsString words 50 (32 ∷ [])
blank-IsString = (refl, omega arith, refl)

words-IsString : IsString words 40 (32 ∷ 97 ∷ 98 ∷ 32 ∷ 99 ∷ [])
words-IsString = (
  refl,
  omega arith,
  (refl, omega arith, (refl, omega arith, (refl, omega arith, (refl, omega arith, refl)))),
)

strtok-token_example :
    (strtok 9 0 40 50 words ≡ some (41, 44, update words 43 0))
    × IsString (update words 43 0) 41 (97 ∷ 98 ∷ [])
    × IsString (update words 43 0) 44 (99 ∷ [])
strtok-token_example =
    strtok-token words 50 (32 ∷ []) blank-IsString 40 (32 ∷ []) 97 (98 ∷ []) 9 0 40 32 (99 ∷ [])
      refl (omega arith) words-IsString (refl, tt) (refl, (refl, tt)) refl (omega arith)

strtok_past_end_example : strtok 9 0 60 50 words ≡ some (61, 63, update words 62 0)
strtok_past_end_example =
    strtok_past_end words 50 (32 ∷ []) blank-IsString 60 (32 ∷ []) (32 ∷ []) 9 0 60 refl
      (omega arith) (refl, omega arith, refl) (refl, tt) (refl, omega arith, refl) (omega arith)
