-- ===== src/Text/Scan.antt =====
-- `_strtok` of include/timix/string-impl.h: its loops over a string.
use timix_next.Prelude.{
  ℕ, zero, suc, ◌+◌, ◌-◌, ◌<◌, ◌≢◌, ◌≡◌, refl, ◌∙◌, some, List, [], ◌∷◌, ◌++◌, Ptr, null, true,
  false, length, arith, update, update_self, update_ne, eqb_false, Bool-cases, inl, inr,
  if◌then◌else◌,
}
use timix_next.Queue.View.{has}
use timix_next.Text.Strings.{Memory, IsString}
use timix_next.Text.Token.{is_delim, find_tok, end_tok}

-- All, or none, of the characters are delimiters.
abbrev pub AllIn : List ℕ → List ℕ → Type 0
AllIn ds [] = Unit
AllIn ds (c ∷ cs) = (has c ds ≡ true) × AllIn ds cs

abbrev pub NoneIn : List ℕ → List ℕ → Type 0
NoneIn ds [] = Unit
NoneIn ds (c ∷ cs) = (has c ds ≡ false) × NoneIn ds cs

-- What stands behind some characters of a string.
pub IsString-drop :
    (m : Memory) (p : Ptr) (cs ds : List ℕ)
    → IsString m p (cs ++ ds)
    → IsString m (p + length cs) ds
IsString-drop m p [] ds is = let e : p + 0 ≡ p = omega arith in rw e is
IsString-drop m p (c ∷ cs) ds is =
    let e : p + suc (length cs) ≡ p + 1 + length cs = omega arith in
    rw e (IsString-drop m (p + 1) cs ds is.2)

-- A terminator in the place of a character ends the string there.
pub IsString-cut :
    (m : Memory) (p q : Ptr) (cs : List ℕ) (d : ℕ) (ds : List ℕ)
    → p + length cs ≡ q
    → IsString m p (cs ++ d ∷ ds)
    → IsString (update m q 0) p cs
IsString-cut m p q [] d ds end is = let e : p ≡ q = omega (arith, end) in rw e (update_self m q 0)
IsString-cut m p q (c ∷ cs) d ds end (at, ne, is) =
    let other : p ≢ q = omega (arith, end) in
    (update_ne m q 0 other ∙ at, ne, IsString-cut m (p + 1) q cs d ds (omega (arith, end)) is)

module _ (m : Memory) (delim : Ptr) (ds : List ℕ) (is_ds : IsString m delim ds) where
  is_delim_lem :
      (k : ℕ) (c : ℕ) (p : Ptr) (es : List ℕ)
      → IsString m p es
      → length es < k
      → is_delim k c p m ≡ some (has c es)
  unfolding is_delim
  is_delim_lem zero c p es is enough = ground (arith, enough)
  is_delim_lem (suc k) c p [] is enough = rw (is) refl
  is_delim_lem (suc k) c p (e ∷ es) (at, ne, is) enough =
      let rest = is_delim_lem k c (p + 1) es is (omega (arith, enough)) in
      ground (arith, at, ne, rest)

  pub find_tok_lem :
      (k : ℕ) (p : Ptr) (pre : List ℕ) (t : ℕ) (rest : List ℕ)
      → IsString m p (pre ++ t ∷ rest)
      → AllIn ds pre
      → has t ds ≡ false
      → length pre + length ds + 1 < k
      → find_tok k p delim m ≡ some (p + length pre + 1)
  unfolding find_tok
  find_tok_lem zero p pre t rest is skip stop enough = ground (arith, enough)
  find_tok_lem (suc k) p [] t rest (at, ne, is) skip stop enough =
      let e : p + 0 + 1 ≡ p + 1 = omega arith in
      rw (at, is_delim_lem k t delim ds is_ds (omega (arith, enough)), stop, e) refl
  find_tok_lem (suc k) p (c ∷ pre) t rest (at, ne, is) (hit, skip) stop enough =
      let e : p + suc (length pre) + 1 ≡ p + 1 + length pre + 1 = omega arith in
      rw (at, is_delim_lem k c delim ds is_ds (omega (arith, enough)), hit, e)
        (find_tok_lem k (p + 1) pre t rest is skip stop (omega (arith, enough)))

  -- Behind the character `c` of the token stand the characters `us` of the token.
  pub end_tok_delim :
      (k : ℕ) (p : Ptr) (c : ℕ) (us : List ℕ) (d : ℕ) (rest : List ℕ)
      → IsString m p (us ++ d ∷ rest)
      → has c ds ≡ false
      → NoneIn ds us
      → has d ds ≡ true
      → length us + length ds + 2 < k
      → end_tok k p c delim m ≡ some (p + length us + 1, update m (p + length us) 0)
  unfolding end_tok
  end_tok_delim zero p c us d rest is no_c no_us yes_d enough = ground (arith, enough)
  end_tok_delim (suc zero) p c us d rest is no_c no_us yes_d enough = ground (arith, enough)
  end_tok_delim (suc (suc k)) p c [] d rest (at, ne, is) no_c no_us yes_d enough =
      let here : p + 0 ≡ p = omega arith in
      let back : p + 1 - 1 ≡ p = omega arith in
      rw
        (
          is_delim_lem (suc k) c delim ds is_ds (omega (arith, enough)),
          no_c,
          at,
          eqb_false ne,
          is_delim_lem k d delim ds is_ds (omega (arith, enough)),
          yes_d,
          here,
          back,
        )
        refl
  end_tok_delim (suc (suc k)) p c (u ∷ us) d rest (at, ne, is) no_c (no_u, no_us) yes_d enough =
      let here : p + suc (length us) ≡ p + 1 + length us = omega arith in
      let later =
        end_tok_delim (suc k) (p + 1) u us d rest is no_u no_us yes_d (omega (arith, enough)) in
      rw
        (
          is_delim_lem (suc k) c delim ds is_ds (omega (arith, enough)),
          no_c,
          at,
          eqb_false ne,
          here,
        )
        later

  pub end_tok_last :
      (k : ℕ) (p : Ptr) (c : ℕ) (us : List ℕ)
      → IsString m p us
      → has c ds ≡ false
      → NoneIn ds us
      → length us + length ds + 1 < k
      → end_tok k p c delim m ≡ some (null, m)
  unfolding end_tok
  end_tok_last zero p c us is no_c no_us enough = ground (arith, enough)
  end_tok_last (suc k) p c [] is no_c no_us enough =
      rw (is_delim_lem k c delim ds is_ds (omega (arith, enough)), no_c, is) refl
  end_tok_last (suc k) p c (u ∷ us) (at, ne, is) no_c (no_u, no_us) enough =
      rw (is_delim_lem k c delim ds is_ds (omega (arith, enough)), no_c, at, eqb_false ne)
        (end_tok_last k (p + 1) u us is no_u no_us (omega (arith, enough)))

  -- What becomes of the bytes `cs` at `q`, and the new `tok`: the first delimiter is overwritten, and
  -- without one nothing is.
  abbrev pub cut : Ptr → List ℕ → Ptr × Memory
  cut q [] = (null, m)
  cut q (c ∷ cs) = if has c ds then (q + 1, update m q 0) else cut (q + 1) cs

  pub end_tok-cut :
      (k : ℕ) (q : Ptr) (c : ℕ) (cs : List ℕ)
      → IsString m q cs
      → has c ds ≡ false
      → length cs + length ds + 2 < k
      → end_tok k q c delim m ≡ some (cut q cs)
  unfolding end_tok
  end_tok-cut zero q c cs is no_c enough = ground (arith, enough)
  end_tok-cut (suc zero) q c cs is no_c enough = ground (arith, enough)
  end_tok-cut (suc (suc k)) q c [] is no_c enough =
      rw (is_delim_lem (suc k) c delim ds is_ds (omega (arith, enough)), no_c, is) refl
  end_tok-cut (suc (suc k)) q c (u ∷ us) (at, ne, is) no_c enough =
      let back : q + 1 - 1 ≡ q = omega arith in
      let at_u = is_delim_lem k u delim ds is_ds (omega (arith, enough)) in
      elim (Bool-cases (has u ds)) [
        | inl hit ↦
            rw
              (
                is_delim_lem (suc k) c delim ds is_ds (omega (arith, enough)),
                no_c,
                at,
                eqb_false ne,
                at_u,
                hit,
                back,
              )
              refl
        | inr miss ↦
            rw
              (
                is_delim_lem (suc k) c delim ds is_ds (omega (arith, enough)),
                no_c,
                at,
                eqb_false ne,
                miss,
              )
              (end_tok-cut (suc k) (q + 1) u us is miss (omega (arith, enough)))
      ]

  pub no_zero : (p : Ptr) (es : List ℕ) → IsString m p es → has 0 es ≡ false
  no_zero p [] is = refl
  no_zero p (e ∷ es) (at, ne, is) = ground (arith, ne, no_zero (p + 1) es is)

  pub find_tok_end :
      (k : ℕ) (p : Ptr) (pre : List ℕ)
      → IsString m p pre
      → AllIn ds pre
      → length pre + length ds + 1 < k
      → find_tok k p delim m ≡ some (p + length pre + 1)
  unfolding find_tok
  find_tok_end zero p pre is skip enough = ground (arith, enough)
  find_tok_end (suc k) p [] is skip enough =
      let e : p + 0 + 1 ≡ p + 1 = omega arith in
      rw (is, is_delim_lem k 0 delim ds is_ds (omega (arith, enough)), no_zero delim ds is_ds, e)
        refl
  find_tok_end (suc k) p (c ∷ pre) (at, ne, is) (hit, skip) enough =
      let e : p + suc (length pre) + 1 ≡ p + 1 + length pre + 1 = omega arith in
      rw (at, is_delim_lem k c delim ds is_ds (omega (arith, enough)), hit, e)
        (find_tok_end k (p + 1) pre is skip (omega (arith, enough)))
