-- ===== src/Text/Split.antt =====
-- `_strtok` of include/timix/string-impl.h: where a token starts and ends.
use timix_next.Prelude.{
  ℕ, ◌+◌, ◌-◌, ◌<◌, ◌≢◌, ◌≡◌, inl, refl, some, List, ◌∷◌, ◌++◌, Ptr, null, true, length, arith,
  ◌==◌, update, eqb_false, if◌then◌else◌,
}
use timix_next.Queue.View.{has}
use timix_next.Text.Strings.{Memory, IsString}
use timix_next.Text.Write.{IsString-update, string_end}
use timix_next.Text.Token.{strtok}
use timix_next.Text.Scan.{
  AllIn, NoneIn, IsString-drop, IsString-cut, find_tok_lem, end_tok_delim, end_tok_last,
  find_tok_end, end_tok-cut, cut, no_zero,
}

module _ (m : Memory) (delim : Ptr) (ds : List ℕ) (is_ds : IsString m delim ds) where
  module _ (start : Ptr) (pre : List ℕ) (t : ℕ) (us : List ℕ) where
    abbrev pub token : Ptr
    token = start + length pre

    -- A string of delimiters `pre`, a token `t ∷ us` without delimiters, a delimiter `d` and the rest:
    -- `_strtok` from its start answers where the token starts, which is a string of its own then,
    -- ended by a terminator in the place of `d`; the next call starts behind it, at the rest, which
    -- is kept. The string is the argument, or with `NULL` the one that the last call has left. The
    -- fuel is more than the characters up to `d` and those of the delimiters.
    pub strtok-token :
        (k : ℕ) (tok str : Ptr) (d : ℕ) (rest : List ℕ)
        → (if str == null then tok else str) ≡ start
        → start ≢ null
        → IsString m start (pre ++ t ∷ (us ++ d ∷ rest))
        → AllIn ds pre
        → NoneIn ds (t ∷ us)
        → has d ds ≡ true
        → length pre + length us + length ds + 2 < k
        → let m' = update m (token + length us + 1) 0 in
          (strtok k tok str delim m ≡ some (token, token + length us + 2, m'))
          × IsString m' token (t ∷ us)
          × IsString m' (token + length us + 2) rest
    unfolding strtok
    strtok-token k tok str d rest from ne is skip (no_t, no_us) yes_d enough =
        let here = IsString-drop m start pre (t ∷ (us ++ d ∷ rest)) is in
        let back : start + length pre + 1 - 1 ≡ start + length pre = omega arith in
        let found =
          find_tok_lem m delim ds is_ds k start pre t (us ++ d ∷ rest) is skip no_t
            (omega (arith, enough)) in
        let ended =
          end_tok_delim m delim ds is_ds k (token + 1) t us d rest here.2 no_t no_us yes_d
            (omega (arith, enough)) in
        let next : token + 1 + length us + 1 ≡ token + length us + 2 = omega arith in
        let stop : token + 1 + length us ≡ token + length us + 1 = omega arith in
        let cut = IsString-cut m token (token + length us + 1) (t ∷ us) d rest (omega arith) here in
        let behind = IsString-drop m token (t ∷ us) (d ∷ rest) here in
        let at_rest : token + length (t ∷ us) + 1 ≡ token + length us + 2 = omega arith in
        let kept =
          IsString-update m (token + length us + 2) rest (token + length us + 1) 0
            (inl (omega arith)) (rw at_rest at (behind.2)) in
        (rw (from, eqb_false ne, found, back, here.0, ended, next, stop) refl, cut, kept)

    -- The last token, behind which the string ends: `_strtok` answers where it starts, changes no byte
    -- and leaves `NULL` for the next call, which answers `NULL`.
    pub strtok_last :
        (k : ℕ) (tok str : Ptr)
        → (if str == null then tok else str) ≡ start
        → start ≢ null
        → IsString m start (pre ++ (t ∷ us))
        → AllIn ds pre
        → NoneIn ds (t ∷ us)
        → length pre + length us + length ds + 1 < k
        → (strtok k tok str delim m ≡ some (token, null, m))
          × (strtok k null null delim m ≡ some (null, null, m))
    unfolding strtok
    strtok_last k tok str from ne is skip (no_t, no_us) enough =
        let here = IsString-drop m start pre (t ∷ us) is in
        let back : start + length pre + 1 - 1 ≡ start + length pre = omega arith in
        let found =
          find_tok_lem m delim ds is_ds k start pre t us is skip no_t (omega (arith, enough)) in
        let ended =
          end_tok_last m delim ds is_ds k (token + 1) t us here.2 no_t no_us
            (omega (arith, enough)) in
        (rw (from, eqb_false ne, found, back, here.0, ended) refl, refl)

  -- A string of nothing but delimiters, or the empty one, has no token, and `_strtok` goes past its
  -- end: it answers the address of the terminator and goes on in the bytes `cs` that stand behind it
  -- up to the next 0. The first delimiter among them is overwritten, and the next call starts behind
  -- it; without one no byte changes and `NULL` is left for the next call. The fuel is more than the
  -- characters and the delimiters together.
  pub strtok_past_end :
      (start : Ptr) (pre cs : List ℕ) (k : ℕ) (tok str : Ptr)
      → (if str == null then tok else str) ≡ start
      → start ≢ null
      → IsString m start pre
      → AllIn ds pre
      → IsString m (start + length pre + 1) cs
      → length pre + length cs + length ds + 2 < k
      → strtok k tok str delim m ≡ (
          let (next, left) = cut m delim ds is_ds (start + length pre + 1) cs in
          some (start + length pre, next, left))
  unfolding strtok
  strtok_past_end start pre cs k tok str from ne is skip behind enough =
      let found = find_tok_end m delim ds is_ds k start pre is skip (omega (arith, enough)) in
      let back : start + length pre + 1 - 1 ≡ start + length pre = omega arith in
      let ended =
        end_tok-cut m delim ds is_ds k (start + length pre + 1) 0 cs behind
          (no_zero m delim ds is_ds delim ds is_ds) (omega (arith, enough)) in
      rw (from, eqb_false ne, found, back, string_end m start pre is, ended) refl
