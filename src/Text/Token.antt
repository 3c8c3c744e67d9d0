-- ===== src/Text/Token.antt =====
-- `_strtok` of include/timix/string-impl.h. Its static `tok` is part of the state.
use timix_next.Prelude.{
  ℕ, zero, suc, ◌+◌, ◌-◌, Option, none, some, Bool, true, false, Ptr, null, update, ◌==◌,
  if◌then◌else◌, ◌>>=◌,
}
use timix_next.Text.Strings.{Memory}

-- Whether the character is one of the string `delim`: the loops over `delimp`.
unfoldable pub is_delim : ℕ → (c : ℕ) → (delim : Ptr) → Memory → Option Bool
is_delim zero c delim m = none
is_delim (suc k) c delim m =
    let rest = is_delim k c (delim + 1) m in
    if m delim == 0 then some false else if c == m delim then some true else rest

-- From `find_tok` on: `tok` just behind the first character that is no delimiter.
unfoldable pub find_tok : ℕ → (tok delim : Ptr) → Memory → Option Ptr
unfolding is_delim
find_tok zero tok delim m = none
find_tok (suc k) tok delim m =
    let rest = find_tok k (tok + 1) delim m in
    is_delim k (m tok) delim m >>= λ skip. if skip then rest else some (tok + 1)

-- The `do` loop, with `c` the character in front of `tok`: the new `tok` and the memory.
unfoldable pub end_tok : ℕ → (tok : Ptr) → (c : ℕ) → (delim : Ptr) → Memory → Option (Ptr × Memory)
unfolding is_delim
end_tok zero tok c delim m = none
end_tok (suc k) tok c delim m =
    let rest = end_tok k (tok + 1) (m tok) delim m in
    is_delim k c delim m >>= λ stop.
    if stop then some (tok, update m (tok - 1) 0) else if m tok == 0 then some (null, m) else rest

-- The token, the static `tok` and the memory; `null` stands for `NULL`.
unfoldable pub strtok : ℕ → (tok : Ptr) → (str delim : Ptr) → Memory → Option (Ptr × Ptr × Memory)
unfolding find_tok end_tok
strtok k tok str delim m =
    let start = if str == null then tok else str in
    let run = find_tok k start delim m >>= λ after.
    end_tok k after (m (after - 1)) delim m >>= λ (tok', m'). some (after - 1, tok', m') in
    if start == null then some (null, start, m) else run
