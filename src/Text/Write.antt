-- ===== src/Text/Write.antt =====
-- The functions of include/timix/string-impl.h that write.
use timix_next.Prelude.{
  ltb, ℕ, zero, suc, ◌+◌, ◌%◌, ◌<◌, ◌≤◌, ◌≢◌, ◌≡◌, ◌⊎◌, inl, inr, refl, ◌∙◌, some, List, [], ◌∷◌,
  Ptr, Bool-cases, true, false, length, arith, ◌==◌, update, update_self, update_ne,
}
use timix_next.Text.Strings.{Memory, IsString, strcpy, strncpy_loop, strncpy, fill, memset}

-- `a` is not one of the `n` addresses from `p` on.
abbrev pub Outside : Ptr → ℕ → Ptr → Type 0
Outside p n a = (a < p) ⊎ (p + n ≤ a)

-- `m` and `m'` agree but for the `n` addresses from `p` on.
abbrev pub OnlyIn : Ptr → ℕ → Memory → Memory → Type 0
OnlyIn p n m m' = (a : Ptr) → Outside p n a → m' a ≡ m a

OnlyIn-step :
    (m m' : Memory) (p v n j : ℕ) → n + 1 ≡ j → OnlyIn (p + 1) n (update m p v) m' → OnlyIn p j m m'
OnlyIn-step m m' p v n j e same a out =
    let ne : a ≢ p = omega (arith, out, e) in same a (omega (arith, out, e)) ∙ update_ne m p v ne

pub IsString-update :
    (m : Memory) (p : Ptr) (cs : List ℕ) (q v : ℕ)
    → Outside p (length cs + 1) q
    → IsString m p cs
    → IsString (update m q v) p cs
IsString-update m p [] q v out is =
    let ne : p ≢ q = omega (arith, out) in rw (update_ne m q v ne) is
IsString-update m p (c ∷ cs) q v out (at, ne, is) =
    let apart : p ≢ q = omega (arith, out) in
    (rw (update_ne m q v apart) at, ne, IsString-update m (p + 1) cs q v (omega (arith, out)) is)

pub string_end : (m : Memory) (p : Ptr) (cs : List ℕ) → IsString m p cs → m (p + length cs) ≡ 0
string_end m p [] is = let e : p + 0 ≡ p = omega arith in rw e is
string_end m p (c ∷ cs) (at, ne, is) =
    let e : p + suc (length cs) ≡ p + 1 + length cs = omega arith in
    rw e (string_end m (p + 1) cs is)

-- `_strcpy` to a place that does not overlap the string writes the string and its terminator there
-- and nothing else, and returns the address behind the terminator; more fuel than characters is
-- enough.
pub strcpy_lem :
    (k : ℕ) (dest src : Ptr) (cs : List ℕ) (m : Memory)
    → IsString m src cs
    → (dest + length cs < src) ⊎ (src + length cs < dest)
    → length cs < k
    → (m' : Memory) × (strcpy k dest src m ≡ some (dest + length cs + 1, m'))
      × IsString m' dest cs
      × OnlyIn dest (length cs + 1) m m'
unfolding strcpy
strcpy_lem zero dest src cs m is apart enough = ground (arith, enough)
strcpy_lem (suc k) dest src [] m is apart enough =
    let nil : dest + 0 ≡ dest = omega arith in
    (
      update m dest (m src),
      rw (is, nil) refl,
      update_self m dest (m src) ∙ is,
      OnlyIn-step m _ dest (m src) 0 _ (omega arith) (λ a out. refl),
    )
strcpy_lem (suc k) dest src (c ∷ cs) m (at, ne, is) apart enough =
    let m1 = update m dest (m src) in
    let (m', ran, there, same) =
      strcpy_lem k (dest + 1) (src + 1) cs m1
        (IsString-update m (src + 1) cs dest (m src) (omega (arith, apart)) is)
        (omega (arith, apart)) (omega (arith, enough)) in
    let end : dest + suc (length cs) ≡ dest + 1 + length cs = omega arith in
    (
      m',
      rw (end) (ground (arith, at, ne, ran)),
      (same dest (inl (omega arith)) ∙ update_self m dest (m src) ∙ at, ne, there),
      OnlyIn-step m m' dest (m src) (length cs + 1) _ (omega arith) same,
    )

-- `_memset` stores the low byte of `c` at each of the `len` addresses from `to` on, and nowhere
-- else, and returns `to`.
pub memset_lem :
    (to c len : ℕ) (m : Memory)
    → let (p, m') = memset to c len m in
      (p ≡ to) × ((a : Ptr) → to ≤ a → a < to + len → m' a ≡ c % 256) × OnlyIn to len m m'
unfolding memset fill
memset_lem to c zero m = (refl, (λ a lo hi. ground (arith, lo, hi)), λ a out. refl)
memset_lem to c (suc len) m =
    let (_, set, same) = memset_lem (to + 1) c len (update m to (c % 256)) in
    let v = c % 256 in
    (
      refl,
      (λ a lo hi. elim (Bool-cases (a == to)) [
        | inl here ↦
            let e : a ≡ to = ground (arith, here) in
            rw e (same to (inl (omega arith)) ∙ update_self m to v)
        | inr there ↦ set a (ground (arith, there, lo)) (omega (arith, hi))
      ]),
      OnlyIn-step m _ to v len _ (omega arith) same,
    )

copied_here :
    (dest src : ℕ) (m m' : Memory) (j : ℕ) → j ≤ 0 → m' dest ≡ m src → m' (dest + j) ≡ m (src + j)
copied_here dest src m m' j hi e =
    let a : dest + j ≡ dest = omega (arith, hi) in
    let b : src + j ≡ src = omega (arith, hi) in rw (a, b) e

copied_all :
    (dest src d : ℕ) (m m' : Memory)
    → m' dest ≡ m src
    → ((j : ℕ) → j ≤ d → m' (dest + 1 + j) ≡ m (src + suc j))
    → (j : ℕ) → j ≤ suc d
    → m' (dest + j) ≡ m (src + j)
copied_all dest src d m m' first rest zero hi = copied_here dest src m m' 0 (omega arith) first
copied_all dest src d m m' first rest (suc j) hi =
    let e : dest + suc j ≡ dest + 1 + j = omega arith in rw e (rest j (omega (arith, hi)))

strncpy_loop_lem :
    (k dest src n i d : ℕ) (m : Memory)
    → i + d ≡ n
    → ((j : ℕ) → j ≤ d → m (src + j) ≢ 0)
    → (dest + d < src) ⊎ (src + d < dest)
    → d < k
    → (m' : Memory) × (strncpy_loop k dest src n i m ≡ some (dest + d + 1, m'))
      × ((j : ℕ) → j ≤ d → m' (dest + j) ≡ m (src + j))
      × OnlyIn dest (d + 1) m m'
unfolding strncpy_loop
strncpy_loop_lem zero dest src n i d m sum long apart enough = ground (arith, enough)
strncpy_loop_lem (suc k) dest src n i zero m sum long apart enough =
    let src_zero : src + 0 ≡ src = omega arith in
    let dest_zero : dest + 0 ≡ dest = omega arith in
    let past : ltb i n ≡ false = ground (arith, sum) in
    (
      update m dest (m src),
      rw dest_zero (ground (arith, past)),
      (λ j hi. copied_here dest src m (update m dest (m src)) j hi (update_self m dest (m src))),
      OnlyIn-step m _ dest (m src) 0 _ (omega arith) (λ a out. refl),
    )
strncpy_loop_lem (suc k) dest src n i (suc d) m sum long apart enough =
    let src_zero : src + 0 ≡ src = omega arith in
    let ne : m src ≢ 0 = rw src_zero at (long 0 (omega arith)) in
    let m1 = update m dest (m src) in
    let kept : (j : ℕ) → j ≤ d → m1 (src + 1 + j) ≡ m (src + suc j) = λ j hi.
      let e : src + suc j ≡ src + 1 + j = omega arith in
      let other : src + 1 + j ≢ dest = omega (arith, apart, hi) in
      rw e (update_ne m dest (m src) other) in
    let (m', ran, copied, same) =
      strncpy_loop_lem k (dest + 1) (src + 1) n (i + 1) d m1 (omega (arith, sum))
        (λ j hi. rw (kept j hi) (long (suc j) (omega (arith, hi)))) (omega (arith, apart))
        (omega (arith, enough)) in
    let more : ltb i n ≡ true = ground (arith, sum) in
    let end : dest + suc d + 1 ≡ dest + 1 + d + 1 = omega arith in
    (
      m',
      ground (arith, ne, more, ran, end),
      copied_all dest src d m m' (same dest (inl (omega arith)) ∙ update_self m dest (m src))
          (λ j hi. copied j hi ∙ kept j hi),
      OnlyIn-step m m' dest (m src) (d + 1) _ (omega arith) same,
    )

-- `_strncpy` of a string with more than `n` characters, to a place that does not overlap it, copies
-- `n + 1` characters and no terminator, and nothing else, and returns the address behind them.
pub strncpy_overrun :
    (k : ℕ) (dest src : Ptr) (n : ℕ) (m : Memory)
    → ((j : ℕ) → j ≤ n → m (src + j) ≢ 0)
    → (dest + n < src) ⊎ (src + n < dest)
    → n < k
    → (m' : Memory) × (strncpy k dest src n m ≡ some (dest + n + 1, m'))
      × ((j : ℕ) → j ≤ n → m' (dest + j) ≡ m (src + j))
      × OnlyIn dest (n + 1) m m'
unfolding strncpy
strncpy_overrun k dest src n m long apart enough =
    strncpy_loop_lem k dest src n 0 n m (omega arith) long apart enough
