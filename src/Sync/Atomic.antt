-- ===== src/Sync/Atomic.antt =====
-- include/timix/atomic.h and arch/{x86,arm,nios2}/kernel/atomic.S. An operation maps the word at
-- `mem` and its arguments to the answer and the word then; a pair of words is the low one and the
-- high one. The instructions are those of the manuals; the assembly is read line by line.
use timix_next.Prelude.{
  ℕ, suc, ◌+◌, ◌%◌, ◌^◌, ◌≡◌, refl, arith, Bool, true, false, not, ◌&&◌, List, [], ◌∷◌, Option,
  none, some, ◌==◌, if◌then◌else◌, inl, inr, Bool-cases,
}
use timix_next.Sync.Mutex.{xchg_success, atomic_swap_conditional}

abbrev pub xchg_failure : ℕ
xchg_failure = 1

-- x86, `lock xchgl %eax, (%ecx)`: the new register and the new word.
abbrev xchgl : (eax mem : ℕ) → ℕ × ℕ
xchgl eax mem = (mem, eax)

unfoldable pub x86_swap : (mem val : ℕ) → ℕ × ℕ
x86_swap mem val = xchgl val mem

-- `lock cmpxchgl %ecx, (%edx)`: the zero flag, %eax and the word.
abbrev cmpxchgl : (eax ecx mem : ℕ) → Bool × ℕ × ℕ
cmpxchgl eax ecx mem = if eax == mem then (true, eax, ecx) else (false, mem, mem)

unfoldable pub x86_swap_conditional : (mem newval oldval : ℕ) → ℕ × ℕ
x86_swap_conditional mem newval oldval =
    let (zf, eax, word) = cmpxchgl oldval newval mem in if not zf then (1, word) else (0, word)

-- The compare and swap that kernel/mutex.c is modelled over is that of x86.
pub x86_swap_conditional-atomic_swap_conditional :
    (mem newval oldval : ℕ)
    → x86_swap_conditional mem newval oldval ≡ atomic_swap_conditional mem newval oldval
unfolding x86_swap_conditional atomic_swap_conditional
x86_swap_conditional-atomic_swap_conditional mem newval oldval = ground arith

-- `lock cmpxchg8b (%edi)`: edx:eax with the two words, and ecx:ebx into them.
abbrev cmpxchg8b : (edx eax ecx ebx : ℕ) → ℕ × ℕ → Bool × (ℕ × ℕ)
cmpxchg8b edx eax ecx ebx (lo, hi) =
    if eax == lo && edx == hi then (true, (ebx, ecx)) else (false, (lo, hi))

unfoldable pub x86_swap8_conditional : ℕ × ℕ → (new_lo new_hi old_lo old_hi : ℕ) → ℕ × (ℕ × ℕ)
x86_swap8_conditional mem new_lo new_hi old_lo old_hi =
    let (zf, words) = cmpxchg8b old_hi old_lo new_hi new_lo mem in
    if not zf then (1, words) else (0, words)

-- `xaddl %eax, (%ecx)`, which is not locked: what it does while no other processor writes the word.
unfoldable pub x86_add : (mem val : ℕ) → ℕ × ℕ
x86_add mem val = (mem, (mem + val) % 2 ^ 32)

-- nios2, with interrupts off.
unfoldable pub nios2_swap : (mem val : ℕ) → ℕ × ℕ
nios2_swap mem val = (mem, val)

-- r2 keeps the word when it differs: the failure code goes to r4.
unfoldable pub nios2_swap_conditional : (mem newval oldval : ℕ) → ℕ × ℕ
nios2_swap_conditional mem newval oldval = if mem == oldval then (0, newval) else (mem, mem)

unfoldable pub nios2_add : (mem val : ℕ) → ℕ × ℕ
nios2_add mem val = let r2 = (mem + 1) % 2 ^ 32 in (r2, r2)

-- ARM. `z` is the zero flag on entry, and the list says of each `strex` whether it finds the word
-- still held; without an answer left the loop goes on. A comparison `cmpeq` runs only with `z` set.
abbrev cmpeq : Bool → ℕ → ℕ → Bool
cmpeq z a b = if z then a == b else z

-- `strex`: the status, 0 if it has stored, and the word.
abbrev strex : Bool → (val mem : ℕ) → ℕ × ℕ
strex held val mem = if held then (0, val) else (1, mem)

unfoldable pub arm_swap : (z : Bool) → List Bool → (mem val : ℕ) → Option (ℕ × ℕ)
arm_swap z [] mem val = none
arm_swap z (held ∷ rest) mem val =
    let (r3, word) = strex held val mem in
    let z1 = cmpeq z r3 0 in
    let again = arm_swap z1 rest word val in if not z1 then again else some (mem, word)

unfoldable pub arm_swap_conditional :
    (z : Bool) → List Bool → (mem newval oldval : ℕ) → Option (ℕ × ℕ)
arm_swap_conditional z [] mem newval oldval = none
arm_swap_conditional z (held ∷ rest) mem newval oldval =
    let z1 = cmpeq z oldval mem in
    let (r3, word) = strex held newval mem in
    let z2 = r3 == 0 in
    let again = arm_swap_conditional z2 rest word newval oldval in
    if z1 then some (1, mem) else if not z2 then again else some (0, word)

unfoldable pub arm_add : (z : Bool) → List Bool → (mem val : ℕ) → Option (ℕ × ℕ)
arm_add z [] mem val = none
arm_add z (held ∷ rest) mem val =
    let r2 = (mem + val) % 2 ^ 32 in
    let (r3, word) = strex held r2 mem in
    let z1 = cmpeq z r3 0 in
    let again = arm_add z1 rest word val in if not z1 then again else some (r2, word)

-- `above` is the word at [sp, #0x14], behind the argument `old_hi`; `strexd` stores r6 and r7.
unfoldable pub arm_swap8_conditional :
    List Bool → ℕ × ℕ → (new_lo new_hi old_lo old_hi above : ℕ) → Option (ℕ × (ℕ × ℕ))
arm_swap8_conditional [] mem new_lo new_hi old_lo old_hi above = none
arm_swap8_conditional (held ∷ rest) (r6, r7) new_lo new_hi old_lo old_hi above =
    let again = arm_swap8_conditional rest (r6, r7) new_lo new_hi old_lo old_hi above in
    if not (old_lo == r6 && above == r7)
    then some (1, (r6, r7))
    else if not held
    then again
    else some (0, (r6, r7))

-- On nios2 the conditional swap is right for the word of a mutex, whose old value is 0; for another
-- old value it answers 0, the code of success, where the word is 0 and nothing has been stored.
pub nios2_swap_conditional_zero :
    (mem newval oldval : ℕ)
    → (((nios2_swap_conditional mem newval 0).0 == 0) ≡ (mem == 0))
      × ((nios2_swap_conditional mem newval 0).1 ≡ (if mem == 0 then newval else mem))
      × (nios2_swap_conditional 0 newval (suc oldval) ≡ (xchg_success, 0))
unfolding nios2_swap_conditional
nios2_swap_conditional_zero mem newval oldval = (ground arith, ground arith, ground arith)

-- On ARM the conditional swap is turned around: where its first store finds the word still held, it
-- answers 1 and stores nothing if the zero flag is set on entry and the word is the old value, and
-- in all other cases answers 0 and stores the new value.
pub arm_swap_conditional_inverted :
    (z : Bool) (rest : List Bool) (mem newval oldval : ℕ)
    → arm_swap_conditional z (true ∷ rest) mem newval oldval
      ≡ (if z && mem == oldval then some (xchg_failure, mem) else some (xchg_success, newval))
unfolding arm_swap_conditional
arm_swap_conditional_inverted z rest mem newval oldval = ground arith

arm_swap_clear : (helds : List Bool) (mem val : ℕ) → arm_swap false helds mem val ≡ none
unfolding arm_swap
arm_swap_clear [] mem val = refl
arm_swap_clear (true ∷ rest) mem val = arm_swap_clear rest val val
arm_swap_clear (false ∷ rest) mem val = arm_swap_clear rest mem val

arm_add_clear : (helds : List Bool) (mem val : ℕ) → arm_add false helds mem val ≡ none
unfolding arm_add
arm_add_clear [] mem val = refl
arm_add_clear (true ∷ rest) mem val = arm_add_clear rest ((mem + val) % 2 ^ 32) val
arm_add_clear (false ∷ rest) mem val = arm_add_clear rest mem val

-- The ARM swap and addition end only where the zero flag is set on entry and the first store finds
-- the word still held; then the swap answers the old word, and the addition the new one. In all
-- other cases they go round for ever, whatever becomes of the later stores.
pub arm_swap_rounds :
    (z held : Bool) (rest : List Bool) (mem val : ℕ)
    → let sum = (mem + val) % 2 ^ 32 in
      (arm_swap z (held ∷ rest) mem val ≡ (if z && held then some (mem, val) else none))
      × (arm_add z (held ∷ rest) mem val ≡ (if z && held then some (sum, sum) else none))
unfolding arm_swap arm_add
arm_swap_rounds true true rest mem val = (refl, refl)
arm_swap_rounds true false rest mem val = (arm_swap_clear rest mem val, arm_add_clear rest mem val)
arm_swap_rounds false true rest mem val =
    (arm_swap_clear rest val val, arm_add_clear rest ((mem + val) % 2 ^ 32) val)
arm_swap_rounds false false rest mem val = (arm_swap_clear rest mem val, arm_add_clear rest mem val)

-- The ARM conditional swap of two words stores nothing, whatever its arguments, and where it answers
-- 0 it has compared the high word with the word behind its last argument.
pub arm_swap8_conditional_keeps :
    (helds : List Bool) (lo hi new_lo new_hi old_lo old_hi above r : ℕ) (words : ℕ × ℕ)
    → arm_swap8_conditional helds (lo, hi) new_lo new_hi old_lo old_hi above ≡ some (r, words)
    → (words ≡ (lo, hi)) × (r ≡ 0 → (lo ≡ old_lo) × (hi ≡ above))
unfolding arm_swap8_conditional
arm_swap8_conditional_keeps [] lo hi new_lo new_hi old_lo old_hi above r words e = cc
arm_swap8_conditional_keeps (true ∷ rest) lo hi new_lo new_hi old_lo old_hi above r words e =
    ground (arith, e)
arm_swap8_conditional_keeps (false ∷ rest) lo hi new_lo new_hi old_lo old_hi above r words e =
    let later = arm_swap8_conditional_keeps rest lo hi new_lo new_hi old_lo old_hi above r words in
    elim (Bool-cases (old_lo == lo && above == hi)) [
      | inl same ↦ later (rw same at e)
      | inr other ↦ let f = rw other at e in ground (arith, f)
    ]
