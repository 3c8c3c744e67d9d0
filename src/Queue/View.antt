-- ===== src/Queue/View.antt =====
-- What a queue of variable_queue.h stands for: the list of its elements, front first.
use mathlib.Core.Bool.{or_assoc}
use timix_next.Prelude.{
  ◌≡◌, refl, sym, ◌∙◌, ◌≢◌, Bool, true, false, ◌||◌, Bool-cases, inl, inr, List, [], ◌∷◌, ◌++◌,
  arith, ◌==◌, Ptr, null,
}
use timix_next.Queue.Memory.{Head, Links}

abbrev pub has : Ptr → List Ptr → Bool
has a [] = false
has a (x ∷ xs) = (a == x) || has a xs

infix 40 ◌∈◌ ◌∉◌
abbrev pub ◌∈◌ : Ptr → List Ptr → Type 0
a ∈ xs = has a xs ≡ true

abbrev pub ◌∉◌ : Ptr → List Ptr → Type 0
a ∉ xs = has a xs ≡ false

-- No element stands in the list twice.
abbrev pub Distinct : List Ptr → Type 0
Distinct [] = Unit
Distinct (x ∷ xs) = (x ∉ xs) × Distinct xs

-- The first element, or what follows the list; the last one, or what precedes it.
abbrev pub first : List Ptr → Ptr → Ptr
first [] e = e
first (x ∷ xs) e = x

abbrev pub last : Ptr → List Ptr → Ptr
last b [] = b
last b (x ∷ xs) = last x xs

-- `xs` is linked in both directions, from the element after `b` to the one before `e`.
abbrev pub Seg : Links → Ptr → List Ptr → Ptr → Type 0
Seg l b [] e = Unit
Seg l b (x ∷ xs) e = (x ≢ null) × (l.prev x ≡ b) × (l.next x ≡ first xs e) × Seg l x xs e

-- The head and the links hold the queue `xs`.
pub record IsQueue (q : Head) (l : Links) (xs : List Ptr) : Type 0 where
  pub front : q.head ≡ first xs null
  pub back : q.tail ≡ last null xs
  pub chain : Seg l null xs null
  pub distinct : Distinct xs

-- The links outside of `xs` are the same in `l` and in `m`.
abbrev pub SameOutside : List Ptr → Links → Links → Type 0
SameOutside xs l m = (a : Ptr) → a ∉ xs → (m.next a ≡ l.next a) × (m.prev a ≡ l.prev a)

pub has-append : (a : Ptr) (xs ys : List Ptr) → has a (xs ++ ys) ≡ (has a xs || has a ys)
has-append a [] ys = refl
has-append a (x ∷ xs) ys = rw (has-append a xs ys, or_assoc)

pub first-append : (xs ys : List Ptr) (e : Ptr) → first (xs ++ ys) e ≡ first xs (first ys e)
first-append [] ys e = refl
first-append (x ∷ xs) ys e = refl

pub last-append : (b : Ptr) (xs ys : List Ptr) → last b (xs ++ ys) ≡ last (last b xs) ys
last-append b [] ys = refl
last-append b (x ∷ xs) ys = last-append x xs ys

pub mem-last : (x : Ptr) (xs : List Ptr) → last x xs ∈ (x ∷ xs)
mem-last x [] = ground arith
mem-last x (y ∷ ys) = ground (arith, mem-last y ys)

-- A segment survives any change that spares the links of its elements.
pub frame :
    {l m : Links} (b : Ptr) (xs : List Ptr) (e : Ptr)
    → Seg l b xs e
    → ((a : Ptr) → a ∈ xs → (m.next a ≡ l.next a) × (m.prev a ≡ l.prev a))
    → Seg m b xs e
frame b [] e s same = tt
frame b (x ∷ xs) e s same =
    let here = same x (ground arith) in
    (s.0, here.1 ∙ s.1, here.0 ∙ s.2, frame x xs e s.3 (λ a i. same a (ground arith)))

-- Two segments that meet make one.
pub append :
    (l : Links) (b : Ptr) (xs ys : List Ptr) (e : Ptr)
    → Seg l b xs (first ys e)
    → Seg l (last b xs) ys e
    → Seg l b (xs ++ ys) e
append l b [] ys e s t = t
append l b (x ∷ xs) ys e s t =
    (s.0, s.1, s.2 ∙ sym (first-append xs ys e), append l x xs ys e s.3 t)

-- And one segment can be cut in two.
pub cut :
    (l : Links) (b : Ptr) (xs ys : List Ptr) (e : Ptr)
    → Seg l b (xs ++ ys) e
    → Seg l b xs (first ys e) × Seg l (last b xs) ys e
cut l b [] ys e s = (tt, s)
cut l b (x ∷ xs) ys e s =
    let (p, q) = cut l x xs ys e s.3 in ((s.0, s.1, s.2 ∙ first-append xs ys e, p), q)

pub Distinct-append :
    (xs ys : List Ptr)
    → Distinct xs
    → Distinct ys
    → ((a : Ptr) → a ∈ xs → a ∉ ys)
    → Distinct (xs ++ ys)
Distinct-append [] ys p q apart = q
Distinct-append (x ∷ xs) ys p q apart = (
  rw (has-append x xs ys, p.0) (apart x (ground arith)),
  Distinct-append xs ys p.1 q (λ a i. apart a (ground arith)),
)

pub Distinct-cut :
    (xs ys : List Ptr)
    → Distinct (xs ++ ys)
    → Distinct xs × Distinct ys × ((a : Ptr) → a ∈ xs → a ∉ ys)
Distinct-cut [] ys d = (tt, d, λ a i. cc)
Distinct-cut (x ∷ xs) ys d =
    let (p, q, apart) = Distinct-cut xs ys d.1 in
    ((ground (arith, has-append x xs ys), p), q, λ a i. ground (arith, has-append x xs ys, apart a))

-- The end of a segment can be linked anew.
pub relink_end :
    {l m : Links} (b x : Ptr) (xs : List Ptr) (e f : Ptr)
    → Seg l b (x ∷ xs) e
    → Distinct (x ∷ xs)
    → m.next (last x xs) ≡ f
    → ((a : Ptr) → a ∈ (x ∷ xs) → a ≢ last x xs → m.next a ≡ l.next a)
    → ((a : Ptr) → a ∈ (x ∷ xs) → m.prev a ≡ l.prev a)
    → Seg m b (x ∷ xs) f
relink_end b x [] e f s d new same_next same_prev = (s.0, same_prev x (ground arith) ∙ s.1, new, tt)
relink_end b x (y ∷ ys) e f s d new same_next same_prev = (
  s.0,
  same_prev x (ground arith) ∙ s.1,
  same_next x (ground arith) (ground (arith, mem-last y ys, d.0)) ∙ s.2,
  relink_end x y ys e f s.3 d.1 new (λ a i ne. same_next a (ground arith) ne)
      (λ a i. same_prev a (ground arith)),
)

pub ne-null_of_mem :
    (l : Links) (b a : Ptr) (xs : List Ptr) (e : Ptr) → Seg l b xs e → a ∈ xs → a ≢ null
ne-null_of_mem l b a [] e s i = cc
ne-null_of_mem l b a (x ∷ xs) e s i = ground (arith, s.0, ne-null_of_mem l x a xs e s.3)

pub mem_here : (x : Ptr) (xs : List Ptr) → x ∈ (x ∷ xs)
mem_here x xs = ground arith

pub mem_there : (x a : Ptr) (xs : List Ptr) → a ∈ xs → a ∈ (x ∷ xs)
mem_there x a xs i = ground arith

pub ne_of_mem : {a x : Ptr} (xs : List Ptr) → a ∈ xs → x ∉ xs → a ≢ x
ne_of_mem xs i out e = cc

pub not-mem-cons : (a x : Ptr) (xs : List Ptr) → a ∉ (x ∷ xs) → (a ≢ x) × (a ∉ xs)
not-mem-cons a x xs o = (ground arith, ground arith)

pub not-mem-append : (a : Ptr) (xs ys : List Ptr) → a ∉ (xs ++ ys) → (a ∉ xs) × (a ∉ ys)
not-mem-append a xs ys o = ground (arith, has-append a xs ys)

pub not-mem_both : (a : Ptr) (xs ys : List Ptr) → a ∉ xs → a ∉ ys → a ∉ (xs ++ ys)
not-mem_both a xs ys o p = ground (arith, has-append a xs ys)

pub apart_sym : (a : Ptr) (xs ys : List Ptr) → (a ∈ xs → a ∉ ys) → a ∈ ys → a ∉ xs
apart_sym a xs ys h i = elim (Bool-cases (has a xs)) [
  | inl yes' ↦ absurd (ne_of_mem ys i (h yes') refl)
  | inr no' ↦ no'
]
