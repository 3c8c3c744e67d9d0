-- ===== src/Queue/Refine.antt =====
-- The queue of variable_queue.h as an abstract list: sequences of the calls that the kernel makes.
use timix_next.Prelude.{
  ◌≡◌, refl, sym, ◌≢◌, ap, Bool-cases, inl, inr, List, [], ◌∷◌, ◌++◌, arith, ◌==◌, if◌then◌else◌,
  Ptr, null, update, update_ne,
}
use mathlib.Core.List.{append-nil}
use timix_next.Queue.{State, init_elem, insert_front, insert_tail, get_tail, remove}
use timix_next.Queue.Memory.{Head, Links}
use timix_next.Queue.View.{IsQueue, ◌∈◌, ◌∉◌, last, frame, ne_of_mem, mem-last, ne-null_of_mem}
use timix_next.Queue.Insert.{insert_front-cons, insert_tail-append}
use timix_next.Queue.Remove.{remove_lem}

-- An element's links are cleared before it enters.
pub data Call : Type 0 where
  enter_front : Ptr → Call
  enter_tail : Ptr → Call
  leave : Ptr → Call
  leave_oldest : Call

unfoldable pub exec : Call → State → State
exec (enter_front x) (q, l) = insert_front q x (init_elem x l)
exec (enter_tail x) (q, l) = insert_tail q x (init_elem x l)
exec (leave x) (q, l) = remove q x l
exec leave_oldest (q, l) = if get_tail q == null then (q, l) else remove q (get_tail q) l

unfoldable pub exec_all : List Call → State → State
unfolding exec
exec_all [] s = s
exec_all (c ∷ cs) s = exec_all cs (exec c s)

-- The list without `x`, and without its last element.
abbrev pub without : Ptr → List Ptr → List Ptr
without x [] = []
without x (y ∷ ys) = if x == y then ys else y ∷ without x ys

abbrev pub but_last : List Ptr → List Ptr
but_last [] = []
but_last (x ∷ []) = []
but_last (x ∷ y ∷ ys) = x ∷ but_last (y ∷ ys)

-- What a call does to the list, and when the kernel may make it.
abbrev pub spec : Call → List Ptr → List Ptr
spec (enter_front x) xs = x ∷ xs
spec (enter_tail x) xs = xs ++ x ∷ []
spec (leave x) xs = without x xs
spec leave_oldest xs = but_last xs

abbrev pub spec_all : List Call → List Ptr → List Ptr
spec_all [] xs = xs
spec_all (c ∷ cs) xs = spec_all cs (spec c xs)

abbrev pub Allowed : Call → List Ptr → Type 0
Allowed (enter_front x) xs = (x ≢ null) × (x ∉ xs)
Allowed (enter_tail x) xs = (x ≢ null) × (x ∉ xs)
Allowed (leave x) xs = x ∈ xs
Allowed leave_oldest xs = Unit

abbrev pub AllAllowed : List Call → List Ptr → Type 0
AllAllowed [] xs = Unit
AllAllowed (c ∷ cs) xs = Allowed c xs × AllAllowed cs (spec c xs)

-- Clearing the links of an element that is not in the queue changes nothing.
pub init_elem-IsQueue :
    (q : Head) (l : Links) (x : Ptr) (xs : List Ptr)
    → IsQueue q l xs
    → x ∉ xs
    → IsQueue q (init_elem x l) xs
unfolding init_elem
init_elem-IsQueue q l x xs is out = record {
  front = is.front;
  back = is.back;
  chain =
      frame null xs null is.chain
        λ a i. (update_ne _ _ _ (ne_of_mem xs i out), update_ne _ _ _ (ne_of_mem xs i out));
  distinct = is.distinct;
}

init_elem-clear :
    (x : Ptr) (l : Links) → ((init_elem x l).next x ≡ null) × ((init_elem x l).prev x ≡ null)
unfolding init_elem update
init_elem-clear x l = ground arith

-- Where an element stands.
abbrev pub Split : Ptr → List Ptr → Type 0
Split x xs = (bs cs : List Ptr) × (xs ≡ bs ++ x ∷ cs) × (without x xs ≡ bs ++ cs)

pub mem-Split : (x : Ptr) (xs : List Ptr) → x ∈ xs → Split x xs
mem-Split x [] i = cc
mem-Split x (y ∷ ys) i = elim (Bool-cases (x == y)) [
  | inl same ↦
      let e : x ≡ y = ground (arith, same) in ([], ys, ap (λ z. z ∷ ys) (sym e), rw same refl)
  | inr other ↦
      let (bs, cs, p, r) = mem-Split x ys (ground (arith, i, other)) in
      (y ∷ bs, cs, ap (λ zs. y ∷ zs) p, rw other (ap (λ zs. y ∷ zs) r))
]

-- The last element.
split_end : (x : Ptr) (xs : List Ptr) → x ∷ xs ≡ but_last (x ∷ xs) ++ last x xs ∷ []
split_end x [] = refl
split_end x (y ∷ ys) = ap (λ zs. x ∷ zs) (split_end y ys)

exec_none : (q : Head) (l : Links) → q.tail ≡ null → exec leave_oldest (q, l) ≡ (q, l)
unfolding exec get_tail
exec_none q l e = ground (arith, e)

exec_some :
    (q : Head) (l : Links) (x : Ptr)
    → q.tail ≡ x
    → x ≢ null
    → exec leave_oldest (q, l) ≡ remove q x l
unfolding exec get_tail
exec_some q l x e ne = ground (arith, e, ne)

exec_oldest-IsQueue :
    (q : Head) (l : Links) (xs : List Ptr)
    → IsQueue q l xs
    → let (q', l') = exec leave_oldest (q, l) in IsQueue q' l' (but_last xs)
exec_oldest-IsQueue q l [] is = rw (exec_none q l is.back) is
exec_oldest-IsQueue q l (x ∷ xs) is =
    let ne = ne-null_of_mem l null (last x xs) (x ∷ xs) null is.chain (mem-last x xs) in
    let at_end = rw (split_end x xs) at is in
    let (gone, _, _, _) = remove_lem q l (last x xs) (but_last (x ∷ xs)) [] at_end in
    rw (exec_some q l (last x xs) is.back ne) (rw append-nil at gone)

pub exec-IsQueue :
    (c : Call) (q : Head) (l : Links) (xs : List Ptr)
    → IsQueue q l xs
    → Allowed c xs
    → let (q', l') = exec c (q, l) in IsQueue q' l' (spec c xs)
unfolding exec
exec-IsQueue (enter_front x) q l xs is (ne, out) =
    (insert_front-cons x ne xs (init_elem-IsQueue q l x xs is out) out (init_elem-clear x l).1).0
exec-IsQueue (enter_tail x) q l xs is (ne, out) =
    (insert_tail-append x ne xs (init_elem-IsQueue q l x xs is out) out (init_elem-clear x l).0).0
exec-IsQueue (leave x) q l xs is i =
    let (bs, cs, p, r) = mem-Split x xs i in rw r (remove_lem q l x bs cs (rw p at is)).0
exec-IsQueue leave_oldest q l xs is i = exec_oldest-IsQueue q l xs is

-- Any sequence of the calls that the kernel makes, on a queue that holds `xs`, leaves the queue that
-- the list operations say: entering at the front or behind the others, leaving from any place, and
-- the one at the tail leaving, if there is one. Whoever enters is no element yet and not `NULL`, and
-- whoever leaves by name is an element.
pub exec_all-IsQueue :
    (cs : List Call) (q : Head) (l : Links) (xs : List Ptr)
    → IsQueue q l xs
    → AllAllowed cs xs
    → let (q', l') = exec_all cs (q, l) in IsQueue q' l' (spec_all cs xs)
unfolding exec_all
exec_all-IsQueue [] q l xs is ok = is
exec_all-IsQueue (c ∷ cs) q l xs is ok =
    let (q', l') = exec c (q, l) in
    exec_all-IsQueue cs q' l' (spec c xs) (exec-IsQueue c q l xs is ok.0) ok.1
