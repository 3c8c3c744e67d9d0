-- ===== src/Queue/Foreach.antt =====
-- Q_FOREACH visits the elements of the queue in order, and ends.
use timix_next.Prelude.{
  ℕ, zero, suc, ◌<◌, ◌≡◌, Bool, List, [], ◌∷◌, arith, Ptr, null, length, if◌then◌else◌,
}
use timix_next.Queue.{foreach, Walk, found, not_found}
use timix_next.Queue.Memory.{Head, Links}
use timix_next.Queue.View.{IsQueue, Seg, first}

-- The first element of a list that passes the test.
unfoldable pub find : (Ptr → Bool) → List Ptr → Walk
find test [] = not_found
find test (x ∷ xs) = if test x then found x else find test xs

foreach-Seg :
    (test : Ptr → Bool) (l : Links) (b p : Ptr) (xs : List Ptr) (k : ℕ)
    → Seg l b xs null
    → p ≡ first xs null
    → length xs < k
    → foreach k test p l ≡ find test xs
unfolding foreach find
foreach-Seg test l b p [] zero s e fuel = absurd (omega arith)
foreach-Seg test l b p [] (suc k) s e fuel = ground arith
foreach-Seg test l b p (x ∷ xs) zero s e fuel = absurd (omega arith)
foreach-Seg test l b p (x ∷ xs) (suc k) s e fuel =
    ground (arith, e, s.0, foreach-Seg test l x (l.next p) xs k s.3)

-- Given more rounds than the queue has elements, the loop ends, and what it finds is the first
-- element from the front that passes the test.
pub foreach-find :
    (test : Ptr → Bool) {q : Head} {l : Links} {xs : List Ptr} (k : ℕ)
    → IsQueue q l xs
    → length xs < k
    → foreach k test q.head l ≡ find test xs
foreach-find test {q} {l} {xs} k is fuel =
    foreach-Seg test l null q.head xs k is.chain is.front fuel
