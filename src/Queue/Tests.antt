-- ===== src/Queue/Tests.antt =====
-- A queue of the elements 1, 2 and 3, for the theorems on include/timix/variable_queue.h.
use timix_next.Prelude.{◌≡◌, ◌≢◌, refl, [], ◌∷◌, arith, Ptr, null, false, ◌==◌, if◌then◌else◌}
use timix_next.Queue
use timix_next.Queue.{found, out_of_fuel}
use timix_next.Queue.Memory.{Head, Links}
use timix_next.Queue.View.{IsQueue, SameOutside, ◌∈◌, ◌∉◌}
use timix_next.Queue.Refine.{
  enter_front, enter_tail, leave, leave_oldest, exec_all, exec_all-IsQueue,
}
use timix_next.Queue.Remove.{remove_lem}
use timix_next.Queue.Join.{concat-append, foreach-insert_after}
use timix_next.Queue.Foreach.{find, foreach-find}

abbrev three : Head
three = record { head = 1; tail = 3; ptr = 0 }

-- 5 and 6 are linked too, as a second queue.
abbrev links : Links
links = record {
  next = λ a. if a == 1 then 2 else if a == 2 then 3 else if a == 5 then 6 else 0;
  prev = λ a. if a == 3 then 2 else if a == 2 then 1 else if a == 6 then 5 else 0;
}

abbrev two : Head
two = record { head = 5; tail = 6; ptr = 0 }

not_null : (1 ≢ null) × (2 ≢ null) × (3 ≢ null) × (5 ≢ null) × (6 ≢ null)
not_null = (omega arith, omega arith, omega arith, omega arith, omega arith)

three-IsQueue : IsQueue three links (1 ∷ 2 ∷ 3 ∷ [])
three-IsQueue = record {
  front = refl;
  back = refl;
  distinct = (refl, (refl, (refl, tt)));
  chain = (not_null.0, refl, refl, (not_null.1, refl, refl, (not_null.2, refl, refl, tt)));
}

two-IsQueue : IsQueue two links (5 ∷ 6 ∷ [])
two-IsQueue = record {
  front = refl;
  back = refl;
  distinct = (refl, (refl, tt));
  chain = (not_null.3, refl, refl, (not_null.4, refl, refl, tt));
}

remove_lem_example :
    let (q, l) = Queue.remove three 2 links in
    IsQueue q l (1 ∷ 3 ∷ [])
    × (l.next 2 ≡ null)
    × (l.prev 2 ≡ null)
    × SameOutside (1 ∷ 2 ∷ 3 ∷ []) links l
remove_lem_example = remove_lem three links 2 (1 ∷ []) (3 ∷ []) three-IsQueue

-- 4 enters at the front and 7 behind the others, 2 leaves, and then the one at the tail.
exec_all-IsQueue_example :
    let (q, l) =
      exec_all (enter_front 4 ∷ enter_tail 7 ∷ leave 2 ∷ leave_oldest ∷ []) (three, links) in
    IsQueue q l (4 ∷ 1 ∷ 3 ∷ [])
exec_all-IsQueue_example =
    exec_all-IsQueue (enter_front 4 ∷ enter_tail 7 ∷ leave 2 ∷ leave_oldest ∷ []) three links
      (1 ∷ 2 ∷ 3 ∷ []) three-IsQueue ((omega arith, refl), ((omega arith, refl), (refl, (tt, tt))))

apart : (a : Ptr) → a ∈ (1 ∷ 2 ∷ 3 ∷ []) → a ∉ (5 ∷ 6 ∷ [])
apart a i = ground (arith, i)

concat-append_example :
    let (q, r, l) = Queue.concat three two links in
    IsQueue q l (1 ∷ 2 ∷ 3 ∷ 5 ∷ 6 ∷ [])
    × IsQueue r l []
    × SameOutside (1 ∷ 2 ∷ 3 ∷ 5 ∷ 6 ∷ []) links l
concat-append_example =
    concat-append three two links (1 ∷ 2 ∷ 3 ∷ []) (5 ∷ 6 ∷ []) three-IsQueue two-IsQueue apart

foreach-find_example : Queue.foreach 4 (λ a. a == 2) 1 links ≡ found 2
unfolding find
foreach-find_example = foreach-find (λ a. a == 2) 4 three-IsQueue (omega arith)

foreach-insert_after_example :
    let l = (Queue.insert_after three 1 4 links).1 in
    (Queue.foreach 9 (λ _. false) 2 l ≡ out_of_fuel)
    × (Queue.foreach 9 (λ _. false) 4 l ≡ out_of_fuel)
foreach-insert_after_example =
    foreach-insert_after three 1 4 links (omega arith) (omega arith) (omega arith) 9 (omega arith)
      (omega arith)
