-- ===== src/Queue.antt =====
-- include/timix/variable_queue.h: the intrusive doubly linked queue, macro by macro. A macro that
-- writes through `Q_HEAD` and the elements returns the new head and the new links.
pub mod Memory
pub mod View
pub mod Insert
pub mod Remove
pub mod Join
pub mod Foreach
pub mod Refine
mod Tests
use timix_next.Prelude.{
  ℕ, zero, suc, Bool, true, false, Option, none, some, ◌==◌, if◌then◌else◌, Ptr, null,
}
use Memory.{Head, Links, set_next, set_prev}

abbrev pub State : Type 0
State = Head × Links

-- Q_INIT_HEAD
unfoldable pub init_head : Head
init_head = record { head = null; tail = null; ptr = null }

-- Q_INIT_ELEM
unfoldable pub init_elem : Ptr → Links → Links
init_elem x l = set_prev x null (set_next x null l)

-- Q_INSERT_FRONT
unfoldable pub insert_front : Head → Ptr → Links → State
insert_front q x l =
    let l1 = set_next x q.head l in
    let l2 = if q.head == null then l1 else set_prev q.head x l1 in
    let q1 = record q { head = x } in (if q1.tail == null then record q1 { tail = x } else q1, l2)

-- Q_INSERT_TAIL
unfoldable pub insert_tail : Head → Ptr → Links → State
insert_tail q x l =
    let l1 = set_prev x q.tail l in
    let l2 = if q.tail == null then l1 else set_next q.tail x l1 in
    let q1 = record q { tail = x } in (if q1.head == null then record q1 { head = x } else q1, l2)

-- Q_CONCAT: the first head, the second head (re-initialised) and the links
unfoldable pub concat : Head → Head → Links → Head × Head × Links
unfolding init_head
concat q1 q2 l =
    if q1.tail == null
    then (record q1 { head = q2.head; tail = q2.tail }, init_head, l)
    else if q2.head == null
    then (q1, init_head, l)
    else (
      record q1 { tail = q2.tail },
      init_head,
      set_prev q2.head q1.tail (set_next q1.tail q2.head l),
    )

-- Q_GET_FRONT, Q_GET_TAIL, Q_GET_NEXT, Q_GET_PREV
unfoldable pub get_front : Head → Ptr
get_front q = q.head

unfoldable pub get_tail : Head → Ptr
get_tail q = q.tail

unfoldable pub get_next : Ptr → Links → Ptr
get_next x l = l.next x

unfoldable pub get_prev : Ptr → Links → Ptr
get_prev x l = l.prev x

-- Q_INSERT_AFTER
unfoldable pub insert_after : Head → Ptr → Ptr → Links → State
insert_after q inq x l =
    let at_tail = q.tail == inq in
    let q1 =
      if at_tail then record q { ptr = q.tail; tail = x } else record q { ptr = l.next inq } in
    let l1 = if at_tail then l else set_next x q1.ptr (set_prev q1.ptr x l) in
    (q1, set_prev x q1.ptr (set_next q1.ptr x l1))

-- Q_INSERT_BEFORE
unfoldable pub insert_before : Head → Ptr → Ptr → Links → State
insert_before q inq x l =
    let at_head = q.head == inq in
    let q1 =
      if at_head then record q { ptr = q.head; head = x } else record q { ptr = l.prev inq } in
    let l1 = if at_head then l else set_prev x q1.ptr (set_next q1.ptr x l) in
    (q1, set_prev inq x (set_next x inq l1))

-- Q_REMOVE
unfoldable pub remove : Head → Ptr → Links → State
unfolding init_elem
remove q x l =
    let q1 = if q.head == x then record q { head = l.next x } else q in
    let q2 = if q1.tail == x then record q1 { tail = l.prev x } else q1 in
    let before = l.prev x in
    let l1 = if before == null then l else set_next before (l.next x) l in
    let after = l1.next x in
    let l2 = if after == null then l1 else set_prev after (l1.prev x) l1 in
    (record q2 { ptr = after }, init_elem x l2)

-- The outcome of a Q_FOREACH that stops at the first element which passes a test.
pub data Walk : Type 0 where
  found : Ptr → Walk
  not_found : Walk
  out_of_fuel : Walk

-- Q_FOREACH whose body breaks at the first element that passes `test`, from `p` on.
unfoldable pub foreach : ℕ → (Ptr → Bool) → Ptr → Links → Walk
foreach zero test p l = out_of_fuel
foreach (suc k) test p l =
    let rest = foreach k test (l.next p) l in
    if p == null then not_found else if test p then found p else rest
