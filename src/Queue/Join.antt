-- ===== src/Queue/Join.antt =====
-- Q_CONCAT, Q_INSERT_BEFORE and Q_INSERT_AFTER against the list of the elements.
use timix_next.Prelude.{
  ℕ, zero, suc, false, ◌==◌, eqb_false, ◌≡◌, refl, sym, ◌∙◌, ◌≢◌, List, [], ◌∷◌, ◌++◌, arith, Ptr,
  null, update, update_self, update_ne,
}
use mathlib.Core.List.{append-nil}
use timix_next.Queue.{concat, insert_after, foreach, out_of_fuel}
use timix_next.Queue.Memory.{Head, Links, set_next, set_prev}
use timix_next.Queue.View.{
  ◌∈◌, ◌∉◌, IsQueue, last, frame, append, relink_end, mem-last, last-append, Distinct-append,
  SameOutside, ne-null_of_mem, ne_of_mem, not-mem-cons, not-mem-append, mem_there, mem_here,
  apart_sym,
}

module _ (q1 q2 : Head) (l : Links) where
  concat_links :
      q1.tail ≢ null
      → q2.head ≢ null
      → concat q1 q2 l ≡ (
        record q1 { tail = q2.tail },
        record { head = null; tail = null; ptr = null },
        set_prev q2.head q1.tail (set_next q1.tail q2.head l),
      )
  unfolding concat
  concat_links t h = ground arith

  concat-nil_left :
      (ys : List Ptr)
      → IsQueue q1 l []
      → IsQueue q2 l ys
      → let (q, r, l') = concat q1 q2 l in IsQueue q l' ys × IsQueue r l' [] × SameOutside [] l l'
  unfolding concat
  concat-nil_left ys is js = rw is.back (
    record { front = js.front; back = js.back; chain = js.chain; distinct = js.distinct },
    record { front = refl; back = refl; chain = tt; distinct = tt },
    λ a o. (refl, refl),
  )

  concat-nil_right :
      (x : Ptr) (xs : List Ptr)
      → IsQueue q1 l (x ∷ xs)
      → IsQueue q2 l []
      → let (q, r, l') = concat q1 q2 l in
        IsQueue q l' (x ∷ xs ++ []) × IsQueue r l' [] × SameOutside [] l l'
  unfolding concat
  concat-nil_right x xs is js =
      let ne = ne-null_of_mem l null (last x xs) (x ∷ xs) null is.chain (mem-last x xs) in
      let tail_ne : (q1.tail == null) ≡ false = eqb_false (λ e. ne (sym is.back ∙ e)) in
      rw (tail_ne, js.front, append-nil)
        (is, record { front = refl; back = refl; chain = tt; distinct = tt }, λ a o. (refl, refl))

  concat-cons :
      (x : Ptr) (xs : List Ptr) (y : Ptr) (ys : List Ptr)
      → IsQueue q1 l (x ∷ xs)
      → IsQueue q2 l (y ∷ ys)
      → ((a : Ptr) → a ∈ (x ∷ xs) → a ∉ (y ∷ ys))
      → let l' = set_prev y (last x xs) (set_next (last x xs) y l) in
        IsQueue (record q1 { tail = q2.tail }) l' (x ∷ xs ++ y ∷ ys)
        × SameOutside (x ∷ xs ++ y ∷ ys) l l'
  concat-cons x xs y ys is js apart =
      let end = last x xs in
      let end_out = apart end (mem-last x xs) in
      let y_out = apart_sym y (x ∷ xs) (y ∷ ys) (apart y) (mem_here y ys) in
      let end_ne = λ (a : Ptr) (i : a ∈ (y ∷ ys)). ne_of_mem (y ∷ ys) i end_out in
      (
        record {
          front = is.front;
          back = js.back ∙ sym (last-append null (x ∷ xs) (y ∷ ys));
          chain =
              append _ null (x ∷ xs) (y ∷ ys) null
                (relink_end null x xs null y is.chain is.distinct (update_self _ _ _)
                  (λ a i n. update_ne _ _ _ n)
                  (λ a i. update_ne _ _ _ (ne_of_mem (x ∷ xs) i y_out)))
                (
                  js.chain.0,
                  update_self _ _ _,
                  update_ne _ _ _ (end_ne y (mem_here y ys)) ∙ js.chain.2,
                  frame y ys null js.chain.3 (λ a i. (
                    update_ne _ _ _ (end_ne a (mem_there y a ys i)),
                    update_ne _ _ _ (ne_of_mem ys i js.distinct.0),
                  )),
                );
          distinct = Distinct-append (x ∷ xs) (y ∷ ys) is.distinct js.distinct apart;
        },
        λ a o.
            let (o1, o2) = not-mem-append a (x ∷ xs) (y ∷ ys) o in
            (
              update_ne _ _ _ (λ e. ne_of_mem (x ∷ xs) (mem-last x xs) o1 (sym e)),
              update_ne _ _ _ (not-mem-cons a y ys o2).0,
            ),
      )

  -- Q_CONCAT of two queues that share no element holds the elements of the first, then those of
  -- the second; the second head is left empty, and no link outside of the two queues changes.
  pub concat-append :
      (xs ys : List Ptr)
      → IsQueue q1 l xs
      → IsQueue q2 l ys
      → ((a : Ptr) → a ∈ xs → a ∉ ys)
      → let (q, r, l') = concat q1 q2 l in
        IsQueue q l' (xs ++ ys) × IsQueue r l' [] × SameOutside (xs ++ ys) l l'
  concat-append [] ys is js apart =
      let (a, b, c) = concat-nil_left ys is js in (a, b, λ p o. c p refl)
  concat-append (x ∷ xs) [] is js apart =
      let (a, b, c) = concat-nil_right x xs is js in (a, b, λ p o. c p refl)
  concat-append (x ∷ xs) (y ∷ ys) is js apart =
      let ne = ne-null_of_mem l null (last x xs) (x ∷ xs) null is.chain (mem-last x xs) in
      let (a, b) = concat-cons x xs y ys is js apart in
      rw
        (
          concat_links (λ e. ne (sym is.back ∙ e)) (λ e. js.chain.0 (sym js.front ∙ e)),
          is.back,
          js.front,
        )
        (a, record { front = refl; back = refl; chain = tt; distinct = tt }, b)

module _ (q : Head) (inq x : Ptr) (l : Links) (mid : q.tail ≢ inq) (ne : x ≢ inq)
    (new : x ≢ l.next inq) where
  -- Q_INSERT_AFTER behind an element that is not the last one: the element keeps its successor, and
  -- this successor and the new element point at each other in both directions.
  pub insert_after_cycle :
      let l' = (insert_after q inq x l).1 in
      (l.next inq ≢ inq → l'.next inq ≡ l.next inq)
      × (l'.next (l.next inq) ≡ x)
      × (l'.next x ≡ l.next inq)
  unfolding insert_after update
  insert_after_cycle = ground arith

  -- After Q_INSERT_AFTER of a new element behind one that is neither the last one nor without a
  -- successor, a Q_FOREACH from that successor or from the new element, whose test never passes, does
  -- not end, whatever the fuel.
  pub foreach-insert_after :
      (k : ℕ)
      → x ≢ null
      → l.next inq ≢ null
      → let l' = (insert_after q inq x l).1 in
        (foreach k (λ _. false) (l.next inq) l' ≡ out_of_fuel)
        × (foreach k (λ _. false) x l' ≡ out_of_fuel)
  unfolding foreach
  foreach-insert_after zero x_ne y_ne = (refl, refl)
  foreach-insert_after (suc k) x_ne y_ne =
      ground (arith, insert_after_cycle.1, insert_after_cycle.2, foreach-insert_after k x_ne y_ne)
