-- ===== src/Queue/Insert.antt =====
-- Q_INSERT_FRONT and Q_INSERT_TAIL against the list of the elements.
use timix_next.Prelude.{
  ◌≡◌, refl, sym, ◌∙◌, ◌≢◌, List, [], ◌∷◌, ◌++◌, arith, Ptr, null, update_self, update, update_ne,
}
use timix_next.Queue.{State, insert_front, insert_tail}
use timix_next.Queue.Memory.{Head, Links, set_next, set_prev}
use timix_next.Queue.View.{
  ◌∉◌, IsQueue, last, last-append, frame, SameOutside, relink_end, append, mem-last,
  Distinct-append, ne-null_of_mem, ne_of_mem, not-mem-cons, not-mem-append,
}

module _ (q : Head) (l : Links) (x : Ptr) where
  front_links :
      q.head ≢ null
      → q.tail ≢ null
      → insert_front q x l ≡ (record q { head = x }, set_prev q.head x (set_next x q.head l))
  unfolding insert_front update
  front_links h t = ground arith

  tail_links :
      q.head ≢ null
      → q.tail ≢ null
      → insert_tail q x l ≡ (record q { tail = x }, set_next q.tail x (set_prev x q.tail l))
  unfolding insert_tail
  tail_links h t = ground arith

-- The queue `xs` at `q` and `l` becomes the queue `ys`, and links outside of `ys` are kept.
abbrev pub Becomes : Links → State → List Ptr → Type 0
Becomes l (q', l') ys = IsQueue q' l' ys × SameOutside ys l l'

module _ {q : Head} {l : Links} (x : Ptr) (ne : x ≢ null) where
  insert_front-Seg :
      (y : Ptr) (ys : List Ptr)
      → IsQueue q l (y ∷ ys)
      → x ∉ (y ∷ ys)
      → l.prev x ≡ null
      → Becomes l (record q { head = x }, set_prev y x (set_next x y l)) (x ∷ y ∷ ys)
  insert_front-Seg y ys is out clear =
      let x_ne = not-mem-cons x y ys out in
      (
        record {
          front = refl;
          back = is.back;
          chain = (
            ne,
            update_ne _ _ _ x_ne.0 ∙ clear,
            update_self _ _ _,
            (
              is.chain.0,
              update_self _ _ _,
              update_ne _ _ _ (λ e. x_ne.0 (sym e)) ∙ is.chain.2,
              frame y ys null is.chain.3 (λ a i. (
                update_ne _ _ _ (ne_of_mem ys i x_ne.1),
                update_ne _ _ _ (ne_of_mem ys i is.distinct.0),
              )),
            ),
          );
          distinct = (out, is.distinct);
        },
        λ a o.
            let p = not-mem-cons a x (y ∷ ys) o in
            (update_ne _ _ _ p.0, update_ne _ _ _ (not-mem-cons a y ys p.1).0),
      )

  insert_front-nil : IsQueue q l [] → l.prev x ≡ null → Becomes l (insert_front q x l) (x ∷ [])
  unfolding insert_front update
  insert_front-nil is clear = (ground (arith, is.front, is.back), ground (arith, is.front))

  -- Q_INSERT_FRONT puts `x` before the elements of the queue and changes no link outside of it, if
  -- `x` is no element and its `prev` is `NULL` (as after Q_INIT_ELEM).
  pub insert_front-cons :
      (xs : List Ptr)
      → IsQueue q l xs
      → x ∉ xs
      → l.prev x ≡ null
      → Becomes l (insert_front q x l) (x ∷ xs)
  insert_front-cons [] is out clear = insert_front-nil is clear
  insert_front-cons (y ∷ ys) is out clear =
      let tail_ne = ne-null_of_mem l null (last y ys) (y ∷ ys) null is.chain (mem-last y ys) in
      rw
        (
          front_links q l x (λ e. is.chain.0 (sym is.front ∙ e)) (λ e. tail_ne (sym is.back ∙ e)),
          is.front,
        )
        (insert_front-Seg y ys is out clear)

  insert_tail-Seg :
      (y : Ptr) (ys : List Ptr)
      → IsQueue q l (y ∷ ys)
      → x ∉ (y ∷ ys)
      → l.next x ≡ null
      → Becomes l
          (record q { tail = x }, set_next (last y ys) x (set_prev x (last y ys) l))
          (y ∷ ys ++ x ∷ [])
  insert_tail-Seg y ys is out clear =
      let end_ne = ne_of_mem (y ∷ ys) (mem-last y ys) out in
      (
        record {
          front = is.front;
          back = sym (last-append y ys (x ∷ []));
          chain =
              append _ null (y ∷ ys) (x ∷ []) null
                (relink_end null y ys null x is.chain is.distinct (update_self _ _ _)
                  (λ a i n. update_ne _ _ _ n) (λ a i. update_ne _ _ _ (ne_of_mem (y ∷ ys) i out)))
                (ne, update_self _ _ _, update_ne _ _ _ (λ e. end_ne (sym e)) ∙ clear, tt);
          distinct = Distinct-append (y ∷ ys) (x ∷ []) is.distinct (refl, tt) (λ a i. ground arith);
        },
        λ a o.
            let p = not-mem-append a (y ∷ ys) (x ∷ []) o in
            (
              update_ne _ _ _ (λ e. ne_of_mem (y ∷ ys) (mem-last y ys) p.0 (sym e)),
              update_ne _ _ _ (not-mem-cons a x [] p.1).0,
            ),
      )

  insert_tail-nil : IsQueue q l [] → l.next x ≡ null → Becomes l (insert_tail q x l) (x ∷ [])
  unfolding insert_tail update
  insert_tail-nil is clear = (ground (arith, is.front, is.back), ground (arith, is.back))

  -- Q_INSERT_TAIL puts `x` behind the elements of the queue and changes no link outside of it, if
  -- `x` is no element and its `next` is `NULL` (as after Q_INIT_ELEM).
  pub insert_tail-append :
      (xs : List Ptr)
      → IsQueue q l xs
      → x ∉ xs
      → l.next x ≡ null
      → Becomes l (insert_tail q x l) (xs ++ x ∷ [])
  insert_tail-append [] is out clear = insert_tail-nil is clear
  insert_tail-append (y ∷ ys) is out clear =
      let tail_ne = ne-null_of_mem l null (last y ys) (y ∷ ys) null is.chain (mem-last y ys) in
      rw
        (
          tail_links q l x (λ e. is.chain.0 (sym is.front ∙ e)) (λ e. tail_ne (sym is.back ∙ e)),
          is.back,
        )
        (insert_tail-Seg y ys is out clear)
