-- ===== src/Queue/Remove.antt =====
-- Q_REMOVE against the list of the elements.
use timix_next.Prelude.{◌≡◌, sym, ap, ◌∙◌, ◌≢◌, List, [], ◌∷◌, ◌++◌, arith, Ptr, null, update}
use timix_next.Queue.{remove}
use timix_next.Queue.Memory.{Head, Links}
use timix_next.Queue.View.{
  ◌∈◌, ◌∉◌, Distinct, IsQueue, Seg, last, first, frame, cut, append, relink_end, mem-last,
  last-append, Distinct-append, Distinct-cut, SameOutside, ne-null_of_mem, ne_of_mem, not-mem-cons,
  not-mem-append, mem_there, mem_here, apart_sym,
}

-- What the macro does to each link and to the head, by the neighbours of the element.
module _ (q : Head) (l : Links) (x : Ptr) (prev_ne : l.prev x ≢ x) (next_ne : l.next x ≢ x) where
  next-remove_self : (remove q x l).1.next x ≡ null
  unfolding remove update
  next-remove_self = ground arith

  prev-remove_self : (remove q x l).1.prev x ≡ null
  unfolding remove update
  prev-remove_self = ground arith

  next-remove_prev : l.prev x ≢ null → (remove q x l).1.next (l.prev x) ≡ l.next x
  unfolding remove update
  next-remove_prev ne = ground arith

  prev-remove_next : l.next x ≢ null → (remove q x l).1.prev (l.next x) ≡ l.prev x
  unfolding remove update
  prev-remove_next ne = ground arith

  next-remove_ne :
      (a : Ptr) → a ≢ x → (a ≡ l.prev x → a ≡ null) → (remove q x l).1.next a ≡ l.next a
  unfolding remove update
  next-remove_ne a ne other = ground arith

  prev-remove_ne :
      (a : Ptr) → a ≢ x → (a ≡ l.next x → a ≡ null) → (remove q x l).1.prev a ≡ l.prev a
  unfolding remove update
  prev-remove_ne a ne other = ground arith

-- The neighbours of `x` in the queue `xs ++ x ∷ ys`.
record Between (l : Links) (x : Ptr) (xs ys : List Ptr) : Type 0 where
  ne : x ≢ null
  before : l.prev x ≡ last null xs
  after : l.next x ≡ first ys null
  out_front : x ∉ xs
  out_back : x ∉ ys
  apart : (a : Ptr) → a ∈ xs → a ∉ ys

module _ {l : Links} {x : Ptr} where
  prev_ne : (xs ys : List Ptr) → Between l x xs ys → l.prev x ≢ x
  prev_ne [] ys b e = b.ne (sym e ∙ b.before)
  prev_ne (z ∷ zs) ys b e = ne_of_mem (z ∷ zs) (mem-last z zs) b.out_front (sym b.before ∙ e)

  next_ne : (xs ys : List Ptr) → Between l x xs ys → l.next x ≢ x
  next_ne xs [] b e = b.ne (sym e ∙ b.after)
  next_ne xs (y ∷ ys) b e = ne_of_mem (y ∷ ys) (mem_here y ys) b.out_back (sym b.after ∙ e)

  prev_out : (xs ys : List Ptr) → Between l x xs ys → (a : Ptr) → a ∉ xs → a ≡ l.prev x → a ≡ null
  prev_out [] ys b a o e = e ∙ b.before
  prev_out (z ∷ zs) ys b a o e = absurd (ne_of_mem (z ∷ zs) (mem-last z zs) o (sym (e ∙ b.before)))

  next_out : (xs ys : List Ptr) → Between l x xs ys → (a : Ptr) → a ∉ ys → a ≡ l.next x → a ≡ null
  next_out xs [] b a o e = e ∙ b.after
  next_out xs (y ∷ ys) b a o e = absurd (ne_of_mem (y ∷ ys) (mem_here y ys) o (sym (e ∙ b.after)))

module _ (q : Head) (l : Links) (x : Ptr) where
  front-Seg :
      (xs ys : List Ptr)
      → Between l x xs ys
      → Distinct xs
      → Seg l null xs x
      → Seg (remove q x l).1 null xs (first ys null)
  front-Seg [] ys b d s = tt
  front-Seg (z ∷ zs) ys b d s =
      let p = prev_ne (z ∷ zs) ys b in
      let n = next_ne (z ∷ zs) ys b in
      let l' = (remove q x l).1 in
      let last_ne = ne-null_of_mem l null (last z zs) (z ∷ zs) x s (mem-last z zs) in
      relink_end null z zs x (first ys null) s d
        (sym (ap l'.next b.before)
          ∙ next-remove_prev q l x p n (λ e. last_ne (sym b.before ∙ e))
          ∙ b.after)
        (λ a i ne.
          next-remove_ne q l x p n a (ne_of_mem (z ∷ zs) i b.out_front)
            (λ e. absurd (ne (e ∙ b.before))))
        (λ a i.
          prev-remove_ne q l x p n a (ne_of_mem (z ∷ zs) i b.out_front)
            (next_out (z ∷ zs) ys b a (b.apart a i)))

  back-Seg :
      (xs ys : List Ptr)
      → Between l x xs ys
      → Distinct ys
      → Seg l x ys null
      → Seg (remove q x l).1 (last null xs) ys null
  back-Seg xs [] b d s = tt
  back-Seg xs (y ∷ ys) b d s =
      let p = prev_ne xs (y ∷ ys) b in
      let n = next_ne xs (y ∷ ys) b in
      let l' = (remove q x l).1 in
      let same_next = λ (a : Ptr) (i : a ∈ (y ∷ ys)).
        next-remove_ne q l x p n a (ne_of_mem (y ∷ ys) i b.out_back)
          (prev_out xs (y ∷ ys) b a (apart_sym _ xs (y ∷ ys) (b.apart a) i)) in
      (
        s.0,
        sym (ap l'.prev b.after)
            ∙ prev-remove_next q l x p n (λ e. s.0 (sym b.after ∙ e))
            ∙ b.before,
        same_next y (mem_here y ys) ∙ s.2,
        frame y ys null s.3 (λ a i. (
          same_next a (mem_there y a ys i),
          prev-remove_ne q l x p n a (ne_of_mem (y ∷ ys) (mem_there y a ys i) b.out_back)
              (λ e. absurd (ne_of_mem ys i d.0 (e ∙ b.after))),
        )),
      )

  head-remove :
      (xs ys : List Ptr)
      → Between l x xs ys
      → q.head ≡ first (xs ++ x ∷ ys) null
      → (remove q x l).0.head ≡ first (xs ++ ys) null
  unfolding remove
  head-remove [] ys b e = ground (arith, e, b.after)
  head-remove (z ∷ zs) ys b e =
      let ne = ne_of_mem (z ∷ zs) (mem_here z zs) b.out_front in ground (arith, e, ne)

  tail-remove :
      (xs ys : List Ptr)
      → Between l x xs ys
      → q.tail ≡ last x ys
      → (remove q x l).0.tail ≡ last (last null xs) ys
  unfolding remove
  tail-remove xs [] b e = ground (arith, e, b.before)
  tail-remove xs (y ∷ ys) b e =
      let ne = ne_of_mem (y ∷ ys) (mem-last y ys) b.out_back in ground (arith, e, ne)

  Between-of : (xs ys : List Ptr) → IsQueue q l (xs ++ x ∷ ys) → Between l x xs ys
  Between-of xs ys is =
      let (dx, dxy, apart) = Distinct-cut xs (x ∷ ys) is.distinct in
      let (_, s) = cut l null xs (x ∷ ys) null is.chain in
      record {
        ne = s.0;
        before = s.1;
        after = s.2;
        out_front = apart_sym _ xs (x ∷ ys) (apart x) (mem_here x ys);
        out_back = dxy.0;
        apart = λ a i. (not-mem-cons a x ys (apart a i)).1;
      }

  -- Q_REMOVE takes an element out of the queue, wherever it stands, keeps the order of the others,
  -- clears the links of the element and changes no link outside of the queue.
  pub remove_lem :
      (xs ys : List Ptr)
      → IsQueue q l (xs ++ x ∷ ys)
      → let (q', l') = remove q x l in
        IsQueue q' l' (xs ++ ys)
        × (l'.next x ≡ null)
        × (l'.prev x ≡ null)
        × SameOutside (xs ++ x ∷ ys) l l'
  remove_lem xs ys is =
      let b = Between-of xs ys is in
      let (dx, dxy, _) = Distinct-cut xs (x ∷ ys) is.distinct in
      let (s, t) = cut l null xs (x ∷ ys) null is.chain in
      let p = prev_ne xs ys b in
      let n = next_ne xs ys b in
      (
        record {
          front = head-remove xs ys b is.front;
          back =
              tail-remove xs ys b (is.back ∙ last-append null xs (x ∷ ys))
              ∙ sym (last-append null xs ys);
          chain =
              append (remove q x l).1 null xs ys null (front-Seg xs ys b dx s)
                (back-Seg xs ys b dxy.1 t.3);
          distinct = Distinct-append xs ys dx dxy.1 b.apart;
        },
        next-remove_self q l x p n,
        prev-remove_self q l x p n,
        λ a o.
            let (o1, o2) = not-mem-append a xs (x ∷ ys) o in
            let (a_ne, o3) = not-mem-cons a x ys o2 in
            (
              next-remove_ne q l x p n a a_ne (prev_out xs ys b a o1),
              prev-remove_ne q l x p n a a_ne (next_out xs ys b a o3),
            ),
      )
