-- ===== src/Queue/Memory.antt =====
-- The data of variable_queue.h: a queue head, and the links of the elements. An element is its
-- address; one value of `Links` holds the links of every structure that uses one `LINK_NAME`.
use timix_next.Prelude.{Ptr, update}

-- Q_NEW_HEAD
pub record Head : Type 0 where
  pub head : Ptr
  pub tail : Ptr
  pub ptr : Ptr

-- Q_NEW_LINK, for each element
pub record Links : Type 0 where
  pub next : Ptr → Ptr
  pub prev : Ptr → Ptr

-- `p->LINK_NAME.next = q`
abbrev pub set_next : Ptr → Ptr → Links → Links
set_next p q l = record l { next = update l.next p q }

-- `p->LINK_NAME.prev = q`
abbrev pub set_prev : Ptr → Ptr → Links → Links
set_prev p q l = record l { prev = update l.prev p q }
