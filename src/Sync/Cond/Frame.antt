-- ===== src/Sync/Cond/Frame.antt =====
-- kernel/cond.c: what the calls on one condition variable leave alone.
use timix_next.Prelude.{◌≡◌, ◌≢◌, List, Ptr}
use timix_next.Queue.View.{SameOutside, ◌∈◌, ◌∉◌, frame}
use timix_next.Sync.Kernel.{SchedOps, Kernel}
use timix_next.Sync.Cond.Wakeup.{Waits}

module _ (o : SchedOps) where
  -- From `s` to `s'` no other condition variable than `cv` changes, no links of a thread
  -- outside of `zs` and no entry of a thread outside of `ns`, which are some of them.
  pub record Frame (cv : Ptr) (zs ns : List Ptr) (s s' : Kernel o) : Type 0 where
    pub conds : (c : Ptr) → c ≢ cv → s'.conds c ≡ s.conds c
    pub links : SameOutside zs s.links s'.links
    pub nodes : (a : Ptr) → a ∉ ns → s'.nodes a ≡ s.nodes a
    pub within : (a : Ptr) → a ∉ zs → a ∉ ns

  -- The threads that wait on another condition variable go on waiting.
  pub Frame-Waits :
      (cv c : Ptr) (zs ns us : List Ptr) (s s' : Kernel o)
      → Frame cv zs ns s s'
      → c ≢ cv
      → ((a : Ptr) → a ∈ us → a ∉ zs)
      → Waits o c s us
      → Waits o c s' us
  Frame-Waits cv c zs ns us s s' f ne apart w = record {
    queue = rw (f.conds c ne) (record {
      front = w.queue.front;
      back = w.queue.back;
      chain = frame _ us _ w.queue.chain (λ a i. f.links a (apart a i));
      distinct = w.queue.distinct;
    });
    own = λ a i. rw (f.nodes a (f.within a (apart a i))) (w.own a i);
  }
