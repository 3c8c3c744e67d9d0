-- ===== src/Sync/Rwlock/Init.antt =====
-- kernel/rwlock.c: `rwlock_init` makes a lock that nobody has asked for yet.
use timix_next.Prelude.{
  ℕ, ◌≡◌, ◌≢◌, refl, ◌∙◌, [], ◌∷◌, Bool, false, Ptr, arith, Bool-cases, inl, inr, update,
  update_self, update_ne, ◌==◌,
}
use timix_next.Queue
use timix_next.Queue.View.{◌∈◌}
use timix_next.Sync.Mutex.{mutex_init}
use timix_next.Sync.Mutex
use timix_next.Sync.Kernel.{SchedOps, Cond, Kernel}
use timix_next.Sync.Cond.{cond_init}
use timix_next.Sync.Cond.Fifo
use timix_next.Sync.Rwlock.{unlocked, for_read, Rwlock, rwlock_init}
use timix_next.Sync.Rwlock.Model.{View}
use timix_next.Sync.Rwlock.Hold.{Mem, real, Stands}

abbrev empty_cond : Cond
empty_cond = record { waiting = Queue.init_head; q_lock = mutex_init }

both_empty :
    (f : Ptr → Cond) (r w c : Ptr)
    → c ∈ (r ∷ w ∷ [])
    → update (update f r empty_cond) w empty_cond c ≡ empty_cond
both_empty f r w c i = elim (Bool-cases (c == w)) [
  | inl here ↦
      let e : c ≡ w = ground (arith, here) in
      rw e (update_self (update f r empty_cond) w empty_cond)
  | inr there ↦
      let ne : c ≢ w = ground (arith, there) in
      let e : c ≡ r = ground (arith, i, there) in
      update_ne (update f r empty_cond) w empty_cond ne ∙ rw e (update_self f r empty_cond)
]

-- An empty condition variable shows that nobody waits.
empty-Shows :
    (o : SchedOps) (fuel : ℕ) (hard : Ptr → Bool) (c : Ptr) (s : Kernel o)
    → s.conds c ≡ empty_cond
    → ((t : Ptr) → (s.nodes t).lock.owner ≡ Mutex.unlocked)
    → Fifo.Shows o fuel c hard s ([], s.sched)
unfolding Queue.init_head mutex_init
empty-Shows o fuel hard c s e free = record {
  waits = record {
    queue = rw e (record { front = refl; back = refl; chain = tt; distinct = tt });
    own = λ a i. cc;
  };
  free = rw e refl;
  locks = free;
  marks = λ a i. cc;
  told = refl;
}

module _ (o : SchedOps) (fuel : ℕ) (hard : Ptr → Bool) (lk : Rwlock) (k : Kernel o) where
  -- A lock that nobody has asked for yet.
  abbrev pub fresh : View o fuel lk.readers lk.writers hard
  fresh = record {
    mode = unlocked;
    count = 0;
    queue = [];
    want = λ t. for_read;
    sleeping = λ c. [];
    hit = λ t. false;
    sched = k.sched;
  }

  abbrev pub memory : Mem o fuel lk.lock lk.readers lk.writers hard
  memory = record {
    head = Queue.init_head;
    entries = lk.entries;
    modes = lk.modes;
    kernel = (rwlock_init o (lk, k)).1.1;
  }

  pub init-real :
      (rwlock_init o (lk, k)).1 ≡ real o fuel lk.lock lk.readers lk.writers hard fresh memory
  unfolding rwlock_init
  init-real = refl

  pub init-Stands :
      ((t : Ptr) → (k.nodes t).lock.owner ≡ Mutex.unlocked)
      → Stands o fuel lk.lock lk.readers lk.writers hard fresh memory
  unfolding rwlock_init cond_init Queue.init_head mutex_init
  init-Stands free = record {
    inside = record {
      queue = record { front = refl; back = refl; chain = tt; distinct = tt };
      wants = λ a i. cc;
      conds = record {
        each = λ c i.
            empty-Shows o fuel hard c (rwlock_init o (lk, k)).1.1
              (both_empty k.conds lk.readers lk.writers c i) free;
        apart = λ c d a _ _ _ i. cc;
      };
    };
    marked = λ a i. cc;
    free = rw update_self refl;
  }
