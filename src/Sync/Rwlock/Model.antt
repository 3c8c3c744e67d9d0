-- ===== src/Sync/Rwlock/Model.antt =====
-- kernel/rwlock.c as an abstract lock: who waits, who sleeps, and what each call does and answers.
use timix_next.Prelude.{
  ℕ, suc, ◌+◌, ◌-◌, ◌<◌, ◌≡◌, ◌≢◌, List, [], ◌∷◌, ◌++◌, Bool, true, false, not, ◌&&◌, Ptr, null,
  length, update, ltb, ◌==◌, if◌then◌else◌,
}
use timix_next.Prelude.Int.{pos}
use timix_next.Prelude.Run.{Run, done, ◌>>=◌}
use timix_next.Prelude.Errno.{minus_eintr, minus_einval}
use timix_next.Queue.View.{◌∈◌, ◌∉◌}
use timix_next.Queue.Refine.{without}
use timix_next.Sync.Kernel.{SchedOps}
use timix_next.Sync.Cond.{Sleep, returned, asleep, cond_interrupt}
use timix_next.Sync.Cond.Wakeup.{unblock_all}
use timix_next.Sync.Cond.Signal.{oldest, others}
use timix_next.Sync.Cond.Block.{blocked}
use timix_next.Sync.Cond.Family.{Awake}
use timix_next.Sync.Rwlock.{
  Mode, unlocked, read, write, is_unlocked, is_write, Access, for_read, for_write, mode_of, S,
  lock_start, lock_resume, rwlock_unlock, rwlock_downgrade,
}

-- A thread asks for the lock, or goes on after it was woken; a holder gives the lock back, or keeps
-- it for reading only; somebody interrupts a thread.
pub data Call : Type 0 where
  lock resume : Ptr → Access → Call
  unlock downgrade : Call
  interrupt : Ptr → Call

module _ (o : SchedOps) (fuel : ℕ) (readers writers : Ptr) (hard : Ptr → Bool) where
  -- `hard` says which threads lock uninterruptably. What a call answers is its return value, or that
  -- the thread sleeps; where the function returns nothing it stands for 0.
  unfoldable pub exec : Call → S o → Run (Sleep × S o)
  exec (lock t a) s = lock_start o fuel t a (hard t) s
  exec (resume t a) s = lock_resume o fuel t a (hard t) s
  exec unlock s = rwlock_unlock o fuel s >>= λ s'. done (returned (pos 0), s')
  exec downgrade s = rwlock_downgrade o fuel s >>= λ s'. done (returned (pos 0), s')
  exec (interrupt t) (lk, k) =
      cond_interrupt o fuel t k >>= λ (ret, k'). done (returned ret, (lk, k'))

  unfoldable pub exec_all : List Call → S o → Run (List Sleep × S o)
  unfolding exec
  exec_all [] s = done ([], s)
  exec_all (c ∷ cs) s =
      exec c s >>= λ (ret, s1). exec_all cs s1 >>= λ (rets, s2). done (ret ∷ rets, s2)

  -- `queue` are the threads between their call and its return, the latest first, and `want` what
  -- they ask for; `sleeping` those of them that sleep on a condition variable, the first one first;
  -- `hit` those that have been interrupted.
  pub record View : Type 0 where
    pub mode : Mode
    pub count : ℕ
    pub queue : List Ptr
    pub want : Ptr → Access
    pub sleeping : Ptr → List Ptr
    pub hit : Ptr → Bool
    pub sched : o.State

  abbrev pub cond_of : Access → Ptr
  cond_of for_read = readers
  cond_of for_write = writers

  abbrev pub enter : Access → View → View
  enter a v = record v { mode = mode_of a; count = suc v.count }

  abbrev pub leave : Ptr → View → View
  leave t v = record v { queue = without t v.queue }

  abbrev pub enqueue : Ptr → Access → View → View
  enqueue t a v = record v { queue = t ∷ v.queue; want = update v.want t a }

  abbrev pub doze : Ptr → Access → View → View
  doze t a v = record v {
    sleeping = update v.sleeping (cond_of a) (v.sleeping (cond_of a) ++ t ∷ []);
    sched = blocked o t (hard t) v.sched;
    hit = update v.hit t false;
  }

  -- A reader is kept out in write mode, a writer while anybody holds the lock.
  abbrev pub held_off : Access → View → Bool
  held_off for_read v = is_write v.mode
  held_off for_write v = not (v.count == 0)

  abbrev pub try : Ptr → Access → View → Sleep × View
  try t a v = if held_off a v then (asleep, doze t a v) else (returned (pos 0), enter a (leave t v))

  -- A reader does not look at the mode when nobody is queued.
  abbrev pub unasked : Access → List Ptr → Bool
  unasked for_read [] = true
  unasked for_read (t ∷ ts) = false
  unasked for_write ts = false

  abbrev pub wake_readers : View → View
  wake_readers v = record v {
    mode = read;
    sleeping = update v.sleeping readers [];
    sched = unblock_all o (v.sleeping readers) v.sched;
  }

  abbrev pub wake_writer : View → View
  wake_writer v = record v {
    mode = write;
    sleeping = update v.sleeping writers (others o (v.sleeping writers));
    sched = unblock_all o (oldest o (v.sleeping writers)) v.sched;
  }

  abbrev pub wake : Access → View → View
  wake for_read v = wake_readers v
  wake for_write v = wake_writer v

  -- The last holder hands the lock over to the kind of access that was asked for last.
  abbrev pub hand_over : List Ptr → View → View
  hand_over [] v = record v { mode = unlocked }
  hand_over (t ∷ ts) v = wake (v.want t) v

  abbrev pub spec : Call → View → Sleep × View
  spec (lock t a) v =
      if (v.count == 0) && is_unlocked v.mode
      then (returned (pos 0), enter a v)
      else if unasked a v.queue
      then (returned (pos 0), enter a v)
      else try t a (enqueue t a v)
  spec (resume t a) v = if v.hit t then (returned minus_eintr, leave t v) else try t a v
  spec unlock v =
      let left = record v { count = v.count - 1 } in
      (returned (pos 0), if ltb 1 v.count then left else hand_over v.queue left)
  spec downgrade v = (returned (pos 0), wake_readers v)
  spec (interrupt t) v = if hard t then (returned minus_einval, v) else (
    returned (pos 0),
    record v {
      sleeping = λ c. without t (v.sleeping c);
      sched = o.unblock_tcb t v.sched;
      hit = update v.hit t true;
    },
  )

  abbrev pub spec_all : List Call → View → List Sleep × View
  spec_all [] v = ([], v)
  spec_all (c ∷ cs) v =
      let (ret, v1) = spec c v in let (rets, v2) = spec_all cs v1 in (ret ∷ rets, v2)

  abbrev pub cvs : List Ptr
  cvs = readers ∷ writers ∷ []

  -- Nobody asks twice, only a woken thread goes on, and only a holder gives the lock back. The fuel
  -- is more than the threads in the queue that is walked.
  abbrev pub Allowed : Call → View → Type 0
  Allowed (lock t a) v =
      (t ≢ null) × (t ∉ v.queue) × Awake o fuel cvs hard t v.sleeping × (length v.queue + 1 < fuel)
  Allowed (resume t a) v =
      (t ≢ null)
      × (t ∈ v.queue)
      × Awake o fuel cvs hard t v.sleeping
      × (v.want t ≡ a)
      × (length v.queue < fuel)
  Allowed unlock v = (0 < v.count) × (length (v.sleeping readers) < fuel)
  Allowed downgrade v = (v.mode ≡ write) × (v.count ≡ 1) × (length (v.sleeping readers) < fuel)
  Allowed (interrupt t) v =
      (c : Ptr) × (c ∈ cvs) × (t ∈ v.sleeping c) × (length (v.sleeping c) < fuel)

  abbrev pub AllAllowed : List Call → View → Type 0
  AllAllowed [] v = Unit
  AllAllowed (c ∷ cs) v = Allowed c v × AllAllowed cs (spec c v).1
