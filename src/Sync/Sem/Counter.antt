-- ===== src/Sync/Sem/Counter.antt =====
-- kernel/sem.c as an abstract counter with a queue of threads.
use timix_next.Prelude.{
  ℕ, zero, suc, ◌≡◌, ◌≢◌, ◌⊎◌, List, [], ◌∷◌, ◌++◌, Bool, false, Ptr, null, length,
}
use timix_next.Prelude.Int.{ℤ, pos, negsuc}
use timix_next.Prelude.Run.{Run, done, ◌>>=◌}
use timix_next.Queue.View.{◌∉◌}
use timix_next.Sync.Kernel.{SchedOps}
use timix_next.Sync.Free.{MutexFree}
use timix_next.Sync.Cond.Block.{blocked}
use timix_next.Sync.Cond.{Sleep, returned, asleep}
use timix_next.Sync.Cond.Fifo.{Shows}
use timix_next.Sync.Sem.{S, sem_wait, sem_signal}

-- A thread waits for the semaphore, or somebody signals it.
pub data Call : Type 0 where
  down : Ptr → Call
  up : Call

-- With units left nobody waits; with nobody waiting the count is what is left, and otherwise the
-- number of those who wait, negated.
abbrev pub count : ℕ → List Ptr → ℤ
count n [] = pos n
count n (t ∷ ts) = negsuc (length ts)

module _ (o : SchedOps) where
  -- What a call answers is its return value, or that the thread sleeps; where the function returns
  -- nothing it stands for 0.
  unfoldable pub exec : Call → S o → Run (Sleep × S o)
  exec (down t) s = sem_wait o t s
  exec up s = sem_signal o s >>= λ s'. done (returned (pos 0), s')

  -- The answers of the calls, and the state in the end
  unfoldable pub exec_all : List Call → S o → Run (List Sleep × S o)
  unfolding exec
  exec_all [] s = done ([], s)
  exec_all (c ∷ cs) s =
      exec c s >>= λ (ret, s1). exec_all cs s1 >>= λ (rets, s2). done (ret ∷ rets, s2)

  -- The units left, the threads that wait, the one that came first in front, and the scheduler.
  abbrev pub View : Type 0
  View = ℕ × List Ptr × o.State

  abbrev pub spec : Call → View → View
  spec (down t) (zero, ts, p) = (0, ts ++ t ∷ [], blocked o t false p)
  spec (down t) (suc n, ts, p) = (n, ts, p)
  spec up (n, [], p) = (suc n, [], p)
  spec up (n, t ∷ ts, p) = (n, ts, o.unblock_tcb t p)

  -- A wait is answered 0 while units are left, and sleeps else.
  abbrev pub answer : Call → View → Sleep
  answer (down t) (zero, ts, p) = asleep
  answer (down t) (suc n, ts, p) = returned (pos 0)
  answer up v = returned (pos 0)

  abbrev pub answers : List Call → View → List Sleep
  answers [] v = []
  answers (c ∷ cs) v = answer c v ∷ answers cs (spec c v)

  abbrev pub spec_all : List Call → View → View
  spec_all [] v = v
  spec_all (c ∷ cs) v = spec_all cs (spec c v)

  abbrev pub Allowed : Call → View → Type 0
  Allowed (down t) (n, ts, p) = (t ≢ null) × (t ∉ ts)
  Allowed up v = Unit

  abbrev pub AllAllowed : List Call → View → Type 0
  AllAllowed [] v = Unit
  AllAllowed (c ∷ cs) v = Allowed c v × AllAllowed cs (spec c v)

  abbrev pub soft : Ptr → Bool
  soft = λ t. false

  -- The semaphore `sem` and the kernel `k` stand for the view.
  pub record Stands (s : S o) (v : View) : Type 0 where
    pub value : s.0.sem_count ≡ count v.0 v.1
    pub even : (v.0 ≡ 0) ⊎ (v.1 ≡ [])
    pub lock : MutexFree o s.0.sem_lock s.1
    pub queue : Shows o 0 s.0.sem_signal soft s.1 (v.1, v.2)

  abbrev pub Ends : Call → S o → View → Type 0
  Ends c s v = (s' : S o) × (exec c s ≡ done (answer c v, s')) × Stands s' (spec c v)
