-- ===== src/Console/Ready.antt =====
-- The console over the semaphores of kernel/sem.c: the promises of Console/Locks kept.
use timix_next.Prelude.{
  ℕ, ◌≡◌, refl, sym, ◌∙◌, ap, false, List, [], ◌∷◌, arith, inl, inr, Bool-cases, ◌==◌,
  if◌then◌else◌,
}
use timix_next.Prelude.Int.{pos, ◌+ℤ◌}
use timix_next.Sync.Kernel.{SchedOps, Kernel}
use timix_next.Sync.Sem.{Sem}
use timix_next.Console.Config.{Config}
use timix_next.Console.Driver.{SemName}
use timix_next.Console.Locks.{code, same, Apart, Known, IsSem, NeverInterrupted}
use timix_next.Console.Sems.{
  Sems, store, sems, Quiet, passed, sem_wait_unit, Quiet-passed, Quiet-signal,
}

-- How many units the semaphore of this number has left while `ks` are taken.
abbrev pub units : ℕ → List SemName → ℕ
units a [] = 1
units a (j ∷ ks) = if a == code j then 0 else units a ks

pub units-Apart : (k : SemName) (ks : List SemName) → Apart k ks → units (code k) ks ≡ 1
units-Apart k [] h = refl
units-Apart k (j ∷ ks) (ne, h) = rw ne (units-Apart k ks h)

pub one_more : pos 0 +ℤ pos 1 ≡ pos 1
unfolding ◌+ℤ◌
one_more = refl

module _ (so : SchedOps) where
  -- No semaphore of the console has a thread waiting, and those but for `ks` have their unit.
  pub record Ready (c : Config) (ks : List SemName) (s : Sems so) : Type 0 where
    pub quiet : (k : SemName) → Known c k → Quiet so (s.table k) s.kernel
    pub left : (k : SemName) → Known c k → (s.table k).sem_count ≡ pos (units (code k) ks)

  -- A call on `k` that leaves all semaphores quiet and `n` units in this one
  pub Ready-store :
      (c : Config) (k : SemName) (ks ks' : List SemName) (s : Sems so) (kern : Kernel so) (n : ℕ)
      → Known c k
      → Ready c ks s
      → ((sem : Sem) → Quiet so sem s.kernel → Quiet so sem kern)
      → n ≡ units (code k) ks'
      → ((a : ℕ) → (a == code k) ≡ false → units a ks' ≡ units a ks)
      → Ready c ks' (store so k (record (s.table k) { sem_count = pos n }) kern s)
  Ready-store c k ks ks' s kern n known r after e others = record {
    quiet = λ j kj. elim (Bool-cases (same j k)) [
      | inl here ↦
          let q = after (s.table k) (r.quiet k known) in
          rw here (record { lock = q.lock; waits = q.waits; free = q.free })
      | inr away ↦ rw away (after (s.table j) (r.quiet j kj))
    ];
    left = λ j kj. elim (Bool-cases (same j k)) [
      | inl here ↦
          let ej : code j ≡ code k = ground (arith, here) in
          rw here (ap pos (e ∙ ap (λ a. units a ks') (sym ej)))
      | inr away ↦ rw away (r.left j kj ∙ ap pos (sym (others (code j) away)))
    ];
  }

  -- The semaphores of kernel/sem.c, as a thread meets them whom nobody disturbs.
  abbrev pub kernel_sem : (c : Config) → IsSem c (sems so)
  kernel_sem c = record {
    Holds = Ready c;
    acquire = λ k ks s known apart r.
        let one : (s.table k).sem_count ≡ pos 1 =
          r.left k known ∙ ap pos (units-Apart k ks apart) in
        let kern = passed so (s.table k).sem_lock s.kernel in
        (
          pos 0,
          store so k (record (s.table k) { sem_count = pos 0 }) kern s,
          rw (sem_wait_unit so s.current (s.table k) s.kernel one (r.quiet k known).lock) refl,
          inl (
            refl,
            Ready-store c k ks (k ∷ ks) s kern 0 known r
                (λ sem q. Quiet-passed so (s.table k).sem_lock sem s.kernel q) (ground arith)
                (λ a ne. rw ne refl),
          ),
        );
    release = λ k ks s known apart r.
        let none : (s.table k).sem_count ≡ pos 0 = r.left k known ∙ ap pos (ground arith) in
        let (kern, ran, after) = Quiet-signal so (s.table k) s.kernel (r.quiet k known) in
        (
          store so k (record (s.table k) { sem_count = pos 1 }) kern s,
          rw (ran, none, one_more) refl,
          Ready-store c k (k ∷ ks) ks s kern 1 known r after (sym (units-Apart k ks apart))
              (λ a ne. rw ne refl),
        );
  }

  pub kernel_sem-calm : (c : Config) → NeverInterrupted c (sems so) (kernel_sem c)
  kernel_sem-calm c k ks s s' ret known apart r e =
      let (zero_ret, t, ran, _) = (kernel_sem c).acquire k ks s known apart r in cc
