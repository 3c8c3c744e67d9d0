-- ===== src/Sync/Exclusion.antt =====
-- kernel/mutex.c: `mutex_trylock` and `mutex_unlock` of many threads, interleaved.
use timix_next.Prelude.{
  ℕ, ◌≡◌, refl, Bool, true, false, arith, update, ◌==◌, if◌then◌else◌, Bool-cases, ◌⊎◌, inl, inr,
}
use timix_next.Sync.Mutex.{
  Mutex, unlocked, got_it, mutex_init, mutex_trylock, mutex_unlock, atomic_swap_conditional,
}

-- A mutex, and the threads that have got it and not given it back.
pub record World : Type 0 where
  pub mutex : Mutex
  pub holds : ℕ → Bool

abbrev pub start : World
unfolding mutex_init
start = record { mutex = mutex_init; holds = λ t. false }

-- `t` runs `mutex_trylock`, once or as a round of `mutex_lock`.
abbrev pub try : ℕ → World → World
try t w =
    let (got, mutex) = mutex_trylock w.mutex in
    record { mutex = mutex; holds = if got == got_it then update w.holds t true else w.holds }

abbrev pub release : ℕ → World → World
release t w = record { mutex = mutex_unlock w.mutex; holds = update w.holds t false }

-- What any number of threads can come to, when only one that holds the mutex gives it back.
pub data Reachable : World → Type 0 where
  at_start : Reachable start
  tried : (t : ℕ) (w : World) → Reachable w → Reachable (try t w)
  released : (t : ℕ) (w : World) → w.holds t ≡ true → Reachable w → Reachable (release t w)

-- At most one thread holds the mutex, none holds an unlocked one, and somebody holds a locked one.
abbrev pub Exclusive : World → Type 0
Exclusive w =
    ((a b : ℕ) → w.holds a ≡ true → w.holds b ≡ true → a ≡ b)
    × ((a : ℕ) → w.mutex.owner ≡ unlocked → w.holds a ≡ false)
    × ((w.mutex.owner ≡ unlocked) ⊎ ((a : ℕ) × (w.holds a ≡ true)))

try-Exclusive : (t : ℕ) (w : World) → Exclusive w → Exclusive (try t w)
unfolding mutex_trylock atomic_swap_conditional update
try-Exclusive t w (one, none_when_free, some_when_taken) =
    elim (Bool-cases (w.mutex.owner == unlocked)) [
      | inl free ↦ (
        (λ a b ha hb. ground (arith, free, ha, hb, none_when_free a, none_when_free b)),
        (λ a e. ground (arith, free, e)),
        inr (t, ground (arith, free)),
      )
      | inr taken ↦ ground (arith, taken, one, none_when_free, some_when_taken)
    ]

release-Exclusive : (t : ℕ) (w : World) → w.holds t ≡ true → Exclusive w → Exclusive (release t w)
unfolding mutex_unlock update
release-Exclusive t w mine (one, none_when_free, some_when_taken) = (
  (λ a b ha hb. ground (arith, ha, hb, mine, one a t, one b t)),
  (λ a e. elim (Bool-cases (w.holds a)) [
    | inl held ↦ ground (arith, one a t held mine)
    | inr free ↦ ground (arith, free)
  ]),
  inl refl,
)

start-Exclusive : Exclusive start
unfolding start mutex_init
start-Exclusive = ((λ a b ha hb. ground (arith, ha)), (λ a e. refl), inl refl)

-- However the threads' attempts and releases are interleaved, no two threads hold the mutex at a
-- time; nobody does when its word says unlocked, and somebody does when it does not.
pub Reachable-Exclusive : (w : World) → Reachable w → Exclusive w
Reachable-Exclusive _ at_start = start-Exclusive
Reachable-Exclusive _ (tried t w r) = try-Exclusive t w (Reachable-Exclusive w r)
Reachable-Exclusive _ (released t w mine r) = release-Exclusive t w mine (Reachable-Exclusive w r)
