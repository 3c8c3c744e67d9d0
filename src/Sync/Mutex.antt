-- ===== src/Sync/Mutex.antt =====
-- kernel/mutex.c and include/timix/mutex.h, over the compare and swap of arch/x86/kernel/atomic.S.
-- A mutex is its `owner` word; `NULL` is unlocked, and the code writes 1 to lock.
use timix_next.Prelude.{ℕ, Bool, not, ◌==◌, if◌then◌else◌}
use timix_next.Prelude.Run.{Run, done, spin, assert}

-- `struct mutex`
pub record Mutex : Type 0 where
  pub owner : ℕ

abbrev pub unlocked : ℕ
unlocked = 0

-- MUTEX_GOT_IT and MUTEX_DONT_GOT_IT
abbrev pub got_it : ℕ
got_it = 1

abbrev pub dont_got_it : ℕ
dont_got_it = 0

-- XCHG_SUCCESS
abbrev pub xchg_success : ℕ
xchg_success = 0

-- The return value, and what the memory holds then.
unfoldable pub atomic_swap_conditional : (mem newval oldval : ℕ) → ℕ × ℕ
atomic_swap_conditional mem newval oldval =
    if mem == oldval then (xchg_success, newval) else (1, mem)

-- For a mutex that is not `NULL`; for `NULL` the assertion fails.
unfoldable pub mutex_init : Mutex
mutex_init = record { owner = unlocked }

unfoldable pub mutex_destroy : Mutex → Run (Unit {0})
unfolding assert
mutex_destroy mp = assert (mp.owner == unlocked)

unfoldable pub mutex_trylock : Mutex → ℕ × Mutex
unfolding atomic_swap_conditional
mutex_trylock mp =
    let (swap, owner) = atomic_swap_conditional mp.owner 1 unlocked in
    if swap == xchg_success
    then (got_it, record { owner = owner })
    else (dont_got_it, record { owner = owner })

-- `mutex_lock` while no other thread runs: the mutex does not change between the rounds, so the
-- first one decides.
unfoldable pub mutex_lock : Mutex → Run Mutex
unfolding mutex_trylock
mutex_lock mp = let (got, mp') = mutex_trylock mp in if got == dont_got_it then spin else done mp'

unfoldable pub mutex_unlock : Mutex → Mutex
mutex_unlock mp = record mp { owner = unlocked }

unfoldable pub mutex_is_locked : Mutex → Bool
mutex_is_locked mp = not (mp.owner == unlocked)
