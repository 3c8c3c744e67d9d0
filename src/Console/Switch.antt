-- ===== src/Console/Switch.antt =====
-- `scr_set_screen` of text_console.c: which numbers it takes, and the round trip between screens.
use timix_next.Prelude.{
  ℕ, ◌*◌, ◌<◌, ◌≡◌, ◌≢◌, refl, sym, ◌∙◌, false, List, [], ◌∷◌, arith, update, update_self,
  update_ne, lt→ltb,
}
use mathlib.Core.Path.{subst}
use timix_next.Prelude.Int.{pos, negsuc, eqb_ℤ, ltb_ℤ}
use timix_next.Prelude.Run.{done, fault}
use timix_next.Prelude.Errno.{minus_einval}
use timix_next.Console.Config.{Config, Memcpy, IsMemcpy}
use timix_next.Console.Screen.{Screen}
use timix_next.Console.Driver.{
  SemOps, SemName, cons_buffer_lock, Driver, copy_screen, exchange, must_wait, screen_at,
  switch_screen, scr_set_screen, signal_sem, load_screen, save_screen, cursor_sync,
}
use timix_next.Console.Locks.{same, IsSem, Known, Apart, NeverInterrupted, take}

module _ (c : Config) (m : Memcpy) (o : SemOps) where
  open c use {width, height, screen_count}

  -- `t` shows the characters, the cursor and the color of `s`.
  pub record Shows (s t : Screen) : Type 0 where
    pub cells : (i : ℕ) → i < width * height → t.cons_buf i ≡ s.cons_buf i
    pub column : t.cons_cur_x ≡ s.cons_cur_x
    pub line : t.cons_cur_y ≡ s.cons_cur_y
    pub state : t.cons_cur_state ≡ s.cons_cur_state
    pub color : t.cons_cur_color ≡ s.cons_cur_color

  copy-Shows : IsMemcpy m → (s t : Screen) → Shows s (copy_screen c m o t s)
  unfolding copy_screen
  copy-Shows ok s t = record {
    cells = λ i h. ok.between_copies t.cons_buf s.cons_buf (width * height) i h;
    column = refl;
    line = refl;
    state = refl;
    color = refl;
  }

  Shows-trans : {s t u : Screen} → Shows s t → Shows t u → Shows s u
  Shows-trans a b = record {
    cells = λ i h. b.cells i h ∙ a.cells i h;
    column = b.column ∙ a.column;
    line = b.line ∙ a.line;
    state = b.state ∙ a.state;
    color = b.color ∙ a.color;
  }

  -- What a successful switch from `d` to screen `n` leaves in `e`.
  pub record Switched (n : ℕ) (d e : Driver c m o) : Type 0 where
    pub current : e.screen_idx ≡ n
    pub loaded : Shows (d.screens n) e.console
    pub saved : Shows d.console (e.screens d.screen_idx)
    pub others : (k : ℕ) → k ≢ d.screen_idx → e.screens k ≡ d.screens k

  exchange-Switched :
      (n : ℕ) (d : Driver c m o) → IsMemcpy m → n ≢ d.screen_idx → Switched n d (exchange c m o n d)
  unfolding exchange
  exchange-Switched n d ok ne = record {
    current = refl;
    loaded = loaded;
    saved = rw update_self (copy-Shows ok d.console (d.screens d.screen_idx));
    others = λ k h. update_ne _ _ _ h;
  }
    where
      saved : ℕ → Screen
      saved = update d.screens d.screen_idx (copy_screen c m o (d.screens d.screen_idx) d.console)

      loaded : Shows (d.screens n) (copy_screen c m o d.console (saved n))
      loaded =
          subst (λ s. Shows s (copy_screen c m o d.console (saved n)))
            (update_ne d.screens d.screen_idx (copy_screen c m o (d.screens d.screen_idx) d.console)
              ne)
            (copy-Shows ok (saved n) d.console)

  -- `assert(sem_wait(sem) == 0)` for a semaphore that nobody holds.
  must_wait-Holds :
      (k : SemName) (ks : List SemName) (d : Driver c m o) (sem : IsSem c o)
      → NeverInterrupted c o sem
      → Known c k
      → Apart k ks
      → sem.Holds ks d.locks
      → (l : o.State) × (must_wait c m o k d ≡ done (record d { locks = l })) × sem.Holds (k ∷ ks) l
  unfolding must_wait
  must_wait-Holds k ks d sem calm known apart h =
      let (l, ran, h1) = take c o sem k ks d.locks calm known apart h in (l, rw ran refl, h1)

  pub set_screen-Switched :
      (n : ℕ) (d : Driver c m o) (sem : IsSem c o)
      → sem.Holds [] d.locks
      → NeverInterrupted c o sem
      → IsMemcpy m
      → n < screen_count
      → d.screen_idx < screen_count
      → n ≢ d.screen_idx
      → (e : Driver c m o) × (scr_set_screen c m o (pos n) d ≡ done (pos 0, e))
        × Switched n d e
        × sem.Holds [] e.locks
  unfolding scr_set_screen screen_at switch_screen signal_sem exchange load_screen cursor_sync
      save_screen
  set_screen-Switched n d sem h calm ok lt lt' ne =
      let old = cons_buffer_lock d.screen_idx in
      let new = cons_buffer_lock n in
      let apart : same old new ≡ false = ground arith in
      let (l1, w1, h1) = must_wait-Holds new [] d sem calm lt tt h in
      let (l2, w2, h2) =
        must_wait-Holds old (new ∷ []) (record d { locks = l1 }) sem calm lt' (apart, tt) h1 in
      let d3 = exchange c m o n (record d { locks = l2 }) in
      let (l3, s1, h3) = sem.release old (new ∷ []) l2 lt' (apart, tt) h2 in
      let (l4, s2, h4) = sem.release new [] l3 lt tt h3 in
      let switched = exchange-Switched n (record d { locks = l2 }) ok ne in
      let low : ltb_ℤ (pos screen_count) (pos n) ≡ false = ground arith in
      let other : eqb_ℤ (pos n) (pos d.screen_idx) ≡ false = ground arith in
      (
        record d3 { locks = l4 },
        rw (low, other, lt→ltb n screen_count lt, w1, w2, s1, s2) refl,
        record {
          current = switched.current;
          loaded = switched.loaded;
          saved = switched.saved;
          others = switched.others;
        },
        h4,
      )

  -- When nobody holds a semaphore, no wait is interrupted and `memcpy` copies, `scr_set_screen` to
  -- another screen and back returns 0 both times and leaves no semaphore held; in between the
  -- console shows the other screen, in the end it shows what it showed at the start, and no third
  -- screen changes.
  pub scr_set_screen_back :
      (n : ℕ) (d : Driver c m o) (sem : IsSem c o)
      → sem.Holds [] d.locks
      → NeverInterrupted c o sem
      → IsMemcpy m
      → n < screen_count
      → d.screen_idx < screen_count
      → n ≢ d.screen_idx
      → (e f : Driver c m o) × (scr_set_screen c m o (pos n) d ≡ done (pos 0, e))
        × (scr_set_screen c m o (pos d.screen_idx) e ≡ done (pos 0, f))
        × sem.Holds [] f.locks
        × Shows (d.screens n) e.console
        × Shows d.console f.console
        × ((k : ℕ) → k ≢ n → k ≢ d.screen_idx → f.screens k ≡ d.screens k)
  scr_set_screen_back n d sem h calm ok lt lt' ne =
      let (e, ran, there, h1) = set_screen-Switched n d sem h calm ok lt lt' ne in
      let (f, ran', back, h2) =
        set_screen-Switched d.screen_idx e sem h1 calm ok lt' (rw there.current lt)
          (λ h. ne (sym (h ∙ there.current))) in
      (
        e,
        f,
        ran,
        ran',
        h2,
        there.loaded,
        Shows-trans there.saved back.loaded,
        λ k kn ko. back.others k (λ h. kn (h ∙ there.current)) ∙ there.others k ko,
      )

  -- `scr_set_screen` refuses numbers above the number of screens and changes nothing; asked for the
  -- current screen it does nothing; for the number of screens itself, and for negative numbers, it
  -- passes its tests and reaches outside of the array of screens.
  pub scr_set_screen_bounds :
      (d : Driver c m o)
      → d.screen_idx < screen_count
      → ((n : ℕ) → screen_count < n → scr_set_screen c m o (pos n) d ≡ done (minus_einval, d))
        × (scr_set_screen c m o (pos d.screen_idx) d ≡ done (pos 0, d))
        × (scr_set_screen c m o (pos screen_count) d ≡ fault)
        × ((n : ℕ) → scr_set_screen c m o (negsuc n) d ≡ fault)
  unfolding scr_set_screen screen_at
  scr_set_screen_bounds d lt = (λ n h. ground arith, ground arith, ground arith, λ n. ground arith)
