-- ===== src/Console/Driver.antt =====
-- drivers/text_console.c, the driver's state and the functions that other code calls. Semaphores
-- come through an interface; the calling thread's `screen` is an argument `n`.
use timix_next.Prelude.{ℕ, ◌+◌, ◌-◌, ◌*◌, ◌/◌, ◌%◌, List, [], ◌∷◌, ◌++◌, update, ltb, if◌then◌else◌}
use timix_next.Prelude.Int.{ℤ, pos, negsuc, pos_part, neg_part, sub_ℕ, ltb_ℤ, eqb_ℤ}
use timix_next.Prelude.Run.{Run, done, fault, ◌>>=◌, ◌>>◌, assert}
use timix_next.Prelude.Errno.{minus_einval}
use timix_next.Console.Config.{Config, Cells, Memcpy}
use timix_next.Console.Screen.{Screen, visible, is_hidden}

-- The semaphores of the driver: two for the console, two for each screen.
pub data SemName : Type 0 where
  console_lock console_buffer_lock : SemName
  cons_lock cons_buffer_lock : ℕ → SemName

-- include/timix/sem.h, as the driver sees it. `wait` is `sem_wait` with its return value; where
-- the thread would sleep and nobody else runs, it does not come back.
pub record SemOps : Type 1 where
  pub State : Type 0
  pub init : SemName → ℕ → State → State
  pub wait : SemName → State → Run (ℤ × State)
  pub signal : SemName → State → Run State

-- Which buffer `scr_lock_thread_screen` returns; `nothing` is `NULL`.
pub data Target : Type 0 where
  on_console : Target
  on_screen : ℕ → Target
  nothing : Target

module _ (c : Config) (m : Memcpy) (o : SemOps) where
  open c use {width, height, screen_count, start_color}

  -- The static variables of the file, and the bytes written to the ports, oldest first.
  pub record Driver : Type 0 where
    pub console : Screen
    pub screens : ℕ → Screen
    pub screen_idx : ℕ
    pub locks : o.State
    pub ports : List (ℕ × ℕ)

  abbrev start_screen : Cells → Screen
  start_screen buf = record {
    cons_buf = buf;
    cons_cur_x = pos 0;
    cons_cur_y = pos 0;
    cons_cur_state = visible;
    cons_cur_color = start_color;
  }

  -- One round of the loop of `console_init`.
  unfoldable pub init_screen : ℕ → Driver → Driver
  init_screen i d = record d {
    screens = update d.screens i (start_screen (d.screens i).cons_buf);
    locks = o.init (cons_buffer_lock i) 1 (o.init (cons_lock i) 1 d.locks);
  }

  unfoldable pub init_screens : (n start : ℕ) → Driver → Driver
  unfolding init_screen
  init_screens ℕ.zero i d = d
  init_screens (ℕ.suc n) i d = init_screens n (i + 1) (init_screen i d)

  unfoldable pub console_init : Driver → Driver
  unfolding init_screens
  console_init d =
      init_screens screen_count 0
        (record d { locks = o.init console_buffer_lock 1 (o.init console_lock 1 d.locks) })

  -- GET_LSB and GET_MSB of an `int`
  unfoldable pub get_lsb : ℤ → ℕ
  get_lsb (pos i) = i % 256
  get_lsb (negsuc i) = 255 - i % 256

  unfoldable pub get_msb : ℤ → ℕ
  get_msb (pos i) = i / 256 % 256
  get_msb (negsuc i) = 255 - i / 256 % 256

  -- `idx` of `cursor_sync`
  unfoldable pub cursor_idx : Screen → ℤ
  cursor_idx s =
      if is_hidden s.cons_cur_state
      then pos (height * width + width)
      else sub_ℕ (pos_part s.cons_cur_y * width + pos_part s.cons_cur_x)
          (neg_part s.cons_cur_y * width + neg_part s.cons_cur_x)

  unfoldable pub cursor_sync : Driver → Driver
  unfolding cursor_idx get_lsb get_msb
  cursor_sync d =
      let idx = cursor_idx d.console in
      record d {
        ports =
            d.ports
            ++ ((c.crtc_idx_reg, c.cursor_lsb_idx)
                ∷ (c.crtc_data_reg, get_lsb idx)
                ∷ (c.crtc_idx_reg, c.cursor_msb_idx)
                ∷ (c.crtc_data_reg, get_msb idx)
                ∷ []);
      }

  -- `*to = *from` for the cursor, the color and CONSOLE_MEM_RANGE bytes of characters
  unfoldable pub copy_screen : (to from : Screen) → Screen
  copy_screen to from = record from {
    cons_buf = m.between to.cons_buf from.cons_buf (width * height);
  }

  unfoldable pub save_screen : Driver → Driver
  unfolding copy_screen
  save_screen d = record d {
    screens = update d.screens d.screen_idx (copy_screen (d.screens d.screen_idx) d.console);
  }

  unfoldable pub load_screen : ℕ → Driver → Driver
  unfolding copy_screen cursor_sync
  load_screen id d = cursor_sync (record d { console = copy_screen d.console (d.screens id) })

  -- `assert(sem_wait(sem) == 0)`
  unfoldable pub must_wait : SemName → Driver → Run Driver
  unfolding assert
  must_wait k d =
      o.wait k d.locks >>= λ (ret, l). (assert (eqb_ℤ ret (pos 0)) >> done (record d { locks = l }))

  unfoldable pub signal_sem : SemName → Driver → Run Driver
  signal_sem k d = o.signal k d.locks >>= λ l. done (record d { locks = l })

  -- `screens[n]` is a bad access unless `n` is the number of a screen.
  unfoldable pub screen_at : ℤ → Run ℕ
  screen_at (pos n) = if ltb n screen_count then done n else fault
  screen_at (negsuc n) = fault

  -- `save_screen(); load_screen(n); screen_idx = n;`
  unfoldable pub exchange : ℕ → Driver → Driver
  unfolding save_screen load_screen
  exchange n d = record (load_screen n (save_screen d)) { screen_idx = n }

  -- The part of `scr_set_screen` behind its two tests.
  unfoldable pub switch_screen : ℕ → Driver → Run (ℤ × Driver)
  unfolding must_wait exchange signal_sem
  switch_screen n d = must_wait (cons_buffer_lock n) d >>= λ d1.
      must_wait (cons_buffer_lock d.screen_idx) d1 >>= λ d2.
      signal_sem (cons_buffer_lock d.screen_idx) (exchange n d2) >>= λ d4.
      signal_sem (cons_buffer_lock n) d4 >>= λ d5. done (pos 0, d5)

  unfoldable pub scr_set_screen : ℤ → Driver → Run (ℤ × Driver)
  unfolding screen_at switch_screen
  scr_set_screen n d =
      if ltb_ℤ (pos screen_count) n
      then done (minus_einval, d)
      else if eqb_ℤ n (pos d.screen_idx)
      then done (pos 0, d)
      else (screen_at n >>= λ k. switch_screen k d)

  unfoldable pub scr_get_screen : Driver → ℕ
  scr_get_screen d = d.screen_idx
