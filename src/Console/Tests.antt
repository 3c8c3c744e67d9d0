-- ===== src/Console/Tests.antt =====
-- A screen of 4 columns and 3 rows, two screens of it, and copies and locks that do what they should,
-- for the theorems on drivers/text_console.c.
mod Session
use timix_next.Prelude.{
  ℕ, suc, ◌+◌, ◌-◌, ◌<◌, ◌≤◌, ◌≡◌, ◌≢◌, inl, refl, [], ◌∷◌, some, arith, Ends, ◌>>=◌, leb, ltb,
  ◌&&◌, true, if◌then◌else◌, length, ap,
}
use timix_next.Prelude.Int.{ℤ, pos, negsuc}
use timix_next.Prelude.Run.{done, fault}
use timix_next.Prelude.Errno.{minus_eintr, minus_einval}
use timix_next.Console.Config.{Config, Cells, Memcpy, IsMemcpy}
use timix_next.Console.Screen.{
  Screen, CursorState, visible, blank, scrollback, scr_putbyte, scr_putbytes, scr_draw_char,
  scr_get_char, scr_clear_console,
}
use timix_next.Console.Draw.{Cleared, scr_clear_console-Cleared}
use timix_next.Console.Legal.{IsConfig, IsLegal, scr_putbytes-IsLegal}
use timix_next.Console.Content.{LinesUp, scrollback-LinesUp}
use timix_next.Console.Typing.{IsPlain, at, put, scr_putbyte-plain, get_char-draw_char}
use timix_next.Console.Driver.{SemOps, Driver, scr_set_screen}
use timix_next.Console.Api.{putbytes}
use timix_next.Console.Locks.{IsSem}
use timix_next.Console.Calls.{OnlyScreen, Wrote, putbytes_background, putbytes_foreground}
use timix_next.Console.Switch.{Shows, scr_set_screen_back, scr_set_screen_bounds}

abbrev small : Config
small = record {
  width = 4;
  height = 3;
  screen_count = 3;
  char_signed = true;
  start_color = 7;
  clear_color = 0;
  crtc_idx_reg = 0x3d4;
  crtc_data_reg = 0x3d5;
  cursor_lsb_idx = 0x0f;
  cursor_msb_idx = 0x0e;
}

abbrev copy : Memcpy
copy = record {
  within = λ buf dst src n i. if leb dst i && ltb i (dst + n) then buf (src + (i - dst)) else buf i;
  between = λ to from n i. if ltb i n then from i else to i;
}

lower :
    (buf : Cells) (dst src n i : ℕ)
    → dst + n ≤ src
    → i < n
    → copy.within buf dst src n (dst + i) ≡ buf (src + i)
lower buf dst src n i le lt = let e : dst + i - dst ≡ i = omega arith in ground (arith, e, lt)

copy-IsMemcpy : IsMemcpy copy
copy-IsMemcpy = record {
  within_apart = lower;
  within_above = λ buf dst src n i h. ground (arith, h);
  between_copies = λ to from n i h. ground (arith, h);
  between_above = λ to from n i h. ground (arith, h);
}

small-IsConfig : IsConfig small
small-IsConfig = record { wide = omega arith; tall = omega arith }

-- A screen full of the letter a, the cursor at the right edge of the last line.
abbrev full : CursorState → Screen
full state = record {
  cons_buf = λ i. record { cc_code = 97; cc_color = 7 };
  cons_cur_x = pos 3;
  cons_cur_y = pos 2;
  cons_cur_state = state;
  cons_cur_color = 7;
}

full-IsLegal : IsLegal small (full visible)
full-IsLegal = record {
  left = omega arith;
  right = omega arith;
  top = omega arith;
  bottom = omega arith;
  waiting = λ e. ground (arith, e);
}

b-IsPlain : IsPlain 98
b-IsPlain = (omega arith, omega arith, omega arith)

scr_clear_console-Cleared_example :
    Ends (scr_clear_console small (full visible)) (Cleared small 0 12 (full visible))
scr_clear_console-Cleared_example = scr_clear_console-Cleared small (full visible)

scr_putbytes-IsLegal_example :
    Ends (scr_putbytes small copy (98 ∷ 10 ∷ 8 ∷ []) (full visible)) (IsLegal small)
scr_putbytes-IsLegal_example =
    scr_putbytes-IsLegal small copy (98 ∷ 10 ∷ 8 ∷ []) (full visible) small-IsConfig full-IsLegal

scrollback-LinesUp_example :
    Ends (scrollback small copy (pos 2) (full visible)) (LinesUp small 2 (full visible))
scrollback-LinesUp_example =
    scrollback-LinesUp small copy copy-IsMemcpy 2 (full visible) (omega arith) (omega arith)

scr_putbyte-plain_example :
    scr_putbyte small copy 98 (at 1 2 (full visible))
    ≡ some (at 2 2 (put small 2 2 blank (put small 1 2 98 (full visible))))
scr_putbyte-plain_example =
    scr_putbyte-plain small copy 98 1 2 (full visible) b-IsPlain (omega arith) (omega arith)

get_char-draw_char_example :
    let read =
      scr_draw_char small (pos 1) (pos 2) 456 7 (full visible)
      >>= scr_get_char small (pos 1) (pos 2) in
    (2 < small.height → read ≡ some (negsuc 55)) × (small.height ≤ 2 → read ≡ some (pos 0))
get_char-draw_char_example =
    get_char-draw_char small 1 2 456 7 (full visible) (omega arith) (omega arith)

-- The semaphores that are taken are counted; nobody is ever refused.
abbrev counting : SemOps
counting = record {
  State = ℕ;
  init = λ k n s. s;
  wait = λ k s. done (pos 0, suc s);
  signal = λ k s. done (s - 1);
}

abbrev counting_sem : IsSem small counting
counting_sem = record {
  Holds = λ ks s. s ≡ length ks;
  acquire = λ k ks s known apart h. (pos 0, suc s, refl, inl (refl, ap suc h));
  release = λ k ks s known apart h. (s - 1, refl, omega (arith, h));
}

abbrev driver : Driver small copy counting
driver = record {
  console = full visible;
  screens = λ k. full visible;
  screen_idx = 1;
  locks = 0;
  ports = [];
}

putbytes_background_example :
    (ret : ℤ) × (e : Driver small copy counting) × (putbytes small copy counting 0 (98 ∷ []) driver
      ≡ done (ret, e))
    × (e.locks ≡ 0)
    × OnlyScreen small copy counting 0 driver e
    × Wrote small copy counting (98 ∷ []) ret (full visible) (e.screens 0)
putbytes_background_example =
    putbytes_background small copy counting 0 (98 ∷ []) driver counting_sem refl small-IsConfig
      (omega arith) (omega arith) full-IsLegal

scr_set_screen_back_example :
    (e f : Driver small copy counting) × (scr_set_screen small copy counting (pos 0) driver
      ≡ done (pos 0, e))
    × (scr_set_screen small copy counting (pos 1) e ≡ done (pos 0, f))
    × (f.locks ≡ 0)
    × Shows small copy counting (full visible) e.console
    × Shows small copy counting (full visible) f.console
    × ((k : ℕ) → k ≢ 0 → k ≢ 1 → f.screens k ≡ full visible)
scr_set_screen_back_example =
    scr_set_screen_back small copy counting 0 driver counting_sem refl
      (λ k ks s s' ret known apart h e. cc) copy-IsMemcpy (omega arith) (omega arith) (omega arith)

scr_set_screen_bounds_example :
    ((n : ℕ)
      → 3 < n
      → scr_set_screen small copy counting (pos n) driver ≡ done (minus_einval, driver))
    × (scr_set_screen small copy counting (pos 1) driver ≡ done (pos 0, driver))
    × (scr_set_screen small copy counting (pos 3) driver ≡ fault)
    × ((n : ℕ) → scr_set_screen small copy counting (negsuc n) driver ≡ fault)
scr_set_screen_bounds_example = scr_set_screen_bounds small copy counting driver (omega arith)
