-- ===== src/Console/Terminals.antt =====
-- text_console.c over the semaphores of kernel/sem.c, from `console_init` on: threads that print and
-- a kernel thread that shows one screen or the other, one call after the other.
use timix_next.Prelude.{
  ℕ, ◌<◌, ◌≡◌, ◌≢◌, refl, sym, ◌∙◌, true, false, some, List, [], ◌∷◌, Ptr, arith, inl, inr,
  Bool-cases, ◌==◌, update,
}
use mathlib.Core.Path.{subst}
use timix_next.Prelude.Int.{ℤ, pos}
use timix_next.Prelude.Run.{Run, done, ◌>>=◌}
use timix_next.Sync.Kernel.{SchedOps}
use timix_next.Console.Config.{Config, Memcpy}
use timix_next.Console.Screen.{Screen, scr_putbytes}
use timix_next.Console.Legal.{IsLegal}
use timix_next.Console.Driver.{Driver, scr_set_screen}
use timix_next.Console.Api.{putbytes}
use timix_next.Console.Switch.{Shows, Switched}
use timix_next.Console.Sems.{sems}
use timix_next.Console.Ready.{Ready}
use timix_next.Console.Session.{shown}

-- The thread `t` prints on its screen `n`, or shows screen `n`.
pub data Call : Type 0 where
  print : (t : Ptr) (n : ℕ) (str : List ℕ) → Call
  show : (t : Ptr) (n : ℕ) → Call

module _ (c : Config) (m : Memcpy) (so : SchedOps) where
  abbrev pub Console : Type 0
  Console = Driver c m (sems so)

  -- The same characters, cursor and color
  abbrev pub Alike : (s t : Screen) → Type 0
  Alike = Shows c m (sems so)

  -- The scheduler lets the thread `t` run.
  abbrev pub run_as : Ptr → Console → Console
  run_as t d = record d { locks = record d.locks { current = t } }

  unfoldable pub exec : Call → Console → Run (ℤ × Console)
  unfolding putbytes scr_set_screen
  exec (print t n str) d = putbytes c m (sems so) n str (run_as t d)
  exec (show t n) d = scr_set_screen c m (sems so) (pos n) (run_as t d)

  -- The answers of the calls, and the state in the end
  unfoldable pub exec_all : List Call → Console → Run (List ℤ × Console)
  unfolding exec
  exec_all [] d = done ([], d)
  exec_all (call ∷ cs) d =
      exec call d >>= λ (ret, d1). exec_all cs d1 >>= λ (rets, d2). done (ret ∷ rets, d2)

  -- The screens after a call, as separate terminals: printing changes the one of the thread,
  -- showing changes none.
  abbrev pub Does : Call → (v w : ℕ → Screen) → Type 0
  Does (print t n str) v w =
      (s : Screen) × (scr_putbytes c m str (v n) ≡ some s) × ((k : ℕ) → w k ≡ update v n s k)
  Does (show t n) v w = (k : ℕ) → Alike (v k) (w k)

  abbrev pub DoesAll : List Call → (v w : ℕ → Screen) → Type 0
  DoesAll [] v w = (k : ℕ) → w k ≡ v k
  DoesAll (call ∷ cs) v w = (u : ℕ → Screen) × Does call v u × DoesAll cs u w

  -- The number of a screen
  abbrev pub Allowed : Call → Type 0
  Allowed (print t n str) = n < c.screen_count
  Allowed (show t n) = n < c.screen_count

  abbrev pub AllAllowed : List Call → Type 0
  AllAllowed [] = Unit
  AllAllowed (call ∷ cs) = Allowed call × AllAllowed cs

  -- Between the calls: nobody holds a semaphore and all cursors are legal.
  pub record Rests (d : Console) : Type 0 where
    pub locks : Ready so c [] d.locks
    pub index : d.screen_idx < c.screen_count
    pub legal : (k : ℕ) → k < c.screen_count → IsLegal c (shown c m (sems so) d k)

  pub Alike-IsLegal : (s t : Screen) → Alike s t → IsLegal c s → IsLegal c t
  Alike-IsLegal s t h l = record {
    left = rw (h.column) (l.left);
    right = rw (h.column) (l.right);
    top = rw (h.line) (l.top);
    bottom = rw (h.line) (l.bottom);
    waiting = λ e. h.column ∙ l.waiting (sym (h.line) ∙ e);
  }

  pub Alike-refl : (s : Screen) → Alike s s
  Alike-refl s = record {
    cells = λ i h. refl;
    column = refl;
    line = refl;
    state = refl;
    color = refl;
  }

  -- A switch of the screens changes no terminal.
  pub Switched-shown :
      (n k : ℕ) (d e : Console)
      → n ≢ d.screen_idx
      → Switched c m (sems so) n d e
      → Alike (shown c m (sems so) d k) (shown c m (sems so) e k)
  Switched-shown n k d e ne w = elim (Bool-cases (k == n)) [
    | inl new ↦
        let h : k ≡ n = ground (arith, new) in
        let out : (n == d.screen_idx) ≡ false = ground (arith, ne) in
        let here : (n == n) ≡ true = ground arith in rw (h, out, w.current, here) (w.loaded)
    | inr other ↦ elim (Bool-cases (k == d.screen_idx)) [
      | inl old ↦
          let h : k ≡ d.screen_idx = ground (arith, old) in
          rw (w.current, other, old) (subst (λ j. Alike d.console (e.screens j)) (sym h) w.saved)
      | inr third ↦
          let ne' : k ≢ d.screen_idx = ground (arith, third) in
          rw (w.current, other, third, w.others k ne') (Alike-refl (d.screens k))
    ]
  ]
