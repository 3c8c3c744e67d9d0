-- ===== src/Sync/Rwlock/Unlock.antt =====
-- kernel/rwlock.c, `rwlock_unlock`, as the abstract lock says.
use timix_next.Prelude.{
  ℕ, ◌<◌, ◌-◌, ◌≡◌, refl, List, [], ◌∷◌, Bool, true, false, Ptr, arith, length, Bool-cases, inl,
  inr, ltb,
}
use timix_next.Prelude.Int.{pos, ltb_ℤ, leb_ℤ, ◌-ℤ◌}
use timix_next.Prelude.Run.{assert}
use timix_next.Sync.Kernel.{SchedOps}
use timix_next.Sync.Free.{lock_mutex-taken}
use timix_next.Sync.Cond.{returned}
use timix_next.Sync.Rwlock.{unlocked, Access, for_read, for_write, rwlock_unlock}
use timix_next.Sync.Rwlock.Model.{
  unlock, exec, wake_readers, wake_writer, wake, hand_over, spec, Allowed,
}
use timix_next.Sync.Rwlock.Hold.{V, Mem, real, Stands}
use timix_next.Sync.Rwlock.Loop.{Tried, released}
use timix_next.Sync.Rwlock.Start.{peek_lem, with_mutex}
use timix_next.Sync.Rwlock.Giveback.{
  Held, moved, broadcast_lem, signal_lem, finish, with_mutex-Held,
}

minus_pos : (n : ℕ) → 0 < n → pos n -ℤ pos 1 ≡ pos (n - 1)
unfolding ◌-ℤ◌
minus_pos n lt = ground arith

not_below : (n : ℕ) → leb_ℤ (pos 0) (pos n) ≡ true
not_below n = ground arith

still_held : (n : ℕ) → ltb_ℤ (pos 0) (pos (n - 1)) ≡ ltb 1 n
still_held n = ground arith

module _ (o : SchedOps) (fuel : ℕ) (mp readers writers : Ptr) (hard : Ptr → Bool) where
  abbrev less : V o fuel mp readers writers hard → V o fuel mp readers writers hard
  less v = record v { count = v.count - 1 }

  -- Releasing the lock down to other holders.
  others_hold :
      (v : V o fuel mp readers writers hard) (m : Mem o fuel mp readers writers hard)
      → Stands o fuel mp readers writers hard v m
      → 0 < v.count
      → ltb 1 v.count ≡ true
      → Tried o fuel mp readers writers hard
          (exec o fuel readers writers hard unlock (real o fuel mp readers writers hard v m))
          (returned (pos 0), less v)
  unfolding exec rwlock_unlock assert
  others_hold v m h lt more =
      let h1 = with_mutex-Held o fuel mp readers writers hard v m h in
      (
        released o fuel mp readers writers hard (with_mutex o fuel mp readers writers hard m),
        rw
            (
              lock_mutex-taken o mp m.kernel h.free,
              minus_pos v.count lt,
              not_below (v.count - 1),
              still_held v.count,
              more,
            )
            refl,
        finish o fuel mp readers writers hard (less v) (with_mutex o fuel mp readers writers hard m)
            (record {
              inside = record {
                queue = h1.inside.queue;
                wants = h1.inside.wants;
                conds = h1.inside.conds;
              };
              marked = h1.marked;
            }),
      )

  less-Held :
      (v : V o fuel mp readers writers hard) (m : Mem o fuel mp readers writers hard)
      → Stands o fuel mp readers writers hard v m
      → Held o fuel mp readers writers hard (less v) (with_mutex o fuel mp readers writers hard m)
  less-Held v m h =
      let h1 = with_mutex-Held o fuel mp readers writers hard v m h in
      record {
        inside = record {
          queue = h1.inside.queue;
          wants = h1.inside.wants;
          conds = h1.inside.conds;
        };
        marked = h1.marked;
      }

  module _ (v : V o fuel mp readers writers hard) (m : Mem o fuel mp readers writers hard)
      (h : Stands o fuel mp readers writers hard v m) (lt : 0 < v.count)
      (last : ltb 1 v.count ≡ false) (enough : length (v.sleeping readers) < fuel) where
    -- The last holder wakes those that it hands the lock over to.
    wakes :
        (t : Ptr) (ts : List Ptr) (a : Access)
        → v.queue ≡ t ∷ ts
        → v.want t ≡ a
        → Tried o fuel mp readers writers hard
            (exec o fuel readers writers hard unlock (real o fuel mp readers writers hard v m))
            (returned (pos 0), wake o fuel readers writers hard a (less v))
    unfolding exec rwlock_unlock assert
    wakes t ts for_read e want =
        let m1 = with_mutex o fuel mp readers writers hard m in
        let (k, ran, held) =
          broadcast_lem o fuel mp readers writers hard (less v) m1 (less-Held v m h) enough in
        (
          released o fuel mp readers writers hard (moved o fuel mp readers writers hard m1 k),
          rw
              (
                lock_mutex-taken o mp m.kernel h.free,
                minus_pos v.count lt,
                not_below (v.count - 1),
                still_held v.count,
                last,
                peek_lem o fuel mp readers writers hard (t ∷ ts) (less v) m1 e
                    (less-Held v m h).inside,
                want,
                ran,
              )
              (rw (minus_pos v.count lt) refl),
          finish o fuel mp readers writers hard (wake_readers o fuel readers writers hard (less v))
              (moved o fuel mp readers writers hard m1 k) held,
        )
    wakes t ts for_write e want =
        let m1 = with_mutex o fuel mp readers writers hard m in
        let (k, ran, held) =
          signal_lem o fuel mp readers writers hard (less v) m1 (less-Held v m h) in
        (
          released o fuel mp readers writers hard (moved o fuel mp readers writers hard m1 k),
          rw
              (
                lock_mutex-taken o mp m.kernel h.free,
                minus_pos v.count lt,
                not_below (v.count - 1),
                still_held v.count,
                last,
                peek_lem o fuel mp readers writers hard (t ∷ ts) (less v) m1 e
                    (less-Held v m h).inside,
                want,
                ran,
              )
              (rw (minus_pos v.count lt) refl),
          finish o fuel mp readers writers hard (wake_writer o fuel readers writers hard (less v))
              (moved o fuel mp readers writers hard m1 k) held,
        )

    hands_over :
        (ts : List Ptr)
        → v.queue ≡ ts
        → Tried o fuel mp readers writers hard
            (exec o fuel readers writers hard unlock (real o fuel mp readers writers hard v m))
            (returned (pos 0), hand_over o fuel readers writers hard ts (less v))
    unfolding exec rwlock_unlock assert
    hands_over [] e =
        let m1 = with_mutex o fuel mp readers writers hard m in
        let held = less-Held v m h in
        (
          released o fuel mp readers writers hard m1,
          rw
              (
                lock_mutex-taken o mp m.kernel h.free,
                minus_pos v.count lt,
                not_below (v.count - 1),
                still_held v.count,
                last,
                peek_lem o fuel mp readers writers hard [] (less v) m1 e held.inside,
              )
              (rw (minus_pos v.count lt) refl),
          finish o fuel mp readers writers hard (record (less v) { mode = unlocked }) m1
              (record {
                inside = record {
                  queue = held.inside.queue;
                  wants = held.inside.wants;
                  conds = held.inside.conds;
                };
                marked = held.marked;
              }),
        )
    hands_over (t ∷ ts) e = wakes t ts (v.want t) e refl

  -- `rwlock_unlock` does what the abstract lock does.
  pub unlock-Tried :
      (v : V o fuel mp readers writers hard) (m : Mem o fuel mp readers writers hard)
      → Stands o fuel mp readers writers hard v m
      → Allowed o fuel readers writers hard unlock v
      → Tried o fuel mp readers writers hard
          (exec o fuel readers writers hard unlock (real o fuel mp readers writers hard v m))
          (spec o fuel readers writers hard unlock v)
  unlock-Tried v m h (lt, enough) = elim (Bool-cases (ltb 1 v.count)) [
    | inl more ↦ rw more (others_hold v m h lt more)
    | inr last ↦ rw last (hands_over v m h lt last enough v.queue refl)
  ]
