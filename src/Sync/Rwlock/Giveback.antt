-- ===== src/Sync/Rwlock/Giveback.antt =====
-- kernel/rwlock.c: the wake-ups of the lock, and `rwlock_downgrade`, as the abstract lock says.
use timix_next.Prelude.{ℕ, ◌<◌, ◌≡◌, refl, Bool, true, Ptr, arith, length}
use timix_next.Prelude.Int.{pos, eqb_ℤ}
use timix_next.Prelude.Run.{done, assert}
use timix_next.Queue.View.{◌∈◌}
use timix_next.Sync.Kernel.{SchedOps, Kernel}
use timix_next.Sync.Free.{taken, lock_mutex-taken}
use timix_next.Sync.Cond.{cond_signal, cond_broadcast}
use timix_next.Sync.Cond.Calls.{signal-Shows, broadcast-Shows}
use timix_next.Sync.Rwlock.{is_write, rwlock_downgrade}
use timix_next.Sync.Rwlock.Model.{downgrade, exec, cvs, wake_readers, wake_writer, spec, Allowed}
use timix_next.Sync.Rwlock.Hold.{V, Mem, real, Inside, Marked, Stands}
use timix_next.Sync.Rwlock.Loop.{Tried, released, released-Stands, mutexes-Inside}
use timix_next.Sync.Rwlock.Start.{with_mutex}

module _ (o : SchedOps) (fuel : ℕ) (mp readers writers : Ptr) (hard : Ptr → Bool) where
  -- The lock stands for the view, while its mutex is held.
  pub record Held (v : V o fuel mp readers writers hard) (m : Mem o fuel mp readers writers hard)
      : Type 0 where
    pub inside : Inside o fuel mp readers writers hard v m
    pub marked : (a : Ptr) → a ∈ v.queue → Marked o fuel mp readers writers hard a v m

  abbrev pub moved :
      Mem o fuel mp readers writers hard → Kernel o → Mem o fuel mp readers writers hard
  moved m k = record m { kernel = k }

  pub broadcast_lem :
      (v : V o fuel mp readers writers hard) (m : Mem o fuel mp readers writers hard)
      → Held v m
      → length (v.sleeping readers) < fuel
      → (k : Kernel o) × (cond_broadcast o fuel readers m.kernel ≡ done k)
        × Held (wake_readers o fuel readers writers hard v) (moved m k)
  broadcast_lem v m h enough =
      let (k, ran, h', f) =
        broadcast-Shows o fuel (cvs o fuel readers writers hard) hard readers m.kernel
          (v.sleeping, v.sched) h.inside.conds (ground arith, enough) in
      (
        k,
        ran,
        record {
          inside = record { queue = h.inside.queue; wants = h.inside.wants; conds = h' };
          marked = λ a i. rw (f.nodes a refl) (h.marked a i);
        },
      )

  pub signal_lem :
      (v : V o fuel mp readers writers hard) (m : Mem o fuel mp readers writers hard)
      → Held v m
      → (k : Kernel o) × (cond_signal o writers m.kernel ≡ done k)
        × Held (wake_writer o fuel readers writers hard v) (moved m k)
  signal_lem v m h =
      let (k, ran, h', f) =
        signal-Shows o fuel (cvs o fuel readers writers hard) hard writers m.kernel
          (v.sleeping, v.sched) h.inside.conds (ground arith) in
      (
        k,
        ran,
        record {
          inside = record { queue = h.inside.queue; wants = h.inside.wants; conds = h' };
          marked = λ a i. rw (f.nodes a refl) (h.marked a i);
        },
      )

  -- What is left to do after the lock's mutex has been given back.
  pub finish :
      (v : V o fuel mp readers writers hard) (m : Mem o fuel mp readers writers hard)
      → Held v m
      → Stands o fuel mp readers writers hard v (released o fuel mp readers writers hard m)
  finish v m h = released-Stands o fuel mp readers writers hard v m h.inside h.marked

  pub with_mutex-Held :
      (v : V o fuel mp readers writers hard) (m : Mem o fuel mp readers writers hard)
      → Stands o fuel mp readers writers hard v m
      → Held v (with_mutex o fuel mp readers writers hard m)
  with_mutex-Held v m h = record {
    inside =
        mutexes-Inside o fuel mp readers writers hard v m (taken o mp m.kernel).mutexes h.inside;
    marked = h.marked;
  }

  -- `rwlock_downgrade` does what the abstract lock does.
  pub downgrade-Tried :
      (v : V o fuel mp readers writers hard) (m : Mem o fuel mp readers writers hard)
      → Stands o fuel mp readers writers hard v m
      → Allowed o fuel readers writers hard downgrade v
      → Tried o fuel mp readers writers hard
          (exec o fuel readers writers hard downgrade (real o fuel mp readers writers hard v m))
          (spec o fuel readers writers hard downgrade v)
  unfolding exec rwlock_downgrade assert
  downgrade-Tried v m h (writing, one, enough) =
      let m1 = with_mutex o fuel mp readers writers hard m in
      let in_write : is_write v.mode ≡ true = rw writing refl in
      let alone : eqb_ℤ (pos v.count) (pos 1) ≡ true = rw one refl in
      let (k, ran, held) = broadcast_lem v m1 (with_mutex-Held v m h) enough in
      (
        released o fuel mp readers writers hard (moved m1 k),
        rw (in_write, alone, lock_mutex-taken o mp m.kernel h.free, ran) refl,
        finish (wake_readers o fuel readers writers hard v) (moved m1 k) held,
      )
