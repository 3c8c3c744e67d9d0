-- ===== src/Sync/Rwlock/Handing.antt =====
-- kernel/rwlock.c, the abstract lock without interrupts: the last holder gives the lock back.
use timix_next.Prelude.{
  ℕ, ◌≡◌, ◌≢◌, refl, sym, List, [], ◌∷◌, Bool, false, Ptr, update_self, update_ne,
}
use timix_next.Queue.View.{◌∈◌, Distinct, mem_here}
use timix_next.Sync.Kernel.{SchedOps}
use timix_next.Sync.Cond.Signal.{others}
use timix_next.Sync.Rwlock.{Access, for_read, for_write}
use timix_next.Sync.Rwlock.Model.{wake_readers, wake_writer, wake, hand_over}
use timix_next.Sync.Rwlock.Ready.{W, Next, Sound, Inv}
use timix_next.Sync.Cond.Steps.{others_sub}

module _ (o : SchedOps) (fuel : ℕ) (readers writers : Ptr) (hard : Ptr → Bool)
    (apart : readers ≢ writers) where
  abbrev V : Type 0
  V = W o fuel readers writers hard apart

  abbrev I : V → Type 0
  I = Inv o fuel readers writers hard apart

  -- All readers are woken.
  pub readers-Sound :
      (v : V)
      → Sound o fuel readers writers hard apart v
      → Sound o fuel readers writers hard apart (wake_readers o fuel readers writers hard v)
  readers-Sound v h =
      let here = update_self v.sleeping readers [] in
      let there = update_ne v.sleeping readers [] (λ e. apart (sym e)) in
      record {
        distinct = h.distinct;
        readers_in = λ a i. let nobody : a ∈ [] = rw here at i in cc;
        writers_in = λ a i. h.writers_in a (rw there at i);
        once = rw there (h.once);
      }

  others-Distinct : (ts : List Ptr) → Distinct ts → Distinct (others o ts)
  others-Distinct [] d = d
  others-Distinct (t ∷ ts) d = d.1

  -- The writer that has waited longest is woken.
  writer-Sound :
      (v : V)
      → Sound o fuel readers writers hard apart v
      → Sound o fuel readers writers hard apart (wake_writer o fuel readers writers hard v)
  writer-Sound v h =
      let here = update_self v.sleeping writers (others o (v.sleeping writers)) in
      let there = update_ne v.sleeping writers (others o (v.sleeping writers)) apart in
      record {
        distinct = h.distinct;
        readers_in = λ a i. h.readers_in a (rw there at i);
        writers_in = λ a i.
            h.writers_in a (others_sub o fuel writers hard (v.sleeping writers) a (rw here at i));
        once = rw here (others-Distinct (v.sleeping writers) h.once);
      }

  -- After a signal the woken writer takes the lock next, or the one that was asked for last.
  writer-Next :
      (t : Ptr) (ts : List Ptr) (v : V)
      → v.sleeping writers ≡ ts
      → Sound o fuel readers writers hard apart v
      → t ∈ v.queue
      → v.want t ≡ for_write
      → v.count ≡ 0
      → Next o fuel readers writers hard apart (wake_writer o fuel readers writers hard v)
  writer-Next t [] v e h i want none_holds = record {
    who = t;
    kind = for_write;
    queued = i;
    wanted = want;
    awake = rw (update_self v.sleeping writers (others o (v.sleeping writers)), e) refl;
    let_in = rw none_holds refl;
  }
  writer-Next t (u ∷ us) v e h i want none_holds =
      let (q, k) = h.writers_in u (rw e (mem_here u us)) in
      let apart_us : Distinct (u ∷ us) = rw e at (h.once) in
      record {
        who = u;
        kind = for_write;
        queued = q;
        wanted = k;
        awake = rw (update_self v.sleeping writers (others o (v.sleeping writers)), e) (apart_us.0);
        let_in = rw none_holds refl;
      }

  -- The last holder gives the lock back.
  wake-Inv :
      (t : Ptr) (a : Access) (v : V)
      → Sound o fuel readers writers hard apart v
      → ((b : Ptr) → b ∈ v.queue → v.hit b ≡ false)
      → t ∈ v.queue
      → v.want t ≡ a
      → v.count ≡ 0
      → I (wake o fuel readers writers hard a v)
  wake-Inv t for_read v h calm i want none_holds = record {
    sound = readers-Sound v h;
    calm = calm;
    idle = λ e. cc;
    next = λ _ _. record {
      who = t;
      kind = for_read;
      queued = i;
      wanted = want;
      awake = rw (update_self v.sleeping readers []) refl;
      let_in = refl;
    };
  }
  wake-Inv t for_write v h calm i want none_holds = record {
    sound = writer-Sound v h;
    calm = calm;
    idle = λ e. cc;
    next = λ _ _. writer-Next t (v.sleeping writers) v refl h i want none_holds;
  }

  pub hand_over-Inv :
      (ts : List Ptr) (v : V)
      → v.queue ≡ ts
      → Sound o fuel readers writers hard apart v
      → ((b : Ptr) → b ∈ v.queue → v.hit b ≡ false)
      → v.count ≡ 0
      → I (hand_over o fuel readers writers hard ts v)
  hand_over-Inv [] v e h calm none_holds = record {
    sound = record {
      distinct = h.distinct;
      readers_in = h.readers_in;
      writers_in = h.writers_in;
      once = h.once;
    };
    calm = calm;
    idle = λ _. (none_holds, e);
    next = λ _ e'. cc;
  }
  hand_over-Inv (t ∷ ts) v e h calm none_holds =
      wake-Inv t (v.want t) v h calm (rw e (mem_here t ts)) refl none_holds
