-- ===== src/Sync/Rwlock/Ready.antt =====
-- kernel/rwlock.c, the abstract lock without interrupts: a lock that nobody holds is never lost to
-- the threads that wait for it.
use timix_next.Prelude.{
  ℕ, ◌≡◌, ◌≢◌, refl, sym, ◌∙◌, List, [], ◌∷◌, ◌++◌, Bool, true, false, Ptr, arith, Bool-cases, inl,
  inr, update_self, update_ne, ◌==◌,
}
use timix_next.Queue.View.{◌∈◌, ◌∉◌, Distinct, Distinct-append, has-append, ne_of_mem, mem_there}
use timix_next.Queue.Refine.{without}
use timix_next.Sync.Kernel.{SchedOps}
use timix_next.Sync.Rwlock.{is_unlocked, Access, for_read, for_write, mode_of}
use timix_next.Sync.Rwlock.Model.{View, cond_of, enter, leave, enqueue, doze, held_off}

out_without : (a t : Ptr) (xs : List Ptr) → a ∉ xs → a ∉ without t xs
out_without a t [] out = refl
out_without a t (x ∷ xs) out = ground (arith, out, out_without a t xs)

before : (b t : Ptr) (xs : List Ptr) → b ∈ (xs ++ t ∷ []) → b ≢ t → b ∈ xs
before b t xs i ne = ground (arith, i, ne, has-append b xs (t ∷ []))

ne_of_held : {b : Bool} → b ≡ true → b ≢ false
ne_of_held e f = cc

pub stays : (a t : Ptr) (xs : List Ptr) → a ∈ xs → a ≢ t → a ∈ without t xs
stays a t [] i ne = cc
stays a t (x ∷ xs) i ne = ground (arith, i, ne, stays a t xs)

module _ (o : SchedOps) (fuel : ℕ) (readers writers : Ptr) (hard : Ptr → Bool)
    (apart : readers ≢ writers) where
  abbrev pub W : Type 0
  W = View o fuel readers writers hard

  -- A queued thread that does not sleep, and that the lock does not keep out.
  pub record Next (v : W) : Type 0 where
    pub who : Ptr
    pub kind : Access
    pub queued : who ∈ v.queue
    pub wanted : v.want who ≡ kind
    pub awake : who ∉ v.sleeping (cond_of o fuel readers writers hard kind)
    pub let_in : held_off o fuel readers writers hard kind v ≡ false

  -- Who sleeps is queued, and for the access whose condition variable it is.
  pub record Sound (v : W) : Type 0 where
    pub distinct : Distinct v.queue
    pub readers_in : (a : Ptr) → a ∈ v.sleeping readers → (a ∈ v.queue) × (v.want a ≡ for_read)
    pub writers_in : (a : Ptr) → a ∈ v.sleeping writers → (a ∈ v.queue) × (v.want a ≡ for_write)
    pub once : Distinct (v.sleeping writers)

  -- Moreover nobody has been interrupted; the mode is unlocked only where nobody holds the lock or
  -- waits; and a lock that is not in that mode and that nobody holds has a thread that takes it next.
  pub record Inv (v : W) : Type 0 where
    pub sound : Sound v
    pub calm : (a : Ptr) → a ∈ v.queue → v.hit a ≡ false
    pub idle : is_unlocked v.mode ≡ true → (v.count ≡ 0) × (v.queue ≡ [])
    pub next : v.count ≡ 0 → is_unlocked v.mode ≡ false → Next v

  mode_of-locked : (a : Access) → is_unlocked (mode_of a) ≡ false
  mode_of-locked for_read = refl
  mode_of-locked for_write = refl

  -- Entering leaves a holder.
  pub enter-Inv :
      (a : Access) (v : W)
      → Sound v
      → ((b : Ptr) → b ∈ v.queue → v.hit b ≡ false)
      → Inv (enter o fuel readers writers hard a v)
  enter-Inv a v h calm = record {
    sound = record {
      distinct = h.distinct;
      readers_in = h.readers_in;
      writers_in = h.writers_in;
      once = h.once;
    };
    calm = calm;
    idle = λ e. let no' = mode_of-locked a in cc;
    next = λ e. absurd (omega arith);
  }

  without-Distinct : (t : Ptr) (xs : List Ptr) → Distinct xs → Distinct (without t xs)
  without-Distinct t [] d = tt
  without-Distinct t (x ∷ xs) (out, d) = elim (Bool-cases (t == x)) [
    | inl here ↦ rw here d
    | inr there ↦ rw there (out_without x t xs out, without-Distinct t xs d)
  ]

  pub leave-Sound :
      (t : Ptr) (v : W)
      → Sound v
      → t ∉ v.sleeping readers
      → t ∉ v.sleeping writers
      → Sound (leave o fuel readers writers hard t v)
  leave-Sound t v h r w = record {
    distinct = without-Distinct t v.queue h.distinct;
    readers_in = λ a i.
        let (q, k) = h.readers_in a i in
        (stays a t v.queue q (ne_of_mem (v.sleeping readers) i r), k);
    writers_in = λ a i.
        let (q, k) = h.writers_in a i in
        (stays a t v.queue q (ne_of_mem (v.sleeping writers) i w), k);
    once = h.once;
  }

  pub enqueue-Sound :
      (t : Ptr) (a : Access) (v : W)
      → Sound v
      → t ∉ v.queue
      → Sound (enqueue o fuel readers writers hard t a v)
  enqueue-Sound t a v h out = record {
    distinct = (out, h.distinct);
    readers_in = λ b i.
        let (q, k) = h.readers_in b i in
        (mem_there t b v.queue q, update_ne v.want t a (ne_of_mem v.queue q out) ∙ k);
    writers_in = λ b i.
        let (q, k) = h.writers_in b i in
        (mem_there t b v.queue q, update_ne v.want t a (ne_of_mem v.queue q out) ∙ k);
    once = h.once;
  }

  -- One more sleeper among those that want `kind`.
  added :
      (t : Ptr) (kind : Access) (v : W) (ts : List Ptr)
      → t ∈ v.queue
      → v.want t ≡ kind
      → ((b : Ptr) → b ∈ ts → (b ∈ v.queue) × (v.want b ≡ kind))
      → (b : Ptr) → b ∈ (ts ++ t ∷ [])
      → (b ∈ v.queue) × (v.want b ≡ kind)
  added t kind v ts i want old b j = elim (Bool-cases (b == t)) [
    | inl here ↦ let e : b ≡ t = ground (arith, here) in rw e (i, want)
    | inr there ↦ old b (before b t ts j (ground (arith, there)))
  ]

  pub doze-Sound :
      (t : Ptr) (a : Access) (v : W)
      → Sound v
      → t ∈ v.queue
      → v.want t ≡ a
      → t ∉ v.sleeping writers
      → Sound (doze o fuel readers writers hard t a v)
  doze-Sound t for_read v h i want out =
      let ts = v.sleeping readers ++ t ∷ [] in
      let here = update_self v.sleeping readers ts in
      let there = update_ne v.sleeping readers ts (λ e. apart (sym e)) in
      record {
        distinct = h.distinct;
        readers_in =
            λ b j. added t for_read v (v.sleeping readers) i want h.readers_in b (rw here at j);
        writers_in = λ b j. h.writers_in b (rw there at j);
        once = rw there (h.once);
      }
  doze-Sound t for_write v h i want out =
      let ts = v.sleeping writers ++ t ∷ [] in
      let here = update_self v.sleeping writers ts in
      let there = update_ne v.sleeping writers ts apart in
      record {
        distinct = h.distinct;
        readers_in = λ b j. h.readers_in b (rw there at j);
        writers_in =
            λ b j. added t for_write v (v.sleeping writers) i want h.writers_in b (rw here at j);
        once = rw here (
            Distinct-append (v.sleeping writers) (t ∷ []) h.once (refl, tt)
              (λ b j. ground (arith, ne_of_mem (v.sleeping writers) j out)));
      }

  -- A thread that goes to sleep leaves the one that takes the lock next.
  pub doze-Next :
      (t : Ptr) (a : Access) (v : W)
      → v.count ≡ 0
      → v.want t ≡ a
      → held_off o fuel readers writers hard a v ≡ true
      → Next v
      → Next (doze o fuel readers writers hard t a v)
  doze-Next t for_write v none_holds want out n = absurd (ground (arith, none_holds, out))
  doze-Next t for_read v none_holds want out n = keeps n.kind n.wanted n.awake n.let_in
    where
      keeps :
          (kind : Access)
          → v.want n.who ≡ kind
          → n.who ∉ v.sleeping (cond_of o fuel readers writers hard kind)
          → held_off o fuel readers writers hard kind v ≡ false
          → Next (doze o fuel readers writers hard t for_read v)
      keeps for_read w aw le = absurd (ne_of_held out le)
      keeps for_write w aw le = record {
        who = n.who;
        kind = for_write;
        queued = n.queued;
        wanted = w;
        awake =
            rw (update_ne v.sleeping readers (v.sleeping readers ++ t ∷ []) (λ e. apart (sym e)))
              aw;
        let_in = le;
      }
