-- ===== src/Boot/Pmm.antt =====
-- kernel/mm/pmm.c: the table of physical memory regions.
use timix_next.Prelude.{
  ℕ, zero, suc, ◌+◌, ◌%◌, ◌^◌, ◌<◌, ◌≤◌, ◌≡◌, refl, ap, ◌∙◌, false, List, [], ◌∷◌, ◌++◌, update,
  update_self, update_ne, arith, take, leb, if◌then◌else◌,
}
use mathlib.Core.List.{append-nil, append_assoc}
use timix_next.Prelude.Int.{ℤ, pos}
use timix_next.Prelude.Errno.{minus_enomem}

-- PMM_MAX_REGIONS
abbrev pub pmm_max_regions : ℕ
pmm_max_regions = 10

-- `struct pmm_region`
pub record Region : Type 0 where
  pub start : ℕ
  pub size : ℕ

-- `struct pmm_region_map`
pub record RegionMap : Type 0 where
  pub count : ℕ
  pub regions : ℕ → Region

unfoldable pub pmm_init : RegionMap → RegionMap
pmm_init p = record p { count = 0 }

-- The count is a `uint32_t`.
unfoldable pub pmm_add_region : ℕ → ℕ → RegionMap → ℤ × RegionMap
pmm_add_region start size p =
    if leb pmm_max_regions ((p.count + 1) % 2 ^ 32) then (minus_enomem, p) else (
      pos 0,
      record {
        count = (p.count + 1) % 2 ^ 32;
        regions = update p.regions p.count (record { start = start; size = size });
      },
    )

-- The first `n` entries of the table.
unfoldable pub entries : ℕ → (ℕ → Region) → List Region
entries zero f = []
entries (suc n) f = entries n f ++ f n ∷ []

-- The regions that the table holds.
abbrev pub held : RegionMap → List Region
held p = entries p.count p.regions

entries-update :
    (n i : ℕ) (f : ℕ → Region) (r : Region) → n ≤ i → entries n (update f i r) ≡ entries n f
unfolding entries
entries-update zero i f r h = refl
entries-update (suc n) i f r h =
    rw (entries-update n i f r (omega arith), update_ne f i r {a = n} (omega arith))

entries_step :
    (n k : ℕ) (f : ℕ → Region) (r : Region)
    → k ≡ suc n
    → entries k (update f n r) ≡ entries n f ++ r ∷ []
unfolding entries
entries_step n k f r e = rw (e, entries-update n n f r (omega arith), update_self f n r)

-- From a table with fewer than ten entries `pmm_add_region` appends the region and returns 0 while
-- there are fewer than nine; with nine it returns -ENOMEM and changes nothing. There are fewer than
-- ten entries afterwards too.
pub pmm_add_region_lem :
    (start size : ℕ) (p : RegionMap)
    → p.count < pmm_max_regions
    → let (ret, q) = pmm_add_region start size p in
      (q.count < pmm_max_regions)
      × (p.count < 9
          → (ret ≡ pos 0) × (held q ≡ held p ++ record { start = start; size = size } ∷ []))
      × (p.count ≡ 9 → (ret ≡ minus_enomem) × (q ≡ p))
unfolding pmm_add_region
pmm_add_region_lem start size p h = (bounded, stored, λ full. (ground arith, ground arith))
  where
    one : Region
    one = record { start = start; size = size }

    bounded : (pmm_add_region start size p).1.count < pmm_max_regions
    bounded = ground arith

    stored :
        p.count < 9
        → ((pmm_add_region start size p).0 ≡ pos 0)
          × (held (pmm_add_region start size p).1 ≡ held p ++ one ∷ [])
    stored low =
        let fits : leb pmm_max_regions ((p.count + 1) % 2 ^ 32) ≡ false = ground arith in
        rw fits (refl, entries_step p.count ((p.count + 1) % 2 ^ 32) p.regions one (omega arith))

-- A run of calls of `pmm_add_region`.
unfoldable pub add_all : List Region → RegionMap → RegionMap
add_all [] p = p
add_all (r ∷ rs) p = add_all rs (pmm_add_region r.start r.size p).1

count-pmm_add_region :
    (start size : ℕ) (p : RegionMap)
    → p.count < 9
    → (pmm_add_region start size p).1.count ≡ p.count + 1
unfolding pmm_add_region
count-pmm_add_region start size p h = ground arith

add_all-full : (rs : List Region) (p : RegionMap) → p.count ≡ 9 → add_all rs p ≡ p
unfolding add_all
add_all-full [] p e = refl
add_all-full (r ∷ rs) p e =
    rw ((pmm_add_region_lem r.start r.size p (omega arith)).2 e).1 (add_all-full rs p e)

add_all-nil : (p : RegionMap) → held (add_all [] p) ≡ held p
unfolding add_all
add_all-nil p = refl

add_all-cons :
    (r : Region) (rs : List Region) (p : RegionMap)
    → held (add_all (r ∷ rs) p) ≡ held (add_all rs (pmm_add_region r.start r.size p).1)
unfolding add_all
add_all-cons r rs p = refl

-- However many regions are added, the table keeps the first ones up to nine, in order, and drops the
-- others: with room for `k` more it keeps the first `k`.
pub add_all-take :
    (k : ℕ) (rs : List Region) (p : RegionMap)
    → p.count + k ≡ 9
    → held (add_all rs p) ≡ held p ++ take k rs
add_all-take zero rs p e = rw (add_all-full rs p (omega arith), append-nil)
add_all-take (suc k) [] p e = rw append-nil (add_all-nil p)
add_all-take (suc k) (r ∷ rs) p e =
    let kept = (pmm_add_region_lem r.start r.size p (omega arith)).1 (omega arith) in
    let q = (pmm_add_region r.start r.size p).1 in
    add_all-cons r rs p
    ∙ add_all-take k rs q (omega (arith, count-pmm_add_region r.start r.size p))
    ∙ ap (λ l. l ++ take k rs) kept.1
    ∙ append_assoc (held p) (r ∷ []) (take k rs)
