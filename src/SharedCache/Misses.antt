-- ===== src/SharedCache/Misses.antt =====
-- `pin` of include/shared_cache.hpp for a page that is absent: the client finds no mapping, and the server
-- answers its first request.
use tri_cache.SharedCache.{
  Partition, SharedCache, pointer, empty_pointer, answer, direct_pin, shared_pin, put_partition,
  pin_again,
}
use tri_cache.SharedCache.Hits.{IsPartition, Moves, moved}
use tri_cache.SharedCache.Answers.{answer_miss}
use tri_cache.Messages.{pin}
use tri_cache.SharedSingleThreadCache.{Context, Functions, full_pin}
use tri_cache.SharedSingleThreadCache.Frames.{IsPage}
use tri_cache.SharedSingleThreadCache.Assigned.{Missed, assigned_view}
use tri_cache.Replacement.Policy.{Operations, IsPolicy}
use tri_cache.MemoryPool.{cache_page_size}
use tri_cache.Partitioner.{RoundRobin, locate}
use tri_cache.PageTable.Table.{Pte, Table}
use tri_cache.PageTable.Mapping
use tri_cache.PageTable.Mapping.{find_hint, get_pte}
use tri_cache.PageTable.Place.{IsTable, At}
use tri_cache.PageTable.Effects.{pin-Writes}
use tri_cache.Base.{
  ◌>>=◌, ℕ, zero, suc, ◌+◌, ◌*◌, ◌^◌, ◌<◌, ◌≡◌, ◌≢◌, ltb, Bool, true, false, some, none, Returns,
  arith, refl, length, ap, inl, inr, Option-cases, ==_eq_false, ==_refl,
}

-- The page table has no page to pin.
pin_absent :
    {t : Table} {e : Pte}
    → IsTable t
    → (v : ℕ) → IsPage v
    → get_pte t v none ≡ some e
    → e.exist ≡ false
    → e.ref_count + 1 < 2 ^ 13
    → Mapping.pin t v none ≡ some ((false, 0, 0), t)
unfolding Mapping.pin find_hint
pin_absent {t} table v page read gone room = elim (Option-cases (find_hint t v)) [
  | inl unlined ↦ ground (arith, unlined)
  | inr (h, found) ↦
      let at : At t v h none = record {
        table = table;
        real = omega arith;
        found = found;
        hinted = inl refl;
      } in
      (pin-Writes at read room).1 (inl gone)
]

module _ {E X S W : Type 0} (ops : Operations S) (f : Functions E X W) (fresh : Context E X)
    (valid : S → Type 0) (bound : S → ℕ) (holds : S → ℕ → Bool)
    (policy : IsPolicy ops valid bound holds) where
  -- A pointer ends the loop.
  pin_first :
      (n fuel : ℕ) (r : RoundRobin) (vpage_id : ℕ) (p : Partition E S W) (a : ℕ × Partition E S W)
      → 0 < n
      → answer ops f fresh fuel r (record { type = pin; page_id = vpage_id; resp = some 0 }) p
        ≡ some a
      → a.0 ≢ empty_pointer
      → pin_again ops f fresh n fuel r vpage_id p ≡ some (pointer a.0, a.1)
  unfolding pin_again
  pin_first zero fuel r vpage_id p a some_rounds answers real = absurd (omega (arith, some_rounds))
  pin_first (suc n) fuel r vpage_id p a some_rounds answers real =
      rw (answers, ◌>>=◌, ==_eq_false a.0 empty_pointer real) refl

  -- `SharedCache::pin` of a page below `num_vpages` that is absent in its partition, which is in
  -- good shape, not full of pinned frames, with a line in the pool and memory that ends below 2^64,
  -- where `evict_func` and `load_func` are done at once: the call returns the address of a frame
  -- that the page is loaded into, as `pin` of the cache does it, the partition is in good shape and
  -- the other partitions are as before.
  pub shared_pin_absent :
      (fuel : ℕ) (s : SharedCache E S W) (vpage_id : ℕ) (view : ℕ → Pte)
      → vpage_id < s.num_vpages
      → (let (sid, v) = locate s.partitioner vpage_id in
          let p = s.partitions sid in
          IsPage v
          → IsPartition ops f fresh valid bound holds policy p view
          → p.phy_memory_pool.pool + p.phy_memory_pool.num_pages * cache_page_size < 2 ^ 64
          → 0 < length p.single_thread_cache.page_table.pool
          → ((x : X) (v p : ℕ) (d : Bool) (s : E) (w : W) → (f.evict x v p d s w).0 ≡ true)
          → ((x : X) (v p : ℕ) (s : E) (w : W) → (f.load x v p s w).0 ≡ true)
          → (view v).exist ≡ false
          → full_pin p.single_thread_cache ≡ false
          → Returns (shared_pin ops f fresh fuel vpage_id s) (λ a.
            (q : ℕ) × (a.0 ≡ pointer (p.phy_memory_pool.pool + q * cache_page_size))
            × Missed ops f valid bound holds p.single_thread_cache view v q
                (a.1.partitions sid).single_thread_cache
            × Moves ops f fresh valid bound holds policy s sid
                (assigned_view ops f valid bound holds p.single_thread_cache view v q)
                a.1))
  unfolding shared_pin direct_pin
  shared_pin_absent fuel s vpage_id view inside page good fits stocked evicts loads gone room =
      let (sid, v) = locate s.partitioner vpage_id in
      let p = s.partitions sid in
      let (a, answers, says) =
        answer_miss ops f fresh valid bound holds policy fuel s.partitioner vpage_id (some 0) good
          page stocked evicts loads gone room in
      let (q, small, address, same_pool, missed) = says in
      let is = good.is_cache in
      let fails =
        pin_absent is.table v page (is.reads v page) gone
          (ground (arith, is.frames.absent v page gone)) in
      let real : a.0 ≢ empty_pointer = λ e. omega (arith, address, small, fits, e) in
      let again =
        pin_first (2 ^ 20 + 1) fuel s.partitioner vpage_id p a (omega arith) answers real in
      let there : ltb vpage_id s.num_vpages ≡ true = ground (arith, inside) in
      let after : IsPartition ops f fresh valid bound holds policy a.1
          (assigned_view ops f valid bound holds p.single_thread_cache view v q) =
        record {
          is_cache = missed.is_cache;
          backed = rw (same_pool, missed.same_max) good.backed;
        } in
      (
        (pointer a.0, put_partition ops f fresh s sid a.1),
        rw (there, ◌>>=◌, fails, again) refl,
        (
          q,
          ap pointer address,
          rw (==_refl sid) missed,
          moved ops f fresh valid bound holds policy s sid a.1 _ after,
        ),
      )
