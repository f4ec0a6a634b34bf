-- ===== src/SharedCache/Hits.antt =====
-- `pin` and `unpin` of include/shared_cache.hpp for a page that is mapped, from the partition before the call
-- to the partition after the server has handled the notice.
use tri_cache.SharedCache.{
  Partition, SharedCache, Outcome, pointer, unpinned, direct_pin, first_processing, shared_pin,
  shared_unpin, put_partition,
}
use tri_cache.SharedCache.Direct.{pinned_direct, unpinned_direct, notify_pin_max, notify_unpin_max}
use tri_cache.SharedSingleThreadCache.{Context, Functions}
use tri_cache.SharedSingleThreadCache.Frames.{IsPage}
use tri_cache.SharedSingleThreadCache.Invariant.{IsCache}
use tri_cache.Replacement.Policy.{Operations, IsPolicy}
use tri_cache.MemoryPool.{from_page_id, cache_page_size}
use tri_cache.Partitioner.{RoundRobin, locate}
use tri_cache.PageTable.Table.{Pte}
use tri_cache.Base.{
  ℕ, ◌+◌, ◌-◌, ◌*◌, ◌^◌, ◌<◌, ◌≡◌, ◌≢◌, ◌==◌, ◌||◌, ltb, if◌then◌else◌, Bool, true, some, Option,
  Returns, arith, refl, inl, inr, Bool-cases, ◌∙◌, sym, ==_refl, ==_eq_false,
}

module _ {E X S W : Type 0} (ops : Operations S) (f : Functions E X W) (fresh : Context E X)
    (valid : S → Type 0) (bound : S → ℕ) (holds : S → ℕ → Bool)
    (policy : IsPolicy ops valid bound holds) where
  -- The partition is in good shape, and has a frame in memory for each of its cache.
  pub record IsPartition (p : Partition E S W) (view : ℕ → Pte) : Type 0 where
    pub is_cache : IsCache ops f valid bound holds p.single_thread_cache view
    pub backed : p.phy_memory_pool.num_pages ≡ p.single_thread_cache.max_ppage_id

  -- `t` differs from `s` in one partition, which is in good shape.
  pub record Moves (s : SharedCache E S W) (sid : ℕ) (view : ℕ → Pte) (t : SharedCache E S W)
      : Type 0 where
    pub good : IsPartition (t.partitions sid) view
    pub others : (k : ℕ) → k ≢ sid → t.partitions k ≡ s.partitions k
    pub same : (t.num_vpages ≡ s.num_vpages) × (t.partitioner ≡ s.partitioner)

  -- The address of a frame that the cache has.
  frame_address :
      (p : Partition E S W) (view : ℕ → Pte)
      → IsPartition p view
      → (v : ℕ) → IsPage v
      → (view v).exist ≡ true
      → from_page_id p.phy_memory_pool (view v).ppage_id
        ≡ some (p.phy_memory_pool.pool + (view v).ppage_id * cache_page_size)
  unfolding from_page_id
  frame_address p view good v page here =
      ground (arith, good.backed, good.is_cache.frames.mapped v page here)

  direct_pin_mapped :
      (r : RoundRobin) (vpage_id : ℕ) (p : Partition E S W) (view : ℕ → Pte)
      → (let v = (locate r vpage_id).1 in
          IsPage v
          → IsPartition p view
          → (view v).exist ≡ true
          → (view v).ref_count + 1 < 2 ^ 13
          → Returns (direct_pin ops f fresh r vpage_id p) (λ a.
            (a.0 ≡ some (p.phy_memory_pool.pool + (view v).ppage_id * cache_page_size))
            × IsPartition a.1 (λ w.
              if w == v then record (view v) { ref_count = (view v).ref_count + 1 } else view w)))
  unfolding direct_pin first_processing
  direct_pin_mapped r vpage_id p view page good here room =
      let v = (locate r vpage_id).1 in
      let (a, pins, says) =
        pinned_direct ops f valid bound holds policy good.is_cache v page here room in
      let (d, tells, is) = says.1 in
      let c = record p.single_thread_cache { page_table = a.1 } in
      let address = frame_address p view good v page here in
      let same = notify_pin_max ops f ((view v).ref_count == 0) v c d tells in
      let result : Option ℕ × Partition E S W = (
        some (p.phy_memory_pool.pool + (view v).ppage_id * cache_page_size),
        record p { single_thread_cache = d },
      ) in
      let runs : direct_pin ops f fresh r vpage_id p ≡ some result =
        elim (Bool-cases ((view v).ref_count == 0)) [
          | inl first ↦ ground (arith, pins, says.0, tells, first, address)
          | inr more ↦ ground (arith, pins, says.0, tells, more, address)
        ] in
      (result, runs, (refl, record { is_cache = is; backed = good.backed ∙ sym same }))

  pub moved :
      (s : SharedCache E S W) (sid : ℕ) (q : Partition E S W) (view : ℕ → Pte)
      → IsPartition q view
      → Moves s sid view (put_partition ops f fresh s sid q)
  moved s sid q view good = record {
    good = rw (==_refl sid) good;
    others = λ k other. rw (==_eq_false k sid other) refl;
    same = (refl, refl);
  }

  -- `SharedCache::pin` of a page below `num_vpages` that is mapped in its partition, which is in
  -- good shape, with less than 2^13 - 1 references: the call returns the address of the page's
  -- frame; in that partition the page has a reference more, and it is in good shape after the
  -- notice; the other partitions are as before.
  pub shared_pin_mapped :
      (fuel : ℕ) (s : SharedCache E S W) (vpage_id : ℕ) (view : ℕ → Pte)
      → vpage_id < s.num_vpages
      → (let (sid, v) = locate s.partitioner vpage_id in
          IsPage v
          → IsPartition (s.partitions sid) view
          → (view v).exist ≡ true
          → (view v).ref_count + 1 < 2 ^ 13
          → Returns (shared_pin ops f fresh fuel vpage_id s) (λ a.
            (a.0
              ≡ pointer
                  ((s.partitions sid).phy_memory_pool.pool + (view v).ppage_id * cache_page_size))
            × Moves s sid
                (λ w.
                  if w == v then record (view v) { ref_count = (view v).ref_count + 1 } else view w)
                a.1))
  unfolding shared_pin
  shared_pin_mapped fuel s vpage_id view inside page good here room =
      let (sid, v) = locate s.partitioner vpage_id in
      let p = s.partitions sid in
      let (a, pins, says) = direct_pin_mapped s.partitioner vpage_id p view page good here room in
      let address = p.phy_memory_pool.pool + (view v).ppage_id * cache_page_size in
      let there : ltb vpage_id s.num_vpages ≡ true = ground (arith, inside) in
      (
        (pointer address, put_partition ops f fresh s sid a.1),
        ground (arith, there, pins, says.0),
        (refl, moved s sid a.1 _ says.1),
      )

  -- `SharedCache::unpin` of a page below `num_vpages` that is mapped in its partition, which is in
  -- good shape, with a reference: in that partition the page has a reference less and is dirty if
  -- it was or if it was written, and it is in good shape after the notice; the other partitions are
  -- as before.
  pub shared_unpin_mapped :
      (s : SharedCache E S W) (vpage_id : ℕ) (is_write : Bool) (view : ℕ → Pte)
      → vpage_id < s.num_vpages
      → (let (sid, v) = locate s.partitioner vpage_id in
          IsPage v
          → IsPartition (s.partitions sid) view
          → (view v).exist ≡ true
          → 0 < (view v).ref_count
          → Returns (shared_unpin ops f fresh vpage_id is_write s) (λ a.
            (a.0 ≡ unpinned)
            × Moves s sid
                (λ w.
                  if w == v
                  then record (view v) {
                    ref_count = (view v).ref_count - 1;
                    dirty = is_write || (view v).dirty;
                  }
                  else view w)
                a.1))
  unfolding shared_unpin first_processing
  shared_unpin_mapped s vpage_id is_write view inside page good here some_left =
      let (sid, v) = locate s.partitioner vpage_id in
      let p = s.partitions sid in
      let (a, unpins, says) =
        unpinned_direct ops f valid bound holds policy good.is_cache v page here is_write
          some_left in
      let (d, tells, is) = says.1 in
      let c = record p.single_thread_cache { page_table = a.1 } in
      let q = record p { single_thread_cache = d } in
      let same = notify_unpin_max ops f ((view v).ref_count == 1) v c d tells in
      let there : ltb vpage_id s.num_vpages ≡ true = ground (arith, inside) in
      let result : Outcome × SharedCache E S W = (unpinned, put_partition ops f fresh s sid q) in
      let runs : shared_unpin ops f fresh vpage_id is_write s ≡ some result =
        elim (Bool-cases ((view v).ref_count == 1)) [
          | inl last ↦ ground (arith, there, unpins, says.0, tells, last)
          | inr more ↦ ground (arith, there, unpins, says.0, tells, more)
        ] in
      (
        result,
        runs,
        (refl, moved s sid q _ (record { is_cache = is; backed = good.backed ∙ sym same })),
      )
