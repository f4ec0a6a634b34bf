-- ===== src/Tests/SharedCacheTests.antt =====
-- The cache of include/shared_cache.hpp with one partition of two frames, at address 8192, over the cache and
-- the functions of the tests of the shared single-thread cache.
use tri_cache.Tests.CacheTests.{
  counting, some_context, max_of, two_empty, two_shape, two_empty_stocked, two_room, one_full,
  one_nine, one_frame, one_shape,
}
use tri_cache.SharedCache.{Partition, SharedCache, pointer, unpinned, shared_pin, shared_unpin}
use tri_cache.SharedCache.Hits.{IsPartition, Moves, shared_pin_mapped, shared_unpin_mapped}
use tri_cache.SharedCache.Misses.{shared_pin_absent}
use tri_cache.SharedSingleThreadCache.Assigned.{Missed, assigned_view}
use tri_cache.SharedSingleThreadCache.Methods.{new_cache}
use tri_cache.Replacement.Clock.{Clock}
use tri_cache.Replacement.Clock.Sweep.{IsValid}
use tri_cache.Replacement.Policy.{clock, clock_holds, clock-IsPolicy}
use tri_cache.MemoryPool.{cache_page_size}
use tri_cache.Partitioner.{locate}
use tri_cache.PageTable.Table.{Pte, empty_pte}
use tri_cache.Base.{
  ℕ, ◌+◌, ◌-◌, ◌*◌, ◌≡◌, ◌==◌, if◌then◌else◌, true, none, Returns, arith, refl, sym, [],
}

abbrev one_partition : SharedCache ℕ Clock ℕ
one_partition = record {
  num_vpages = 16;
  partitioner = record { num_partitions = 1; num_vpages = 16 };
  partitions = λ k. record {
    phy_memory_pool = record { num_pages = 2; pool = 8192; mmap_pool = none; first_loaded = [] };
    single_thread_cache = two_empty;
  };
}

abbrev Good : Partition ℕ Clock ℕ → (ℕ → Pte) → Type 0
Good = IsPartition clock counting some_context IsValid max_of clock_holds clock-IsPolicy

abbrev Goes : SharedCache ℕ Clock ℕ → ℕ → (ℕ → Pte) → SharedCache ℕ Clock ℕ → Type 0
Goes = Moves clock counting some_context IsValid max_of clock_holds clock-IsPolicy

one-Good : Good (one_partition.partitions 0) (λ _. empty_pte)
unfolding new_cache
one-Good = record { is_cache = two_shape; backed = refl }

abbrev with_nine : ℕ → ℕ → Pte
with_nine = assigned_view clock counting IsValid max_of clock_holds two_empty (λ _. empty_pte) 9

abbrev Pinned : Type 0
Pinned = Returns (shared_pin clock counting some_context 0 9 one_partition) (λ a.
    (q : ℕ) × (a.0 ≡ pointer (8192 + q * cache_page_size))
    × Missed clock counting IsValid max_of clock_holds two_empty (λ _. empty_pte) 9 q
        (a.1.partitions 0).single_thread_cache
    × Goes one_partition 0 (with_nine q) a.1)

abbrev pinned : Pinned
unfolding locate
pinned =
    shared_pin_absent clock counting some_context IsValid max_of clock_holds clock-IsPolicy 0
      one_partition 9 (λ _. empty_pte) (omega arith) (omega arith) one-Good (omega arith)
      two_empty_stocked (λ x v p d s w. refl) (λ x v p s w. refl) refl two_room

abbrev with_page : SharedCache ℕ Clock ℕ
with_page = record one_partition { partitions = λ k. pinned.0.1.partitions 0 }

abbrev nine : ℕ → Pte
nine = with_nine pinned.2.0

abbrev counted : ℕ → ℕ → Pte
counted n w = if w == 9 then record (nine 9) { ref_count = n } else nine w

shared_pin_mapped_example : Returns (shared_pin clock counting some_context 0 9 with_page) (λ a.
    (a.0
      ≡ pointer
          ((with_page.partitions 0).phy_memory_pool.pool + (nine 9).ppage_id * cache_page_size))
    × Goes with_page 0 (counted 2) a.1)
unfolding locate
shared_pin_mapped_example =
    shared_pin_mapped clock counting some_context IsValid max_of clock_holds clock-IsPolicy 0
      with_page 9 nine (omega arith) (omega arith) pinned.2.3.good refl (omega arith)

shared_unpin_mapped_example :
    Returns (shared_unpin clock counting some_context 9 true with_page) (λ a.
      (a.0 ≡ unpinned)
      × Goes with_page 0
          (λ w.
            if w == 9
            then record (nine 9) { ref_count = (nine 9).ref_count - 1; dirty = true }
            else nine w)
          a.1)
unfolding locate
shared_unpin_mapped_example =
    shared_unpin_mapped clock counting some_context IsValid max_of clock_holds clock-IsPolicy
      with_page 9 true nine (omega arith) (omega arith) pinned.2.3.good refl (omega arith)

-- One frame, which holds a pinned page.
abbrev full_partition : Partition ℕ Clock ℕ
full_partition = record {
  phy_memory_pool = record { num_pages = 1; pool = 8192; mmap_pool = none; first_loaded = [] };
  single_thread_cache = one_full;
}

full-Good : Good full_partition one_nine
full-Good = record { is_cache = one_shape; backed = sym one_frame }
