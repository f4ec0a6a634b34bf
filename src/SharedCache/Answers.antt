-- ===== src/SharedCache/Answers.antt =====
-- What a server of include/shared_cache.hpp answers to a request for a pin, and `pin` of a page that is absent.
use tri_cache.SharedCache.{Partition, empty_pointer, answer, first_processing}
use tri_cache.SharedCache.Hits.{IsPartition}
use tri_cache.Messages.{pin}
use tri_cache.SharedSingleThreadCache.{Cache, Context, Functions, full_pin, ended, no_ppage_id}
use tri_cache.SharedSingleThreadCache.Methods
use tri_cache.SharedSingleThreadCache.Frames.{IsPage}
use tri_cache.SharedSingleThreadCache.Invariant.{IsCache}
use tri_cache.SharedSingleThreadCache.Assigned.{Missed}
use tri_cache.SharedSingleThreadCache.Calls.{pin_miss, pin_hit, pin_refused}
use tri_cache.Replacement.Policy.{Operations, IsPolicy}
use tri_cache.MemoryPool.{from_page_id, cache_page_size}
use tri_cache.Partitioner.{RoundRobin, locate}
use tri_cache.PageTable.Table.{Pte}
use tri_cache.Base.{
  ℕ, ◌+◌, ◌*◌, ◌^◌, ◌<◌, ◌≡◌, ◌==◌, if◌then◌else◌, Bool, true, false, some, Option, Returns, arith,
  refl, length, ap,
}

module _ {E X S W : Type 0} (ops : Operations S) (f : Functions E X W) (fresh : Context E X)
    (valid : S → Type 0) (bound : S → ℕ) (holds : S → ℕ → Bool)
    (policy : IsPolicy ops valid bound holds) where
  -- The pin of a frame, answered at once.
  answers_frame :
      (fuel : ℕ) (r : RoundRobin) (vpage_id : ℕ) (resp : Option ℕ) (p : Partition E S W)
      (a : Context E X × Cache E S W)
      → Methods.pin ops f (locate r vpage_id).1 fresh p.single_thread_cache ≡ some a
      → a.0.phase ≡ ended
      → a.0.ppage_id < p.phy_memory_pool.num_pages
      → p.phy_memory_pool.num_pages < no_ppage_id
      → answer ops f fresh fuel r (record { type = pin; page_id = vpage_id; resp = resp }) p
        ≡ some (
          p.phy_memory_pool.pool + a.0.ppage_id * cache_page_size,
          record p { single_thread_cache = a.1 },
        )
  unfolding answer first_processing from_page_id
  answers_frame fuel r vpage_id resp p a pins over inside few = ground (arith, pins, over)

  module _ (fuel : ℕ) (r : RoundRobin) (vpage_id : ℕ) (resp : Option ℕ) {p : Partition E S W}
      {view : ℕ → Pte} (good : IsPartition ops f fresh valid bound holds policy p view)
      (page : IsPage (locate r vpage_id).1) where
    abbrev asked : Option (ℕ × Partition E S W)
    asked = answer ops f fresh fuel r (record { type = pin; page_id = vpage_id; resp = resp }) p

    few : p.phy_memory_pool.num_pages < no_ppage_id
    few = omega (arith, good.backed, good.is_cache.small)

    pub answer_hit :
        (view (locate r vpage_id).1).exist ≡ true
        → (view (locate r vpage_id).1).ref_count + 1 < 2 ^ 13
        → Returns asked (λ a.
          (a.0 ≡ p.phy_memory_pool.pool + (view (locate r vpage_id).1).ppage_id * cache_page_size)
          × IsCache ops f valid bound holds a.1.single_thread_cache (λ w.
            if w == (locate r vpage_id).1
            then record (view (locate r vpage_id).1) {
              ref_count = (view (locate r vpage_id).1).ref_count + 1;
            }
            else view w))
    answer_hit here room =
        let v = (locate r vpage_id).1 in
        let c_frames = good.is_cache.frames in
        let (a, pins, says) =
          pin_hit ops f valid bound holds policy good.is_cache v page fresh here room in
        let in_pool : a.0.ppage_id < p.phy_memory_pool.num_pages =
          omega (arith, says.1, good.backed, (c_frames.mapped v page here).0) in
        (
          (
            p.phy_memory_pool.pool + a.0.ppage_id * cache_page_size,
            record p { single_thread_cache = a.1 },
          ),
          answers_frame fuel r vpage_id resp p a pins says.0 in_pool few,
          (ap (λ (q : ℕ). p.phy_memory_pool.pool + q * cache_page_size) says.1, says.2),
        )

    pub answer_miss :
        0 < length p.single_thread_cache.page_table.pool
        → ((x : X) (v p : ℕ) (d : Bool) (s : E) (w : W) → (f.evict x v p d s w).0 ≡ true)
        → ((x : X) (v p : ℕ) (s : E) (w : W) → (f.load x v p s w).0 ≡ true)
        → (view (locate r vpage_id).1).exist ≡ false
        → full_pin p.single_thread_cache ≡ false
        → Returns asked (λ a.
          (q : ℕ) × (q < p.phy_memory_pool.num_pages)
          × (a.0 ≡ p.phy_memory_pool.pool + q * cache_page_size)
          × (a.1.phy_memory_pool ≡ p.phy_memory_pool)
          × Missed ops f valid bound holds p.single_thread_cache view
              (locate r vpage_id).1
              q
              a.1.single_thread_cache)
    answer_miss stocked evicts loads gone room =
        let v = (locate r vpage_id).1 in
        let (a, pins, says) =
          pin_miss ops f valid bound holds policy good.is_cache v page fresh stocked evicts loads
            gone room in
        let in_pool : a.0.ppage_id < p.phy_memory_pool.num_pages =
          omega (arith, good.backed, says.1.inside) in
        (
          (
            p.phy_memory_pool.pool + a.0.ppage_id * cache_page_size,
            record p { single_thread_cache = a.1 },
          ),
          answers_frame fuel r vpage_id resp p a pins says.0 in_pool few,
          (a.0.ppage_id, in_pool, refl, refl, says.1),
        )

    pub answer_refused :
        0 < length p.single_thread_cache.page_table.pool
        → (view (locate r vpage_id).1).exist ≡ false
        → full_pin p.single_thread_cache ≡ true
        → Returns asked (λ a.
          (a.0 ≡ empty_pointer) × IsCache ops f valid bound holds a.1.single_thread_cache view)
    unfolding answer first_processing
    answer_refused stocked gone none_left =
        let v = (locate r vpage_id).1 in
        let (a, pins, says) =
          pin_refused ops f valid bound holds policy good.is_cache v page fresh stocked gone
            none_left in
        (
          (empty_pointer, record p { single_thread_cache = a.1 }),
          ground (arith, pins, says.0, says.1),
          (refl, says.2),
        )
