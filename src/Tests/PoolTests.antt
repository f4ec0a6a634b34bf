-- ===== src/Tests/PoolTests.antt =====
-- Small pools of include/memory_pool.hpp.
use tri_cache.MemoryPool.{MemoryPool, from_page_id, to_page_id}
use tri_cache.MemoryPool.Laws.{to_page_id-from_page_id}
use tri_cache.Base.{◌≡◌, ◌≢◌, arith, refl, [], some, none}

abbrev many_frames : MemoryPool
many_frames = record { num_pages = 8192; pool = 8192; mmap_pool = none; first_loaded = [] }

-- Frame 2 is at the address 16384, which is taken for frame 1.
to_page_id-from_page_id_example : to_page_id many_frames 16384 ≢ some 2
to_page_id-from_page_id_example =
    to_page_id-from_page_id many_frames 2 16384 (omega arith) (unfold from_page_id in refl)

frame_2_as_1 : to_page_id many_frames 16384 ≡ some 1
unfolding to_page_id
frame_2_as_1 = refl
