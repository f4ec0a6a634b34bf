-- ===== src/Tests/AllocatorTests.antt =====
-- The allocators of include/mmap_allocator.hpp and include/cached_allocator.hpp for one thread and 10000 bytes.
use tri_cache.BlockAllocator.{
  Allocator, new_allocator, allocate, allocate_order, deallocate, size_to_order, halve, pop,
}
use tri_cache.BlockAllocator.Orders.{size_to_order_fits}
use tri_cache.BlockAllocator.Tiles.{Tiles, Allocated, remove, covers, new-Tiles}
use tri_cache.BlockAllocator.Sizes.{allocate-Tiles, deallocate-Tiles, allocate-apart}
use tri_cache.Base.{◌+◌, ◌*◌, ◌^◌, ◌≤◌, ◌<◌, ◌≡◌, arith, refl, [], ◌∷◌, length, get_or, replicate}

abbrev one_thread : Allocator
one_thread = new_allocator 1 10000 0

one-Tiles : Tiles one_thread []
one-Tiles = new-Tiles 1 10000 0 (omega arith) (omega arith)

one_known : 0 < length one_thread.free_blocks
unfolding new_allocator replicate
one_known = omega arith

size_to_order_fits_example : (5000 ≤ 2 ^ size_to_order 5000) × (2 ^ size_to_order 5000 < 2 * 5000)
size_to_order_fits_example = size_to_order_fits 5000 (omega arith) (omega arith)

allocate-Tiles_example :
    (5000 ≤ 2 ^ size_to_order 5000)
    × (let (r, b) = allocate 0 5000 one_thread in Allocated one_thread [] (size_to_order 5000) r b)
allocate-Tiles_example =
    allocate-Tiles one_thread [] one-Tiles 0 one_known 5000 (omega arith) (omega arith)

abbrev one_block : Allocator
one_block = (allocate 0 5000 one_thread).1

one_block-Tiles : Tiles one_block ((0, 13) ∷ [])
unfolding allocate allocate_order new_allocator size_to_order halve pop get_or replicate
one_block-Tiles =
    (allocate-Tiles one_thread [] one-Tiles 0 one_known 5000 (omega arith) (omega arith)).1

one_block_known : 0 < length one_block.free_blocks
unfolding allocate allocate_order new_allocator size_to_order halve pop get_or replicate
one_block_known = omega arith

abbrev two_blocks : Allocator
two_blocks = (allocate 0 5000 one_block).1

deallocate-Tiles_example : Tiles (deallocate 0 0 5000 one_block) (remove ((0, 13) ∷ []) 0)
unfolding get_or size_to_order halve
deallocate-Tiles_example =
    deallocate-Tiles one_block ((0, 13) ∷ []) one_block-Tiles 0 one_block_known 5000 (omega arith) 0
      0 (omega arith) (omega arith) refl

allocate-apart_example :
    (covers 8200 (8192, size_to_order 5000) + covers 8200 (0, 13) ≤ 1)
    × (covers 8200 (8192, size_to_order 5000) ≡ 1
        → (two_blocks.base_offset ≤ 8200) × (8200 < two_blocks.base_offset + two_blocks.used_size))
unfolding allocate allocate_order new_allocator size_to_order halve pop get_or replicate
allocate-apart_example =
    allocate-apart one_block ((0, 13) ∷ []) one_block-Tiles 0 one_block_known 5000 (omega arith)
      (omega arith) 8192 refl 0 8200 (omega arith)
