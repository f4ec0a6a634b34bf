-- ===== src/BlockAllocator/Sizes.antt =====
-- `allocate` and `deallocate` of include/mmap_allocator.hpp and include/cached_allocator.hpp for a number of
-- bytes.
use tri_cache.BlockAllocator.{
  Allocator, allocate, cached_allocate, deallocate, size_to_order, cached_size_to_order,
}
use tri_cache.BlockAllocator.Orders.{size_to_order_fits}
use mathlib.Core.Path.{subst}
use tri_cache.BlockAllocator.Tiles.{
  live_apart, covers, Tiles, Block, Allocated, remove, allocate_order-Tiles, deallocate_order-Tiles,
}
use tri_cache.MemoryPool.{cache_page_size}
use native.Mathlib.Nat.{pow-le-pow_right}
use Prim.Native.Nat.{max}
use tri_cache.Base.{◌∷◌, suc, ℕ, ◌+◌, ◌^◌, ◌≤◌, ◌<◌, ◌≡◌, arith, List, some, get_or, length, dec_lt}

medium : (size : ℕ) → 0 < size → size ≤ 2 ^ 61 → size_to_order size ≤ 61
medium size pos small = elim (dec_lt 61 (size_to_order size)) [
  | no le ↦ omega (arith, le)
  | yes big ↦
      let (_, least) = size_to_order_fits size pos (omega (arith, small)) in
      let high : 2 ^ 62 ≤ 2 ^ size_to_order size = pow-le-pow_right (omega arith) big in
      absurd (omega (arith, least, high, small))
]

module _ (a : Allocator) (live : List Block) (t : Tiles a live) (thread : ℕ)
    (known : thread < length a.free_blocks) (size : ℕ) (small : size ≤ 2 ^ 61) where
  -- `allocate` of at least one byte and at most 2^61, by a known thread, from an allocator whose
  -- free blocks and blocks in use cover each used address once: the block of the size's order is as
  -- large as the size, and after the call the blocks cover the used addresses once again, the new
  -- one being in use, or the call throws and the blocks are as before.
  pub allocate-Tiles :
      0 < size
      → (size ≤ 2 ^ size_to_order size)
        × (let (r, b) = allocate thread size a in Allocated a live (size_to_order size) r b)
  unfolding allocate
  allocate-Tiles pos = (
    (size_to_order_fits size pos (omega (arith, small))).0,
    allocate_order-Tiles a live t thread (size_to_order size) known (medium size pos small),
  )

  pub cached_allocate-Tiles :
      (size ≤ 2 ^ cached_size_to_order size)
      × (cache_page_size ≤ 2 ^ cached_size_to_order size)
      × (let (r, b) = cached_allocate thread size a in
          Allocated a live (cached_size_to_order size) r b)
  unfolding cached_allocate cached_size_to_order
  cached_allocate-Tiles =
      let bytes = max cache_page_size size in
      let (fits, _) = size_to_order_fits bytes (omega arith) (omega (arith, small)) in
      (
        omega (arith, fits),
        omega (arith, fits),
        allocate_order-Tiles a live t thread (size_to_order bytes) known
            (medium bytes (omega arith) (omega (arith, small))),
      )

  -- `deallocate` of a block in use, by a known thread and with a size of the block's order, in an
  -- allocator whose free blocks and blocks in use cover each used address once: they do so after
  -- the call, the block being in use no more.
  pub deallocate-Tiles :
      (i offset : ℕ)
      → 0 < size
      → i < length live
      → get_or live i (0, 0) ≡ (offset, size_to_order size)
      → Tiles (deallocate thread offset size a) (remove live i)
  unfolding deallocate
  deallocate-Tiles i offset pos inside is =
      deallocate_order-Tiles a live t thread (size_to_order size) known (medium size pos small) i
        offset inside is

  -- `allocate` of at least one byte and at most 2^61, by a known thread, from an allocator whose
  -- free blocks and blocks in use cover each used address once, that returns an offset: no address
  -- of the new block is one of a block in use, and each is inside the space that has been used
  -- after the call.
  pub allocate-apart :
      0 < size
      → (offset : ℕ) → (allocate thread size a).0 ≡ some offset
      → (i x : ℕ) → i < length live
      → (covers x (offset, size_to_order size) + covers x (get_or live i (0, 0)) ≤ 1)
        × (covers x (offset, size_to_order size) ≡ 1
            → (let b = (allocate thread size a).1 in
                (b.base_offset ≤ x) × (x < b.base_offset + b.used_size)))
  unfolding get_or
  allocate-apart pos offset returns i x inside =
      let b = (allocate thread size a).1 in
      let tiles : Tiles b ((offset, size_to_order size) ∷ live) =
        subst (λ r. Allocated a live (size_to_order size) r b) returns (allocate-Tiles pos).1 in
      live_apart b ((offset, size_to_order size) ∷ live) 0 (suc i) x tiles (omega arith)
        (omega (arith, inside)) (omega arith)
