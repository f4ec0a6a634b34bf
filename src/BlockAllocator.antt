-- ===== src/BlockAllocator.antt =====
-- include/mmap_allocator.hpp, class `InternalMMapAllocator`, and include/cached_allocator.hpp, class
-- `InternalCachedAllocator`: blocks of 2^k bytes in a space that grows, and the lists of free blocks of each
-- thread. A block is named by its offset; the back of a vector stands first in the list. Threads are numbers
-- below the length of `free_blocks`.
pub mod Orders
pub mod Sizes
pub mod Tiles
use Prim.Native.Nat.{bit_and, max}
use tri_cache.MemoryPool.{cache_page_size}
use tri_cache.Base.{
  ℕ, zero, suc, ◌+◌, ◌-◌, ◌/◌, ◌%◌, ◌^◌, ◌==◌, if◌then◌else◌, ltb, leb, Bool, Option, none, some,
  List, [], ◌∷◌, get_or, set, replicate,
}

-- `MAX_ORDER`, `LARGE_BLOCK_ORDER_THRESHOLD` and `NULL_OFFSET`
abbrev pub max_order : ℕ
max_order = 64

abbrev pub large_block_order_threshold : ℕ
large_block_order_threshold = 20

abbrev pub null_offset : ℕ
null_offset = 2 ^ 64 - 1

-- `recycle_type`
abbrev pub Recycle : Type 0
Recycle = List (List ℕ)

pub record Allocator : Type 0 where
  pub total_size : ℕ
  pub base_offset : ℕ
  pub free_blocks : List Recycle
  pub large_free_blocks : Recycle
  pub used_size : ℕ

-- The constructor, for a number of threads.
unfoldable pub new_allocator : ℕ → ℕ → ℕ → Allocator
new_allocator num_threads total_size base_offset = record {
  total_size = total_size;
  base_offset = base_offset;
  free_blocks = replicate num_threads (replicate large_block_order_threshold []);
  large_free_blocks = replicate max_order [];
  used_size = 0;
}

-- The loop of `size_to_order`; 64 halvings are enough for 64 bits.
unfoldable pub halve : ℕ → ℕ → ℕ → ℕ
halve zero size order = order
halve (suc n) size order =
    let rest = halve n (size / 2) (order + 1) in if ltb 1 size then rest else order

unfoldable pub size_to_order : ℕ → ℕ
size_to_order size = halve 64 size (if bit_and size (size - 1) == 0 then 0 else 1)

-- `size_to_order` of the cached allocator: no block is less than a page.
unfoldable pub cached_size_to_order : ℕ → ℕ
cached_size_to_order size = size_to_order (max cache_page_size size)

-- The offset of a free block, or `NULL_OFFSET`.
unfoldable pub pop : Recycle → ℕ → ℕ × Recycle
pop free_block order = elim (get_or free_block order []) [
  | [] ↦ (null_offset, free_block)
  | offset ∷ rest ↦ (offset, set free_block order rest)
]

unfoldable pub push : Recycle → ℕ → ℕ → Recycle
push free_block order pointer = set free_block order (pointer ∷ get_or free_block order [])

-- The list that a block of this order goes to.
abbrev pub is_small : ℕ → Bool
is_small order = ltb order large_block_order_threshold

abbrev pub with_free : Allocator → ℕ → ℕ → Recycle → Allocator
with_free a thread order free =
    if is_small order
    then record a { free_blocks = set a.free_blocks thread free }
    else record a { large_free_blocks = free }

abbrev pub free_of : Allocator → ℕ → ℕ → Recycle
free_of a thread order =
    if is_small order then get_or a.free_blocks thread [] else a.large_free_blocks

-- `fetch_add`, which wraps at 64 bits. `none` is `std::bad_alloc`.
-- A shift of `1ul` by 64 is undefined in the source; here the bit is lost.
abbrev pub take_new : Allocator → ℕ → Option ℕ × Allocator
take_new a order =
    let block_size = 2 ^ order % 2 ^ 64 in
    let used = (a.used_size + block_size) % 2 ^ 64 in
    if leb a.total_size a.used_size
    then (none, record a { used_size = (used + 2 ^ 64 - block_size) % 2 ^ 64 })
    else (some ((a.used_size + a.base_offset) % 2 ^ 64), record a { used_size = used })

-- `allocate`, of a block of an order.
unfoldable pub allocate_order : ℕ → ℕ → Allocator → Option ℕ × Allocator
allocate_order thread order a =
    let (offset, free) = pop (free_of a thread order) order in
    if offset == null_offset then take_new a order else (some offset, with_free a thread order free)

unfoldable pub allocate : ℕ → ℕ → Allocator → Option ℕ × Allocator
allocate thread size a = allocate_order thread (size_to_order size) a

unfoldable pub cached_allocate : ℕ → ℕ → Allocator → Option ℕ × Allocator
cached_allocate thread size a = allocate_order thread (cached_size_to_order size) a

unfoldable pub deallocate_order : ℕ → ℕ → ℕ → Allocator → Allocator
deallocate_order thread offset order a =
    with_free a thread order (push (free_of a thread order) order offset)

unfoldable pub deallocate : ℕ → ℕ → ℕ → Allocator → Allocator
deallocate thread offset size a = deallocate_order thread offset (size_to_order size) a

unfoldable pub cached_deallocate : ℕ → ℕ → ℕ → Allocator → Allocator
cached_deallocate thread offset size a =
    deallocate_order thread offset (cached_size_to_order size) a
