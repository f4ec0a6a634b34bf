-- ===== src/MemoryPool.antt =====
-- include/memory_pool.hpp, class `MemoryPool`: the frames of a partition. Pointers are addresses, and
-- the addresses that `mmap_alloc` returns and the bytes it finds there are arguments. The page size is
-- the default of include/type.hpp.
pub mod Laws
use tri_cache.Base.{
  ℕ, ◌+◌, ◌-◌, ◌*◌, ◌/◌, ◌%◌, ◌^◌, ◌==◌, if◌then◌else◌, ltb, Bool, true, false, ◌&&◌, List, get_or,
  set, Option, none, some,
}

-- `CACHE_PAGE_SIZE`
abbrev pub cache_page_size : ℕ
cache_page_size = 2 ^ 12

pub record MemoryPool : Type 0 where
  pub num_pages : ℕ
  pub pool : ℕ
  pub mmap_pool : Option ℕ
  pub first_loaded : List Bool

-- The first multiple of the page size from `p` on.
unfoldable pub align : ℕ → ℕ
align p = p + (cache_page_size - p % cache_page_size) % cache_page_size

-- The constructor: the external memory, or `mapped` of `mmap_alloc`.
unfoldable pub new_pool_of : ℕ → Option ℕ → ℕ → List Bool → MemoryPool
unfolding align
new_pool_of num_pages external mapped bytes = elim external [
  | some p ↦ record { num_pages = num_pages; pool = p; mmap_pool = none; first_loaded = bytes }
  | none ↦ record {
    num_pages = num_pages;
    pool = align mapped;
    mmap_pool = some mapped;
    first_loaded = bytes;
  }
]

-- A failed assertion is `none`.
unfoldable pub from_page_id : MemoryPool → ℕ → Option ℕ
from_page_id m id = if ltb id m.num_pages then some (m.pool + id * cache_page_size) else none

unfoldable pub to_page_id : MemoryPool → ℕ → Option ℕ
to_page_id m ptr =
    if ptr % m.num_pages == 0
      && (ltb m.pool ptr && ltb ptr (m.pool + m.num_pages * cache_page_size))
    then some ((ptr - m.pool) / m.num_pages)
    else none

-- The flag before.
unfoldable pub loaded : MemoryPool → ℕ → Bool × MemoryPool
loaded m id =
    (get_or m.first_loaded id false, record m { first_loaded = set m.first_loaded id true })
