-- ===== src/MemoryPool/Laws.antt =====
-- The places of the frames of include/memory_pool.hpp, and their flags.
use tri_cache.MemoryPool.{
  MemoryPool, cache_page_size, align, new_pool_of, from_page_id, to_page_id, loaded,
}
use tri_cache.Base.{
  ◌-◌, ℕ, ◌+◌, ◌*◌, ◌/◌, ◌%◌, ◌≤◌, ◌<◌, ◌≡◌, ◌≢◌, arith, Bool, true, false, List, length,
  get_or-set, none, some, dec_lt,
}
use native.Mathlib.Nat.{div-lt_iff_lt-mul, mul-lt-mul_of_pos_left}

-- The frames of a pool that maps its own memory begin at a page boundary, and two different frames do
-- not overlap; all are inside the memory of `num_pages` pages and one that is mapped.
pub from_page_id-apart :
    (n mapped : ℕ) (bytes : List Bool) (i j p q : ℕ)
    → from_page_id (new_pool_of n none mapped bytes) i ≡ some p
    → from_page_id (new_pool_of n none mapped bytes) j ≡ some q
    → i < j
    → (p % cache_page_size ≡ 0)
      × (mapped ≤ p)
      × (p + cache_page_size ≤ q)
      × (q + cache_page_size ≤ mapped + (n * cache_page_size + cache_page_size))
unfolding from_page_id new_pool_of align
from_page_id-apart n mapped bytes i j p q e f lt =
    (ground (arith, e), ground (arith, e), ground (arith, e, f), ground (arith, f))

-- After `loaded` of a frame in bounds, `loaded` returns true for it, and for every other frame what it
-- would have returned before.
pub loaded-once :
    (m : MemoryPool) (i j : ℕ)
    → i < length m.first_loaded
    → ((loaded (loaded m i).1 i).0 ≡ true) × (i ≢ j → (loaded (loaded m i).1 j).0 ≡ (loaded m j).0)
unfolding loaded
loaded-once m i j lt = (
  ground (arith, get_or-set m.first_loaded i i true false lt),
  λ ne. ground (arith, get_or-set m.first_loaded i j true false lt),
)

-- In a pool of more frames than a page has bytes, `to_page_id` never gives back the number of a frame
-- from its address.
pub to_page_id-from_page_id :
    (m : MemoryPool) (i p : ℕ)
    → cache_page_size < m.num_pages
    → from_page_id m i ≡ some p
    → to_page_id m p ≢ some i
unfolding from_page_id to_page_id
to_page_id-from_page_id m i p many e back =
    let address : p ≡ m.pool + i * cache_page_size = ground (arith, e) in
    elim (dec_lt 0 i) [
      | yes later ↦
          let less : i * cache_page_size < i * m.num_pages = mul-lt-mul_of_pos_left many later in
          let short : i * cache_page_size / m.num_pages < i =
            (div-lt_iff_lt-mul (omega (arith, many))).1 less in
          let from_start : p - m.pool ≡ i * cache_page_size = omega (arith, address) in
          let quotient : (p - m.pool) / m.num_pages < i = rw from_start short in
          ground (arith, back, quotient)
      | no zero_id ↦ ground (arith, back, address)
    ]
