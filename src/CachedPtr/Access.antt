-- ===== src/CachedPtr/Access.antt =====
-- Where the elements of include/cached_ptr.hpp lie in their pages.
use tri_cache.CachedPtr.{CachedPtr, Caches, null_offset, page_offset_of, get, add, index}
use tri_cache.MemoryPool.{cache_page_size}
use native.Mathlib.Nat.{mul_comm, mul_assoc, add-mul, div-add-mod', mod-lt}
use tri_cache.Base.{
  ℕ, ◌+◌, ◌*◌, ◌/◌, ◌%◌, ◌<◌, ◌≤◌, ◌≡◌, ◌≢◌, Bool, arith, refl, ℤ, some, ==_eq_false, ap, ◌∙◌,
}

module _ {W : Type 0} (caches : Caches W) where
  -- `p[n]` is `*(p + n)` where that is not the null offset.
  pub index-add :
      (c size : ℕ) (is_const : Bool) (p : CachedPtr) (diff : ℤ) (w : W)
      → p.cache ≡ some c
      → (add size p diff).offset ≢ null_offset
      → index caches size is_const p diff w ≡ some (get caches is_const (add size p diff) w)
  unfolding index get add
  index-add c size is_const p diff w of_p real =
      rw (index, get, of_p, ==_eq_false (add size p diff).offset null_offset real) refl

-- Where the size of an element divides the size of a page, an element at a multiple of its size lies in one
-- page.
pub element_inside :
    (size count n : ℕ)
    → 0 < size
    → size * count ≡ cache_page_size
    → page_offset_of (n * size) + size ≤ cache_page_size
element_inside size count n pos_size divides =
    let some_elements : 0 < count = grind (arith, divides) in
    let q = n / count in
    let r = n % count in
    let parts : n ≡ q * count + r = grind (arith, some_elements) in
    let small : r < count = grind (arith, some_elements) in
    let page : count * size ≡ 4096 = mul_comm count size ∙ divides in
    let at : n * size ≡ q * 4096 + r * size =
      ap (λ (t : ℕ). t * size) parts
      ∙ add-mul (q * count) r size
      ∙ ap (λ (t : ℕ). t + r * size) (mul_assoc q count size ∙ ap (λ (t : ℕ). q * t) page) in
    let fits : (r + 1) * size ≤ 4096 = grind (arith, small, divides) in
    let last : (r + 1) * size ≡ r * size + size = omega (arith, add-mul r 1 size) in
    omega (arith, at, last, fits)

-- Where it does not divide it, some element of an array that starts with a page does not, though
-- `static_assert` allows the size.
pub element_straddles :
    (size : ℕ)
    → 0 < size
    → size < cache_page_size
    → cache_page_size % size ≢ 0
    → (n : ℕ) × (cache_page_size < page_offset_of (n * size) + size)
element_straddles size pos_size small uneven = (
  cache_page_size / size,
  let rest : cache_page_size / size * size + cache_page_size % size ≡ cache_page_size =
        div-add-mod' cache_page_size size in
      let low : cache_page_size % size < size = mod-lt cache_page_size pos_size in
      omega (arith, rest, low, uneven),
)
