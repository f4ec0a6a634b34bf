-- ===== src/Tests/PtrTests.antt =====
-- Pointers of include/cached_ptr.hpp into cache 0.
use tri_cache.CachedPtr.{
  CachedPtr, add, difference, equal, less, greater, less_equal, greater_equal,
}
use tri_cache.CachedPtr.Arithmetic.{difference-add, order}
use tri_cache.Base.{◌≡◌, ◌↔◌, true, not, some, pos, sub_ℕ, arith, refl}

abbrev at_4080 : CachedPtr
at_4080 = record { cache = some 0; offset = 4080 }

difference-add_example :
    (difference 24 (add 24 at_4080 (pos 5)) at_4080 ≡ pos 5)
    × (difference 24 at_4080 (add 24 at_4080 (pos 5)) ≡ sub_ℕ 0 5)
difference-add_example = difference-add 24 5 at_4080 (omega arith) (omega arith) (omega arith)

order_example :
    (less_equal at_4080 (add 24 at_4080 (pos 5)) ≡ not (greater at_4080 (add 24 at_4080 (pos 5))))
    × (greater_equal at_4080 (add 24 at_4080 (pos 5)) ≡ not (less at_4080 (add 24 at_4080 (pos 5))))
    × ((equal at_4080 (add 24 at_4080 (pos 5)) ≡ true) ↔ (at_4080 ≡ add 24 at_4080 (pos 5)))
unfolding add
order_example = order 0 at_4080 (add 24 at_4080 (pos 5)) refl refl
