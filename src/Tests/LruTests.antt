-- ===== src/Tests/LruTests.antt =====
-- Class `LRU` of include/replacement.hpp on three pages.
use tri_cache.Replacement.Lru.{Lru, position, pop, size, split_last, as_int}
use tri_cache.Replacement.Lru.Nodes.{pages, id_count, page_of}
use tri_cache.Replacement.Lru.Laws.{Follows, IsLru, pop-IsLru}
use tri_cache.PageTable.Chain.{last_of}
use tri_cache.Base.{
  zero, suc, ℕ, ◌^◌, ◌<◌, ◌≡◌, ◌++◌, [], ◌∷◌, some, none, refl, arith, get_or, set, Returns,
}

-- Page 0 was used, and after it page 2.
abbrev two_used : Lru
two_used = record {
  max_ppage_id = 3;
  list = record { id = 1; page = 2 } ∷ record { id = 0; page = 0 } ∷ [];
  states = some 0 ∷ none ∷ some 1 ∷ [];
  next_id = 2;
}

two_points : (i k : ℕ) → position two_used i ≡ some k → page_of k two_used.list ≡ some i
unfolding get_or page_of
two_points zero k e = ground arith
two_points (suc zero) k e = cc
two_points (suc (suc zero)) k e = ground arith
two_points (suc (suc (suc i))) k e = cc

two_pointed : (i k : ℕ) → page_of k two_used.list ≡ some i → position two_used i ≡ some k
unfolding get_or page_of
two_pointed zero k e = ground arith
two_pointed (suc zero) k e = ground arith
two_pointed (suc (suc zero)) k e = ground arith
two_pointed (suc (suc (suc i))) k e = ground arith

two_used-IsLru : IsLru two_used
unfolding id_count
two_used-IsLru = record {
  sized = refl;
  points = two_points;
  pointed = two_pointed;
  once = λ k. ground arith;
  fresh = λ k m. ground arith;
}

pop-IsLru_example :
    (0 < size two_used
      → Returns (pop two_used) (λ r.
        Follows two_used r.2
        × (pages two_used.list ≡ pages r.2.list ++ r.0 ∷ [])
        × (r.1 ≡ as_int (last_of 0 (pages r.2.list)))
        × (last_of 0 (pages r.2.list) < 2 ^ 31 → r.1 ≡ last_of 0 (pages r.2.list))
        × (position r.2 r.0 ≡ none)))
    × (size two_used ≡ 0 → pop two_used ≡ none)
pop-IsLru_example = pop-IsLru two_used two_used-IsLru

-- The page used first goes first.
pop-two_used :
    pop two_used
    ≡ some (
      0,
      2,
      record two_used {
        list = record { id = 1; page = 2 } ∷ [];
        states = none ∷ none ∷ some 1 ∷ [];
      },
    )
unfolding pop split_last set
pop-two_used = refl
