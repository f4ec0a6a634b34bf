-- ===== src/Tests/SingleCacheTests.antt =====
-- The cache of include/single_thread_cache.hpp on two frames, with class `Clock`, a direct page table of 32
-- pages, counters of 8 bits, and the functions of the tests of the shared cache.
use tri_cache.Tests.CacheTests.{counting}
use tri_cache.SingleThreadCache.{Cache, Context, full_pin}
use tri_cache.SingleThreadCache.Process.{no_state}
use tri_cache.SingleThreadCache.Methods.{new_cache, pin, unpin}
use tri_cache.SingleThreadCache.Invariant.{IsCache, pages_of}
use tri_cache.SingleThreadCache.Missed.{Missed, assigned_view}
use tri_cache.SingleThreadCache.Calls.{pin_page, unpin_page}
use tri_cache.SingleThreadCache.Tables.{
  direct_map, direct_map-IsMap, new_direct-Fits, Fits, fresh-IsCache,
}
use tri_cache.SharedSingleThreadCache.{pin_call, begin, ended, no_ppage_id}
use tri_cache.SharedSingleThreadCache.Frames.{pinned_frame}
use tri_cache.DirectTable.{DirectTable, new_direct}
use tri_cache.Replacement.Clock.{Clock, new}
use tri_cache.Replacement.Clock.Sweep.{IsValid}
use tri_cache.Replacement.Clock.Laws.{new-IsValid}
use tri_cache.Replacement.Policy.{clock, clock_holds, clock-IsPolicy}
use tri_cache.PageTable.Table.{Pte, empty_pte}
use tri_cache.Base.{
  ℕ, ◌+◌, ◌<◌, ◌≡◌, ◌==◌, if◌then◌else◌, true, false, none, Returns, arith, refl, get_or-replicate,
}

abbrev some_context : Context ℕ ℕ
some_context = record {
  kind = pin_call;
  phase = begin;
  processing = false;
  dirty = false;
  is_write = false;
  is_unpin = false;
  vpage_id = 0;
  pre_vpage_id = 0;
  ppage_id = 0;
  prefetch_ppage_id = 0;
  page_table_state = none;
  external_state = none;
  pre_external_state = none;
  external_context = 0;
}

abbrev max_of : Clock → ℕ
max_of c = c.max_ppage_id

abbrev OneCache : Type 0
OneCache = Cache ℕ Clock (DirectTable Pte) ℕ

abbrev two_empty : OneCache
two_empty = new_cache clock direct_map counting 8 no_state 2 (new_direct 32 no_state) (new 2) 0

abbrev InShape : OneCache → (ℕ → Pte) → Type 0
InShape =
    IsCache clock direct_map counting 8 no_state IsValid max_of clock_holds (Fits 32) (λ v. v < 32)

two_max : max_of (new 2) ≡ 2
unfolding new
two_max = refl

two_none : (j : ℕ) → clock_holds (new 2) j ≡ false
unfolding new
two_none j = ground (arith, get_or-replicate {A = ℕ} 2 j 0)

two_shape : InShape two_empty (λ _. empty_pte)
two_shape =
    fresh-IsCache clock direct_map counting 8 no_state IsValid max_of clock_holds (Fits 32)
      (λ v. v < 32) 2 (new_direct 32 no_state) (new 2) 0 (omega arith) (omega arith)
      (λ v lt. omega (arith, lt)) (new_direct-Fits 32).0 (new_direct-Fits 32).1
      (new-IsValid 2 (omega arith)) two_max (λ j lt. two_none j)

two_room : full_pin two_empty ≡ false
unfolding full_pin new_cache
two_room = refl

-- What `pin` of page 9 does on a cache with the states `view`.
abbrev Pins : OneCache → (ℕ → Pte) → Type 0
Pins c view =
    ((view 9).exist ≡ true
      → (view 9).ref_count + 1 < 256
      → Returns (pin clock direct_map counting 8 no_state 9 some_context c) (λ a.
        (a.0.phase ≡ ended)
        × (a.0.ppage_id ≡ (view 9).ppage_id)
        × InShape a.1 (λ w.
          if w == 9 then record (view 9) { ref_count = (view 9).ref_count + 1 } else view w)))
    × ((view 9).exist ≡ false
        → full_pin c ≡ true
        → Returns (pin clock direct_map counting 8 no_state 9 some_context c) (λ a.
          (a.0.phase ≡ ended)
          × (a.0.ppage_id ≡ no_ppage_id)
          × (a.1 ≡ c)
          × ((p : ℕ)
              → p < c.max_ppage_id
              → pinned_frame
                  (pages_of clock direct_map counting 8 no_state IsValid max_of clock_holds
                    (Fits 32) (λ v. v < 32) c)
                  view p
                ≡ true)))
    × ((view 9).exist ≡ false
        → full_pin c ≡ false
        → Returns (pin clock direct_map counting 8 no_state 9 some_context c) (λ a.
          (a.0.phase ≡ ended)
          × Missed clock direct_map counting 8 no_state IsValid max_of clock_holds (Fits 32)
              (λ v. v < 32) c view 9 a.0.ppage_id a.1))

pin_page_example : Pins two_empty (λ _. empty_pte)
pin_page_example =
    pin_page clock direct_map counting 8 no_state IsValid max_of clock_holds (Fits 32) (λ v. v < 32)
      clock-IsPolicy (direct_map-IsMap 32) two_shape 9 (omega arith) some_context (omega arith)
      (λ x v p d s w. refl) (λ x v p s w. refl)

-- Page 9 is pinned.
abbrev pinned : Returns (pin clock direct_map counting 8 no_state 9 some_context two_empty) (λ a.
    (a.0.phase ≡ ended)
    × Missed clock direct_map counting 8 no_state IsValid max_of clock_holds
        (Fits 32)
        (λ v. v < 32)
        two_empty
        (λ _. empty_pte)
        9
        a.0.ppage_id
        a.1)
pinned =
    (pin_page clock direct_map counting 8 no_state IsValid max_of clock_holds (Fits 32)
        (λ v. v < 32) clock-IsPolicy (direct_map-IsMap 32) two_shape 9 (omega arith) some_context
        (omega arith) (λ x v p d s w. refl) (λ x v p s w. refl)).2
      refl two_room

abbrev nine : ℕ → Pte
nine =
    assigned_view clock direct_map counting 8 no_state IsValid max_of clock_holds (Fits 32)
      (λ v. v < 32) two_empty (λ _. empty_pte) 9 pinned.0.0.ppage_id

unpin_page_example :
    (true ≡ true
      → 0 < 1
      → Returns (unpin clock direct_map counting 8 no_state 9 true some_context pinned.0.1) (λ a.
        (a.0.phase ≡ ended)
        × (a.0.is_unpin ≡ true)
        × InShape a.1
            (λ w. if w == 9 then record (nine 9) { ref_count = 0; dirty = true } else nine w)))
    × (true ≡ false
        → Returns
            (unpin clock direct_map counting 8 no_state 9 true some_context pinned.0.1)
            (λ a. (a.0.phase ≡ ended) × (a.0.is_unpin ≡ false) × (a.1 ≡ pinned.0.1)))
unpin_page_example =
    unpin_page clock direct_map counting 8 no_state IsValid max_of clock_holds (Fits 32)
      (λ v. v < 32) clock-IsPolicy (direct_map-IsMap 32) pinned.2.1.is_cache 9 (omega arith)
      some_context true
