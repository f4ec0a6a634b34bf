-- ===== src/Tests/DirectCacheTests.antt =====
-- The cache of include/direct_cache.hpp with four slots, over a cache below with room for a number of pins, whose
-- pointers are the numbers of the pages.
use tri_cache.DirectCache.{Below, DirectCache, new_direct_cache, access}
use tri_cache.DirectCache.Laws.{Keeps, Accessed, Stale, access-Keeps, new-Keeps}
use tri_cache.Base.{
  ℕ, ◌+◌, ◌-◌, ◌≡◌, ◌==◌, ◌&&◌, if◌then◌else◌, Bool, true, false, not, none, some, refl, arith,
}

-- The pins of each page, how many more there is room for, and whether the last pin has thrown.
abbrev Counts : Type 0
Counts = (ℕ → ℕ) × ℕ × Bool

abbrev counter : Below ℕ Counts
counter = record {
  pin = λ v w.
      if w.1 == 0
      then (0, (w.0, w.1, true))
      else (v, (λ p. w.0 p + (if v == p then 1 else 0), w.1 - 1, false));
  unpin = λ v dirty w. (λ p. w.0 p - (if v == p then 1 else 0), w.1 + 1, w.2);
  thrown = λ w. w.2;
}

abbrev counter_pins : Counts → ℕ → ℕ
counter_pins w p = w.0 p

-- A world may have any number of pins.
abbrev Always : Counts → Type 0
Always w = Unit

counter_valid : (v : ℕ) (w : Counts) → Always w → counter_pins w v ≡ 0 → Always (counter.pin v w).1
counter_valid v w fine free = tt

counter_adds :
    (v : ℕ) (w : Counts)
    → Always w
    → counter_pins w v ≡ 0
    → (p : ℕ)
    → counter_pins (counter.pin v w).1 p
      ≡ counter_pins w p + (if not (counter.thrown (counter.pin v w).1) && v == p then 1 else 0)
counter_adds v w fine free p = ground arith

abbrev Kept : DirectCache ℕ Counts → Type 0
Kept =
    Keeps counter 0 counter_pins Always counter_valid (λ v b w fine some_pins. tt) counter_adds
      (λ v b w fine some_pins p. refl)

abbrev four_slots : DirectCache ℕ Counts
four_slots = new_direct_cache counter 0 4 (λ p. 0, 1, false)

four_slots-Kept : Kept four_slots
four_slots-Kept =
    new-Keeps counter 0 counter_pins Always counter_valid (λ v b w fine some_pins. tt) counter_adds
      (λ v b w fine some_pins p. refl) 4 (λ p. 0, 1, false) tt (omega arith) (λ p. refl)

-- `access` of page 9 finds room.
access-Keeps_example :
    (let (pointer, d) = access counter 0 9 true four_slots in
      (pointer ≡ none
        → Stale counter 0 counter_pins Always counter_valid
            (λ v b w fine some_pins. tt)
            counter_adds
            (λ v b w fine some_pins p. refl)
            four_slots
            9
            d)
      × ((p : ℕ)
          → pointer ≡ some p
          → Accessed counter 0 counter_pins Always counter_valid
              (λ v b w fine some_pins. tt)
              counter_adds
              (λ v b w fine some_pins p. refl)
              four_slots
              9
              true
              p
              d))
access-Keeps_example =
    access-Keeps counter 0 counter_pins Always counter_valid (λ v b w fine some_pins. tt)
      counter_adds (λ v b w fine some_pins p. refl) four_slots 9 true (omega arith) four_slots-Kept
