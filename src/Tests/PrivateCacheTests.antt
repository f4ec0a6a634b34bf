-- ===== src/Tests/PrivateCacheTests.antt =====
-- A private cache of two partitions with two frames each, over a shared cache that counts the pins of pages, has room for three, and
-- has page `v` at the address `4096 * v`.
use tri_cache.Tests.CacheTests.{some_context, max_of, two_max, two_none}
use tri_cache.PrivateCache.{
  PrivateCache, answered, released, new_private_cache, private_pin, private_unpin,
}
use tri_cache.PrivateCache.Shared.{IsShared}
use tri_cache.PrivateCache.Holds.{Keeps}
use tri_cache.PrivateCache.Calls.{private_pin-Keeps, private_unpin-Keeps}
use tri_cache.PrivateCache.Bytes.{check_addr, private_set, private_set-Keeps}
use tri_cache.PrivateCache.Fresh.{new_private_cache-Keeps}
use tri_cache.SharedSingleThreadCache.{full_pin}
use tri_cache.SharedSingleThreadCache.Methods.{new_cache}
use tri_cache.DirectCache.{Below}
use tri_cache.Partitioner.{RoundRobin, locate}
use tri_cache.PageTable.Table.{Pte, empty_pte, new_table, new_pool}
use tri_cache.Replacement.Clock.{Clock, new}
use tri_cache.Replacement.Clock.Sweep.{IsValid}
use tri_cache.Replacement.Clock.Laws.{new-IsValid}
use tri_cache.Replacement.Policy.{clock, clock_holds, clock-IsPolicy}
use tri_cache.SharedSingleThreadCache.Frames.{IsPage}
use tri_cache.Base.{
  List, [], ◌∷◌, ℕ, ◌+◌, ◌-◌, ◌*◌, ◌<◌, ◌≡◌, ◌==◌, ◌&&◌, ◌||◌, if◌then◌else◌, Bool, true, false,
  Returns, arith, refl,
}

-- The pins, how many more the cache has room for, whether the last pin has thrown, and the number of writes.
abbrev World : Type 0
World = (ℕ → ℕ) × ℕ × Bool × ℕ

abbrev counted_pins : Below ℕ World
counted_pins = record {
  pin = λ v w.
      if w.1 == 0
      then (0, (w.0, w.1, true, w.3))
      else (4096 * v, (λ q. w.0 q + (if v == q then 1 else 0), w.1 - 1, false, w.3));
  unpin = λ v b w. (λ q. w.0 q - (if v == q then 1 else 0), w.1 + 1, w.2, w.3);
  thrown = λ w. w.2;
}

abbrev is_shared : IsShared counted_pins
is_shared = record {
  pins = λ w q. w.0 q;
  address = λ w q. 4096 * q;
  ready = λ v w. 0 < w.1;
  pin_succeeds = λ v w room unpinned. ground (arith, room);
  pin_adds = λ v w room unpinned q. ground (arith, room);
  pin_gives = λ v w room unpinned. ground (arith, room);
  pin_keeps = λ v w room unpinned q some_pins. refl;
  unpin_ready = λ v b w u room some_pins other. omega (arith, room);
  unpin_takes = λ v b w u room some_pins other q. refl;
  unpin_keeps = λ v b w u room some_pins other q apart q_pins. refl;
}

abbrev no_pins : World
no_pins = (λ q. 0, 3, false, 0)

abbrev two_partitions : RoundRobin
two_partitions = record { num_partitions = 2; num_vpages = 20 }

abbrev no_pages : PrivateCache ℕ Clock World
no_pages = new_private_cache clock counted_pins 0 some_context new 20 two_partitions 2 no_pins

abbrev Kept : PrivateCache ℕ Clock World → (ℕ → ℕ → Pte) → Type 0
Kept = Keeps clock counted_pins 0 IsValid max_of clock_holds is_shared

no_pages-Kept : Kept no_pages (λ k b. empty_pte)
no_pages-Kept =
    new_private_cache-Keeps clock counted_pins 0 some_context new IsValid max_of clock_holds
      is_shared 20 two_partitions 2 no_pins (omega arith) (omega arith)
      (new-IsValid 2 (omega arith)) two_max (λ j lt. two_none j) (λ q. refl)

-- Page 7 is block 3 of partition 1.
abbrev Pinned : Type 0
Pinned = Returns (private_pin clock counted_pins 0 some_context 1 7 no_pages) (λ a.
    (new : ℕ → ℕ → Pte) × Kept a.1 new
    × ((new 1 3).exist ≡ true)
    × (a.0 ≡ answered 28672)
    × (a.1.world.0 7 ≡ 1)
    × ((j b : ℕ) → j < 2 → IsPage b → (new j b).ref_count ≡ 0 + (if j == 1 && b == 3 then 1 else 0))
    × (a.1.partitioner ≡ two_partitions)
    × (a.1.num_vpages ≡ 20))

private_pin-Keeps_example : Pinned
unfolding locate new_private_cache new_cache new_table new_pool full_pin
private_pin-Keeps_example =
    private_pin-Keeps clock counted_pins 0 IsValid max_of clock_holds is_shared clock-IsPolicy
      some_context 0 no_pages (λ k b. empty_pte) 7 (omega arith) (omega arith) (omega arith)
      no_pages-Kept (omega arith) (omega arith) refl (λ gone. (omega arith, refl, omega arith))

abbrev pinned : Pinned
unfolding locate new_private_cache new_cache new_table new_pool full_pin
pinned =
    private_pin-Keeps clock counted_pins 0 IsValid max_of clock_holds is_shared clock-IsPolicy
      some_context 0 no_pages (λ k b. empty_pte) 7 (omega arith) (omega arith) (omega arith)
      no_pages-Kept (omega arith) (omega arith) refl (λ gone. (omega arith, refl, omega arith))

abbrev entries : ℕ → ℕ → Pte
entries = pinned.2.0

one_reference : (entries 1 3).ref_count ≡ 1
one_reference = pinned.2.5 1 3 (omega arith) (omega arith)

private_unpin-Keeps_example :
    let (k, v) = locate pinned.0.1.partitioner 7 in
    Returns (private_unpin clock counted_pins 0 some_context 1 7 true pinned.0.1) (λ a.
      (new : ℕ → ℕ → Pte) × Kept a.1 new
      × (a.0 ≡ released)
      × (a.1.world ≡ pinned.0.1.world)
      × ((new k v).dirty ≡ true || (entries k v).dirty)
      × ((j b : ℕ)
          → j < pinned.0.1.partitioner.num_partitions
          → IsPage b
          → (new j b).ref_count ≡ (entries j b).ref_count - (if j == k && b == v then 1 else 0)))
unfolding locate
private_unpin-Keeps_example =
    private_unpin-Keeps clock counted_pins 0 IsValid max_of clock_holds is_shared clock-IsPolicy
      some_context 0 pinned.0.1 entries 7 true (rw pinned.2.6 (omega arith))
      (rw (pinned.2.6, pinned.2.7) (omega arith)) (rw pinned.2.7 (omega arith)) pinned.2.1
      (rw pinned.2.6 (omega arith)) (rw pinned.2.6 pinned.2.2)
      (rw (pinned.2.6, one_reference) (omega arith))

abbrev count_write : ℕ → ℕ → List ℕ → World → World
count_write p i bytes w = (w.0, w.1, w.2, w.3 + 1)

-- The bytes from address 28680 on are in page 7.
private_set-Keeps_example :
    Returns
      (private_set clock counted_pins 0 some_context count_write 1 81920 28680
        (1 ∷ 2 ∷ [])
        no_pages)
      (λ a.
        (new : ℕ → ℕ → Pte) × Kept a.1 new
        × (a.0 ≡ true)
        × ((before : World) × (before.0 7 ≡ 1)
            × (a.1.world ≡ (before.0, before.1, before.2, before.3 + 1)))
        × (a.1.world.0 7 ≡ 1)
        × ((new 1 3).dirty ≡ true)
        × ((j b : ℕ) → j < 2 → IsPage b → (new j b).ref_count ≡ 0))
unfolding locate new_private_cache new_cache new_table new_pool full_pin check_addr
private_set-Keeps_example =
    private_set-Keeps clock counted_pins 0 IsValid max_of clock_holds is_shared clock-IsPolicy
      some_context count_write (λ p i bytes w q. refl) (λ p i bytes w q. refl) 0 81920 28680
      (1 ∷ 2 ∷ []) no_pages (λ k b. empty_pte) (omega arith) (omega arith) (omega arith)
      (omega arith) refl no_pages-Kept (omega arith) (omega arith) refl
      (λ gone. (omega arith, refl, omega arith))
