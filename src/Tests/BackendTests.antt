-- ===== src/Tests/BackendTests.antt =====
-- A write of a dirty page to a backend whose queue is full at first.
use tri_cache.SharedCache.Backend.{Backend, ask_again, poll}
use tri_cache.SharedCache.Backend.Evictions.{evict_once, ask, calls}
use tri_cache.MemoryPool.{MemoryPool}
use tri_cache.Base.{
  ℕ, ◌+◌, ◌<◌, ◌≡◌, if◌then◌else◌, Bool, true, false, none, some, Returns, arith, refl, [], ◌∷◌,
}

data DiskStage : Type 0 where
  crowded : DiskStage
  ready : DiskStage
  flying : DiskStage
  settled : DiskStage

unfoldable rounds : DiskStage → ℕ
rounds crowded = 0
rounds ready = 0
rounds flying = 1
rounds settled = 0

unfoldable disk_take : DiskStage → ℕ → Bool × (ℕ × DiskStage)
disk_take crowded k = (false, (k, ready))
disk_take ready k = (true, (k + 1, flying))
disk_take flying k = (true, (k + 1, flying))
disk_take settled k = (true, (k + 1, flying))

unfoldable disk_move : DiskStage → DiskStage
disk_move crowded = crowded
disk_move ready = ready
disk_move flying = settled
disk_move settled = settled

unfoldable is_settled : DiskStage → Bool
is_settled crowded = false
is_settled ready = false
is_settled flying = false
is_settled settled = true

abbrev disk : Backend (ℕ × DiskStage)
disk = record {
  write = λ _. λ _. λ _. λ w. disk_take w.1 w.0;
  read = λ _. λ _. λ _. λ w. disk_take w.1 w.0;
  progress = λ w. (w.0, disk_move w.1);
  finish = λ _. λ w. is_settled w.1;
}

abbrev pool_of_two : MemoryPool
pool_of_two = record {
  num_pages = 2;
  pool = 8192;
  mmap_pool = none;
  first_loaded = false ∷ false ∷ [];
}

abbrev disk_written : ℕ × DiskStage → ℕ
disk_written w = w.0

abbrev disk_left : ℕ × DiskStage → ℕ
disk_left w = rounds w.1

unfoldable is_started : DiskStage → Bool
is_started crowded = false
is_started ready = false
is_started flying = true
is_started settled = true

abbrev DiskPending : ℕ × DiskStage → Type 0
DiskPending w = is_started w.1 ≡ true

abbrev disk_ask : ℕ × DiskStage → Bool × (ℕ × DiskStage)
disk_ask = ask disk pool_of_two 7 1 0 2 DiskPending disk_written disk_left (omega arith)

disk_counts : (w : ℕ × DiskStage) → (disk_ask w).1.0 ≡ w.0 + (if (disk_ask w).0 then 1 else 0)
unfolding disk_take
disk_counts (k, crowded) = omega arith
disk_counts (k, ready) = refl
disk_counts (k, flying) = refl
disk_counts (k, settled) = refl

disk_starts : (w : ℕ × DiskStage) → (disk_ask w).0 ≡ true → DiskPending (disk_ask w).1
unfolding disk_take is_started
disk_starts (k, crowded) e = absurd (cc)
disk_starts (k, ready) e = refl
disk_starts (k, flying) e = refl
disk_starts (k, settled) e = refl

disk_nears :
    (w : ℕ × DiskStage)
    → DiskPending w
    → is_settled w.1 ≡ false
    → DiskPending (disk.progress w) × (rounds (disk_move w.1) < rounds w.1)
unfolding disk_move rounds is_settled is_started
disk_nears (k, crowded) p _ = absurd (cc)
disk_nears (k, ready) p _ = absurd (cc)
disk_nears (k, flying) _ _ = (refl, omega arith)
disk_nears (k, settled) _ e = absurd (cc)

disk_takes : ask_again disk 2 disk_ask (0, crowded) ≡ some (1, flying)
unfolding disk_take ask_again
disk_takes = refl

rounds_few : rounds flying < 2
unfolding rounds
rounds_few = omega arith

evict_once_example :
    Returns
      (poll 4
        (calls disk pool_of_two 7 1 0 2 DiskPending disk_written disk_left (omega arith) true)
        (record { first = true; processing = false; place = 0 }, (0, crowded)))
      (λ a. (a.1.0 ≡ 1) × (true ≡ true → is_settled a.1.1 ≡ true))
evict_once_example =
    evict_once disk pool_of_two 7 1 0 2 DiskPending disk_written disk_left (omega arith) disk_counts
      disk_starts (λ _. refl) disk_nears 2 true (0, crowded) (1, flying) disk_takes rounds_few
