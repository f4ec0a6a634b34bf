-- ===== src/Tests/RaceTests.antt =====
-- Two threads race for one page of include/compact_hash_page_table.hpp.
use tri_cache.PageTable.Race.Safety.{
  lock_excludes, ref_count-tally, pinned_stable, assertions_hold, store_loses_nothing,
}
use tri_cache.PageTable.Race.Invariant.{owns}
use tri_cache.Base.{
  ◌+◌, ℕ, ◌<◌, ◌≡◌, ◌≢◌, Bool, true, false, none, length, get_or, set, replicate, refl, arith,
  tally,
}
use tri_cache.PageTable.Header.{Header, empty_header, inc_body, dec_body, lock_body, unlock_body}
use tri_cache.PageTable.Race.{
  empty_ppage_id, System, Stage, idle, owner, unpinning, unlocking, Move, Write, pick, Reach, start,
  later, pins, pin_read, unpin_load,
}

shown : Unit {0}
unfolding tally get_or set replicate inc_body dec_body lock_body unlock_body
shown = tt

abbrev Reached : Type 0
Reached = (s : System) × Reach 2 s

-- Thread 0 takes the lock of the absent page.
abbrev locked_0 : Reached
unfolding shown
locked_0 =
    let a = later start (pick 0 (omega arith) Move.lock_load) (omega arith) in
    (_, later a (pick 0 (omega arith) (Move.lock_win refl refl)) (omega arith))

-- It maps the page to frame 7 and releases the lock, and goes on with the reference that it counted.
abbrev mapped_0 : Reached
unfolding shown
mapped_0 =
    let a = later locked_0.1 (pick 0 (omega arith) (Move.write_load refl)) (omega arith) in
    let b =
      later a (pick 0 (omega arith) (Move.write_store (Write.set_exist _ refl))) (omega arith) in
    let c = later b (pick 0 (omega arith) (Move.put_ppage 7 (omega arith))) (omega arith) in
    let d = later c (pick 0 (omega arith) (Move.write_load refl)) (omega arith) in
    let e =
      later d (pick 0 (omega arith) (Move.write_store (Write.set_ref_count _))) (omega arith) in
    let f = later e (pick 0 (omega arith) Move.release_created) (omega arith) in
    (_, later f (pick 0 (omega arith) (Move.unlock_created refl refl)) (omega arith))

-- Thread 0 has read the frame and pins the page once more, and thread 1 gives back one of the two.
abbrev pinned_twice : Reached
unfolding shown
pinned_twice =
    let a = later mapped_0.1 (pin_read 0 (omega arith) refl) (omega arith) in
    let b = later a (pick 0 (omega arith) Move.pin_load) (omega arith) in
    let c = later b (pick 0 (omega arith) (Move.pin_win refl refl)) (omega arith) in
    let d = later c (pin_read 0 (omega arith) refl) (omega arith) in
    (_, later d (unpin_load 1 1 true (omega arith) refl (omega arith)) (omega arith))

pinned_twice_cell : pinned_twice.0.cell ≡ record {
  header = record { exist = true; busy = false; dirty = false; ref_count = 2 };
  ppage_id = 7;
}
unfolding shown
pinned_twice_cell = refl

-- Thread 1 has loaded the word in order to store `exist`.
abbrev storing_1 : Reached
unfolding shown
storing_1 =
    let a = later start (pick 1 (omega arith) Move.lock_load) (omega arith) in
    let b = later a (pick 1 (omega arith) (Move.lock_win refl refl)) (omega arith) in
    (_, later b (pick 1 (omega arith) (Move.write_load refl)) (omega arith))

lock_excludes_example :
    (length locked_0.0.held ≡ 0)
    × (pins (get_or locked_0.0.threads 1 idle) ≡ 0)
    × (◌≢◌ {A = ℕ} 0 1 → owns (get_or locked_0.0.threads 1 idle) ≡ 0)
unfolding shown
lock_excludes_example = lock_excludes locked_0.1 0 1 (omega arith) refl

ref_count-tally_example :
    (pinned_twice.0.cell.header.ref_count
      ≡ tally pins pinned_twice.0.threads + length pinned_twice.0.held)
    × (pinned_twice.0.cell.header.exist ≡ false
        → tally pins pinned_twice.0.threads + length pinned_twice.0.held ≡ 0)
unfolding shown
ref_count-tally_example = ref_count-tally pinned_twice.1 refl

pinned_stable_example :
    (pinned_twice.0.cell.ppage_id ≡ 7)
    × (7 < empty_ppage_id)
    × (pinned_twice.0.cell.header.exist ≡ true)
    × (pinned_twice.0.cell.header.busy ≡ false)
    × (0 < pinned_twice.0.cell.header.ref_count)
unfolding shown
pinned_stable_example = pinned_stable pinned_twice.1 0 (omega arith)

assertions_hold_example :
    ((w : Bool) (old : Header)
      → get_or locked_0.0.threads 0 idle ≡ unpinning w old
      → dec_body w old ≢ none)
    × ((t : Stage) (old : Header)
        → get_or locked_0.0.threads 0 idle ≡ unlocking t old
        → 0 < length locked_0.0.threads
        → unlock_body old ≢ none)
    × (get_or locked_0.0.threads 0 idle ≡ owner Stage.locked
        → (locked_0.0.cell.header.ref_count ≡ 0)
          × (locked_0.0.cell.header.exist ≡ false → locked_0.0.cell.header.dirty ≡ false))
assertions_hold_example = assertions_hold locked_0.1 0

store_loses_nothing_example : storing_1.0.cell.header ≡ record empty_header { busy = true }
unfolding shown
store_loses_nothing_example = store_loses_nothing {t = Stage.locked} storing_1.1 1 refl
