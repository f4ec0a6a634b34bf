-- ===== src/Tests/CacheTests.antt =====
-- The cache of include/shared_single_thread_cache.hpp on two frames, with class `Clock`, an `evict_func`
-- that counts its calls and a `load_func` that makes the page's number its state.
use tri_cache.PageTable.Mapping.{
  find_hint, delete_mapping, delete_cacheline, create_cacheline, get_pte, release_mapping_lock,
  create_mapping, find_or_create_hint,
}
use tri_cache.SharedSingleThreadCache.{
  alloc, Cache, Context, Functions, pin_call, begin, ended, full_pin, no_ppage_id, full,
}
use tri_cache.Base.{
  ap, count, ◌-ℤ◌, get_or-replicate, set, replicate, get_or, ◌+ℤ◌, some, Option, inl,
  get_or-replicate, ℕ, ◌+◌, ◌<◌, ◌≤◌, ◌≡◌, ◌==◌, if◌then◌else◌, true, false, none, Returns, arith,
  refl, length,
}
use tri_cache.PageTable.Header.{dec_body, lock_body, unlock_body}
use tri_cache.PageTable.Table.{
  find_pre_cacheline, pre_from, empty_line, to_unpacked, header_eq, empty_slots, empty_cacheline,
  find_from, find_retry, find_cacheline, hint_from, find_cacheline_hint, Pte, empty_pte, new_table,
  new_pool,
}
use tri_cache.SharedSingleThreadCache.Process.{
  unpin_phase, take_victim, begin_phase, initing_phase, miss_phase, evicting_phase, loading_phase,
  map_page, call_evict, call_load, release_victim, state_at, step, run,
}
use tri_cache.SharedSingleThreadCache.Methods.{new_cache, pin, unpin, process}
use tri_cache.SharedSingleThreadCache.Flush.{flush}
use tri_cache.SharedSingleThreadCache.Invariant.{IsCache, pages_of}
use tri_cache.SharedSingleThreadCache.Assigned.{Missed, assigned_view}
use tri_cache.SharedSingleThreadCache.Frames.{used, pinned_frame}
use tri_cache.SharedSingleThreadCache.Fresh.{new_cache-IsCache}
use tri_cache.SharedSingleThreadCache.Calls.{pin_hit, pin_miss, pin_refused, unpin_mapped}
use tri_cache.SharedSingleThreadCache.Flushed.{flush_lem, written_back}
use tri_cache.SharedSingleThreadCache.Rounds.{process-rounds, rounds}
use tri_cache.Replacement.Clock.{push, pop, access, sweep, seek, finish, demote, Clock, new}
use tri_cache.Replacement.Clock.Sweep.{IsValid}
use tri_cache.Replacement.Clock.Laws.{new-IsValid}
use tri_cache.Replacement.Policy.{clock, clock_holds, clock-IsPolicy}
use tri_cache.PageTable.Mapping
use tri_cache.PageTable.Entry.{line_of_mapped}
use tri_cache.PageTable.Effects.{pin-Writes, unpin-Writes}
use tri_cache.PageTable.Place.{At, Writes}

abbrev pub counting : Functions ℕ ℕ ℕ
counting = record {
  evict = λ x v p dirty s w. (true, 0, w + 1);
  load = λ x v p s w. (true, v, 0, w);
  new_external = 0;
  default_context = 0;
}

abbrev pub some_context : Context ℕ ℕ
some_context = record {
  kind = pin_call;
  phase = begin;
  processing = false;
  dirty = false;
  is_write = false;
  is_unpin = false;
  vpage_id = 0;
  pre_vpage_id = 0;
  ppage_id = 0;
  prefetch_ppage_id = 0;
  hint = none;
  pre_hint = none;
  pte = empty_pte;
  external_state = none;
  pre_external_state = none;
  external_context = 0;
}

abbrev pub max_of : Clock → ℕ
max_of c = c.max_ppage_id

abbrev pub InShape : Cache ℕ Clock ℕ → (ℕ → Pte) → Type 0
InShape = IsCache clock counting IsValid max_of clock_holds

abbrev pub two_empty : Cache ℕ Clock ℕ
two_empty = new_cache clock counting 2 (new 2) 0

pub two_max : max_of (new 2) ≡ 2
unfolding new
two_max = refl

pub two_none : (j : ℕ) → clock_holds (new 2) j ≡ false
unfolding new
two_none j = ground (arith, get_or-replicate {A = ℕ} 2 j 0)

abbrev pub two_shape : InShape two_empty (λ _. empty_pte)
two_shape =
    new_cache-IsCache clock counting IsValid max_of clock_holds 2 (new 2) 0 (omega arith)
      (omega arith) (new-IsValid 2 (omega arith)) two_max (λ j lt. two_none j)

pub two_empty_stocked : 0 < length two_empty.page_table.pool
unfolding new_cache new_table new_pool
two_empty_stocked = omega arith

pub two_room : full_pin two_empty ≡ false
unfolding full_pin new_cache
two_room = refl

-- Page 9 is pinned.
abbrev Pinned : Type 0
Pinned = Returns (pin clock counting 9 some_context two_empty) (λ a.
    (a.0.phase ≡ ended)
    × Missed clock counting IsValid max_of clock_holds two_empty (λ _. empty_pte) 9 a.0.ppage_id a.1
    × (a.0.external_state ≡ some a.0.ppage_id))

pin_miss_example : Pinned
pin_miss_example =
    pin_miss clock counting IsValid max_of clock_holds clock-IsPolicy two_shape 9 (omega arith)
      some_context two_empty_stocked (λ x v p d s w. refl) (λ x v p s w. refl) refl two_room

abbrev pinned : Pinned
pinned =
    pin_miss clock counting IsValid max_of clock_holds clock-IsPolicy two_shape 9 (omega arith)
      some_context two_empty_stocked (λ x v p d s w. refl) (λ x v p s w. refl) refl two_room

abbrev nine : ℕ → Pte
nine =
    assigned_view clock counting IsValid max_of clock_holds two_empty (λ _. empty_pte) 9
      pinned.0.0.ppage_id

pin_hit_example : Returns (pin clock counting 9 some_context pinned.0.1) (λ a.
    (a.0.phase ≡ ended)
    × (a.0.ppage_id ≡ pinned.0.0.ppage_id)
    × InShape a.1 (λ w. if w == 9 then record (nine 9) { ref_count = 2 } else nine w)
    × (a.0.external_state ≡ some pinned.0.0.ppage_id)
    × (a.1.states ≡ pinned.0.1.states)
    × (a.1.world ≡ pinned.0.1.world))
pin_hit_example =
    pin_hit clock counting IsValid max_of clock_holds clock-IsPolicy pinned.2.1.is_cache 9
      (omega arith) some_context refl (omega arith)

abbrev Unpinned : Type 0
Unpinned = Returns (unpin clock counting 9 true some_context pinned.0.1) (λ a.
    (a.0.phase ≡ ended)
    × (a.0.is_unpin ≡ true)
    × InShape a.1 (λ w. if w == 9 then record (nine 9) { ref_count = 0; dirty = true } else nine w)
    × (a.1.states ≡ pinned.0.1.states)
    × (a.1.world ≡ pinned.0.1.world))

unpin_mapped_example : Unpinned
unpin_mapped_example =
    unpin_mapped clock counting IsValid max_of clock_holds clock-IsPolicy pinned.2.1.is_cache 9
      (omega arith) some_context true refl (omega arith)

abbrev unpinned : Unpinned
unpinned =
    unpin_mapped clock counting IsValid max_of clock_holds clock-IsPolicy pinned.2.1.is_cache 9
      (omega arith) some_context true refl (omega arith)

abbrev dirty_nine : ℕ → Pte
dirty_nine w = if w == 9 then record (nine 9) { ref_count = 0; dirty = true } else nine w

none_pinned :
    (j : ℕ)
    → j < unpinned.0.1.max_ppage_id
    → used (pages_of clock counting IsValid max_of clock_holds unpinned.0.1) j ≡ true
    → (dirty_nine (state_at clock counting unpinned.0.1 j).vpage_id).ref_count ≡ 0
none_pinned j lt in_use = ground (arith, unpinned.2.2.frames.owner j lt in_use)

flush_lem_example : Returns (flush clock counting 1 some_context unpinned.0.1) (λ e.
    InShape e (λ _. empty_pte)
    × ((j : ℕ)
        → j < unpinned.0.1.max_ppage_id
        → used (pages_of clock counting IsValid max_of clock_holds e) j ≡ false)
    × (e.world
        ≡ written_back clock counting unpinned.0.1 dirty_nine unpinned.0.1.max_ppage_id 0
            unpinned.0.1.world))
flush_lem_example =
    flush_lem clock counting IsValid max_of clock_holds clock-IsPolicy (λ x v p d s w. refl)
      unpinned.0.1 dirty_nine some_context 0 unpinned.2.2 none_pinned

process-rounds_example :
    ((y : Context ℕ ℕ) (d : Cache ℕ Clock ℕ)
      → step clock counting some_context two_empty ≡ some (true, y, d)
      → rounds y < rounds some_context)
    × ((n : ℕ)
        → 4 ≤ n
        → run clock counting n some_context two_empty
          ≡ process clock counting some_context two_empty)
process-rounds_example = process-rounds clock counting some_context two_empty

-- A client pins page 9 again, which has no reference, in the table alone.
nine_At :
    (c : Cache ℕ Clock ℕ) (view : ℕ → Pte)
    → InShape c view
    → (view 9).exist ≡ true
    → (p : ℕ) × At c.page_table 9 p none
nine_At c view is here =
    let (p, found) = line_of_mapped is.table 9 (is.reads 9 (omega arith)) here in
    (p, record { table = is.table; real = omega arith; found = found; hinted = inl refl })

abbrev client_pin : Returns (Mapping.pin unpinned.0.1.page_table 9 none) (λ a.
    (a.0 ≡ (true, pinned.0.0.ppage_id, 0))
    × Writes unpinned.0.1.page_table 9 (record (dirty_nine 9) { ref_count = 1 }) a.1)
client_pin =
    (pin-Writes (nine_At unpinned.0.1 dirty_nine unpinned.2.2 refl).1
        (unpinned.2.2.reads 9 (omega arith)) (omega arith)).0
      refl refl

abbrev client_unpin : Returns (Mapping.unpin pinned.0.1.page_table 9 true none) (λ a.
    (a.0 ≡ 1)
    × Writes pinned.0.1.page_table 9 (record (nine 9) { ref_count = 0; dirty = true }) a.1)
client_unpin =
    (unpin-Writes (nine_At pinned.0.1 nine pinned.2.1.is_cache refl).1 true
        (pinned.2.1.is_cache.reads 9 (omega arith)) (omega arith)).0
      refl refl (omega arith)

-- One frame, with page 9 pinned: no other page can be pinned.
abbrev pub one_empty : Cache ℕ Clock ℕ
one_empty = new_cache clock counting 1 (new 1) 0

abbrev pub cache_after : Option (Context ℕ ℕ × Cache ℕ Clock ℕ) → Cache ℕ Clock ℕ
cache_after none = one_empty
cache_after (some a) = a.1

abbrev pub one_full : Cache ℕ Clock ℕ
one_full = cache_after (pin clock counting 9 some_context one_empty)

program : Unit {0}
unfolding pin new_cache process run step begin_phase initing_phase miss_phase evicting_phase
    loading_phase map_page call_evict call_load release_victim full full_pin alloc ◌+ℤ◌ get_or set
    replicate new new_table new_pool find_or_create_hint create_mapping release_mapping_lock get_pte
    create_cacheline empty_line to_unpacked header_eq empty_slots empty_cacheline find_from
    find_retry find_cacheline hint_from find_cacheline_hint lock_body unlock_body unpin unpin_phase
    Mapping.unpin dec_body find_hint delete_mapping delete_cacheline find_pre_cacheline pre_from
    take_victim push pop access sweep seek finish demote ◌-ℤ◌ count
program = tt

pub one_is_full : full_pin one_full ≡ true
unfolding program
one_is_full = refl

pub one_stocked : 0 < length one_full.page_table.pool
unfolding program
one_stocked = omega arith

abbrev pub one_pinned : Returns (pin clock counting 9 some_context one_empty) (λ a.
    (a.0.phase ≡ ended)
    × Missed clock counting IsValid max_of clock_holds one_empty (λ _. empty_pte) 9 a.0.ppage_id a.1
    × (a.0.external_state ≡ some a.0.ppage_id))
unfolding program
one_pinned =
    pin_miss clock counting IsValid max_of clock_holds clock-IsPolicy
      (new_cache-IsCache clock counting IsValid max_of clock_holds 1 (new 1) 0 (omega arith)
        (omega arith) (new-IsValid 1 (omega arith)) refl
        (λ j lt. ground (arith, get_or-replicate {A = ℕ} 1 j 0)))
      9 (omega arith) some_context (omega arith) (λ x v p d s w. refl) (λ x v p s w. refl) refl refl

abbrev pub one_nine : ℕ → Pte
one_nine =
    assigned_view clock counting IsValid max_of clock_holds one_empty (λ _. empty_pte) 9
      one_pinned.0.0.ppage_id

pub one_shape : InShape one_full one_nine
one_shape = rw (ap cache_after one_pinned.1) one_pinned.2.1.is_cache

pub one_frame : one_full.max_ppage_id ≡ 1
unfolding program
one_frame = refl

pub one_absent : (one_nine 17).exist ≡ false
one_absent = ground arith

pin_refused_example : Returns (pin clock counting 17 some_context one_full) (λ a.
    (a.0.phase ≡ ended)
    × (a.0.ppage_id ≡ no_ppage_id)
    × InShape a.1 one_nine
    × ((p : ℕ)
        → p < one_full.max_ppage_id
        → pinned_frame (pages_of clock counting IsValid max_of clock_holds one_full) one_nine p
          ≡ true))
pin_refused_example =
    pin_refused clock counting IsValid max_of clock_holds clock-IsPolicy one_shape 17 (omega arith)
      some_context one_stocked one_absent one_is_full

-- Page 9 is given back, written, and page 17 takes its frame: page 9 is evicted once.
evicted_once :
    (cache_after (
      pin clock counting 17 some_context
        (cache_after (unpin clock counting 9 true some_context one_full)))).world
    ≡ 1
unfolding program
evicted_once = refl
