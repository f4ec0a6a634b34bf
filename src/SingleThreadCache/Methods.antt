-- ===== src/SingleThreadCache/Methods.antt =====
-- The calls of include/single_thread_cache.hpp: the constructor, `pin`, `unpin` and `flush`.
use tri_cache.SingleThreadCache.{Map, Context, Cache, free}
use tri_cache.SingleThreadCache.Process.{state_at, init_state, run, call_evict}
use tri_cache.SharedSingleThreadCache.{empty_vpage_id, pin_call, unpin_call, begin, Functions}
use tri_cache.Replacement.Policy.{Operations}
use tri_cache.PageTable.Table.{Pte}
use tri_cache.Base.{
  ℕ, zero, suc, ◌+◌, ◌==◌, if◌then◌else◌, ltb, Bool, true, false, not, ◌||◌, Option, none, some,
  List, [], ◌∷◌, replicate, ◌>>=◌,
}

module _ {E X S T W : Type 0} (ops : Operations S) (map : Map T Pte) (f : Functions E X W)
    (ref_bits : ℕ) (unset : Pte) where
  -- The constructor; the page table and the replacement policy are the second and third arguments.
  unfoldable pub new_cache : ℕ → T → S → W → Cache E S T W
  new_cache max_ppage_id page_table replacement world = record {
    max_ppage_id = max_ppage_id;
    page_table = page_table;
    pinned_size = 0;
    cur_id = 0;
    recycle_pool = [];
    states =
        replicate max_ppage_id (record { vpage_id = empty_vpage_id; external = f.new_external });
    replacement = replacement;
    world = world;
  }

  -- No call goes through more than four phases.
  unfoldable pub process : Context E X → Cache E S T W → Option (Context E X × Cache E S T W)
  process x c = run ops map f ref_bits unset 4 x c

  -- `x` is the memory of the new context, whose options are empty.
  unfoldable pub pin : ℕ → Context E X → Cache E S T W → Option (Context E X × Cache E S T W)
  unfolding process
  pin v x c =
      process
        (record x {
          kind = pin_call;
          phase = begin;
          vpage_id = v;
          page_table_state = none;
          pre_external_state = none;
        })
        c

  unfoldable pub unpin :
      ℕ → Bool → Context E X → Cache E S T W → Option (Context E X × Cache E S T W)
  unfolding process
  unpin v is_write x c =
      process
        (record x {
          kind = unpin_call;
          phase = begin;
          vpage_id = v;
          is_write = is_write;
          page_table_state = none;
          pre_external_state = none;
        })
        c

  -- The first loop of `flush`, on `n` frames from frame `i` on: a page without references leaves the
  -- policy, and the calls of `evict_func` start. `x` is the memory of a context.
  unfoldable pub start_evictions :
      ℕ → ℕ → Context E X → Cache E S T W → Option (List (Context E X) × Cache E S T W)
  start_evictions zero i x c = some ([], c)
  start_evictions (suc n) i x c =
      let s = state_at ops map f ref_bits unset c i in
      elim (s.vpage_id == empty_vpage_id) [
        | true ↦ start_evictions n (i + 1) x c
        | false ↦ do
          e ← map.get s.vpage_id c.page_table
          r ←
              if e.ref_count == 0
              then (do (_, _, t) ← ops.pop c.replacement; some t)
              else some c.replacement
          (_, y, d) ←
              call_evict ops map f ref_bits unset
                (record x {
                  ppage_id = i;
                  pre_vpage_id = s.vpage_id;
                  pre_external_state = some s.external;
                  dirty = if e.ref_count == 0 then e.dirty else true;
                  external_context = f.default_context;
                })
                (record c { replacement = r })
          (rest, last) ← start_evictions n (i + 1) x d
          some (y ∷ rest, last)
      ]

  -- One round of the second loop: `evict_func` again for the contexts from `start` on that are not done.
  -- It says which of them was the last, from `min_processing` on.
  unfoldable pub evict_again :
      ℕ
      → ℕ
      → ℕ
      → List (Context E X)
      → Cache E S T W
      → Option (ℕ × List (Context E X) × Cache E S T W)
  evict_again start i min_processing [] c = some (min_processing, [], c)
  evict_again start i min_processing (x ∷ xs) c = elim (ltb i start || not x.processing) [
    | true ↦ do (min, ys, d) ← evict_again start (i + 1) min_processing xs c; some (min, x ∷ ys, d)
    | false ↦ do
      (_, y, d) ← call_evict ops map f ref_bits unset x c
      (min, ys, e) ← evict_again start (i + 1) i xs d
      some (min, y ∷ ys, e)
  ]

  -- The second loop, on fuel.
  unfoldable pub wait :
      ℕ → ℕ → List (Context E X) → Cache E S T W → Option (List (Context E X) × Cache E S T W)
  wait zero start xs c = none
  wait (suc n) start xs c = do
    (min, ys, d) ← evict_again start 0 c.max_ppage_id xs c
    elim (min == c.max_ppage_id) [ true ↦ some (ys, d) | false ↦ wait n min ys d ]

  -- The last loop: the pages leave the table and their frames are free.
  unfoldable pub free_frames : List (Context E X) → Cache E S T W → Cache E S T W
  free_frames [] c = c
  free_frames (x ∷ xs) c =
      let d = record c { page_table = map.del x.pre_vpage_id c.page_table } in
      free_frames xs (free x.ppage_id (init_state ops map f ref_bits unset x.ppage_id d))

  -- `rounds` is the fuel of the second loop.
  unfoldable pub flush : ℕ → Context E X → Cache E S T W → Option (Cache E S T W)
  flush rounds x c = do
    (xs, d) ← start_evictions c.max_ppage_id 0 x c
    (ys, e) ← wait rounds 0 xs d
    some (free_frames ys e)
