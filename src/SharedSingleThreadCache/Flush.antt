-- ===== src/SharedSingleThreadCache/Flush.antt =====
-- `flush` of include/shared_single_thread_cache.hpp, one function for each of its loops.
use tri_cache.SharedSingleThreadCache.{empty_vpage_id, Context, Functions, Cache, free}
use tri_cache.SharedSingleThreadCache.Process.{state_at, init_state, call_evict}
use tri_cache.Replacement.Policy.{Operations}
use tri_cache.PageTable.Mapping.{get_pte, delete_mapping, release_mapping_lock}
use tri_cache.Base.{
  ltb, ℕ, zero, suc, ◌+◌, ◌==◌, if◌then◌else◌, true, false, not, ◌||◌, Option, none, some, List, [],
  ◌∷◌, ◌>>=◌,
}

module _ {E X S W : Type 0} (ops : Operations S) (f : Functions E X W) where
  -- The first loop of `flush`, on `n` frames from frame `i` on: the calls of `evict_func` start. `x` is
  -- the memory of a context.
  unfoldable pub start_evictions :
      ℕ → ℕ → Context E X → Cache E S W → Option (List (Context E X) × Cache E S W)
  start_evictions zero i x c = some ([], c)
  start_evictions (suc n) i x c =
      let s = state_at ops f c i in
      elim (s.vpage_id == empty_vpage_id) [
        | true ↦ start_evictions n (i + 1) x c
        | false ↦ do
          e ← get_pte c.page_table s.vpage_id none
          (_, y, d) ←
              call_evict ops f
                (record x {
                  ppage_id = i;
                  pre_vpage_id = s.vpage_id;
                  pre_external_state = some s.external;
                  dirty = if e.ref_count == 0 then e.dirty else true;
                  external_context = f.default_context;
                })
                c
          (rest, last) ← start_evictions n (i + 1) x d
          some (y ∷ rest, last)
      ]

  -- The second loop: `pop` while the policy has a page.
  unfoldable pub drain : ℕ → S → Option S
  drain zero r = none
  drain (suc n) r = elim (ops.size r == 0) [
    | true ↦ some r
    | false ↦ do (_, _, t) ← ops.pop r; drain n t
  ]

  -- One round of the third loop: `evict_func` again for the contexts from `start` on that are not done.
  -- It says which of them was the last, from `min_processing` on.
  unfoldable pub evict_again :
      ℕ → ℕ → ℕ → List (Context E X) → Cache E S W → Option (ℕ × List (Context E X) × Cache E S W)
  evict_again start i min_processing [] c = some (min_processing, [], c)
  evict_again start i min_processing (x ∷ xs) c = elim (ltb i start || not x.processing) [
    | true ↦ do (min, ys, d) ← evict_again start (i + 1) min_processing xs c; some (min, x ∷ ys, d)
    | false ↦ do
      (_, y, d) ← call_evict ops f x c
      (min, ys, e) ← evict_again start (i + 1) i xs d
      some (min, y ∷ ys, e)
  ]

  -- The third loop, on fuel.
  unfoldable pub wait :
      ℕ → ℕ → List (Context E X) → Cache E S W → Option (List (Context E X) × Cache E S W)
  wait zero start xs c = none
  wait (suc n) start xs c = do
    (min, ys, d) ← evict_again start 0 c.max_ppage_id xs c
    elim (min == c.max_ppage_id) [ true ↦ some (ys, d) | false ↦ wait n min ys d ]

  -- The last loop: the pages leave the table and their frames are free.
  unfoldable pub free_frames : List (Context E X) → Cache E S W → Option (Cache E S W)
  free_frames [] c = some c
  free_frames (x ∷ xs) c = do
    (_, t) ← delete_mapping c.page_table x.pre_vpage_id none
    let d = free x.ppage_id (init_state ops f x.ppage_id (record c { page_table = t }))
    (_, u) ← release_mapping_lock d.page_table x.pre_vpage_id none
    free_frames xs (record d { page_table = u })

  -- `rounds` is the fuel of the third loop.
  unfoldable pub flush : ℕ → Context E X → Cache E S W → Option (Cache E S W)
  flush rounds x c = do
    (xs, d) ← start_evictions c.max_ppage_id 0 x c
    r ← drain (suc (ops.size d.replacement)) d.replacement
    (ys, e) ← wait rounds 0 xs (record d { replacement = r })
    free_frames ys e
