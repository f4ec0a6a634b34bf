-- ===== src/SharedSingleThreadCache/Assigned.antt =====
-- A frame of include/shared_single_thread_cache.hpp is loaded with a page that was absent: what the
-- cache is afterwards.
use tri_cache.Base.{
  sym, length, some, none, ap, ◌∙◌, ◌≢◌, pos, arith, true, false, ◌≡◌, ◌<◌, ◌+ℤ◌, Bool, ℕ,
}
use tri_cache.SharedSingleThreadCache.{ℕ, Cache, Functions}
use tri_cache.SharedSingleThreadCache.Process.{state_at}
use tri_cache.SharedSingleThreadCache.Frames.{used, IsPage, assign-Frames}
use tri_cache.SharedSingleThreadCache.Invariant.{IsCache, pages_of}
use tri_cache.SharedSingleThreadCache.Loaded.{Loads, loaded_pte}
use tri_cache.Replacement.Policy.{Operations}
use tri_cache.PageTable.Chain.{occ}
use tri_cache.PageTable.Mapping.{get_pte}
use tri_cache.Base.{
  ℕ, ◌+◌, ◌+ℤ◌, pos, ◌==◌, ◌≤◌, ◌<◌, ◌≡◌, ◌≢◌, ◌∙◌, sym, ap, leb, ◌&&◌, if◌then◌else◌, true, false,
  some, none, arith, refl, length,
}
use tri_cache.PageTable.Table.{Pte, empty_pte}

module _ {E X S W : Type 0} (ops : Operations S) (f : Functions E X W) (valid : S → Type 0)
    (bound : S → ℕ) (holds : S → ℕ → Bool) where
  -- The entries once frame `p` has page `v`, whatever it held.
  abbrev pub assigned_view : Cache E S W → (ℕ → Pte) → ℕ → ℕ → ℕ → Pte
  assigned_view c view v p w =
      let vp = pages_of ops f valid bound holds c in
      if w == v then loaded_pte p else if used vp p && vp p == w then empty_pte else view w

  -- The world once the page that frame `p` held, if any, is evicted.
  abbrev pub evicted_world : Cache E S W → (ℕ → Pte) → ℕ → W
  evicted_world c view p =
      let vp = pages_of ops f valid bound holds c in
      if used vp p
      then (f.evict f.default_context (vp p) p (view (vp p)).dirty (state_at ops f c p).external
          c.world).2
      else c.world

  -- `d` is cache `c` with frame `p`, which held no page with a reference, given to an absent page,
  -- before the load.
  pub record Gives (c : Cache E S W) (view : ℕ → Pte) (v p : ℕ) (d : Cache E S W) : Type 0 where
    pub inside : p < c.max_ppage_id
    pub idle :
        used (pages_of ops f valid bound holds c) p ≡ true
        → (view (pages_of ops f valid bound holds c p)).ref_count ≡ 0
    pub same_max : d.max_ppage_id ≡ c.max_ppage_id
    pub pinned : d.pinned_size ≡ c.pinned_size +ℤ pos 1
    pub states : d.states ≡ c.states
    pub world : d.world ≡ evicted_world c view p
    pub reads :
        (w : ℕ) → IsPage w → w ≢ v → get_pte d.page_table w none ≡ some (assigned_view c view v p w)
    pub is_valid : valid d.replacement
    pub bounded : bound d.replacement ≡ c.max_ppage_id
    pub held :
        (j : ℕ)
        → j < c.max_ppage_id
        → holds d.replacement j ≡ (if p == j then false else holds c.replacement j)
    pub spared :
        (j : ℕ)
        → j < c.max_ppage_id
        → occ j d.recycle_pool + (if leb d.cur_id j then 1 else 0)
          ≡ (if p == j then 0 else if used (pages_of ops f valid bound holds c) j then 0 else 1)
    pub recycled : (j : ℕ) → c.max_ppage_id ≤ j → occ j d.recycle_pool ≡ 0
    pub taken : d.cur_id ≤ c.max_ppage_id

  pub assigned-IsCache :
      {c : Cache E S W} {view : ℕ → Pte} {v p : ℕ} {d e : Cache E S W}
      → IsCache ops f valid bound holds c view
      → IsPage v
      → (view v).exist ≡ false
      → Gives c view v p d
      → Loads ops f d v p e
      → IsCache ops f valid bound holds e (assigned_view c view v p)
  unfolding ◌+ℤ◌
  assigned-IsCache {c} {view} {v} {p} {d} {e} is page gone gives loads =
      let (policy_same, cur_same, pool_same, pinned_same, max_same) = loads.rest in
      let vp = pages_of ops f valid bound holds c in
      let assigned =
        assign-Frames is.frames p v (loaded_pte p) d.cur_id d.recycle_pool
          (pages_of ops f valid bound holds e) (holds d.replacement) gives.inside page gone refl
          gives.idle (λ x. ground (arith, loads.pages x, gives.states)) (λ x lt. gives.held x lt)
          gives.spared gives.recycled gives.taken (omega arith) in
      record {
        table = loads.writes.shape;
        reads = λ w w_page. ground (arith, loads.writes.reads w, gives.reads w w_page);
        sized = loads.sized ∙ ap length gives.states ∙ is.sized ∙ sym (max_same ∙ gives.same_max);
        small = rw (max_same, gives.same_max) is.small;
        is_valid = rw policy_same gives.is_valid;
        bounded = ap bound policy_same ∙ gives.bounded ∙ sym (max_same ∙ gives.same_max);
        pinned = is.pinned + 1;
        pinned_pos = pinned_same ∙ gives.pinned ∙ ground (arith, is.pinned_pos);
        frames = rw (max_same, gives.same_max, cur_same, pool_same, policy_same) assigned;
      }

  -- The page was loaded into frame `p`, which held no page with a reference.
  pub record Missed (c : Cache E S W) (view : ℕ → Pte) (v p : ℕ) (e : Cache E S W) : Type 0 where
    pub inside : p < c.max_ppage_id
    pub idle :
        used (pages_of ops f valid bound holds c) p ≡ true
        → (view (pages_of ops f valid bound holds c p)).ref_count ≡ 0
    pub loaded :
        let (_, s, _, w) = f.load f.default_context v p f.new_external (evicted_world c view p) in
        ((state_at ops f e p).external ≡ s) × (e.world ≡ w)
    pub others : (j : ℕ) → p ≢ j → state_at ops f e j ≡ state_at ops f c j
    pub same_max : e.max_ppage_id ≡ c.max_ppage_id
    pub is_cache : IsCache ops f valid bound holds e (assigned_view c view v p)
