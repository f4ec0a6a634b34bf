-- ===== src/SingleThreadCache/Missed.antt =====
-- `pin` of include/single_thread_cache.hpp on a page that is not mapped, where `evict_func` and
-- `load_func` are done at once.
use tri_cache.SingleThreadCache.{Cache, Map, IsMap}
use tri_cache.SingleThreadCache.Process.{state_at}
use tri_cache.SingleThreadCache.Invariant.{IsCache, pages_of}
use tri_cache.SingleThreadCache.Loaded.{Loads}
use tri_cache.SharedSingleThreadCache.{Functions}
use tri_cache.SharedSingleThreadCache.Loaded.{loaded_pte}
use tri_cache.SharedSingleThreadCache.Frames.{used, assign-Frames}
use tri_cache.Replacement.Policy.{Operations}
use tri_cache.PageTable.Chain.{occ}
use tri_cache.PageTable.Table.{Pte, empty_pte}
use tri_cache.Base.{
  ℕ, ◌+◌, ◌^◌, ◌<◌, ◌≤◌, ◌≡◌, ◌≢◌, ◌==◌, ◌∙◌, sym, ap, ◌&&◌, leb, if◌then◌else◌, Bool, true, false,
  some, none, length, refl, arith,
}

module _ {E X S T W : Type 0} (ops : Operations S) (map : Map T Pte) (f : Functions E X W)
    (ref_bits : ℕ) (unset : Pte) (valid : S → Type 0) (bound : S → ℕ) (holds : S → ℕ → Bool)
    (fits : T → Type 0) (InTable : ℕ → Type 0) where
  -- The states once frame `p` has page `v`, whatever it held.
  abbrev pub assigned_view : Cache E S T W → (ℕ → Pte) → ℕ → ℕ → ℕ → Pte
  assigned_view c view v p w =
      let vp = pages_of ops map f ref_bits unset valid bound holds fits InTable c in
      if w == v then loaded_pte p else if used vp p && vp p == w then empty_pte else view w

  -- The world once the page that frame `p` held, if any, is evicted.
  abbrev pub evicted_world : Cache E S T W → (ℕ → Pte) → ℕ → W
  evicted_world c view p =
      let s = state_at ops map f ref_bits unset c p in
      if used (pages_of ops map f ref_bits unset valid bound holds fits InTable c) p
      then (f.evict f.default_context s.vpage_id p (view s.vpage_id).dirty s.external c.world).2
      else c.world

  -- The page was loaded into frame `p`, which held no page with a reference.
  pub record Missed (c : Cache E S T W) (view : ℕ → Pte) (v p : ℕ) (e : Cache E S T W)
      : Type 0 where
    pub inside : p < c.max_ppage_id
    pub idle :
        used (pages_of ops map f ref_bits unset valid bound holds fits InTable c) p ≡ true
        → (view (pages_of ops map f ref_bits unset valid bound holds fits InTable c p)).ref_count
          ≡ 0
    pub loaded :
        let (_, s, _, w) = f.load f.default_context v p f.new_external (evicted_world c view p) in
        ((state_at ops map f ref_bits unset e p).external ≡ s) × (e.world ≡ w)
    pub is_cache :
        IsCache ops map f ref_bits unset valid bound holds fits InTable e (assigned_view c view v p)

  -- `d` is cache `c` with frame `p`, which held no page with a reference, given to an absent page,
  -- before the load.
  pub record Gives (c : Cache E S T W) (view : ℕ → Pte) (v p : ℕ) (d : Cache E S T W) : Type 0 where
    pub inside : p < c.max_ppage_id
    pub idle :
        used (pages_of ops map f ref_bits unset valid bound holds fits InTable c) p ≡ true
        → (view (pages_of ops map f ref_bits unset valid bound holds fits InTable c p)).ref_count
          ≡ 0
    pub same : (d.max_ppage_id ≡ c.max_ppage_id) × (d.states ≡ c.states)
    pub pinned : d.pinned_size ≡ c.pinned_size + 1
    pub world : d.world ≡ evicted_world c view p
    pub reads :
        (w : ℕ)
        → InTable w
        → w ≢ v
        → map.get w d.page_table
          ≡ (if (assigned_view c view v p w).exist then some (assigned_view c view v p w) else none)
    pub is_valid : valid d.replacement
    pub bounded : bound d.replacement ≡ c.max_ppage_id
    pub held :
        (j : ℕ)
        → j < c.max_ppage_id
        → holds d.replacement j ≡ (if p == j then false else holds c.replacement j)
    pub spared :
        (j : ℕ)
        → j < c.max_ppage_id
        → occ j d.recycle_pool + (if leb d.cur_id j then 1 else 0) ≡ (
            if p == j
            then 0
            else if used (pages_of ops map f ref_bits unset valid bound holds fits InTable c) j
            then 0
            else 1)
    pub recycled : (j : ℕ) → c.max_ppage_id ≤ j → occ j d.recycle_pool ≡ 0
    pub taken : d.cur_id ≤ c.max_ppage_id

  module _ (is_map : IsMap map fits InTable (λ e. e.exist ≡ true)) (wide : 1 < 2 ^ ref_bits) where
    pub assigned-Missed :
        {c : Cache E S T W} {view : ℕ → Pte} {v p : ℕ} {d e : Cache E S T W}
        → IsCache ops map f ref_bits unset valid bound holds fits InTable c view
        → InTable v
        → (view v).exist ≡ false
        → Gives c view v p d
        → Loads ops map f ref_bits unset fits InTable is_map d v p e
        → Missed c view v p e
    assigned-Missed {c} {view} {v} {p} {d} {e} is page gone gives loads =
        let (policy_same, cur_same, pool_same, pinned_same, max_same) = loads.rest in
        let assigned =
          assign-Frames is.frames p v (loaded_pte p) d.cur_id d.recycle_pool
            (pages_of ops map f ref_bits unset valid bound holds fits InTable e)
            (holds d.replacement) gives.inside page gone refl gives.idle
            (λ x. ground (arith, loads.pages x, gives.same)) (λ x lt. gives.held x lt) gives.spared
            gives.recycled gives.taken wide in
        record {
          inside = gives.inside;
          idle = gives.idle;
          loaded = rw (← gives.world) loads.loaded;
          is_cache = record {
            table = loads.table;
            reads = λ w w_page. ground (arith, loads.reads w, gives.reads w w_page);
            sized = loads.sized ∙ ap length gives.same.1 ∙ is.sized ∙ sym (max_same ∙ gives.same.0);
            small = rw (max_same, gives.same.0) is.small;
            is_valid = rw policy_same gives.is_valid;
            bounded = ap bound policy_same ∙ gives.bounded ∙ sym (max_same ∙ gives.same.0);
            frames =
                rw
                  (
                    max_same, gives.same.0, cur_same, pool_same, policy_same, pinned_same,
                    gives.pinned,
                  )
                  assigned;
          };
        }
