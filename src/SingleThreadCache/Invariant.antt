-- ===== src/SingleThreadCache/Invariant.antt =====
-- What holds of a cache of include/single_thread_cache.hpp between two calls.
use tri_cache.SingleThreadCache.{Cache, Map}
use tri_cache.SingleThreadCache.Process.{state_at}
use tri_cache.SharedSingleThreadCache.{Functions}
use tri_cache.SharedSingleThreadCache.Frames.{Frames}
use tri_cache.Replacement.Policy.{Operations}
use tri_cache.PageTable.Table.{Pte}
use tri_cache.Base.{ℕ, ◌+◌, ◌<◌, ◌^◌, ◌≡◌, Bool, length, some, none, if◌then◌else◌}

module _ {E X S T W : Type 0} (ops : Operations S) (map : Map T Pte) (f : Functions E X W)
    (ref_bits : ℕ) (unset : Pte) (valid : S → Type 0) (bound : S → ℕ) (holds : S → ℕ → Bool)
    (fits : T → Type 0) (InTable : ℕ → Type 0) where
  -- The page of each frame.
  abbrev pub pages_of : Cache E S T W → ℕ → ℕ
  pages_of c p = (state_at ops map f ref_bits unset c p).vpage_id

  -- `view` is the state of each page.
  pub record IsCache (c : Cache E S T W) (view : ℕ → Pte) : Type 0 where
    pub table : fits c.page_table
    pub reads :
        (v : ℕ)
        → InTable v
        → map.get v c.page_table ≡ (if (view v).exist then some (view v) else none)
    pub sized : length c.states ≡ c.max_ppage_id
    pub small : c.max_ppage_id + 1 < 2 ^ 64
    pub is_valid : valid c.replacement
    pub bounded : bound c.replacement ≡ c.max_ppage_id
    pub frames :
        Frames InTable
          (2 ^ ref_bits)
          c.max_ppage_id
          c.cur_id
          c.recycle_pool
          (pages_of c)
          view
          (holds c.replacement)
          c.pinned_size
