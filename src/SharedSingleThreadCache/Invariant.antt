-- ===== src/SharedSingleThreadCache/Invariant.antt =====
-- What holds of a cache of include/shared_single_thread_cache.hpp between two calls.
use tri_cache.SharedSingleThreadCache.{Cache, Functions}
use tri_cache.SharedSingleThreadCache.Process.{state_at}
use tri_cache.SharedSingleThreadCache.Frames.{Frames, IsPage}
use tri_cache.Replacement.Policy.{Operations}
use tri_cache.PageTable.Place.{IsTable}
use tri_cache.PageTable.Mapping.{get_pte}
use tri_cache.PageTable.Race.{empty_ppage_id}
use tri_cache.PageTable.Table.{Pte}
use tri_cache.Base.{ℕ, ◌<◌, ◌^◌, ◌≡◌, Bool, length, some, none, pos}

module _ {E X S W : Type 0} (ops : Operations S) (f : Functions E X W) (valid : S → Type 0)
    (bound : S → ℕ) (holds : S → ℕ → Bool) where
  -- The page of each frame.
  abbrev pub pages_of : Cache E S W → ℕ → ℕ
  pages_of c p = (state_at ops f c p).vpage_id

  -- `view` is the entry of each page.
  pub record IsCache (c : Cache E S W) (view : ℕ → Pte) : Type 0 where
    pub table : IsTable c.page_table
    pub reads : (v : ℕ) → IsPage v → get_pte c.page_table v none ≡ some (view v)
    pub sized : length c.states ≡ c.max_ppage_id
    pub small : c.max_ppage_id < empty_ppage_id
    pub is_valid : valid c.replacement
    pub bounded : bound c.replacement ≡ c.max_ppage_id
    pub pinned : ℕ
    pub pinned_pos : c.pinned_size ≡ pos pinned
    pub frames :
        Frames IsPage
          (2 ^ 13)
          c.max_ppage_id
          c.cur_id
          c.recycle_pool
          (pages_of c)
          view
          (holds c.replacement)
          pinned
