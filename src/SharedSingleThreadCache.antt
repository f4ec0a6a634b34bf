-- ===== src/SharedSingleThreadCache.antt =====
-- include/shared_single_thread_cache.hpp, class `SharedSingleThreadCache`: its state, and the contexts
-- of the calls under way. The types of the external state and context, and of the state of the
-- replacement policy, are parameters, and so is the type of the world that `evict_func` and
-- `load_func` act on.
pub mod Process
pub mod Methods
pub mod Flush
pub mod Frames
pub mod Invariant
pub mod Pinned
pub mod Loaded
pub mod Allocated
pub mod Assigned
pub mod Missed
pub mod Evicted
pub mod Begun
pub mod Victim
pub mod Calls
pub mod Rounds
pub mod Drained
pub mod Freed
pub mod Flushed
pub mod Fresh
pub mod Notices
use tri_cache.PageTable.Table.{Table, Pte}
use tri_cache.Base.{
  false, true, ℕ, ◌+◌, ◌-◌, ◌^◌, ◌==◌, if◌then◌else◌, ltb, leb, Bool, not, ◌&&◌, Option, none, some,
  List, [], ◌∷◌, length, get_or, set, ℤ, pos, leb_ℤ, ◌>>◌, assert,
}

-- `internal_state_type::EMPTY_VPAGE_ID`
abbrev pub empty_vpage_id : ℕ
empty_vpage_id = 2 ^ 64 - 1

-- `context_type::EMPTY_PPAGE_ID`
abbrev pub no_ppage_id : ℕ
no_ppage_id = 2 ^ 64 - 1

-- `state_type`
pub record State (E : Type 0) : Type 0 where
  pub vpage_id : ℕ
  pub external : E

-- `context_type::Type`
pub data Kind : Type 0 where
  pin_call unpin_call : Kind

-- `context_type::Phase`
pub data Phase : Type 0 where
  begin initing evicting loading ended : Phase

-- `context_type`; `external_state` is the frame whose state it points to.
pub record Context (E X : Type 0) : Type 0 where
  pub kind : Kind
  pub phase : Phase
  pub processing : Bool
  pub dirty : Bool
  pub is_write : Bool
  pub is_unpin : Bool
  pub vpage_id : ℕ
  pub pre_vpage_id : ℕ
  pub ppage_id : ℕ
  pub prefetch_ppage_id : ℕ
  pub hint : Option ℕ
  pub pre_hint : Option ℕ
  pub pte : Pte
  pub external_state : Option ℕ
  pub pre_external_state : Option E
  pub external_context : X

-- `evict_func` and `load_func` say whether they are done; `load_func` writes the external state.
pub record Functions (E X W : Type 0) : Type 0 where
  pub evict : X → ℕ → ℕ → Bool → E → W → Bool × X × W
  pub load : X → ℕ → ℕ → E → W → Bool × E × X × W
  pub new_external : E  -- `external_state_type()`
  pub default_context : X

pub record Cache (E S W : Type 0) : Type 0 where
  pub max_ppage_id : ℕ
  pub page_table : Table
  pub pinned_size : ℤ
  pub cur_id : ℕ
  pub recycle_pool : List ℕ  -- the back first
  pub states : List (State E)
  pub replacement : S
  pub world : W

module _ {E S W : Type 0} where
  unfoldable pub size : Cache E S W → ℕ
  size c = c.cur_id - length c.recycle_pool

  unfoldable pub full : Cache E S W → Bool
  full c = leb c.max_ppage_id c.cur_id && elim c.recycle_pool [ [] ↦ true | x ∷ xs ↦ false ]

  unfoldable pub full_pin : Cache E S W → Bool
  full_pin c = leb_ℤ (pos c.max_ppage_id) c.pinned_size

  -- A failed assertion is `none`.
  unfoldable pub alloc : Cache E S W → Option (ℕ × Cache E S W)
  unfolding full
  alloc c = do
    assert (not (full c))
    elim c.recycle_pool [
      | id ∷ rest ↦ some (id, record c { recycle_pool = rest })
      | [] ↦
          if ltb c.cur_id c.max_ppage_id
          then some (c.cur_id, record c { cur_id = c.cur_id + 1 })
          else some (0, c)
    ]

  unfoldable pub free : ℕ → Cache E S W → Cache E S W
  free id c = record c { recycle_pool = id ∷ c.recycle_pool }
