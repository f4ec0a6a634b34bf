-- ===== src/SingleThreadCache.antt =====
-- include/single_thread_cache.hpp, class `SingleThreadCache`: its state, the contexts of the calls under
-- way, and the page table that it is over, a template parameter. `template_page_table_state_type` has
-- the fields of `Pte`; the width of its counter is a parameter, 32 bits or, where it is compact, 8.
pub mod Process
pub mod Methods
pub mod Allocated
pub mod Invariant
pub mod Pinned
pub mod Loaded
pub mod Missed
pub mod Victim
pub mod Calls
pub mod Tables
use tri_cache.SharedSingleThreadCache.{State, Kind, Phase}
use tri_cache.PageTable.Table.{Pte}
use tri_cache.Base.{
  ℕ, ◌+◌, ◌-◌, ◌%◌, ◌^◌, ltb, leb, Bool, true, false, not, ◌&&◌, Option, some, none, List, [], ◌∷◌,
  length, ◌≡◌, ◌==◌, if◌then◌else◌, ◌>>◌, assert,
}

-- What the cache calls of the page table. `put` and `del` say what no call of the cache reads.
pub record Map (T V : Type 0) : Type 0 where
  pub get : ℕ → T → Option V
  pub put : ℕ → V → T → T
  pub del : ℕ → T → T

-- It is a map on the pages of `inside`, for the values that are asked for.
pub record IsMap {T V : Type 0} (map : Map T V) (valid : T → Type 0) (inside : ℕ → Type 0)
    (full : V → Type 0) : Type 0 where
  pub put-get :
      (t : T) (i : ℕ) (v : V)
      → valid t
      → inside i
      → full v
      → valid (map.put i v t)
        × ((j : ℕ) → map.get j (map.put i v t) ≡ (if i == j then some v else map.get j t))
  pub del-get :
      (t : T) (i : ℕ)
      → valid t
      → inside i
      → valid (map.del i t)
        × ((j : ℕ) → map.get j (map.del i t) ≡ (if i == j then none else map.get j t))

-- `context_type`; `external_state` is the frame whose state it points to.
pub record Context (E X : Type 0) : Type 0 where
  pub kind : Kind
  pub phase : Phase
  pub processing : Bool
  pub dirty : Bool
  pub is_write : Bool
  pub is_unpin : Bool
  pub vpage_id : ℕ
  pub pre_vpage_id : ℕ
  pub ppage_id : ℕ
  pub prefetch_ppage_id : ℕ
  pub page_table_state : Option Pte
  pub external_state : Option ℕ
  pub pre_external_state : Option E
  pub external_context : X

pub record Cache (E S T W : Type 0) : Type 0 where
  pub max_ppage_id : ℕ
  pub page_table : T
  pub pinned_size : ℕ
  pub cur_id : ℕ
  pub recycle_pool : List ℕ  -- the back first
  pub states : List (State E)
  pub replacement : S
  pub world : W

-- `pinned_size++` and `pinned_size--`, of 64 bits
abbrev pub more : ℕ → ℕ
more n = (n + 1) % 2 ^ 64

abbrev pub fewer : ℕ → ℕ
fewer n = (n + (2 ^ 64 - 1)) % 2 ^ 64

module _ {E S T W : Type 0} where
  unfoldable pub size : Cache E S T W → ℕ
  size c = c.cur_id - length c.recycle_pool

  unfoldable pub full : Cache E S T W → Bool
  full c = leb c.max_ppage_id c.cur_id && elim c.recycle_pool [ [] ↦ true | x ∷ xs ↦ false ]

  unfoldable pub full_pin : Cache E S T W → Bool
  full_pin c = leb c.max_ppage_id c.pinned_size

  -- A failed assertion is `none`.
  unfoldable pub alloc : Cache E S T W → Option (ℕ × Cache E S T W)
  unfolding full
  alloc c = do
    assert (not (full c))
    elim c.recycle_pool [
      | id ∷ rest ↦ some (id, record c { recycle_pool = rest })
      | [] ↦
          if ltb c.cur_id c.max_ppage_id
          then some (c.cur_id, record c { cur_id = c.cur_id + 1 })
          else some (0, c)
    ]

  unfoldable pub free : ℕ → Cache E S T W → Cache E S T W
  free id c = record c { recycle_pool = id ∷ c.recycle_pool }
