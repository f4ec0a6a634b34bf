-- ===== src/DirectTable.antt =====
-- include/page_table.hpp, class `DirectPageTable`: an array of one value for each virtual page. The
-- type of the values and its `operator==` are parameters.
pub mod Laws
use tri_cache.Base.{ℕ, if◌then◌else◌, Bool, not, List, get_or, set, replicate, Option, none, some}

pub record DirectTable (V : Type 0) : Type 0 where
  pub max_vpage_id : ℕ
  pub empty_value : V
  pub store : List V

-- the constructor
unfoldable pub new_direct : {V : Type 0} → ℕ → V → DirectTable V
new_direct max empty = record {
  max_vpage_id = max;
  empty_value = empty;
  store = replicate max empty;
}

abbrev pub value : {V : Type 0} → DirectTable V → ℕ → V
value t vpage_id = get_or t.store vpage_id t.empty_value

module _ {V : Type 0} (eq : V → V → Bool) where
  unfoldable pub put : ℕ → V → DirectTable V → Bool × DirectTable V
  put vpage_id v t =
      (eq (value t vpage_id) t.empty_value, record t { store = set t.store vpage_id v })

  unfoldable pub get : ℕ → DirectTable V → Option V
  get vpage_id t = if eq (value t vpage_id) t.empty_value then none else some (value t vpage_id)

  unfoldable pub del : ℕ → DirectTable V → Bool × DirectTable V
  del vpage_id t = (
    not (eq (value t vpage_id) t.empty_value),
    record t { store = set t.store vpage_id t.empty_value },
  )
