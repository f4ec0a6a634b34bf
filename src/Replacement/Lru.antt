-- ===== src/Replacement/Lru.antt =====
-- include/replacement.hpp, class `LRU`. An iterator is the number of its node, and `list.end()` is
-- `none`; a node keeps its number when `splice` moves it.
pub mod Nodes
pub mod Laws
use tri_cache.Base.{
  ℕ, suc, ◌+◌, ◌-◌, ◌^◌, ◌%◌, ltb, ◌==◌, if◌then◌else◌, Bool, List, [], ◌∷◌, length, get_or, set,
  replicate, Option, none, some, is_null,
}

pub record Node : Type 0 where
  pub id : ℕ
  pub page : ℕ

pub record Lru : Type 0 where
  pub max_ppage_id : ℕ
  pub list : List Node
  pub states : List (Option ℕ)
  pub next_id : ℕ  -- the number of the next node to be allocated

-- the constructor
unfoldable pub new : ℕ → Lru
new max = record { max_ppage_id = max; list = []; states = replicate max none; next_id = 0 }

abbrev pub position : Lru → ℕ → Option ℕ
position l i = get_or l.states i none

-- The node of an iterator, and the list without it.
unfoldable pub take_node : ℕ → List Node → Option (Node × List Node)
take_node k [] = none
take_node k (x ∷ xs) =
    let rest = take_node k xs in
    if x.id == k then some (x, xs) else elim rest [ none ↦ none | some (y, ys) ↦ some (y, x ∷ ys) ]

-- The list without its last node, and that node.
unfoldable pub split_last : List Node → Option (List Node × Node)
split_last [] = none
split_last (x ∷ xs) = elim (split_last xs) [ none ↦ some ([], x) | some (ys, y) ↦ some (x ∷ ys, y) ]

-- `assert(states[ppage_id] != list.end())`; a failed assertion is `none`.
unfoldable pub access : ℕ → Lru → Option Lru
access i l = elim (position l i) [
  | none ↦ none
  | some k ↦ elim (take_node k l.list) [
    | none ↦ none
    | some (x, xs) ↦ some (record l { list = x ∷ xs })
  ]
]

unfoldable pub push : ℕ → Lru → Option Lru
unfolding access
push i l =
    if is_null (position l i)
    then some (record l {
      list = record { id = l.next_id; page = i } ∷ l.list;
      states = set l.states i (some l.next_id);
      next_id = suc l.next_id;
    })
    else access i l

unfoldable pub erase : ℕ → Lru → Option Lru
erase i l = elim (position l i) [
  | none ↦ some l
  | some k ↦ elim (take_node k l.list) [
    | none ↦ none
    | some (x, xs) ↦ some (record l { list = xs; states = set l.states i none })
  ]
]

-- A page number as an `int` holds it, and as it is a page number again.
abbrev pub as_int : ℕ → ℕ
as_int i = let low = i % 2 ^ 32 in if ltb low (2 ^ 31) then low else low + (2 ^ 64 - 2 ^ 32)

-- `list.back()`, or 0 where the list is empty
abbrev pub back_or_zero : List Node → ℕ
back_or_zero xs = elim (split_last xs) [ none ↦ 0 | some (ys, y) ↦ y.page ]

-- The page taken, the page that would be next, and the list after. `auto next_id = 0` is an `int`.
unfoldable pub pop : Lru → Option (ℕ × ℕ × Lru)
pop l = elim (split_last l.list) [
  | none ↦ none
  | some (ys, y) ↦
      some (
        y.page,
        as_int (back_or_zero ys),
        record l { list = ys; states = set l.states y.page none },
      )
]

unfoldable pub size : Lru → ℕ
size l = length l.list
