-- ===== src/PageTable/Mapping.antt =====
-- include/compact_hash_page_table.hpp, class `CompactHashPageTable`: creation and deletion of cache
-- lines, and the operations on mappings. `hint` is the line, or `none` for the default `nullptr`.
use tri_cache.Base.{
  ◌||◌, ℕ, ◌+◌, ◌%◌, ◌==◌, if◌then◌else◌, ltb, Bool, true, false, not, ◌&&◌, Option, none, some, [],
  ◌^◌, ◌%◌, ◌∷◌, set, ◌>>=◌, ◌>>◌, assert, is_null, pointer_eq,
}
use tri_cache.PageTable.Header.{Header, inc_body, u13, dec_body, lock_body, unlock_body}
use tri_cache.PageTable.Race.{empty_ppage_id}
use tri_cache.PageTable.Table.{
  Pte, Table, line, set_line, header, ppage, set_header, tag_of, offset_of, get_bucket, empty_tag,
  empty_pte, to_unpacked, empty_cacheline, find_cacheline, find_cacheline_hint, find_pre_cacheline,
}

-- `pool.back()`, `pool.pop_back()`
abbrev pub pop_back : Table → Option (ℕ × Table)
pop_back t = elim t.pool [ [] ↦ none | p ∷ rest ↦ some (p, record t { pool = rest }) ]

-- `pre_cacheline->next = cacheline`, where there is a `pre_cacheline`
abbrev pub link : Option ℕ → Option ℕ → Table → Table
link none p t = t
link (some pre) p t = set_line t pre (record (line t pre) { next = p })

-- The line that `create_cacheline` takes: the bucket itself, or one from the pool.
abbrev pub take_line : Table → ℕ → Option ℕ → Option (ℕ × Table)
take_line t tag none = some (get_bucket t tag, t)
take_line t tag (some pre) = do assert (is_null (line t pre).next); pop_back t

unfoldable pub create_cacheline : Table → ℕ → Option ℕ → Option (ℕ × Table)
create_cacheline t tag pre = do
  let found = find_cacheline_hint t tag
  assert (not found.0 && pointer_eq found.1 pre)
  (p, u) ← take_line t tag pre
  assert (empty_cacheline (line u p))
  let v = set_line u p (record (line u p) { tag = tag % 2 ^ 58 })
  some (p, link pre (some p) v)

-- The line leaves its chain and goes to the pool, where it is not the bucket itself.
abbrev pub unlink : Option ℕ → ℕ → Table → Table
unlink none p t = t
unlink (some pre) p t =
    let u = link (some pre) (line t p).next t in
    let v = set_line u p (record (line u p) { next = none }) in record v { pool = p ∷ v.pool }

-- `pre_cacheline == nullptr || &store[get_bucket(tag)] == cacheline || pre_cacheline->next == cacheline`
abbrev pub leads : Table → ℕ → Option ℕ → Bool
leads t p none = true
leads t p (some pre) = get_bucket t (line t p).tag == p || pointer_eq (line t pre).next (some p)

unfoldable pub delete_cacheline : Table → ℕ → Option Table
delete_cacheline t p = do
  let found = find_cacheline_hint t (line t p).tag
  assert (found.0 && pointer_eq found.1 (some p))
  let pre = find_pre_cacheline t (line t p).tag p
  assert (leads t p pre)
  assert (empty_cacheline (line t p))
  let u = unlink pre p t
  some (set_line u p (record (line u p) { tag = empty_tag }))

-- `hint ? hint : find_cacheline(tag, should_exist)`
abbrev pub choose : Table → Option ℕ → ℕ → Bool → Option ℕ
choose t (some p) tag should_exist = some p
choose t none tag should_exist = find_cacheline t tag should_exist

-- The line, with `assert(cacheline && cacheline->tag == tag)`.
abbrev pub tagged : Table → ℕ → Option ℕ → Option ℕ
tagged t tag none = none
tagged t tag (some p) = if (line t p).tag == tag then some p else none

abbrev pub put_header : Table → ℕ → ℕ → Header → Table
put_header t p i h = set_line t p (set_header (line t p) i h)

-- The end of `pin`: the reference is given back if the line has another tag by now.
abbrev pub recheck : Table → ℕ → ℕ → ℕ → Option ((Bool × ℕ × ℕ) × Table)
recheck u vpage_id p pre =
    let i = offset_of vpage_id in
    if (line u p).tag == tag_of vpage_id
    then some ((true, ppage (line u p) i, pre), u)
    else do (h, _) ← dec_body false (header (line u p) i); some ((false, 0, 0), put_header u p i h)

-- Whether the pin succeeded, the physical page, and the counter before.
unfoldable pub pin : Table → ℕ → Option ℕ → Option ((Bool × ℕ × ℕ) × Table)
pin t vpage_id hint = elim (choose t hint (tag_of vpage_id) false) [
  | none ↦ some ((false, 0, 0), t)
  | some p ↦ do
    assert ((line t p).tag == tag_of vpage_id)
    let i = offset_of vpage_id
    elim (inc_body (header (line t p) i)) [
      | none ↦ some ((false, 0, 0), t)
      | some (h, pre) ↦ recheck (put_header t p i h) vpage_id p pre
    ]
]

-- The counter before.
unfoldable pub unpin : Table → ℕ → Bool → Option ℕ → Option (ℕ × Table)
unpin t vpage_id is_write hint = do
  let found = choose t hint (tag_of vpage_id) true
  assert (pointer_eq (find_cacheline t (tag_of vpage_id) true) found)
  p ← tagged t (tag_of vpage_id) found
  let i = offset_of vpage_id
  (h, pre) ← dec_body is_write (header (line t p) i)
  some (pre, put_header t p i h)

unfoldable pub create_mapping : Table → ℕ → ℕ → ℕ → Option ℕ → Option (Bool × Table)
create_mapping t vpage_id ppage_id ref_count hint = do
  p ← tagged t (tag_of vpage_id) (choose t hint (tag_of vpage_id) false)
  let i = offset_of vpage_id
  assert (not (header (line t p) i).exist)
  elim (lock_body (header (line t p) i)) [
    | none ↦ some (false, t)
    | some h ↦ do
      assert (not h.exist && (h.busy && (not h.dirty && h.ref_count == 0)))
      assert (ltb ppage_id empty_ppage_id)
      let l = line t p
      some (
        true,
        set_line t p (record l {
          headers = set l.headers i (record h { exist = true; ref_count = u13 ref_count });
          ppage_ids = set l.ppage_ids i ppage_id;
          num_using = (l.num_using + 1) % 16;
        }),
      )
  ]

unfoldable pub delete_mapping : Table → ℕ → Option ℕ → Option (Bool × Table)
delete_mapping t vpage_id hint = do
  p ← tagged t (tag_of vpage_id) (choose t hint (tag_of vpage_id) false)
  let i = offset_of vpage_id
  assert (header (line t p) i).exist
  elim (lock_body (header (line t p) i)) [
    | none ↦ some (false, t)
    | some h ↦ do
      assert (h.exist && (h.busy && h.ref_count == 0))
      let l = line t p
      some (
        true,
        set_line t p (record l {
          headers = set l.headers i (record h { exist = false; dirty = false });
          ppage_ids = set l.ppage_ids i empty_ppage_id;
        }),
      )
  ]

-- `num_using--` if the page is absent now; the line is deleted when nothing in it is in use.
abbrev pub settle : Table → ℕ → Header → Table
settle t p h =
    if h.exist
    then t
    else set_line t p (record (line t p) { num_using = ((line t p).num_using + 15) % 16 })

unfoldable pub release_mapping_lock : Table → ℕ → Option ℕ → Option (Bool × Table)
release_mapping_lock t vpage_id hint = do
  p ← tagged t (tag_of vpage_id) (choose t hint (tag_of vpage_id) false)
  let i = offset_of vpage_id
  elim (unlock_body (header (line t p) i)) [
    | none ↦ some (false, t)
    | some h ↦ do
      let u = settle (put_header t p i h) p h
      v ← if (line u p).num_using == 0 then delete_cacheline u p else some u
      some (true, v)
  ]

unfoldable pub get_pte : Table → ℕ → Option ℕ → Option Pte
get_pte t vpage_id hint = do
  let found = choose t hint (tag_of vpage_id) false
  assert (pointer_eq (find_cacheline t (tag_of vpage_id) false) found)
  elim found [
    | none ↦ some empty_pte
    | some p ↦
        if (line t p).tag == tag_of vpage_id
        then some (to_unpacked (line t p) (offset_of vpage_id))
        else some empty_pte
  ]

unfoldable pub find_or_create_hint : Table → ℕ → Option (ℕ × Table)
find_or_create_hint t vpage_id =
    let found = find_cacheline_hint t (tag_of vpage_id) in
    if found.0
    then elim found.1 [ none ↦ none | some p ↦ some (p, t) ]
    else create_cacheline t (tag_of vpage_id) found.1

unfoldable pub find_hint : Table → ℕ → Option ℕ
find_hint t vpage_id = find_cacheline t (tag_of vpage_id) false
