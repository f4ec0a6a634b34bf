-- ===== src/PageTable/Table.antt =====
-- include/compact_hash_page_table.hpp, class `CompactHashPageTable`: buckets of cache lines, each
-- with eight pages, and overflow lines linked by pointers. A pointer to a line is its index in
-- `store`, `nullptr` is `none`, and the vector `pool` is a list with its back first. A failed
-- assertion is `none`. The functions are those of one thread; Race.antt has the threads.

use tri_cache.Base.{
  ℕ, zero, suc, ◌+◌, ◌-◌, ◌*◌, ◌/◌, ◌%◌, ◌^◌, ◌==◌, if◌then◌else◌, Bool, true, false, ◌&&◌, Option,
  none, some, List, [], ◌∷◌, length, get_or, set, replicate, bool_eq, is_null, pointer_eq,
}
use tri_cache.PageTable.Header.{Header, empty_header}
use tri_cache.PageTable.Race.{empty_ppage_id}

-- `unpacked_pte`
pub record Pte : Type 0 where
  pub exist : Bool
  pub busy : Bool
  pub dirty : Bool
  pub ref_count : ℕ
  pub ppage_id : ℕ

-- `packed_cache_line`
pub record Line : Type 0 where
  pub tag : ℕ  -- 58 bits
  pub num_using : ℕ  -- 4 bits
  pub headers : List Header
  pub ppage_ids : List ℕ
  pub next : Option ℕ

-- `NUM_PACK_PAGES`
abbrev pub num_pack_pages : ℕ
num_pack_pages = 8

-- `EMPTY_TAG`
abbrev pub empty_tag : ℕ
empty_tag = 2 ^ 58 - 1

unfoldable pub empty_line : Line
empty_line = record {
  tag = empty_tag;
  num_using = 0;
  headers = replicate num_pack_pages empty_header;
  ppage_ids = replicate num_pack_pages empty_ppage_id;
  next = none;
}

-- `max_vpage_id`, which no method reads, is left out.
pub record Table : Type 0 where
  pub max_ppage_id : ℕ
  pub bucket_size : ℕ
  pub store : List Line
  pub pool : List ℕ

-- `pool[i] = store + bucket_size + i`, the back first
unfoldable pub new_pool : ℕ → ℕ → List ℕ
new_pool b zero = []
new_pool b (suc n) = (b + n) ∷ new_pool b n

-- The constructor.
unfoldable pub new_table : ℕ → Table
unfolding new_pool empty_line
new_table max = record {
  max_ppage_id = max;
  bucket_size = max * 2;
  store = replicate (max * 2 + max) empty_line;
  pool = new_pool (max * 2) max;
}

abbrev pub line : Table → ℕ → Line
line t p = get_or t.store p empty_line

abbrev pub set_line : Table → ℕ → Line → Table
set_line t p l = record t { store = set t.store p l }

abbrev pub header : Line → ℕ → Header
header l i = get_or l.headers i empty_header

abbrev pub ppage : Line → ℕ → ℕ
ppage l i = get_or l.ppage_ids i empty_ppage_id

abbrev pub set_header : Line → ℕ → Header → Line
set_header l i h = record l { headers = set l.headers i h }

abbrev pub tag_of : ℕ → ℕ
tag_of vpage_id = vpage_id / num_pack_pages

abbrev pub offset_of : ℕ → ℕ
offset_of vpage_id = vpage_id % num_pack_pages

abbrev pub get_bucket : Table → ℕ → ℕ
get_bucket t tag = tag % t.bucket_size

-- `packed_cache_line::to_unpacked`
unfoldable pub to_unpacked : Line → ℕ → Pte
to_unpacked l i =
    let h = header l i in
    record {
      exist = h.exist;
      busy = h.busy;
      dirty = h.dirty;
      ref_count = h.ref_count;
      ppage_id = ppage l i;
    }

abbrev pub empty_pte : Pte
empty_pte = record {
  exist = false;
  busy = false;
  dirty = false;
  ref_count = 0;
  ppage_id = empty_ppage_id;
}

unfoldable pub header_eq : Header → Header → Bool
header_eq g h =
    bool_eq g.exist h.exist
    && (bool_eq g.busy h.busy && (bool_eq g.dirty h.dirty && g.ref_count == h.ref_count))

-- `empty_cacheline`: no header and no page number differs from the empty ones.
unfoldable pub empty_slots : ℕ → Line → Bool
unfolding header_eq
empty_slots zero l = true
empty_slots (suc n) l =
    (header_eq (header l n) empty_header && ppage l n == empty_ppage_id) && empty_slots n l

unfoldable pub empty_cacheline : Line → Bool
unfolding empty_slots
empty_cacheline l = empty_slots num_pack_pages l

-- The loops over a chain take the number of lines, and one, as fuel.
abbrev pub chain_fuel : Table → ℕ
chain_fuel t = suc (length t.store)

-- `while (cacheline != nullptr)` of `find_cacheline`
unfoldable pub find_from : ℕ → Table → ℕ → Option ℕ → Option ℕ
find_from zero t tag p = none
find_from (suc n) t tag none = none
find_from (suc n) t tag (some p) =
    let rest = find_from n t tag (line t p).next in if (line t p).tag == tag then some p else rest

-- The retries of `find_cacheline`.
unfoldable pub find_retry : ℕ → Table → ℕ → Bool → Option ℕ
find_retry zero t tag should_exist = none
find_retry (suc n) t tag should_exist =
    let rest = find_retry n t tag should_exist in
    elim (find_from (chain_fuel t) t tag (some (get_bucket t tag))) [
      | some p ↦ some p
      | none ↦ if should_exist then rest else none
    ]

unfoldable pub find_cacheline : Table → ℕ → Bool → Option ℕ
find_cacheline t tag should_exist = find_retry (2 ^ 30) t tag should_exist

-- The loop of `find_cacheline_hint`, with the head of the chain.
unfoldable pub hint_from : ℕ → Table → ℕ → ℕ → Option ℕ → Bool × Option ℕ
hint_from zero t tag head p = (false, none)
hint_from (suc n) t tag head none = (false, none)
hint_from (suc n) t tag head (some p) =
    let rest = hint_from n t tag head (line t p).next in
    if (line t p).tag == tag
    then (true, some p)
    else if is_null (line t p).next
    then (false, if (line t head).tag == empty_tag then none else some p)
    else rest

unfoldable pub find_cacheline_hint : Table → ℕ → Bool × Option ℕ
find_cacheline_hint t tag =
    hint_from (chain_fuel t) t tag (get_bucket t tag) (some (get_bucket t tag))

-- The loop of `find_pre_cacheline`.
unfoldable pub pre_from : ℕ → Table → ℕ → Option ℕ → Option ℕ
pre_from zero t end p = none
pre_from (suc n) t end none = none
pre_from (suc n) t end (some p) =
    let rest = pre_from n t end (line t p).next in
    if pointer_eq (line t p).next (some end) then some p else rest

unfoldable pub find_pre_cacheline : Table → ℕ → ℕ → Option ℕ
find_pre_cacheline t tag end = pre_from (chain_fuel t) t end (some (get_bucket t tag))
