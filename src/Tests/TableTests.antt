-- ===== src/Tests/TableTests.antt =====
-- A page of include/compact_hash_page_table.hpp from its creation to its deletion, in a table for two
-- frames.
use tri_cache.PageTable.Delete.{delete_cacheline-Drops, Drops}
use tri_cache.PageTable.Shape.{find_cacheline-chain}
use tri_cache.PageTable.Grow.{head-Shape}
use tri_cache.PageTable.Chain.{tag_at, find_line}
use tri_cache.PageTable.Header.{u13}
use tri_cache.PageTable.Table.{
  empty_line, line, set_line, Pte, empty_pte, new_pool, Table, new_table, tag_of, empty_tag,
}
use tri_cache.PageTable.Mapping.{
  delete_cacheline, find_hint, get_pte, find_or_create_hint, create_mapping, release_mapping_lock,
  unpin, delete_mapping,
}
use tri_cache.PageTable.Fresh.{fresh_home, new_table-Shape, new_table-IsTable}
use tri_cache.PageTable.Create.{find_or_create_hint-Keeps, Keeps}
use tri_cache.PageTable.Effects.{create_mapping-Writes, delete_mapping-Writes, unpin-Writes}
use tri_cache.PageTable.Release.{release_mapping_lock-Writes}
use tri_cache.PageTable.Place.{At, IsTable, Writes}
use tri_cache.Base.{
  ◌⊎◌, set, get_or, [], replicate, inr, ◌∙◌, ◌<◌, ℕ, ◌+◌, ◌≤◌, ◌≡◌, ◌≢◌, refl, arith, true, false,
  none, some, length, Returns,
}

abbrev two_frames : Table
two_frames = new_table 2

two_frames-IsTable :
    IsTable two_frames
    × ((v : ℕ) → tag_of v ≢ empty_tag → get_pte two_frames v none ≡ some empty_pte)
two_frames-IsTable = new_table-IsTable 2 (omega arith)

-- Two lines stand in the pool.
stocked : 0 < length two_frames.pool
unfolding new_table new_pool
stocked = omega arith

-- The line of page 9.
abbrev Created : Type 0
Created = Returns (find_or_create_hint two_frames 9) (λ a.
    Keeps two_frames a.1
    × (find_hint a.1 9 ≡ some a.0)
    × (length two_frames.pool ≤ length a.1.pool + 1)
    × (find_hint two_frames 9 ≢ none → a.1 ≡ two_frames))

find_or_create_hint-Keeps_example : Created
find_or_create_hint-Keeps_example =
    find_or_create_hint-Keeps two_frames-IsTable.0 9 (omega arith) stocked

abbrev created : Created
created = find_or_create_hint-Keeps two_frames-IsTable.0 9 (omega arith) stocked

abbrev frame : ℕ
frame = created.0.0

created-At : At created.0.1 9 frame (some frame)
created-At = record {
  table = created.2.0.shape;
  real = omega arith;
  found = created.2.1;
  hinted = inr refl;
}

created_read : get_pte created.0.1 9 none ≡ some empty_pte
created_read = created.2.0.reads 9 (omega arith) ∙ two_frames-IsTable.1 9 (omega arith)

-- Page 9 is the same place after a write.
moved :
    {t u : Table} {e : Pte} → At t 9 frame (some frame) → Writes t 9 e u → At u 9 frame (some frame)
moved at w = record {
  table = w.shape;
  real = at.real;
  found = w.hints 9 ∙ at.found;
  hinted = at.hinted;
}

abbrev mapped_pte : Pte
mapped_pte = record { exist = true; busy = true; dirty = false; ref_count = u13 1; ppage_id = 7 }

abbrev Mapped : Type 0
Mapped =
    Returns (create_mapping created.0.1 9 7 1 (some frame))
      (λ a. (a.0 ≡ true) × Writes created.0.1 9 mapped_pte a.1)

create_mapping-Writes_example : Mapped
create_mapping-Writes_example =
    create_mapping-Writes created-At 7 1 (omega arith) created_read refl refl

abbrev mapped : Mapped
mapped = create_mapping-Writes created-At 7 1 (omega arith) created_read refl refl

abbrev Released : Type 0
Released =
    (true ≡ true
      → Returns (release_mapping_lock mapped.0.1 9 (some frame))
          (λ a. (a.0 ≡ true) × Writes mapped.0.1 9 (record mapped_pte { busy = false }) a.1))
    × (true ≡ false → release_mapping_lock mapped.0.1 9 (some frame) ≡ some (false, mapped.0.1))

mapped-At : At mapped.0.1 9 frame (some frame)
mapped-At = moved created-At mapped.2.1

abbrev released :
    Returns
      (release_mapping_lock mapped.0.1 9 (some frame))
      (λ a. (a.0 ≡ true) × Writes mapped.0.1 9 (record mapped_pte { busy = false }) a.1)
released = (release_mapping_lock-Writes mapped-At (mapped.2.1.reads 9) refl).0 refl

released-At : At released.0.1 9 frame (some frame)
released-At = moved mapped-At released.2.1

-- The page has the reference of its creation.
abbrev referenced : Pte
referenced = record mapped_pte { busy = false }

abbrev Unpinned : Type 0
Unpinned =
    Returns (unpin released.0.1 9 true (some frame)) (λ a.
      (a.0 ≡ 1) × Writes released.0.1 9 (record referenced { ref_count = 0; dirty = true }) a.1)

abbrev unpinned : Unpinned
unpinned =
    (unpin-Writes released-At true (released.2.1.reads 9) (omega arith)).0 refl refl (omega arith)

unpinned-At : At unpinned.0.1 9 frame (some frame)
unpinned-At = moved released-At unpinned.2.1

abbrev Deleted : Type 0
Deleted =
    Returns (delete_mapping unpinned.0.1 9 (some frame))
      (λ a. (a.0 ≡ true) × Writes unpinned.0.1 9 (record empty_pte { busy = true }) a.1)

delete_mapping-Writes_example :
    (false ≡ false → ◌≡◌ {A = ℕ} 0 0 → Deleted)
    × ((false ≡ true) ⊎ (◌≢◌ {A = ℕ} 0 0)
        → delete_mapping unpinned.0.1 9 (some frame) ≡ some (false, unpinned.0.1))
delete_mapping-Writes_example = delete_mapping-Writes unpinned-At (unpinned.2.1.reads 9) refl

abbrev deleted : Deleted
deleted = (delete_mapping-Writes unpinned-At (unpinned.2.1.reads 9) refl).0 refl refl

deleted-At : At deleted.0.1 9 frame (some frame)
deleted-At = moved unpinned-At deleted.2.1

-- Bucket 1 has taken tag 1, and no page of it is mapped.
abbrev bare : Table
bare = set_line two_frames 1 (record (line two_frames 1) { tag = 1 })

bare-IsTable : IsTable bare
unfolding new_table
bare-IsTable = (
  replicate 4 [],
  head-Shape (new_table-Shape 2 (omega arith)) 1 (omega arith)
      (fresh_home 2 (omega arith) 9 (omega arith)),
)

bare_found : find_hint bare 9 ≡ some 1
unfolding find_hint bare-IsTable find_line tag_at new_table replicate get_or set empty_line
bare_found = find_cacheline-chain bare-IsTable.1 1 false ∙ refl

bare_idle : (line bare 1).num_using ≡ 0
unfolding new_table replicate get_or set empty_line
bare_idle = refl

delete_cacheline-Drops_example : Returns (delete_cacheline bare 1) (Drops bare 1)
delete_cacheline-Drops_example =
    delete_cacheline-Drops bare-IsTable 9 1 (omega arith) bare_found bare_idle
