-- ===== src/PageTable/Place.antt =====
-- A page in its line, in a table of include/compact_hash_page_table.hpp that is in good shape: what
-- the operations find, and what a write of its slot does to the entries of all pages.
use tri_cache.PageTable.Slot.{to_unpacked-slot, slot-IsLine, put_slot, unpacked}
use tri_cache.PageTable.Chain.{next_of, find_line_found, tag_at}
use tri_cache.PageTable.Header.{Header, empty_header}
use tri_cache.PageTable.Table.{
  find_cacheline, empty_line, set_header, empty_tag, tag_of, to_unpacked, offset_of, header, ppage,
  Table, Pte, line, set_line,
}
use tri_cache.PageTable.Race.{empty_ppage_id}
use tri_cache.PageTable.Lookup.{
  home-write, entry-write, write-Shape, get_pte-entry, read_entry, entry, home,
}
use tri_cache.PageTable.Shape.{in_use, bucket-lt, find_cacheline-chain, chain_inside, Shape}
use tri_cache.PageTable.Mapping.{recheck, put_header, choose, tagged, find_hint, get_pte}
use tri_cache.Base.{
  get_or-set, set_same, count-le-length, Option-cases, inr, ==_refl, inl, Bool-cases, ap, ◌&&◌,
  pointer_eq, ◌∙◌, sym, ℕ, ◌+◌, ◌≤◌, ◌<◌, ◌≡◌, ◌≢◌, ◌⊎◌, refl, arith, true, false, if◌then◌else◌,
  ◌==◌, List, set, length, Option, none, some,
}

-- The table's lines hang together.
abbrev pub IsTable : Table → Type 0
IsTable t = (cs : List (List ℕ)) × Shape t cs

-- `u` is a table whose entry of page `v` is `e`, whose other entries are those of `t`, and in which
-- every hint of `t` is still good.
pub record Writes (t : Table) (v : ℕ) (e : Pte) (u : Table) : Type 0 where
  pub shape : IsTable u
  pub reads : (w : ℕ) → get_pte u w none ≡ (if w == v then some e else get_pte t w none)
  pub hints : (w : ℕ) → find_hint u w ≡ find_hint t w

-- Page `v` stands in line `p`, and the hint of the call is absent or that line.
pub record At (t : Table) (v p : ℕ) (hint : Option ℕ) : Type 0 where
  pub table : IsTable t
  pub real : tag_of v ≢ empty_tag
  pub found : find_hint t v ≡ some p
  pub hinted : (hint ≡ none) ⊎ (hint ≡ some p)

module _ {t : Table} {v p : ℕ} {hint : Option ℕ} (at : At t v p hint) where
  abbrev pub place : ℕ
  place = offset_of v

  pub home-found : home t at.table.0 v ≡ some p
  unfolding find_hint
  home-found = sym (find_cacheline-chain at.table.1 (tag_of v) false) ∙ at.found

  pub tag-found : tag_at t p ≡ tag_of v
  tag-found = (find_line_found (tag_at t) (tag_of v) p _ home-found).1

  pub tag-here : (line t p).tag ≡ tag_of v
  unfolding tag_at
  tag-here = tag-found

  pub p-lt : p < length t.store
  p-lt =
      chain_inside at.table.1 _ (bucket-lt at.table.1 (tag_of v)) p
        (find_line_found (tag_at t) (tag_of v) p _ home-found).0

  pub chosen : tagged t (tag_of v) (choose t hint (tag_of v) false) ≡ some p
  unfolding find_hint tag_at
  chosen = ground (arith, at.found, tag-found)

  pub found_again : find_cacheline t (tag_of v) true ≡ some p
  found_again = find_cacheline-chain at.table.1 (tag_of v) true ∙ home-found

  pub pte-found :
      get_pte t v none ≡ some (unpacked (header (line t p) place) (ppage (line t p) place))
  unfolding entry read_entry to_unpacked unpacked
  pte-found = get_pte-entry at.table.1 v ∙ rw home-found

  pub place-lt : place < 8
  place-lt = omega arith

  at_home : (w : ℕ) → (pointer_eq (home t at.table.0 w) (some p) && place == offset_of w) ≡ (w == v)
  at_home w = elim (Bool-cases (w == v)) [
    | inl same ↦
        let e : w ≡ v = ground arith in
        rw (e, home-found, ==_refl p, ==_refl (offset_of v), ==_refl v)
    | inr other ↦ elim (Option-cases (home t at.table.0 w)) [
      | inl e ↦ rw (e, other)
      | inr (q, e) ↦
          let tagged_w = (find_line_found (tag_at t) (tag_of w) q _ e).1 in
          rw (e, other) (ground (arith, tagged_w, tag-found))
    ]
  ]

  slot_read :
      (h : Header) (q n w : ℕ) (o : Option ℕ)
      → home t at.table.0 w ≡ o
      → some (
          if pointer_eq (home t at.table.0 w) (some p)
          then to_unpacked (put_slot (line t p) place h q n) (offset_of w)
          else entry t at.table.0 w)
        ≡ (if w == v then some (unpacked h q) else get_pte t w none)
  unfolding entry read_entry
  slot_read h q n w none e = ground (arith, at_home w, get_pte-entry at.table.1 w)
  slot_read h q n w (some r) e = ground (
    arith,
    at_home w,
    get_pte-entry at.table.1 w,
    to_unpacked-slot (line t p) (at.table.1.lines p) place place-lt h q n (offset_of w),
  )

  pub slot-Writes :
      (h : Header) (q n : ℕ)
      → n + (if in_use (header (line t p) place) then 1 else 0)
        ≡ (line t p).num_using + (if in_use h then 1 else 0)
      → (in_use h ≡ false → (h ≡ empty_header) × (q ≡ empty_ppage_id))
      → Writes t v (unpacked h q) (set_line t p (put_slot (line t p) place h q n))
  unfolding tag_at next_of find_hint
  slot-Writes h q n counted blank =
      let l = line t p in
      let fits =
        slot-IsLine l (at.table.1.lines p) place place-lt h q n counted blank
          (λ e. at.real (sym tag-found ∙ e)) in
      let shape = write-Shape at.table.1 p p-lt (put_slot l place h q n) fits refl refl in
      record {
        shape = (at.table.0, shape);
        reads = λ w.
            get_pte-entry shape w
            ∙ ap some (entry-write at.table.1 p p-lt (put_slot l place h q n) fits refl refl w)
            ∙ slot_read h q n w (home t at.table.0 w) refl;
        hints = λ w.
            find_cacheline-chain shape (tag_of w) false
            ∙ home-write at.table.1 p p-lt (put_slot l place h q n) fits refl refl w
            ∙ sym (find_cacheline-chain at.table.1 (tag_of w) false);
      }

  pub slots-few : (line t p).num_using ≤ 8
  slots-few =
      let l = at.table.1.lines p in
      omega (arith, count-le-length in_use (line t p).headers, l.using, l.eight_headers)

  -- A write of the header alone.
  pub put_header-slot :
      (h : Header)
      → put_header t p place h
        ≡ set_line t p (put_slot (line t p) place h (ppage (line t p) place) (line t p).num_using)
  put_header-slot h =
      let l = line t p in
      ap
        (λ (qs : List ℕ).
          set_line t p (record l { headers = set l.headers place h; ppage_ids = qs }))
        (sym (set_same l.ppage_ids place empty_ppage_id))

  pub header-Writes :
      (h : Header) {e : Pte}
      → in_use (header (line t p) place) ≡ true
      → in_use h ≡ true
      → unpacked h (ppage (line t p) place) ≡ e
      → Writes t v e (put_header t p place h)
  header-Writes h was stays is =
      rw (← is, put_header-slot h)
        (slot-Writes h (ppage (line t p) place) (line t p).num_using (ground arith) (λ k. cc))

  pub recheck_same :
      (h : Header) (pre : ℕ)
      → recheck (put_header t p place h) v p pre
        ≡ some ((true, ppage (line t p) place, pre), put_header t p place h)
  unfolding tag_at
  recheck_same h pre =
      ground
        (arith, get_or-set t.store p p (set_header (line t p) place h) empty_line p-lt, tag-found)
