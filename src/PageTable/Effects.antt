-- ===== src/PageTable/Effects.antt =====
-- The mapping operations of include/compact_hash_page_table.hpp on a table in good shape: what each of
-- them does to the entries of all pages.
use tri_cache.PageTable.Place.{
  slots-few, header-Writes, tag-here, slot-Writes, found_again, recheck_same, pte-found, chosen,
  place, Writes, At,
}
use tri_cache.PageTable.Slot.{put_slot, unpacked}
use tri_cache.PageTable.Header.{Header, u13, lock_body, inc_body, dec_body}
use tri_cache.PageTable.Table.{header, ppage, Table, Pte, line, set_line}
use tri_cache.PageTable.Race.{empty_ppage_id}
use tri_cache.PageTable.Shape.{in_use}
use tri_cache.PageTable.Mapping.{unpin, put_header, pin, delete_mapping, get_pte, create_mapping}
use tri_cache.Base.{
  ◌||◌, ◌-◌, ◌^◌, ◌%◌, ltb, ℕ, ◌+◌, ◌<◌, ◌≡◌, ◌≢◌, ◌⊎◌, refl, arith, Bool, true, false, Option,
  none, some, Returns,
}

module _ {t : Table} {v p : ℕ} {hint : Option ℕ} (at : At t v p hint) where
  -- `create_mapping` of an absent, unlocked page that has a line, to a frame `q` below EMPTY_PPAGE_ID:
  -- it succeeds; the page is mapped to `q`, with the references asked for (modulo 2^13), and locked;
  -- the other entries, the hints and the shape of the table are kept.
  pub create_mapping-Writes :
      (q r : ℕ) {e : Pte}
      → q < empty_ppage_id
      → get_pte t v none ≡ some e
      → e.exist ≡ false
      → e.busy ≡ false
      → Returns (create_mapping t v q r hint) (λ a.
        (a.0 ≡ true)
        × Writes t v
            (record { exist = true; busy = true; dirty = false; ref_count = u13 r; ppage_id = q })
            a.1)
  unfolding create_mapping lock_body unpacked
  create_mapping-Writes q r {e} small read absent free =
      let l = line t p in
      let idle : in_use (header l (place at)) ≡ false = ground (arith, (pte-found at)) in
      let blank = ((at.table.1.lines p).blank (place at) idle).0 in
      let h : Header = record { exist = true; busy = true; dirty = false; ref_count = u13 r } in
      let below : ltb q empty_ppage_id ≡ true = ground arith in
      (
        (true, set_line t p (put_slot l (place at) h q ((l.num_using + 1) % 16))),
        rw ((chosen at), blank, below),
        (
          refl,
          slot-Writes at h q ((l.num_using + 1) % 16) (ground (arith, idle, (slots-few at)))
              (λ k. cc),
        ),
      )

  -- `delete_mapping` of a mapped page that has a line: without references and unlocked, the page
  -- becomes absent and locked, and the other entries, the hints and the shape of the table are kept;
  -- else the call returns false and changes nothing.
  pub delete_mapping-Writes :
      {e : Pte}
      → get_pte t v none ≡ some e
      → e.exist ≡ true
      → (e.busy ≡ false
          → e.ref_count ≡ 0
          → Returns (delete_mapping t v hint) (λ a.
            (a.0 ≡ true)
            × Writes t v
                (record {
                  exist = false;
                  busy = true;
                  dirty = false;
                  ref_count = 0;
                  ppage_id = empty_ppage_id;
                })
                a.1))
        × ((e.busy ≡ true) ⊎ (e.ref_count ≢ 0) → delete_mapping t v hint ≡ some (false, t))
  unfolding delete_mapping lock_body unpacked
  delete_mapping-Writes {e} read here =
      let l = line t p in
      let old = header l (place at) in
      let h : Header = record { exist = false; busy = true; dirty = false; ref_count = 0 } in
      (
        λ free zero. (
          (true, set_line t p (put_slot l (place at) h empty_ppage_id l.num_using)),
          ground (arith, (chosen at), (pte-found at)),
          (
            refl,
            slot-Writes at h empty_ppage_id l.num_using (ground (arith, (pte-found at))) (λ k. cc),
          ),
        ),
        λ why. ground (arith, (chosen at), (pte-found at)),
      )

  -- `pin` of a page that has a line and whose counter is below 2^13 - 1: of a mapped and unlocked page
  -- it returns the frame and the counter, and adds a reference, and the other entries, the hints and
  -- the shape of the table are kept; else it fails and changes nothing.
  pub pin-Writes :
      {e : Pte}
      → get_pte t v none ≡ some e
      → e.ref_count + 1 < 2 ^ 13
      → (e.exist ≡ true
          → e.busy ≡ false
          → Returns (pin t v hint) (λ a.
            (a.0 ≡ (true, e.ppage_id, e.ref_count))
            × Writes t v (record e { ref_count = e.ref_count + 1 }) a.1))
        × ((e.exist ≡ false) ⊎ (e.busy ≡ true) → pin t v hint ≡ some ((false, 0, 0), t))
  unfolding pin inc_body unpacked
  pin-Writes {e} read room =
      let old = header (line t p) (place at) in
      let h : Header = record old { ref_count = old.ref_count + 1 } in
      let q = ppage (line t p) (place at) in
      let same : unpacked old q ≡ e = ground (arith, (pte-found at)) in
      (
        λ here free. (
          ((true, e.ppage_id, e.ref_count), put_header t p (place at) h),
          ground (arith, (chosen at), (pte-found at), recheck_same at h old.ref_count),
          (refl, header-Writes at h (ground arith) (ground arith) (ground arith)),
        ),
        λ why. ground (arith, (chosen at), (pte-found at)),
      )

  -- `unpin` of a page that has a line and a counter of 13 bits: of a mapped, unlocked and referenced
  -- page it returns the counter, drops one reference and marks the page dirty if it was written, and
  -- the other entries, the hints and the shape of the table are kept; otherwise its assertion fails.
  pub unpin-Writes :
      (is_write : Bool) {e : Pte}
      → get_pte t v none ≡ some e
      → e.ref_count < 2 ^ 13
      → (e.exist ≡ true
          → e.busy ≡ false
          → 0 < e.ref_count
          → Returns (unpin t v is_write hint) (λ a.
            (a.0 ≡ e.ref_count)
            × Writes t v
                (record e { ref_count = e.ref_count - 1; dirty = is_write || e.dirty })
                a.1))
        × ((e.exist ≡ false) ⊎ (e.busy ≡ true) ⊎ (e.ref_count ≡ 0) → unpin t v is_write hint ≡ none)
  unfolding unpin dec_body unpacked
  unpin-Writes is_write {e} read room =
      let old = header (line t p) (place at) in
      let h : Header = record old {
        ref_count = old.ref_count - 1;
        dirty = is_write || old.dirty;
      } in
      let q = ppage (line t p) (place at) in
      let same : unpacked old q ≡ e = ground (arith, (pte-found at)) in
      (
        λ here free some_left. (
          (e.ref_count, put_header t p (place at) h),
          ground (arith, (found_again at), (tag-here at), (pte-found at)),
          (refl, header-Writes at h (ground arith) (ground arith) (ground arith)),
        ),
        λ why. ground (arith, (found_again at), (tag-here at), (pte-found at)),
      )
