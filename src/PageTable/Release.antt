-- ===== src/PageTable/Release.antt =====
-- `release_mapping_lock` of include/compact_hash_page_table.hpp on a table in good shape.
use tri_cache.PageTable.Delete.{delete_cacheline-Drops}
use tri_cache.PageTable.Chain.{tag_at}
use tri_cache.PageTable.Race.{empty_ppage_id}
use tri_cache.PageTable.Place.{
  tag-here, slots-few, slot-Writes, IsTable, place-lt, header-Writes, pte-found, chosen, place,
  p-lt, Writes, At,
}
use tri_cache.PageTable.Slot.{put_slot, unpacked}
use tri_cache.PageTable.Header.{empty_header, Header, unlock_body}
use tri_cache.PageTable.Table.{
  find_cacheline, Line, ppage, empty_tag, tag_of, empty_pte, set_line, header, set_header,
  empty_line, Table, Pte, line,
}
use tri_cache.PageTable.Shape.{in_use}
use tri_cache.PageTable.Mapping.{
  delete_cacheline, settle, find_hint, put_header, release_mapping_lock, get_pte,
}
use tri_cache.Base.{
  ◌%◌, ◌+◌, ==_refl, set_same, set-set, ◌>>=◌, ◌∙◌, ap, sym, set, inr, inl, Bool-cases, ◌-◌, ◌==◌,
  ◌≢◌, if◌then◌else◌, length, ℕ, ◌<◌, ◌≡◌, refl, arith, true, false, get_or-set, count_witness,
  Option, none, some, Returns,
}

-- `u` is a table in good shape in which page `v` has entry `e` and all others have those of `t`; the
-- lines of pages with other tags stay, and page `v` has line `q`.
pub record Frees (t : Table) (v : ℕ) (e : Pte) (q : Option ℕ) (u : Table) : Type 0 where
  pub shape : IsTable u
  pub reads :
      (w : ℕ)
      → tag_of w ≢ empty_tag
      → get_pte u w none ≡ (if w == v then some e else get_pte t w none)
  pub hints :
      (w : ℕ)
      → tag_of w ≢ empty_tag
      → find_hint u w ≡ (if tag_of w == tag_of v then q else find_hint t w)

module _ {t : Table} {v p : ℕ} {hint : Option ℕ} (at : At t v p hint) where
  -- A line with a page in use is not idle.
  using_pos : in_use (header (line t p) (place at)) ≡ true → 0 < (line t p).num_using
  using_pos used =
      let fits = at.table.1.lines p in
      let inside : place at < length (line t p).headers = rw fits.eight_headers (place-lt at) in
      omega (
        arith,
        fits.using,
        count_witness in_use (line t p).headers (place at) empty_header inside used,
      )

  -- `release_mapping_lock` of a mapped page that has a line: locked, the page is unlocked and else
  -- stays as it is, and the other entries, the hints and the shape of the table are kept; unlocked, the
  -- call returns false and changes nothing.
  pub release_mapping_lock-Writes :
      {e : Pte}
      → get_pte t v none ≡ some e
      → e.exist ≡ true
      → (e.busy ≡ true
          → Returns
              (release_mapping_lock t v hint)
              (λ a. (a.0 ≡ true) × Writes t v (record e { busy = false }) a.1))
        × (e.busy ≡ false → release_mapping_lock t v hint ≡ some (false, t))
  unfolding release_mapping_lock unlock_body unpacked
  release_mapping_lock-Writes {e} read here =
      let h : Header = record (header (line t p) (place at)) { busy = false } in
      (
        λ busy. (
          (true, put_header t p (place at) h),
          ground (
            arith,
            chosen at,
            pte-found at,
            using_pos,
            get_or-set t.store p p (set_header (line t p) (place at) h) empty_line (p-lt at),
          ),
          (
            refl,
            header-Writes at h (ground (arith, pte-found at)) (ground (arith, pte-found at))
                (ground (arith, pte-found at)),
          ),
        ),
        λ free. ground (arith, chosen at, pte-found at),
      )

  -- The page's slot after the unlock of an absent page, and the number of pages in use.
  abbrev settled : Table
  settled =
      set_line t p
        (put_slot (line t p) (place at) empty_header empty_ppage_id ((line t p).num_using - 1))

  module _ (read : get_pte t v none ≡ some (record empty_pte { busy = true })) where
    was : header (line t p) (place at) ≡ record empty_header { busy = true }
    unfolding unpacked
    was = ground (arith, pte-found at)

    no_frame : ppage (line t p) (place at) ≡ empty_ppage_id
    unfolding unpacked
    no_frame = ground (arith, pte-found at)

    used : 0 < (line t p).num_using
    used = using_pos (ground (arith, was))

    written : Writes t v empty_pte settled
    unfolding unpacked
    written =
        slot-Writes at empty_header empty_ppage_id ((line t p).num_using - 1)
          (ground (arith, was, used)) (λ _. (refl, refl))

    rewritten :
        (l : Line)
        → set_line (set_line t p l) p (record (line (set_line t p l) p) {
          num_using = ((line (set_line t p l) p).num_using + 15) % 16;
        })
          ≡ set_line t p (record l { num_using = (l.num_using + 15) % 16 })
    rewritten l =
        let here : line (set_line t p l) p ≡ l =
          get_or-set t.store p p l empty_line (p-lt at) ∙ rw (==_refl p) in
        rw (here, set-set t.store p l (record l { num_using = (l.num_using + 15) % 16 }))

    settled-line :
        line settled p
        ≡ put_slot (line t p) (place at) empty_header empty_ppage_id ((line t p).num_using - 1)
    settled-line = get_or-set t.store p p _ empty_line (p-lt at) ∙ rw (==_refl p)

    settles : settle (put_header t p (place at) empty_header) p empty_header ≡ settled
    settles =
        let l = line t p in
        let pages : set l.ppage_ids (place at) empty_ppage_id ≡ l.ppage_ids =
          ap (set l.ppage_ids (place at)) (sym no_frame)
          ∙ set_same l.ppage_ids (place at) empty_ppage_id in
        let fewer : (l.num_using + 15) % 16 ≡ l.num_using - 1 =
          ground (arith, used, slots-few at) in
        rewritten (set_header l (place at) empty_header) ∙ rw (pages, fewer)

    release_runs : release_mapping_lock t v hint ≡ (do
      u ← if (line t p).num_using - 1 == 0 then delete_cacheline settled p else some settled
      some (true, u))
    unfolding release_mapping_lock unlock_body
    release_runs = ground (arith, chosen at, was, settles, settled-line)

  -- Pages with the same tag have the same line.
  same_line : (w : ℕ) → tag_of w ≡ tag_of v → find_hint t w ≡ some p
  unfolding find_hint
  same_line w e = ap (λ k. find_cacheline t k false) e ∙ at.found

  -- `release_mapping_lock` of an absent and locked page that is clean, has no reference and no frame,
  -- and has a line: the page is absent and unlocked; of pages with a tag that is not the empty one, all
  -- other entries are kept, and so are the lines of those with other tags; the page's line is deleted if
  -- `num_using` was 1, and else it stays.
  pub release_mapping_lock-Frees :
      get_pte t v none ≡ some (record empty_pte { busy = true })
      → Returns (release_mapping_lock t v hint) (λ a.
        (a.0 ≡ true) × Frees t v empty_pte (if (line t p).num_using == 1 then none else some p) a.1)
  unfolding find_hint tag_at
  release_mapping_lock-Frees read =
      let written_table = written read in
      let n = (line t p).num_using in
      elim (Bool-cases (n == 1)) [
        | inl one ↦
            let zero_left : (n - 1 == 0) ≡ true = ground arith in
            let idle : (line settled p).num_using ≡ 0 = ground (arith, settled-line read) in
            let (u, runs, drops) =
              delete_cacheline-Drops written_table.shape v p at.real
                (written_table.hints v ∙ at.found) idle in
            (
              (true, u),
              release_runs read ∙ rw (zero_left, runs),
              (
                refl,
                record {
                  shape = drops.shape;
                  reads = λ w real. drops.reads w real ∙ written_table.reads w;
                  hints = λ w real. ground (
                    arith,
                    one,
                    drops.hints w real,
                    written_table.hints w,
                    settled-line read,
                    tag-here at,
                  );
                },
              ),
            )
        | inr more ↦
            let some_left : (n - 1 == 0) ≡ false = ground (arith, used read) in
            (
              (true, settled),
              release_runs read ∙ rw some_left,
              (
                refl,
                record {
                  shape = written_table.shape;
                  reads = λ w _. written_table.reads w;
                  hints = λ w _. ground (arith, written_table.hints w, same_line w);
                },
              ),
            )
      ]
