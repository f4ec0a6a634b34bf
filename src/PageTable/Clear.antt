-- ===== src/PageTable/Clear.antt =====
-- `delete_cacheline` of include/compact_hash_page_table.hpp on the head of a chain, a bucket, which loses
-- its tag and keeps its successor: the table after it.
use tri_cache.PageTable.Grow.{to_unpacked_blank}
use tri_cache.PageTable.Chain.{
  occ_head, find_line, find_line_nowhere, IsChain-congr, find_line_found, find_line-congr_test,
  next_of, tag_at, occ,
}
use tri_cache.PageTable.Shape.{head_alone, bucket-lt, chain, IsLine, Shape}
use tri_cache.PageTable.Lookup.{read_entry, home, entry}
use tri_cache.PageTable.Table.{
  offset_of, get_bucket, empty_tag, tag_of, to_unpacked, Table, Line, line, set_line, empty_line,
}
use tri_cache.Base.{
  Option-cases, ==_refl, ap, sym, ℕ_discrete, inr, inl, Bool-cases, [], get_or, ◌∙◌, get_or-set,
  length-set, ℕ, ◌<◌, ◌≡◌, ◌≢◌, arith, if◌then◌else◌, ◌==◌, List, none, some,
}

untag-IsLine : (l : Line) → IsLine l → l.num_using ≡ 0 → IsLine (record l { tag = empty_tag })
untag-IsLine l fits idle = record {
  eight_headers = fits.eight_headers;
  eight_pages = fits.eight_pages;
  using = fits.using;
  blank = fits.blank;
  clear = λ e. idle;
}

module _ {t : Table} {cs : List (List ℕ)} (s : Shape t cs) (b : ℕ) (small : b < t.bucket_size)
    (idle : (line t b).num_using ≡ 0) where
  abbrev pub clear_table : Table
  clear_table = set_line t b (record (line t b) { tag = empty_tag })

  clear_line :
      (x : ℕ)
      → line clear_table x ≡ (if b == x then record (line t b) { tag = empty_tag } else line t x)
  clear_line x = get_or-set t.store b x _ empty_line (omega (arith, small, s.sized))

  clear_tag : (x : ℕ) → tag_at clear_table x ≡ (if b == x then empty_tag else tag_at t x)
  unfolding tag_at
  clear_tag x = ground (arith, clear_line x)

  clear_next : (x : ℕ) → next_of clear_table x ≡ next_of t x
  unfolding next_of
  clear_next x = ground (arith, clear_line x)

  pub clear-Shape : Shape clear_table cs
  unfolding occ
  clear-Shape = record {
    some_bucket = s.some_bucket;
    sized = length-set t.store b _ ∙ s.sized;
    wide = s.wide;
    linked = λ c h. rw (clear_next c) (
        IsChain-congr (next_of t) _ (next_of t c) (get_or cs c []) (λ x _. clear_next x)
          (s.linked c h));
    shared = s.shared;
    total = s.total;
    homes = λ c x h m ne. ground (arith, clear_tag x, s.homes c x h m);
    live = λ c x h m. ground (arith, clear_tag x, s.live c x h m, head_alone s b c small h);
    single = λ c x y h m n e. ground (
      arith,
      clear_tag x,
      clear_tag y,
      s.single c x y h m n,
      head_alone s b c small h,
      s.live c x h,
      s.live c y h,
    );
    pooled = λ x m. ground (arith, clear_tag x, clear_next x, s.pooled x m);
    lines = λ x. elim (Bool-cases (b == x)) [
      | inl e ↦ rw (clear_line x, e) (untag-IsLine (line t b) (s.lines b) idle)
      | inr e ↦ rw (clear_line x, e) (s.lines x)
    ];
  }

  clear_slots : (q i : ℕ) → to_unpacked (line clear_table q) i ≡ to_unpacked (line t q) i
  unfolding to_unpacked
  clear_slots q i = ground (arith, clear_line q)

  -- The page of the line, and only they, are found no more; they were absent.
  clear_missed :
      (w : ℕ) → tag_of w ≢ empty_tag → home t cs w ≡ some b → home clear_table cs w ≡ none
  clear_missed w w_real e =
      let c = get_bucket t (tag_of w) in
      let at_b = find_line_found (tag_at t) (tag_of w) b (chain cs c) e in
      find_line_nowhere (tag_at clear_table) (tag_of w) (chain cs c) (λ x m.
        ground (arith, clear_tag x, s.single c x b (bucket-lt s (tag_of w)) m at_b.0, at_b.1))

  clear_kept :
      (w : ℕ) → tag_of w ≢ empty_tag → tag_of w ≢ tag_at t b → home clear_table cs w ≡ home t cs w
  clear_kept w w_real other =
      find_line-congr_test (tag_at t) (tag_at clear_table) (tag_of w) _
        (λ x m. ground (arith, clear_tag x))

  clear_found : (w : ℕ) → tag_of w ≢ empty_tag → tag_at t b ≡ tag_of w → home t cs w ≡ some b
  unfolding find_line
  clear_found w w_real e =
      let at_b : get_bucket t (tag_of w) ≡ b =
        ap (get_bucket t) (sym e) ∙ s.homes b b small (occ_head b _) (λ z. w_real (sym e ∙ z)) in
      rw (at_b, e, ==_refl (tag_of w))

  pub clear-entry : (w : ℕ) → tag_of w ≢ empty_tag → entry clear_table cs w ≡ entry t cs w
  unfolding entry read_entry
  clear-entry w w_real = elim (ℕ_discrete (tag_at t b) (tag_of w)) [
    | yes e ↦
        let was = clear_found w w_real e in
        rw (was, clear_missed w w_real was)
          (sym (to_unpacked_blank (line t b) (s.lines b) idle (offset_of w)))
    | no ne ↦ rw (clear_kept w w_real (λ e. ne (sym e))) (elim (Option-cases (home t cs w)) [
      | inl e ↦ rw e
      | inr (q, e) ↦ rw e (clear_slots q (offset_of w))
    ])
  ]

  pub clear-home :
      (w : ℕ)
      → tag_of w ≢ empty_tag
      → home clear_table cs w ≡ (if tag_of w == tag_at t b then none else home t cs w)
  clear-home w w_real = elim (Bool-cases (tag_of w == tag_at t b)) [
    | inl e ↦ rw e (clear_missed w w_real (clear_found w w_real (ground arith)))
    | inr ne ↦ rw ne (clear_kept w w_real (ground arith))
  ]
