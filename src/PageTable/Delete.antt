-- ===== src/PageTable/Delete.antt =====
-- `delete_cacheline` of include/compact_hash_page_table.hpp on a line that no page uses.
use tri_cache.PageTable.Clear.{clear-home, clear-entry, clear-Shape, clear_table}
use tri_cache.PageTable.Shrink.{shrink_leads, shrink-home, shrink-entry, shrink-Shape, shrink_table}
use tri_cache.PageTable.Mapping.{delete_cacheline, get_pte, find_hint}
use tri_cache.PageTable.Create.{empty_cacheline-blank}
use tri_cache.PageTable.Chain.{occ, tag_at, next_of, before, find_line_found, hint_result}
use tri_cache.PageTable.Chain.Edit.{before-none, before-some}
use tri_cache.PageTable.Lookup.{get_pte-entry, entry, home}
use tri_cache.PageTable.Shape.{
  Shape, chain, bucket-lt, head_alone, find_cacheline-chain, find_cacheline_hint-chain,
  find_pre_cacheline-chain,
}
use tri_cache.PageTable.Place.{IsTable}
use tri_cache.PageTable.Table.{
  empty_cacheline, find_cacheline_hint, find_pre_cacheline, get_bucket, tag_of, empty_tag, Table,
  line,
}
use tri_cache.Base.{
  ℕ, ◌<◌, ◌≡◌, ◌≢◌, arith, true, false, if◌then◌else◌, ◌==◌, ==_refl, List, [], get_or, none, some,
  Returns, ap, sym, ◌∙◌, inl, inr, Bool-cases,
}

-- `u` is a table with the entries of `t`, in which line `p` of `t` is no page's line, and all other
-- hints are good.
pub record Drops (t : Table) (p : ℕ) (u : Table) : Type 0 where
  pub shape : IsTable u
  pub reads : (w : ℕ) → tag_of w ≢ empty_tag → get_pte u w none ≡ get_pte t w none
  pub hints :
      (w : ℕ)
      → tag_of w ≢ empty_tag
      → find_hint u w ≡ (if tag_of w == tag_at t p then none else find_hint t w)

module _ {t : Table} (table : IsTable t) (v p : ℕ) (real : tag_of v ≢ empty_tag)
    (found : find_hint t v ≡ some p) (idle : (line t p).num_using ≡ 0) where
  abbrev b : ℕ
  b = get_bucket t (tag_of v)

  abbrev lines : List ℕ
  lines = get_or table.0 b []

  small : b < t.bucket_size
  small = bucket-lt table.1 (tag_of v)

  at_home : home t table.0 v ≡ some p
  unfolding find_hint
  at_home = sym (find_cacheline-chain table.1 (tag_of v) false) ∙ found

  in_chain : (0 < occ p (chain table.0 b)) × (tag_at t p ≡ tag_of v)
  in_chain = find_line_found (tag_at t) (tag_of v) p _ at_home

  hint_found : find_cacheline_hint t (tag_of v) ≡ (true, some p)
  unfolding hint_result
  hint_found = find_cacheline_hint-chain table.1 (tag_of v) ∙ rw at_home

  drops :
      (u : Table) (cs : List (List ℕ)) (shape : Shape u cs)
      → ((w : ℕ) → tag_of w ≢ empty_tag → entry u cs w ≡ entry t table.0 w)
      → ((w : ℕ)
          → tag_of w ≢ empty_tag
          → home u cs w ≡ (if tag_of w == tag_at t p then none else home t table.0 w))
      → Drops t p u
  unfolding find_hint
  drops u cs shape same gone = record {
    shape = (cs, shape);
    reads =
        λ w w_real. get_pte-entry shape w ∙ ap some (same w w_real) ∙ sym (get_pte-entry table.1 w);
    hints = λ w w_real.
        find_cacheline-chain shape (tag_of w) false
        ∙ gone w w_real
        ∙ ap (λ o. if tag_of w == tag_at t p then none else o)
            (sym (find_cacheline-chain table.1 (tag_of w) false));
  }

  tag_here : (line t p).tag ≡ tag_of v
  unfolding tag_at
  tag_here = in_chain.1

  blank : empty_cacheline (line t p) ≡ true
  blank = empty_cacheline-blank (line t p) (table.1.lines p) idle

  -- The line is the bucket.
  delete_head :
      (lt : p < t.bucket_size) → p ≡ b → delete_cacheline t p ≡ some (clear_table table.1 p lt idle)
  unfolding delete_cacheline
  delete_head lt e =
      let pre : find_pre_cacheline t (tag_of v) p ≡ none =
        find_pre_cacheline-chain table.1 (tag_of v) p
        ∙ before-none p b lines (rw e (head_alone table.1 b b small small)) in
      ground (arith, tag_here, hint_found, ==_refl p, pre, blank)

  -- The line is an overflow line.
  delete_tail :
      (q : ℕ) (inside : 0 < occ p lines) (ahead : before p b lines ≡ some q)
      → delete_cacheline t p ≡ some (shrink_table table.1 b p q small inside idle ahead)
  unfolding delete_cacheline next_of
  delete_tail q inside ahead =
      let pre : find_pre_cacheline t (tag_of v) p ≡ some q =
        find_pre_cacheline-chain table.1 (tag_of v) p ∙ ahead in
      let leads_here = (shrink_leads table.1 b p q small inside idle ahead) in
      ground (arith, tag_here, hint_found, ==_refl p, pre, blank, leads_here)

  -- `delete_cacheline` of a page's line in which no page is in use, in a table in good shape, meets its
  -- assertions and returns: the table is in good shape; for pages with a tag that is not the empty one,
  -- the entries are those of before, the pages of the line have no line any more, and the lines of all
  -- others stay.
  pub delete_cacheline-Drops : Returns (delete_cacheline t p) (Drops t p)
  unfolding occ
  delete_cacheline-Drops = elim (Bool-cases (p == b)) [
    | inl e ↦
        let lt : p < t.bucket_size = ground (arith, small) in
        (
          clear_table table.1 p lt idle,
          delete_head lt (ground arith),
          drops _ table.0 (clear-Shape table.1 p lt idle) (clear-entry table.1 p lt idle)
              (clear-home table.1 p lt idle),
        )
    | inr ne ↦
        let inside : 0 < occ p lines = ground (arith, in_chain.0) in
        let (q, ahead, _) = before-some p b lines inside in
        (
          shrink_table table.1 b p q small inside idle ahead,
          delete_tail q inside ahead,
          drops _ _ (shrink-Shape table.1 b p q small inside idle ahead)
              (shrink-entry table.1 b p q small inside idle ahead)
              (shrink-home table.1 b p q small inside idle ahead),
        )
  ]
