-- ===== src/PageTable/Slot.antt =====
-- One page of a cache line of include/compact_hash_page_table.hpp is written: its header, its
-- physical page and the line's `num_using`.
use tri_cache.PageTable.Race.{empty_ppage_id}
use tri_cache.PageTable.Table.{header, ppage, empty_tag, header, to_unpacked, Pte, Line}
use tri_cache.PageTable.Header.{Header, empty_header}
use tri_cache.PageTable.Shape.{in_use, IsLine}
use tri_cache.Base.{
  inr, inl, Bool-cases, count-set, ◌∙◌, length-set, get_or-set, ℕ, ◌+◌, ◌<◌, ◌≡◌, ◌≢◌, arith, false,
  if◌then◌else◌, ◌==◌, set, length,
}

unfoldable pub unpacked : Header → ℕ → Pte
unpacked h q = record {
  exist = h.exist;
  busy = h.busy;
  dirty = h.dirty;
  ref_count = h.ref_count;
  ppage_id = q;
}

abbrev pub put_slot : Line → ℕ → Header → ℕ → ℕ → Line
put_slot l i h q n = record l {
  headers = set l.headers i h;
  ppage_ids = set l.ppage_ids i q;
  num_using = n;
}

module _ (l : Line) (fits : IsLine l) (i : ℕ) (lt : i < 8) (h : Header) (q n : ℕ) where
  in_headers : i < length l.headers
  in_headers = rw fits.eight_headers lt

  in_pages : i < length l.ppage_ids
  in_pages = rw fits.eight_pages lt

  header-slot : (j : ℕ) → header (put_slot l i h q n) j ≡ (if i == j then h else header l j)
  header-slot j = get_or-set l.headers i j h empty_header in_headers

  ppage-slot : (j : ℕ) → ppage (put_slot l i h q n) j ≡ (if i == j then q else ppage l j)
  ppage-slot j = get_or-set l.ppage_ids i j q empty_ppage_id in_pages

  blank-slot :
      (in_use h ≡ false → (h ≡ empty_header) × (q ≡ empty_ppage_id))
      → (j : ℕ) → in_use (header (put_slot l i h q n) j) ≡ false
      → (header (put_slot l i h q n) j ≡ empty_header)
        × (ppage (put_slot l i h q n) j ≡ empty_ppage_id)
  blank-slot blank j e = elim (Bool-cases (i == j)) [
    | inl here ↦ rw (header-slot j, ppage-slot j, here) (blank (rw (header-slot j, here) at e))
    | inr there ↦
        rw (header-slot j, ppage-slot j, there) (fits.blank j (rw (header-slot j, there) at e))
  ]

  pub slot-IsLine :
      n + (if in_use (header l i) then 1 else 0) ≡ l.num_using + (if in_use h then 1 else 0)
      → (in_use h ≡ false → (h ≡ empty_header) × (q ≡ empty_ppage_id))
      → l.tag ≢ empty_tag
      → IsLine (put_slot l i h q n)
  slot-IsLine counted blank tagged = record {
    eight_headers = length-set l.headers i h ∙ fits.eight_headers;
    eight_pages = length-set l.ppage_ids i q ∙ fits.eight_pages;
    using = omega (arith, count-set in_use l.headers i h empty_header in_headers, fits.using);
    blank = blank-slot blank;
    clear = λ e. absurd (tagged e);
  }

  pub to_unpacked-slot :
      (j : ℕ)
      → to_unpacked (put_slot l i h q n) j ≡ (if i == j then unpacked h q else to_unpacked l j)
  unfolding to_unpacked unpacked
  to_unpacked-slot j = ground (arith, header-slot j, ppage-slot j)
