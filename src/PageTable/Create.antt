-- ===== src/PageTable/Create.antt =====
-- `find_or_create_hint` of include/compact_hash_page_table.hpp finds the line of a page or makes one.
use tri_cache.PageTable.Grow.{head_home, head-entry, head-Shape, head_table, blank_slots}
use tri_cache.PageTable.Extend.{tail_home, tail-entry, tail-Shape, tail_table}
use tri_cache.PageTable.Mapping.{find_hint, find_or_create_hint, create_cacheline, get_pte}
use tri_cache.PageTable.Chain.{occ_head, last_of-next, next_of, tag_at, hint_result, last_of}
use tri_cache.PageTable.Lookup.{get_pte-entry, entry, home}
use tri_cache.PageTable.Shape.{
  find_cacheline-chain, bucket-lt, find_cacheline_hint-chain, IsLine, Shape,
}
use tri_cache.PageTable.Place.{IsTable}
use tri_cache.PageTable.Table.{
  find_cacheline_hint, get_bucket, header_eq, empty_tag, tag_of, empty_slots, empty_cacheline,
  Table, Line, line,
}
use tri_cache.Base.{
  ◌^◌, ◌%◌, sym, List-cases, ℕ_discrete, inl, inr, Option-cases, Returns, ap, ◌∙◌, zero, suc, ◌∷◌,
  [], get_or, suc, ==_refl, pointer_eq, ℕ, ◌+◌, ◌<◌, ◌≤◌, ◌≡◌, ◌≢◌, refl, arith, true, false,
  if◌then◌else◌, ◌==◌, List, length, Option, none, some,
}

-- `u` is a table with the entries of `t`.
pub record Keeps (t u : Table) : Type 0 where
  pub shape : IsTable u
  pub reads : (w : ℕ) → tag_of w ≢ empty_tag → get_pte u w none ≡ get_pte t w none

empty_slots-blank : (n : ℕ) (l : Line) → IsLine l → l.num_using ≡ 0 → empty_slots n l ≡ true
unfolding empty_slots header_eq
empty_slots-blank zero l fits z = refl
empty_slots-blank (suc n) l fits z =
    ground (arith, blank_slots l fits z n, empty_slots-blank n l fits z)

pub empty_cacheline-blank : (l : Line) → IsLine l → l.num_using ≡ 0 → empty_cacheline l ≡ true
unfolding empty_cacheline
empty_cacheline-blank l fits z = empty_slots-blank 8 l fits z

pub pointer_eq_refl : (p : Option ℕ) → pointer_eq p p ≡ true
pointer_eq_refl none = refl
pointer_eq_refl (some p) = ==_refl p

module _ {t : Table} (table : IsTable t) (v : ℕ) (fits_tag : tag_of v < empty_tag) where
  real : tag_of v ≢ empty_tag
  real e = omega (arith, fits_tag, e)

  -- The field of 58 bits holds the tag.
  stored : tag_of v % 2 ^ 58 ≡ tag_of v
  stored = omega (arith, fits_tag)

  abbrev k : ℕ
  k = tag_of v

  abbrev b : ℕ
  b = get_bucket t k

  abbrev last : ℕ
  last = last_of b (get_or table.0 b [])

  module _ (missed : home t table.0 v ≡ none) where
    no_line : find_cacheline_hint t k ≡ (false, if tag_at t b == empty_tag then none else some last)
    unfolding hint_result
    no_line = find_cacheline_hint-chain table.1 k ∙ rw missed

    no_line_untagged : tag_at t b ≡ empty_tag → find_cacheline_hint t k ≡ (false, none)
    no_line_untagged untagged = ground (arith, no_line)

    no_line_tagged : tag_at t b ≢ empty_tag → find_cacheline_hint t k ≡ (false, some last)
    no_line_tagged tagged = ground (arith, no_line)

    -- The bucket takes the tag.
    create_head :
        tag_at t b ≡ empty_tag
        → create_cacheline t k none ≡ some (b, head_table table.1 k real missed)
    unfolding create_cacheline tag_at
    create_head untagged =
        let found : find_cacheline_hint t k ≡ (false, none) = ground (arith, no_line) in
        let l = table.1.lines b in
        rw (found, stored, empty_cacheline-blank (line t b) l (l.clear untagged))

    -- A line of the pool takes the tag.
    create_tail :
        (p : ℕ) (rest : List ℕ) (pooled : t.pool ≡ p ∷ rest)
        → tag_at t b ≢ empty_tag
        → create_cacheline t k (some last)
          ≡ some (p, tail_table table.1 k real missed p rest pooled)
    unfolding create_cacheline tag_at next_of
    create_tail p rest pooled tagged =
        let found : find_cacheline_hint t k ≡ (false, some last) = ground (arith, no_line) in
        let l = table.1.lines p in
        let ends = last_of-next (next_of t) b _ (table.1.linked b (bucket-lt table.1 k)) in
        let idle = l.clear (table.1.pooled p (rw pooled (occ_head p rest))).0 in
        rw (found, stored, ==_refl last, ends, pooled, empty_cacheline-blank (line t p) l idle)

  found_line : (q : ℕ) → home t table.0 v ≡ some q → find_cacheline_hint t k ≡ (true, some q)
  unfolding hint_result
  found_line q e = find_cacheline_hint-chain table.1 k ∙ rw e

  -- A new shape with the old entries, in which the page has a line.
  made :
      (u : Table) (cs : List (List ℕ)) (shape : Shape u cs)
      → ((w : ℕ) → tag_of w ≢ empty_tag → entry u cs w ≡ entry t table.0 w)
      → (q : ℕ) → home u cs v ≡ some q
      → Keeps t u × (find_hint u v ≡ some q)
  unfolding find_hint
  made u cs shape same q e = (
    record {
      shape = (cs, shape);
      reads = λ w w_real.
          get_pte-entry shape w ∙ ap some (same w w_real) ∙ sym (get_pte-entry table.1 w);
    },
    find_cacheline-chain shape k false ∙ e,
  )

  -- `find_or_create_hint` of a page with a tag below the empty one, that is a page below 2^61 - 8,
  -- on a table in good shape whose pool has a line, returns: the new table is in good shape with
  -- the entries of before, the page's line in it is the one returned, at most one line left the
  -- pool, and nothing changed if the line was there already.
  pub find_or_create_hint-Keeps :
      0 < length t.pool
      → Returns (find_or_create_hint t v) (λ a.
        Keeps t a.1
        × (find_hint a.1 v ≡ some a.0)
        × (length t.pool ≤ length a.1.pool + 1)
        × (find_hint t v ≢ none → a.1 ≡ t))
  unfolding find_or_create_hint find_hint
  find_or_create_hint-Keeps stocked = elim (Option-cases (home t table.0 v)) [
    | inr (q, e) ↦
        let m = made t table.0 table.1 (λ w _. refl) q e in
        ((q, t), rw (found_line q e), (m.0, m.1, omega arith, λ _. refl))
    | inl e ↦ elim (ℕ_discrete (tag_at t b) empty_tag) [
      | yes untagged ↦
          let u = head_table table.1 k real e in
          let m =
            made u table.0 (head-Shape table.1 k real e) (head-entry table.1 k real e untagged) b
              (rw (head_home table.1 k real e untagged v real, ==_refl k)) in
          (
            (b, u),
            rw (no_line_untagged e untagged) (create_head e untagged),
            (m.0, m.1, omega arith, λ ne. absurd (ne (find_cacheline-chain table.1 k false ∙ e))),
          )
      | no tagged ↦ elim (List-cases t.pool) [
        | inl none_left ↦ absurd (omega (arith, ap length none_left))
        | inr (p, rest, pooled) ↦
            let u = tail_table table.1 k real e p rest pooled in
            let m =
              made u _ (tail-Shape table.1 k real e p rest pooled)
                (λ w _. tail-entry table.1 k real e p rest pooled w) p
                (rw (tail_home table.1 k real e p rest pooled v, e, ==_refl k)) in
            (
              (p, u),
              rw (no_line_tagged e tagged) (create_tail e p rest pooled tagged),
              (
                m.0,
                m.1,
                omega (arith, ap length pooled),
                λ ne. absurd (ne (find_cacheline-chain table.1 k false ∙ e)),
              ),
            )
      ]
    ]
  ]
