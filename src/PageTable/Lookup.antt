-- ===== src/PageTable/Lookup.antt =====
-- What the page table of include/compact_hash_page_table.hpp says of a page, and how one write of a
-- line changes that.
use tri_cache.PageTable.Chain.{
  IsChain-congr, find_line-congr, next_of, find_line_found, find_line, tag_at,
}
use tri_cache.Base.{
  Bool-cases, [], get_or, get_or-set, ◌==◌, ◌∙◌, pointer_eq, if◌then◌else◌, length-set, length, ◌<◌,
  Option, arith, inr, false, inl, Option-cases, some, ◌≡◌, none, ℕ, List,
}
use tri_cache.PageTable.Table.{
  empty_line, set_line, Line, offset_of, line, to_unpacked, empty_pte, get_bucket, tag_of, Pte,
  Table,
}
use tri_cache.PageTable.Mapping.{get_pte}
use tri_cache.PageTable.Shape.{IsLine, find_cacheline-chain, chain, Shape}

unfoldable pub read_entry : Table → ℕ → Option ℕ → Pte
read_entry t v none = empty_pte
read_entry t v (some p) = to_unpacked (line t p) (offset_of v)

-- The line of a page, by the lists of lines.
abbrev pub home : Table → List (List ℕ) → ℕ → Option ℕ
home t cs v = find_line (tag_at t) (tag_of v) (chain cs (get_bucket t (tag_of v)))

-- The entry of a page, by the lists of lines.
unfoldable pub entry : Table → List (List ℕ) → ℕ → Pte
entry t cs v = read_entry t v (home t cs v)

-- `get_pte` ends, with its assertion met, and reads the entry.
pub get_pte-entry :
    {t : Table} {cs : List (List ℕ)} (s : Shape t cs) (v : ℕ)
    → get_pte t v none ≡ some (entry t cs v)
unfolding get_pte entry read_entry tag_at
get_pte-entry {t} {cs} s v = elim (Option-cases (home t cs v)) [
  | inl e ↦ ground (arith, find_cacheline-chain s (tag_of v) false)
  | inr (p, e) ↦
      let found = find_line_found (tag_at t) (tag_of v) p _ e in
      ground (arith, find_cacheline-chain s (tag_of v) false, found.1)
]

-- A line of the table is written again, with the same tag and the same successor.
module _ {t : Table} {cs : List (List ℕ)} (s : Shape t cs) (p : ℕ) (lt : p < length t.store)
    (l : Line) (fits : IsLine l) (same_tag : l.tag ≡ tag_at t p)
    (same_next : l.next ≡ next_of t p) where
  line-write : (x : ℕ) → line (set_line t p l) x ≡ (if p == x then l else line t x)
  line-write x = get_or-set t.store p x l empty_line lt

  pub tag-write : (x : ℕ) → tag_at (set_line t p l) x ≡ tag_at t x
  unfolding tag_at
  tag-write x = ground (arith, line-write x)

  pub next-write : (x : ℕ) → next_of (set_line t p l) x ≡ next_of t x
  unfolding next_of
  next-write x = ground (arith, line-write x)

  pub write-Shape : Shape (set_line t p l) cs
  write-Shape = record {
    some_bucket = s.some_bucket;
    sized = length-set t.store p l ∙ s.sized;
    wide = s.wide;
    linked = λ b h. rw (next-write b) (
        IsChain-congr (next_of t) _ (next_of t b) (get_or cs b []) (λ x _. next-write x)
          (s.linked b h));
    shared = s.shared;
    total = s.total;
    homes = λ b x h m ne. rw (tag-write x) (s.homes b x h m (rw (tag-write x) at ne));
    live = λ b x h m. rw (tag-write x) (s.live b x h m);
    single = λ b x y h m n e. s.single b x y h m n (rw (tag-write x, tag-write y) at e);
    pooled = λ x m. rw (tag-write x, next-write x) (s.pooled x m);
    lines = λ x. elim (Bool-cases (p == x)) [
      | inl e ↦ rw (line-write x, e) fits
      | inr e ↦ rw (line-write x, e) (s.lines x)
    ];
  }

  pub home-write : (v : ℕ) → home (set_line t p l) cs v ≡ home t cs v
  home-write v = find_line-congr (tag_at t) _ (tag_of v) _ (λ x _. tag-write x)

  -- Only the pages of the line are read from the new line.
  pub entry-write :
      (v : ℕ)
      → entry (set_line t p l) cs v
        ≡ (if pointer_eq (home t cs v) (some p) then to_unpacked l (offset_of v) else entry t cs v)
  unfolding entry read_entry
  entry-write v = rw (home-write v) (elim (Option-cases (home t cs v)) [
    | inl e ↦ rw e
    | inr (q, e) ↦ rw e (ground (arith, line-write q))
  ])
