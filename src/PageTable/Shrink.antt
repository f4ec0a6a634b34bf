-- ===== src/PageTable/Shrink.antt =====
-- `delete_cacheline` of include/compact_hash_page_table.hpp on an overflow line, which leaves its chain and
-- goes to the pool: the table after it.
use tri_cache.PageTable.Grow.{to_unpacked_blank, relink-IsLine}
use tri_cache.PageTable.Mapping.{unlink}
use tri_cache.PageTable.Chain.{
  find_line_found, find_line_at, find_line_nowhere, find_line-congr_test, IsChain-congr, IsChain,
  find_line, next_of, tag_at, before, occ,
}
use tri_cache.PageTable.Chain.Edit.{
  IsChain-without, before_inside, before_ne, without, occ-without, length-without,
  find_line-without,
}
use tri_cache.PageTable.Shape.{
  chain_unpooled, chain_apart, overflows, chain_once, chain_inside, chain, IsLine, Shape,
}
use tri_cache.PageTable.Lookup.{read_entry, home, entry}
use tri_cache.PageTable.Table.{
  offset_of, tag_of, get_bucket, to_unpacked, empty_tag, Table, Line, line, set_line, empty_line,
}
use tri_cache.Base.{
  Option-cases, sym, length-set, get_or-set, ◌∷◌, ◌∙◌, tally, tally-set, inl, inr, Bool-cases,
  length-set, get_or-set, tally_one, ◌≤◌, [], get_or, ℕ, ◌+◌, ◌<◌, ◌≡◌, ◌≢◌, arith, if◌then◌else◌,
  ◌==◌, List, set, length, none, some,
}

blank_line-IsLine :
    (l : Line) → IsLine l → l.num_using ≡ 0 → IsLine (record l { tag = empty_tag; next = none })
blank_line-IsLine l fits idle = record {
  eight_headers = fits.eight_headers;
  eight_pages = fits.eight_pages;
  using = fits.using;
  blank = fits.blank;
  clear = λ e. idle;
}

-- Line `p` of the overflow lines of bucket `b` is in use nowhere, and `q` stands before it.
module _ {t : Table} {cs : List (List ℕ)} (s : Shape t cs) (b p q : ℕ) (small : b < t.bucket_size)
    (inside : 0 < occ p (get_or cs b [])) (idle : (line t p).num_using ≡ 0)
    (ahead : before p b (get_or cs b []) ≡ some q) where
  abbrev rest_lines : List ℕ
  rest_lines = without p (get_or cs b [])

  abbrev pub shrink_lists : List (List ℕ)
  shrink_lists = set cs b rest_lines

  abbrev pub shrink_table : Table
  shrink_table = let u = unlink (some q) p t in set_line u p (record (line u p) { tag = empty_tag })

  p_facts : (p < length t.store) × (t.bucket_size ≤ p) × (occ p t.pool ≡ 0) × (b ≢ p)
  unfolding occ
  p_facts = ground (arith, s.shared p, s.sized, s.wide, tally_one (occ p) cs b [])

  once : (x : ℕ) → occ x (chain cs b) ≤ 1
  once = chain_once s b small

  q_facts : (0 < occ q (chain cs b)) × (q < length t.store) × (q ≢ p)
  q_facts =
      let in_chain = (before_inside p b q _ ahead).0 in
      (in_chain, chain_inside s b small q in_chain, before_ne p b q _ ahead (once p))

  shrink_line :
      (x : ℕ)
      → line shrink_table x ≡ (
          if p == x
          then record (line t p) { tag = empty_tag; next = none }
          else if q == x
          then record (line t q) { next = next_of t p }
          else line t x)
  unfolding next_of
  shrink_line x =
      let first = set t.store q (record (line t q) { next = (line t p).next }) in
      let second = set first p (record (get_or first p empty_line) { next = none }) in
      ground (
        arith,
        get_or-set second p x (record (get_or second p empty_line) { tag = empty_tag }) empty_line,
        get_or-set first p x (record (get_or first p empty_line) { next = none }) empty_line,
        get_or-set first p p (record (get_or first p empty_line) { next = none }) empty_line,
        get_or-set t.store q x (record (line t q) { next = (line t p).next }) empty_line,
        get_or-set t.store q p (record (line t q) { next = (line t p).next }) empty_line,
        length-set t.store q (record (line t q) { next = (line t p).next }),
        length-set first p (record (get_or first p empty_line) { next = none }),
        p_facts,
        q_facts,
      )

  shrink_tag : (x : ℕ) → tag_at shrink_table x ≡ (if p == x then empty_tag else tag_at t x)
  unfolding tag_at
  shrink_tag x = ground (arith, shrink_line x)

  shrink_next :
      (x : ℕ)
      → next_of shrink_table x
        ≡ (if p == x then none else if q == x then next_of t p else next_of t x)
  unfolding next_of
  shrink_next x = ground (arith, shrink_line x)

  shrink_chain :
      (c : ℕ) → get_or shrink_lists c [] ≡ (if b == c then rest_lines else get_or cs c [])
  shrink_chain c = get_or-set cs b c rest_lines [] (rw s.wide small)

  -- The chain has one line less; the others are as before.
  shrink_occ :
      (c x : ℕ)
      → occ x (get_or shrink_lists c []) + (if b == c then if p == x then 1 else 0 else 0)
        ≡ occ x (get_or cs c [])
  shrink_occ c x = ground (arith, shrink_chain c, occ-without x p (get_or cs b []) inside)

  p_apart : (c : ℕ) → c < t.bucket_size → b ≢ c → occ p (chain cs c) ≡ 0
  unfolding occ
  p_apart c h ne = ground (arith, chain_apart s b c p small h)

  -- The line has left its chain.
  p_gone : (c : ℕ) → c < t.bucket_size → occ p (chain shrink_lists c) ≡ 0
  unfolding occ
  p_gone c h = ground (arith, shrink_occ c p, once p, p_apart c h, p_facts)

  shrink-linked :
      (c : ℕ)
      → c < t.bucket_size
      → IsChain (next_of shrink_table) (next_of shrink_table c) (get_or shrink_lists c [])
  unfolding occ
  shrink-linked c h = elim (Bool-cases (b == c)) [
    | inl e ↦
        let same : b ≡ c = ground arith in
        rw (shrink_chain c, e, ← same)
          (IsChain-without (next_of t) (next_of shrink_table) p b q (get_or cs b [])
            (s.linked b small) ahead (λ y n m _. ground (arith, shrink_next y))
            (ground (arith, shrink_next q, q_facts)) once).0
    | inr e ↦
        let next_same : (x : ℕ) → 0 < occ x (chain cs c) → next_of shrink_table x ≡ next_of t x =
          λ x m.
            ground (arith, shrink_next x, chain_apart s b c x small h, q_facts, p_facts, inside) in
        rw (shrink_chain c, e, next_same c (ground arith))
          (IsChain-congr (next_of t) _ (next_of t c) (get_or cs c [])
            (λ x m. next_same x (ground arith)) (s.linked c h))
  ]

  -- `pre_cacheline->next == cacheline`
  pub shrink_leads : next_of t q ≡ some p
  shrink_leads =
      (IsChain-without (next_of t) (next_of shrink_table) p b q (get_or cs b []) (s.linked b small)
        ahead (λ y n m _. ground (arith, shrink_next y)) (ground (arith, shrink_next q, q_facts))
        once).1

  in_lists : b < length cs
  in_lists = rw s.wide small

  shrink-shared :
      (x : ℕ) → tally (occ x) shrink_lists + occ x (p ∷ t.pool) ≡ (if overflows t x then 1 else 0)
  unfolding occ
  shrink-shared x = ground (
    arith,
    tally-set (occ x) cs b rest_lines [] in_lists,
    occ-without x p (get_or cs b []) inside,
    s.shared x,
  )

  shrink_lines : (x : ℕ) → IsLine (line shrink_table x)
  shrink_lines x = elim (Bool-cases (p == x)) [
    | inl e ↦ rw (shrink_line x, e) (blank_line-IsLine (line t p) (s.lines p) idle)
    | inr ne ↦ elim (Bool-cases (q == x)) [
      | inl e ↦ rw (shrink_line x, ne, e) (relink-IsLine (line t q) (next_of t p) (s.lines q))
      | inr e ↦ rw (shrink_line x, ne, e) (s.lines x)
    ]
  ]

  pub shrink-Shape : Shape shrink_table shrink_lists
  unfolding occ
  shrink-Shape = record {
    some_bucket = s.some_bucket;
    sized = length-set _ p _ ∙ length-set _ p _ ∙ length-set t.store q _ ∙ s.sized;
    wide = length-set cs b _ ∙ s.wide;
    linked = shrink-linked;
    shared = shrink-shared;
    total = omega (
      arith,
      tally-set {A = List ℕ} length cs b rest_lines [] in_lists,
      length-without p (get_or cs b []) inside,
      s.total,
    );
    homes = λ c x h m ne. ground (arith, shrink_tag x, shrink_occ c x, s.homes c x h);
    live = λ c x h m. ground (arith, shrink_tag x, shrink_occ c x, s.live c x h, p_gone c h);
    single = λ c x y h m n e. ground (
      arith,
      shrink_tag x,
      shrink_tag y,
      shrink_occ c x,
      shrink_occ c y,
      s.single c x y h,
      p_gone c h,
    );
    pooled = λ x m.
        ground
          (arith, shrink_tag x, shrink_next x, s.pooled x, chain_unpooled s b q small, q_facts);
    lines = shrink_lines;
  }

  p_tag : (get_bucket t (tag_at t p) ≡ b) × (tag_at t p ≢ empty_tag)
  unfolding occ
  p_tag = (s.homes b p small (ground arith) (s.live b p small inside), s.live b p small inside)

  gone : (w : ℕ) → tag_of w ≡ tag_at t p → home shrink_table shrink_lists w ≡ none
  unfolding occ
  gone w e =
      find_line_nowhere (tag_at shrink_table) (tag_of w)
        (chain shrink_lists (get_bucket t (tag_of w)))
        (λ x m. ground (
          arith,
          shrink_tag x,
          shrink_occ b x,
          s.single b x p small,
          inside,
          p_tag,
          p_gone b small,
        ))

  others :
      (w : ℕ)
      → tag_of w ≢ empty_tag
      → tag_of w ≢ tag_at t p
      → home shrink_table shrink_lists w ≡ home t cs w
  unfolding find_line
  others w real ne =
      let k = tag_of w in
      let c = get_bucket t k in
      let same =
        find_line-congr_test (tag_at t) (tag_at shrink_table) k (chain shrink_lists c)
          (λ x _. ground (arith, shrink_tag x)) in
      same ∙ ground (arith, shrink_chain c, find_line-without (tag_at t) k p (get_or cs b []))

  pub shrink-home :
      (w : ℕ)
      → tag_of w ≢ empty_tag
      → home shrink_table shrink_lists w ≡ (if tag_of w == tag_at t p then none else home t cs w)
  shrink-home w real = elim (Bool-cases (tag_of w == tag_at t p)) [
    | inl e ↦ rw e (gone w (ground arith))
    | inr e ↦ rw e (others w real (ground arith))
  ]

  shrink_slots : (x i : ℕ) → p ≢ x → to_unpacked (line shrink_table x) i ≡ to_unpacked (line t x) i
  unfolding to_unpacked
  shrink_slots x i ne = ground (arith, shrink_line x)

  p_home : (w : ℕ) → tag_of w ≡ tag_at t p → home t cs w ≡ some p
  unfolding occ
  p_home w e =
      find_line_at (tag_at t) (tag_of w) p (chain cs (get_bucket t (tag_of w)))
        (ground (arith, p_tag, inside)) (sym e)
        (λ y m f. ground (arith, p_tag, inside, s.single b y p small))

  pub shrink-entry :
      (w : ℕ) → tag_of w ≢ empty_tag → entry shrink_table shrink_lists w ≡ entry t cs w
  unfolding entry read_entry
  shrink-entry w real = elim (Bool-cases (tag_of w == tag_at t p)) [
    | inl e ↦
        rw (shrink-home w real, e, p_home w (ground arith))
          (sym (to_unpacked_blank (line t p) (s.lines p) idle (offset_of w)))
    | inr ne ↦ elim (Option-cases (home t cs w)) [
      | inl e ↦ rw (shrink-home w real, ne, e)
      | inr (x, e) ↦
          let found = (find_line_found (tag_at t) (tag_of w) x _ e).1 in
          rw (shrink-home w real, ne, e) (shrink_slots x (offset_of w) (ground arith))
    ]
  ]
