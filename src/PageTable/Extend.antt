-- ===== src/PageTable/Extend.antt =====
-- `create_cacheline` of include/compact_hash_page_table.hpp where the bucket has a tag already, and a line
-- of the pool goes to the end of the chain: the table after it.
use tri_cache.PageTable.Grow.{retag-IsLine, relink-IsLine, to_unpacked_blank}
use tri_cache.PageTable.Mapping.{link}
use tri_cache.PageTable.Chain.{
  find_line_found, find_line-congr, IsChain, last_of-occ, last_of, IsChain-congr, find_line_missed,
  occ, next_of, tag_at, find_line,
}
use tri_cache.PageTable.Chain.Edit.{
  first_some-none, find_line_grown, first_some, IsChain-append, occ-append,
}
use tri_cache.PageTable.Shape.{
  overflows, chain_apart, chain_once, chain_inside, chain_unpooled, bucket-lt, chain, IsLine, Shape,
}
use tri_cache.PageTable.Lookup.{read_entry, home, entry}
use tri_cache.PageTable.Table.{
  offset_of, tag_of, empty_pte, to_unpacked, get_bucket, empty_tag, Table, line, set_line,
  empty_line,
}
use tri_cache.Base.{
  Option-cases, ==_eq_false, ==_refl, ap, length-append, tally-set, tally, ◌++◌, ◌∷◌, inr, [],
  get_or, ◌∙◌, inl, length-set, Bool-cases, get_or-set, ℕ, ◌+◌, ◌<◌, ◌≡◌, ◌≢◌, arith, false,
  if◌then◌else◌, ◌==◌, List, set, length, none, some,
}

-- The chain of tag `k` has no line for it, and the pool has a line.
module _ {t : Table} {cs : List (List ℕ)} (s : Shape t cs) (k : ℕ) (real : k ≢ empty_tag)
    (missed : find_line (tag_at t) k (chain cs (get_bucket t k)) ≡ none) (p : ℕ) (rest : List ℕ)
    (pooled : t.pool ≡ p ∷ rest) where
  abbrev bucket : ℕ
  bucket = get_bucket t k

  bucket_small : bucket < t.bucket_size
  bucket_small = bucket-lt s k

  other_tag : (x : ℕ) → 0 < occ x (chain cs bucket) → tag_at t x ≢ k
  other_tag x m = find_line_missed (tag_at t) k x _ missed m

  abbrev pub chain_tail : List ℕ
  chain_tail = get_or cs bucket []

  abbrev pub pre : ℕ
  pre = last_of bucket chain_tail

  -- What `create_cacheline` makes of the table.
  abbrev pub tail_table : Table
  tail_table =
      let u : Table = record t { pool = rest } in
      link (some pre) (some p) (set_line u p (record (line u p) { tag = k }))

  abbrev pub tail_lists : List (List ℕ)
  tail_lists = set cs bucket (chain_tail ++ p ∷ [])

  pre_inside : 0 < occ pre (chain cs bucket)
  pre_inside = last_of-occ bucket chain_tail

  p_pooled : (occ p t.pool ≡ 1) × (occ p rest ≡ 0) × (p < length t.store)
  unfolding occ
  p_pooled = ground (arith, s.shared p, s.sized)

  pre_ne : pre ≢ p
  pre_ne e = absurd (ground (arith, p_pooled, chain_unpooled s bucket pre bucket_small pre_inside))

  tail_line :
      (x : ℕ)
      → line tail_table x ≡ (
          if pre == x
          then record (line t pre) { next = some p }
          else if p == x
          then record (line t p) { tag = k }
          else line t x)
  tail_line x =
      let first = set t.store p (record (line t p) { tag = k }) in
      ground (
        arith,
        get_or-set first pre x (record (get_or first pre empty_line) { next = some p }) empty_line,
        get_or-set t.store p x (record (line t p) { tag = k }) empty_line,
        get_or-set t.store p pre (record (line t p) { tag = k }) empty_line,
        length-set t.store p (record (line t p) { tag = k }),
        chain_inside s bucket bucket_small pre pre_inside,
        p_pooled,
        pre_ne,
      )

  tail_tag : (x : ℕ) → tag_at tail_table x ≡ (if p == x then k else tag_at t x)
  unfolding tag_at
  tail_tag x = ground (arith, tail_line x, pre_ne)

  tail_next : (x : ℕ) → next_of tail_table x ≡ (if pre == x then some p else next_of t x)
  unfolding next_of
  tail_next x = ground (arith, tail_line x)

  tail_chain :
      (b : ℕ)
      → get_or tail_lists b [] ≡ (if bucket == b then chain_tail ++ p ∷ [] else get_or cs b [])
  tail_chain b = get_or-set cs bucket b (chain_tail ++ p ∷ []) [] (rw s.wide bucket_small)

  -- The chain of the tag has one line more; the others are as before.
  tail_occ :
      (b x : ℕ)
      → occ x (get_or tail_lists b [])
        ≡ occ x (get_or cs b []) + (if bucket == b then if p == x then 1 else 0 else 0)
  unfolding occ
  tail_occ b x = rw (tail_chain b) (ground (arith, occ-append x chain_tail (p ∷ [])))

  tail-linked :
      (b : ℕ)
      → b < t.bucket_size
      → IsChain (next_of tail_table) (next_of tail_table b) (get_or tail_lists b [])
  unfolding occ
  tail-linked b h = elim (Bool-cases (bucket == b)) [
    | inl e ↦
        let same : bucket ≡ b = ground arith in
        rw (tail_chain b, e, ← same)
          (IsChain-append (next_of t) (next_of tail_table) bucket chain_tail p
            (s.linked bucket bucket_small) (λ y ne m. ground (arith, tail_next y))
            (ground (arith, tail_next pre))
            (ground (arith, tail_next p, pre_ne, s.pooled p, p_pooled))
            (chain_once s bucket bucket_small pre))
    | inr e ↦
        let next_same : (x : ℕ) → 0 < occ x (chain cs b) → next_of tail_table x ≡ next_of t x =
          λ x m. ground (arith, tail_next x, chain_apart s bucket b x bucket_small h, pre_inside) in
        rw (tail_chain b, e, next_same b (ground arith))
          (IsChain-congr (next_of t) _ (next_of t b) (get_or cs b [])
            (λ x m. next_same x (ground arith)) (s.linked b h))
  ]

  in_lists : bucket < length cs
  in_lists = rw s.wide bucket_small

  tail-shared : (x : ℕ) → tally (occ x) tail_lists + occ x rest ≡ (if overflows t x then 1 else 0)
  unfolding occ
  tail-shared x = ground (
    arith,
    tally-set (occ x) cs bucket (chain_tail ++ p ∷ []) [] in_lists,
    occ-append x chain_tail (p ∷ []),
    s.shared x,
  )

  tail_lines : (x : ℕ) → IsLine (line tail_table x)
  tail_lines x = elim (Bool-cases (pre == x)) [
    | inl e ↦ rw (tail_line x, e) (relink-IsLine (line t pre) (some p) (s.lines pre))
    | inr ne ↦ elim (Bool-cases (p == x)) [
      | inl e ↦ rw (tail_line x, ne, e) (retag-IsLine (line t p) k (s.lines p) real)
      | inr e ↦ rw (tail_line x, ne, e) (s.lines x)
    ]
  ]

  pub tail-Shape : Shape tail_table tail_lists
  unfolding occ
  tail-Shape = record {
    some_bucket = s.some_bucket;
    sized = length-set _ pre _ ∙ length-set t.store p _ ∙ s.sized;
    wide = length-set cs bucket _ ∙ s.wide;
    linked = tail-linked;
    shared = tail-shared;
    total = omega (
      arith,
      tally-set {A = List ℕ} length cs bucket (chain_tail ++ p ∷ []) [] in_lists,
      length-append chain_tail (p ∷ []),
      s.total,
      ap length pooled,
    );
    homes = λ b x h m ne.
        ground (arith, tail_tag x, tail_occ b x, s.homes b x h, chain_unpooled s b x h, p_pooled);
    live = λ b x h m. ground (arith, tail_tag x, tail_occ b x, s.live b x h);
    single = λ b x y h m n e. ground (
      arith,
      tail_tag x,
      tail_tag y,
      tail_occ b x,
      tail_occ b y,
      s.single b x y h,
      chain_unpooled s b x h,
      chain_unpooled s b y h,
      p_pooled,
      s.homes b x h,
      s.homes b y h,
      other_tag x,
      other_tag y,
    );
    pooled = λ x m. ground (
      arith,
      tail_tag x,
      tail_next x,
      s.pooled x,
      s.shared x,
      p_pooled,
      chain_unpooled s bucket pre bucket_small pre_inside,
    );
    lines = tail_lines;
  }

  tail_tag_kept :
      (b x : ℕ) → b < t.bucket_size → 0 < occ x (chain cs b) → tag_at tail_table x ≡ tag_at t x
  tail_tag_kept b x h m = ground (arith, tail_tag x, chain_unpooled s b x h m, p_pooled)

  -- Only the new tag is found elsewhere.
  pub tail_home :
      (w : ℕ)
      → home tail_table tail_lists w
        ≡ first_some (home t cs w) (if k == tag_of w then some p else none)
  tail_home w = elim (Bool-cases (bucket == get_bucket t (tag_of w))) [
    | inl e ↦
        let same : get_bucket t (tag_of w) ≡ bucket = ground arith in
        rw (same, tail_chain bucket, ==_refl bucket)
          (find_line_grown (tag_at t) (tag_at tail_table) (tag_of w) k (chain cs bucket) p
            (λ x. tail_tag_kept bucket x bucket_small) (ground (arith, tail_tag p)))
    | inr e ↦
        let b = get_bucket t (tag_of w) in
        let other : (k == tag_of w) ≡ false = ground arith in
        rw (tail_chain b, e, other, first_some-none (home t cs w))
          (find_line-congr (tag_at t) (tag_at tail_table) (tag_of w) (chain cs b)
            (λ x. tail_tag_kept b x (bucket-lt s (tag_of w))))
  ]

  tail_slots :
      (b x i : ℕ)
      → b < t.bucket_size
      → 0 < occ x (chain cs b)
      → to_unpacked (line tail_table x) i ≡ to_unpacked (line t x) i
  unfolding to_unpacked
  tail_slots b x i h m = ground (arith, tail_line x, chain_unpooled s b x h m, p_pooled)

  new_slots : (i : ℕ) → to_unpacked (line tail_table p) i ≡ empty_pte
  unfolding tag_at
  new_slots i =
      let idle = (s.lines p).clear (s.pooled p (omega (arith, p_pooled))).0 in
      let l = record (line t p) { tag = k } in
      rw (tail_line p, ==_eq_false pre p pre_ne, ==_refl p)
        (to_unpacked_blank l (retag-IsLine (line t p) k (s.lines p) real) idle i)

  pub tail-entry : (w : ℕ) → entry tail_table tail_lists w ≡ entry t cs w
  unfolding entry read_entry
  tail-entry w = rw (tail_home w) (elim (Option-cases (home t cs w)) [
    | inr (q, e) ↦ rw e (
        tail_slots (get_bucket t (tag_of w)) q (offset_of w) (bucket-lt s (tag_of w))
          (find_line_found (tag_at t) (tag_of w) q _ e).0)
    | inl e ↦ rw e (elim (Bool-cases (k == tag_of w)) [
      | inl new ↦ rw new (new_slots (offset_of w))
      | inr old ↦ rw old
    ])
  ])
