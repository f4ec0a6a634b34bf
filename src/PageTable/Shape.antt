-- ===== src/PageTable/Shape.antt =====
-- The shape of the page table of include/compact_hash_page_table.hpp in memory: every bucket heads a
-- chain, and every overflow line stands in one chain or in the pool.
use tri_cache.Base.{
  tally_two, inr, inl, ◌==◌, Bool-cases, ℕ, zero, suc, ◌+◌, ◌-◌, ◌^◌, ◌∙◌, ◌≤◌, ◌<◌, if◌then◌else◌,
  ltb, leb, Bool, false, ◌||◌, ◌&&◌, none, some, List, [], ◌∷◌, length, get_or, count, tally, ◌≡◌,
  ◌≢◌, refl, arith, tally_one,
}
use tri_cache.PageTable.Header.{Header, empty_header}
use tri_cache.PageTable.Race.{empty_ppage_id}
use tri_cache.PageTable.Table.{
  Line, Table, line, header, ppage, get_bucket, empty_tag, chain_fuel, find_from, find_cacheline,
  find_retry, find_cacheline_hint, find_pre_cacheline, num_pack_pages,
}
use tri_cache.PageTable.Chain.{
  occ, IsChain, find_line, last_of, before, next_of, tag_at, find_from-find_line,
  hint_from-find_line, hint_result, pre_from-before,
}

abbrev pub in_use : Header → Bool
in_use h = h.exist || h.busy

-- Eight pages; `num_using` counts those in use, and all others are blank.
pub record IsLine (l : Line) : Type 0 where
  pub eight_headers : length l.headers ≡ num_pack_pages
  pub eight_pages : length l.ppage_ids ≡ num_pack_pages
  pub using : l.num_using ≡ count in_use l.headers
  pub blank :
      (i : ℕ)
      → in_use (header l i) ≡ false
      → (header l i ≡ empty_header) × (ppage l i ≡ empty_ppage_id)
  pub clear : l.tag ≡ empty_tag → l.num_using ≡ 0

abbrev pub chain : List (List ℕ) → ℕ → List ℕ
chain cs b = b ∷ get_or cs b []

-- An overflow line, and no bucket.
abbrev pub overflows : Table → ℕ → Bool
overflows t x = leb t.bucket_size x && ltb x (t.bucket_size + t.max_ppage_id)

-- `cs` lists the overflow lines of each bucket, in the order of the chain.
pub record Shape (t : Table) (cs : List (List ℕ)) : Type 0 where
  pub some_bucket : 0 < t.bucket_size
  pub sized : length t.store ≡ t.bucket_size + t.max_ppage_id
  pub wide : length cs ≡ t.bucket_size
  pub linked : (b : ℕ) → b < t.bucket_size → IsChain (next_of t) (next_of t b) (get_or cs b [])
  pub shared : (x : ℕ) → tally (occ x) cs + occ x t.pool ≡ (if overflows t x then 1 else 0)
  pub total : tally length cs + length t.pool ≡ t.max_ppage_id
  pub homes :
      (b x : ℕ)
      → b < t.bucket_size
      → 0 < occ x (chain cs b)
      → tag_at t x ≢ empty_tag
      → get_bucket t (tag_at t x) ≡ b
  pub live : (b x : ℕ) → b < t.bucket_size → 0 < occ x (get_or cs b []) → tag_at t x ≢ empty_tag
  pub single :
      (b x y : ℕ)
      → b < t.bucket_size
      → 0 < occ x (chain cs b)
      → 0 < occ y (chain cs b)
      → tag_at t x ≡ tag_at t y
      → x ≡ y
  pub pooled : (x : ℕ) → 0 < occ x t.pool → (tag_at t x ≡ empty_tag) × (next_of t x ≡ none)
  pub lines : (x : ℕ) → IsLine (line t x)

-- A retry finds nothing new: no other thread has written in between.
find_retry-first :
    (n : ℕ) (t : Table) (k : ℕ) (should : Bool)
    → find_retry (suc n) t k should ≡ find_from (chain_fuel t) t k (some (get_bucket t k))
unfolding find_retry
find_retry-first zero t k should = ground arith
find_retry-first (suc n) t k should = ground (arith, find_retry-first n t k should)

module _ {t : Table} {cs : List (List ℕ)} (s : Shape t cs) where
  pub bucket-lt : (k : ℕ) → get_bucket t k < t.bucket_size
  bucket-lt k = grind (arith, s.some_bucket)

  module _ (b : ℕ) (lt : b < t.bucket_size) where
    pub chain_once : (x : ℕ) → occ x (chain cs b) ≤ 1
    unfolding occ
    chain_once x = ground (arith, s.shared x, tally_one (occ x) cs b [], s.wide)

    pub chain_inside : (x : ℕ) → 0 < occ x (chain cs b) → x < length t.store
    unfolding occ
    chain_inside x m = ground (arith, s.shared x, tally_one (occ x) cs b [], s.wide, s.sized)

    pub chain_short : length (get_or cs b []) + 1 < chain_fuel t
    chain_short = ground (arith, tally_one {A = List ℕ} length cs b [], s.wide, s.total, s.sized)

  pub find_from-chain :
      (k : ℕ)
      → find_from (chain_fuel t) t k (some (get_bucket t k))
        ≡ find_line (tag_at t) k (chain cs (get_bucket t k))
  find_from-chain k =
      let b = get_bucket t k in
      find_from-find_line (chain_fuel t) t k (chain cs b) (some b) (refl, s.linked b (bucket-lt k))
        (omega (arith, chain_short b (bucket-lt k)))

  pub find_cacheline-chain :
      (k : ℕ) (should : Bool)
      → find_cacheline t k should ≡ find_line (tag_at t) k (chain cs (get_bucket t k))
  unfolding find_cacheline
  find_cacheline-chain k should = find_retry-first (2 ^ 30 - 1) t k should ∙ find_from-chain k

  pub find_cacheline_hint-chain :
      (k : ℕ)
      → find_cacheline_hint t k
        ≡ hint_result t k
            (get_bucket t k)
            (find_line (tag_at t) k (chain cs (get_bucket t k)))
            (last_of (get_bucket t k) (get_or cs (get_bucket t k) []))
  unfolding find_cacheline_hint
  find_cacheline_hint-chain k =
      let b = get_bucket t k in
      hint_from-find_line (chain_fuel t) t k b b (get_or cs b []) (s.linked b (bucket-lt k))
        (chain_short b (bucket-lt k))

  pub find_pre_cacheline-chain :
      (k end : ℕ)
      → find_pre_cacheline t k end ≡ before end (get_bucket t k) (get_or cs (get_bucket t k) [])
  unfolding find_pre_cacheline
  find_pre_cacheline-chain k end =
      let b = get_bucket t k in
      pre_from-before (chain_fuel t) t end b (get_or cs b []) (s.linked b (bucket-lt k))
        (chain_short b (bucket-lt k))

  -- No line stands in two chains.
  pub chain_apart :
      (b c x : ℕ)
      → b < t.bucket_size
      → c < t.bucket_size
      → 0 < occ x (chain cs b)
      → 0 < occ x (chain cs c)
      → b ≡ c
  unfolding occ
  chain_apart b c x hb hc m n = elim (Bool-cases (b == c)) [
    | inl e ↦ ground arith
    | inr e ↦ ground (
      arith,
      s.shared x,
      s.wide,
      tally_one (occ x) cs b [],
      tally_one (occ x) cs c [],
      tally_two (occ x) cs b c [],
    )
  ]

  -- A line of a chain is not in the pool.
  pub chain_unpooled : (b x : ℕ) → b < t.bucket_size → 0 < occ x (chain cs b) → occ x t.pool ≡ 0
  unfolding occ
  chain_unpooled b x h m = ground (arith, s.shared x, s.wide, tally_one (occ x) cs b [])

  -- A bucket is the head of its own chain, and in no other place.
  pub head_alone : (b c : ℕ) → b < t.bucket_size → c < t.bucket_size → occ b (get_or cs c []) ≡ 0
  unfolding occ
  head_alone b c h k = ground (arith, s.shared b, s.wide, tally_one (occ b) cs c [])
