-- ===== src/PageTable/Grow.antt =====
-- `create_cacheline` of include/compact_hash_page_table.hpp where the bucket has no tag and takes the new
-- one: the table after it.
use tri_cache.PageTable.Header.{empty_header}
use tri_cache.PageTable.Chain.{
  find_line-congr_test, IsChain-congr, find_line_missed, occ, next_of, tag_at, find_line,
}
use tri_cache.PageTable.Race.{empty_ppage_id}
use tri_cache.PageTable.Shape.{head_alone, in_use, bucket-lt, chain, IsLine, Shape}
use tri_cache.PageTable.Lookup.{read_entry, home, entry}
use tri_cache.PageTable.Table.{
  offset_of, tag_of, empty_pte, to_unpacked, header, get_bucket, ppage, header, empty_tag, Table,
  Line, line, set_line, empty_line,
}
use tri_cache.Base.{
  Option-cases, ==_refl, inr, [], get_or_outside, count_witness, get_or, dec_lt, ◌∙◌, inl,
  length-set, Bool-cases, get_or-set, ℕ, ◌<◌, ◌≡◌, ◌≢◌, arith, if◌then◌else◌, ◌==◌, List, length,
  Option, none, some,
}

-- A line that is not in use is blank in every slot.
pub blank_slots :
    (l : Line)
    → IsLine l
    → l.num_using ≡ 0
    → (i : ℕ) → (header l i ≡ empty_header) × (ppage l i ≡ empty_ppage_id)
blank_slots l fits none_used i = fits.blank i (elim (Bool-cases (in_use (header l i))) [
  | inl e ↦ elim (dec_lt i (length l.headers)) [
    | yes lt ↦
        absurd (omega (arith, count_witness in_use l.headers i empty_header lt e, fits.using))
    | no ge ↦ rw (get_or_outside l.headers i empty_header (omega arith))
  ]
  | inr e ↦ e
])

pub retag-IsLine : (l : Line) (k : ℕ) → IsLine l → k ≢ empty_tag → IsLine (record l { tag = k })
retag-IsLine l k fits real = record {
  eight_headers = fits.eight_headers;
  eight_pages = fits.eight_pages;
  using = fits.using;
  blank = fits.blank;
  clear = λ e. absurd (real e);
}

pub relink-IsLine : (l : Line) (q : Option ℕ) → IsLine l → IsLine (record l { next = q })
relink-IsLine l q fits = record {
  eight_headers = fits.eight_headers;
  eight_pages = fits.eight_pages;
  using = fits.using;
  blank = fits.blank;
  clear = fits.clear;
}

-- A line in use nowhere reads as an absent page.
pub to_unpacked_blank :
    (l : Line) → IsLine l → l.num_using ≡ 0 → (i : ℕ) → to_unpacked l i ≡ empty_pte
unfolding to_unpacked
to_unpacked_blank l fits z i = ground (arith, blank_slots l fits z i)

-- The head of the chain of tag `k` has no tag.
module _ {t : Table} {cs : List (List ℕ)} (s : Shape t cs) (k : ℕ) (real : k ≢ empty_tag)
    (missed : find_line (tag_at t) k (chain cs (get_bucket t k)) ≡ none) where
  abbrev pub bucket : ℕ
  bucket = get_bucket t k

  bucket_small : bucket < t.bucket_size
  bucket_small = bucket-lt s k

  other_tag : (x : ℕ) → 0 < occ x (chain cs bucket) → tag_at t x ≢ k
  other_tag x m = find_line_missed (tag_at t) k x _ missed m

  abbrev pub head_table : Table
  head_table = set_line t bucket (record (line t bucket) { tag = k })

  head_line :
      (x : ℕ)
      → line head_table x ≡ (if bucket == x then record (line t bucket) { tag = k } else line t x)
  head_line x = get_or-set t.store bucket x _ empty_line (omega (arith, bucket_small, s.sized))

  head_tag : (x : ℕ) → tag_at head_table x ≡ (if bucket == x then k else tag_at t x)
  unfolding tag_at
  head_tag x = ground (arith, head_line x)

  head_next : (x : ℕ) → next_of head_table x ≡ next_of t x
  unfolding next_of
  head_next x = ground (arith, head_line x)

  pub head-Shape : Shape head_table cs
  unfolding occ
  head-Shape = record {
    some_bucket = s.some_bucket;
    sized = length-set t.store bucket _ ∙ s.sized;
    wide = s.wide;
    linked = λ b h. rw (head_next b) (
        IsChain-congr (next_of t) _ (next_of t b) (get_or cs b []) (λ x _. head_next x)
          (s.linked b h));
    shared = s.shared;
    total = s.total;
    homes = λ b x h m ne.
        ground (arith, head_tag x, s.homes b x h m, head_alone s bucket b bucket_small h);
    live = λ b x h m. ground (arith, head_tag x, s.live b x h m);
    single = λ b x y h m n e. ground (
      arith,
      head_tag x,
      head_tag y,
      s.single b x y h m n,
      head_alone s bucket b bucket_small h,
      other_tag x,
      other_tag y,
    );
    pooled = λ x m. ground (arith, head_tag x, head_next x, s.pooled x m, s.shared x);
    lines = λ x. elim (Bool-cases (bucket == x)) [
      | inl e ↦ rw (head_line x, e) (retag-IsLine (line t bucket) k (s.lines bucket) real)
      | inr e ↦ rw (head_line x, e) (s.lines x)
    ];
  }

  module _ (untagged : tag_at t bucket ≡ empty_tag) where
    pub head_home :
        (w : ℕ)
        → tag_of w ≢ empty_tag
        → home head_table cs w ≡ (if k == tag_of w then some bucket else home t cs w)
    unfolding find_line
    head_home w w_real = elim (Bool-cases (k == tag_of w)) [
      | inl e ↦
          let same : k ≡ tag_of w = ground arith in
          rw (e, ← same, head_tag bucket, ==_refl bucket, ==_refl k)
      | inr e ↦ rw e (
          find_line-congr_test (tag_at t) (tag_at head_table) (tag_of w)
            (chain cs (get_bucket t (tag_of w))) (λ x m. ground (arith, head_tag x, untagged)))
    ]

    head_slots : (q i : ℕ) → to_unpacked (line head_table q) i ≡ to_unpacked (line t q) i
    unfolding to_unpacked
    head_slots q i = ground (arith, head_line q)

    head_blank : (i : ℕ) → to_unpacked (line head_table bucket) i ≡ empty_pte
    unfolding tag_at
    head_blank i =
        head_slots bucket i
        ∙ to_unpacked_blank (line t bucket) (s.lines bucket) ((s.lines bucket).clear untagged) i

    pub head-entry : (w : ℕ) → tag_of w ≢ empty_tag → entry head_table cs w ≡ entry t cs w
    unfolding entry read_entry
    head-entry w w_real = rw (head_home w w_real) (elim (Bool-cases (k == tag_of w)) [
      | inl e ↦
          let same : k ≡ tag_of w = ground arith in
          rw (e, ← same, missed) (head_blank (offset_of w))
      | inr e ↦ rw e (elim (Option-cases (home t cs w)) [
        | inl none_there ↦ rw none_there
        | inr (q, there) ↦ rw there (head_slots q (offset_of w))
      ])
    ])
