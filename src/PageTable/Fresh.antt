-- ===== src/PageTable/Fresh.antt =====
-- The constructor of include/compact_hash_page_table.hpp.
use tri_cache.PageTable.Table.{
  Line, get_bucket, new_pool, new_table, empty_line, tag_of, empty_tag, line, num_pack_pages,
  empty_pte,
}
use tri_cache.PageTable.Mapping.{get_pte}
use tri_cache.PageTable.Header.{empty_header}
use tri_cache.PageTable.Race.{empty_ppage_id}
use tri_cache.PageTable.Chain.{find_line, occ, tag_at, next_of}
use tri_cache.PageTable.Shape.{Shape, IsLine, in_use}
use tri_cache.PageTable.Place.{IsTable}
use tri_cache.PageTable.Lookup.{read_entry, get_pte-entry, entry, home}
use tri_cache.Base.{
  ap, ltb, ◌&&◌, leb, sym, ◌∷◌, ◌∙◌, if◌then◌else◌, ℕ, zero, suc, ◌+◌, ◌*◌, ◌<◌, ◌≡◌, ◌≢◌, refl,
  arith, length, replicate, get_or, get_or-replicate, length-replicate, count-replicate,
  tally-replicate, some, none, [], List,
}

length-new_pool : (b n : ℕ) → length (new_pool b n) ≡ n
unfolding new_pool
length-new_pool b zero = refl
length-new_pool b (suc n) = ground (arith, length-new_pool b n)

occ-new_pool : (x b n : ℕ) → occ x (new_pool b n) ≡ (if leb b x && ltb x (b + n) then 1 else 0)
unfolding new_pool occ
occ-new_pool x b zero = ground arith
occ-new_pool x b (suc n) = ground (arith, occ-new_pool x b n)

empty_line-IsLine : IsLine empty_line
unfolding empty_line
empty_line-IsLine = record {
  eight_headers = length-replicate num_pack_pages empty_header;
  eight_pages = length-replicate num_pack_pages empty_ppage_id;
  using = sym (count-replicate in_use num_pack_pages empty_header refl);
  blank = λ i _. (
    get_or-replicate num_pack_pages i empty_header,
    get_or-replicate num_pack_pages i empty_ppage_id,
  );
  clear = λ _. refl;
}

module _ (max : ℕ) (some_page : 0 < max) where
  abbrev lists : List (List ℕ)
  lists = replicate (max * 2) []

  fresh_line : (x : ℕ) → line (new_table max) x ≡ empty_line
  unfolding new_table
  fresh_line x = get_or-replicate (max * 2 + max) x empty_line

  fresh_chain : (b : ℕ) → get_or lists b [] ≡ []
  fresh_chain b = get_or-replicate (max * 2) b []

  fresh_tag : (x : ℕ) → tag_at (new_table max) x ≡ empty_tag
  unfolding tag_at empty_line
  fresh_tag x = ap (λ (l : Line). l.tag) (fresh_line x)

  fresh_next : (x : ℕ) → next_of (new_table max) x ≡ none
  unfolding next_of empty_line
  fresh_next x = ap (λ (l : Line). l.next) (fresh_line x)

  fresh_occ : (b x : ℕ) → 0 < occ x (b ∷ get_or lists b []) → x ≡ b
  unfolding occ
  fresh_occ b x m = ground (arith, fresh_chain b)

  pub new_table-Shape : Shape (new_table max) lists
  unfolding new_table occ
  new_table-Shape = record {
    some_bucket = omega arith;
    sized = length-replicate (max * 2 + max) empty_line;
    wide = length-replicate (max * 2) [];
    linked = λ b h. rw (fresh_chain b) (fresh_next b);
    shared = λ x.
        ground (arith, tally-replicate (occ x) (max * 2) [] refl, occ-new_pool x (max * 2) max);
    total = omega (
      arith,
      tally-replicate {A = List ℕ} length (max * 2) [] refl,
      length-new_pool (max * 2) max,
    );
    homes = λ b x h m ne. absurd (ne (fresh_tag x));
    live = λ b x h m. absurd (ground (arith, fresh_chain b));
    single = λ b x y h m n e. fresh_occ b x m ∙ sym (fresh_occ b y n);
    pooled = λ x m. (fresh_tag x, fresh_next x);
    lines = λ x. rw (fresh_line x) empty_line-IsLine;
  }

  pub fresh_home : (v : ℕ) → tag_of v ≢ empty_tag → home (new_table max) lists v ≡ none
  unfolding find_line
  fresh_home v real = ground (
    arith,
    fresh_chain (get_bucket (new_table max) (tag_of v)),
    fresh_tag (get_bucket (new_table max) (tag_of v)),
  )

  -- For at least one frame, the constructor makes a table in good shape, in which all pages with a tag
  -- that is not the empty one are absent.
  pub new_table-IsTable :
      IsTable (new_table max)
      × ((v : ℕ) → tag_of v ≢ empty_tag → get_pte (new_table max) v none ≡ some empty_pte)
  unfolding entry read_entry
  new_table-IsTable =
      ((lists, new_table-Shape), λ v real. get_pte-entry new_table-Shape v ∙ rw (fresh_home v real))
