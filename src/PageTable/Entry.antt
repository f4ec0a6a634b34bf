-- ===== src/PageTable/Entry.antt =====
-- A page's entry in include/compact_hash_page_table.hpp, with a hint and without, and its line.
use tri_cache.PageTable.Place.{IsTable, At, tag-found}
use tri_cache.PageTable.Lookup.{home}
use tri_cache.PageTable.Shape.{find_cacheline_hint-chain, find_cacheline-chain}
use tri_cache.PageTable.Chain.{hint_result, tag_at}
use tri_cache.PageTable.Mapping.{find_or_create_hint, get_pte, find_hint}
use tri_cache.PageTable.Table.{find_cacheline_hint, Table, Pte, tag_of, empty_pte}
use tri_cache.Base.{
  ℕ, ◌≡◌, ◌∙◌, sym, Option, none, some, true, false, inl, inr, Option-cases, arith, refl,
}

-- The hint does not change what is read.
pub get_pte-hint :
    {t : Table} {v p : ℕ} {hint : Option ℕ} → At t v p hint → get_pte t v hint ≡ get_pte t v none
unfolding get_pte find_hint tag_at
get_pte-hint at = ground (arith, at.found, at.hinted, tag-found at)

-- A page with no line is absent.
pub get_pte_unlined :
    {t : Table} → IsTable t → (v : ℕ) → find_hint t v ≡ none → get_pte t v none ≡ some empty_pte
unfolding get_pte find_hint
get_pte_unlined table v e = ground (arith, e)

-- So a page that is mapped has a line.
pub line_of_mapped :
    {t : Table} {e : Pte}
    → IsTable t
    → (v : ℕ) → get_pte t v none ≡ some e
    → e.exist ≡ true
    → (p : ℕ) × (find_hint t v ≡ some p)
line_of_mapped {t} table v read here = elim (Option-cases (find_hint t v)) [
  | inl none_found ↦ absurd (ground (arith, get_pte_unlined table v none_found))
  | inr found ↦ found
]

-- The line of a page that has one is not created again.
pub find_or_create_hint_found :
    {t : Table}
    → IsTable t
    → (v p : ℕ) → find_hint t v ≡ some p
    → find_or_create_hint t v ≡ some (p, t)
unfolding find_or_create_hint find_hint hint_result
find_or_create_hint_found {t} table v p found =
    let home_found : home t table.0 v ≡ some p =
      sym (find_cacheline-chain table.1 (tag_of v) false) ∙ found in
    let hinted : find_cacheline_hint t (tag_of v) ≡ (true, some p) =
      find_cacheline_hint-chain table.1 (tag_of v) ∙ rw home_found refl in
    rw hinted refl
