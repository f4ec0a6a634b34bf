-- ===== src/PageTable/Header/Packing.antt =====
-- The word and the fields of a `pte_header` of include/compact_hash_page_table.hpp. A compare-exchange
-- compares words.
use tri_cache.Base.{ℕ, ◌^◌, ◌<◌, ◌≡◌, arith, ap, sym, ◌∙◌, ◌↔◌}
use tri_cache.PageTable.Header.{Header, as_packed, from_packed}

-- Every header with a counter of 13 bits fits the 16-bit word, and is read back from it.
pub from_packed-as_packed :
    (h : Header) → h.ref_count < 2 ^ 13 → (as_packed h < 2 ^ 16) × (from_packed (as_packed h) ≡ h)
unfolding as_packed from_packed
from_packed-as_packed h lt = (ground arith, ground arith)

-- Every 16-bit word is read as a header with a counter of 13 bits that packs to that word.
pub as_packed-from_packed :
    (w : ℕ) → w < 2 ^ 16 → ((from_packed w).ref_count < 2 ^ 13) × (as_packed (from_packed w) ≡ w)
unfolding as_packed from_packed
as_packed-from_packed w lt = (ground arith, ground arith)

-- Two headers with counters of 13 bits are equal exactly when their words are.
as_packed_injective :
    (g h : Header)
    → g.ref_count < 2 ^ 13
    → h.ref_count < 2 ^ 13
    → (as_packed g ≡ as_packed h) ↔ (g ≡ h)
as_packed_injective g h p q = (
  λ e. sym (from_packed-as_packed g p).1 ∙ ap from_packed e ∙ (from_packed-as_packed h q).1,
  λ e. ap as_packed e,
)
