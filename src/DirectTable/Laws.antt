-- ===== src/DirectTable/Laws.antt =====
-- `DirectPageTable` of include/page_table.hpp as a map from pages to values.
use tri_cache.DirectTable.{DirectTable, put, get, del}
use tri_cache.Base.{
  inr, inl, Bool-cases, ℕ, ◌<◌, ◌≡◌, ◌≢◌, ◌↔◌, ◌==◌, if◌then◌else◌, Bool, true, false, not, length,
  get_or-set, Option, none, some, arith, refl,
}

abbrev is_absent : {V : Type 0} → Option V → Bool
is_absent none = true
is_absent (some v) = false

module _ {V : Type 0} (eq : V → V → Bool) (eq_iff : (a b : V) → (eq a b ≡ true) ↔ (a ≡ b)) where
  -- Where `==` is equality: in a table with a value for each page, `put` of a value that is not the
  -- empty one, at a page in bounds, says whether the page had none, sets it, and changes no other page;
  -- `del` says whether the page had a value, takes it away, and changes no other page.
  pub put-del-get :
      (t : DirectTable V) (i : ℕ) (v : V)
      → length t.store ≡ t.max_vpage_id
      → i < t.max_vpage_id
      → v ≢ t.empty_value
      → ((put eq i v t).0 ≡ is_absent (get eq i t))
        × ((j : ℕ) → get eq j (put eq i v t).1 ≡ (if i == j then some v else get eq j t))
        × ((del eq i t).0 ≡ not (is_absent (get eq i t)))
        × ((j : ℕ) → get eq j (del eq i t).1 ≡ (if i == j then none else get eq j t))
  unfolding put get del
  put-del-get t i v sized lt ne =
      let inside : i < length t.store = rw sized lt in
      let full : eq v t.empty_value ≡ false = elim (Bool-cases (eq v t.empty_value)) [
        | inl e ↦ absurd (ne ((eq_iff v t.empty_value).0 e))
        | inr e ↦ e
      ] in
      let blank : eq t.empty_value t.empty_value ≡ true =
        (eq_iff t.empty_value t.empty_value).1 refl in
      (
        ground arith,
        λ j. ground (arith, get_or-set t.store i j v t.empty_value inside, full),
        ground arith,
        λ j. ground (arith, get_or-set t.store i j t.empty_value t.empty_value inside, blank),
      )
