-- ===== src/SharedSingleThreadCache/Fresh.antt =====
-- The constructor of include/shared_single_thread_cache.hpp.
use tri_cache.SharedSingleThreadCache.{Functions, State, empty_vpage_id}
use tri_cache.SharedSingleThreadCache.Process.{state_at}
use tri_cache.SharedSingleThreadCache.Methods.{new_cache}
use tri_cache.SharedSingleThreadCache.Frames.{pinned_frame}
use tri_cache.SharedSingleThreadCache.Invariant.{IsCache, pages_of}
use tri_cache.Replacement.Policy.{Operations}
use tri_cache.PageTable.Race.{empty_ppage_id}
use tri_cache.PageTable.Fresh.{new_table-IsTable}
use tri_cache.PageTable.Chain.{occ}
use tri_cache.PageTable.Table.{empty_pte}
use tri_cache.Base.{
  ℕ, ◌<◌, ◌≡◌, Bool, false, arith, refl, get_or-replicate, length-replicate, number_never, sym,
}

module _ {E X S W : Type 0} (ops : Operations S) (f : Functions E X W) (valid : S → Type 0)
    (bound : S → ℕ) (holds : S → ℕ → Bool) where
  fresh_page :
      (max : ℕ) (r : S) (w : W) (j : ℕ)
      → (state_at ops f (new_cache ops f max r w) j).vpage_id ≡ empty_vpage_id
  unfolding new_cache
  fresh_page max r w j =
      let none_here : State E = record { vpage_id = empty_vpage_id; external = f.new_external } in
      rw (get_or-replicate max j none_here) refl

  -- For at least one frame and less than EMPTY_PPAGE_ID, with a valid and empty replacement policy
  -- for as many, the constructor makes a cache in good shape in which no page is mapped.
  pub new_cache-IsCache :
      (max : ℕ) (r : S) (w : W)
      → 0 < max
      → max < empty_ppage_id
      → valid r
      → bound r ≡ max
      → ((j : ℕ) → j < max → holds r j ≡ false)
      → IsCache ops f valid bound holds (new_cache ops f max r w) (λ _. empty_pte)
  unfolding new_cache occ
  new_cache-IsCache max r w some_frame small fits same empty =
      let c = new_cache ops f max r w in
      let none_used = λ (j : ℕ). fresh_page max r w j in
      record {
        table = (new_table-IsTable max some_frame).0;
        reads = λ v page. (new_table-IsTable max some_frame).1 v (omega (arith, page));
        sized = length-replicate max _;
        small = small;
        is_valid = fits;
        bounded = same;
        pinned = 0;
        pinned_pos = refl;
        frames = record {
          real = λ v page. omega (arith, page);
          mapped = λ v page here. absurd cc;
          absent = λ v page here. refl;
          unlocked = λ v page. refl;
          counted = λ v page. omega arith;
          owner = λ j lt in_use. absurd (ground (arith, none_used j, in_use));
          evictable = λ j lt. ground (arith, none_used j, empty j lt);
          spare = λ j lt. ground (arith, none_used j);
          recycled = λ j lt. refl;
          taken = omega arith;
          tallied = sym (
              number_never (pinned_frame (pages_of ops f valid bound holds c) (λ _. empty_pte)) max
                (λ j lt. ground (arith, none_used j)));
        };
      }
