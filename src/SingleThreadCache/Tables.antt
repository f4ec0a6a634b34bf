-- ===== src/SingleThreadCache/Tables.antt =====
-- `DirectPageTable` of include/page_table.hpp as the page table of include/single_thread_cache.hpp, and
-- the constructor of the cache.
use tri_cache.SingleThreadCache.{Map, IsMap}
use tri_cache.SingleThreadCache.Process.{no_state, state_at}
use tri_cache.SingleThreadCache.Methods.{new_cache}
use tri_cache.SingleThreadCache.Invariant.{IsCache, pages_of}
use tri_cache.SharedSingleThreadCache.{Functions, State, empty_vpage_id}
use tri_cache.SharedSingleThreadCache.Frames.{pinned_frame}
use tri_cache.DirectTable
use tri_cache.DirectTable.{DirectTable, new_direct, value}
use tri_cache.Replacement.Policy.{Operations}
use tri_cache.PageTable.Chain.{occ}
use tri_cache.PageTable.Table.{Pte, empty_pte}
use tri_cache.Base.{
  ℕ, ◌+◌, ◌^◌, ◌<◌, ◌≡◌, ◌≢◌, ◌==◌, ◌&&◌, Bool, true, false, bool_eq, none, length, get_or-set,
  length-set, get_or-replicate, length-replicate, refl, sym, arith, ◌∙◌, number_never,
}

-- `operator==` of the state that is not compact
abbrev pub state_eq : Pte → Pte → Bool
state_eq a b = a.ppage_id == b.ppage_id && bool_eq a.exist b.exist

abbrev pub direct_map : Map (DirectTable Pte) Pte
direct_map = record {
  get = DirectTable.get state_eq;
  put = λ i v t. (DirectTable.put state_eq i v t).1;
  del = λ i t. (DirectTable.del state_eq i t).1;
}

-- A table of `n` pages with `page_table_state_type()` as its empty value.
pub record Fits (n : ℕ) (t : DirectTable Pte) : Type 0 where
  pub sized : length t.store ≡ n
  pub blank : t.empty_value ≡ no_state

-- `DirectPageTable` for `n` pages, with the `operator==` of the state that is not compact and the
-- state without a value as its empty one, is a map on the pages below `n` for the states that
-- exist: `get` after `put` and after `del` is what a map has, and the table keeps its size and
-- empty value.
pub direct_map-IsMap : (n : ℕ) → IsMap direct_map (Fits n) (λ v. v < n) (λ e. e.exist ≡ true)
unfolding DirectTable.get DirectTable.put DirectTable.del
direct_map-IsMap n = record {
  put-get = λ t i v fits lt here. (
    record { sized = length-set t.store i v ∙ fits.sized; blank = fits.blank },
    λ j.
        ground (arith, get_or-set t.store i j v t.empty_value (rw fits.sized lt), fits.blank, here),
  );
  del-get = λ t i fits lt. (
    record { sized = length-set t.store i t.empty_value ∙ fits.sized; blank = fits.blank },
    λ j.
        ground (
          arith,
          get_or-set t.store i j t.empty_value t.empty_value (rw fits.sized lt),
          fits.blank,
        ),
  );
}

pub new_direct-Fits :
    (n : ℕ)
    → Fits n (new_direct n no_state) × ((v : ℕ) → direct_map.get v (new_direct n no_state) ≡ none)
unfolding DirectTable.get new_direct
new_direct-Fits n = (
  record { sized = length-replicate n no_state; blank = refl },
  λ v. ground (arith, get_or-replicate n v no_state),
)

module _ {E X S T W : Type 0} (ops : Operations S) (map : Map T Pte) (f : Functions E X W)
    (ref_bits : ℕ) (unset : Pte) (valid : S → Type 0) (bound : S → ℕ) (holds : S → ℕ → Bool)
    (fits : T → Type 0) (InTable : ℕ → Type 0) where
  fresh_page :
      (max : ℕ) (t : T) (r : S) (w : W) (j : ℕ)
      → (state_at ops map f ref_bits unset
          (new_cache ops map f ref_bits unset max t r w)
          j).vpage_id
        ≡ empty_vpage_id
  unfolding new_cache
  fresh_page max t r w j =
      let none_here : State E = record { vpage_id = empty_vpage_id; external = f.new_external } in
      rw (get_or-replicate max j none_here) refl

  pub fresh-IsCache :
      (max : ℕ) (t : T) (r : S) (w : W)
      → 1 < 2 ^ ref_bits
      → max + 1 < 2 ^ 64
      → ((v : ℕ) → InTable v → v ≢ empty_vpage_id)
      → fits t
      → ((v : ℕ) → map.get v t ≡ none)
      → valid r
      → bound r ≡ max
      → ((j : ℕ) → j < max → holds r j ≡ false)
      → IsCache ops map f ref_bits unset valid bound holds fits InTable
          (new_cache ops map f ref_bits unset max t r w)
          (λ _. empty_pte)
  unfolding new_cache occ
  fresh-IsCache max t r w wide small real t_fits blank r_valid same empty =
      let c = new_cache ops map f ref_bits unset max t r w in
      let none_used = λ (j : ℕ). fresh_page max t r w j in
      record {
        table = t_fits;
        reads = λ v page. blank v;
        sized = length-replicate max _;
        small = small;
        is_valid = r_valid;
        bounded = same;
        frames = record {
          real = real;
          mapped = λ v page here. absurd cc;
          absent = λ v page here. refl;
          unlocked = λ v page. refl;
          counted = λ v page. omega (arith, wide);
          owner = λ j lt in_use. absurd (ground (arith, none_used j, in_use));
          evictable = λ j lt. ground (arith, none_used j, empty j lt);
          spare = λ j lt. ground (arith, none_used j);
          recycled = λ j lt. refl;
          taken = omega arith;
          tallied = sym (
              number_never
                (pinned_frame (pages_of ops map f ref_bits unset valid bound holds fits InTable c)
                  (λ _. empty_pte))
                max (λ j lt. ground (arith, none_used j)));
        };
      }
