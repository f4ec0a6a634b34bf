-- ===== src/PrivateCache/Fresh.antt =====
-- The constructor of include/private_cache.hpp.
use tri_cache.PrivateCache.{functions, new_private_cache}
use tri_cache.PrivateCache.Shared.{IsShared}
use tri_cache.PrivateCache.Holds.{Keeps}
use tri_cache.SharedSingleThreadCache.{Context}
use tri_cache.SharedSingleThreadCache.Methods.{new_cache}
use tri_cache.SharedSingleThreadCache.Fresh.{new_cache-IsCache}
use tri_cache.PageTable.Race.{empty_ppage_id}
use tri_cache.PageTable.Table.{empty_pte}
use tri_cache.DirectCache.{Below}
use tri_cache.Replacement.Policy.{Operations}
use tri_cache.Partitioner.{RoundRobin, page_at}
use tri_cache.Base.{ℕ, ◌<◌, ◌≡◌, Bool, false}

module _ {P S W : Type 0} (ops : Operations S) (below : Below P W) (null : P) (fresh : Context P ℕ)
    (new_policy : ℕ → S) (valid : S → Type 0) (bound : S → ℕ) (holds : S → ℕ → Bool)
    (shared : IsShared below) where
  pub new_private_cache-Keeps :
      (num_vpages : ℕ) (r : RoundRobin) (max : ℕ) (w : W)
      → 0 < max
      → max < empty_ppage_id
      → valid (new_policy max)
      → bound (new_policy max) ≡ max
      → ((j : ℕ) → j < max → holds (new_policy max) j ≡ false)
      → ((q : ℕ) → shared.pins w q ≡ 0)
      → Keeps ops below null valid bound holds shared
          (new_private_cache ops below null fresh new_policy num_vpages r max w)
          (λ k b. empty_pte)
  unfolding new_private_cache new_cache
  new_private_cache-Keeps num_vpages r max w some_frame small fits same empty unpinned = record {
    each = λ k lt. record {
      in_shape =
          new_cache-IsCache ops (functions below null r k) valid bound holds max (new_policy max) w
            some_frame small fits same empty;
      counted = λ b page. unpinned (page_at r k b);
      pointers = λ b page here. absurd cc;
    };
  }
