-- ===== src/SharedSingleThreadCache/Drained.antt =====
-- The second loop of `flush` of include/shared_single_thread_cache.hpp.
use tri_cache.SharedSingleThreadCache.{Functions}
use tri_cache.SharedSingleThreadCache.Flush.{drain}
use tri_cache.Replacement.Policy.{Operations, IsPolicy}
use tri_cache.Base.{
  ◌∙◌, ℕ, zero, suc, ◌<◌, ◌≡◌, ◌==◌, Bool, false, Returns, arith, refl, number_some, number-update,
  number_pos, Bool-cases, inl, inr,
}

module _ {E X S W : Type 0} (ops : Operations S) (f : Functions E X W) (valid : S → Type 0)
    (bound : S → ℕ) (holds : S → ℕ → Bool) (policy : IsPolicy ops valid bound holds) where
  -- `t` holds no page.
  pub record Drains (s t : S) : Type 0 where
    pub is_valid : valid t
    pub same_bound : bound t ≡ bound s
    pub empty : (j : ℕ) → j < bound s → holds t j ≡ false

  pub drain-Drains :
      (n : ℕ) (s : S) → valid s → ops.size s < n → Returns (drain ops f n s) (Drains s)
  unfolding drain
  drain-Drains zero s fits enough = absurd (omega (arith, enough))
  drain-Drains (suc n) s fits enough = elim (Bool-cases (ops.size s == 0)) [
    | inl none_left ↦ (
      s,
      rw (drain, none_left) refl,
      record {
        is_valid = fits;
        same_bound = refl;
        empty = λ j lt.
            ground (arith, policy.sizes s fits, none_left, number_pos (holds s) (bound s) j lt);
      },
    )
    | inr some_left ↦
        let (i, lt, held) =
          number_some (holds s) (bound s) (ground (arith, policy.sizes s fits, some_left)) in
        let ((p, prefetch, t), pops, says) = policy.pops s i fits held in
        let fewer =
          number-update (holds s) (holds t) (bound s) p (policy.inside s p fits says.0)
            (λ j l other. ground (arith, says.1.reads j, other)) in
        let (r, drains, ends) = drain-Drains n t says.1.is_valid (
          ground (
            arith,
            policy.sizes s fits,
            policy.sizes t says.1.is_valid,
            says.1.same_bound,
            fewer,
            says.0,
            says.1.reads p,
            enough,
          )) in
        (
          r,
          rw (drain, some_left, pops) drains,
          record {
            is_valid = ends.is_valid;
            same_bound = ends.same_bound ∙ says.1.same_bound;
            empty = λ j l. ends.empty j (ground (arith, says.1.same_bound, l));
          },
        )
  ]
