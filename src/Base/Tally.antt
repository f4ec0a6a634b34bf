-- ===== src/Base/Tally.antt =====
-- Weighted sums over a list, and what one write does to them.
use Prim.Native.Nat.{ℕ, zero, suc, ◌+◌, ◌≤◌, ◌<◌}
use mathlib.Core.Path.{◌≡◌, refl}
use mathlib.Core.Logic.{◌≢◌}
use mathlib.Core.List.{List, [], ◌∷◌}
use native.Mathlib.Omega.{arith}
use tri_cache.Base.Lists.{length, get_or, set, replicate}

module _ {ℓ} {A : Type ℓ} (w : A → ℕ) where
  unfoldable pub tally : List A → ℕ
  tally [] = 0
  tally (x ∷ xs) = w x + tally xs

  pub tally-set :
      (xs : List A) (i : ℕ) (v d : A)
      → i < length xs
      → tally (set xs i v) + w (get_or xs i d) ≡ tally xs + w v
  unfolding tally set get_or
  tally-set [] i v d h = absurd (omega arith)
  tally-set (x ∷ xs) zero v d h = omega arith
  tally-set (x ∷ xs) (suc i) v d h = omega (arith, tally-set xs i v d (omega arith))

  pub tally_one : (xs : List A) (i : ℕ) (d : A) → i < length xs → w (get_or xs i d) ≤ tally xs
  unfolding tally get_or
  tally_one [] i d h = absurd (omega arith)
  tally_one (x ∷ xs) zero d h = omega arith
  tally_one (x ∷ xs) (suc i) d h = omega (arith, tally_one xs i d (omega arith))

  -- Two places count twice.
  pub tally_two :
      (xs : List A) (i j : ℕ) (d : A)
      → i < length xs
      → j < length xs
      → i ≢ j
      → w (get_or xs i d) + w (get_or xs j d) ≤ tally xs
  unfolding tally get_or
  tally_two [] i j d h k n = absurd (omega arith)
  tally_two (x ∷ xs) zero zero d h k n = absurd (n refl)
  tally_two (x ∷ xs) zero (suc j) d h k n = omega (arith, tally_one xs j d (omega arith))
  tally_two (x ∷ xs) (suc i) zero d h k n = omega (arith, tally_one xs i d (omega arith))
  tally_two (x ∷ xs) (suc i) (suc j) d h k n =
      omega (arith, tally_two xs i j d (omega arith) (omega arith) (omega arith))

  pub tally-replicate : (n : ℕ) (a : A) → w a ≡ 0 → tally (replicate n a) ≡ 0
  unfolding tally replicate
  tally-replicate zero a h = refl
  tally-replicate (suc n) a h = omega (arith, tally-replicate n a h)

  pub tally-le-length : ((a : A) → w a ≤ 1) → (xs : List A) → tally xs ≤ length xs
  unfolding tally
  tally-le-length small [] = omega arith
  tally-le-length small (x ∷ xs) = omega (arith, small x, tally-le-length small xs)

pub tally-add_le {ℓ} :
    {A : Type ℓ} (v w : A → ℕ)
    → ((a : A) → v a + w a ≤ 1)
    → (xs : List A) → tally v xs + tally w xs ≤ length xs
unfolding tally
tally-add_le v w small [] = omega arith
tally-add_le v w small (x ∷ xs) = omega (arith, small x, tally-add_le v w small xs)

pub tally-le_of_le {ℓ} :
    {A : Type ℓ} (v w : A → ℕ) → ((a : A) → v a ≤ w a) → (xs : List A) → tally v xs ≤ tally w xs
unfolding tally
tally-le_of_le v w small [] = omega arith
tally-le_of_le v w small (x ∷ xs) = omega (arith, small x, tally-le_of_le v w small xs)
