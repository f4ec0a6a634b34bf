-- ===== src/Base/Number.antt =====
-- How many numbers below a bound pass a test.
use Prim.Native.Nat.{ℕ, zero, suc, ◌+◌, ◌≤◌, ◌<◌}
use mathlib.Core.Path.{◌≡◌, refl}
use mathlib.Core.Logic.{◌≢◌, inl, inr}
use mathlib.Core.Bool.{Bool, true, false}
use native.Mathlib.Omega.{arith}
use native.Mathlib.Decide.{ℕ_discrete}
use tri_cache.Base.Tests.{if◌then◌else◌, Bool-cases}

unfoldable pub number : (ℕ → Bool) → ℕ → ℕ
number f zero = 0
number f (suc n) = (if f n then 1 else 0) + number f n

pub number-congr :
    (f g : ℕ → Bool) (n : ℕ) → ((i : ℕ) → i < n → g i ≡ f i) → number g n ≡ number f n
unfolding number
number-congr f g zero same = refl
number-congr f g (suc n) same =
    ground (arith, same n, number-congr f g n (λ i lt. same i (omega arith)))

-- The test changes at one number.
pub number-update :
    (f g : ℕ → Bool) (n p : ℕ)
    → p < n
    → ((i : ℕ) → i < n → i ≢ p → g i ≡ f i)
    → number g n + (if f p then 1 else 0) ≡ number f n + (if g p then 1 else 0)
unfolding number
number-update f g zero p lt same = absurd (omega arith)
number-update f g (suc n) p lt same = elim (ℕ_discrete p n) [
  | yes e ↦
      let rest = number-congr f g n (λ i l. same i (omega arith) (omega arith)) in
      rw e (omega (arith, rest))
  | no ne ↦
      let rest = number-update f g n p (omega arith) (λ i l d. same i (omega arith) d) in
      let here = same n (omega arith) (λ z. ne (omega arith)) in rw here (omega (arith, rest))
]

pub number_missing : (f : ℕ → Bool) (n : ℕ) → number f n < n → (i : ℕ) × (i < n) × (f i ≡ false)
unfolding number
number_missing f zero lt = absurd (omega arith)
number_missing f (suc n) lt = elim (Bool-cases (f n)) [
  | inr e ↦ (n, omega arith, e)
  | inl e ↦ let (i, l, z) = number_missing f n (ground (arith, lt)) in (i, omega arith, z)
]

pub number-le : (f : ℕ → Bool) (n : ℕ) → number f n ≤ n
unfolding number
number-le f zero = omega arith
number-le f (suc n) = ground (arith, number-le f n)

pub number_full : (f : ℕ → Bool) (n i : ℕ) → n ≤ number f n → i < n → f i ≡ true
unfolding number
number_full f zero i all lt = absurd (omega arith)
number_full f (suc n) i all lt = elim (ℕ_discrete i n) [
  | yes e ↦ rw e (ground (arith, number-le f n, all))
  | no ne ↦ number_full f n i (ground (arith, all)) (omega arith)
]

pub number_pos : (f : ℕ → Bool) (n i : ℕ) → i < n → f i ≡ true → 0 < number f n
unfolding number
number_pos f zero i lt e = absurd (omega arith)
number_pos f (suc n) i lt e = elim (ℕ_discrete i n) [
  | yes same ↦ let here : f n ≡ true = rw (← same) e in ground (arith, here)
  | no ne ↦ omega (arith, number_pos f n i (omega arith) e)
]

pub number_some : (f : ℕ → Bool) (n : ℕ) → 0 < number f n → (i : ℕ) × (i < n) × (f i ≡ true)
unfolding number
number_some f zero some_left = absurd (omega (arith, some_left))
number_some f (suc n) some_left = elim (Bool-cases (f n)) [
  | inl e ↦ (n, omega arith, e)
  | inr e ↦ let (i, l, z) = number_some f n (ground (arith, some_left)) in (i, omega arith, z)
]

pub number_never : (f : ℕ → Bool) (n : ℕ) → ((i : ℕ) → i < n → f i ≡ false) → number f n ≡ 0
unfolding number
number_never f zero none_passes = refl
number_never f (suc n) none_passes =
    ground (arith, none_passes n, number_never f n (λ i lt. none_passes i (omega arith)))
