-- ===== src/BlockAllocator/Orders.antt =====
-- `size_to_order` of include/mmap_allocator.hpp: the least block that holds a size.
use mathlib.Core.Path.{subst}
use tri_cache.BlockAllocator.{halve, size_to_order}
use Prim.Native.Nat.{bit_and, digits, min, bit_and-bitwise}
use native.Mathlib.Nat.{pow-suc, one-le-pow}
use tri_cache.Base.{
  ℕ, zero, suc, ◌+◌, ◌-◌, ◌*◌, ◌/◌, ◌%◌, ◌^◌, ◌≤◌, ◌<◌, ◌==◌, ◌≡◌, ◌≢◌, ltb, refl, arith, inl, inr,
  Bool-cases, ==_iff, sym,
}

abbrev both : ℕ → ℕ → ℕ → ℕ
both = digits (λ b. zero) min

both_self : (k n : ℕ) → n ≤ k → both k n n ≡ n
both_self zero n h = omega (arith, h)
both_self (suc k) zero h = refl
both_self (suc k) (suc n) h = ground (arith, both_self k (suc n / 2) (omega (arith, h)))

-- A number that has no digit in common with the number before it is a power of two.
both_power : (k n : ℕ) → 0 < n → n ≤ k → both k n (n - 1) ≡ 0 → (j : ℕ) × (n ≡ 2 ^ j)
both_power zero n pos h e = absurd (omega (arith, pos, h))
both_power (suc k) zero pos h e = absurd (omega (arith, pos))
both_power (suc k) (suc zero) pos h e = (0, refl)
both_power (suc k) (suc (suc m)) pos h e =
    let n = suc (suc m) in
    let digits_none : both k (n / 2) ((n - 1) / 2) * 2 + min (n % 2) ((n - 1) % 2) ≡ 0 = e in
    let high_none : both k (n / 2) ((n - 1) / 2) ≡ 0 = omega (arith, digits_none) in
    elim (Bool-cases (n % 2 == 0)) [
      | inl even ↦
          let is_even : n % 2 ≡ 0 = (==_iff (n % 2) 0).0 even in
          let half : (n - 1) / 2 ≡ n / 2 - 1 = omega (arith, is_even) in
          let rest : both k (n / 2) (n / 2 - 1) ≡ 0 = rw (← half) high_none in
          let (j, is) = both_power k (n / 2) (omega arith) (omega (arith, h)) rest in
          (suc j, omega (arith, is, is_even, pow-suc 2 j))
      | inr odd ↦
          let is_odd : n % 2 ≡ 1 = ground (arith, odd) in
          let half : (n - 1) / 2 ≡ n / 2 = omega (arith, is_odd) in
          let rest : both k (n / 2) (n / 2) ≡ 0 =
            subst (λ (d : ℕ). both k (n / 2) d ≡ 0) half high_none in
          absurd (omega (arith, rest, both_self k (n / 2) (omega (arith, h))))
    ]

both-zero : (k b : ℕ) → both k 0 b ≡ 0
both-zero zero b = refl
both-zero (suc k) b = refl

both_of_power : (k n j : ℕ) → n ≡ 2 ^ j → n ≤ k → both k n (n - 1) ≡ 0
both_of_power zero n j is h = refl
both_of_power (suc k) zero j is h = refl
both_of_power (suc k) (suc m) zero is h =
    let none_left : m ≡ 0 = omega (arith, is) in rw none_left (omega (arith, both-zero k 0))
both_of_power (suc k) (suc m) (suc i) is h =
    let n = suc m in
    let half : n / 2 ≡ 2 ^ i = omega (arith, is, pow-suc 2 i) in
    let below : (n - 1) / 2 ≡ n / 2 - 1 = omega (arith, is, pow-suc 2 i, one-le-pow i 2) in
    let rest : both k (n / 2) (n / 2 - 1) ≡ 0 = both_of_power k (n / 2) i half (omega (arith, h)) in
    let digits_none : both k (n / 2) ((n - 1) / 2) ≡ 0 = rw below rest in
    let even : n % 2 ≡ 0 = omega (arith, is, pow-suc 2 i) in
    let whole : both k (n / 2) ((n - 1) / 2) * 2 + min (n % 2) ((n - 1) % 2) ≡ 0 =
      rw (digits_none, even) (omega arith) in
    whole

-- The loop counts the halvings.
halve_lem :
    (f size order : ℕ)
    → 0 < size
    → size < 2 ^ f
    → (k : ℕ) × (halve f size order ≡ order + k) × (2 ^ k ≤ size) × (size < 2 * 2 ^ k)
unfolding halve
halve_lem zero size order pos small = absurd (omega (arith, pos, small))
halve_lem (suc f) size order pos small = elim (Bool-cases (ltb 1 size)) [
  | inl more ↦
      let (k, runs, low, high) =
        halve_lem f (size / 2) (order + 1) (ground (arith, more))
          (omega (arith, small, pow-suc 2 f)) in
      (
        suc k,
        rw more (omega (arith, runs)),
        omega (arith, pow-suc 2 k, low),
        omega (arith, pow-suc 2 k, high),
      )
  | inr last ↦ (0, rw last (omega arith), ground (arith, last), ground (arith, last))
]

-- Two powers of two, one less than twice the other.
pow_close : (j k : ℕ) → 2 ^ k ≤ 2 ^ j → 2 ^ j < 2 * 2 ^ k → 2 ^ j ≡ 2 ^ k
pow_close zero zero low high = refl
pow_close zero (suc k) low high = absurd (omega (arith, low, pow-suc 2 k, one-le-pow k 2))
pow_close (suc j) zero low high = absurd (omega (arith, high, pow-suc 2 j, one-le-pow j 2))
pow_close (suc j) (suc k) low high = omega (
  arith,
  pow-suc 2 j,
  pow-suc 2 k,
  pow_close j k (omega (arith, low, pow-suc 2 j, pow-suc 2 k))
      (omega (arith, high, pow-suc 2 j, pow-suc 2 k)),
)

-- For a size from 1 to 2^64 - 1, 2 to the power of `size_to_order` is at least the size, and less
-- than twice the size.
pub size_to_order_fits :
    (size : ℕ)
    → 0 < size
    → size < 2 ^ 64
    → (size ≤ 2 ^ size_to_order size) × (2 ^ size_to_order size < 2 * size)
unfolding size_to_order
size_to_order_fits size pos small = elim (Bool-cases (bit_and size (size - 1) == 0)) [
  | inl power ↦
      let none_both : both size size (size - 1) ≡ 0 =
        omega
          (arith, bit_and-bitwise size (size - 1), (==_iff (bit_and size (size - 1)) 0).0 power) in
      let (j, is) = both_power size size pos (omega arith) none_both in
      let (k, runs, low, high) = halve_lem 64 size 0 pos small in
      let same = pow_close j k (omega (arith, is, low)) (omega (arith, is, high)) in
      let order : halve 64 size 0 ≡ k = omega (arith, runs) in
      rw (power, order) (omega (arith, is, same), omega (arith, is, same, pos))
  | inr other ↦
      let (k, runs, low, high) = halve_lem 64 size 1 pos small in
      let order : halve 64 size 1 ≡ suc k = omega (arith, runs) in
      let strict : 2 ^ k ≢ size = λ e.
        let none_both = both_of_power size size k (sym e) (omega arith) in
        cc (
          other,
          (==_iff (bit_and size (size - 1)) 0).1
              (omega (arith, bit_and-bitwise size (size - 1), none_both)),
        ) in
      rw (other, order) (omega (arith, pow-suc 2 k, high), omega (arith, pow-suc 2 k, low, strict))
]
