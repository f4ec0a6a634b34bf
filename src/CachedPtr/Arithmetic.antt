-- ===== src/CachedPtr/Arithmetic.antt =====
-- The arithmetic and the order of include/cached_ptr.hpp.
use mathlib.Core.Path.{subst}
use tri_cache.CachedPtr.{
  CachedPtr, word, add, sub, increment, decrement, quotient, signed, difference, equal, less,
  greater, less_equal, greater_equal,
}
use native.Mathlib.Nat.{mul-div_cancel, le-mul_of_pos_right}
use tri_cache.Base.{
  ℕ, ◌+◌, ◌-◌, ◌*◌, ◌/◌, ◌%◌, ◌^◌, ◌<◌, ◌≤◌, ◌≡◌, ◌↔◌, true, false, arith, refl, ℤ, pos, negsuc, ap,
  some, not, sub_ℕ, ltb, zero, suc,
}

-- `-` undoes `+` and `+` undoes `-`, at every difference, and one step is `++` or `--`.
pub sub-add :
    (size : ℕ) (p : CachedPtr) (diff : ℤ)
    → p.offset < 2 ^ 64
    → 0 < size
    → size < 2 ^ 64
    → (sub size (add size p diff) diff ≡ p)
      × (add size (sub size p diff) diff ≡ p)
      × (add size p (pos 1) ≡ increment size p)
      × (add size p (negsuc 0) ≡ decrement size p)
unfolding sub add increment decrement
sub-add size p diff small pos_size small_size =
    let d = word diff * size in
    let back : ((p.offset + d) % 2 ^ 64 + (2 ^ 64 - d % 2 ^ 64)) % 2 ^ 64 ≡ p.offset =
      omega (arith, small) in
    let forth : ((p.offset + (2 ^ 64 - d % 2 ^ 64)) % 2 ^ 64 + d) % 2 ^ 64 ≡ p.offset =
      omega (arith, small) in
    (
      rw back refl,
      rw forth refl,
      ap (λ (o : ℕ). record p { offset = o }) (omega arith),
      ap (λ (o : ℕ). record p { offset = o }) (omega (arith, small_size)),
    )

-- The signed number of a difference below 0.
before :
    (size n : ℕ)
    → n * size / size ≡ n
    → n * size < 2 ^ 63
    → 0 < size
    → quotient (signed ((2 ^ 64 - n * size) % 2 ^ 64)) size ≡ sub_ℕ 0 n
before size zero whole fits pos_size =
    let none_before : 0 * size ≡ 0 = omega arith in
    let none_left : 0 / size ≡ 0 = subst (λ (d : ℕ). d / size ≡ 0) none_before whole in
    rw none_before (ap pos none_left)
before size (suc m) whole fits pos_size =
    let d = suc m * size in
    let le : suc m ≤ d = le-mul_of_pos_right (suc m) pos_size in
    let small : (2 ^ 64 - d) % 2 ^ 64 ≡ 2 ^ 64 - d = omega (arith, le) in
    let negative : ltb (2 ^ 64 - d) (2 ^ 63) ≡ false = ground (arith, le, fits) in
    let back : 2 ^ 64 - 1 - (2 ^ 64 - d) + 1 ≡ d = omega (arith, le, fits) in
    rw (small, negative, back, whole) refl

-- For elements of at least one byte and `n` of them that are less than 2^63 bytes: `(p + n) - p` is
-- `n` and `p - (p + n)` is `-n`, also where the offset wraps.
pub difference-add :
    (size n : ℕ) (p : CachedPtr)
    → 0 < size
    → n * size < 2 ^ 63
    → p.offset < 2 ^ 64
    → (difference size (add size p (pos n)) p ≡ pos n)
      × (difference size p (add size p (pos n)) ≡ sub_ℕ 0 n)
unfolding difference add
difference-add size n p pos_size fits small =
    let le : n ≤ n * size = le-mul_of_pos_right n pos_size in
    let word_n : n % 2 ^ 64 ≡ n = omega (arith, le, fits) in
    let up : ((p.offset + n * size) % 2 ^ 64 + 2 ^ 64 - p.offset) % 2 ^ 64 ≡ n * size =
      omega (arith, fits, small) in
    let whole : n * size / size ≡ n = mul-div_cancel n pos_size in
    let near : ltb (n * size) (2 ^ 63) ≡ true = ground (arith, fits) in
    let down : (p.offset + 2 ^ 64 - (p.offset + n * size) % 2 ^ 64) % 2 ^ 64
        ≡ (2 ^ 64 - n * size) % 2 ^ 64 =
      omega (arith, fits, small) in
    (rw (word_n, up, near, whole) refl, rw (word_n, down) (before size n whole fits pos_size))

-- For two pointers of one cache, `<=` is not `>`, `>=` is not `<`, and `==` holds exactly where the
-- pointers are the same.
pub order :
    (c : ℕ) (p q : CachedPtr)
    → p.cache ≡ some c
    → q.cache ≡ some c
    → (less_equal p q ≡ not (greater p q))
      × (greater_equal p q ≡ not (less p q))
      × ((equal p q ≡ true) ↔ (p ≡ q))
unfolding less equal greater less_equal greater_equal
order c p q of_p of_q = (
  ground (arith, of_p, of_q),
  ground (arith, of_p, of_q),
  (
    λ e.
        let same : p.offset ≡ q.offset = ground (arith, e, of_p, of_q) in
        ground (arith, same, of_p, of_q),
    λ e.
        let same : p.offset ≡ q.offset = ap (λ (r : CachedPtr). r.offset) e in
        ground (arith, same, of_p, of_q),
  ),
)
