-- ===== src/Partitioner/Laws.antt =====
-- Pages and blocks of include/partitioner.hpp.
use tri_cache.Partitioner.{RoundRobin, locate, num_blocks, page_at}
use tri_cache.Base.{
  ℕ, zero, suc, ◌+◌, ◌*◌, ◌/◌, ◌%◌, ◌<◌, ◌≤◌, ◌≡◌, ◌↔◌, arith, ap, if◌then◌else◌, ltb, dec_lt,
}
use native.Mathlib.Nat.{
  div-add-mod, mod-lt, mul-le-mul_left, mul-add-mod_self_right, mod-eq_of_lt, mul-add-div_right,
  div-eq_of_lt,
}

-- Numbers in base `n` compare by their first digits.
digits_lt :
    (n q r b c : ℕ) → r < n → c < n → (n * q + r < n * b + c) ↔ (q < b + (if ltb r c then 1 else 0))
digits_lt n q r b c small tiny = elim (dec_lt q b) [
  | yes less ↦
      let far : n * suc q ≤ n * b = mul-le-mul_left n less in
      (λ _. ground arith, λ _. grind (arith, far))
  | no ge ↦ elim (dec_lt b q) [
    | yes more ↦
        let far : n * suc b ≤ n * q = mul-le-mul_left n more in
        (λ h. absurd (grind (arith, far, h)), λ h. absurd (ground arith))
    | no le ↦ let same : q ≡ b = omega arith in rw same (λ h. ground arith, λ h. ground arith)
  ]
]

module _ (r : RoundRobin) (some_partition : 0 < r.num_partitions) where
  -- Every page below `num_vpages` is in a partition below `num_partitions`, in one of the partition's
  -- blocks, and is the page of that block; there is at least one partition.
  pub page_at-locate :
      (v : ℕ)
      → v < r.num_vpages
      → (page_at r (locate r v).0 (locate r v).1 ≡ v)
        × ((locate r v).0 < r.num_partitions)
        × ((locate r v).1 < num_blocks r (locate r v).0)
  unfolding page_at locate num_blocks
  page_at-locate v lt =
      let n = r.num_partitions in
      let whole = div-add-mod v n in
      let pages = div-add-mod r.num_vpages n in
      (
        grind (arith, whole),
        mod-lt v some_partition,
        (digits_lt n (v / n) (v % n) (r.num_vpages / n) (r.num_vpages % n) (mod-lt v some_partition)
              (mod-lt r.num_vpages some_partition)).0
            (rw (whole, pages) lt),
      )

  -- Every block of a partition is a page below `num_vpages`, which is located there; there is at least
  -- one partition.
  pub locate-page_at :
      (p b : ℕ)
      → p < r.num_partitions
      → b < num_blocks r p
      → (locate r (page_at r p b) ≡ (p, b)) × (page_at r p b < r.num_vpages)
  unfolding page_at locate num_blocks
  locate-page_at p b lt in_blocks =
      let n = r.num_partitions in
      let pages = div-add-mod r.num_vpages n in
      let below =
        (digits_lt n b p (r.num_vpages / n) (r.num_vpages % n) lt
            (mod-lt r.num_vpages some_partition)).1
          in_blocks in
      (
        rw
            (
              mul-add-mod_self_right b n p,
              mul-add-div_right some_partition b p,
              mod-eq_of_lt lt,
              div-eq_of_lt lt,
            )
            (ap (λ c. (p, c)) (omega arith)),
        grind (arith, below, pages),
      )

-- The blocks of the first `m` partitions.
unfoldable pub blocks_of : RoundRobin → ℕ → ℕ
blocks_of r zero = 0
blocks_of r (suc m) = blocks_of r m + num_blocks r m

blocks_of-sum :
    (r : RoundRobin) (m : ℕ)
    → blocks_of r m
      ≡ (r.num_vpages / r.num_partitions) * m
        + (if ltb m (r.num_vpages % r.num_partitions) then m else r.num_vpages % r.num_partitions)
unfolding blocks_of num_blocks
blocks_of-sum r zero = ground arith
blocks_of-sum r (suc m) = let rest = blocks_of-sum r m in grind (arith, rest)

-- With at least one partition, the partitions' numbers of blocks add up to the number of pages.
pub blocks_of-all :
    (r : RoundRobin) → 0 < r.num_partitions → blocks_of r r.num_partitions ≡ r.num_vpages
blocks_of-all r some_partition = grind (
  arith,
  blocks_of-sum r r.num_partitions,
  div-add-mod r.num_vpages r.num_partitions,
  mod-lt r.num_vpages some_partition,
)
