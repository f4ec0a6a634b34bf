-- ===== src/Partitioner.antt =====
-- include/partitioner.hpp, class `RoundRobinPartitioner`.
pub mod Laws
use tri_cache.Base.{ℕ, ◌+◌, ◌*◌, ◌/◌, ◌%◌, if◌then◌else◌, ltb}

pub record RoundRobin : Type 0 where
  pub num_partitions : ℕ
  pub num_vpages : ℕ

-- `operator()(vpage_id)`: the partition and the block in it
unfoldable pub locate : RoundRobin → ℕ → ℕ × ℕ
locate r vpage_id = (vpage_id % r.num_partitions, vpage_id / r.num_partitions)

unfoldable pub num_blocks : RoundRobin → ℕ → ℕ
num_blocks r partition_id =
    r.num_vpages / r.num_partitions
    + (if ltb partition_id (r.num_vpages % r.num_partitions) then 1 else 0)

-- `operator()(partition_id, block_id)`: the page
unfoldable pub page_at : RoundRobin → ℕ → ℕ → ℕ
page_at r partition_id block_id = block_id * r.num_partitions + partition_id
