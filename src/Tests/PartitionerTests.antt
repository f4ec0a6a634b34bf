-- ===== src/Tests/PartitionerTests.antt =====
-- Ten pages in three partitions of include/partitioner.hpp.
use tri_cache.Partitioner.{RoundRobin, locate, num_blocks, page_at}
use tri_cache.Partitioner.Laws.{page_at-locate}
use tri_cache.Base.{◌<◌, ◌≡◌, arith}

abbrev ten_pages : RoundRobin
ten_pages = record { num_partitions = 3; num_vpages = 10 }

page_at-locate_example :
    (page_at ten_pages (locate ten_pages 9).0 (locate ten_pages 9).1 ≡ 9)
    × ((locate ten_pages 9).0 < 3)
    × ((locate ten_pages 9).1 < num_blocks ten_pages (locate ten_pages 9).0)
page_at-locate_example = page_at-locate ten_pages (omega arith) 9 (omega arith)
