-- ===== src/Tests.antt =====
-- Runs of the model on concrete inputs, and the theorems at inputs that meet their hypotheses.
mod ClockTests
mod PtrTests
mod RaceTests
mod TableTests
mod IdsTests
mod LruTests
mod PartitionerTests
mod PoolTests
mod PrivateCacheTests
mod AllocatorTests
mod BackendTests
mod CacheTests
mod DirectCacheTests
mod MessagesTests
mod SharedCacheTests
mod SingleCacheTests
