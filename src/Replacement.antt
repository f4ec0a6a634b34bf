-- ===== src/Replacement.antt =====
-- include/replacement.hpp: the page replacement policies.
pub mod Clock
pub mod Lru
pub mod Size
pub mod Policy
