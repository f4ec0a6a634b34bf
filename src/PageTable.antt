-- ===== src/PageTable.antt =====
-- include/compact_hash_page_table.hpp: the page table that the server and its clients share.
pub mod Header
pub mod Race
pub mod Table
pub mod Chain
pub mod Shape
pub mod Mapping
pub mod Lookup
pub mod Slot
pub mod Place
pub mod Effects
pub mod Grow
pub mod Extend
pub mod Create
pub mod Clear
pub mod Shrink
pub mod Delete
pub mod Release
pub mod Fresh
pub mod Entry
