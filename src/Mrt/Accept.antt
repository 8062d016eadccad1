-- ===== src/Mrt/Accept.antt =====
-- The checker accepts what the writer writes: attribute by attribute, entry by entry, record by
-- record, and for a whole file.
pub mod Blocks
pub mod Attrs
pub mod Paths
pub mod Entries
pub mod Ribs
pub mod Peers
pub mod Files
pub mod Whole
