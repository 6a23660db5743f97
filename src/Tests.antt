-- ===== src/Tests.antt =====
-- Concrete runs of the code and of the theorems.
pub mod Crates
pub mod Numbers
pub mod Arrays
pub mod Pairs
pub mod Chunks
pub mod Blocks
pub mod Indexes
pub mod Dicts
