-- ===== src/Tfc.antt =====
-- tfc/: dictionaries of byte strings, in blocks of eight that share their prefixes.
pub mod Entry
pub mod IdLookup
pub mod Block
pub mod Dict
