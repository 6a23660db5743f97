-- ===== src/Bits.antt =====
-- Binary digits of native numbers: the shifts and masks of Rust's unsigned integers.
pub mod Digit
pub mod Shift
pub mod Ext
pub mod Count
pub mod Table
pub mod Mask
pub mod Front
