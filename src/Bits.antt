-- ===== src/Bits.antt =====
-- Laws of `&`, `|` and `^` at variables, which the sources use for masks, fields and checksums.
pub mod Digits
pub mod Mask
pub mod Xor
