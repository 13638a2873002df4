-- ===== src/Word.antt =====
-- 64-bit words as native numbers, and the sixteen 4-bit fields that `flags` packs into one.
mod Step
pub mod Xor
mod Nibble
mod Field
mod Pack
pub mod Scan
unfoldable pub use Nibble.*
pub use Pack.*
unfoldable pub use Field.*
