-- ===== src/Base/Bits.antt =====
-- The bit operations at variables: one equation for the lowest digit of each, and from it the laws
-- that code on words needs.
mod Digit
mod Field
mod Xor
pub use Digit.*
pub use Field.*
pub use Xor.*
