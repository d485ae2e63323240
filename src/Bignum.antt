-- ===== src/Bignum.antt =====
-- bignum.c and bignum.h: numbers of nine 32-bit limbs, digits in base 2 ^ 30.
mod Tests
pub mod Number
pub mod Sum
pub mod Shift
pub mod Compare
pub mod Reduce
pub mod Multiply
pub mod Bytes
pub mod Divide
pub mod Bits
