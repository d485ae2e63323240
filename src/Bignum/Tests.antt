-- ===== src/Bignum/Tests.antt =====
-- Runs of the arithmetic in bignum.c on the prime of secp256k1 and small numbers.
use tronlink_i_os_core.Base.{
  ℕ, ◌+◌, ◌-◌, ◌*◌, ◌%◌, ◌≡◌, refl, List, [], ◌∷◌, arith, length, replicate, ltb,
}
use tronlink_i_os_core.Bignum.Number.{Bignum256, value, AreLimbs, IsNormalized}
use tronlink_i_os_core.Bignum.Bits.{IsBitCount, bn_bitcount, bn_bitcount-IsBitCount}
use tronlink_i_os_core.Bignum.Sum.{bn_subtractmod}
use tronlink_i_os_core.Bignum.Sum.Value.{value-bn_subtractmod}
use tronlink_i_os_core.Bignum.Shift.{bn_mult_half}
use tronlink_i_os_core.Bignum.Shift.Half.{value-bn_mult_half}
use tronlink_i_os_core.Bignum.Compare.{bn_is_less}
use tronlink_i_os_core.Bignum.Compare.Order.{bn_is_less_lem}
use tronlink_i_os_core.Bignum.Reduce.{bn_fast_mod, bn_mod}
use tronlink_i_os_core.Bignum.Reduce.FastMod.{
  IsModulus, IsPartlyReduced, bn_fast_mod-IsPartlyReduced,
}
use tronlink_i_os_core.Bignum.Reduce.FullMod.{value-bn_mod}
use tronlink_i_os_core.Bignum.Multiply.{bn_multiply_long, bn_multiply_reduce, bn_multiply}
use tronlink_i_os_core.Bignum.Multiply.Product.{value-bn_multiply_long}
use tronlink_i_os_core.Bignum.Multiply.Reduction.{
  bn_multiply_reduce-IsPartlyReduced, bn_multiply-IsPartlyReduced,
}
use tronlink_i_os_core.Bignum.Divide.{bn_digitcount}
use tronlink_i_os_core.Bignum.Divide.Digits.{IsDigitCount, bn_digitcount-IsDigitCount}
use tronlink_i_os_core.Bignum.Bytes.{bn_read_be}
use tronlink_i_os_core.Bignum.Bytes.Word.{be_value}
use tronlink_i_os_core.Bignum.Bytes.BigEndian.{value-bn_read_be}

-- 2 ^ 256 - 2 ^ 32 - 977
abbrev secp256k1_prime : Bignum256
secp256k1_prime =
    0x3ffffc2f ∷ 0x3ffffffb ∷ 0x3fffffff ∷ 0x3fffffff ∷ 0x3fffffff ∷ 0x3fffffff ∷ 0x3fffffff
    ∷ 0x3fffffff ∷ 0xffff ∷ []

-- The number with the limbs 5, 1, 0, ..., 0, 7.
abbrev sample : Bignum256
sample = 5 ∷ 1 ∷ 0 ∷ 0 ∷ 0 ∷ 0 ∷ 0 ∷ 0 ∷ 7 ∷ []

-- The prime less 1.
abbrev minus_one : Bignum256
minus_one =
    0x3ffffc2e ∷ 0x3ffffffb ∷ 0x3fffffff ∷ 0x3fffffff ∷ 0x3fffffff ∷ 0x3fffffff ∷ 0x3fffffff
    ∷ 0x3fffffff ∷ 0xffff ∷ []

prime-IsNormalized : IsNormalized secp256k1_prime
prime-IsNormalized = record { nine = refl; limbs = omega arith }

sample-IsNormalized : IsNormalized sample
sample-IsNormalized = record { nine = refl; limbs = omega arith }

minus_one-IsNormalized : IsNormalized minus_one
minus_one-IsNormalized = record { nine = refl; limbs = omega arith }

prime-IsModulus : IsModulus secp256k1_prime
prime-IsModulus = record { normal = prime-IsNormalized; above = omega arith; below = omega arith }

bn_multiply-IsPartlyReduced_example :
    IsPartlyReduced
      (value minus_one * value sample)
      secp256k1_prime
      (bn_multiply minus_one sample secp256k1_prime)
bn_multiply-IsPartlyReduced_example =
    bn_multiply-IsPartlyReduced minus_one sample secp256k1_prime prime-IsModulus
      minus_one-IsNormalized sample-IsNormalized (omega arith)

bn_bitcount-IsBitCount_example : IsBitCount (value sample) (bn_bitcount sample)
bn_bitcount-IsBitCount_example = bn_bitcount-IsBitCount sample sample-IsNormalized

abbrev product : List ℕ
product = 1 ∷ 2 ∷ 3 ∷ 4 ∷ 5 ∷ 6 ∷ 7 ∷ 8 ∷ 9 ∷ 10 ∷ 11 ∷ 12 ∷ 13 ∷ 14 ∷ 15 ∷ 16 ∷ 17 ∷ 18 ∷ []

bn_multiply_reduce-IsPartlyReduced_example :
    IsPartlyReduced (value product) secp256k1_prime (bn_multiply_reduce product secp256k1_prime)
bn_multiply_reduce-IsPartlyReduced_example =
    bn_multiply_reduce-IsPartlyReduced product secp256k1_prime prime-IsModulus (omega arith) refl
      (omega arith)

value-bn_multiply_long_example :
    AreLimbs (bn_multiply_long minus_one sample)
    × (length (bn_multiply_long minus_one sample) ≡ 18)
    × (value (bn_multiply_long minus_one sample) ≡ value minus_one * value sample)
value-bn_multiply_long_example =
    value-bn_multiply_long minus_one sample minus_one-IsNormalized sample-IsNormalized

-- Limbs of 32 bits that are not normalized.
abbrev words : List ℕ
words = replicate 9 0xffffffff

bn_fast_mod-IsPartlyReduced_example :
    IsPartlyReduced (value words) secp256k1_prime (bn_fast_mod words secp256k1_prime)
bn_fast_mod-IsPartlyReduced_example =
    bn_fast_mod-IsPartlyReduced words secp256k1_prime (omega arith) refl prime-IsModulus

value-bn_mod_example :
    IsNormalized (bn_mod secp256k1_prime secp256k1_prime)
    × (value (bn_mod secp256k1_prime secp256k1_prime)
        ≡ value secp256k1_prime % value secp256k1_prime)
value-bn_mod_example =
    value-bn_mod secp256k1_prime secp256k1_prime prime-IsNormalized prime-IsNormalized (omega arith)

value-bn_mult_half_example :
    IsNormalized (bn_mult_half sample secp256k1_prime)
    × (2 * value (bn_mult_half sample secp256k1_prime)
        ≡ value sample + value sample % 2 * value secp256k1_prime)
value-bn_mult_half_example =
    value-bn_mult_half sample secp256k1_prime sample-IsNormalized prime-IsNormalized (omega arith)
      (omega arith)

value-bn_subtractmod_example :
    IsNormalized (bn_subtractmod sample minus_one secp256k1_prime)
    × (value (bn_subtractmod sample minus_one secp256k1_prime)
        ≡ value sample + (2 * value secp256k1_prime - value minus_one))
value-bn_subtractmod_example =
    value-bn_subtractmod sample minus_one secp256k1_prime sample-IsNormalized minus_one-IsNormalized
      prime-IsNormalized (omega arith) (omega arith)

bn_is_less_lem_example : bn_is_less sample minus_one ≡ ltb (value sample) (value minus_one)
bn_is_less_lem_example = bn_is_less_lem sample minus_one sample-IsNormalized minus_one-IsNormalized

bn_digitcount-IsDigitCount_example : IsDigitCount (value minus_one) (bn_digitcount minus_one)
bn_digitcount-IsDigitCount_example =
    bn_digitcount-IsDigitCount minus_one minus_one-IsNormalized (omega arith)

abbrev bytes : List ℕ
bytes = replicate 32 0xab

value-bn_read_be_example :
    IsNormalized (bn_read_be bytes) × (value (bn_read_be bytes) ≡ be_value bytes)
value-bn_read_be_example = value-bn_read_be bytes refl (omega arith)
