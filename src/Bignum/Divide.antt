-- ===== src/Bignum/Divide.antt =====
-- Division by a small number in bignum.c: bn_divmod58, bn_divmod1000, and bn_digitcount.
pub mod Remainder
pub mod Digits
use tronlink_i_os_core.Base.{
  ℕ, zero, suc, ◌+◌, ◌*◌, ◌/◌, ◌%◌, List, [], ◌∷◌, u32, leb, if◌then◌else◌,
}
use tronlink_i_os_core.Bignum.Number.{Bignum256}

-- The remainder and the quotient of the limbs from here up; the highest limb comes first.
unfoldable pub bn_divmod58 : Bignum256 → ℕ × Bignum256
bn_divmod58 [] = (0, [])
bn_divmod58 (x ∷ []) = (x % 58, (x / 58) ∷ [])
bn_divmod58 (x ∷ (y ∷ xs)) =
    let (rem, upper) = bn_divmod58 (y ∷ xs) in
    let tmp = u32 (u32 (rem * 4) + x) in (tmp % 58, u32 (u32 (rem * 18512790) + tmp / 58) ∷ upper)

unfoldable pub bn_divmod1000 : Bignum256 → ℕ × Bignum256
bn_divmod1000 [] = (0, [])
bn_divmod1000 (x ∷ []) = (x % 1000, (x / 1000) ∷ [])
bn_divmod1000 (x ∷ (y ∷ xs)) =
    let (rem, upper) = bn_divmod1000 (y ∷ xs) in
    let tmp = u32 (u32 (rem * 824) + x) in
    (tmp % 1000, u32 (u32 (rem * 1073741) + tmp / 1000) ∷ upper)

-- `digits` after a group of three decimal places from `i` on.
abbrev pub count_group : ℕ → ℕ → ℕ → ℕ
count_group i limb digits =
    if leb 100 limb
    then i + 3
    else if leb 10 limb
    then i + 2
    else if leb 1 limb
    then i + 1
    else digits

pub digitcount_loop : ℕ → ℕ → Bignum256 → ℕ → ℕ
digitcount_loop zero i val digits = digits
digitcount_loop (suc left) i val digits =
    let (limb, rest) = bn_divmod1000 val in
    digitcount_loop left (i + 3) rest (count_group i limb digits)

-- 26 rounds: i runs over 0, 3, … below DIGITS = 78.
unfoldable pub bn_digitcount : Bignum256 → ℕ
unfolding digitcount_loop
bn_digitcount a = digitcount_loop 26 0 a 1
