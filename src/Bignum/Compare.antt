-- ===== src/Bignum/Compare.antt =====
-- Tests and selection in bignum.c: bn_zero, bn_one, bn_is_zero, bn_is_less, bn_is_equal, bn_cmov,
-- and bn_is_even, bn_is_odd of bignum.h. None of them branches on a limb.
pub mod Order
use tronlink_i_os_core.Base.{
  ℕ, zero, suc, ◌+◌, ◌-◌, ◌*◌, ◌/◌, ◌%◌, ◌^◌, ◌≤◌, ◌<◌, ◌≡◌, refl, ap, ◌∙◌, List, [], ◌∷◌, arith,
  length, All, u32, ◌>>>◌, ◌<<<◌, bit_and, bit_or, bit_xor, Bool, true, false, ltb, ◌==◌,
  if◌then◌else◌, replicate,
}
use tronlink_i_os_core.Bignum.Number.{Bignum256}

-- C's truth values
abbrev pub flag : Bool → ℕ
flag b = if b then 1 else 0

unfoldable pub bn_zero : Bignum256
bn_zero = replicate 9 0

unfoldable pub bn_one : Bignum256
bn_one = 1 ∷ replicate 8 0

pub or_limbs : ℕ → Bignum256 → ℕ
or_limbs result [] = result
or_limbs result (x ∷ xs) = or_limbs (bit_or result x) xs

unfoldable pub bn_is_zero : Bignum256 → Bool
unfolding or_limbs
bn_is_zero a = or_limbs 0 a == 0

pub or_differences : ℕ → Bignum256 → Bignum256 → ℕ
or_differences result [] b = result
or_differences result (x ∷ xs) [] = result
or_differences result (x ∷ xs) (y ∷ ys) = or_differences (bit_or result (bit_xor x y)) xs ys

unfoldable pub bn_is_equal : Bignum256 → Bignum256 → Bool
unfolding or_differences
bn_is_equal a b = or_differences 0 a b == 0

-- The two words of bn_is_less after the limbs from this one up; the highest limb comes first.
pub compare_limbs : Bignum256 → Bignum256 → ℕ × ℕ
compare_limbs [] b = (0, 0)
compare_limbs (x ∷ xs) [] = (0, 0)
compare_limbs (x ∷ xs) (y ∷ ys) =
    let (res1, res2) = compare_limbs xs ys in
    (bit_or (u32 (res1 <<< 1)) (flag (ltb x y)), bit_or (u32 (res2 <<< 1)) (flag (ltb y x)))

unfoldable pub bn_is_less : Bignum256 → Bignum256 → Bool
unfolding compare_limbs
bn_is_less a b = let (res1, res2) = compare_limbs a b in ltb res2 res1

-- `(uint32_t) -cond` and its complement
abbrev pub true_mask : Bool → ℕ
true_mask cond = u32 (2 ^ 32 - flag cond)

abbrev pub false_mask : Bool → ℕ
false_mask cond = 2 ^ 32 - 1 - true_mask cond

unfoldable pub bn_cmov : Bool → Bignum256 → Bignum256 → Bignum256
bn_cmov cond [] falsecase = []
bn_cmov cond (x ∷ xs) [] = []
bn_cmov cond (x ∷ xs) (y ∷ ys) =
    bit_or (bit_and x (true_mask cond)) (bit_and y (false_mask cond)) ∷ bn_cmov cond xs ys

unfoldable pub bn_is_even : Bignum256 → Bool
bn_is_even [] = true
bn_is_even (x ∷ xs) = bit_and x 1 == 0

unfoldable pub bn_is_odd : Bignum256 → Bool
bn_is_odd [] = false
bn_is_odd (x ∷ xs) = bit_and x 1 == 1
