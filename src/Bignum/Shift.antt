-- ===== src/Bignum/Shift.antt =====
-- Shifts, bits and exclusive or in bignum.c: bn_lshift, bn_rshift, bn_setbit, bn_clearbit,
-- bn_testbit, bn_xor and bn_mult_half.
pub mod Double
pub mod Half
use tronlink_i_os_core.Base.{
  ℕ, zero, suc, ◌+◌, ◌-◌, ◌*◌, ◌/◌, ◌%◌, ◌^◌, ◌≤◌, ◌<◌, ◌≡◌, List, [], ◌∷◌, arith, u32, ◌>>>◌,
  ◌<<<◌, bit_and, bit_or, bit_xor, set, get_or, if◌then◌else◌, ◌==◌,
}
use tronlink_i_os_core.Bignum.Number.{Bignum256, low_limb}

-- `prev` is the limb below, as it was: the C loop runs downwards.
pub lshift_loop : ℕ → Bignum256 → Bignum256
lshift_loop prev [] = []
lshift_loop prev (x ∷ xs) =
    bit_or (low_limb (u32 (x <<< 1))) (bit_and prev 0x20000000 >>> 29) ∷ lshift_loop x xs

unfoldable pub bn_lshift : Bignum256 → Bignum256
unfolding lshift_loop
bn_lshift [] = []
bn_lshift (x ∷ xs) = low_limb (u32 (x <<< 1)) ∷ lshift_loop x xs

unfoldable pub bn_rshift : Bignum256 → Bignum256
bn_rshift [] = []
bn_rshift (x ∷ []) = (x >>> 1) ∷ []
bn_rshift (x ∷ (y ∷ xs)) = bit_or (x >>> 1) (u32 (bit_and y 1 <<< 29)) ∷ bn_rshift (y ∷ xs)

-- `bit` is a uint8_t, so the index is at most 8.
unfoldable pub bn_setbit : Bignum256 → ℕ → Bignum256
bn_setbit a bit = set a (bit / 30) (bit_or (get_or a (bit / 30) 0) (u32 (1 <<< (bit % 30))))

unfoldable pub bn_clearbit : Bignum256 → ℕ → Bignum256
bn_clearbit a bit =
    set a (bit / 30) (bit_and (get_or a (bit / 30) 0) (2 ^ 32 - 1 - u32 (1 <<< (bit % 30))))

unfoldable pub bn_testbit : Bignum256 → ℕ → ℕ
bn_testbit a bit = bit_and (get_or a (bit / 30) 0) (u32 (1 <<< (bit % 30)))

unfoldable pub bn_xor : Bignum256 → Bignum256 → Bignum256
bn_xor [] c = []
bn_xor (x ∷ xs) [] = []
bn_xor (x ∷ xs) (y ∷ ys) = bit_xor x y ∷ bn_xor xs ys

-- The loop of bn_mult_half from a limb of `x` up. `xodd` is all ones for an odd `x`, and `tmp1`
-- holds what the limbs below leave.
pub mult_half_loop : ℕ → ℕ → Bignum256 → Bignum256 → Bignum256
mult_half_loop xodd tmp1 [] prime = tmp1 ∷ []
mult_half_loop xodd tmp1 (x ∷ xs) [] = tmp1 ∷ []
mult_half_loop xodd tmp1 (x ∷ xs) (p ∷ ps) =
    let tmp2 = u32 (x + bit_and p xodd) in
    let sum = u32 (tmp1 + u32 (bit_and tmp2 1 <<< 29)) in
    low_limb sum ∷ mult_half_loop xodd (u32 ((sum >>> 30) + (tmp2 >>> 1))) xs ps

unfoldable pub bn_mult_half : Bignum256 → Bignum256 → Bignum256
unfolding mult_half_loop
bn_mult_half [] prime = []
bn_mult_half (x ∷ xs) [] = []
bn_mult_half (x ∷ xs) (p ∷ ps) =
    let xodd = u32 (2 ^ 32 - bit_and x 1) in
    mult_half_loop xodd (u32 (x + bit_and p xodd) >>> 1) xs ps
