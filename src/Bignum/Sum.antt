-- ===== src/Bignum/Sum.antt =====
-- Sums and differences of bignum.c: bn_add, bn_addi, bn_normalize, bn_subtract, bn_subtractmod,
-- bn_subi and the limb sums of bn_addmod. Each loop runs up the limbs with `tmp` as the carry.
pub mod Chain
pub mod Value
use tronlink_i_os_core.Base.{
  ℕ, zero, suc, ◌+◌, ◌-◌, ◌*◌, ◌/◌, ◌%◌, ◌^◌, ◌≤◌, ◌<◌, ◌≡◌, refl, ap, ◌∙◌, List, [], ◌∷◌, arith,
  length, All, u32, ◌>>>◌, IsU32,
}
use tronlink_i_os_core.Bignum.Number.{
  Bignum256, value, span, IsLimb, AreLimbs, IsNormalized, low_limb, low_limb_lem, span-pos,
  value-lt, value-lt_nine,
}

pub add_loop : ℕ → Bignum256 → Bignum256 → Bignum256
add_loop tmp [] b = []
add_loop tmp (x ∷ xs) [] = []
add_loop tmp (x ∷ xs) (y ∷ ys) =
    let sum = u32 (tmp + u32 (x + y)) in low_limb sum ∷ add_loop (sum >>> 30) xs ys

unfoldable pub bn_add : Bignum256 → Bignum256 → Bignum256
unfolding add_loop
bn_add a b = add_loop 0 a b

pub addi_loop : ℕ → Bignum256 → Bignum256
addi_loop tmp [] = []
addi_loop tmp (x ∷ xs) = let sum = u32 (tmp + x) in low_limb sum ∷ addi_loop (sum >>> 30) xs

unfoldable pub bn_addi : Bignum256 → ℕ → Bignum256
unfolding addi_loop
bn_addi a b = addi_loop b a

unfoldable pub bn_normalize : Bignum256 → Bignum256
bn_normalize a = bn_addi a 0

-- `a->val[0] -= b` may wrap; the sum with the prime undoes that.
unfoldable pub bn_subi : Bignum256 → ℕ → Bignum256 → Bignum256
bn_subi [] b prime = []
bn_subi (x ∷ xs) b prime = bn_add (u32 (x + 2 ^ 32 - b) ∷ xs) prime

pub subtract_loop : ℕ → Bignum256 → Bignum256 → Bignum256
subtract_loop tmp [] b = []
subtract_loop tmp (x ∷ xs) [] = []
subtract_loop tmp (x ∷ xs) (y ∷ ys) =
    let sum = u32 (tmp + u32 (0x3fffffff + x + 2 ^ 32 - y)) in
    low_limb sum ∷ subtract_loop (sum >>> 30) xs ys

unfoldable pub bn_subtract : Bignum256 → Bignum256 → Bignum256
unfolding subtract_loop
bn_subtract a b = subtract_loop 1 a b

pub subtractmod_loop : ℕ → Bignum256 → Bignum256 → Bignum256 → Bignum256
subtractmod_loop tmp [] b prime = []
subtractmod_loop tmp (x ∷ xs) [] prime = []
subtractmod_loop tmp (x ∷ xs) (y ∷ ys) [] = []
subtractmod_loop tmp (x ∷ xs) (y ∷ ys) (p ∷ ps) =
    let sum = u32 (tmp + u32 (0x3fffffff + x + u32 (2 * p) + 2 ^ 32 - y)) in
    low_limb sum ∷ subtractmod_loop (sum >>> 30) xs ys ps

unfoldable pub bn_subtractmod : Bignum256 → Bignum256 → Bignum256 → Bignum256
unfolding subtractmod_loop
bn_subtractmod a b prime = subtractmod_loop 1 a b prime

-- The limbs of bn_addmod before its bn_fast_mod.
unfoldable pub add_limbs : Bignum256 → Bignum256 → Bignum256
add_limbs [] b = []
add_limbs (x ∷ xs) [] = []
add_limbs (x ∷ xs) (y ∷ ys) = u32 (x + y) ∷ add_limbs xs ys
