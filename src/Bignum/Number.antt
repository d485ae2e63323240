-- ===== src/Bignum/Number.antt =====
-- The type `bignum256` of bignum.h, the number that it stands for, and when it is normalized.
use tronlink_i_os_core.Base.{
  ap, ℕ, zero, suc, ◌+◌, ◌*◌, ◌%◌, ◌^◌, ◌<◌, ◌≡◌, List, [], ◌∷◌, arith, length, All, bit_and,
  bit_and-mask,
}

-- `val[0]` is the head; the C array has nine elements, of type uint32_t.
abbrev pub Bignum256 : Type 0
Bignum256 = List ℕ

-- sum over i of val[i] * 2 ^ (30 i)
abbrev pub value : Bignum256 → ℕ
value [] = 0
value (x ∷ xs) = x + 2 ^ 30 * value xs

-- The first number that `n` normalized limbs cannot hold.
abbrev pub span : ℕ → ℕ
span zero = 1
span (suc n) = 2 ^ 30 * span n

abbrev pub IsLimb : ℕ → Type 0
IsLimb x = x < 2 ^ 30

abbrev pub AreLimbs : List ℕ → Type 0
AreLimbs = All IsLimb

pub record IsNormalized (a : Bignum256) : Type 0 where
  pub nine : length a ≡ 9
  pub limbs : AreLimbs a

-- `& 0x3FFFFFFF`
abbrev pub low_limb : ℕ → ℕ
low_limb x = bit_and x 0x3fffffff

pub low_limb_lem : (x : ℕ) → low_limb x ≡ x % 2 ^ 30
low_limb_lem x = bit_and-mask 30 x

pub span-pos : (n : ℕ) → 0 < span n
span-pos zero = omega arith
span-pos (suc n) = omega (arith, span-pos n)

pub value-lt : (a : Bignum256) → AreLimbs a → value a < span (length a)
value-lt [] h = omega arith
value-lt (x ∷ xs) h = omega (arith, value-lt xs h.1)

pub value-lt_nine : (a : Bignum256) → IsNormalized a → value a < 2 ^ 270
value-lt_nine a h = rw (h.nine) at (value-lt a h.limbs)

-- The span of the limbs above the lowest of nine.
pub span_above_first : (n : ℕ) → suc n ≡ 9 → span n ≡ 2 ^ 240
span_above_first n h = let eight : n ≡ 8 = omega arith in ap span eight
