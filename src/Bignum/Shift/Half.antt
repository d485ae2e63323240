-- ===== src/Bignum/Shift/Half.antt =====
-- bn_mult_half in bignum.c.
use tronlink_i_os_core.Base.{
  ℕ, suc, ◌+◌, ◌-◌, ◌*◌, ◌/◌, ◌%◌, ◌^◌, ◌≤◌, ◌<◌, ◌≡◌, refl, ap, ◌∙◌, [], ◌∷◌, arith, length, u32,
  ◌>>>◌, ◌<<<◌, bit_and, bit_and-mask, bit_and-zero, ◌⊎◌, inl, inr,
}
use tronlink_i_os_core.Bignum.Number.{
  Bignum256, value, span, AreLimbs, IsNormalized, low_limb_lem, span_above_first,
}
use tronlink_i_os_core.Bignum.Shift.{mult_half_loop, bn_mult_half}

-- Masking a limb by `mask` multiplies it by `m`, which is 0 or 1.
abbrev Masks : ℕ → ℕ → Type 0
Masks mask m = (p : ℕ) → p < 2 ^ 30 → (bit_and p mask ≡ m * p) × (m * p ≤ p)

Masks-none : Masks 0 0
Masks-none p h = (bit_and-zero p ∙ omega arith, omega arith)

Masks-all : Masks 0xffffffff 1
Masks-all p h = (bit_and-mask 32 p ∙ omega arith, omega arith)

mult_half_loop_lem :
    (mask m tmp1 : ℕ) (x prime : Bignum256)
    → Masks mask m
    → tmp1 < 2 ^ 30 + 1
    → AreLimbs x
    → AreLimbs prime
    → length x ≡ length prime
    → 2 * tmp1 + 2 ^ 30 * (value x + m * value prime) < 2 ^ 31 * span (length x)
    → (length (mult_half_loop mask tmp1 x prime) ≡ suc (length x))
      × AreLimbs (mult_half_loop mask tmp1 x prime)
      × (2 * value (mult_half_loop mask tmp1 x prime)
          ≡ 2 * tmp1 + 2 ^ 30 * (value x + m * value prime))
unfolding mult_half_loop
mult_half_loop_lem mask m tmp1 [] [] k ht hx hp e room = (omega arith, omega arith, omega arith)
mult_half_loop_lem mask m tmp1 [] (p ∷ ps) k ht hx hp e room = absurd (omega arith)
mult_half_loop_lem mask m tmp1 (x ∷ xs) [] k ht hx hp e room = absurd (omega arith)
mult_half_loop_lem mask m tmp1 (x ∷ xs) (p ∷ ps) k ht hx hp e room =
    let (masked, small) = k p hp.0 in
    let tmp2 : ℕ = u32 (x + bit_and p mask) in
    let odd : bit_and tmp2 1 ≡ tmp2 % 2 = bit_and-mask 1 tmp2 in
    let total : ℕ = u32 (tmp1 + u32 (bit_and tmp2 1 <<< 29)) in
    let (len, small', eq) =
      mult_half_loop_lem mask m (u32 (total / 2 ^ 30 + tmp2 / 2)) xs ps k (omega arith) hx.1 hp.1
        (omega arith) (omega arith) in
    (omega arith, (omega (arith, low_limb_lem total), small'), omega (arith, low_limb_lem total))

-- The result with the mask that `x` calls for.
abbrev Halved : ℕ → Bignum256 → Bignum256 → Bignum256 → Type 0
Halved m x prime r = IsNormalized r × (2 * value r ≡ value x + m * value prime)

parity : (x : ℕ) → (x % 2 ≡ 0) ⊎ (x % 2 ≡ 1)
parity x = ground arith

sum_is_even : (m x p : ℕ) → m ≡ x % 2 → p % 2 ≡ 1 → (x + m * p) % 2 ≡ 0
sum_is_even m x p e odd = elim (parity x) [
  | inl even ↦ let none : m ≡ 0 = omega arith in rw none (omega arith)
  | inr uneven ↦ let one : m ≡ 1 = omega arith in rw one (omega arith)
]

halve_masked :
    (mask m x p : ℕ) (xs ps : Bignum256)
    → Masks mask m
    → m ≡ x % 2
    → IsNormalized (x ∷ xs)
    → IsNormalized (p ∷ ps)
    → value (p ∷ ps) % 2 ≡ 1
    → value (x ∷ xs) + value (p ∷ ps) < 2 ^ 271
    → Halved m (x ∷ xs) (p ∷ ps) (mult_half_loop mask (u32 (x + bit_and p mask) >>> 1) xs ps)
halve_masked mask m x p xs ps k digit hx hp odd room =
    let (masked, small) = k p hp.limbs.0 in
    let scaled : m * value ps ≤ value ps = grind arith in
    let even : (x + m * p) % 2 ≡ 0 = sum_is_even m x p digit (omega arith) in
    let wide = span_above_first (length xs) hx.nine in
    let (len, limbs, eq) =
      mult_half_loop_lem mask m (u32 (x + bit_and p mask) / 2) xs ps k
        (omega (arith, hx.limbs, hp.limbs)) hx.limbs.1 hp.limbs.1 (omega (arith, hx.nine, hp.nine))
        (omega (arith, wide, hx.limbs, hp.limbs)) in
    (record { nine = omega (arith, hx.nine); limbs = limbs }, omega (arith, hx.limbs, hp.limbs))

Masks-parity : (x : ℕ) → Masks (u32 (2 ^ 32 - bit_and x 1)) (x % 2)
Masks-parity x = elim (parity x) [
  | inl even ↦
      let none : u32 (2 ^ 32 - bit_and x 1) ≡ 0 = omega (arith, bit_and-mask 1 x) in
      rw (none, even) Masks-none
  | inr odd ↦
      let all : u32 (2 ^ 32 - bit_and x 1) ≡ 0xffffffff = omega (arith, bit_and-mask 1 x) in
      rw (all, odd) Masks-all
]

-- bn_mult_half halves modulo an odd modulus: for normalized numbers that are below 2 ^ 271
-- together, twice the result, which is normalized, is the number, plus the modulus where the
-- number is odd.
pub value-bn_mult_half :
    (x prime : Bignum256)
    → IsNormalized x
    → IsNormalized prime
    → value prime % 2 ≡ 1
    → value x + value prime < 2 ^ 271
    → IsNormalized (bn_mult_half x prime)
      × (2 * value (bn_mult_half x prime) ≡ value x + value x % 2 * value prime)
unfolding bn_mult_half
value-bn_mult_half [] prime hx hp odd room = absurd (omega (arith, hx.nine))
value-bn_mult_half (x ∷ xs) [] hx hp odd room = absurd (omega (arith, hp.nine))
value-bn_mult_half (x ∷ xs) (p ∷ ps) hx hp odd room =
    let mask : ℕ = u32 (2 ^ 32 - bit_and x 1) in
    let (normal, eq) = halve_masked mask (x % 2) x p xs ps (Masks-parity x) refl hx hp odd room in
    let same : x % 2 ≡ value (x ∷ xs) % 2 = omega arith in
    let scaled = ap (λ (t : ℕ). t * value (p ∷ ps)) same in (normal, omega arith)
