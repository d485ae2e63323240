-- ===== src/Bignum/Shift/Double.antt =====
-- bn_lshift and bn_rshift in bignum.c.
use tronlink_i_os_core.Base.{
  ℕ, ◌+◌, ◌*◌, ◌/◌, ◌%◌, ◌^◌, ◌<◌, ◌≡◌, ap, ◌∙◌, [], ◌∷◌, arith, length, u32, ◌>>>◌, ◌<<<◌, bit_and,
  bit_or, bit_or-fields, bit_or-fields_comm, bit_and-mask, bit_and-shifted,
}
use tronlink_i_os_core.Bignum.Number.{
  Bignum256, value, span, AreLimbs, IsNormalized, low_limb, low_limb_lem, span_above_first,
  value-lt_nine,
}
use tronlink_i_os_core.Bignum.Shift.{lshift_loop, bn_lshift, bn_rshift}

top_bit : (x : ℕ) → x < 2 ^ 30 → bit_and x 0x20000000 / 2 ^ 29 ≡ x / 2 ^ 29
top_bit x h = rw (bit_and-shifted 29 x 1, bit_and-mask 1 (x / 2 ^ 29)) (omega arith)

doubled_limb :
    (prev x : ℕ)
    → prev < 2 ^ 30
    → x < 2 ^ 30
    → bit_or (low_limb (u32 (x <<< 1))) (bit_and prev 0x20000000 >>> 29)
      ≡ 2 * x % 2 ^ 30 + prev / 2 ^ 29
doubled_limb prev x hp hx =
    let even : low_limb (u32 (x <<< 1)) ≡ (x % 2 ^ 29) * 2 ^ 1 =
      omega (arith, low_limb_lem (u32 (x <<< 1))) in
    rw (even, top_bit prev hp, bit_or-fields 1 (x % 2 ^ 29) (prev / 2 ^ 29) (omega arith))
      (omega arith)

-- The loop leaves out twice the limb below but for its top bit.
lshift_loop_lem :
    (prev : ℕ) (a : Bignum256)
    → prev < 2 ^ 30
    → AreLimbs a
    → (c : ℕ) × AreLimbs (lshift_loop prev a)
      × (length (lshift_loop prev a) ≡ length a)
      × (value (lshift_loop prev a) + span (length a) * c ≡ prev / 2 ^ 29 + 2 * value a)
unfolding lshift_loop
lshift_loop_lem prev [] hp ha = (prev / 2 ^ 29, omega arith, omega arith, omega arith)
lshift_loop_lem prev (x ∷ xs) hp ha =
    let (c, limbs, len, eq) = lshift_loop_lem x xs ha.0 ha.1 in
    let head = doubled_limb prev x hp ha.0 in
    (c, (omega (arith, head), limbs), omega arith, omega (arith, head))

-- bn_lshift doubles a normalized number modulo 2 ^ 270, and its result is normalized.
pub value-bn_lshift :
    (a : Bignum256)
    → IsNormalized a
    → IsNormalized (bn_lshift a) × (value (bn_lshift a) ≡ 2 * value a % 2 ^ 270)
unfolding bn_lshift
value-bn_lshift [] ha = absurd (omega (arith, ha.nine))
value-bn_lshift (x ∷ xs) ha =
    let (c, limbs, len, eq) = lshift_loop_lem x xs ha.limbs.0 ha.limbs.1 in
    let head = low_limb_lem (u32 (x <<< 1)) in
    let normal : IsNormalized (bn_lshift (x ∷ xs)) = record {
      nine = omega (arith, ha.nine);
      limbs = (omega (arith, head), limbs);
    } in
    let wide : span (length xs) ≡ 2 ^ 240 = span_above_first _ ha.nine in
    (
      normal,
      omega (arith, head, ha.limbs, value-lt_nine _ normal, wide, ap (λ (t : ℕ). t * c) wide),
    )

halved_limb :
    (x y : ℕ) → x < 2 ^ 30 → bit_or (x >>> 1) (u32 (bit_and y 1 <<< 29)) ≡ x / 2 + y % 2 * 2 ^ 29
halved_limb x y hx =
    let odd : bit_and y 1 ≡ y % 2 = bit_and-mask 1 y in
    let exact : u32 (bit_and y 1 <<< 29) ≡ (y % 2) * 2 ^ 29 = omega arith in
    rw exact (bit_or-fields_comm 29 (y % 2) (x / 2) (omega arith) ∙ omega arith)

bn_rshift_limbs :
    (a : Bignum256)
    → AreLimbs a
    → AreLimbs (bn_rshift a)
      × (length (bn_rshift a) ≡ length a)
      × (value (bn_rshift a) ≡ value a / 2)
unfolding bn_rshift
bn_rshift_limbs [] ha = (omega arith, omega arith, omega arith)
bn_rshift_limbs (x ∷ []) ha = (omega arith, omega arith, omega arith)
bn_rshift_limbs (x ∷ (y ∷ xs)) ha =
    let (limbs, len, eq) = bn_rshift_limbs (y ∷ xs) ha.1 in
    let head = halved_limb x y ha.0 in
    ((omega (arith, head), limbs), omega arith, omega (arith, head))

-- bn_rshift halves a normalized number, rounding down, and its result is normalized.
pub value-bn_rshift :
    (a : Bignum256)
    → IsNormalized a
    → IsNormalized (bn_rshift a) × (value (bn_rshift a) ≡ value a / 2)
value-bn_rshift a ha =
    let (limbs, len, eq) = bn_rshift_limbs a ha.limbs in
    (record { nine = len ∙ ha.nine; limbs = limbs }, eq)
