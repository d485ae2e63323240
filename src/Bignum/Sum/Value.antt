-- ===== src/Bignum/Sum/Value.antt =====
-- What the sums and differences of Bignum/Sum.antt are worth.
use tronlink_i_os_core.Base.{
  ℕ, ◌+◌, ◌-◌, ◌*◌, ◌%◌, u32, ◌∷◌, ◌^◌, ◌<◌, ◌≡◌, ◌≤◌, ◌/◌, ap, arith, length, All,
}
use tronlink_i_os_core.Bignum.Number.{
  Bignum256, value, span, IsNormalized, low_limb_lem, span_above_first, value-lt_nine,
}
use tronlink_i_os_core.Bignum.Sum.{bn_subi, bn_add, bn_addi, bn_subtract, bn_subtractmod, add_loop}
use tronlink_i_os_core.Bignum.Sum.Chain.{
  add_loop-Chain, addi_loop-Chain, subtract_loop-Chain, subtractmod_loop-Chain,
}

-- bn_add adds normalized numbers modulo 2 ^ 270, and its result is normalized.
pub value-bn_add :
    (a b : Bignum256)
    → IsNormalized a
    → IsNormalized b
    → IsNormalized (bn_add a b) × (value (bn_add a b) ≡ (value a + value b) % 2 ^ 270)
unfolding bn_add
value-bn_add a b ha hb =
    let (c, hc, limbs, len, eq) =
      add_loop-Chain 0 a b (omega arith) ha.limbs hb.limbs (omega arith) in
    let normal : IsNormalized (bn_add a b) = record { nine = omega arith; limbs = limbs } in
    let wide : span (length a) ≡ 2 ^ 270 = ap span ha.nine in
    (normal, omega (arith, value-lt_nine _ normal, wide, ap (λ (t : ℕ). t * c) wide))

-- bn_addi adds a word below 2 ^ 31 to nine limbs below 2 ^ 31 modulo 2 ^ 270, and its result is
-- normalized.
pub value-bn_addi :
    (a : Bignum256) (b : ℕ)
    → length a ≡ 9
    → All (λ x. x < 2 ^ 31) a
    → b < 2 ^ 31
    → IsNormalized (bn_addi a b) × (value (bn_addi a b) ≡ (value a + b) % 2 ^ 270)
unfolding bn_addi
value-bn_addi a b nine ha hb =
    let (c, hc, limbs, len, eq) = addi_loop-Chain b a hb ha in
    let normal : IsNormalized (bn_addi a b) = record { nine = omega arith; limbs = limbs } in
    let wide : span (length a) ≡ 2 ^ 270 = ap span nine in
    (normal, omega (arith, value-lt_nine _ normal, wide, ap (λ (t : ℕ). t * c) wide))

-- bn_subtract subtracts normalized numbers modulo 2 ^ 270, and its result is normalized.
pub value-bn_subtract :
    (a b : Bignum256)
    → IsNormalized a
    → IsNormalized b
    → IsNormalized (bn_subtract a b)
      × (value (bn_subtract a b) ≡ (2 ^ 270 + value a - value b) % 2 ^ 270)
unfolding bn_subtract
value-bn_subtract a b ha hb =
    let (c, hc, limbs, len, eq) =
      subtract_loop-Chain 1 a b (omega arith) ha.limbs hb.limbs (omega arith) in
    let normal : IsNormalized (bn_subtract a b) = record { nine = omega arith; limbs = limbs } in
    let wide : span (length a) ≡ 2 ^ 270 = ap span ha.nine in
    (
      normal,
      omega (
        arith,
        value-lt_nine _ normal,
        value-lt_nine a ha,
        value-lt_nine b hb,
        wide,
        ap (λ (t : ℕ). t * c) wide,
      ),
    )

-- bn_subtractmod is a + (2 * prime - b) on normalized numbers with b below 2 * prime, where a + 2
-- * prime is below 2 ^ 270, and its result is normalized.
pub value-bn_subtractmod :
    (a b prime : Bignum256)
    → IsNormalized a
    → IsNormalized b
    → IsNormalized prime
    → value b < 2 * value prime
    → value a + 2 * value prime < 2 ^ 270
    → IsNormalized (bn_subtractmod a b prime)
      × (value (bn_subtractmod a b prime) ≡ value a + (2 * value prime - value b))
unfolding bn_subtractmod
value-bn_subtractmod a b prime ha hb hp reduced fits =
    let (c, hc, limbs, len, eq) =
      subtractmod_loop-Chain 1 a b prime (omega arith) ha.limbs hb.limbs hp.limbs (omega arith)
        (omega arith) in
    let normal : IsNormalized (bn_subtractmod a b prime) = record {
      nine = omega arith;
      limbs = limbs;
    } in
    let wide : span (length a) ≡ 2 ^ 270 = ap span ha.nine in
    (normal, omega (arith, value-lt_nine _ normal, wide, ap (λ (t : ℕ). t * c) wide))

-- bn_subi is a + (prime - b) modulo 2 ^ 270 on normalized numbers, where the word b is not above
-- the lowest limb of the prime, and its result is normalized.
pub value-bn_subi :
    (x p b : ℕ) (xs ps : Bignum256)
    → IsNormalized (x ∷ xs)
    → IsNormalized (p ∷ ps)
    → b ≤ p
    → IsNormalized (bn_subi (x ∷ xs) b (p ∷ ps))
      × (value (bn_subi (x ∷ xs) b (p ∷ ps)) ≡ (value (x ∷ xs) + (value (p ∷ ps) - b)) % 2 ^ 270)
unfolding bn_subi bn_add add_loop
value-bn_subi x p b xs ps ha hp hb =
    let sum : ℕ = u32 (0 + u32 (u32 (x + 2 ^ 32 - b) + p)) in
    let exact : sum ≡ x + p - b = omega (arith, ha.limbs, hp.limbs) in
    let (c, hc, limbs, len, eq) =
      add_loop-Chain (sum / 2 ^ 30) xs ps (omega (arith, ha.limbs, hp.limbs)) ha.limbs.1 hp.limbs.1
        (omega (arith, ha.nine, hp.nine)) in
    let normal : IsNormalized (bn_subi (x ∷ xs) b (p ∷ ps)) = record {
      nine = omega (arith, ha.nine);
      limbs = (omega (arith, low_limb_lem sum), limbs);
    } in
    let wide : span (length xs) ≡ 2 ^ 240 = span_above_first _ ha.nine in
    (
      normal,
      omega (arith, value-lt_nine _ normal, low_limb_lem sum, wide, ap (λ (t : ℕ). t * c) wide),
    )
