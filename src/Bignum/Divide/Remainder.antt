-- ===== src/Bignum/Divide/Remainder.antt =====
-- bn_divmod58 and bn_divmod1000 in bignum.c.
use tronlink_i_os_core.Base.{◌+◌, ◌*◌, ◌/◌, ◌%◌, ◌<◌, ◌≡◌, ◌∙◌, [], ◌∷◌, arith, length}
use tronlink_i_os_core.Bignum.Number.{Bignum256, value, AreLimbs, IsNormalized}
use tronlink_i_os_core.Bignum.Divide.{bn_divmod58, bn_divmod1000}

divmod58_limbs :
    (a : Bignum256)
    → AreLimbs a
    → AreLimbs (bn_divmod58 a).1
      × (length (bn_divmod58 a).1 ≡ length a)
      × ((bn_divmod58 a).0 < 58)
      × (value a ≡ 58 * value (bn_divmod58 a).1 + (bn_divmod58 a).0)
unfolding bn_divmod58
divmod58_limbs [] h = (omega arith, omega arith, omega arith, omega arith)
divmod58_limbs (x ∷ []) h = (omega arith, omega arith, omega arith, omega arith)
divmod58_limbs (x ∷ (y ∷ xs)) h =
    let (limbs, len, rem, eq) = divmod58_limbs (y ∷ xs) h.1 in
    ((omega arith, limbs), omega arith, omega arith, omega arith)

-- bn_divmod58 divides a normalized number by 58: the quotient, which is normalized, and the
-- remainder.
pub value-bn_divmod58 :
    (a : Bignum256)
    → IsNormalized a
    → IsNormalized (bn_divmod58 a).1
      × (value (bn_divmod58 a).1 ≡ value a / 58)
      × ((bn_divmod58 a).0 ≡ value a % 58)
value-bn_divmod58 a h =
    let (limbs, len, rem, eq) = divmod58_limbs a h.limbs in
    (record { nine = len ∙ h.nine; limbs = limbs }, omega arith, omega arith)

divmod1000_limbs :
    (a : Bignum256)
    → AreLimbs a
    → AreLimbs (bn_divmod1000 a).1
      × (length (bn_divmod1000 a).1 ≡ length a)
      × ((bn_divmod1000 a).0 < 1000)
      × (value a ≡ 1000 * value (bn_divmod1000 a).1 + (bn_divmod1000 a).0)
unfolding bn_divmod1000
divmod1000_limbs [] h = (omega arith, omega arith, omega arith, omega arith)
divmod1000_limbs (x ∷ []) h = (omega arith, omega arith, omega arith, omega arith)
divmod1000_limbs (x ∷ (y ∷ xs)) h =
    let (limbs, len, rem, eq) = divmod1000_limbs (y ∷ xs) h.1 in
    ((omega arith, limbs), omega arith, omega arith, omega arith)

-- bn_divmod1000 divides a normalized number by 1000: the quotient, which is normalized, and the
-- remainder.
pub value-bn_divmod1000 :
    (a : Bignum256)
    → IsNormalized a
    → IsNormalized (bn_divmod1000 a).1
      × (value (bn_divmod1000 a).1 ≡ value a / 1000)
      × ((bn_divmod1000 a).0 ≡ value a % 1000)
value-bn_divmod1000 a h =
    let (limbs, len, rem, eq) = divmod1000_limbs a h.limbs in
    (record { nine = len ∙ h.nine; limbs = limbs }, omega arith, omega arith)
