-- ===== src/Bignum/Reduce/FastMod.antt =====
-- bn_fast_mod, bn_addmod and bn_mult_k in bignum.c.
use tronlink_i_os_core.Base.{
  ℕ, zero, suc, ◌+◌, ◌-◌, ◌*◌, ◌/◌, ◌^◌, ◌≤◌, ◌<◌, ◌≡◌, ap, ◌∙◌, sym, List, [], ◌∷◌, arith, length,
  All, map, get_or, IsU32, u32,
}
use native.Mathlib.Nat.{mul-le-mul_left, mul-le-mul_right}
use tronlink_i_os_core.Bignum.Number.{Bignum256, value, span, AreLimbs, IsNormalized}
use tronlink_i_os_core.Bignum.Sum.{add_limbs}
use tronlink_i_os_core.Bignum.Sum.Chain.{add_limbs_lem}
use tronlink_i_os_core.Bignum.Reduce.{bn_fast_mod, bn_addmod, bn_mult_k}
use tronlink_i_os_core.Bignum.Reduce.Multiple.{subtract_coef_times_lem}

-- A modulus that the reductions are made for: normalized, and just below 2 ^ 256.
pub record IsModulus (prime : Bignum256) : Type 0 where
  pub normal : IsNormalized prime
  pub above : 2 ^ 256 - 2 ^ 224 ≤ value prime
  pub below : value prime < 2 ^ 256

-- `r` is `v` modulo the prime, partly reduced.
pub record IsPartlyReduced (v : ℕ) (prime r : Bignum256) : Type 0 where
  pub normal : IsNormalized r
  pub quotient : ℕ
  pub congruent : value r + quotient * value prime ≡ v
  pub small : value r < 2 * value prime

-- The limb `n` and what the limbs below it can hold; words may reach beyond 2 ^ 30.
split_top :
    (n : ℕ) (xs : List ℕ)
    → length xs ≡ suc n
    → All IsU32 xs
    → (low : ℕ) × (low + 5 ≤ 5 * span n) × (value xs ≡ low + span n * get_or xs n 0)
split_top n [] e h = absurd (omega arith)
split_top zero (x ∷ []) e h = (0, omega arith, omega arith)
split_top zero (x ∷ (y ∷ xs)) e h = absurd (omega arith)
split_top (suc n) (x ∷ xs) e h =
    let (low, small, eq) = split_top n xs (omega arith) h.1 in
    (x + 2 ^ 30 * low, omega arith, omega arith)

get_or-IsU32 : (n : ℕ) (xs : List ℕ) → All IsU32 xs → get_or xs n 0 < 2 ^ 32
get_or-IsU32 n [] h = omega arith
get_or-IsU32 zero (x ∷ xs) h = h.0
get_or-IsU32 (suc n) (x ∷ xs) h = get_or-IsU32 n xs h.1

-- bn_fast_mod takes any nine 32-bit words: for a normalized modulus between 2 ^ 256 - 2 ^ 224 and
-- 2 ^ 256 its result is normalized, below twice the modulus and congruent to them.
pub bn_fast_mod-IsPartlyReduced :
    (x prime : Bignum256)
    → All IsU32 x
    → length x ≡ 9
    → IsModulus prime
    → IsPartlyReduced (value x) prime (bn_fast_mod x prime)
unfolding bn_fast_mod
bn_fast_mod-IsPartlyReduced x prime hx nine m =
    let top : ℕ = get_or x 8 0 in
    let coef : ℕ = top / 2 ^ 16 in
    let (low, small, eq) = split_top 8 x nine hx in
    let top_fits = get_or-IsU32 8 x hx in
    let gap : ℕ = 2 ^ 256 - value prime in
    let sum : value prime + gap ≡ 2 ^ 256 = omega (arith, m.below) in
    let parts : coef * value prime + coef * gap ≡ coef * 2 ^ 256 =
      omega (arith, ap (λ (t : ℕ). coef * t) sum) in
    let gap_small : gap ≤ 2 ^ 224 = omega (arith, m.above) in
    let excess : coef * gap ≤ coef * 2 ^ 224 = mul-le-mul_left coef gap_small in
    let (normal, exact) =
      subtract_coef_times_lem coef x prime (omega arith) hx nine m.normal (omega arith)
        (omega arith) in
    record { normal = normal; quotient = coef; congruent = exact; small = omega (arith, m.above) }

-- bn_addmod adds two normalized numbers modulo a normalized modulus between 2 ^ 256 - 2 ^ 224 and
-- 2 ^ 256: its result is normalized, below twice the modulus and congruent to the sum.
pub bn_addmod-IsPartlyReduced :
    (a b prime : Bignum256)
    → IsNormalized a
    → IsNormalized b
    → IsModulus prime
    → IsPartlyReduced (value a + value b) prime (bn_addmod a b prime)
unfolding bn_addmod
bn_addmod-IsPartlyReduced a b prime ha hb m =
    let (fits, len, eq) = add_limbs_lem a b ha.limbs hb.limbs (ha.nine ∙ sym hb.nine) in
    rw (← eq) (bn_fast_mod-IsPartlyReduced (add_limbs a b) prime (words _ fits) (len ∙ ha.nine) m)
  where
    words : (xs : List ℕ) → All (λ d. d < 2 ^ 31) xs → All IsU32 xs
    words [] h = h
    words (d ∷ xs) h = (omega arith, words xs h.1)

scaled_limbs :
    (k : ℕ) (x : Bignum256)
    → k ≤ 4
    → AreLimbs x
    → All IsU32 (map (λ d. u32 (k * d)) x)
      × (length (map (λ d. u32 (k * d)) x) ≡ length x)
      × (value (map (λ d. u32 (k * d)) x) ≡ k * value x)
scaled_limbs k [] hk hx = (omega arith, omega arith, omega arith)
scaled_limbs k (d ∷ xs) hk hx =
    let (words, len, eq) = scaled_limbs k xs hk hx.1 in
    let fits : k * d ≤ 4 * d = mul-le-mul_right d hk in
    ((omega arith, words), omega arith, omega arith)

-- bn_mult_k multiplies a normalized number by at most 4 modulo a normalized modulus between 2 ^
-- 256 - 2 ^ 224 and 2 ^ 256: its result is normalized, below twice the modulus and congruent to
-- the product.
pub bn_mult_k-IsPartlyReduced :
    (x : Bignum256) (k : ℕ) (prime : Bignum256)
    → IsNormalized x
    → k ≤ 4
    → IsModulus prime
    → IsPartlyReduced (k * value x) prime (bn_mult_k x k prime)
unfolding bn_mult_k
bn_mult_k-IsPartlyReduced x k prime hx hk m =
    let (words, len, eq) = scaled_limbs k x hk hx.limbs in
    rw (← eq) (bn_fast_mod-IsPartlyReduced _ prime words (len ∙ hx.nine) m)
