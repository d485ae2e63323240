-- ===== src/Bignum/Multiply/Reduction.antt =====
-- bn_multiply_reduce and bn_multiply in bignum.c.
use tronlink_i_os_core.Base.{
  ℕ, zero, suc, ◌+◌, ◌-◌, ◌*◌, ◌/◌, ◌^◌, ◌≤◌, ◌<◌, ◌≡◌, refl, ap, ◌∙◌, sym, subst, List, [], ◌∷◌,
  ◌++◌, arith, length, get_or, u32, take, replicate, ◌>>>◌, ◌<<<◌, length-append,
}
use native.Mathlib.Nat.{mul-le-mul_left}
use mathlib.Core.List.{append-nil}
use tronlink_i_os_core.Bignum.Number.{Bignum256, value, span, AreLimbs, IsNormalized}
use tronlink_i_os_core.Bignum.Reduce.FastMod.{IsModulus, IsPartlyReduced}
use tronlink_i_os_core.Bignum.Reduce.Multiple.{subtract_coef_times_above}
use tronlink_i_os_core.Bignum.Multiply.{
  reduce_window, bn_multiply_reduce_step, reduce_loop, bn_multiply_reduce, bn_multiply,
  bn_multiply_long,
}
use tronlink_i_os_core.Bignum.Multiply.Product.{value-bn_multiply_long}

-- The two highest limbs of a window, and the rest.
split_top_two :
    (n : ℕ) (xs above : List ℕ)
    → length xs ≡ suc (suc n)
    → AreLimbs xs
    → (low : ℕ) × (low < span n)
      × (value xs
          ≡ low + span n * (get_or (xs ++ above) n 0 + 2 ^ 30 * get_or (xs ++ above) (suc n) 0))
split_top_two n [] above e h = absurd (omega arith)
split_top_two n (x ∷ []) above e h = absurd (omega arith)
split_top_two zero (x ∷ (y ∷ [])) above e h = (0, omega arith, omega arith)
split_top_two zero (x ∷ (y ∷ (z ∷ xs))) above e h = absurd (omega arith)
split_top_two (suc n) (x ∷ (y ∷ xs)) above e h =
    let (low, small, eq) = split_top_two n (y ∷ xs) above (omega arith) h.1 in
    (x + 2 ^ 30 * low, omega arith, omega arith)

-- One step: ten limbs below 2 ^ 30 * 2 * prime become nine below 2 * prime, and a cleared limb.
reduce_window_lem :
    (r : ℕ) (rest above : List ℕ) (prime : Bignum256)
    → IsModulus prime
    → r < 2 ^ 30
    → IsNormalized rest
    → value rest < 2 * value prime
    → (s : Bignum256) × (reduce_window ((r ∷ rest) ++ above) prime ≡ s ++ (0 ∷ above))
      × IsPartlyReduced (value (r ∷ rest)) prime s
unfolding reduce_window
reduce_window_lem r rest above prime m hr hs partly =
    let limbs : AreLimbs (r ∷ rest) = (hr, hs.limbs) in
    let (low, small, eq) = split_top_two 8 (r ∷ rest) above (omega (arith, hs.nine)) limbs in
    let x8 : ℕ = get_or ((r ∷ rest) ++ above) 8 0 in
    let x9 : ℕ = get_or ((r ∷ rest) ++ above) 9 0 in
    let coef : ℕ = u32 ((x8 >>> 16) + u32 (x9 <<< 14)) in
    let exact : coef ≡ (x8 + 2 ^ 30 * x9) / 2 ^ 16 = omega (arith, m.below) in
    let gap : ℕ = 2 ^ 256 - value prime in
    let sum : value prime + gap ≡ 2 ^ 256 = omega (arith, m.below) in
    let parts : coef * value prime + coef * gap ≡ coef * 2 ^ 256 =
      omega (arith, ap (λ (t : ℕ). coef * t) sum) in
    let coef_small : coef < 2 ^ 31 = omega (arith, m.below) in
    let gap_small : gap ≤ 2 ^ 224 = omega (arith, m.above) in
    let excess : coef * gap ≤ coef * 2 ^ 224 = mul-le-mul_left coef gap_small in
    let (s, same, normal, congruent) =
      subtract_coef_times_above coef r rest above prime coef_small limbs hs.nine m.normal
        (omega arith) (omega arith) in
    (
      s,
      same,
      record {
        normal = normal;
        quotient = coef;
        congruent = congruent;
        small = omega (arith, m.above);
      },
    )

-- The rounds above the lowest limb leave that limb alone.
reduce_loop-cons :
    (n r : ℕ) (res : List ℕ) (prime : Bignum256)
    → reduce_loop (suc n) (r ∷ res) prime ≡ reduce_window (r ∷ reduce_loop n res prime) prime
unfolding reduce_loop bn_multiply_reduce_step
reduce_loop-cons zero r res prime = refl
reduce_loop-cons (suc n) r res prime =
    reduce_loop-cons n r (bn_multiply_reduce_step n res prime) prime

abbrev zeros : ℕ → List ℕ
zeros n = replicate n 0

reduce_loop_lem :
    (low high : List ℕ) (prime : Bignum256)
    → IsModulus prime
    → AreLimbs low
    → IsNormalized high
    → value high < 2 * value prime
    → (s : Bignum256) × (reduce_loop (length low) (low ++ high) prime ≡ s ++ zeros (length low))
      × IsPartlyReduced (value (low ++ high)) prime s
reduce_loop_lem [] high prime m hl hh small = (
  high,
  unfold reduce_loop in sym (append-nil high),
  record { normal = hh; quotient = 0; congruent = omega arith; small = small },
)
reduce_loop_lem (r ∷ low) high prime m hl hh small =
    let (s, same, ih) = reduce_loop_lem low high prime m hl.1 hh small in
    let (t, step, one) =
      reduce_window_lem r s (zeros (length low)) prime m hl.0 ih.normal ih.small in
    (
      t,
      reduce_loop-cons (length low) r (low ++ high) prime
          ∙ ap (λ (res : List ℕ). reduce_window (r ∷ res) prime) same
          ∙ step,
      record {
        normal = one.normal;
        quotient = one.quotient + 2 ^ 30 * ih.quotient;
        congruent = omega (arith, one.congruent, ih.congruent);
        small = one.small;
      },
    )

value-append : (xs ys : List ℕ) → value (xs ++ ys) ≡ value xs + span (length xs) * value ys
value-append [] ys = omega arith
value-append (x ∷ xs) ys = omega (arith, value-append xs ys)

take-append : (xs ys : List ℕ) → take (length xs) (xs ++ ys) ≡ xs
take-append [] ys = refl
take-append (x ∷ xs) ys = ap (λ (t : List ℕ). x ∷ t) (take-append xs ys)

-- A list of limbs at a place in it.
split_limbs :
    (n : ℕ) (res : List ℕ)
    → AreLimbs res
    → n ≤ length res
    → (low : List ℕ) × (high : List ℕ) × (res ≡ low ++ high)
      × (length low ≡ n)
      × AreLimbs low
      × AreLimbs high
split_limbs zero res h e = ([], res, refl, refl, tt, h)
split_limbs (suc n) [] h e = absurd (omega arith)
split_limbs (suc n) (x ∷ res) h e =
    let (low, high, same, len, hl, hh) = split_limbs n res h.1 (omega arith) in
    (x ∷ low, high, ap (λ (t : List ℕ). x ∷ t) same, omega arith, (h.0, hl), hh)

-- The rounds on two halves, of which the upper one is partly reduced.
reduce_halves :
    (low high : List ℕ) (prime : Bignum256)
    → IsModulus prime
    → AreLimbs low
    → length low ≡ 9
    → IsNormalized high
    → value high < 2 * value prime
    → IsPartlyReduced (value (low ++ high)) prime (take 9 (reduce_loop 9 (low ++ high) prime))
reduce_halves low high prime m hl nine hh small =
    let (s, loop, reduced) = reduce_loop_lem low high prime m hl hh small in
    let result : take 9 (reduce_loop 9 (low ++ high) prime) ≡ s =
      ap (λ (n : ℕ). take 9 (reduce_loop n (low ++ high) prime)) (sym nine)
      ∙ ap (take 9) loop
      ∙ ap (λ (n : ℕ). take n (s ++ zeros (length low))) (sym reduced.normal.nine)
      ∙ take-append s (zeros (length low)) in
    subst (IsPartlyReduced (value (low ++ high)) prime) (sym result) reduced

-- bn_multiply_reduce takes 18 normalized limbs below 2 ^ 270 * 2 * modulus, for a normalized
-- modulus between 2 ^ 256 - 2 ^ 224 and 2 ^ 256, to a normalized number below twice the modulus
-- that is congruent to them.
pub bn_multiply_reduce-IsPartlyReduced :
    (res : List ℕ) (prime : Bignum256)
    → IsModulus prime
    → AreLimbs res
    → length res ≡ 18
    → value res < 2 ^ 270 * (2 * value prime)
    → IsPartlyReduced (value res) prime (bn_multiply_reduce res prime)
unfolding bn_multiply_reduce
bn_multiply_reduce-IsPartlyReduced res prime m hr len small =
    let (low, high, same, nine, hl, hh) = split_limbs 9 res hr (omega arith) in
    let wide : span (length low) ≡ 2 ^ 270 = ap span nine in
    let high_small : value high < 2 * value prime =
      omega
        (arith, value-append low high, ap value same, wide, ap (λ (t : ℕ). t * value high) wide) in
    let normal : IsNormalized high = record {
      nine = omega (arith, length-append low high, ap length same);
      limbs = hh;
    } in
    subst (λ t. IsPartlyReduced (value t) prime (take 9 (reduce_loop 9 t prime))) (sym same)
      (reduce_halves low high prime m hl nine normal high_small)

-- bn_multiply is multiplication modulo a normalized modulus between 2 ^ 256 - 2 ^ 224 and 2 ^
-- 256: the result is normalized, below twice the modulus and congruent to the product, for
-- normalized factors whose product is below 2 ^ 270 * 2 * modulus.
pub bn_multiply-IsPartlyReduced :
    (k x prime : Bignum256)
    → IsModulus prime
    → IsNormalized k
    → IsNormalized x
    → value k * value x < 2 ^ 270 * (2 * value prime)
    → IsPartlyReduced (value k * value x) prime (bn_multiply k x prime)
unfolding bn_multiply
bn_multiply-IsPartlyReduced k x prime m hk hx small =
    let (limbs, len, eq) = value-bn_multiply_long k x hk hx in
    rw (← eq)
      (bn_multiply_reduce-IsPartlyReduced (bn_multiply_long k x) prime m limbs len (omega arith))
