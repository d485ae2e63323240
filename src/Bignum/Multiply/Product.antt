-- ===== src/Bignum/Multiply/Product.antt =====
-- bn_multiply_long in bignum.c.
use tronlink_i_os_core.Base.{
  ℕ, zero, suc, ◌+◌, ◌*◌, ◌/◌, ◌^◌, ◌≤◌, ◌<◌, ◌≡◌, refl, ap, ◌∙◌, List, [], ◌∷◌, ◌++◌, arith,
  length, get_or, u32, length-append, All-append,
}
use native.Mathlib.Nat.{zero-add}
use tronlink_i_os_core.Bignum.Number.{
  Bignum256, value, span, AreLimbs, IsLimb, IsNormalized, low_limb_lem, value-lt_nine,
}
use tronlink_i_os_core.Bignum.Multiply.{column, columns_loop, bn_multiply_long}
use tronlink_i_os_core.Bignum.Multiply.Column.{conv, column_lem, get_or_above}

-- The polynomial of `n` coefficients from `i` on, at 2 ^ 30.
columns_value : List ℕ → List ℕ → ℕ → ℕ → ℕ
columns_value k x zero i = 0
columns_value k x (suc n) i = conv k x i + 2 ^ 30 * columns_value k x n (suc i)

limbs_value : List ℕ → ℕ → ℕ → ℕ
limbs_value x zero i = 0
limbs_value x (suc n) i = get_or x i 0 + 2 ^ 30 * limbs_value x n (suc i)

limbs_value_nil : (n i : ℕ) → limbs_value [] n i ≡ 0
unfolding limbs_value
limbs_value_nil zero i = refl
limbs_value_nil (suc n) i = omega (arith, limbs_value_nil n (suc i))

limbs_value_shift :
    (d : ℕ) (x : List ℕ) (n i : ℕ) → limbs_value (d ∷ x) n (suc i) ≡ limbs_value x n i
unfolding limbs_value
limbs_value_shift d x zero i = refl
limbs_value_shift d x (suc n) i = omega (arith, limbs_value_shift d x n (suc i))

limbs_value-value : (x : List ℕ) (n : ℕ) → length x ≤ n → limbs_value x n 0 ≡ value x
unfolding limbs_value
limbs_value-value [] n h = limbs_value_nil n 0
limbs_value-value (d ∷ x) zero h = absurd (omega arith)
limbs_value-value (d ∷ x) (suc n) h =
    omega (arith, limbs_value_shift d x n 0, limbs_value-value x n (omega arith))

columns_value_shift :
    (d : ℕ) (k x : List ℕ) (n i : ℕ)
    → columns_value (d ∷ k) x n (suc i) ≡ d * limbs_value x n (suc i) + columns_value k x n i
unfolding columns_value limbs_value conv
columns_value_shift d k x zero i = omega arith
columns_value_shift d k x (suc n) i = omega (arith, columns_value_shift d k x n (suc i))

columns_value_nil : (x : List ℕ) (n i : ℕ) → columns_value [] x n i ≡ 0
unfolding columns_value conv
columns_value_nil x zero i = refl
columns_value_nil x (suc n) i = omega (arith, columns_value_nil x n (suc i))

-- With all coefficients there, the polynomial is the product.
columns_value-mul :
    (k x : List ℕ) (n : ℕ) → length k + length x ≤ n → columns_value k x n 0 ≡ value k * value x
unfolding columns_value conv
columns_value-mul [] x n h = columns_value_nil x n 0 ∙ omega arith
columns_value-mul (d ∷ k) x zero h = absurd (omega arith)
columns_value-mul (d ∷ k) x (suc n) h =
    let whole : get_or x 0 0 + 2 ^ 30 * limbs_value x n 1 ≡ value x =
      unfold limbs_value in limbs_value-value x (suc n) (omega arith) in
    omega (
      arith,
      columns_value_shift d k x n 0,
      columns_value-mul k x n (omega arith),
      ap (λ (t : ℕ). d * t) whole,
    )

-- The rounds store the polynomial's limbs, and hand on what is above them.
columns_loop_lem :
    (k x : Bignum256) (left i temp : ℕ)
    → IsNormalized k
    → IsNormalized x
    → i + left ≤ 17
    → temp < 2 ^ 35
    → AreLimbs (columns_loop k x left i temp).0
      × (length (columns_loop k x left i temp).0 ≡ left)
      × (value (columns_loop k x left i temp).0 + span left * (columns_loop k x left i temp).1
          ≡ temp + columns_value k x left i)
unfolding columns_loop columns_value
columns_loop_lem k x zero i temp hk hx high ht = (omega arith, refl, omega arith)
columns_loop_lem k x (suc left) i temp hk hx high ht =
    let (sum, bound) = column_lem k x i temp hk hx (omega arith) ht in
    let next : i + 1 ≡ suc i = omega arith in
    let (limbs, len, eq) =
      columns_loop_lem k x left (i + 1) (column k x i temp / 2 ^ 30) hk hx (omega arith)
        (omega arith) in
    (
      (omega (arith, low_limb_lem (column k x i temp)), limbs),
      omega arith,
      omega
          (arith, low_limb_lem (column k x i temp), ap (λ (t : ℕ). columns_value k x left t) next),
    )

value-append_one :
    (xs : List ℕ) (top : ℕ) → value (xs ++ (top ∷ [])) ≡ value xs + span (length xs) * top
value-append_one [] top = omega arith
value-append_one (x ∷ xs) top = omega (arith, value-append_one xs top)

product_lt : {a b : ℕ} → a < 2 ^ 270 → b < 2 ^ 270 → a * b < 2 ^ 540
product_lt {a} {b} ha hb = grind arith

-- The coefficients above the 17 columns are all 0.
conv_above : (k x : List ℕ) (i : ℕ) → length k + length x ≤ suc i → conv k x i ≡ 0
unfolding conv
conv_above [] x i e = refl
conv_above (d ∷ k) x zero e = omega (arith, ap (λ (t : ℕ). d * t) (get_or_above x 0 (omega arith)))
conv_above (d ∷ k) x (suc i) e = omega (
  arith,
  ap (λ (t : ℕ). d * t) (get_or_above x (suc i) (omega arith)),
  conv_above k x i (omega arith),
)

columns_value_last :
    (k x : List ℕ) (n i : ℕ)
    → columns_value k x (suc n) i ≡ columns_value k x n i + span n * conv k x (n + i)
unfolding columns_value
columns_value_last k x zero i = omega (arith, ap (λ (t : ℕ). conv k x t) (zero-add i))
columns_value_last k x (suc n) i =
    let index : n + suc i ≡ suc n + i = omega arith in
    omega (arith, columns_value_last k x n (suc i), ap (λ (t : ℕ). span n * conv k x t) index)

-- bn_multiply_long computes the product of two normalized numbers exactly, in 18 normalized
-- limbs: no word of it overflows.
pub value-bn_multiply_long :
    (k x : Bignum256)
    → IsNormalized k
    → IsNormalized x
    → AreLimbs (bn_multiply_long k x)
      × (length (bn_multiply_long k x) ≡ 18)
      × (value (bn_multiply_long k x) ≡ value k * value x)
unfolding bn_multiply_long
value-bn_multiply_long k x hk hx =
    let run = columns_loop k x 17 0 0 in
    let (limbs, len, eq) = columns_loop_lem k x 17 0 0 hk hx (omega arith) (omega arith) in
    let product : columns_value k x 18 0 ≡ value k * value x =
      columns_value-mul k x 18 (omega (arith, hk.nine, hx.nine)) in
    let last = columns_value_last k x 17 0 in
    let top : conv k x 17 ≡ 0 = conv_above k x 17 (omega (arith, hk.nine, hx.nine)) in
    let bound : value k * value x < 2 ^ 540 =
      product_lt (value-lt_nine k hk) (value-lt_nine x hx) in
    let small : run.1 < 2 ^ 30 = omega arith in
    let exact : u32 run.1 ≡ run.1 = omega arith in
    let whole = value-append_one run.0 (u32 run.1) in
    (
      All-append IsLimb run.0 (u32 run.1 ∷ []) limbs (omega arith),
      omega (arith, length-append run.0 (u32 run.1 ∷ [])),
      omega (arith, whole, ap span len, ap (λ (t : ℕ). span t * u32 run.1) len),
    )
