-- ===== src/Bignum/Multiply/Column.antt =====
-- The inner loops of bn_multiply_long: the coefficients of a product of polynomials.
use tronlink_i_os_core.Base.{
  ℕ, zero, suc, ◌+◌, ◌-◌, ◌*◌, ◌^◌, ◌≤◌, ◌<◌, ◌≡◌, refl, ap, ◌∙◌, List, [], ◌∷◌, arith, length,
  get_or, u64, ltb, Bool-cases, inl, inr, ltb→lt,
}
use native.Mathlib.Nat.{zero-add, sub-zero}
use tronlink_i_os_core.Bignum.Number.{Bignum256, AreLimbs, IsNormalized}
use tronlink_i_os_core.Bignum.Multiply.{column_loop, column}

-- The coefficient `i` of the product of two polynomials.
unfoldable pub conv : List ℕ → List ℕ → ℕ → ℕ
conv [] x i = 0
conv (k ∷ ks) x zero = k * get_or x 0 0
conv (k ∷ ks) x (suc i) = k * get_or x (suc i) 0 + conv ks x i

-- The products that `left` rounds from `j` on add, without a word's bound.
range : List ℕ → List ℕ → ℕ → ℕ → ℕ → ℕ
range k x i zero j = 0
range k x i (suc left) j = get_or k j 0 * get_or x (i - j) 0 + range k x i left (j + 1)

get_or-lt : (xs : List ℕ) (n : ℕ) → AreLimbs xs → get_or xs n 0 < 2 ^ 30
get_or-lt [] n h = omega arith
get_or-lt (x ∷ xs) zero h = h.0
get_or-lt (x ∷ xs) (suc n) h = get_or-lt xs n h.1

product_lt : (a b : ℕ) → a < 2 ^ 30 → b < 2 ^ 30 → a * b < 2 ^ 60
product_lt a b ha hb = grind arith

-- Nine products of limbs and what a column hands on fit in 64 bits.
column_loop-range :
    (k x : List ℕ) (i left j temp : ℕ)
    → AreLimbs k
    → AreLimbs x
    → temp + left * 2 ^ 60 < 2 ^ 64
    → column_loop k x i left j temp ≡ temp + range k x i left j
unfolding column_loop range
column_loop-range k x i zero j temp hk hx room = omega arith
column_loop-range k x i (suc left) j temp hk hx room =
    let small =
      product_lt (get_or k j 0) (get_or x (i - j) 0) (get_or-lt k j hk) (get_or-lt x (i - j) hx) in
    let next : ℕ = u64 (temp + u64 (get_or k j 0 * get_or x (i - j) 0)) in
    let exact : next ≡ temp + get_or k j 0 * get_or x (i - j) 0 = omega arith in
    omega (arith, column_loop-range k x i left (j + 1) next hk hx (omega arith))

pub get_or_above : (xs : List ℕ) (n : ℕ) → length xs ≤ n → get_or xs n 0 ≡ 0
get_or_above [] n h = refl
get_or_above (x ∷ xs) zero h = absurd (omega arith)
get_or_above (x ∷ xs) (suc n) h = get_or_above xs n (omega arith)

-- Dropping the lowest digit of `k` moves both indices.
range_shift :
    (d : ℕ) (k x : List ℕ) (i left j : ℕ)
    → range (d ∷ k) x (suc i) left (suc j) ≡ range k x i left j
unfolding range
range_shift d k x i zero j = refl
range_shift d k x i (suc left) j =
    let index : suc i - suc j ≡ i - j = omega arith in
    let next : suc j + 1 ≡ suc (j + 1) = omega arith in
    rw (index, next, range_shift d k x i left (j + 1)) refl

range_nil : (x : List ℕ) (i left j : ℕ) → range [] x i left j ≡ 0
unfolding range
range_nil x i zero j = refl
range_nil x i (suc left) j = omega (arith, range_nil x i left (j + 1))

-- All j from 0 to i.
range-conv : (k x : List ℕ) (i : ℕ) → range k x i (suc i) 0 ≡ conv k x i
unfolding range conv
range-conv [] x i = range_nil x i (suc i) 0
range-conv (d ∷ k) x zero = omega arith
range-conv (d ∷ k) x (suc i) = omega (
  arith,
  ap (λ (t : ℕ). d * get_or x t 0) (sub-zero (suc i)),
  range_shift d k x i (suc i) 0,
  range-conv k x i,
)

range-add :
    (k x : List ℕ) (i a b j : ℕ) → range k x i (a + b) j ≡ range k x i a j + range k x i b (j + a)
unfolding range
range-add k x i zero b j =
    let none : 0 + b ≡ b = omega arith in
    let same : j + 0 ≡ j = omega arith in rw (none, same) (omega arith)
range-add k x i (suc a) b j =
    let more : suc a + b ≡ suc (a + b) = omega arith in
    let later : j + suc a ≡ j + 1 + a = omega arith in
    rw (more, later) (omega (arith, range-add k x i a b (j + 1)))

-- Where `x` has no limb, and where `k` has none, nothing is added.
range_past_x : (k x : List ℕ) (i left j : ℕ) → j + left + length x ≤ i + 1 → range k x i left j ≡ 0
unfolding range
range_past_x k x i zero j h = refl
range_past_x k x i (suc left) j h =
    let none = get_or_above x (i - j) (omega arith) in
    omega
      (arith, ap (λ (t : ℕ). get_or k j 0 * t) none, range_past_x k x i left (j + 1) (omega arith))

range_past_k : (k x : List ℕ) (i left j : ℕ) → length k ≤ j → range k x i left j ≡ 0
unfolding range
range_past_k k x i zero j h = refl
range_past_k k x i (suc left) j h =
    let none = get_or_above k j h in
    omega (
      arith,
      ap (λ (t : ℕ). t * get_or x (i - j) 0) none,
      range_past_k k x i left (j + 1) (omega arith),
    )

-- The upper half leaves out only products with no limb.
range_upper :
    (k x : List ℕ) (i : ℕ)
    → length k ≡ 9
    → length x ≡ 9
    → 9 ≤ i
    → i ≤ 16
    → range k x i (17 - i) (i - 8) ≡ range k x i (suc i) 0
range_upper k x i hk hx low high =
    let parts : suc i ≡ i - 8 + (17 - i + (i - 8)) = omega arith in
    rw parts (
      omega (
        arith,
        range-add k x i (i - 8) (17 - i + (i - 8)) 0,
        range-add k x i (17 - i) (i - 8) (0 + (i - 8)),
        ap (λ (t : ℕ). range k x i (17 - i) t) (zero-add (i - 8)),
        range_past_x k x i (i - 8) 0 (omega arith),
        range_past_k k x i (i - 8) (0 + (i - 8) + (17 - i)) (omega arith),
      ))

range-le :
    (k x : List ℕ) (i left j : ℕ) → AreLimbs k → AreLimbs x → range k x i left j ≤ left * 2 ^ 60
unfolding range
range-le k x i zero j hk hx = omega arith
range-le k x i (suc left) j hk hx =
    let small =
      product_lt (get_or k j 0) (get_or x (i - j) 0) (get_or-lt k j hk) (get_or-lt x (i - j) hx) in
    omega (arith, range-le k x i left (j + 1) hk hx)

-- Each of the 17 columns adds its coefficient to what it is handed, without overflow.
pub column_lem :
    (k x : Bignum256) (i temp : ℕ)
    → IsNormalized k
    → IsNormalized x
    → i ≤ 16
    → temp < 2 ^ 35
    → (column k x i temp ≡ temp + conv k x i) × (conv k x i ≤ 9 * 2 ^ 60)
unfolding column
column_lem k x i temp hk hx high ht = elim (Bool-cases (ltb i 9)) [
  | inl lower ↦
      let below = ltb→lt i 9 lower in
      let count : i + 1 ≡ suc i = omega arith in
      let adds = column_loop-range k x i (i + 1) 0 temp hk.limbs hx.limbs (omega arith) in
      let coefficient : range k x i (i + 1) 0 ≡ conv k x i = rw count (range-conv k x i) in
      let bound = range-le k x i (i + 1) 0 hk.limbs hx.limbs in
      (rw lower (omega arith), omega arith)
  | inr upper ↦
      let above : 9 ≤ i = ground arith in
      let adds = column_loop-range k x i (17 - i) (i - 8) temp hk.limbs hx.limbs (omega arith) in
      let coefficient : range k x i (17 - i) (i - 8) ≡ conv k x i =
        range_upper k x i hk.nine hx.nine above high ∙ range-conv k x i in
      let bound = range-le k x i (17 - i) (i - 8) hk.limbs hx.limbs in
      (rw upper (omega arith), omega arith)
]
