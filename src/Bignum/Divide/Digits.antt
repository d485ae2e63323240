-- ===== src/Bignum/Divide/Digits.antt =====
-- bn_digitcount in bignum.c and the decimal digits of a number.
use tronlink_i_os_core.Base.{
  ℕ, zero, suc, ◌+◌, ◌-◌, ◌*◌, ◌^◌, ◌≤◌, ◌<◌, ◌≡◌, ◌⊎◌, inl, inr, refl, ap, Bool-cases, leb, leb→le,
  arith,
}
use native.Mathlib.Nat.{pow-suc, mul-le-mul_left}
use native.Mathlib.Numerals.{towards_suc}
use tronlink_i_os_core.Bignum.Number.{Bignum256, value, IsNormalized}
use tronlink_i_os_core.Bignum.Divide.{bn_divmod1000, count_group, digitcount_loop, bn_digitcount}
use tronlink_i_os_core.Bignum.Divide.Remainder.{value-bn_divmod1000}

-- `digits` is how many decimal digits `n` has; 0 has one.
pub record IsDigitCount (n digits : ℕ) : Type 0 where
  pub fits : n < 10 ^ digits
  pub least : (digits ≡ 1) ⊎ (10 ^ (digits - 1) ≤ n)

power_step : (i : ℕ) → 10 ^ (i + 1) ≡ 10 * 10 ^ i
power_step i = simp towards_suc (omega (arith, pow-suc 10 i))

powers :
    (i : ℕ)
    → (10 ^ (i + 1) ≡ 10 * 10 ^ i) × (10 ^ (i + 2) ≡ 100 * 10 ^ i) × (10 ^ (i + 3) ≡ 1000 * 10 ^ i)
powers i = (
  power_step i,
  simp towards_suc (omega (arith, pow-suc 10 i, pow-suc 10 (suc i))),
  simp towards_suc (omega (arith, pow-suc 10 i, pow-suc 10 (suc i), pow-suc 10 (suc (suc i)))),
)

-- One more than `k` digits, where the number lies between two powers of ten.
between : (n k digits : ℕ) → digits ≡ k + 1 → 10 ^ k ≤ n → n < 10 ^ (k + 1) → IsDigitCount n digits
between n k digits e low high =
    let down : digits - 1 ≡ k = omega arith in
    record { fits = rw e high; least = inr (rw down low) }

-- A group of three digits goes above the `i` digits counted so far.
count_group-IsDigitCount :
    (i low limb digits : ℕ)
    → limb < 1000
    → low < 10 ^ i
    → IsDigitCount low digits
    → IsDigitCount (low + 10 ^ i * limb) (count_group i limb digits)
count_group-IsDigitCount i low limb digits hl hi h = elim (Bool-cases (leb 100 limb)) [
  | inl large ↦
      let lower = mul-le-mul_left (10 ^ i) (leb→le 100 limb large) in
      let upper = mul-le-mul_left {m = limb} {n = 999} (10 ^ i) (omega arith) in
      let next : i + 2 + 1 ≡ i + 3 = omega arith in
      rw large (
        between (low + 10 ^ i * limb) (i + 2) (i + 3) (omega arith) (omega (arith, powers i))
          (rw next (omega (arith, powers i))))
  | inr less_100 ↦ elim (Bool-cases (leb 10 limb)) [
    | inl medium ↦
        let lower = mul-le-mul_left (10 ^ i) (leb→le 10 limb medium) in
        let upper = mul-le-mul_left {m = limb} {n = 99} (10 ^ i) (ground arith) in
        let next : i + 1 + 1 ≡ i + 2 = omega arith in
        rw (less_100, medium)
          (between (low + 10 ^ i * limb) (i + 1) (i + 2) (omega arith) (omega (arith, powers i))
            (rw next (omega (arith, powers i))))
    | inr less_10 ↦ elim (Bool-cases (leb 1 limb)) [
      | inl small ↦
          let lower = mul-le-mul_left (10 ^ i) (leb→le 1 limb small) in
          let upper = mul-le-mul_left {m = limb} {n = 9} (10 ^ i) (ground arith) in
          rw (less_100, less_10, small)
            (between (low + 10 ^ i * limb) i (i + 1) refl (omega arith) (omega (arith, powers i)))
      | inr nothing ↦
          let none : limb ≡ 0 = ground arith in
          let same : low + 10 ^ i * limb ≡ low = rw none (omega arith) in
          rw (same, less_100, less_10, nothing) h
    ]
  ]
]

-- `low` is what the groups counted so far are worth.
digitcount_loop-IsDigitCount :
    (left i low digits : ℕ) (val : Bignum256)
    → IsNormalized val
    → low < 10 ^ i
    → IsDigitCount low digits
    → value val < 10 ^ (3 * left)
    → IsDigitCount (low + 10 ^ i * value val) (digitcount_loop left i val digits)
unfolding digitcount_loop
digitcount_loop-IsDigitCount zero i low digits val hv hi h small =
    let none : value val ≡ 0 = omega arith in
    let same : low + 10 ^ i * value val ≡ low = rw none (omega arith) in rw same h
digitcount_loop-IsDigitCount (suc left) i low digits val hv hi h small =
    let (normal, quotient, limb_eq) = value-bn_divmod1000 val hv in
    let limb : ℕ = (bn_divmod1000 val).0 in
    let rest : Bignum256 = (bn_divmod1000 val).1 in
    let upper = mul-le-mul_left {m = limb} {n = 999} (10 ^ i) (omega arith) in
    let more : 3 * suc left ≡ 3 * left + 3 = omega arith in
    let room : value val < 1000 * 10 ^ (3 * left) =
      omega (arith, powers (3 * left), ap (λ (t : ℕ). 10 ^ t) more) in
    let ih =
      digitcount_loop-IsDigitCount left (i + 3) (low + 10 ^ i * limb) (count_group i limb digits)
        rest normal (omega (arith, powers i))
        (count_group-IsDigitCount i low limb digits (omega arith) hi h) (omega arith) in
    let parts : value val ≡ 1000 * value rest + limb = omega arith in
    let total : low + 10 ^ i * limb + 10 ^ (i + 3) * value rest ≡ low + 10 ^ i * value val =
      omega
        (arith, ap (λ (t : ℕ). t * value rest) (powers i).2, ap (λ (t : ℕ). 10 ^ i * t) parts) in
    rw (← total) ih

-- bn_digitcount gives the number of decimal digits of a normalized number below 10 ^ 78.
pub bn_digitcount-IsDigitCount :
    (a : Bignum256) → IsNormalized a → value a < 10 ^ 78 → IsDigitCount (value a) (bn_digitcount a)
unfolding bn_digitcount
bn_digitcount-IsDigitCount a ha small =
    let whole : 0 + 10 ^ 0 * value a ≡ value a = omega arith in
    let start : IsDigitCount 0 1 = record { fits = omega arith; least = inl refl } in
    rw whole at (digitcount_loop-IsDigitCount 26 0 0 1 a ha (omega arith) start small)
