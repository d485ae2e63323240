-- ===== src/Bignum/Bits.antt =====
-- The number of bits in bignum.c: bn_bitcount.
use tronlink_i_os_core.Base.{
  ℕ, zero, suc, ◌+◌, ◌-◌, ◌*◌, ◌/◌, ◌^◌, ◌≤◌, ◌<◌, ◌≡◌, ◌⊎◌, inl, inr, refl, ap, subst, ◌∙◌, sym,
  [], ◌∷◌, arith, length, ◌==◌, if◌then◌else◌, Bool-cases, ==_iff, get_or, take,
}
use native.Mathlib.Nat.{mul-le-mul_left}
use native.Mathlib.Omega.{pow_step}
use tronlink_i_os_core.Bignum.Number.{Bignum256, value, span, IsNormalized, AreLimbs}

-- `32 - __builtin_clz(tmp)`, the bits of a limb, on fuel: each round halves it.
pub bit_length : ℕ → ℕ → ℕ
bit_length zero tmp = 0
bit_length (suc fuel) tmp = let rest = bit_length fuel (tmp / 2) in if tmp == 0 then 0 else rest + 1

-- The loop, over the limbs that are left and the highest of them first.
pub bitcount_loop : ℕ → Bignum256 → ℕ
bitcount_loop zero a = 0
bitcount_loop (suc i) a =
    let lower = bitcount_loop i a in
    let tmp = get_or a i 0 in if tmp == 0 then lower else i * 30 + bit_length 32 tmp

unfoldable pub bn_bitcount : Bignum256 → ℕ
unfolding bitcount_loop bit_length
bn_bitcount a = bitcount_loop 9 a

-- `bits` is how many bits `n` has; 0 has none.
pub record IsBitCount (n bits : ℕ) : Type 0 where
  pub fits : n < 2 ^ bits
  pub least : (bits ≡ 0) ⊎ (2 ^ (bits - 1) ≤ n)

pow_shift : (k b : ℕ) → 2 ^ (k + b) ≡ 2 ^ k * 2 ^ b
pow_shift zero b = ap (λ (t : ℕ). 2 ^ t) {x = 0 + b} {y = b} (omega arith) ∙ omega arith
pow_shift (suc k) b =
    ap (λ (t : ℕ). 2 ^ t) {x = suc k + b} {y = suc (k + b)} (omega arith)
    ∙ pow_step 2 (k + b)
    ∙ ap (λ (t : ℕ). 2 * t) (pow_shift k b)
    ∙ regroup (2 ^ k) (2 ^ b)
    ∙ ap (λ (t : ℕ). t * 2 ^ b) (sym (pow_step 2 k))
  where
    regroup : (x y : ℕ) → 2 * (x * y) ≡ 2 * x * y
    regroup x y = grind arith

doubled : (b : ℕ) → 2 ^ (b + 1) ≡ 2 * 2 ^ b
doubled b = ap (λ (t : ℕ). 2 ^ t) {x = b + 1} {y = suc b} (omega arith) ∙ pow_step 2 b

highest_bit : (n b : ℕ) → 1 ≤ n → IsBitCount (n / 2) b → 2 ^ b ≤ n
highest_bit n zero h c = omega arith
highest_bit n (suc b) h c = elim c.least [
  | inl none ↦ absurd (omega arith)
  | inr top ↦
      let same : suc b - 1 ≡ b = omega arith in
      let half : 2 ^ b ≤ n / 2 = rw same at top in omega (arith, pow_step 2 b)
]

bit_length-IsBitCount : (fuel n : ℕ) → n < 2 ^ fuel → IsBitCount n (bit_length fuel n)
unfolding bit_length
bit_length-IsBitCount zero n h = record { fits = omega arith; least = inl refl }
bit_length-IsBitCount (suc fuel) n h = elim (Bool-cases (n == 0)) [
  | inl none ↦
      let zero_bits : n ≡ 0 = (==_iff n 0).0 none in
      rw none (record { fits = omega arith; least = inl refl })
  | inr some ↦
      let half : n / 2 < 2 ^ fuel = omega (arith, pow_step 2 fuel) in
      let ih = bit_length-IsBitCount fuel (n / 2) half in
      let bits : ℕ = bit_length fuel (n / 2) in
      let top = highest_bit n bits (ground arith) ih in
      let same : bits + 1 - 1 ≡ bits = omega arith in
      rw some (record { fits = omega (arith, doubled bits, ih.fits); least = inr (rw same top) })
]

span-pow : (i b : ℕ) → 2 ^ (i * 30 + b) ≡ span i * 2 ^ b
span-pow zero b = ap (λ (t : ℕ). 2 ^ t) {x = 0 * 30 + b} {y = b} (omega arith) ∙ omega arith
span-pow (suc i) b =
    ap (λ (t : ℕ). 2 ^ t) {x = suc i * 30 + b} {y = i * 30 + (30 + b)} (omega arith)
    ∙ span-pow i (30 + b)
    ∙ ap (λ (t : ℕ). span i * t) (pow_shift 30 b)
    ∙ grind arith

-- What is below a limb, and the limb on top.
value-take-suc :
    (i : ℕ) (a : Bignum256)
    → AreLimbs a
    → i < length a
    → (value (take (suc i) a) ≡ value (take i a) + span i * get_or a i 0)
      × (value (take i a) < span i)
      × (get_or a i 0 < 2 ^ 30)
value-take-suc i [] h lt = absurd (omega arith)
value-take-suc zero (x ∷ a) h lt = (omega arith, omega arith, h.0)
value-take-suc (suc i) (x ∷ a) h lt =
    let (eq, small, limb) = value-take-suc i a h.1 (omega arith) in
    (omega arith, omega (arith, h.0), limb)

-- The bits of a limb on top of others.
bits_above :
    (i low tmp bits : ℕ)
    → low < span i
    → 1 ≤ tmp
    → IsBitCount tmp bits
    → IsBitCount (low + span i * tmp) (i * 30 + bits)
bits_above i low tmp zero lt pos c = absurd (omega (arith, c.fits))
bits_above i low tmp (suc b) lt pos c =
    let down : i * 30 + suc b - 1 ≡ i * 30 + b = omega arith in
    let top : 2 ^ b ≤ tmp = elim c.least [
      | inl none ↦ absurd (omega arith)
      | inr most ↦ let same : suc b - 1 ≡ b = omega arith in rw same at most
    ] in
    let scaled : span i * 2 ^ b ≤ span i * tmp = mul-le-mul_left (span i) top in
    let next : span i * suc tmp ≤ span i * 2 ^ suc b = mul-le-mul_left (span i) c.fits in
    record {
      fits = omega (arith, span-pow i (suc b), next);
      least = inr (rw (down, span-pow i b) (omega arith));
    }

bitcount_loop-IsBitCount :
    (i : ℕ) (a : Bignum256)
    → AreLimbs a
    → i ≤ length a
    → IsBitCount (value (take i a)) (bitcount_loop i a)
unfolding bitcount_loop
bitcount_loop-IsBitCount zero a h le = record { fits = omega arith; least = inl refl }
bitcount_loop-IsBitCount (suc i) a h le =
    let (eq, small, limb) = value-take-suc i a h le in
    let ih = bitcount_loop-IsBitCount i a h (omega arith) in
    elim (Bool-cases (get_or a i 0 == 0)) [
      | inl none ↦
          let nothing : get_or a i 0 ≡ 0 = (==_iff _ 0).0 none in
          let same : value (take (suc i) a) ≡ value (take i a) =
            eq ∙ ap (λ (t : ℕ). value (take i a) + span i * t) nothing ∙ omega arith in
          rw (none, same) ih
      | inr some ↦
          rw (some, eq)
            (bits_above i (value (take i a)) (get_or a i 0) (bit_length 32 (get_or a i 0)) small
              (ground arith) (bit_length-IsBitCount 32 (get_or a i 0) (omega arith)))
    ]

take_all : (a : Bignum256) → take (length a) a ≡ a
take_all [] = refl
take_all (x ∷ a) = ap (λ (t : Bignum256). x ∷ t) (take_all a)

-- bn_bitcount gives the number of bits of a normalized number.
pub bn_bitcount-IsBitCount : (a : Bignum256) → IsNormalized a → IsBitCount (value a) (bn_bitcount a)
unfolding bn_bitcount
bn_bitcount-IsBitCount a h =
    let all : take 9 a ≡ a = ap (λ (n : ℕ). take n a) (sym h.nine) ∙ take_all a in
    subst (λ (x : Bignum256). IsBitCount (value x) (bitcount_loop 9 a)) all
      (bitcount_loop-IsBitCount 9 a h.limbs (omega (arith, h.nine)))
