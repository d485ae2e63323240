-- ===== src/Bignum/Sum/Chain.antt =====
-- The loops of Bignum/Sum.antt, with the carry out of the last limb.
use tronlink_i_os_core.Base.{
  ℕ, ◌+◌, ◌-◌, ◌*◌, ◌/◌, ◌^◌, ◌≤◌, ◌<◌, ◌≡◌, [], ◌∷◌, arith, length, All, u32,
}
use tronlink_i_os_core.Bignum.Number.{Bignum256, value, span, AreLimbs, low_limb_lem}
use tronlink_i_os_core.Bignum.Sum.{add_loop, addi_loop, subtract_loop, subtractmod_loop, add_limbs}

-- What a carry chain of `n` limbs leaves: limbs `r`, and a carry past the last of them.
abbrev pub Chain : ℕ → ℕ → Bignum256 → ℕ → Type 0
Chain n top r total =
    (c : ℕ) × (c ≤ top) × AreLimbs r × (length r ≡ n) × (value r + span n * c ≡ total)

pub add_loop-Chain :
    (tmp : ℕ) (a b : Bignum256)
    → tmp ≤ 1
    → AreLimbs a
    → AreLimbs b
    → length a ≡ length b
    → Chain (length a) 1 (add_loop tmp a b) (tmp + value a + value b)
unfolding add_loop
add_loop-Chain tmp [] [] ht ha hb e = (tmp, ht, omega arith, omega arith, omega arith)
add_loop-Chain tmp [] (y ∷ ys) ht ha hb e = absurd (omega arith)
add_loop-Chain tmp (x ∷ xs) [] ht ha hb e = absurd (omega arith)
add_loop-Chain tmp (x ∷ xs) (y ∷ ys) ht ha hb e =
    let sum : ℕ = u32 (tmp + u32 (x + y)) in
    let (c, hc, limbs, len, eq) =
      add_loop-Chain (sum / 2 ^ 30) xs ys (omega arith) ha.1 hb.1 (omega arith) in
    (c, hc, (omega (arith, low_limb_lem sum), limbs), omega arith, omega (arith, low_limb_lem sum))

-- Any limbs, normalized or not, that leave room for the carry.
pub addi_loop-Chain :
    (tmp : ℕ) (a : Bignum256)
    → tmp < 2 ^ 31
    → All (λ x. x < 2 ^ 31) a
    → Chain (length a) (2 ^ 31) (addi_loop tmp a) (tmp + value a)
unfolding addi_loop
addi_loop-Chain tmp [] ht ha = (tmp, omega arith, omega arith, omega arith, omega arith)
addi_loop-Chain tmp (x ∷ xs) ht ha =
    let sum : ℕ = u32 (tmp + x) in
    let (c, hc, limbs, len, eq) = addi_loop-Chain (sum / 2 ^ 30) xs (omega arith) ha.1 in
    (c, hc, (omega (arith, low_limb_lem sum), limbs), omega arith, omega (arith, low_limb_lem sum))

-- The borrow is one less than the carry: each limb adds 2 ^ 30 - 1, so no word is negative.
pub subtract_loop-Chain :
    (tmp : ℕ) (a b : Bignum256)
    → tmp ≤ 1
    → AreLimbs a
    → AreLimbs b
    → length a ≡ length b
    → (c : ℕ) × (c ≤ 1)
      × AreLimbs (subtract_loop tmp a b)
      × (length (subtract_loop tmp a b) ≡ length a)
      × (value (subtract_loop tmp a b) + span (length a) * c + value b + 1
          ≡ tmp + value a + span (length a))
unfolding subtract_loop
subtract_loop-Chain tmp [] [] ht ha hb e = (tmp, ht, omega arith, omega arith, omega arith)
subtract_loop-Chain tmp [] (y ∷ ys) ht ha hb e = absurd (omega arith)
subtract_loop-Chain tmp (x ∷ xs) [] ht ha hb e = absurd (omega arith)
subtract_loop-Chain tmp (x ∷ xs) (y ∷ ys) ht ha hb e =
    let sum : ℕ = u32 (tmp + u32 (0x3fffffff + x + 2 ^ 32 - y)) in
    let (c, hc, limbs, len, eq) =
      subtract_loop-Chain (sum / 2 ^ 30) xs ys (omega arith) ha.1 hb.1 (omega arith) in
    (c, hc, (omega (arith, low_limb_lem sum), limbs), omega arith, omega (arith, low_limb_lem sum))

pub subtractmod_loop-Chain :
    (tmp : ℕ) (a b prime : Bignum256)
    → tmp ≤ 3
    → AreLimbs a
    → AreLimbs b
    → AreLimbs prime
    → length a ≡ length b
    → length a ≡ length prime
    → (c : ℕ) × (c ≤ 3)
      × AreLimbs (subtractmod_loop tmp a b prime)
      × (length (subtractmod_loop tmp a b prime) ≡ length a)
      × (value (subtractmod_loop tmp a b prime) + span (length a) * c + value b + 1
          ≡ tmp + value a + 2 * value prime + span (length a))
unfolding subtractmod_loop
subtractmod_loop-Chain tmp [] [] [] ht ha hb hp e f =
    (tmp, ht, omega arith, omega arith, omega arith)
subtractmod_loop-Chain tmp [] [] (p ∷ ps) ht ha hb hp e f = absurd (omega arith)
subtractmod_loop-Chain tmp [] (y ∷ ys) prime ht ha hb hp e f = absurd (omega arith)
subtractmod_loop-Chain tmp (x ∷ xs) [] prime ht ha hb hp e f = absurd (omega arith)
subtractmod_loop-Chain tmp (x ∷ xs) (y ∷ ys) [] ht ha hb hp e f = absurd (omega arith)
subtractmod_loop-Chain tmp (x ∷ xs) (y ∷ ys) (p ∷ ps) ht ha hb hp e f =
    let sum : ℕ = u32 (tmp + u32 (0x3fffffff + x + u32 (2 * p) + 2 ^ 32 - y)) in
    let (c, hc, limbs, len, eq) =
      subtractmod_loop-Chain (sum / 2 ^ 30) xs ys ps (omega arith) ha.1 hb.1 hp.1 (omega arith)
        (omega arith) in
    (c, hc, (omega (arith, low_limb_lem sum), limbs), omega arith, omega (arith, low_limb_lem sum))

-- Sums of limbs below 2 ^ 31 fit a word each, with no carry between them.
pub add_limbs_lem :
    (a b : Bignum256)
    → AreLimbs a
    → AreLimbs b
    → length a ≡ length b
    → All (λ x. x < 2 ^ 31) (add_limbs a b)
      × (length (add_limbs a b) ≡ length a)
      × (value (add_limbs a b) ≡ value a + value b)
unfolding add_limbs
add_limbs_lem [] [] ha hb e = (omega arith, omega arith, omega arith)
add_limbs_lem [] (y ∷ ys) ha hb e = absurd (omega arith)
add_limbs_lem (x ∷ xs) [] ha hb e = absurd (omega arith)
add_limbs_lem (x ∷ xs) (y ∷ ys) ha hb e =
    let (fits, len, eq) = add_limbs_lem xs ys ha.1 hb.1 (omega arith) in
    ((omega arith, fits), omega arith, omega arith)
