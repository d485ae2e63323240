-- ===== src/Bignum/Reduce/Multiple.antt =====
-- The subtraction of a multiple of the prime, limb by limb, that the reductions of bignum.c
-- share.
use tronlink_i_os_core.Base.{
  ℕ, zero, suc, ◌+◌, ◌-◌, ◌*◌, ◌/◌, ◌^◌, ◌≤◌, ◌<◌, ◌≡◌, refl, ap, ◌∙◌, List, [], ◌∷◌, ◌++◌, arith,
  length, All, u64, IsU32,
}
use mathlib.Core.List.{append_assoc}
use tronlink_i_os_core.Bignum.Number.{
  Bignum256, value, span, AreLimbs, low_limb, low_limb_lem, IsNormalized, span_above_first,
  value-lt_nine, value-lt,
}
use tronlink_i_os_core.Bignum.Reduce.{subtract_multiple, subtract_coef_times}

-- The offset that each step adds covers the greatest product.
product_fits : (p coef : ℕ) → p < 2 ^ 30 → coef < 2 ^ 31 → p * coef ≤ 0x1fffffff80000000
product_fits p coef hp hc = grind arith

-- `c` is what the last step carries out; the offsets add up to 2 ^ 31 spans, less 2 ^ 31.
pub subtract_multiple_lem :
    (coef temp : ℕ) (xs : List ℕ) (ps : Bignum256)
    → coef < 2 ^ 31
    → temp / 2 ^ 30 < 2 ^ 32
    → All IsU32 xs
    → AreLimbs ps
    → length xs ≡ length ps
    → (c : ℕ) × AreLimbs (subtract_multiple coef temp xs ps)
      × (length (subtract_multiple coef temp xs ps) ≡ length xs)
      × (value (subtract_multiple coef temp xs ps) + span (length xs) * c + coef * value ps + 2 ^ 31
          ≡ temp / 2 ^ 30 + value xs + 2 ^ 31 * span (length xs))
unfolding subtract_multiple
subtract_multiple_lem coef temp [] [] hc ht hx hp e =
    (temp / 2 ^ 30, omega arith, omega arith, omega arith)
subtract_multiple_lem coef temp [] (p ∷ ps) hc ht hx hp e = absurd (omega arith)
subtract_multiple_lem coef temp (x ∷ xs) [] hc ht hx hp e = absurd (omega arith)
subtract_multiple_lem coef temp (x ∷ xs) (p ∷ ps) hc ht hx hp e =
    let fits = product_fits p coef hp.0 hc in
    let sum : ℕ = u64 (temp / 2 ^ 30 + u64 (0x1fffffff80000000 + x + 2 ^ 64 - u64 (p * coef))) in
    let exact : sum + p * coef ≡ temp / 2 ^ 30 + 0x1fffffff80000000 + x = omega arith in
    let (c, limbs, len, eq) =
      subtract_multiple_lem coef sum xs ps hc (omega arith) hx.1 hp.1 (omega arith) in
    (c, (omega (arith, low_limb_lem sum), limbs), omega arith, omega (arith, low_limb_lem sum))

-- The same with one limb more than the prime has, and limbs above it that stay as they are.
pub subtract_multiple_above :
    (coef temp : ℕ) (xs above : List ℕ) (ps : Bignum256)
    → coef < 2 ^ 31
    → temp / 2 ^ 30 < 2 ^ 32
    → All IsU32 xs
    → AreLimbs ps
    → length xs ≡ suc (length ps)
    → (c : ℕ) × (r : List ℕ) × (subtract_multiple coef temp (xs ++ above) ps ≡ r ++ above)
      × AreLimbs r
      × (length r ≡ length xs)
      × (value r + span (length xs) * c + coef * value ps + 2 ^ 31
          ≡ temp / 2 ^ 30 + value xs + 2 ^ 31 * span (length xs))
unfolding subtract_multiple
subtract_multiple_above coef temp [] above ps hc ht hx hp e = absurd (omega arith)
subtract_multiple_above coef temp (x ∷ []) above [] hc ht hx hp e =
    let sum : ℕ = u64 (temp / 2 ^ 30 + (0x1fffffff80000000 + x)) in
    (
      sum / 2 ^ 30,
      low_limb sum ∷ [],
      refl,
      omega (arith, low_limb_lem sum),
      omega arith,
      omega (arith, low_limb_lem sum),
    )
subtract_multiple_above coef temp (x ∷ (y ∷ xs)) above [] hc ht hx hp e = absurd (omega arith)
subtract_multiple_above coef temp (x ∷ xs) above (p ∷ ps) hc ht hx hp e =
    let fits = product_fits p coef hp.0 hc in
    let sum : ℕ = u64 (temp / 2 ^ 30 + u64 (0x1fffffff80000000 + x + 2 ^ 64 - u64 (p * coef))) in
    let exact : sum + p * coef ≡ temp / 2 ^ 30 + 0x1fffffff80000000 + x = omega arith in
    let (c, r, same, limbs, len, eq) =
      subtract_multiple_above coef sum xs above ps hc (omega arith) hx.1 hp.1 (omega arith) in
    (
      c,
      low_limb sum ∷ r,
      ap (λ (t : List ℕ). low_limb sum ∷ t) same,
      (omega (arith, low_limb_lem sum), limbs),
      omega arith,
      omega (arith, low_limb_lem sum),
    )

-- Nine limbs less a multiple of the prime that is not above them.
pub subtract_coef_times_lem :
    (coef : ℕ) (x prime : Bignum256)
    → coef < 2 ^ 31
    → All IsU32 x
    → length x ≡ 9
    → IsNormalized prime
    → coef * value prime ≤ value x
    → value x < coef * value prime + 2 ^ 270
    → IsNormalized (subtract_coef_times coef x prime)
      × (value (subtract_coef_times coef x prime) + coef * value prime ≡ value x)
unfolding subtract_coef_times
subtract_coef_times_lem coef [] prime hc hx nine hp low high = absurd (omega arith)
subtract_coef_times_lem coef (x ∷ xs) [] hc hx nine hp low high = absurd (omega (arith, hp.nine))
subtract_coef_times_lem coef (x ∷ xs) (p ∷ ps) hc hx nine hp low high =
    let fits = product_fits p coef hp.limbs.0 hc in
    let temp : ℕ = u64 (0x2000000000000000 + x + 2 ^ 64 - u64 (p * coef)) in
    let exact : temp + p * coef ≡ 0x2000000000000000 + x = omega arith in
    let (c, limbs, len, eq) =
      subtract_multiple_lem coef temp xs ps hc (omega arith) hx.1 hp.limbs.1
        (omega (arith, hp.nine)) in
    let wide = span_above_first (length xs) nine in
    let normal : IsNormalized (subtract_coef_times coef (x ∷ xs) (p ∷ ps)) = record {
      nine = omega arith;
      limbs = (omega (arith, low_limb_lem temp), limbs);
    } in
    (
      normal,
      omega (arith, low_limb_lem temp, value-lt_nine _ normal, wide, ap (λ (t : ℕ). t * c) wide),
    )

-- A top limb that the value does not reach is 0.
clear_top :
    (n : ℕ) (r : List ℕ)
    → length r ≡ suc n
    → AreLimbs r
    → value r < span n
    → (s : List ℕ) × (r ≡ s ++ (0 ∷ [])) × AreLimbs s × (length s ≡ n) × (value s ≡ value r)
clear_top n [] len hr small = absurd (omega arith)
clear_top zero (x ∷ []) len hr small =
    let none : x ≡ 0 = omega arith in
    ([], ap (λ (t : ℕ). t ∷ []) none, omega arith, omega arith, omega arith)
clear_top zero (x ∷ (y ∷ r)) len hr small = absurd (omega arith)
clear_top (suc n) (x ∷ r) len hr small =
    let (s, same, limbs, len', eq) = clear_top n r (omega arith) hr.1 (omega arith) in
    (x ∷ s, ap (λ (t : List ℕ). x ∷ t) same, (hr.0, limbs), omega arith, omega arith)

limbs_are_words : (xs : List ℕ) → AreLimbs xs → All IsU32 xs
limbs_are_words [] h = h
limbs_are_words (x ∷ xs) h = (omega arith, limbs_are_words xs h.1)

-- Ten limbs, and those above them, less a multiple of the prime: where nine limbs hold the
-- difference, the tenth is cleared.
pub subtract_coef_times_above :
    (coef x : ℕ) (xs above : List ℕ) (prime : Bignum256)
    → coef < 2 ^ 31
    → AreLimbs (x ∷ xs)
    → length xs ≡ 9
    → IsNormalized prime
    → coef * value prime ≤ value (x ∷ xs)
    → value (x ∷ xs) < coef * value prime + 2 ^ 270
    → (r : Bignum256) × (subtract_coef_times coef ((x ∷ xs) ++ above) prime ≡ r ++ (0 ∷ above))
      × IsNormalized r
      × (value r + coef * value prime ≡ value (x ∷ xs))
unfolding subtract_coef_times
subtract_coef_times_above coef x xs above [] hc hx nine hp low high =
    absurd (omega (arith, hp.nine))
subtract_coef_times_above coef x xs above (p ∷ ps) hc hx nine hp low high =
    let fits = product_fits p coef hp.limbs.0 hc in
    let temp : ℕ = u64 (0x2000000000000000 + x + 2 ^ 64 - u64 (p * coef)) in
    let exact : temp + p * coef ≡ 0x2000000000000000 + x = omega arith in
    let (c, r, same, limbs, len, eq) =
      subtract_multiple_above coef temp xs above ps hc (omega arith) (limbs_are_words xs hx.1)
        hp.limbs.1 (omega (arith, hp.nine)) in
    let wide : span (length xs) ≡ 2 ^ 270 = ap span nine in
    let all : AreLimbs (low_limb temp ∷ r) = (omega (arith, low_limb_lem temp), limbs) in
    let bound = value-lt (low_limb temp ∷ r) all in
    let total : value (low_limb temp ∷ r) + coef * value (p ∷ ps) ≡ value (x ∷ xs) =
      omega
        (arith, low_limb_lem temp, bound, wide, ap span (len ∙ nine), ap (λ (t : ℕ). t * c) wide) in
    let (s, split, small, nine', kept) =
      clear_top 9 (low_limb temp ∷ r) (omega arith) all (omega arith) in
    (
      s,
      ap (λ (t : List ℕ). low_limb temp ∷ t) same
          ∙ ap (λ (t : List ℕ). t ++ above) split
          ∙ append_assoc s (0 ∷ []) above,
      record { nine = nine'; limbs = small },
      omega arith,
    )
