-- ===== src/Bignum/Compare/Order.antt =====
-- The tests of Bignum/Compare.antt and the order of the values; bn_cmov.
use tronlink_i_os_core.Base.{
  ℕ, ◌+◌, ◌*◌, ◌^◌, ◌≤◌, ◌<◌, ◌≡◌, ◌↔◌, ◌⊎◌, refl, ap, ◌∙◌, [], ◌∷◌, arith, length, All, u32, ◌<<<◌,
  bit_and, bit_or, bit_xor, Bool, true, false, ltb, ◌==◌, if◌then◌else◌, bit_or-fields,
  bit_and-mask, bit_or-zero, bit_and-zero, zero-bit_or, bit_or-eq-zero, bit_xor-eq-zero,
  bit_xor_self,
}
use native.Mathlib.Nat.{pow-suc, pow-le-pow_right}
use tronlink_i_os_core.Bignum.Number.{Bignum256, value, AreLimbs, IsNormalized}
use tronlink_i_os_core.Bignum.Compare.{
  flag, compare_limbs, bn_is_less, bn_is_equal, bn_is_zero, bn_cmov, or_limbs, or_differences,
  true_mask, false_mask,
}

-- One round of bn_is_less appends a bit to a word.
append_flag : (w : ℕ) (b : Bool) → w < 2 ^ 31 → bit_or (u32 (w <<< 1)) (flag b) ≡ 2 * w + flag b
append_flag w b h =
    let exact : u32 (w <<< 1) ≡ w * 2 ^ 1 = omega arith in
    rw exact (bit_or-fields 1 w (flag b) (ground arith) ∙ omega arith)

flag-ltb : (x y : ℕ) → (flag (ltb x y) ≡ 1) × (x < y) ⊎ (flag (ltb x y) ≡ 0) × (y ≤ x)
flag-ltb x y = ground arith

ltb_of_iff : {m n k l : ℕ} → (m < n) ↔ (k < l) → ltb m n ≡ ltb k l
ltb_of_iff h = ground arith

record Compared (n va vb res1 res2 : ℕ) : Type 0 where
  fits1 : res1 < 2 ^ n
  fits2 : res2 < 2 ^ n
  less : (res2 < res1) ↔ (va < vb)
  more : (res1 < res2) ↔ (vb < va)

compare_limbs-Compared :
    (a b : Bignum256)
    → AreLimbs a
    → AreLimbs b
    → length a ≡ length b
    → length a ≤ 31
    → Compared (length a) (value a) (value b) (compare_limbs a b).0 (compare_limbs a b).1
unfolding compare_limbs
compare_limbs-Compared [] [] ha hb e short = record {
  fits1 = omega arith;
  fits2 = omega arith;
  less = (λ h. h, λ h. h);
  more = (λ h. h, λ h. h);
}
compare_limbs-Compared [] (y ∷ ys) ha hb e short = absurd (omega arith)
compare_limbs-Compared (x ∷ xs) [] ha hb e short = absurd (omega arith)
compare_limbs-Compared (x ∷ xs) (y ∷ ys) ha hb e short =
    let ih = compare_limbs-Compared xs ys ha.1 hb.1 (omega arith) (omega arith) in
    let (res1, res2) = compare_limbs xs ys in
    let room = pow-le-pow_right {n = 2} (omega arith) {i = length xs} {j = 30} (omega arith) in
    let word1 = append_flag res1 (ltb x y) (omega arith) in
    let word2 = append_flag res2 (ltb y x) (omega arith) in
    record {
      fits1 = omega (arith, word1, flag-ltb x y, pow-suc 2 (length xs));
      fits2 = omega (arith, word2, flag-ltb y x, pow-suc 2 (length xs));
      less = (grind (arith, word1, word2), grind (arith, word1, word2));
      more = (grind (arith, word1, word2), grind (arith, word1, word2));
    }

-- bn_is_less decides the order of two normalized numbers.
pub bn_is_less_lem :
    (a b : Bignum256) → IsNormalized a → IsNormalized b → bn_is_less a b ≡ ltb (value a) (value b)
unfolding bn_is_less
bn_is_less_lem a b ha hb =
    let c =
      compare_limbs-Compared a b ha.limbs hb.limbs (omega (arith, ha.nine, hb.nine))
        (omega (arith, ha.nine)) in
    ltb_of_iff c.less

zero_of_or_limbs :
    (result : ℕ) (a : Bignum256) → or_limbs result a ≡ 0 → (result ≡ 0) × (value a ≡ 0)
unfolding or_limbs
zero_of_or_limbs result [] h = (h, refl)
zero_of_or_limbs result (x ∷ xs) h =
    let rest = zero_of_or_limbs (bit_or result x) xs h in
    let both = bit_or-eq-zero result x rest.0 in (both.0, omega arith)

or_limbs_of_zero : (a : Bignum256) → value a ≡ 0 → or_limbs 0 a ≡ 0
unfolding or_limbs
or_limbs_of_zero [] h = refl
or_limbs_of_zero (x ∷ xs) h =
    let lowest : x ≡ 0 = omega arith in rw lowest (or_limbs_of_zero xs (omega arith))

eqb_of_iff : (m n k l : ℕ) → (m ≡ n → k ≡ l) → (k ≡ l → m ≡ n) → (m == n) ≡ (k == l)
eqb_of_iff m n k l there back = ground arith

-- bn_is_zero decides whether a number is 0, whatever its words.
pub bn_is_zero_lem : (a : Bignum256) → bn_is_zero a ≡ (value a == 0)
unfolding bn_is_zero
bn_is_zero_lem a =
    eqb_of_iff (or_limbs 0 a) 0 (value a) 0 (λ h. (zero_of_or_limbs 0 a h).1) (or_limbs_of_zero a)

equal_of_or_differences :
    (result : ℕ) (a b : Bignum256)
    → length a ≡ length b
    → or_differences result a b ≡ 0
    → (result ≡ 0) × (a ≡ b)
unfolding or_differences
equal_of_or_differences result [] [] e h = (h, refl)
equal_of_or_differences result [] (y ∷ ys) e h = absurd (omega arith)
equal_of_or_differences result (x ∷ xs) [] e h = absurd (omega arith)
equal_of_or_differences result (x ∷ xs) (y ∷ ys) e h =
    let rest = equal_of_or_differences (bit_or result (bit_xor x y)) xs ys (omega arith) h in
    let both = bit_or-eq-zero result (bit_xor x y) rest.0 in
    (both.0, cc (bit_xor-eq-zero x y both.1))

or_differences_self : (a : Bignum256) → or_differences 0 a a ≡ 0
unfolding or_differences
or_differences_self [] = refl
or_differences_self (x ∷ xs) = rw (bit_xor_self) (or_differences_self xs)

value-injective :
    (a b : Bignum256) → AreLimbs a → AreLimbs b → length a ≡ length b → value a ≡ value b → a ≡ b
value-injective [] [] ha hb e h = refl
value-injective [] (y ∷ ys) ha hb e h = absurd (omega arith)
value-injective (x ∷ xs) [] ha hb e h = absurd (omega arith)
value-injective (x ∷ xs) (y ∷ ys) ha hb e h =
    let head : x ≡ y = omega arith in
    cc (head, value-injective xs ys ha.1 hb.1 (omega arith) (omega arith))

-- bn_is_equal decides whether two normalized numbers are the same.
pub bn_is_equal_lem :
    (a b : Bignum256) → IsNormalized a → IsNormalized b → bn_is_equal a b ≡ (value a == value b)
unfolding bn_is_equal
bn_is_equal_lem a b ha hb =
    let same : length a ≡ length b = omega (arith, ha.nine, hb.nine) in
    eqb_of_iff (or_differences 0 a b) 0 (value a) (value b)
      (λ h. ap value (equal_of_or_differences 0 a b same h).1)
      λ h.
        let equal = value-injective a b ha.limbs hb.limbs same h in
        rw (← equal) (or_differences_self a)

word_select :
    (cond : Bool) (x y : ℕ)
    → x < 2 ^ 32
    → y < 2 ^ 32
    → bit_or (bit_and x (true_mask cond)) (bit_and y (false_mask cond)) ≡ (if cond then x else y)
word_select true x y hx hy = rw (bit_and-mask 32 x, bit_and-zero y, bit_or-zero) (omega arith)
word_select false x y hx hy = rw (bit_and-zero x, bit_and-mask 32 y, zero-bit_or) (omega arith)

-- bn_cmov chooses between two numbers of as many 32-bit words by its condition.
pub bn_cmov_lem :
    (cond : Bool) (a b : Bignum256)
    → All (λ x. x < 2 ^ 32) a
    → All (λ x. x < 2 ^ 32) b
    → length a ≡ length b
    → bn_cmov cond a b ≡ (if cond then a else b)
unfolding bn_cmov
bn_cmov_lem true [] [] ha hb e = refl
bn_cmov_lem false [] [] ha hb e = refl
bn_cmov_lem cond [] (y ∷ ys) ha hb e = absurd (omega arith)
bn_cmov_lem cond (x ∷ xs) [] ha hb e = absurd (omega arith)
bn_cmov_lem true (x ∷ xs) (y ∷ ys) ha hb e =
    cc (word_select true x y ha.0 hb.0, bn_cmov_lem true xs ys ha.1 hb.1 (omega arith))
bn_cmov_lem false (x ∷ xs) (y ∷ ys) ha hb e =
    cc (word_select false x y ha.0 hb.0, bn_cmov_lem false xs ys ha.1 hb.1 (omega arith))
