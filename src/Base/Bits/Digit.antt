-- ===== src/Base/Bits/Digit.antt =====
-- The native operations stand for `digits`, a recursion on binary digits over fuel. The fuel is
-- dropped here: each operation on two numbers is that on their halves, and one digit.
use Prim.Native.Nat.{
  ℕ, zero, suc, ◌+◌, ◌-◌, ◌*◌, ◌/◌, ◌%◌, ◌≤◌, ◌<◌, min, max, bit_and, bit_or, bit_xor, digits,
  bitwise, differ, bit_and-bitwise, bit_or-bitwise, bit_xor-bitwise,
}
use mathlib.Core.Path.{◌≡◌, refl, sym, ap, ◌∙◌}
use native.Mathlib.Omega.{arith}

module _ (base : ℕ → ℕ) (digit : ℕ → ℕ → ℕ) where
  one_more :
      (fuel x y : ℕ) → x ≤ fuel → digits base digit (suc fuel) x y ≡ digits base digit fuel x y
  one_more zero (suc x) y h = absurd (omega arith)
  one_more zero zero y h = refl
  one_more (suc fuel) zero y h = refl
  one_more (suc fuel) (suc x) y h = rw (one_more fuel (suc x / 2) (y / 2) (omega arith)) refl

  spare_fuel :
      (spare fuel x y : ℕ)
      → x ≤ fuel
      → digits base digit (spare + fuel) x y ≡ digits base digit fuel x y
  spare_fuel zero fuel x y h = ap (λ (n : ℕ). digits base digit n x y) (omega arith)
  spare_fuel (suc spare) fuel x y h =
      ap (λ (n : ℕ). digits base digit n x y) {x = suc spare + fuel} {y = suc (spare + fuel)}
        (omega arith)
      ∙ one_more (spare + fuel) x y (omega arith)
      ∙ spare_fuel spare fuel x y h

  halve_suc :
      (a b : ℕ)
      → bitwise base digit (suc a) b
        ≡ bitwise base digit (suc a / 2) (b / 2) * 2 + digit (suc a % 2) (b % 2)
  halve_suc a b =
      let half : ℕ = suc a / 2 in
      let split : (a - half) + half ≡ a = omega arith in
      let same : digits base digit a half (b / 2) ≡ digits base digit half half (b / 2) =
        ap (λ (n : ℕ). digits base digit n half (b / 2)) (sym split)
        ∙ spare_fuel (a - half) half half (b / 2) (omega arith) in
      ap (λ (t : ℕ). t * 2 + digit (suc a % 2) (b % 2)) same

differ_bits : (x y : ℕ) → x < 2 → y < 2 → differ x y ≡ (x + y) % 2
differ_bits zero zero p q = refl
differ_bits zero (suc zero) p q = refl
differ_bits (suc zero) zero p q = refl
differ_bits (suc zero) (suc zero) p q = refl
differ_bits zero (suc (suc y)) p q = absurd (omega arith)
differ_bits (suc zero) (suc (suc y)) p q = absurd (omega arith)
differ_bits (suc (suc x)) y p q = absurd (omega arith)

differ_digits : (x y : ℕ) → differ (x % 2) (y % 2) ≡ (x + y) % 2
differ_digits x y = omega (arith, differ_bits (x % 2) (y % 2) (omega arith) (omega arith))

pub bit_and_halves : (a b : ℕ) → bit_and a b ≡ bit_and (a / 2) (b / 2) * 2 + min (a % 2) (b % 2)
bit_and_halves zero b = simp bit_and-bitwise (omega arith)
bit_and_halves (suc a) b = simp bit_and-bitwise (halve_suc (λ y. 0) min a b)

pub bit_or_halves : (a b : ℕ) → bit_or a b ≡ bit_or (a / 2) (b / 2) * 2 + max (a % 2) (b % 2)
bit_or_halves zero b = simp bit_or-bitwise (omega arith)
bit_or_halves (suc a) b = simp bit_or-bitwise (halve_suc (λ y. y) max a b)

pub bit_xor_halves : (a b : ℕ) → bit_xor a b ≡ bit_xor (a / 2) (b / 2) * 2 + (a + b) % 2
bit_xor_halves zero b = simp bit_xor-bitwise (omega arith)
bit_xor_halves (suc a) b =
    simp bit_xor-bitwise (omega (arith, halve_suc (λ y. y) differ a b, differ_digits (suc a) b))
