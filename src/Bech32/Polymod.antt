-- ===== src/Bech32/Polymod.antt =====
-- bech32_polymod_step and exclusive or.
use tronlink_i_os_core.Base.{
  ℕ, ◌+◌, ◌*◌, ◌/◌, ◌%◌, ◌^◌, ◌<◌, ◌≡◌, refl, ap, ◌∙◌, sym, arith, u8, bit_and, bit_xor,
  bit_and-mask, bit_xor_comm, bit_xor_assoc, bit_xor-fields, bit_xor-lt, bit_xor-zero, bit_xor_self,
}
use mathlib.Core.Path.{ap₂}
use native.Mathlib.Nat.{mod-lt, div-add-mod'}
use tronlink_i_os_core.Bech32.{feedback, bech32_polymod_step}

pub past : (x y g : ℕ) → bit_xor (bit_xor x y) g ≡ bit_xor (bit_xor x g) y
past x y g = bit_xor_assoc x y g ∙ ap (bit_xor x) (bit_xor_comm y g) ∙ sym (bit_xor_assoc x g y)

-- A value goes through the feedback untouched.
feedback_linear : (x y b : ℕ) → feedback (bit_xor x y) b ≡ bit_xor (feedback x b) y
unfolding feedback
feedback_linear x y b = rw (past x y _, past _ y _, past _ y _, past _ y _, past _ y _) refl

-- Exclusive or with a value below 2 ^ k, on the low bits and on the rest.
pub xor_low :
    (k x y : ℕ)
    → y < 2 ^ k
    → 0 < 2 ^ k
    → (bit_xor x y % 2 ^ k ≡ bit_xor (x % 2 ^ k) y) × (bit_xor x y / 2 ^ k ≡ x / 2 ^ k)
xor_low k x y hy pos =
    let low = bit_xor-lt k (x % 2 ^ k) y (mod-lt x pos) hy in
    let split : bit_xor x y ≡ x / 2 ^ k * 2 ^ k + bit_xor (x % 2 ^ k) y =
      ap₂ bit_xor (sym (div-add-mod' x (2 ^ k))) (omega arith)
      ∙ bit_xor-fields k (x / 2 ^ k) 0 (x % 2 ^ k) y (mod-lt x pos) hy
      ∙ ap (λ (t : ℕ). t * 2 ^ k + bit_xor (x % 2 ^ k) y) (bit_xor-zero (x / 2 ^ k)) in
    (
      ap (λ (t : ℕ). t % 2 ^ k) split ∙ fields_mod (x / 2 ^ k) (bit_xor (x % 2 ^ k) y) low,
      ap (λ (t : ℕ). t / 2 ^ k) split ∙ fields_div (x / 2 ^ k) (bit_xor (x % 2 ^ k) y) low,
    )
  where
    fields_mod : (q r : ℕ) → r < 2 ^ k → (q * 2 ^ k + r) % 2 ^ k ≡ r
    fields_mod q r h = grind arith

    fields_div : (q r : ℕ) → r < 2 ^ k → (q * 2 ^ k + r) / 2 ^ k ≡ q
    fields_div q r h = grind arith

pub xor_shift : (x y : ℕ) → bit_xor x y * 2 ^ 5 ≡ bit_xor (x * 2 ^ 5) (y * 2 ^ 5)
xor_shift x y = sym (
    ap₂ bit_xor {x = x * 2 ^ 5} {y = x * 2 ^ 5 + 0} {u = y * 2 ^ 5} {v = y * 2 ^ 5 + 0}
      (omega arith) (omega arith)
    ∙ bit_xor-fields 5 x y 0 0 (omega arith) (omega arith)
    ∙ omega (arith, bit_xor_self 0))

mask25 : (x : ℕ) → bit_and x 0x1ffffff ≡ x % 2 ^ 25
mask25 x = bit_and-mask 25 x

-- To add (xor) a value below 2 ^ 25 to a checksum is to add 2 ^ 5 times that value to the step's
-- result.
pub step_linear :
    (x y : ℕ)
    → y < 2 ^ 25
    → bech32_polymod_step (bit_xor x y) ≡ bit_xor (bech32_polymod_step x) (y * 2 ^ 5)
unfolding bech32_polymod_step
step_linear x y hy =
    let (low, high) = xor_low 25 x y hy (omega arith) in
    rw (mask25 (bit_xor x y), mask25 x, low, high, xor_shift (x % 2 ^ 25) y)
      (feedback_linear (x % 2 ^ 25 * 2 ^ 5) (y * 2 ^ 5) (u8 (x / 2 ^ 25)))
