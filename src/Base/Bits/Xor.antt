-- ===== src/Base/Bits/Xor.antt =====
-- `^` is a group operation in which each number is its own inverse, and acts on each field alone.
use Prim.Native.Nat.{ℕ, zero, suc, ◌+◌, ◌*◌, ◌/◌, ◌^◌, ◌≤◌, ◌<◌, bit_xor, bit_xor-bitwise}
use mathlib.Core.Path.{◌≡◌, refl, ap, ◌∙◌, sym}
use native.Mathlib.Nat.{pow-suc}
use native.Mathlib.Omega.{arith}
use tronlink_i_os_core.Base.Bits.Digit.{bit_xor_halves}

xor_comm_within : (n a b : ℕ) → a + b ≤ n → bit_xor a b ≡ bit_xor b a
xor_comm_within n zero zero h = refl
xor_comm_within zero (suc a) b h = absurd (omega arith)
xor_comm_within zero zero (suc b) h = absurd (omega arith)
xor_comm_within (suc n) a b h =
    omega (
      arith,
      bit_xor_halves a b,
      bit_xor_halves b a,
      xor_comm_within n (a / 2) (b / 2) (omega arith),
    )

pub bit_xor_comm : (a b : ℕ) → bit_xor a b ≡ bit_xor b a
bit_xor_comm a b = xor_comm_within (a + b) a b (omega arith)

xor_assoc_within : (n a b c : ℕ) → a + b + c ≤ n → bit_xor (bit_xor a b) c ≡ bit_xor a (bit_xor b c)
xor_assoc_within n zero zero zero h = refl
xor_assoc_within zero (suc a) b c h = absurd (omega arith)
xor_assoc_within zero zero (suc b) c h = absurd (omega arith)
xor_assoc_within zero zero zero (suc c) h = absurd (omega arith)
xor_assoc_within (suc n) a b c h =
    let left : bit_xor a b / 2 ≡ bit_xor (a / 2) (b / 2) = omega (arith, bit_xor_halves a b) in
    let right : bit_xor b c / 2 ≡ bit_xor (b / 2) (c / 2) = omega (arith, bit_xor_halves b c) in
    let ih = xor_assoc_within n (a / 2) (b / 2) (c / 2) (omega arith) in
    omega (
      arith,
      bit_xor_halves a b,
      bit_xor_halves b c,
      bit_xor_halves (bit_xor a b) c,
      bit_xor_halves a (bit_xor b c),
      ap (λ (t : ℕ). bit_xor t (c / 2)) left ∙ ih ∙ sym (ap (λ (t : ℕ). bit_xor (a / 2) t) right),
    )

pub bit_xor_assoc : (a b c : ℕ) → bit_xor (bit_xor a b) c ≡ bit_xor a (bit_xor b c)
bit_xor_assoc a b c = xor_assoc_within (a + b + c) a b c (omega arith)

xor_self_within : (n a : ℕ) → a ≤ n → bit_xor a a ≡ 0
xor_self_within n zero h = refl
xor_self_within zero (suc a) h = absurd (omega arith)
xor_self_within (suc n) (suc a) h =
    omega (arith, bit_xor_halves (suc a) (suc a), xor_self_within n (suc a / 2) (omega arith))

pub bit_xor_self : (a : ℕ) → bit_xor a a ≡ 0
bit_xor_self a = xor_self_within a a (omega arith)

pub zero-bit_xor : (a : ℕ) → bit_xor 0 a ≡ a
zero-bit_xor a = simp bit_xor-bitwise

pub bit_xor-zero : (a : ℕ) → bit_xor a 0 ≡ a
bit_xor-zero a = bit_xor_comm a 0 ∙ zero-bit_xor a

-- Twice the same number is no change.
pub bit_xor-cancel : (a b : ℕ) → bit_xor (bit_xor a b) b ≡ a
bit_xor-cancel a b =
    bit_xor_assoc a b b ∙ ap (λ (t : ℕ). bit_xor a t) (bit_xor_self b) ∙ bit_xor-zero a

double : (q k : ℕ) → q * 2 ^ suc k ≡ 2 * (q * 2 ^ k)
double q k = omega (arith, ap (λ (t : ℕ). q * t) (pow-suc 2 k))

-- Two fields of `k` low bits and the rest above do not meet.
pub bit_xor-fields :
    (k p q r s : ℕ)
    → r < 2 ^ k
    → s < 2 ^ k
    → bit_xor (p * 2 ^ k + r) (q * 2 ^ k + s) ≡ bit_xor p q * 2 ^ k + bit_xor r s
bit_xor-fields zero p q zero zero hr hs = ground (arith, bit_xor_self 0)
bit_xor-fields zero p q (suc r) s hr hs = absurd (omega arith)
bit_xor-fields zero p q zero (suc s) hr hs = absurd (omega arith)
bit_xor-fields (suc k) p q r s hr hs = ground (
  arith,
  bit_xor_halves (p * 2 ^ suc k + r) (q * 2 ^ suc k + s),
  bit_xor_halves r s,
  double p k,
  double q k,
  double (bit_xor p q) k,
  bit_xor-fields k p q (r / 2) (s / 2) (omega (arith, pow-suc 2 k)) (omega (arith, pow-suc 2 k)),
)

pub bit_xor-lt : (k a b : ℕ) → a < 2 ^ k → b < 2 ^ k → bit_xor a b < 2 ^ k
bit_xor-lt zero zero zero p q = omega (arith, bit_xor_self 0)
bit_xor-lt zero (suc a) b p q = absurd (omega arith)
bit_xor-lt zero zero (suc b) p q = absurd (omega arith)
bit_xor-lt (suc k) a b p q = omega (
  arith,
  bit_xor_halves a b,
  pow-suc 2 k,
  bit_xor-lt k (a / 2) (b / 2) (omega (arith, pow-suc 2 k)) (omega (arith, pow-suc 2 k)),
)

pub bit_xor-eq-zero : (a b : ℕ) → bit_xor a b ≡ 0 → a ≡ b
bit_xor-eq-zero a b e = sym (bit_xor-cancel a b) ∙ ap (λ (t : ℕ). bit_xor t b) e ∙ zero-bit_xor b
