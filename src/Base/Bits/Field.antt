-- ===== src/Base/Bits/Field.antt =====
-- `|` of disjoint fields is a sum, and `&` with a low mask a remainder, at every width.
use Prim.Native.Nat.{
  ℕ, zero, suc, ◌+◌, ◌-◌, ◌*◌, ◌/◌, ◌%◌, ◌^◌, ◌≤◌, ◌<◌, bit_and, bit_or, bit_or-bitwise,
}
use mathlib.Core.Path.{◌≡◌, refl, ap, sym, ◌∙◌}
use native.Mathlib.Nat.{
  pow-suc, pow-succ', one-le-pow, div-div-eq-div-mul, div-one, mul-one, div-add-mod',
}
use native.Mathlib.Omega.{arith}
use tronlink_i_os_core.Base.Bits.Digit.{bit_and_halves, bit_or_halves}

-- Halving comes to zero within `n` rounds.
or_zero_within : (n a : ℕ) → a ≤ n → bit_or a 0 ≡ a
or_zero_within n zero h = refl
or_zero_within zero (suc a) h = absurd (omega arith)
or_zero_within (suc n) (suc a) h =
    omega (arith, bit_or_halves (suc a) 0, or_zero_within n (suc a / 2) (omega arith))

and_zero_within : (n a : ℕ) → a ≤ n → bit_and a 0 ≡ 0
and_zero_within n zero h = refl
and_zero_within zero (suc a) h = absurd (omega arith)
and_zero_within (suc n) (suc a) h =
    omega (arith, bit_and_halves (suc a) 0, and_zero_within n (suc a / 2) (omega arith))

pub bit_or-zero : (a : ℕ) → bit_or a 0 ≡ a
bit_or-zero a = or_zero_within a a (omega arith)

pub bit_and-zero : (a : ℕ) → bit_and a 0 ≡ 0
bit_and-zero a = and_zero_within a a (omega arith)

double : (q k : ℕ) → q * 2 ^ suc k ≡ 2 * (q * 2 ^ k)
double q k = omega (arith, ap (λ (t : ℕ). q * t) (pow-suc 2 k))

-- The low field is below `2 ^ k`, the high one a multiple of it.
pub bit_or-fields : (k q r : ℕ) → r < 2 ^ k → bit_or (q * 2 ^ k) r ≡ q * 2 ^ k + r
bit_or-fields zero q r h = ground (arith, bit_or-zero q)
bit_or-fields (suc k) q r h = ground (
  arith,
  bit_or_halves (q * 2 ^ suc k) r,
  double q k,
  pow-suc 2 k,
  bit_or-fields k q (r / 2) (omega (arith, pow-suc 2 k)),
)

low_field : (k q r : ℕ) → r < 2 ^ k → bit_and (q * 2 ^ k + r) (2 ^ k - 1) ≡ r
low_field zero q r h = rw bit_and-zero (omega arith)
low_field (suc k) q r h = ground (
  arith,
  bit_and_halves (q * 2 ^ suc k + r) (2 ^ suc k - 1),
  double q k,
  pow-suc 2 k,
  low_field k q (r / 2) (omega (arith, pow-suc 2 k)),
)

-- A mask of `k` ones takes the remainder by `2 ^ k`.
pub bit_and-mask : (k a : ℕ) → bit_and a (2 ^ k - 1) ≡ a % 2 ^ k
bit_and-mask k a = ground (arith, one-le-pow k 2, low_field k (a / 2 ^ k) (a % 2 ^ k))

pub zero-bit_or : (a : ℕ) → bit_or 0 a ≡ a
zero-bit_or a = simp bit_or-bitwise

-- The same with the low field written first.
pub bit_or-fields_comm : (k q r : ℕ) → r < 2 ^ k → bit_or r (q * 2 ^ k) ≡ q * 2 ^ k + r
bit_or-fields_comm zero q r h = ground (arith, zero-bit_or (q * 2 ^ 0))
bit_or-fields_comm (suc k) q r h = ground (
  arith,
  bit_or_halves r (q * 2 ^ suc k),
  double q k,
  pow-suc 2 k,
  bit_or-fields_comm k q (r / 2) (omega (arith, pow-suc 2 k)),
)

half_of_double : (n : ℕ) → 2 * n / 2 ≡ n
half_of_double n = omega arith

-- A mask above `k` zeros.
pub bit_and-shifted : (k a m : ℕ) → bit_and a (m * 2 ^ k) ≡ bit_and (a / 2 ^ k) m * 2 ^ k
bit_and-shifted zero a m = simp (div-one, mul-one)
bit_and-shifted (suc k) a m =
    let halved : a / 2 / 2 ^ k ≡ a / 2 ^ suc k =
      div-div-eq-div-mul a 2 (2 ^ k) ∙ ap (λ (t : ℕ). a / t) (sym (pow-succ' 2 k)) in
    omega (
      arith,
      bit_and_halves a (m * 2 ^ suc k),
      double m k,
      double (bit_and (a / 2 ^ suc k) m) k,
      ap (λ (t : ℕ). bit_and t m * 2 ^ k) halved,
      ap (λ (t : ℕ). bit_and (a / 2) (t / 2)) (double m k),
      ap (λ (t : ℕ). bit_and (a / 2) t) (half_of_double (m * 2 ^ k)),
      bit_and-shifted k (a / 2) m,
    )

or_nothing_within : (n a b : ℕ) → a + b ≤ n → bit_or a b ≡ 0 → (a ≡ 0) × (b ≡ 0)
or_nothing_within n zero zero h e = (refl, refl)
or_nothing_within zero (suc a) b h e = absurd (omega arith)
or_nothing_within zero zero (suc b) h e = absurd (omega arith)
or_nothing_within (suc n) a b h e =
    let halves = bit_or_halves a b in
    let ih = or_nothing_within n (a / 2) (b / 2) (omega arith) (omega arith) in omega arith

-- Nothing is set in `a | b` only if nothing is in either.
pub bit_or-eq-zero : (a b : ℕ) → bit_or a b ≡ 0 → (a ≡ 0) × (b ≡ 0)
bit_or-eq-zero a b e = or_nothing_within (a + b) a b (omega arith) e

pub bit_or-zero_zero : bit_or 0 0 ≡ 0
bit_or-zero_zero = refl

-- The same for any number whose low `k` bits are 0.
pub bit_or-low : (k n r : ℕ) → n % 2 ^ k ≡ 0 → r < 2 ^ k → bit_or n r ≡ n + r
bit_or-low k n r h fits =
    let multiple : n / 2 ^ k * 2 ^ k ≡ n = omega (arith, div-add-mod' n (2 ^ k)) in
    ap (λ (t : ℕ). bit_or t r) (sym multiple)
    ∙ bit_or-fields k (n / 2 ^ k) r fits
    ∙ ap (λ (t : ℕ). t + r) multiple

and_le_within : (n a b : ℕ) → b ≤ n → bit_and a b ≤ b
and_le_within n a zero h = omega (arith, bit_and-zero a)
and_le_within zero a (suc b) h = absurd (omega arith)
and_le_within (suc n) a (suc b) h =
    omega (arith, bit_and_halves a (suc b), and_le_within n (a / 2) (suc b / 2) (omega arith))

pub bit_and-le_right : (a b : ℕ) → bit_and a b ≤ b
bit_and-le_right a b = and_le_within b a b (omega arith)
