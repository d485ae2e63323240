-- ===== src/Bignum/Bytes/Read.antt =====
-- The loop of bn_read_be and bn_read_le, from words of 32 bits to limbs of 30.
use tronlink_i_os_core.Base.{
  ℕ, zero, suc, ◌+◌, ◌-◌, ◌*◌, ◌/◌, ◌%◌, ◌^◌, ◌<◌, ◌≡◌, ap, ◌∙◌, arith, length, u32, ◌<<<◌, bit_or,
  bit_or-fields_comm, IsU32,
}
use native.Mathlib.Nat.{pow-suc}
use tronlink_i_os_core.Bignum.Number.{value, AreLimbs, low_limb_lem}
use tronlink_i_os_core.Bignum.Bytes.{read_loop}

-- The words of the rounds from `i` on, in base 2 ^ 32.
unfoldable pub words_value : (ℕ → ℕ) → ℕ → ℕ → ℕ
words_value word zero i = 0
words_value word (suc left) i = word i + 2 ^ 32 * words_value word left (i + 1)

-- What is over in a word goes to the next limb: the arithmetic of a round at each `i`.
abbrev Carries : (i temp limb joined : ℕ) → Type 0
Carries i temp limb joined =
    (joined % 2 ^ 30 + 2 ^ 30 * (limb / 2 ^ (30 - 2 * i)) ≡ temp + 2 ^ (2 * i) * limb)
    × (limb / 2 ^ (30 - 2 * i) < 2 ^ (2 * (i + 1)))

field_at :
    (i temp limb : ℕ)
    → temp < 2 ^ (2 * i)
    → IsU32 limb
    → i < 8
    → Carries i temp limb (temp + u32 (limb * 2 ^ (2 * i)))
field_at zero temp limb ht hl hi = (omega arith, omega arith)
field_at (suc zero) temp limb ht hl hi = (omega arith, omega arith)
field_at (suc (suc zero)) temp limb ht hl hi = (omega arith, omega arith)
field_at (suc (suc (suc zero))) temp limb ht hl hi = (omega arith, omega arith)
field_at (suc (suc (suc (suc zero)))) temp limb ht hl hi = (omega arith, omega arith)
field_at (suc (suc (suc (suc (suc zero))))) temp limb ht hl hi = (omega arith, omega arith)
field_at (suc (suc (suc (suc (suc (suc zero)))))) temp limb ht hl hi = (omega arith, omega arith)
field_at (suc (suc (suc (suc (suc (suc (suc zero))))))) temp limb ht hl hi =
    (omega arith, omega arith)
field_at (suc (suc (suc (suc (suc (suc (suc (suc i)))))))) temp limb ht hl hi = absurd (omega arith)

-- The word's low bits go above the bits that are left over.
shifted_word :
    (i limb : ℕ) → i < 8 → u32 (limb * 2 ^ (2 * i)) ≡ limb % 2 ^ (32 - 2 * i) * 2 ^ (2 * i)
shifted_word zero limb hi = omega arith
shifted_word (suc zero) limb hi = omega arith
shifted_word (suc (suc zero)) limb hi = omega arith
shifted_word (suc (suc (suc zero))) limb hi = omega arith
shifted_word (suc (suc (suc (suc zero)))) limb hi = omega arith
shifted_word (suc (suc (suc (suc (suc zero))))) limb hi = omega arith
shifted_word (suc (suc (suc (suc (suc (suc zero)))))) limb hi = omega arith
shifted_word (suc (suc (suc (suc (suc (suc (suc zero))))))) limb hi = omega arith
shifted_word (suc (suc (suc (suc (suc (suc (suc (suc i)))))))) limb hi = absurd (omega arith)

round_lem :
    (i temp limb : ℕ)
    → temp < 2 ^ (2 * i)
    → IsU32 limb
    → i < 8
    → Carries i temp limb (bit_or temp (u32 (limb <<< (2 * i))))
round_lem i temp limb ht hl hi =
    let word = shifted_word i limb hi in
    let joined : bit_or temp (u32 (limb <<< (2 * i))) ≡ temp + u32 (limb * 2 ^ (2 * i)) =
      ap (bit_or temp) word
      ∙ bit_or-fields_comm (2 * i) (limb % 2 ^ (32 - 2 * i)) temp ht
      ∙ omega (arith, word) in
    rw joined (field_at i temp limb ht hl hi)

power_next : (i : ℕ) → 2 ^ (2 * (i + 1)) ≡ 4 * 2 ^ (2 * i)
power_next i =
    let next : 2 * (i + 1) ≡ suc (suc (2 * i)) = omega arith in
    rw next (omega (arith, pow-suc 2 (2 * i), pow-suc 2 (suc (2 * i))))

pub read_loop_lem :
    (word : ℕ → ℕ) (left i temp : ℕ)
    → ((j : ℕ) → IsU32 (word j))
    → i + left ≡ 8
    → temp < 2 ^ (2 * i)
    → AreLimbs (read_loop word left i temp)
      × (length (read_loop word left i temp) ≡ suc left)
      × (value (read_loop word left i temp) ≡ temp + 2 ^ (2 * i) * words_value word left i)
unfolding read_loop words_value
read_loop_lem word zero i temp hw e ht =
    let last : i ≡ 8 = omega arith in
    let small : temp < 2 ^ 16 = rw last at ht in (omega arith, omega arith, omega arith)
read_loop_lem word (suc left) i temp hw e ht =
    let (kept, next) = round_lem i temp (word i) ht (hw i) (omega arith) in
    let (limbs, len, eq) =
      read_loop_lem word left (i + 1) (word i / 2 ^ (30 - 2 * i)) hw (omega arith) next in
    let mask = low_limb_lem (bit_or temp (u32 (word i <<< (2 * i)))) in
    (
      (omega (arith, mask), limbs),
      omega arith,
      omega (arith, mask, kept, ap (λ (t : ℕ). t * words_value word left (i + 1)) (power_next i)),
    )
