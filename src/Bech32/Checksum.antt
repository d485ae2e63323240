-- ===== src/Bech32/Checksum.antt =====
-- The six groups that bech32_encode_with_checksum appends, and the checksum behind them.
use tronlink_i_os_core.Base.{
  ℕ, ◌+◌, ◌-◌, ◌*◌, ◌/◌, ◌%◌, ◌^◌, ◌≤◌, ◌<◌, ◌≡◌, refl, ap, ◌∙◌, sym, List, [], ◌∷◌, ◌++◌, arith,
  All, ◌>>>◌, bit_and, bit_xor, bit_and-mask, bit_xor_assoc, bit_xor-fields, bit_xor-lt,
  zero-bit_xor, bit_xor-zero, bit_xor_self, bit_and-le_right,
}
use mathlib.Core.Path.{ap₂}
use tronlink_i_os_core.Bech32.{
  feedback, bech32_polymod_step, feed, six_steps, checksum_groups, term,
}
use tronlink_i_os_core.Bech32.Polymod.{step_linear}

-- The checksum after a list of groups.
unfoldable pub feed_all : ℕ → List ℕ → ℕ
feed_all chk [] = chk
feed_all chk (v ∷ vs) = feed_all (feed chk v) vs

pub feed_all-append :
    (chk : ℕ) (vs ws : List ℕ) → feed_all chk (vs ++ ws) ≡ feed_all (feed_all chk vs) ws
unfolding feed_all
feed_all-append chk [] ws = refl
feed_all-append chk (v ∷ vs) ws = feed_all-append (feed chk v) vs ws

-- Groups fed so far stand beside the checksum that no group had touched.
feed_through :
    (s y d : ℕ)
    → y < 2 ^ 25
    → d < 2 ^ 5
    → feed (bit_xor s y) d ≡ bit_xor (bech32_polymod_step s) (y * 2 ^ 5 + d)
unfolding feed
feed_through s y d hy hd =
    let joined : bit_xor (y * 2 ^ 5) d ≡ y * 2 ^ 5 + d =
      ap₂ bit_xor {x = y * 2 ^ 5} {y = y * 2 ^ 5 + 0} {u = d} {v = 0 * 2 ^ 5 + d} (omega arith)
        (omega arith)
      ∙ bit_xor-fields 5 y 0 0 d (omega arith) hd
      ∙ ap₂ (λ (p q : ℕ). p * 2 ^ 5 + q) (bit_xor-zero y) (zero-bit_xor d) in
    ap (λ (t : ℕ). bit_xor t d) (step_linear s y hy)
    ∙ bit_xor_assoc (bech32_polymod_step s) (y * 2 ^ 5) d
    ∙ ap (bit_xor (bech32_polymod_step s)) joined

mask31 : (y : ℕ) → bit_and y 0x1f ≡ y % 2 ^ 5
mask31 y = bit_and-mask 5 y

-- One more group of `c`: the groups so far are `c / 2 ^ (k + 5)`, written as `y`.
next_group :
    (s y m : ℕ)
    → m < 2 ^ 30
    → y ≡ m / 2 ^ 5
    → feed (bit_xor s y) (bit_and m 0x1f) ≡ bit_xor (bech32_polymod_step s) m
next_group s y m hm e =
    feed_through s y (bit_and m 0x1f) (omega arith) (omega (arith, mask31 m))
    ∙ ap (bit_xor (bech32_polymod_step s)) (omega (arith, mask31 m))

-- Six groups of any 30 bits come out beside six untouched steps.
pub checksum_groups-feed_all :
    (chk c : ℕ) → c < 2 ^ 30 → feed_all chk (checksum_groups c) ≡ bit_xor (six_steps chk) c
unfolding feed_all checksum_groups six_steps
checksum_groups-feed_all chk c hc =
    let start : feed chk (bit_and (c >>> 25) 0x1f)
        ≡ bit_xor (bech32_polymod_step chk) (c / 2 ^ 25) =
      unfold feed in ap (bit_xor (bech32_polymod_step chk)) (omega (arith, mask31 (c / 2 ^ 25))) in
    rw
      (
        start,
        next_group _ (c / 2 ^ 25) (c / 2 ^ 20) (omega arith) (omega arith),
        next_group _ (c / 2 ^ 20) (c / 2 ^ 15) (omega arith) (omega arith),
        next_group _ (c / 2 ^ 15) (c / 2 ^ 10) (omega arith) (omega arith),
        next_group _ (c / 2 ^ 10) (c / 2 ^ 5) (omega arith) (omega arith),
        next_group _ (c / 2 ^ 5) (c / 2 ^ 0) (omega arith) (omega arith),
      )
      (ap (bit_xor _) (omega arith))

pub term-lt : (k b i generator : ℕ) → generator < 2 ^ k → term b i generator < 2 ^ k
term-lt k b i generator h =
    lt_of_le_of_lt (bit_and-le_right ((2 ^ 64 - bit_and (b / 2 ^ i) 1) % 2 ^ 64) generator) h
  where
    lt_of_le_of_lt : {l m n : ℕ} → l ≤ m → m < n → l < n
    lt_of_le_of_lt p q = omega arith

feedback-lt : (low b : ℕ) → low < 2 ^ 30 → feedback low b < 2 ^ 30
unfolding feedback
feedback-lt low b h =
    bit_xor-lt 30 _ _
      (bit_xor-lt 30 _ _
        (bit_xor-lt 30 _ _
          (bit_xor-lt 30 _ _ (bit_xor-lt 30 _ _ h (term-lt 30 b 0 0x3b6a57b2 (omega arith)))
            (term-lt 30 b 1 0x26508e6d (omega arith)))
          (term-lt 30 b 2 0x1ea119fa (omega arith)))
        (term-lt 30 b 3 0x3d4233dd (omega arith)))
      (term-lt 30 b 4 0x2a1462b3 (omega arith))

-- A step gives 30 bits.
pub step-lt : (pre : ℕ) → bech32_polymod_step pre < 2 ^ 30
unfolding bech32_polymod_step
step-lt pre = feedback-lt _ _ (omega (arith, bit_and-mask 25 pre))

-- The checksum groups that the encoder appends for a constant below 2 ^ 30 leave that constant as
-- the checksum of the whole, whatever was fed before.
pub checksum_groups-constant :
    (chk constant : ℕ)
    → constant < 2 ^ 30
    → feed_all chk (checksum_groups (bit_xor (six_steps chk) constant)) ≡ constant
checksum_groups-constant chk constant h =
    let s : ℕ = six_steps chk in
    let bound : bit_xor s constant < 2 ^ 30 =
      bit_xor-lt 30 s constant (unfold six_steps in step-lt _) h in
    checksum_groups-feed_all chk (bit_xor s constant) bound
    ∙ sym (bit_xor_assoc s s constant)
    ∙ ap (λ (t : ℕ). bit_xor t constant) (bit_xor_self s)
    ∙ zero-bit_xor constant

pub checksum_groups-lt : (c : ℕ) → All (λ v. v < 2 ^ 5) (checksum_groups c)
unfolding checksum_groups
checksum_groups-lt c = omega (arith, mask31)
