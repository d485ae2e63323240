-- ===== src/Cash/Checksum.antt =====
-- The 40-bit checksum of cash_addr.c, and the eight groups that cash_encode appends.
use tronlink_i_os_core.Base.{
  ℕ, ◌+◌, ◌*◌, ◌/◌, ◌%◌, ◌^◌, ◌<◌, ◌≡◌, refl, ap, ◌∙◌, sym, List, [], ◌∷◌, ◌++◌, arith, All, u8,
  ◌>>>◌, bit_and, bit_xor, bit_and-mask, bit_xor_assoc, bit_xor-fields, bit_xor-lt, zero-bit_xor,
  bit_xor-zero, bit_xor_self,
}
use mathlib.Core.Path.{ap₂}
use tronlink_i_os_core.Bech32.Polymod.{past, xor_low, xor_shift}
use tronlink_i_os_core.Bech32.Checksum.{term-lt}
use tronlink_i_os_core.Cash.{
  cash_feedback, cashaddr_polymod_step, cash_feed, eight_steps, cash_groups,
}

cash_feedback_linear : (x y b : ℕ) → cash_feedback (bit_xor x y) b ≡ bit_xor (cash_feedback x b) y
unfolding cash_feedback
cash_feedback_linear x y b = rw (past x y _, past _ y _, past _ y _, past _ y _, past _ y _) refl

mask35 : (x : ℕ) → bit_and x 0x7ffffffff ≡ x % 2 ^ 35
mask35 x = bit_and-mask 35 x

-- To add (xor) a value below 2 ^ 35 to a checksum is to add 2 ^ 5 times that value to the step's
-- result.
cash_step_linear :
    (x y : ℕ)
    → y < 2 ^ 35
    → cashaddr_polymod_step (bit_xor x y) ≡ bit_xor (cashaddr_polymod_step x) (y * 2 ^ 5)
unfolding cashaddr_polymod_step
cash_step_linear x y hy =
    let (low, high) = xor_low 35 x y hy (omega arith) in
    rw (mask35 (bit_xor x y), mask35 x, low, high, xor_shift (x % 2 ^ 35) y)
      (cash_feedback_linear (x % 2 ^ 35 * 2 ^ 5) (y * 2 ^ 5) (u8 (x / 2 ^ 35)))

-- The checksum after a list of groups.
unfoldable pub cash_feed_all : ℕ → List ℕ → ℕ
cash_feed_all chk [] = chk
cash_feed_all chk (v ∷ vs) = cash_feed_all (cash_feed chk v) vs

pub cash_feed_all-append :
    (chk : ℕ) (vs ws : List ℕ)
    → cash_feed_all chk (vs ++ ws) ≡ cash_feed_all (cash_feed_all chk vs) ws
unfolding cash_feed_all
cash_feed_all-append chk [] ws = refl
cash_feed_all-append chk (v ∷ vs) ws = cash_feed_all-append (cash_feed chk v) vs ws

-- One more group of a checksum: `y` is the checksum less its lowest group, which is `m`'s.
next_cash_group :
    (s y m : ℕ)
    → m < 2 ^ 40
    → y ≡ m / 2 ^ 5
    → cash_feed (bit_xor s y) (bit_and m 0x1f) ≡ bit_xor (cashaddr_polymod_step s) m
unfolding cash_feed
next_cash_group s y m hm e =
    let d : ℕ = bit_and m 0x1f in
    let group : d ≡ m % 2 ^ 5 = bit_and-mask 5 m in
    let joined : bit_xor (y * 2 ^ 5) d ≡ m =
      ap₂ bit_xor {x = y * 2 ^ 5} {y = y * 2 ^ 5 + 0} {u = d} {v = 0 * 2 ^ 5 + d} (omega arith)
        (omega arith)
      ∙ bit_xor-fields 5 y 0 0 d (omega arith) (omega arith)
      ∙ ap₂ (λ (p q : ℕ). p * 2 ^ 5 + q) (bit_xor-zero y) (zero-bit_xor d)
      ∙ omega arith in
    ap (λ (t : ℕ). bit_xor t d) (cash_step_linear s y (omega arith))
    ∙ bit_xor_assoc (cashaddr_polymod_step s) (y * 2 ^ 5) d
    ∙ ap (bit_xor (cashaddr_polymod_step s)) joined

cash_groups-cash_feed_all :
    (chk c : ℕ) → c < 2 ^ 40 → cash_feed_all chk (cash_groups c) ≡ bit_xor (eight_steps chk) c
unfolding cash_feed_all cash_groups eight_steps
cash_groups-cash_feed_all chk c hc =
    let first : cash_feed chk (bit_and (c >>> 35) 0x1f)
        ≡ bit_xor (cashaddr_polymod_step chk) (c / 2 ^ 35) =
      unfold cash_feed in
      ap (bit_xor (cashaddr_polymod_step chk)) (bit_and-mask 5 (c / 2 ^ 35) ∙ omega arith) in
    rw
      (
        first,
        next_cash_group _ (c / 2 ^ 35) (c / 2 ^ 30) (omega arith) (omega arith),
        next_cash_group _ (c / 2 ^ 30) (c / 2 ^ 25) (omega arith) (omega arith),
        next_cash_group _ (c / 2 ^ 25) (c / 2 ^ 20) (omega arith) (omega arith),
        next_cash_group _ (c / 2 ^ 20) (c / 2 ^ 15) (omega arith) (omega arith),
        next_cash_group _ (c / 2 ^ 15) (c / 2 ^ 10) (omega arith) (omega arith),
        next_cash_group _ (c / 2 ^ 10) (c / 2 ^ 5) (omega arith) (omega arith),
        next_cash_group _ (c / 2 ^ 5) (c / 2 ^ 0) (omega arith) (omega arith),
      )
      (ap (bit_xor _) (omega arith))

cash_feedback-lt : (low b : ℕ) → low < 2 ^ 40 → cash_feedback low b < 2 ^ 40
unfolding cash_feedback
cash_feedback-lt low b h =
    bit_xor-lt 40 _ _
      (bit_xor-lt 40 _ _
        (bit_xor-lt 40 _ _
          (bit_xor-lt 40 _ _ (bit_xor-lt 40 _ _ h (term-lt 40 b 0 0x98f2bc8e61 (omega arith)))
            (term-lt 40 b 1 0x79b76d99e2 (omega arith)))
          (term-lt 40 b 2 0xf33e5fb3c4 (omega arith)))
        (term-lt 40 b 3 0xae2eabe2a8 (omega arith)))
      (term-lt 40 b 4 0x1e4f43e470 (omega arith))

cash_step-lt : (pre : ℕ) → cashaddr_polymod_step pre < 2 ^ 40
unfolding cashaddr_polymod_step
cash_step-lt pre = let low = mask35 pre in cash_feedback-lt _ _ (omega arith)

-- The eight groups that cash_encode appends leave 1 as the checksum of the whole, whatever was
-- fed before.
pub cash_groups-one : (chk : ℕ) → cash_feed_all chk (cash_groups (bit_xor (eight_steps chk) 1)) ≡ 1
cash_groups-one chk =
    let s : ℕ = eight_steps chk in
    let bound : bit_xor s 1 < 2 ^ 40 =
      bit_xor-lt 40 s 1 (unfold eight_steps in cash_step-lt _) (omega arith) in
    cash_groups-cash_feed_all chk (bit_xor s 1) bound
    ∙ sym (bit_xor_assoc s s 1)
    ∙ ap (λ (t : ℕ). bit_xor t 1) (bit_xor_self s)
    ∙ zero-bit_xor 1

pub cash_groups-lt : (c : ℕ) → All (λ v. v < 2 ^ 5) (cash_groups c)
unfolding cash_groups
cash_groups-lt c = omega (arith, group)
  where
    group : (x : ℕ) → bit_and x 0x1f < 2 ^ 5
    group x = omega (arith, bit_and-mask 5 x)
