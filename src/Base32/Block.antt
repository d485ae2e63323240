-- ===== src/Base32/Block.antt =====
-- One block of base32.c: base32_5to8 and base32_8to5_raw.
use tronlink_i_os_core.Base.{
  ℕ, ◌+◌, ◌*◌, ◌/◌, ◌%◌, ◌^◌, ◌≤◌, ◌<◌, ◌≡◌, refl, ap, ◌∙◌, List, [], ◌∷◌, arith, length, All,
  IsByte, u8, ◌<<<◌, ◌>>>◌, bit_and, bit_or, bit_and-mask, bit_or-fields,
}
use tronlink_i_os_core.Base32.{base32_5to8, base32_8to5_raw, out0, out1, out2, out3, out4}

-- A group that takes its high bits from one byte and its low bits from the next.
group1 : (a b : ℕ) → b < 256 → bit_or (bit_and a 7 <<< 2) (b >>> 6) ≡ a % 8 * 4 + b / 64
group1 a b h =
    ap (λ (t : ℕ). bit_or (t * 2 ^ 2) (b / 2 ^ 6)) (bit_and-mask 3 a)
    ∙ bit_or-fields 2 (a % 2 ^ 3) (b / 2 ^ 6) (omega arith)

group3 : (b c : ℕ) → c < 256 → bit_or (bit_and b 1 <<< 4) (c >>> 4) ≡ b % 2 * 16 + c / 16
group3 b c h =
    ap (λ (t : ℕ). bit_or (t * 2 ^ 4) (c / 2 ^ 4)) (bit_and-mask 1 b)
    ∙ bit_or-fields 4 (b % 2 ^ 1) (c / 2 ^ 4) (omega arith)

group4 : (c d : ℕ) → d < 256 → bit_or (bit_and c 15 <<< 1) (d >>> 7) ≡ c % 16 * 2 + d / 128
group4 c d h =
    ap (λ (t : ℕ). bit_or (t * 2 ^ 1) (d / 2 ^ 7)) (bit_and-mask 4 c)
    ∙ bit_or-fields 1 (c % 2 ^ 4) (d / 2 ^ 7) (omega arith)

group6 : (d e : ℕ) → e < 256 → bit_or (bit_and d 3 <<< 3) (e >>> 5) ≡ d % 4 * 8 + e / 32
group6 d e h =
    ap (λ (t : ℕ). bit_or (t * 2 ^ 3) (e / 2 ^ 5)) (bit_and-mask 2 d)
    ∙ bit_or-fields 3 (d % 2 ^ 2) (e / 2 ^ 5) (omega arith)

mask31 : (x : ℕ) → bit_and x 31 ≡ x % 32
mask31 x = bit_and-mask 5 x

byte0 : (g0 g1 : ℕ) → g0 < 32 → g1 < 32 → out0 g0 g1 ≡ g0 * 8 + g1 / 4
byte0 g0 g1 h0 h1 =
    ap (λ (t : ℕ). bit_or t (g1 / 2 ^ 2)) {x = u8 (g0 * 2 ^ 3)} {y = g0 * 2 ^ 3} (omega arith)
    ∙ bit_or-fields 3 g0 (g1 / 2 ^ 2) (omega arith)

byte1 :
    (g1 g2 g3 : ℕ) → g1 < 32 → g2 < 32 → g3 < 32 → out1 g1 g2 g3 ≡ g1 % 4 * 64 + g2 * 2 + g3 / 16
byte1 g1 g2 g3 h1 h2 h3 =
    let high : bit_or (bit_and g1 3 <<< 6) (u8 (g2 <<< 1)) ≡ (g1 % 4 * 32 + g2) * 2 ^ 1 =
      ap (λ (t : ℕ). bit_or (t * 2 ^ 6) (u8 (g2 * 2 ^ 1))) (bit_and-mask 2 g1)
      ∙ bit_or-fields 6 (g1 % 2 ^ 2) (u8 (g2 * 2 ^ 1)) (omega arith)
      ∙ omega arith in
    ap (λ (t : ℕ). u8 (bit_or t (g3 / 2 ^ 4))) high
    ∙ ap u8 (bit_or-fields 1 (g1 % 4 * 32 + g2) (g3 / 2 ^ 4) (omega arith))
    ∙ omega arith

byte2 : (g3 g4 : ℕ) → g3 < 32 → g4 < 32 → out2 g3 g4 ≡ g3 % 16 * 16 + g4 / 2
byte2 g3 g4 h3 h4 =
    ap (λ (t : ℕ). bit_or (t * 2 ^ 4) (g4 / 2 ^ 1)) (bit_and-mask 4 g3)
    ∙ bit_or-fields 4 (g3 % 2 ^ 4) (g4 / 2 ^ 1) (omega arith)

byte3 :
    (g4 g5 g6 : ℕ) → g4 < 32 → g5 < 32 → g6 < 32 → out3 g4 g5 g6 ≡ g4 % 2 * 128 + g5 * 4 + g6 / 8
byte3 g4 g5 g6 h4 h5 h6 =
    let high : bit_or (bit_and g4 1 <<< 7) (u8 (g5 <<< 2)) ≡ (g4 % 2 * 32 + g5) * 2 ^ 2 =
      ap (λ (t : ℕ). bit_or (t * 2 ^ 7) (u8 (g5 * 2 ^ 2))) (bit_and-mask 1 g4)
      ∙ bit_or-fields 7 (g4 % 2 ^ 1) (u8 (g5 * 2 ^ 2)) (omega arith)
      ∙ omega arith in
    ap (λ (t : ℕ). u8 (bit_or t (g6 / 2 ^ 3))) high
    ∙ ap u8 (bit_or-fields 2 (g4 % 2 * 32 + g5) (g6 / 2 ^ 3) (omega arith))
    ∙ omega arith

byte4 : (g6 g7 : ℕ) → g6 < 32 → g7 < 32 → out4 g6 g7 ≡ g6 % 8 * 32 + g7
byte4 g6 g7 h6 h7 =
    ap (λ (t : ℕ). bit_or (t * 2 ^ 5) (bit_and g7 31)) (bit_and-mask 3 g6)
    ∙ ap (λ (t : ℕ). bit_or (g6 % 2 ^ 3 * 2 ^ 5) t) (bit_and-mask 5 g7)
    ∙ bit_or-fields 5 (g6 % 2 ^ 3) (g7 % 2 ^ 5) (omega arith)
    ∙ omega arith

-- Each byte comes back from its groups; `q` and `r` are what the neighbours put there.
restore0 : (a g0 g1 r : ℕ) → a < 256 → r < 4 → g0 ≡ a / 8 → g1 ≡ a % 8 * 4 + r → out0 g0 g1 ≡ a
restore0 a g0 g1 r h hr e0 e1 = byte0 g0 g1 (omega arith) (omega arith) ∙ omega arith

restore1 :
    (b g1 g2 g3 q r : ℕ)
    → b < 256
    → q < 8
    → r < 16
    → g1 ≡ q * 4 + b / 64
    → g2 ≡ b / 2 % 32
    → g3 ≡ b % 2 * 16 + r
    → out1 g1 g2 g3 ≡ b
restore1 b g1 g2 g3 q r h hq hr e1 e2 e3 =
    byte1 g1 g2 g3 (omega arith) (omega arith) (omega arith) ∙ omega arith

restore2 :
    (c g3 g4 q r : ℕ)
    → c < 256
    → q < 2
    → r < 2
    → g3 ≡ q * 16 + c / 16
    → g4 ≡ c % 16 * 2 + r
    → out2 g3 g4 ≡ c
restore2 c g3 g4 q r h hq hr e3 e4 = byte2 g3 g4 (omega arith) (omega arith) ∙ omega arith

restore3 :
    (d g4 g5 g6 q r : ℕ)
    → d < 256
    → q < 16
    → r < 8
    → g4 ≡ q * 2 + d / 128
    → g5 ≡ d / 4 % 32
    → g6 ≡ d % 4 * 8 + r
    → out3 g4 g5 g6 ≡ d
restore3 d g4 g5 g6 q r h hq hr e4 e5 e6 =
    byte3 g4 g5 g6 (omega arith) (omega arith) (omega arith) ∙ omega arith

restore4 : (e g6 g7 q : ℕ) → e < 256 → q < 4 → g6 ≡ q * 8 + e / 32 → g7 ≡ e % 32 → out4 g6 g7 ≡ e
restore4 e g6 g7 q h hq e6 e7 = byte4 g6 g7 (omega arith) (omega arith) ∙ omega arith

-- The groups of a block of one to five bytes.
pub record IsBlock (bytes groups : List ℕ) : Type 0 where
  pub small : All (λ g. g < 32) groups
  pub count : length groups ≡ (8 * length bytes + 4) / 5
  pub back : base32_8to5_raw groups ≡ bytes

-- base32_5to8 writes at most five bytes as groups below 32, as many as the bits need, and
-- base32_8to5_raw reads those back as the bytes.
pub base32_5to8-IsBlock :
    (bytes : List ℕ) → length bytes ≤ 5 → All IsByte bytes → IsBlock bytes (base32_5to8 bytes)
unfolding base32_5to8 base32_8to5_raw
base32_5to8-IsBlock [] len h = record { small = tt; count = omega arith; back = refl }
base32_5to8-IsBlock (a ∷ []) len (ha, _) =
    let ga = bit_and-mask 3 a in
    record {
      small = omega arith;
      count = omega arith;
      back =
          rw (restore0 a (a >>> 3) (bit_and a 7 <<< 2) 0 ha (omega arith) refl (omega arith)) refl;
    }
base32_5to8-IsBlock (a ∷ b ∷ []) len (ha, (hb, _)) =
    let g1 = group1 a b hb in
    let g2 = mask31 (b >>> 1) in
    let g3 = bit_and-mask 1 b in
    let byte_a = restore0 a (a >>> 3) _ (b / 64) ha (omega arith) refl g1 in
    let byte_b =
      restore1 b _ _ (bit_and b 1 <<< 4) (a % 8) 0 hb (omega arith) (omega arith) g1 g2
        (omega arith) in
    record { small = omega arith; count = omega arith; back = rw (byte_a, byte_b) refl }
base32_5to8-IsBlock (a ∷ b ∷ c ∷ []) len (ha, (hb, (hc, _))) =
    let g1 = group1 a b hb in
    let g2 = mask31 (b >>> 1) in
    let g3 = group3 b c hc in
    let g4 = bit_and-mask 4 c in
    let byte_a = restore0 a (a >>> 3) _ (b / 64) ha (omega arith) refl g1 in
    let byte_b = restore1 b _ _ _ (a % 8) (c / 16) hb (omega arith) (omega arith) g1 g2 g3 in
    let byte_c =
      restore2 c _ (bit_and c 15 <<< 1) (b % 2) 0 hc (omega arith) (omega arith) g3 (omega arith) in
    record { small = omega arith; count = omega arith; back = rw (byte_a, byte_b, byte_c) refl }
base32_5to8-IsBlock (a ∷ b ∷ c ∷ d ∷ []) len (ha, (hb, (hc, (hd, _)))) =
    let g1 = group1 a b hb in
    let g2 = mask31 (b >>> 1) in
    let g3 = group3 b c hc in
    let g4 = group4 c d hd in
    let g5 = mask31 (d >>> 2) in
    let g6 = bit_and-mask 2 d in
    let byte_a = restore0 a (a >>> 3) _ (b / 64) ha (omega arith) refl g1 in
    let byte_b = restore1 b _ _ _ (a % 8) (c / 16) hb (omega arith) (omega arith) g1 g2 g3 in
    let byte_c = restore2 c _ _ (b % 2) (d / 128) hc (omega arith) (omega arith) g3 g4 in
    let byte_d =
      restore3 d _ _ (bit_and d 3 <<< 3) (c % 16) 0 hd (omega arith) (omega arith) g4 g5
        (omega arith) in
    record {
      small = omega arith;
      count = omega arith;
      back = rw (byte_a, byte_b, byte_c, byte_d) refl;
    }
base32_5to8-IsBlock (a ∷ b ∷ c ∷ d ∷ e ∷ []) len (ha, (hb, (hc, (hd, (he, _))))) =
    let g1 = group1 a b hb in
    let g2 = mask31 (b >>> 1) in
    let g3 = group3 b c hc in
    let g4 = group4 c d hd in
    let g5 = mask31 (d >>> 2) in
    let g6 = group6 d e he in
    let g7 = mask31 e in
    let byte_a = restore0 a (a >>> 3) _ (b / 64) ha (omega arith) refl g1 in
    let byte_b = restore1 b _ _ _ (a % 8) (c / 16) hb (omega arith) (omega arith) g1 g2 g3 in
    let byte_c = restore2 c _ _ (b % 2) (d / 128) hc (omega arith) (omega arith) g3 g4 in
    let byte_d = restore3 d _ _ _ (c % 16) (e / 32) hd (omega arith) (omega arith) g4 g5 g6 in
    let byte_e = restore4 e _ _ (d % 4) he (omega arith) g6 g7 in
    record {
      small = omega arith;
      count = omega arith;
      back = rw (byte_a, byte_b, byte_c, byte_d, byte_e) refl;
    }
base32_5to8-IsBlock (a ∷ b ∷ c ∷ d ∷ e ∷ f ∷ rest) len h = absurd (omega arith)
