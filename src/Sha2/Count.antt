-- ===== src/Sha2/Count.antt =====
-- The bit counters of sha2.c: one word of 64 bits for SHA-1 and SHA-256, and two for SHA-512.
use tronlink_i_os_core.Base.{
  ℕ, ◌+◌, ◌*◌, ◌/◌, ◌%◌, ◌^◌, ◌<◌, ◌≡◌, ◌∙◌, List, [], ◌∷◌, ◌++◌, arith, u8, u32, u64, ◌<<<◌, ◌>>>◌,
  bit_and, bit_and-mask, ltb, if◌then◌else◌,
}
use mathlib.Core.Path.{ap₂}
use tronlink_i_os_core.Sha2.Words.{words32, words64, bytes64}

-- `bitcount += n << 3`
unfoldable pub add_bytes64 : ℕ → ℕ → ℕ
add_bytes64 bitcount n = u64 (bitcount + u64 (n <<< 3))

unfoldable pub usedspace64 : ℕ → ℕ
usedspace64 bitcount = (bitcount >>> 3) % 64

unfoldable pub count_words64 : ℕ → List ℕ
count_words64 bitcount = u32 (bitcount >>> 32) ∷ bit_and bitcount 0xffffffff ∷ []

-- ADDINC128 of `n << 3`; the low word stands first.
unfoldable pub add_bytes128 : ℕ × ℕ → ℕ → ℕ × ℕ
add_bytes128 (low, high) n =
    let sum = u64 (low + u64 (n <<< 3)) in
    (sum, if ltb sum (u64 (n <<< 3)) then u64 (high + 1) else high)

unfoldable pub usedspace128 : ℕ × ℕ → ℕ
usedspace128 (low, high) = (low >>> 3) % 128

unfoldable pub count_words128 : ℕ × ℕ → List ℕ
count_words128 (low, high) = high ∷ low ∷ []

-- The counter of `l` bytes, and the length field that the padding of FIPS 180-4 ends in.
abbrev pub Counts64 : ℕ → ℕ → Type 0
Counts64 c l = c ≡ 8 * l % 2 ^ 64

abbrev pub length_bytes64 : ℕ → List ℕ
length_bytes64 l = bytes64 (8 * l % 2 ^ 64)

abbrev pub Counts128 : ℕ × ℕ → ℕ → Type 0
Counts128 (low, high) l = (low < 2 ^ 64) × (high < 2 ^ 64) × (low + 2 ^ 64 * high ≡ 8 * l % 2 ^ 128)

abbrev pub length_bytes128 : ℕ → List ℕ
length_bytes128 l = bytes64 (8 * l % 2 ^ 128 / 2 ^ 64) ++ bytes64 (8 * l % 2 ^ 64)

pub add_counted64 : (c l n : ℕ) → n < 2 ^ 61 → Counts64 c l → Counts64 (add_bytes64 c n) (l + n)
unfolding add_bytes64
add_counted64 c l n h k = omega arith

pub used_counted64 : (c n r : ℕ) → r < 64 → Counts64 c (n * 64 + r) → usedspace64 c ≡ r
unfolding usedspace64
used_counted64 c n r h k = omega arith

pub add_counted128 :
    (c : ℕ × ℕ) (l n : ℕ) → n < 2 ^ 61 → Counts128 c l → Counts128 (add_bytes128 c n) (l + n)
unfolding add_bytes128
add_counted128 (low, high) l n h k = ground (arith)

pub used_counted128 :
    (c : ℕ × ℕ) (n r : ℕ) → r < 128 → Counts128 c (n * 128 + r) → usedspace128 c ≡ r
unfolding usedspace128
used_counted128 (low, high) n r h k = omega arith

pub joined32 :
    (w : ℕ)
    → w < 2 ^ 32
    → u8 (w >>> 24) * 2 ^ 24 + u8 (w >>> 16) * 2 ^ 16 + u8 (w >>> 8) * 2 ^ 8 + u8 w ≡ w
joined32 w h = omega arith

words32-bytes64 : (w : ℕ) → w < 2 ^ 64 → words32 (bytes64 w) ≡ w / 2 ^ 32 ∷ w % 2 ^ 32 ∷ []
unfolding words32
words32-bytes64 w h =
    ap₂ (λ (x y : ℕ). x ∷ y ∷ []) (joined32 (w / 2 ^ 32) (omega arith))
      (joined32 (u32 w) (omega arith))

pub words_counted64 : (c l : ℕ) → Counts64 c l → words32 (length_bytes64 l) ≡ count_words64 c
unfolding count_words64
words_counted64 c l k =
    words32-bytes64 (8 * l % 2 ^ 64) (omega arith)
    ∙ ap₂ (λ (x y : ℕ). x ∷ y ∷ []) (omega arith) (omega (arith, bit_and-mask 32 c))

-- Two words of 64 bits from their bytes.
words64-bytes64 :
    (v w : ℕ) → v < 2 ^ 64 → w < 2 ^ 64 → words64 (bytes64 v ++ bytes64 w) ≡ v ∷ w ∷ []
unfolding words64 words32
words64-bytes64 v w hv hw =
    ap₂ (λ (x y : ℕ). x ∷ y ∷ [])
      (ap₂ (λ (x y : ℕ). x * 2 ^ 32 + y) (joined32 (v / 2 ^ 32) (omega arith))
          (joined32 (u32 v) (omega arith))
        ∙ omega arith)
      (ap₂ (λ (x y : ℕ). x * 2 ^ 32 + y) (joined32 (w / 2 ^ 32) (omega arith))
          (joined32 (u32 w) (omega arith))
        ∙ omega arith)

pub words_counted128 :
    (c : ℕ × ℕ) (l : ℕ) → Counts128 c l → words64 (length_bytes128 l) ≡ count_words128 c
unfolding count_words128
words_counted128 (low, high) l k =
    words64-bytes64 (8 * l % 2 ^ 128 / 2 ^ 64) (8 * l % 2 ^ 64) (omega arith) (omega arith)
    ∙ ap₂ (λ (x y : ℕ). x ∷ y ∷ []) (omega arith) (omega arith)
