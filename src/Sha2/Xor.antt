-- ===== src/Sha2/Xor.antt =====
-- The words of sha2.c under xor, which hmac.c and pbkdf2.c rely on.
use mathlib.Core.Path.{ap₂}
use tronlink_i_os_core.Base.{
  ℕ, suc, ◌+◌, ◌*◌, ◌/◌, ◌^◌, ◌<◌, ◌≡◌, refl, ap, ◌∙◌, sym, List, [], ◌∷◌, ◌++◌, arith, length, map,
  All, IsByte, u8, u32, ◌>>>◌, bit_xor, bit_xor-fields, bit_xor-lt,
}
use tronlink_i_os_core.Sha2.Count.{joined32}
use tronlink_i_os_core.Sha2.Words.{
  words32, pair_words, words64, bytes32, bytes64, digest32, digest64,
}

-- The byte in each place of a word.
abbrev pub each32 : ℕ → ℕ
each32 c = c * 2 ^ 24 + c * 2 ^ 16 + c * 2 ^ 8 + c

abbrev pub IsWord32 : ℕ → Type 0
IsWord32 w = w < 2 ^ 32

abbrev pub IsWord64 : ℕ → Type 0
IsWord64 w = w < 2 ^ 64

bit_xor-joined :
    (a b c d p q r s : ℕ)
    → IsByte b
    → IsByte c
    → IsByte d
    → IsByte q
    → IsByte r
    → IsByte s
    → bit_xor (a * 2 ^ 24 + b * 2 ^ 16 + c * 2 ^ 8 + d) (p * 2 ^ 24 + q * 2 ^ 16 + r * 2 ^ 8 + s)
      ≡ bit_xor a p * 2 ^ 24 + bit_xor b q * 2 ^ 16 + bit_xor c r * 2 ^ 8 + bit_xor d s
bit_xor-joined a b c d p q r s hb hc hd hq hr hs =
    ap₂ bit_xor {x = a * 2 ^ 24 + b * 2 ^ 16 + c * 2 ^ 8 + d}
      {y = ((a * 2 ^ 8 + b) * 2 ^ 8 + c) * 2 ^ 8 + d} (omega arith) (omega arith)
    ∙ bit_xor-fields 8 ((a * 2 ^ 8 + b) * 2 ^ 8 + c) ((p * 2 ^ 8 + q) * 2 ^ 8 + r) d s hd hs
    ∙ ap (λ (t : ℕ). t * 2 ^ 8 + bit_xor d s)
        (bit_xor-fields 8 (a * 2 ^ 8 + b) (p * 2 ^ 8 + q) c r hc hr
          ∙ ap (λ (t : ℕ). t * 2 ^ 8 + bit_xor c r) (bit_xor-fields 8 a p b q hb hq))
    ∙ omega arith

pub words32-xor :
    (c : ℕ) (bytes : List ℕ)
    → IsByte c
    → All IsByte bytes
    → words32 (map (λ (x : ℕ). bit_xor x c) bytes)
      ≡ map (λ (x : ℕ). bit_xor x (each32 c)) (words32 bytes)
unfolding words32
words32-xor k [] hk h = refl
words32-xor k (a ∷ []) hk h = refl
words32-xor k (a ∷ b ∷ []) hk h = refl
words32-xor k (a ∷ b ∷ c ∷ []) hk h = refl
words32-xor k (a ∷ b ∷ c ∷ d ∷ rest) hk (ha, (hb, (hc, (hd, h)))) =
    ap₂ (λ (x : ℕ) (t : List ℕ). x ∷ t) (sym (bit_xor-joined a b c d k k k k hb hc hd hk hk hk))
      (words32-xor k rest hk h)

pub words32-IsWord32 : (bytes : List ℕ) → All IsByte bytes → All IsWord32 (words32 bytes)
unfolding words32
words32-IsWord32 [] h = tt
words32-IsWord32 (a ∷ []) h = tt
words32-IsWord32 (a ∷ b ∷ []) h = tt
words32-IsWord32 (a ∷ b ∷ c ∷ []) h = tt
words32-IsWord32 (a ∷ b ∷ c ∷ d ∷ rest) (ha, (hb, (hc, (hd, h)))) =
    (omega arith, words32-IsWord32 rest h)

pair_words-xor :
    (c : ℕ) (ws : List ℕ)
    → IsWord32 c
    → All IsWord32 ws
    → pair_words (map (λ (x : ℕ). bit_xor x c) ws)
      ≡ map (λ (x : ℕ). bit_xor x (c * 2 ^ 32 + c)) (pair_words ws)
unfolding pair_words
pair_words-xor c [] hc h = refl
pair_words-xor c (w ∷ []) hc h = refl
pair_words-xor c (v ∷ w ∷ ws) hc (hv, (hw, h)) =
    ap₂ (λ (x : ℕ) (t : List ℕ). x ∷ t) (sym (bit_xor-fields 32 v c w c hw hc))
      (pair_words-xor c ws hc h)

pub words64-xor :
    (c : ℕ) (bytes : List ℕ)
    → IsByte c
    → All IsByte bytes
    → words64 (map (λ (x : ℕ). bit_xor x c) bytes)
      ≡ map (λ (x : ℕ). bit_xor x (each32 c * 2 ^ 32 + each32 c)) (words64 bytes)
unfolding words64
words64-xor c bytes hc h =
    ap pair_words (words32-xor c bytes hc h)
    ∙ pair_words-xor (each32 c) (words32 bytes) (omega arith) (words32-IsWord32 bytes h)

-- f[j] ^= g[j], along f.
unfoldable pub xor_words : List ℕ → List ℕ → List ℕ
xor_words [] gs = []
xor_words (f ∷ fs) [] = f ∷ fs
xor_words (f ∷ fs) (g ∷ gs) = bit_xor f g ∷ xor_words fs gs

bytes32-joined :
    (a b c d : ℕ)
    → IsByte a
    → IsByte b
    → IsByte c
    → IsByte d
    → bytes32 (a * 2 ^ 24 + b * 2 ^ 16 + c * 2 ^ 8 + d) ≡ a ∷ b ∷ c ∷ d ∷ []
bytes32-joined a b c d ha hb hc hd =
    ap₂ (λ (x : ℕ) (t : List ℕ). x ∷ t) (omega arith)
      (ap₂ (λ (x : ℕ) (t : List ℕ). x ∷ t) (omega arith)
        (ap₂ (λ (x y : ℕ). x ∷ y ∷ []) (omega arith) (omega arith)))

-- The xor of two words, by their bytes.
bytes32-bit_xor :
    (v w : ℕ) → IsWord32 v → IsWord32 w → bytes32 (bit_xor v w) ≡ xor_words (bytes32 v) (bytes32 w)
unfolding xor_words
bytes32-bit_xor v w hv hw =
    ap bytes32 (
      ap₂ bit_xor (sym (joined32 v hv)) (sym (joined32 w hw))
      ∙ bit_xor-joined (u8 (v >>> 24)) (u8 (v >>> 16)) (u8 (v >>> 8)) (u8 v) (u8 (w >>> 24))
          (u8 (w >>> 16)) (u8 (w >>> 8)) (u8 w) (omega arith) (omega arith) (omega arith)
          (omega arith) (omega arith) (omega arith))
    ∙ bytes32-joined (bit_xor (u8 (v >>> 24)) (u8 (w >>> 24)))
        (bit_xor (u8 (v >>> 16)) (u8 (w >>> 16))) (bit_xor (u8 (v >>> 8)) (u8 (w >>> 8)))
        (bit_xor (u8 v) (u8 w)) (bit_xor-lt 8 _ _ (omega arith) (omega arith))
        (bit_xor-lt 8 _ _ (omega arith) (omega arith))
        (bit_xor-lt 8 _ _ (omega arith) (omega arith))
        (bit_xor-lt 8 _ _ (omega arith) (omega arith))

high_xor :
    (v w : ℕ)
    → (bit_xor v w >>> 32 ≡ bit_xor (v >>> 32) (w >>> 32))
      × (u32 (bit_xor v w) ≡ bit_xor (u32 v) (u32 w))
high_xor v w =
    let e : bit_xor v w ≡ bit_xor (v / 2 ^ 32) (w / 2 ^ 32) * 2 ^ 32 + bit_xor (u32 v) (u32 w) =
      ap₂ bit_xor {x = v} {y = v / 2 ^ 32 * 2 ^ 32 + u32 v} (omega arith) (omega arith)
      ∙ bit_xor-fields 32 (v / 2 ^ 32) (w / 2 ^ 32) (u32 v) (u32 w) (omega arith) (omega arith) in
    let lt = bit_xor-lt 32 (u32 v) (u32 w) (omega arith) (omega arith) in
    (omega (arith, e, lt), omega (arith, e, lt))

bytes64-bit_xor :
    (v w : ℕ) → IsWord64 v → IsWord64 w → bytes64 (bit_xor v w) ≡ xor_words (bytes64 v) (bytes64 w)
unfolding xor_words
bytes64-bit_xor v w hv hw =
    let (high, low) = high_xor v w in
    ap₂ (λ (x y : ℕ). bytes32 x ++ bytes32 y) high low
    ∙ ap₂ (λ (x y : List ℕ). x ++ y)
        (bytes32-bit_xor (v >>> 32) (w >>> 32) (omega arith) (omega arith))
        (bytes32-bit_xor (u32 v) (u32 w) (omega arith) (omega arith))

pub digest32-xor_words :
    (s t : List ℕ)
    → length s ≡ length t
    → All IsWord32 s
    → All IsWord32 t
    → digest32 (xor_words s t) ≡ xor_words (digest32 s) (digest32 t)
unfolding xor_words digest32
digest32-xor_words [] t e hs ht = refl
digest32-xor_words (v ∷ s) [] e hs ht = absurd (omega arith)
digest32-xor_words (v ∷ s) (w ∷ t) e (hv, hs) (hw, ht) =
    ap₂ (λ (x y : List ℕ). x ++ y) (bytes32-bit_xor v w hv hw)
      (digest32-xor_words s t (omega arith) hs ht)

pub digest64-xor_words :
    (s t : List ℕ)
    → length s ≡ length t
    → All IsWord64 s
    → All IsWord64 t
    → digest64 (xor_words s t) ≡ xor_words (digest64 s) (digest64 t)
unfolding xor_words digest64
digest64-xor_words [] t e hs ht = refl
digest64-xor_words (v ∷ s) [] e hs ht = absurd (omega arith)
digest64-xor_words (v ∷ s) (w ∷ t) e (hv, hs) (hw, ht) =
    ap₂ (λ (x y : List ℕ). x ++ y) (bytes64-bit_xor v w hv hw)
      (digest64-xor_words s t (omega arith) hs ht)

pub length-xor_words : (s t : List ℕ) → length (xor_words s t) ≡ length s
unfolding xor_words
length-xor_words [] t = refl
length-xor_words (v ∷ s) [] = refl
length-xor_words (v ∷ s) (w ∷ t) = ap suc (length-xor_words s t)

-- xor keeps the words below a power of two.
pub xor_words-lt :
    (k : ℕ) (s t : List ℕ)
    → All (λ (w : ℕ). w < 2 ^ k) s
    → All (λ (w : ℕ). w < 2 ^ k) t
    → All (λ (w : ℕ). w < 2 ^ k) (xor_words s t)
unfolding xor_words
xor_words-lt k [] t hs ht = tt
xor_words-lt k (v ∷ s) [] hs ht = hs
xor_words-lt k (v ∷ s) (w ∷ t) (hv, hs) (hw, ht) =
    (bit_xor-lt k v w hv hw, xor_words-lt k s t hs ht)

-- The words of a digest.
pub words32-digest32 : (ws : List ℕ) → All IsWord32 ws → words32 (digest32 ws) ≡ ws
unfolding words32 digest32
words32-digest32 [] h = refl
words32-digest32 (w ∷ ws) (hw, h) =
    ap₂ (λ (x : ℕ) (t : List ℕ). x ∷ t) (joined32 w hw) (words32-digest32 ws h)

pub words64-digest64 : (ws : List ℕ) → All IsWord64 ws → words64 (digest64 ws) ≡ ws
unfolding words64 words32 pair_words digest64
words64-digest64 [] h = refl
words64-digest64 (w ∷ ws) (hw, h) =
    ap₂ (λ (x : ℕ) (t : List ℕ). x ∷ t)
      (ap₂ (λ (x y : ℕ). x * 2 ^ 32 + y) (joined32 (w >>> 32) (omega arith))
          (joined32 (u32 w) (omega arith))
        ∙ omega arith)
      (words64-digest64 ws h)
