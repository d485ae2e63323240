-- ===== src/Sha2/Words.antt =====
-- The words of sha2.c: its rotations and logical functions, the words of a block and the bytes of a
-- digest. The operands of the functions are words of the stated width.
use tronlink_i_os_core.Base.{
  ℕ, zero, suc, ◌+◌, ◌-◌, ◌*◌, ◌^◌, ◌≡◌, refl, ap, ◌∙◌, List, [], ◌∷◌, ◌++◌, arith, length, get_or,
  u8, u32, u64, ◌<<<◌, ◌>>>◌, bit_and, bit_or, bit_xor,
}

unfoldable pub rotr32 : ℕ → ℕ → ℕ
rotr32 b x = bit_or (x >>> b) (u32 (x <<< (32 - b)))

unfoldable pub rotr64 : ℕ → ℕ → ℕ
rotr64 b x = bit_or (x >>> b) (u64 (x <<< (64 - b)))

unfoldable pub rotl32 : ℕ → ℕ → ℕ
rotl32 b x = bit_or (u32 (x <<< b)) (x >>> (32 - b))

-- `~x` in 32 and in 64 bits
abbrev pub not32 : ℕ → ℕ
not32 x = bit_xor x 0xffffffff

abbrev pub not64 : ℕ → ℕ
not64 x = bit_xor x 0xffffffffffffffff

unfoldable pub ch32 : ℕ → ℕ → ℕ → ℕ
ch32 x y z = bit_xor (bit_and x y) (bit_and (not32 x) z)

unfoldable pub ch64 : ℕ → ℕ → ℕ → ℕ
ch64 x y z = bit_xor (bit_and x y) (bit_and (not64 x) z)

unfoldable pub maj : ℕ → ℕ → ℕ → ℕ
maj x y z = bit_xor (bit_xor (bit_and x y) (bit_and x z)) (bit_and y z)

unfoldable pub parity : ℕ → ℕ → ℕ → ℕ
parity x y z = bit_xor (bit_xor x y) z

-- REVERSE32 on a little-endian host, and the host's reading of the words.
unfoldable pub swap32 : List ℕ → List ℕ
swap32 [] = []
swap32 (a ∷ []) = a ∷ []
swap32 (a ∷ b ∷ []) = a ∷ b ∷ []
swap32 (a ∷ b ∷ c ∷ []) = a ∷ b ∷ c ∷ []
swap32 (a ∷ b ∷ c ∷ d ∷ rest) = d ∷ c ∷ b ∷ a ∷ swap32 rest

unfoldable pub words32 : List ℕ → List ℕ
words32 [] = []
words32 (a ∷ []) = []
words32 (a ∷ b ∷ []) = []
words32 (a ∷ b ∷ c ∷ []) = []
words32 (a ∷ b ∷ c ∷ d ∷ rest) = (a * 2 ^ 24 + b * 2 ^ 16 + c * 2 ^ 8 + d) ∷ words32 rest

-- REVERSE64, and the words of 64 bits.
unfoldable pub swap64 : List ℕ → List ℕ
swap64 (a ∷ b ∷ c ∷ d ∷ e ∷ f ∷ g ∷ h ∷ rest) = h ∷ g ∷ f ∷ e ∷ d ∷ c ∷ b ∷ a ∷ swap64 rest
swap64 rest = rest

unfoldable pub pair_words : List ℕ → List ℕ
pair_words [] = []
pair_words (high ∷ []) = []
pair_words (high ∷ low ∷ rest) = (high * 2 ^ 32 + low) ∷ pair_words rest

unfoldable pub words64 : List ℕ → List ℕ
unfolding words32 pair_words
words64 bytes = pair_words (words32 bytes)

-- The bytes of a word, the most significant first.
abbrev pub bytes32 : ℕ → List ℕ
bytes32 w = u8 (w >>> 24) ∷ u8 (w >>> 16) ∷ u8 (w >>> 8) ∷ u8 w ∷ []

abbrev pub bytes64 : ℕ → List ℕ
bytes64 w = bytes32 (w >>> 32) ++ bytes32 (u32 w)

unfoldable pub digest32 : List ℕ → List ℕ
digest32 [] = []
digest32 (w ∷ ws) = bytes32 w ++ digest32 ws

unfoldable pub digest64 : List ℕ → List ℕ
digest64 [] = []
digest64 (w ∷ ws) = bytes64 w ++ digest64 ws

-- sha2_hex_digits, and the loop of the End functions.
abbrev pub sha2_hex_digits : List ℕ
sha2_hex_digits =
    b'0' ∷ b'1' ∷ b'2' ∷ b'3' ∷ b'4' ∷ b'5' ∷ b'6' ∷ b'7' ∷ b'8' ∷ b'9' ∷ b'a' ∷ b'b' ∷ b'c' ∷ b'd'
    ∷ b'e' ∷ b'f' ∷ []

unfoldable pub hex_string : List ℕ → List ℕ
hex_string [] = []
hex_string (d ∷ ds) =
    get_or sha2_hex_digits (bit_and d 0xf0 >>> 4) 0
    ∷ get_or sha2_hex_digits (bit_and d 0x0f) 0
    ∷ hex_string ds

pub length-swap32 : (bytes : List ℕ) → length (swap32 bytes) ≡ length bytes
unfolding swap32
length-swap32 [] = refl
length-swap32 (a ∷ []) = refl
length-swap32 (a ∷ b ∷ []) = refl
length-swap32 (a ∷ b ∷ c ∷ []) = refl
length-swap32 (a ∷ b ∷ c ∷ d ∷ rest) = ap (λ (n : ℕ). suc (suc (suc (suc n)))) (length-swap32 rest)

pub length-swap64 : (bytes : List ℕ) → length (swap64 bytes) ≡ length bytes
unfolding swap64
length-swap64 (a ∷ b ∷ c ∷ d ∷ e ∷ f ∷ g ∷ h ∷ rest) =
    ap (λ (n : ℕ). suc (suc (suc (suc (suc (suc (suc (suc n)))))))) (length-swap64 rest)
length-swap64 rest = refl

pub words32-append :
    (n : ℕ) (xs ys : List ℕ)
    → length xs ≡ 4 * n
    → (words32 (xs ++ ys) ≡ words32 xs ++ words32 ys) × (length (words32 xs) ≡ n)
unfolding words32
words32-append n [] ys h = (refl, omega arith)
words32-append n (a ∷ []) ys h = absurd (omega arith)
words32-append n (a ∷ b ∷ []) ys h = absurd (omega arith)
words32-append n (a ∷ b ∷ c ∷ []) ys h = absurd (omega arith)
words32-append zero (a ∷ b ∷ c ∷ d ∷ rest) ys h = absurd (omega arith)
words32-append (suc n) (a ∷ b ∷ c ∷ d ∷ rest) ys h =
    let (same, count) = words32-append n rest ys (omega arith) in
    (ap (λ (t : List ℕ). (a * 2 ^ 24 + b * 2 ^ 16 + c * 2 ^ 8 + d) ∷ t) same, ap suc count)

pair_words-append :
    (n : ℕ) (xs ys : List ℕ)
    → length xs ≡ 2 * n
    → (pair_words (xs ++ ys) ≡ pair_words xs ++ pair_words ys) × (length (pair_words xs) ≡ n)
unfolding pair_words
pair_words-append n [] ys h = (refl, omega arith)
pair_words-append n (a ∷ []) ys h = absurd (omega arith)
pair_words-append zero (a ∷ b ∷ rest) ys h = absurd (omega arith)
pair_words-append (suc n) (a ∷ b ∷ rest) ys h =
    let (same, count) = pair_words-append n rest ys (omega arith) in
    (ap (λ (t : List ℕ). (a * 2 ^ 32 + b) ∷ t) same, ap suc count)

pub words64-append :
    (n : ℕ) (xs ys : List ℕ)
    → length xs ≡ 8 * n
    → (words64 (xs ++ ys) ≡ words64 xs ++ words64 ys) × (length (words64 xs) ≡ n)
unfolding words64
words64-append n xs ys h =
    let (same, count) = words32-append (2 * n) xs ys (omega arith) in
    let (pairs, half) = pair_words-append n (words32 xs) (words32 ys) count in
    (ap pair_words same ∙ pairs, half)
