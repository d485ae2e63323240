-- ===== src/Base32.antt =====
-- base32.c: encoding and decoding in blocks of five bytes and eight characters. A failure's NULL is
-- none, and the end pointer of a success is left out.
mod Tests
pub mod Block
pub mod RoundTrip
use tronlink_i_os_core.Base.{
  ℕ, zero, suc, ◌+◌, ◌-◌, ◌*◌, ◌/◌, ◌%◌, List, [], ◌∷◌, ◌++◌, Option, none, some, Bool, true, false,
  not, ◌||◌, ◌&&◌, u8, ◌<<<◌, ◌>>>◌, bit_and, bit_or, leb, ltb, ◌==◌, if◌then◌else◌, length, get_or,
  take, drop,
}
use tronlink_i_os_core.Bech32.{◌>>=◌}

-- BASE32_ALPHABET_RFC4648, which the code knows by its address, or the characters of another one.
pub data Alphabet : Type 0 where
  rfc4648 : Alphabet
  other : List ℕ → Alphabet

-- `alphabet[decoded]` as the int that base32_encode returns -1 for: a byte of 128 or more, a
-- negative char, is stored as the same byte, but 0xff is -1 itself, so a failure. At the end
-- stands the NUL; what lies beyond it is not defined, and is none.
element_of : List ℕ → ℕ → Option ℕ
element_of [] zero = some 0
element_of [] (suc decoded) = none
element_of (c ∷ cs) zero = if c == 0xff then none else some c
element_of (c ∷ cs) (suc decoded) = element_of cs decoded

unfoldable pub base32_encode_character : ℕ → Alphabet → Option ℕ
unfolding element_of
base32_encode_character decoded rfc4648 =
    if not (decoded >>> 5 == 0)
    then none
    else some (if ltb decoded 26 then b'A' + decoded else b'2' + decoded - 26)
base32_encode_character decoded (other alphabet) =
    if not (decoded >>> 5 == 0) then none else element_of alphabet decoded

-- strchr, which finds the NUL at the end too.
pub first_at : ℕ → List ℕ → ℕ → Option ℕ
first_at encoded [] at = if encoded == 0 then some at else none
first_at encoded (c ∷ cs) at =
    let later = first_at encoded cs (at + 1) in if c == encoded then some at else later

unfoldable pub base32_decode_character : ℕ → Alphabet → Option ℕ
unfolding first_at
base32_decode_character encoded rfc4648 =
    if leb b'A' encoded && leb encoded b'Z'
    then some (encoded - b'A')
    else if leb b'a' encoded && leb encoded b'z'
    then some (encoded - b'a')
    else if leb b'2' encoded && leb encoded b'7'
    then some (encoded - b'2' + 26)
    else none
base32_decode_character encoded (other alphabet) = first_at encoded alphabet 0

-- What one to five bytes write. The masks keep each shifted part within a byte.
unfoldable pub base32_5to8 : List ℕ → List ℕ
base32_5to8 [] = []
base32_5to8 (a ∷ []) = a >>> 3 ∷ bit_and a 7 <<< 2 ∷ []
base32_5to8 (a ∷ b ∷ []) =
    a >>> 3 ∷ bit_or (bit_and a 7 <<< 2) (b >>> 6) ∷ bit_and (b >>> 1) 31 ∷ bit_and b 1 <<< 4 ∷ []
base32_5to8 (a ∷ b ∷ c ∷ []) =
    a >>> 3
    ∷ bit_or (bit_and a 7 <<< 2) (b >>> 6)
    ∷ bit_and (b >>> 1) 31
    ∷ bit_or (bit_and b 1 <<< 4) (c >>> 4)
    ∷ bit_and c 15 <<< 1
    ∷ []
base32_5to8 (a ∷ b ∷ c ∷ d ∷ []) =
    a >>> 3
    ∷ bit_or (bit_and a 7 <<< 2) (b >>> 6)
    ∷ bit_and (b >>> 1) 31
    ∷ bit_or (bit_and b 1 <<< 4) (c >>> 4)
    ∷ bit_or (bit_and c 15 <<< 1) (d >>> 7)
    ∷ bit_and (d >>> 2) 31
    ∷ bit_and d 3 <<< 3
    ∷ []
base32_5to8 (a ∷ b ∷ c ∷ d ∷ e ∷ rest) =
    a >>> 3
    ∷ bit_or (bit_and a 7 <<< 2) (b >>> 6)
    ∷ bit_and (b >>> 1) 31
    ∷ bit_or (bit_and b 1 <<< 4) (c >>> 4)
    ∷ bit_or (bit_and c 15 <<< 1) (d >>> 7)
    ∷ bit_and (d >>> 2) 31
    ∷ bit_or (bit_and d 3 <<< 3) (e >>> 5)
    ∷ bit_and e 31
    ∷ []

-- The five bytes that eight groups write.
abbrev pub out0 : ℕ → ℕ → ℕ
out0 g0 g1 = bit_or (u8 (g0 <<< 3)) (g1 >>> 2)

abbrev pub out1 : ℕ → ℕ → ℕ → ℕ
out1 g1 g2 g3 = u8 (bit_or (bit_or (bit_and g1 3 <<< 6) (u8 (g2 <<< 1))) (g3 >>> 4))

abbrev pub out2 : ℕ → ℕ → ℕ
out2 g3 g4 = bit_or (bit_and g3 15 <<< 4) (g4 >>> 1)

abbrev pub out3 : ℕ → ℕ → ℕ → ℕ
out3 g4 g5 g6 = u8 (bit_or (bit_or (bit_and g4 1 <<< 7) (u8 (g5 <<< 2))) (g6 >>> 3))

abbrev pub out4 : ℕ → ℕ → ℕ
out4 g6 g7 = bit_or (bit_and g6 7 <<< 5) (bit_and g7 31)

unfoldable pub base32_8to5_raw : List ℕ → List ℕ
base32_8to5_raw [] = []
base32_8to5_raw (g0 ∷ []) = []
base32_8to5_raw (g0 ∷ g1 ∷ []) = out0 g0 g1 ∷ []
base32_8to5_raw (g0 ∷ g1 ∷ g2 ∷ []) = out0 g0 g1 ∷ []
base32_8to5_raw (g0 ∷ g1 ∷ g2 ∷ g3 ∷ []) = out0 g0 g1 ∷ out1 g1 g2 g3 ∷ []
base32_8to5_raw (g0 ∷ g1 ∷ g2 ∷ g3 ∷ g4 ∷ []) = out0 g0 g1 ∷ out1 g1 g2 g3 ∷ out2 g3 g4 ∷ []
base32_8to5_raw (g0 ∷ g1 ∷ g2 ∷ g3 ∷ g4 ∷ g5 ∷ []) = out0 g0 g1 ∷ out1 g1 g2 g3 ∷ out2 g3 g4 ∷ []
base32_8to5_raw (g0 ∷ g1 ∷ g2 ∷ g3 ∷ g4 ∷ g5 ∷ g6 ∷ []) =
    out0 g0 g1 ∷ out1 g1 g2 g3 ∷ out2 g3 g4 ∷ out3 g4 g5 g6 ∷ []
base32_8to5_raw (g0 ∷ g1 ∷ g2 ∷ g3 ∷ g4 ∷ g5 ∷ g6 ∷ g7 ∷ rest) =
    out0 g0 g1 ∷ out1 g1 g2 g3 ∷ out2 g3 g4 ∷ out3 g4 g5 g6 ∷ out4 g6 g7 ∷ []

pub encode_characters : Alphabet → List ℕ → Option (List ℕ)
encode_characters alphabet [] = some []
encode_characters alphabet (v ∷ vs) = do
  c ← base32_encode_character v alphabet
  cs ← encode_characters alphabet vs
  some (c ∷ cs)

pub decode_characters : Alphabet → List ℕ → Option (List ℕ)
decode_characters alphabet [] = some []
decode_characters alphabet (c ∷ cs) = do
  v ← base32_decode_character c alphabet
  vs ← decode_characters alphabet cs
  some (v ∷ vs)

-- Without an alphabet the groups stand for themselves.
unfoldable pub base32_8to5 : List ℕ → Option Alphabet → Option (List ℕ)
unfolding decode_characters base32_8to5_raw
base32_8to5 block none =
    let n = length block in
    if n == 1 || (n == 3 || (n == 6 || ltb 8 n)) then none else some (base32_8to5_raw block)
base32_8to5 block (some alphabet) =
    let n = length block in
    if n == 1 || (n == 3 || (n == 6 || ltb 8 n))
    then none
    else do decoded ← decode_characters alphabet block; some (base32_8to5_raw decoded)

-- The whole blocks, and the bytes that remain.
pub encode_blocks : ℕ → List ℕ → List ℕ
encode_blocks zero bytes = base32_5to8 bytes
encode_blocks (suc n) bytes = base32_5to8 (take 5 bytes) ++ encode_blocks n (drop 5 bytes)

unfoldable pub base32_encode_unsafe : List ℕ → List ℕ
unfolding encode_blocks
base32_encode_unsafe bytes = encode_blocks (length bytes / 5) bytes

pub decode_blocks : ℕ → List ℕ → Option Alphabet → Option (List ℕ)
decode_blocks zero [] alphabet = some []
decode_blocks zero (c ∷ cs) alphabet = base32_8to5 (c ∷ cs) alphabet
decode_blocks (suc n) cs alphabet = do
  block ← base32_8to5 (take 8 cs) alphabet
  rest ← decode_blocks n (drop 8 cs) alphabet
  some (block ++ rest)

unfoldable pub base32_decode_unsafe : List ℕ → Option Alphabet → Option (List ℕ)
unfolding decode_blocks
base32_decode_unsafe cs alphabet = decode_blocks (length cs / 8) cs alphabet

unfoldable pub base32_encoded_length : ℕ → ℕ
base32_encoded_length inlen = inlen / 5 * 8 + (inlen % 5 * 8 + 4) / 5

unfoldable pub base32_decoded_length : ℕ → ℕ
base32_decoded_length inlen = inlen / 8 * 5 + inlen % 8 * 5 / 8

unfoldable pub base32_encode : List ℕ → ℕ → Alphabet → Option (List ℕ)
unfolding encode_characters
base32_encode bytes outlen alphabet =
    if leb outlen (base32_encoded_length (length bytes))
    then none
    else encode_characters alphabet (base32_encode_unsafe bytes)

unfoldable pub base32_decode : List ℕ → ℕ → Option Alphabet → Option (List ℕ)
base32_decode cs outlen alphabet =
    if ltb outlen (base32_decoded_length (length cs))
    then none
    else base32_decode_unsafe cs alphabet
