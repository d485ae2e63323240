-- ===== src/Base32/Tests.antt =====
-- Runs of base32.c, with a test vector of RFC 4648.
use tronlink_i_os_core.Base.{ℕ, List, [], ◌∷◌, ◌≡◌, refl, arith, length, some}
use tronlink_i_os_core.Base32.{
  rfc4648, base32_5to8, base32_encode_character, base32_encode_unsafe, base32_encoded_length,
  base32_encode, base32_decode,
}
use tronlink_i_os_core.Base32.RoundTrip.{base32_decode-base32_encode}
use tronlink_i_os_core.Base32.Block.{IsBlock, base32_5to8-IsBlock}

-- "foobar"
abbrev text : List ℕ
text = b'f' ∷ b'o' ∷ b'o' ∷ b'b' ∷ b'a' ∷ b'r' ∷ []

-- "MZXW6YTBOI"
text-encoded :
    base32_encode text 11 rfc4648
    ≡ some (b'M' ∷ b'Z' ∷ b'X' ∷ b'W' ∷ b'6' ∷ b'Y' ∷ b'T' ∷ b'B' ∷ b'O' ∷ b'I' ∷ [])
unfolding base32_encode base32_encode_unsafe base32_encoded_length base32_5to8
    base32_encode_character
text-encoded = refl

base32_decode-base32_encode_example :
    (cs : List ℕ) × (base32_encode text 11 rfc4648 ≡ some cs)
    × (length cs ≡ base32_encoded_length (length text))
    × (base32_decode cs 6 (some rfc4648) ≡ some text)
base32_decode-base32_encode_example =
    base32_decode-base32_encode text 11 6 (omega arith)
      (unfold base32_encoded_length in omega arith) (omega arith)

base32_5to8-IsBlock_example : IsBlock (b'f' ∷ b'o' ∷ []) (base32_5to8 (b'f' ∷ b'o' ∷ []))
base32_5to8-IsBlock_example = base32_5to8-IsBlock (b'f' ∷ b'o' ∷ []) (omega arith) (omega arith)
