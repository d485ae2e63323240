-- ===== src/Bignum/Bytes/Word.antt =====
-- read_be, read_le, write_be and write_le in bignum.c: words of four bytes.
use tronlink_i_os_core.Base.{
  ℕ, ◌+◌, ◌*◌, ◌^◌, ◌≡◌, refl, ◌∙◌, List, [], ◌∷◌, ◌++◌, arith, length, u8, u32, ◌<<<◌, ◌>>>◌,
  bit_or, bit_or-low, IsByte, IsU32,
}
use tronlink_i_os_core.Bignum.Bytes.{read_be, read_le, write_be, write_le}

-- The bytes as one number, the first byte the most significant.
abbrev pub be_value : List ℕ → ℕ
be_value [] = 0
be_value (b ∷ bs) = b * 256 ^ length bs + be_value bs

pub join_bytes :
    (a b c d : ℕ)
    → IsByte a
    → IsByte b
    → IsByte c
    → IsByte d
    → bit_or (bit_or (bit_or (u32 (a <<< 24)) (u32 (b <<< 16))) (u32 (c <<< 8))) d
      ≡ a * 2 ^ 24 + b * 2 ^ 16 + c * 2 ^ 8 + d
join_bytes a b c d ha hb hc hd =
    let first : u32 (a <<< 24) ≡ a * 2 ^ 24 = omega arith in
    let second : u32 (b <<< 16) ≡ b * 2 ^ 16 = omega arith in
    let third : u32 (c <<< 8) ≡ c * 2 ^ 8 = omega arith in
    rw
      (
        first,
        second,
        third,
        bit_or-low 24 (a * 2 ^ 24) (b * 2 ^ 16) (omega arith) (omega arith),
        bit_or-low 16 (a * 2 ^ 24 + b * 2 ^ 16) (c * 2 ^ 8) (omega arith) (omega arith),
        bit_or-low 8 (a * 2 ^ 24 + b * 2 ^ 16 + c * 2 ^ 8) d (omega arith) (omega arith),
      )
      refl

-- read_be after write_be is the identity on 32-bit words, and so is read_le after write_le,
-- whatever bytes follow.
pub read-write_word :
    (w : ℕ) (rest : List ℕ)
    → IsU32 w
    → (read_be (write_be w ++ rest) ≡ w) × (read_le (write_le w ++ rest) ≡ w)
unfolding read_be write_be read_le write_le
read-write_word w rest h =
    let joined =
      join_bytes (u8 (w >>> 24)) (u8 (w >>> 16)) (u8 (w >>> 8)) (u8 w) (omega arith) (omega arith)
        (omega arith) (omega arith) in
    (joined ∙ omega arith, joined ∙ omega arith)

pub read_be_lem :
    (a b c d : ℕ) (rest : List ℕ)
    → IsByte a
    → IsByte b
    → IsByte c
    → IsByte d
    → read_be (a ∷ b ∷ c ∷ d ∷ rest) ≡ be_value (a ∷ b ∷ c ∷ d ∷ [])
unfolding read_be
read_be_lem a b c d rest ha hb hc hd = join_bytes a b c d ha hb hc hd ∙ omega arith
