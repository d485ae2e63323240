-- ===== src/Bignum/Bytes.antt =====
-- Conversions in bignum.c between 32 bytes and nine limbs: read_be, write_be, read_le, write_le,
-- bn_read_be, bn_write_be, bn_read_le, bn_write_le, bn_read_uint32 and bn_read_uint64.
pub mod Word
pub mod Read
pub mod BigEndian
use tronlink_i_os_core.Base.{
  ℕ, zero, suc, ◌+◌, ◌-◌, ◌*◌, ◌/◌, ◌%◌, ◌^◌, List, [], ◌∷◌, ◌++◌, u8, u32, u64, ◌<<<◌, ◌>>>◌,
  bit_or, drop, get_or,
}
use mathlib.Core.List.{reverse}
use tronlink_i_os_core.Bignum.Number.{Bignum256, low_limb}

-- Four bytes at the front of `bytes`.
unfoldable pub read_be : List ℕ → ℕ
read_be bytes =
    bit_or
      (bit_or (bit_or (u32 (get_or bytes 0 0 <<< 24)) (u32 (get_or bytes 1 0 <<< 16)))
        (u32 (get_or bytes 2 0 <<< 8)))
      (get_or bytes 3 0)

unfoldable pub read_le : List ℕ → ℕ
read_le bytes =
    bit_or
      (bit_or (bit_or (u32 (get_or bytes 3 0 <<< 24)) (u32 (get_or bytes 2 0 <<< 16)))
        (u32 (get_or bytes 1 0 <<< 8)))
      (get_or bytes 0 0)

unfoldable pub write_be : ℕ → List ℕ
write_be x = u8 (x >>> 24) ∷ u8 (x >>> 16) ∷ u8 (x >>> 8) ∷ u8 x ∷ []

unfoldable pub write_le : ℕ → List ℕ
write_le x = u8 x ∷ u8 (x >>> 8) ∷ u8 (x >>> 16) ∷ u8 (x >>> 24) ∷ []

-- The rounds from `i` on, `left` of them; `word` gives the 32-bit word of a round.
pub read_loop : (ℕ → ℕ) → ℕ → ℕ → ℕ → Bignum256
read_loop word zero i temp = temp ∷ []
read_loop word (suc left) i temp =
    let limb = word i in
    let joined = bit_or temp (u32 (limb <<< (2 * i))) in
    low_limb joined ∷ read_loop word left (i + 1) (limb >>> (30 - 2 * i))

unfoldable pub bn_read_be : List ℕ → Bignum256
unfolding read_loop read_be
bn_read_be in_number = read_loop (λ i. read_be (drop ((7 - i) * 4) in_number)) 8 0 0

unfoldable pub bn_read_le : List ℕ → Bignum256
unfolding read_loop read_le
bn_read_le in_number = read_loop (λ i. read_le (drop (i * 4) in_number)) 8 0 0

-- The words that bn_write_be and bn_write_le write, the most significant first.
pub write_loop : Bignum256 → ℕ → ℕ → ℕ → List ℕ
write_loop a zero i temp = []
write_loop a (suc left) i temp =
    let limb = get_or a (7 - i) 0 in
    bit_or (u32 (temp <<< (16 + 2 * i))) (limb >>> (14 - 2 * i)) ∷ write_loop a left (i + 1) limb

pub concat_be : List ℕ → List ℕ
concat_be [] = []
concat_be (w ∷ ws) = write_be w ++ concat_be ws

-- bn_write_le stores the first word at the end.
pub concat_le : List ℕ → List ℕ
concat_le [] = []
concat_le (w ∷ ws) = concat_le ws ++ write_le w

unfoldable pub bn_write_be : Bignum256 → List ℕ
unfolding write_loop concat_be write_be
bn_write_be a = concat_be (write_loop a 8 0 (get_or a 8 0))

unfoldable pub bn_write_le : Bignum256 → List ℕ
unfolding write_loop concat_le write_le
bn_write_le a = concat_le (write_loop a 8 0 (get_or a 8 0))

unfoldable pub bn_read_uint32 : ℕ → Bignum256
bn_read_uint32 n = low_limb n ∷ (n >>> 30) ∷ 0 ∷ 0 ∷ 0 ∷ 0 ∷ 0 ∷ 0 ∷ 0 ∷ []

unfoldable pub bn_read_uint64 : ℕ → Bignum256
bn_read_uint64 n = low_limb n ∷ low_limb (n >>> 30) ∷ (n >>> 30 >>> 30) ∷ 0 ∷ 0 ∷ 0 ∷ 0 ∷ 0 ∷ 0 ∷ []
