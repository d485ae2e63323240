-- ===== src/Base32/RoundTrip.antt =====
-- base32_encode and base32_decode in the alphabet of RFC 4648.
use tronlink_i_os_core.Base.{
  take-append, drop-append, ℕ, zero, suc, ◌+◌, ◌-◌, ◌*◌, ◌/◌, ◌%◌, ◌≤◌, ◌<◌, ◌≡◌, inl, inr,
  Option-cases, refl, ap, ◌∙◌, List, [], ◌∷◌, ◌++◌, arith, length, All, IsByte, Option, some, true,
  false, ◌||◌, ltb, leb, ◌==◌, if◌then◌else◌, ◌>>>◌, take, drop, take-append-drop, length-take,
  length-drop, length-append, holds_in, holds_in_lem,
}
use tronlink_i_os_core.Bech32.Alphabet.{is_group, is_group_lem}
use tronlink_i_os_core.Base32.{
  Alphabet, rfc4648, base32_encode_character, base32_decode_character, base32_5to8, base32_8to5,
  encode_characters, decode_characters, encode_blocks, decode_blocks, base32_encode_unsafe,
  base32_decode_unsafe, base32_encoded_length, base32_decoded_length, base32_encode, base32_decode,
}
use tronlink_i_os_core.Base32.Block.{IsBlock, base32_5to8-IsBlock}

abbrev letter : ℕ → ℕ
letter v = if ltb v 26 then b'A' + v else b'2' + v - 26

letter_table : holds_in (λ v. is_group (base32_decode_character (letter v) rfc4648) v) 0 32 ≡ true
unfolding holds_in is_group base32_decode_character
letter_table = refl

-- The characters of some groups, and what they decode to.
record AreCharacters (groups cs : List ℕ) : Type 0 where
  written : encode_characters rfc4648 groups ≡ some cs
  read : decode_characters rfc4648 cs ≡ some groups
  count : length cs ≡ length groups

characters : (groups : List ℕ) → All (λ g. g < 32) groups → (cs : List ℕ) × AreCharacters groups cs
unfolding encode_characters decode_characters base32_encode_character
characters [] h = ([], record { written = refl; read = refl; count = refl })
characters (v ∷ vs) h =
    let (cs, rest) = characters vs h.1 in
    let fits : (v >>> 5 == 0) ≡ true = ground arith in
    let back : base32_decode_character (letter v) rfc4648 ≡ some v = is_group_lem _ v (
      holds_in_lem (λ w. is_group (base32_decode_character (letter w) rfc4648) w) 0 32 letter_table
        (omega arith) (omega arith)) in
    (
      letter v ∷ cs,
      record {
        written = rw (fits, rest.written) refl;
        read = rw (back, rest.read) refl;
        count = ap suc rest.count;
      },
    )

encode_characters-append :
    (xs ys : List ℕ) {cs ds : List ℕ}
    → encode_characters rfc4648 xs ≡ some cs
    → encode_characters rfc4648 ys ≡ some ds
    → encode_characters rfc4648 (xs ++ ys) ≡ some (cs ++ ds)
unfolding encode_characters
encode_characters-append [] ys {cs} {ds} h k = rw k (cc h)
encode_characters-append (x ∷ xs) ys {cs} {ds} h k =
    elim (Option-cases (base32_encode_character x rfc4648)) [
      | inl wide ↦ cc (rw wide at h)
      | inr (c, first) ↦ elim (Option-cases (encode_characters rfc4648 xs)) [
        | inl wide ↦ cc (rw (first, wide) at h)
        | inr (cs', rest) ↦
            let ih = encode_characters-append xs ys rest k in
            let same = rw (first, rest) at h in rw (first, ih) (cc same)
      ]
    ]

base32_8to5-block :
    (bytes groups cs : List ℕ)
    → 1 ≤ length bytes
    → length bytes ≤ 5
    → IsBlock bytes groups
    → AreCharacters groups cs
    → base32_8to5 cs (some rfc4648) ≡ some bytes
unfolding base32_8to5
base32_8to5-block bytes groups cs lo hi b c =
    let n : ℕ = length cs in
    let size : n ≡ (8 * length bytes + 4) / 5 = c.count ∙ b.count in
    let fits : (n == 1 || (n == 3 || (n == 6 || ltb 8 n))) ≡ false = ground arith in
    rw (fits, c.read) (ap some b.back)

decode_last :
    (cs : List ℕ) (alphabet : Option Alphabet)
    → 1 ≤ length cs
    → decode_blocks 0 cs alphabet ≡ base32_8to5 cs alphabet
unfolding decode_blocks
decode_last [] alphabet h = absurd (omega arith)
decode_last (c ∷ cs) alphabet h = refl

split_bytes :
    (n : ℕ) (bs : List ℕ) → All IsByte bs → All IsByte (take n bs) × All IsByte (drop n bs)
split_bytes zero bs h = (tt, h)
split_bytes (suc n) [] h = (tt, tt)
split_bytes (suc n) (b ∷ bs) h = let (front, back) = split_bytes n bs h.1 in ((h.0, front), back)

-- The characters of some bytes that have `n` whole blocks, and what they decode to.
record AreEncoded (n : ℕ) (bytes cs : List ℕ) : Type 0 where
  written : encode_characters rfc4648 (encode_blocks n bytes) ≡ some cs
  read : decode_blocks n cs (some rfc4648) ≡ some bytes
  count : length cs ≡ n * 8 + ((length bytes - 5 * n) * 8 + 4) / 5

encode_remainder :
    (bytes : List ℕ) → length bytes < 5 → All IsByte bytes → (cs : List ℕ) × AreEncoded 0 bytes cs
unfolding encode_blocks
encode_remainder [] len h = (
  [],
  record {
    written = unfold base32_5to8 encode_characters in refl;
    read = unfold decode_blocks in refl;
    count = omega arith;
  },
)
encode_remainder (b ∷ bs) len h =
    let block = base32_5to8-IsBlock (b ∷ bs) (omega arith) h in
    let (cs, c) = characters (base32_5to8 (b ∷ bs)) block.small in
    let size : length cs ≡ (8 * length (b ∷ bs) + 4) / 5 = c.count ∙ block.count in
    (
      cs,
      record {
        written = c.written;
        read =
            decode_last cs (some rfc4648) (omega arith)
            ∙ base32_8to5-block (b ∷ bs) (base32_5to8 (b ∷ bs)) cs (omega arith) (omega arith) block
                c;
        count = omega arith;
      },
    )

-- One whole block in front of the others.
encode_block_first :
    (n : ℕ) (bytes cs ds : List ℕ)
    → 5 * suc n ≤ length bytes
    → AreCharacters (base32_5to8 (take 5 bytes)) cs
    → length cs ≡ 8
    → base32_8to5 cs (some rfc4648) ≡ some (take 5 bytes)
    → AreEncoded n (drop 5 bytes) ds
    → AreEncoded (suc n) bytes (cs ++ ds)
unfolding encode_blocks decode_blocks
encode_block_first n bytes cs ds lo c eight first rest = record {
  written =
      encode_characters-append (base32_5to8 (take 5 bytes)) (encode_blocks n (drop 5 bytes))
        c.written rest.written;
  read =
      rw
        (
          take-append cs ds 8 eight,
          drop-append cs ds 8 eight,
          first,
          rest.read,
          take-append-drop 5 bytes,
        )
        refl;
  count = omega (arith, length-append cs ds, rest.count, length-drop 5 bytes);
}

encode_blocks-AreEncoded :
    (n : ℕ) (bytes : List ℕ)
    → 5 * n ≤ length bytes
    → length bytes < 5 * n + 5
    → All IsByte bytes
    → (cs : List ℕ) × AreEncoded n bytes cs
encode_blocks-AreEncoded zero bytes lo hi h = encode_remainder bytes (omega arith) h
encode_blocks-AreEncoded (suc n) bytes lo hi h =
    let (front, back) = split_bytes 5 bytes h in
    let five : length (take 5 bytes) ≡ 5 = omega (arith, length-take 5 bytes) in
    let left = length-drop 5 bytes in
    let (ds, rest) = encode_blocks-AreEncoded n (drop 5 bytes) (omega arith) (omega arith) back in
    let block = base32_5to8-IsBlock (take 5 bytes) (omega arith) front in
    let (cs, c) = characters (base32_5to8 (take 5 bytes)) block.small in
    let eight : length cs ≡ 8 = c.count ∙ block.count ∙ omega arith in
    let first =
      base32_8to5-block (take 5 bytes) (base32_5to8 (take 5 bytes)) cs (omega arith) (omega arith)
        block c in
    (cs ++ ds, encode_block_first n bytes cs ds lo c eight first rest)

-- Bytes that base32_encode has room for are written as characters of RFC 4648, as many as
-- base32_encoded_length says, and base32_decode reads those back as the bytes where it has room.
pub base32_decode-base32_encode :
    (bytes : List ℕ) (room space : ℕ)
    → All IsByte bytes
    → base32_encoded_length (length bytes) < room
    → length bytes ≤ space
    → (cs : List ℕ) × (base32_encode bytes room rfc4648 ≡ some cs)
      × (length cs ≡ base32_encoded_length (length bytes))
      × (base32_decode cs space (some rfc4648) ≡ some bytes)
unfolding base32_encoded_length
base32_decode-base32_encode bytes room space h writable readable =
    let n : ℕ = length bytes / 5 in
    let (cs, e) = encode_blocks-AreEncoded n bytes (omega arith) (omega arith) h in
    let size : length cs ≡ n * 8 + (length bytes % 5 * 8 + 4) / 5 = omega (arith, e.count) in
    let blocks : length cs / 8 ≡ n = omega arith in
    let fits : leb room (n * 8 + (length bytes % 5 * 8 + 4) / 5) ≡ false = ground arith in
    let back : length cs / 8 * 5 + length cs % 8 * 5 / 8 ≡ length bytes = omega arith in
    let enough : ltb space (length cs / 8 * 5 + length cs % 8 * 5 / 8) ≡ false = ground arith in
    (
      cs,
      unfold base32_encode base32_encode_unsafe in rw fits e.written,
      size,
      unfold base32_decode base32_decoded_length base32_decode_unsafe in
          rw enough (ap (λ (k : ℕ). decode_blocks k cs (some rfc4648)) blocks ∙ e.read),
    )
