-- ===== src/Base58.antt =====
-- base58.c: the reading of Base58.
pub mod Decode
pub mod Bytes
pub mod Binary
mod Tests
use tronlink_i_os_core.Bech32.{◌>>=◌}
use tronlink_i_os_core.Base.{
  ℕ, zero, suc, ◌+◌, ◌-◌, ◌*◌, ◌/◌, ◌%◌, ◌<◌, ◌≤◌, ◌≡◌, List, [], ◌∷◌, ◌++◌, length, take, drop,
  replicate, get_or, Option, none, some, u8, u32, ◌<<<◌, ◌>>>◌, bit_and, bit_or, ltb, leb, ◌==◌,
  not, ◌&&◌, ◌||◌, if◌then◌else◌,
}

-- The digit of each character below 128; none for -1.
abbrev pub b58digits_map : List (Option ℕ)
b58digits_map =
    none
    ∷ none
    ∷ none
    ∷ none
    ∷ none
    ∷ none
    ∷ none
    ∷ none
    ∷ none
    ∷ none
    ∷ none
    ∷ none
    ∷ none
    ∷ none
    ∷ none
    ∷ none
    ∷ none
    ∷ none
    ∷ none
    ∷ none
    ∷ none
    ∷ none
    ∷ none
    ∷ none
    ∷ none
    ∷ none
    ∷ none
    ∷ none
    ∷ none
    ∷ none
    ∷ none
    ∷ none
    ∷ none
    ∷ none
    ∷ none
    ∷ none
    ∷ none
    ∷ none
    ∷ none
    ∷ none
    ∷ none
    ∷ none
    ∷ none
    ∷ none
    ∷ none
    ∷ none
    ∷ none
    ∷ none
    ∷ none
    ∷ some 0
    ∷ some 1
    ∷ some 2
    ∷ some 3
    ∷ some 4
    ∷ some 5
    ∷ some 6
    ∷ some 7
    ∷ some 8
    ∷ none
    ∷ none
    ∷ none
    ∷ none
    ∷ none
    ∷ none
    ∷ none
    ∷ some 9
    ∷ some 10
    ∷ some 11
    ∷ some 12
    ∷ some 13
    ∷ some 14
    ∷ some 15
    ∷ some 16
    ∷ none
    ∷ some 17
    ∷ some 18
    ∷ some 19
    ∷ some 20
    ∷ some 21
    ∷ none
    ∷ some 22
    ∷ some 23
    ∷ some 24
    ∷ some 25
    ∷ some 26
    ∷ some 27
    ∷ some 28
    ∷ some 29
    ∷ some 30
    ∷ some 31
    ∷ some 32
    ∷ none
    ∷ none
    ∷ none
    ∷ none
    ∷ none
    ∷ none
    ∷ some 33
    ∷ some 34
    ∷ some 35
    ∷ some 36
    ∷ some 37
    ∷ some 38
    ∷ some 39
    ∷ some 40
    ∷ some 41
    ∷ some 42
    ∷ some 43
    ∷ none
    ∷ some 44
    ∷ some 45
    ∷ some 46
    ∷ some 47
    ∷ some 48
    ∷ some 49
    ∷ some 50
    ∷ some 51
    ∷ some 52
    ∷ some 53
    ∷ some 54
    ∷ some 55
    ∷ some 56
    ∷ some 57
    ∷ none
    ∷ none
    ∷ none
    ∷ none
    ∷ none
    ∷ []

-- The loop over the words of outi, from the last one on; the carry comes out last.
unfoldable pub multiply_add : List ℕ → ℕ → List ℕ × ℕ
multiply_add [] c = ([], c)
multiply_add (w ∷ ws) c =
    let (rest, carry) = multiply_add ws c in
    let t = w * 58 + carry in (bit_and t 0xffffffff ∷ rest, bit_and t 0x3f00000000 >>> 32)

-- The digit of a character, with the tests that refuse it.
unfoldable pub digit_of : ℕ → Option ℕ
digit_of c = if not (bit_and c 0x80 == 0) then none else get_or b58digits_map c none

-- The loop over the characters after the leading ones.
unfoldable pub decode_loop : ℕ → List ℕ → List ℕ → Option (List ℕ)
unfolding digit_of multiply_add
decode_loop zeromask outi [] = some outi
decode_loop zeromask outi (c ∷ cs) = do
  digit ← digit_of c
  let (words, carry) = multiply_add outi digit in
      let rest = decode_loop zeromask words cs in
      if not (carry == 0)
      then none
      else if not (bit_and (get_or words 0 0) zeromask == 0)
      then none
      else rest

-- The number of elements in front that equal the first argument.
unfoldable pub count_leading : ℕ → List ℕ → ℕ
count_leading x [] = 0
count_leading x (y ∷ ys) = let rest = count_leading x ys in if y == x then suc rest else 0

abbrev pub zeromask_of : ℕ → ℕ
zeromask_of bytesleft = if bytesleft == 0 then 0 else u32 (0xffffffff <<< (bytesleft * 8))

-- The switch on bytesleft, with what falls through.
unfoldable pub first_bytes : ℕ → ℕ → List ℕ
first_bytes zero w = []
first_bytes (suc zero) w = bit_and w 0xff ∷ []
first_bytes (suc (suc zero)) w = (bit_and w 0xff00 >>> 8) ∷ bit_and w 0xff ∷ []
first_bytes (suc (suc (suc n))) w =
    (bit_and w 0xff0000 >>> 16) ∷ (bit_and w 0xff00 >>> 8) ∷ bit_and w 0xff ∷ []

unfoldable pub word_bytes : List ℕ → List ℕ
word_bytes [] = []
word_bytes (w ∷ ws) =
    bit_and (w >>> 24) 0xff
    ∷ bit_and (w >>> 16) 0xff
    ∷ bit_and (w >>> 8) 0xff
    ∷ bit_and w 0xff
    ∷ word_bytes ws

unfoldable pub output_bytes : ℕ → List ℕ → List ℕ
unfolding first_bytes word_bytes
output_bytes bytesleft outi =
    if bytesleft == 0
    then word_bytes outi
    else first_bytes bytesleft (get_or outi 0 0) ++ word_bytes (drop 1 outi)

-- The bytes of bin, all binsz of them, and the new *binszp.
unfoldable pub b58tobin : ℕ → List ℕ → Option (List ℕ × ℕ)
unfolding decode_loop count_leading output_bytes
b58tobin binsz b58 =
    let zerocount = count_leading b'1' b58 in
    let decoded =
      decode_loop (zeromask_of (binsz % 4)) (replicate ((binsz + 3) / 4) 0) (drop zerocount b58) in
    if binsz == 0 then none else do
      outi ← decoded
      let bin = output_bytes (binsz % 4) outi in
          let i = count_leading 0 bin in
          if ltb i zerocount then none else some (bin, binsz - i + zerocount)
