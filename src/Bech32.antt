-- ===== src/Bech32.antt =====
-- Bech32 and Bech32m in segwit_addr.c: bech32_polymod_step, bech32_encode_with_checksum,
-- bech32_encode, bech32_decode_checksum and bech32_decode. A C string is the list of its codes
-- before the NUL.
mod Tests
pub mod Polymod
pub mod Checksum
pub mod Alphabet
pub mod Decoding
use tronlink_i_os_core.Base.{
  ℕ, zero, suc, ◌+◌, ◌-◌, ◌*◌, ◌/◌, ◌%◌, ◌^◌, List, [], ◌∷◌, ◌++◌, Option, none, some, Bool, true,
  false, not, ◌||◌, ◌&&◌, u8, u32, ◌<<<◌, ◌>>>◌, bit_and, bit_or, bit_xor, leb, ltb, ◌==◌,
  if◌then◌else◌, get_or, length, map, take,
}

-- `-((b >> i) & 1) & generator`, in unsigned long
abbrev pub term : ℕ → ℕ → ℕ → ℕ
term b i generator = bit_and ((2 ^ 64 - bit_and (b >>> i) 1) % 2 ^ 64) generator

-- What the five highest bits of `pre` add.
unfoldable pub feedback : ℕ → ℕ → ℕ
feedback low b =
    bit_xor
      (bit_xor
        (bit_xor (bit_xor (bit_xor low (term b 0 0x3b6a57b2)) (term b 1 0x26508e6d))
          (term b 2 0x1ea119fa))
        (term b 3 0x3d4233dd))
      (term b 4 0x2a1462b3)

unfoldable pub bech32_polymod_step : ℕ → ℕ
unfolding feedback
bech32_polymod_step pre = feedback (bit_and pre 0x1ffffff <<< 5) (u8 (pre >>> 25))

-- `chk = bech32_polymod_step(chk) ^ v`
unfoldable pub feed : ℕ → ℕ → ℕ
feed chk v = bit_xor (bech32_polymod_step chk) v

-- "qpzry9x8gf2tvdw0s3jn54khce6mua7l"
abbrev pub charset : List ℕ
charset =
    b'q' ∷ b'p' ∷ b'z' ∷ b'r' ∷ b'y' ∷ b'9' ∷ b'x' ∷ b'8' ∷ b'g' ∷ b'f' ∷ b'2' ∷ b't' ∷ b'v' ∷ b'd'
    ∷ b'w' ∷ b'0' ∷ b's' ∷ b'3' ∷ b'j' ∷ b'n' ∷ b'5' ∷ b'4' ∷ b'k' ∷ b'h' ∷ b'c' ∷ b'e' ∷ b'6'
    ∷ b'm' ∷ b'u' ∷ b'a' ∷ b'7' ∷ b'l' ∷ []

unfoldable pub char_of : ℕ → ℕ
char_of v = get_or charset v 0

abbrev pub bech32_constant : ℕ
bech32_constant = 1

abbrev pub bech32m_constant : ℕ
bech32m_constant = 0x2bc830a3

-- The first loop over the human-readable part: its checks, and the checksum of the high bits.
pub hrp_high : ℕ → List ℕ → Option ℕ
hrp_high chk [] = some chk
hrp_high chk (ch ∷ hrp) =
    let rest = hrp_high (feed chk (ch >>> 5)) hrp in
    if ltb ch 33 || ltb 126 ch then none else if leb b'A' ch && leb ch b'Z' then none else rest

-- The second loop, over the low bits.
pub hrp_low : ℕ → List ℕ → ℕ
hrp_low chk [] = chk
hrp_low chk (ch ∷ hrp) = hrp_low (feed chk (bit_and ch 0x1f)) hrp

pub feed_data : ℕ → List ℕ → Option ℕ
feed_data chk [] = some chk
feed_data chk (d ∷ ds) = let rest = feed_data (feed chk d) ds in if d >>> 5 == 0 then rest else none

-- `chk` after the six steps for the checksum's own groups, and the groups of a checksum.
unfoldable pub six_steps : ℕ → ℕ
six_steps chk = bech32_polymod_step (
    bech32_polymod_step
      (bech32_polymod_step (bech32_polymod_step (bech32_polymod_step (bech32_polymod_step chk)))))

unfoldable pub checksum_groups : ℕ → List ℕ
checksum_groups chk =
    bit_and (chk >>> 25) 0x1f
    ∷ bit_and (chk >>> 20) 0x1f
    ∷ bit_and (chk >>> 15) 0x1f
    ∷ bit_and (chk >>> 10) 0x1f
    ∷ bit_and (chk >>> 5) 0x1f
    ∷ bit_and (chk >>> 0) 0x1f
    ∷ []

infixl 5 ◌>>=◌
abbrev pub ◌>>=◌ : {A B : Type 0} → Option A → (A → Option B) → Option B
none >>= f = none
some a >>= f = f a

-- `none` is the return of 0.
unfoldable pub bech32_encode_with_checksum : List ℕ → List ℕ → ℕ → Option (List ℕ)
unfolding hrp_high hrp_low feed_data six_steps checksum_groups char_of
bech32_encode_with_checksum hrp groups checksum_constant = do
  chk ← hrp_high 1 hrp
  chk' ←
      if ltb 90 (length hrp + 7 + length groups)
      then none
      else feed_data (hrp_low (bech32_polymod_step chk) hrp) groups
  some (
      hrp
      ++ (b'1'
          ∷ map char_of (groups ++ checksum_groups (bit_xor (six_steps chk') checksum_constant))))

unfoldable pub bech32_encode : List ℕ → List ℕ → Option (List ℕ)
bech32_encode hrp groups = bech32_encode_with_checksum hrp groups bech32_constant

-- The table charset_rev; 0xff stands for -1.
abbrev pub charset_rev : List ℕ
charset_rev =
    0xff ∷ 0xff ∷ 0xff ∷ 0xff ∷ 0xff ∷ 0xff ∷ 0xff ∷ 0xff ∷ 0xff ∷ 0xff ∷ 0xff ∷ 0xff ∷ 0xff ∷ 0xff
    ∷ 0xff ∷ 0xff ∷ 0xff ∷ 0xff ∷ 0xff ∷ 0xff ∷ 0xff ∷ 0xff ∷ 0xff ∷ 0xff ∷ 0xff ∷ 0xff ∷ 0xff
    ∷ 0xff ∷ 0xff ∷ 0xff ∷ 0xff ∷ 0xff ∷ 0xff ∷ 0xff ∷ 0xff ∷ 0xff ∷ 0xff ∷ 0xff ∷ 0xff ∷ 0xff
    ∷ 0xff ∷ 0xff ∷ 0xff ∷ 0xff ∷ 0xff ∷ 0xff ∷ 0xff ∷ 0xff ∷ 15 ∷ 0xff ∷ 10 ∷ 17 ∷ 21 ∷ 20 ∷ 26
    ∷ 30 ∷ 7 ∷ 5 ∷ 0xff ∷ 0xff ∷ 0xff ∷ 0xff ∷ 0xff ∷ 0xff ∷ 0xff ∷ 29 ∷ 0xff ∷ 24 ∷ 13 ∷ 25 ∷ 9 ∷ 8
    ∷ 23 ∷ 0xff ∷ 18 ∷ 22 ∷ 31 ∷ 27 ∷ 19 ∷ 0xff ∷ 1 ∷ 0 ∷ 3 ∷ 16 ∷ 11 ∷ 28 ∷ 12 ∷ 14 ∷ 6 ∷ 4 ∷ 2
    ∷ 0xff ∷ 0xff ∷ 0xff ∷ 0xff ∷ 0xff ∷ 0xff ∷ 29 ∷ 0xff ∷ 24 ∷ 13 ∷ 25 ∷ 9 ∷ 8 ∷ 23 ∷ 0xff ∷ 18
    ∷ 22 ∷ 31 ∷ 27 ∷ 19 ∷ 0xff ∷ 1 ∷ 0 ∷ 3 ∷ 16 ∷ 11 ∷ 28 ∷ 12 ∷ 14 ∷ 6 ∷ 4 ∷ 2 ∷ 0xff ∷ 0xff ∷ 0xff
    ∷ 0xff ∷ 0xff ∷ []

-- `(input[i] & 0x80) ? -1 : charset_rev[(int)input[i]]`
unfoldable pub group_of : ℕ → Option ℕ
group_of c =
    let v = get_or charset_rev c 0xff in
    if not (bit_and c 0x80 == 0) || v == 0xff then none else some v

abbrev pub is_lower : ℕ → Bool
is_lower ch = leb b'a' ch && leb ch b'z'

abbrev pub is_upper : ℕ → Bool
is_upper ch = leb b'A' ch && leb ch b'Z'

-- The part before the last separator and the part behind it; `none` if there is none.
unfoldable pub split_last : ℕ → List ℕ → Option (List ℕ × List ℕ)
split_last separator [] = none
split_last separator (c ∷ cs) = elim (split_last separator cs) [
  | some (hrp, tail) ↦ some (c ∷ hrp, tail)
  | none ↦ if c == separator then some ([], cs) else none
]

-- What a loop of bech32_decode_checksum leaves: the checksum, what it stored, and the two flags.
pub record Scan : Type 0 where
  pub chk : ℕ
  pub out : List ℕ
  pub have_lower : Bool
  pub have_upper : Bool

unfoldable pub prepend : ℕ → Option Scan → Option Scan
prepend v none = none
prepend v (some s) = some (record s { out = v ∷ s.out })

abbrev pub to_lower : ℕ → ℕ
to_lower ch = if is_upper ch then ch - b'A' + b'a' else ch

pub scan_hrp : ℕ → Bool → Bool → List ℕ → Option Scan
scan_hrp chk lower upper [] =
    some (record { chk = chk; out = []; have_lower = lower; have_upper = upper })
scan_hrp chk lower upper (ch ∷ rest) =
    let ch' = to_lower ch in
    let scan = scan_hrp (feed chk (ch' >>> 5)) (lower || is_lower ch) (upper || is_upper ch) rest in
    if ltb ch 33 || ltb 126 ch then none else prepend ch' scan

pub scan_data : ℕ → Bool → Bool → List ℕ → Option Scan
scan_data chk lower upper [] =
    some (record { chk = chk; out = []; have_lower = lower; have_upper = upper })
scan_data chk lower upper (c ∷ cs) = elim (group_of c) [
  | none ↦ none
  | some v ↦ prepend v (scan_data (feed chk v) (lower || is_lower c) (upper || is_upper c) cs)
]

pub record Decoded : Type 0 where
  pub checksum : ℕ
  pub hrp : List ℕ
  pub groups : List ℕ

-- The checks and loops behind the separator.
unfoldable pub decode_parts : List ℕ → List ℕ → Option Decoded
unfolding scan_hrp scan_data prepend hrp_low
decode_parts hrp tail = if ltb (length hrp) 1 || ltb (length tail) 6 then none else do
  s ← scan_hrp 1 false false hrp
  t ← scan_data (hrp_low (bech32_polymod_step s.chk) hrp) s.have_lower s.have_upper tail
  if t.have_lower && t.have_upper
      then none
      else some (record { checksum = t.chk; hrp = s.out; groups = take (length tail - 6) t.out })

-- `none` where the C function returns 0 early.
unfoldable pub bech32_decode_checksum : List ℕ → Option Decoded
unfolding split_last decode_parts
bech32_decode_checksum input =
    if ltb (length input) 8 || ltb 90 (length input)
    then none
    else do (hrp, tail) ← split_last b'1' input; decode_parts hrp tail

unfoldable pub bech32_decode : List ℕ → Option Decoded
bech32_decode input = do
  d ← bech32_decode_checksum input
  if d.checksum == bech32_constant then some d else none
