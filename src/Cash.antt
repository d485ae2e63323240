-- ===== src/Cash.antt =====
-- cash_addr.c: the 40-bit checksum, cash_encode, cash_decode, cash_addr_encode and
-- cash_addr_decode. The file declares convert_bits and the tables charset and charset_rev once more,
-- with the text that segwit_addr.c has: their model is used here as it is.
mod Tests
pub mod Checksum
pub mod Decoding
pub mod RoundTrip
use tronlink_i_os_core.Base.{
  ℕ, zero, suc, ◌+◌, ◌-◌, ◌*◌, ◌^◌, List, [], ◌∷◌, ◌++◌, Option, none, some, Bool, true, false, not,
  ◌||◌, ◌&&◌, u8, ◌<<<◌, ◌>>>◌, bit_and, bit_xor, leb, ltb, ◌==◌, if◌then◌else◌, length, map, take,
}
use tronlink_i_os_core.ConvertBits.{convert_bits}
use tronlink_i_os_core.Bech32.{
  ◌>>=◌, term, char_of, group_of, is_lower, is_upper, to_lower, split_last, Scan, prepend,
}
use tronlink_i_os_core.Segwit.{same_string}

-- What the five highest bits add.
unfoldable pub cash_feedback : ℕ → ℕ → ℕ
cash_feedback low b =
    bit_xor
      (bit_xor
        (bit_xor (bit_xor (bit_xor low (term b 0 0x98f2bc8e61)) (term b 1 0x79b76d99e2))
          (term b 2 0xf33e5fb3c4))
        (term b 3 0xae2eabe2a8))
      (term b 4 0x1e4f43e470)

unfoldable pub cashaddr_polymod_step : ℕ → ℕ
unfolding cash_feedback
cashaddr_polymod_step pre = cash_feedback (bit_and pre 0x7ffffffff <<< 5) (u8 (pre >>> 35))

-- `chk = cashaddr_polymod_step(chk) ^ v`
unfoldable pub cash_feed : ℕ → ℕ → ℕ
cash_feed chk v = bit_xor (cashaddr_polymod_step chk) v

-- The loop of cash_encode over the human-readable part: its check, and the checksum.
pub cash_hrp : ℕ → List ℕ → Option ℕ
cash_hrp chk [] = some chk
cash_hrp chk (ch ∷ hrp) =
    let rest = cash_hrp (cash_feed chk (bit_and ch 0x1f)) hrp in
    if ltb ch 33 || ltb 126 ch then none else rest

pub cash_data : ℕ → List ℕ → Option ℕ
cash_data chk [] = some chk
cash_data chk (d ∷ ds) =
    let rest = cash_data (cash_feed chk d) ds in if d >>> 5 == 0 then rest else none

-- `chk` after the CHECKSUM_SIZE steps for the checksum's own groups, and the groups of a checksum.
unfoldable pub eight_steps : ℕ → ℕ
eight_steps chk = cashaddr_polymod_step (
    cashaddr_polymod_step (
      cashaddr_polymod_step (
        cashaddr_polymod_step (
          cashaddr_polymod_step
            (cashaddr_polymod_step (cashaddr_polymod_step (cashaddr_polymod_step chk)))))))

unfoldable pub cash_groups : ℕ → List ℕ
cash_groups chk =
    bit_and (chk >>> 35) 0x1f
    ∷ bit_and (chk >>> 30) 0x1f
    ∷ bit_and (chk >>> 25) 0x1f
    ∷ bit_and (chk >>> 20) 0x1f
    ∷ bit_and (chk >>> 15) 0x1f
    ∷ bit_and (chk >>> 10) 0x1f
    ∷ bit_and (chk >>> 5) 0x1f
    ∷ bit_and (chk >>> 0) 0x1f
    ∷ []

-- MAX_CASHADDR_SIZE is 129 and CHECKSUM_SIZE is 8. `none` is the return of 0.
unfoldable pub cash_encode : List ℕ → List ℕ → Option (List ℕ)
unfolding cash_hrp cash_data eight_steps cash_groups
cash_encode hrp groups = do
  chk ← cash_hrp 1 hrp
  chk' ←
      if ltb 129 (length hrp + 1 + length groups + 8)
      then none
      else cash_data (cashaddr_polymod_step chk) groups
  some (hrp ++ (b':' ∷ map char_of (groups ++ cash_groups (bit_xor (eight_steps chk') 1))))

pub cash_scan_hrp : ℕ → Bool → Bool → List ℕ → Option Scan
cash_scan_hrp chk lower upper [] =
    some (record { chk = chk; out = []; have_lower = lower; have_upper = upper })
cash_scan_hrp chk lower upper (ch ∷ rest) =
    let ch' = to_lower ch in
    let scan =
      cash_scan_hrp (cash_feed chk (bit_and ch' 0x1f)) (lower || is_lower ch) (upper || is_upper ch)
        rest in
    if ltb ch 33 || ltb 126 ch then none else prepend ch' scan

pub cash_scan_data : ℕ → Bool → Bool → List ℕ → Option Scan
cash_scan_data chk lower upper [] =
    some (record { chk = chk; out = []; have_lower = lower; have_upper = upper })
cash_scan_data chk lower upper (c ∷ cs) = elim (group_of c) [
  | none ↦ none
  | some v ↦
      prepend v (cash_scan_data (cash_feed chk v) (lower || is_lower c) (upper || is_upper c) cs)
]

-- The checks and loops behind the separator: MAX_HRP_SIZE is 20 and MAX_BASE32_SIZE is 104.
unfoldable pub cash_decode_parts : List ℕ → List ℕ → Option (List ℕ × List ℕ)
unfolding cash_scan_hrp cash_scan_data prepend
cash_decode_parts hrp tail =
    if (ltb (length hrp) 1 || ltb 20 (length hrp))
      || (ltb (length tail) 8 || ltb (8 + 104) (length tail))
    then none
    else do
      s ← cash_scan_hrp 1 false false hrp
      t ← cash_scan_data (cashaddr_polymod_step s.chk) s.have_lower s.have_upper tail
      if t.have_lower && t.have_upper
          then none
          else if t.chk == 1
          then some (s.out, take (length tail - 8) t.out)
          else none

-- Without a separator hrp_len wraps around, and is above MAX_HRP_SIZE.
unfoldable pub cash_decode : List ℕ → Option (List ℕ × List ℕ)
unfolding split_last cash_decode_parts
cash_decode input =
    if ltb (length input) 8 || ltb 129 (length input)
    then none
    else do (hrp, tail) ← split_last b':' input; cash_decode_parts hrp tail

-- MAX_DATA_SIZE is 65.
unfoldable pub cash_addr_encode : List ℕ → List ℕ → Option (List ℕ)
cash_addr_encode hrp bytes =
    if ltb (length bytes) 2 || ltb 65 (length bytes)
    then none
    else do groups ← convert_bits 5 bytes 8 true; cash_encode hrp groups

unfoldable pub cash_addr_decode : List ℕ → List ℕ → Option (List ℕ)
unfolding same_string
cash_addr_decode hrp addr = do
  (hrp_actual, groups) ← cash_decode addr
  if length groups == 0 || ltb 104 (length groups)
      then none
      else if not (same_string hrp hrp_actual)
      then none
      else do
        witdata ← convert_bits 8 groups 5 false
        if ltb (length witdata) 2 || ltb 65 (length witdata) then none else some witdata
