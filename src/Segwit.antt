-- ===== src/Segwit.antt =====
-- segwit_addr_encode and segwit_addr_decode in segwit_addr.c. The witness version is an int of the
-- C code, here a number: a negative version, which the code refuses first, has no counterpart.
mod Tests
pub mod RoundTrip
use tronlink_i_os_core.Base.{
  ℕ, zero, suc, ◌+◌, ◌-◌, ◌≤◌, ◌<◌, List, [], ◌∷◌, Option, none, some, Bool, true, false, not, ◌||◌,
  ◌&&◌, leb, ltb, ◌==◌, if◌then◌else◌, length,
}
use tronlink_i_os_core.ConvertBits.{convert_bits}
use tronlink_i_os_core.Bech32.{
  ◌>>=◌, bech32_constant, bech32m_constant, bech32_encode_with_checksum, Decoded,
  bech32_decode_checksum,
}

-- BIP 350: version 0 has Bech32's constant, the others have Bech32m's.
unfoldable pub constant_of : ℕ → ℕ
constant_of witver = if witver == 0 then bech32_constant else bech32m_constant

-- A length that the code refuses for a version.
unfoldable pub refused : ℕ → ℕ → Bool
refused witver len =
    (witver == 0 && (not (len == 20) && not (len == 32))) || (ltb len 2 || ltb 40 len)

unfoldable pub segwit_addr_encode : List ℕ → ℕ → List ℕ → Option (List ℕ)
unfolding constant_of refused
segwit_addr_encode hrp witver witprog =
    if ltb 16 witver || refused witver (length witprog) then none else do
      groups ← convert_bits 5 witprog 8 true
      bech32_encode_with_checksum hrp (witver ∷ groups) (constant_of witver)

-- `strncmp(hrp, hrp_actual, 84) == 0`: hrp_actual is shorter than that.
unfoldable pub same_string : List ℕ → List ℕ → Bool
same_string [] [] = true
same_string [] (d ∷ ds) = false
same_string (c ∷ cs) [] = false
same_string (c ∷ cs) (d ∷ ds) = c == d && same_string cs ds

-- The checks on the groups behind the checksum's: the version and the program.
unfoldable pub read_program : ℕ → List ℕ → Option (ℕ × List ℕ)
unfolding constant_of refused
read_program checksum [] = none
read_program checksum (witver ∷ rest) =
    if ltb 16 witver || not (checksum == constant_of witver) then none else do
      witprog ← convert_bits 8 rest 5 false
      if refused witver (length witprog) then none else some (witver, witprog)

unfoldable pub segwit_addr_decode : List ℕ → List ℕ → Option (ℕ × List ℕ)
unfolding same_string read_program
segwit_addr_decode hrp addr = do
  d ← bech32_decode_checksum addr
  if not (d.checksum == bech32_constant) && not (d.checksum == bech32m_constant)
      then none
      else if length d.groups == 0 || ltb 65 (length d.groups)
      then none
      else if not (same_string hrp d.hrp)
      then none
      else read_program d.checksum d.groups
