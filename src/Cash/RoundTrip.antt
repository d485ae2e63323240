-- ===== src/Cash/RoundTrip.antt =====
-- cash_addr_encode and cash_addr_decode.
use tronlink_i_os_core.Base.{
  ℕ, ◌≤◌, ◌≡◌, ◌≢◌, inl, inr, refl, List, [], arith, length, All, some, false, ◌||◌, ltb, ◌==◌,
  Bool-cases, IsByte,
}
use tronlink_i_os_core.ConvertBits.RoundTrip.{convert_bits-convert_bits}
use tronlink_i_os_core.Segwit.RoundTrip.{same_string_self}
use tronlink_i_os_core.Cash.{cash_encode, cash_addr_encode, cash_addr_decode}
use tronlink_i_os_core.Cash.Decoding.{HasNoCapital, cash_decode-cash_encode}

-- Whatever cash_addr_encode writes for a human-readable part of 1 to 20 characters without a
-- capital letter and for a string of bytes, cash_addr_decode reads back as those bytes.
pub cash_addr_decode-cash_addr_encode :
    (hrp bytes addr : List ℕ)
    → hrp ≢ []
    → HasNoCapital hrp
    → length hrp ≤ 20
    → All IsByte bytes
    → cash_addr_encode hrp bytes ≡ some addr
    → cash_addr_decode hrp addr ≡ some bytes
unfolding cash_addr_encode cash_addr_decode
cash_addr_decode-cash_addr_encode hrp bytes addr nonempty plain short small h =
    elim (Bool-cases (ltb (length bytes) 2 || ltb 65 (length bytes))) [
      | inl bad ↦ cc (rw bad at h)
      | inr good ↦
          let (groups, there, _, count, back) = convert_bits-convert_bits bytes small in
          let sizes : (2 ≤ length bytes) × (length bytes ≤ 65) = ground arith in
          let few : length groups ≤ 104 = omega arith in
          let encoded : cash_encode hrp groups ≡ some addr = rw (good, there) at h in
          let decoded = cash_decode-cash_encode hrp groups addr nonempty plain short few encoded in
          let fits : (length groups == 0 || ltb 104 (length groups)) ≡ false = ground arith in
          rw (decoded, fits, same_string_self hrp, back, good) refl
    ]
