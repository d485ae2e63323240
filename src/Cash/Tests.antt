-- ===== src/Cash/Tests.antt =====
-- A run of the cash address functions.
use tronlink_i_os_core.Base.{ℕ, List, [], ◌∷◌, ◌≡◌, refl, arith, some}
use tronlink_i_os_core.ConvertBits.{convert_bits}
use tronlink_i_os_core.Bech32.{char_of}
use tronlink_i_os_core.Cash.{
  cash_encode, cash_feed, cashaddr_polymod_step, cash_addr_encode, cash_addr_decode, cash_decode,
}
use tronlink_i_os_core.Cash.Decoding.{cash_decode-cash_encode}
use tronlink_i_os_core.Cash.RoundTrip.{cash_addr_decode-cash_addr_encode}

abbrev hrp_bch : List ℕ
hrp_bch = b'b' ∷ b'c' ∷ b'h' ∷ []

abbrev two_bytes : List ℕ
two_bytes = 0x75 ∷ 0x1e ∷ []

-- "bch:w50q2k5gdjj8"
abbrev cash_address : List ℕ
cash_address =
    b'b' ∷ b'c' ∷ b'h' ∷ b':' ∷ b'w' ∷ b'5' ∷ b'0' ∷ b'q' ∷ b'2' ∷ b'k' ∷ b'5' ∷ b'g' ∷ b'd' ∷ b'j'
    ∷ b'j' ∷ b'8' ∷ []

cash_address-encoded : cash_addr_encode hrp_bch two_bytes ≡ some cash_address
unfolding cash_addr_encode convert_bits cash_encode cashaddr_polymod_step cash_feed char_of
cash_address-encoded = refl

cash_addr_decode-cash_addr_encode_example : cash_addr_decode hrp_bch cash_address ≡ some two_bytes
cash_addr_decode-cash_addr_encode_example =
    cash_addr_decode-cash_addr_encode hrp_bch two_bytes cash_address (λ e. cc e)
      (refl, (refl, (refl, tt))) (omega arith) (omega arith) cash_address-encoded

abbrev groups : List ℕ
groups = 14 ∷ 20 ∷ 15 ∷ 0 ∷ []

groups-encoded : cash_encode hrp_bch groups ≡ some cash_address
unfolding cash_encode cashaddr_polymod_step cash_feed char_of
groups-encoded = refl

cash_decode-cash_encode_example : cash_decode cash_address ≡ some (hrp_bch, groups)
cash_decode-cash_encode_example =
    cash_decode-cash_encode hrp_bch groups cash_address (λ e. cc e) (refl, (refl, (refl, tt)))
      (omega arith) (omega arith) groups-encoded
