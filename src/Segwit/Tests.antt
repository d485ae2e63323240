-- ===== src/Segwit/Tests.antt =====
-- A run of the segwit address functions: a test vector of BIP 350.
use tronlink_i_os_core.Base.{ℕ, List, [], ◌∷◌, ◌≡◌, refl, arith, some}
use tronlink_i_os_core.ConvertBits.{convert_bits}
use tronlink_i_os_core.Bech32.{bech32_encode_with_checksum, bech32_polymod_step, feed}
use tronlink_i_os_core.Segwit.{segwit_addr_encode, segwit_addr_decode}
use tronlink_i_os_core.Segwit.RoundTrip.{segwit_addr_decode-segwit_addr_encode}

abbrev hrp_bc : List ℕ
hrp_bc = b'b' ∷ b'c' ∷ []

abbrev two_bytes : List ℕ
two_bytes = 0x75 ∷ 0x1e ∷ []

-- "bc1sw50qgdz25j"
abbrev address : List ℕ
address =
    b'b' ∷ b'c' ∷ b'1' ∷ b's' ∷ b'w' ∷ b'5' ∷ b'0' ∷ b'q' ∷ b'g' ∷ b'd' ∷ b'z' ∷ b'2' ∷ b'5' ∷ b'j'
    ∷ []

address-encoded : segwit_addr_encode hrp_bc 16 two_bytes ≡ some address
unfolding segwit_addr_encode convert_bits bech32_encode_with_checksum bech32_polymod_step feed
address-encoded = refl

segwit_addr_decode-segwit_addr_encode_example :
    segwit_addr_decode hrp_bc address ≡ some (16, two_bytes)
segwit_addr_decode-segwit_addr_encode_example =
    segwit_addr_decode-segwit_addr_encode hrp_bc 16 two_bytes address (λ e. cc e) (omega arith)
      address-encoded
