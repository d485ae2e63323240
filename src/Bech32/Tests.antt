-- ===== src/Bech32/Tests.antt =====
-- Runs of the Bech32 functions: the encoding of no groups is the first valid string of BIP 173.
use tronlink_i_os_core.Base.{ℕ, ◌≡◌, refl, List, [], ◌∷◌, arith, some, bit_xor}
use tronlink_i_os_core.Bech32.{
  bech32_polymod_step, feed, checksum_groups, six_steps, bech32_constant,
  bech32_encode_with_checksum, bech32_decode_checksum,
}
use tronlink_i_os_core.Bech32.Checksum.{feed_all, checksum_groups-constant}
use tronlink_i_os_core.Bech32.Decoding.{decode-encode_with_checksum}

checksum_groups-constant_example :
    feed_all 77 (checksum_groups (bit_xor (six_steps 77) 0x2bc830a3)) ≡ 0x2bc830a3
checksum_groups-constant_example = checksum_groups-constant 77 0x2bc830a3 (omega arith)

abbrev hrp_a : List ℕ
hrp_a = b'a' ∷ []

-- "a12uel5l"
abbrev empty_string : List ℕ
empty_string = b'a' ∷ b'1' ∷ b'2' ∷ b'u' ∷ b'e' ∷ b'l' ∷ b'5' ∷ b'l' ∷ []

empty_string-encoded : bech32_encode_with_checksum hrp_a [] bech32_constant ≡ some empty_string
unfolding bech32_encode_with_checksum bech32_polymod_step feed
empty_string-encoded = refl

decode-encode_with_checksum_example :
    bech32_decode_checksum empty_string
    ≡ some (record { checksum = bech32_constant; hrp = hrp_a; groups = [] })
decode-encode_with_checksum_example =
    decode-encode_with_checksum hrp_a [] bech32_constant empty_string (λ e. cc e) (omega arith)
      empty_string-encoded
