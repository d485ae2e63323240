-- ===== src/ConvertBits/Tests.antt =====
-- A run of convert_bits both ways.
use tronlink_i_os_core.Base.{
  ℕ, ◌+◌, ◌*◌, ◌/◌, ◌<◌, ◌≡◌, List, [], ◌∷◌, arith, length, All, some, true, false,
}
use tronlink_i_os_core.ConvertBits.{convert_bits}
use tronlink_i_os_core.ConvertBits.RoundTrip.{convert_bits-convert_bits}

abbrev three_bytes : List ℕ
three_bytes = 0xff ∷ 0 ∷ 0x5a ∷ []

convert_bits-convert_bits_example :
    (ds : List ℕ) × (convert_bits 5 three_bytes 8 true ≡ some ds)
    × All (λ g. g < 32) ds
    × (length ds ≡ (8 * length three_bytes + 4) / 5)
    × (convert_bits 8 ds 5 false ≡ some three_bytes)
convert_bits-convert_bits_example = convert_bits-convert_bits three_bytes (omega arith)
