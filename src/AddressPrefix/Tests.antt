-- ===== src/AddressPrefix/Tests.antt =====
-- A run of the address prefix functions on a version of two bytes.
use tronlink_i_os_core.Base.{◌≡◌, ◌↔◌, [], ◌∷◌, arith, length, take, true}
use tronlink_i_os_core.AddressPrefix.{
  address_prefix_bytes_len, address_write_prefix_bytes, address_check_prefix,
}
use tronlink_i_os_core.AddressPrefix.Prefix.{address_check_prefix_lem}

address_check_prefix_lem_example :
    (length (address_write_prefix_bytes 0x1cb8) ≡ address_prefix_bytes_len 0x1cb8)
    × ((address_check_prefix (0x1c ∷ 0xb8 ∷ 3 ∷ 4 ∷ 5 ∷ []) 0x1cb8 ≡ true) ↔ (
        take (address_prefix_bytes_len 0x1cb8) (0x1c ∷ 0xb8 ∷ 3 ∷ 4 ∷ 5 ∷ [])
        ≡ address_write_prefix_bytes 0x1cb8))
address_check_prefix_lem_example =
    address_check_prefix_lem 0x1cb8 0x1c 0xb8 3 4 (5 ∷ []) (omega arith) (omega arith) (omega arith)
      (omega arith) (omega arith)
