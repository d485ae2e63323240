-- ===== src/AddressPrefix.antt =====
-- The version bytes in front of an address in address.c: address_prefix_bytes_len,
-- address_write_prefix_bytes and address_check_prefix.
mod Tests
pub mod Prefix
use tronlink_i_os_core.Base.{
  ℕ, List, [], ◌∷◌, ◌++◌, Bool, u8, u32, ◌<<<◌, ◌>>>◌, bit_and, bit_or, leb, ltb, ◌==◌,
  if◌then◌else◌, get_or,
}

unfoldable pub address_prefix_bytes_len : ℕ → ℕ
address_prefix_bytes_len address_type =
    if leb address_type 0xff
    then 1
    else if leb address_type 0xffff
    then 2
    else if leb address_type 0xffffff
    then 3
    else 4

unfoldable pub address_write_prefix_bytes : ℕ → List ℕ
address_write_prefix_bytes address_type =
    (if ltb 0xffffff address_type then u8 (address_type >>> 24) ∷ [] else [])
    ++ (if ltb 0xffff address_type then bit_and (address_type >>> 16) 0xff ∷ [] else [])
    ++ (if ltb 0xff address_type then bit_and (address_type >>> 8) 0xff ∷ [] else [])
    ++ (bit_and address_type 0xff ∷ [])

unfoldable pub address_check_prefix : List ℕ → ℕ → Bool
address_check_prefix addr address_type =
    if leb address_type 0xff
    then address_type == get_or addr 0 0
    else if leb address_type 0xffff
    then address_type == bit_or (u32 (get_or addr 0 0 <<< 8)) (get_or addr 1 0)
    else if leb address_type 0xffffff
    then address_type
      == bit_or (bit_or (u32 (get_or addr 0 0 <<< 16)) (u32 (get_or addr 1 0 <<< 8)))
          (get_or addr 2 0)
    else address_type
      == bit_or
          (bit_or (bit_or (u32 (get_or addr 0 0 <<< 24)) (u32 (get_or addr 1 0 <<< 16)))
            (u32 (get_or addr 2 0 <<< 8)))
          (get_or addr 3 0)
