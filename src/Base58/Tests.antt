-- ===== src/Base58/Tests.antt =====
-- Runs of base58.c on short strings.
use tronlink_i_os_core.Base.{
  ℕ, ◌+◌, ◌^◌, ◌<◌, ◌≤◌, ◌≡◌, List, [], ◌∷◌, arith, refl, length, drop, ltb, if◌then◌else◌, ◌-◌,
  some, none, All, IsByte,
}
use tronlink_i_os_core.Base58.{b58tobin, digit_of, count_leading}
use tronlink_i_os_core.Base58.Bytes.{value_bytes}
use tronlink_i_os_core.Base58.Binary.{b58tobin_lem, b58tobin-none}
use tronlink_i_os_core.Base58.Decode.{AreDigits, number58}

-- "2g", which stands for the byte 97
abbrev text : List ℕ
text = b'2' ∷ b'g' ∷ []

text-AreDigits : AreDigits text (1 ∷ 39 ∷ [])
unfolding digit_of
text-AreDigits = (refl, omega arith, (refl, omega arith, tt))

-- "112g", with two leading ones
abbrev long_text : List ℕ
long_text = b'1' ∷ b'1' ∷ text

long_text-AreDigits : AreDigits (drop (count_leading b'1' long_text) long_text) (1 ∷ 39 ∷ [])
unfolding count_leading
long_text-AreDigits = text-AreDigits

small_number : number58 0 (1 ∷ 39 ∷ []) < 256 ^ 3
unfolding number58
small_number = omega arith

b58tobin_lem_example :
    (bin : List ℕ) × (length bin ≡ 3)
    × All IsByte bin
    × (value_bytes bin ≡ number58 0 (1 ∷ 39 ∷ []))
    × (b58tobin 3 long_text ≡ (
        if ltb (count_leading 0 bin) (count_leading b'1' long_text)
        then none
        else some (bin, 3 - count_leading 0 bin + count_leading b'1' long_text)))
b58tobin_lem_example =
    b58tobin_lem 3 (omega arith) long_text (1 ∷ 39 ∷ []) long_text-AreDigits small_number

-- "zz", a number of two bytes
abbrev large_text : List ℕ
large_text = b'z' ∷ b'z' ∷ []

large_text-AreDigits : AreDigits (drop (count_leading b'1' large_text) large_text) (57 ∷ 57 ∷ [])
unfolding count_leading digit_of
large_text-AreDigits = (refl, omega arith, (refl, omega arith, tt))

large_number : 256 ^ 1 ≤ number58 0 (57 ∷ 57 ∷ [])
unfolding number58
large_number = omega arith

b58tobin-none_example : b58tobin 1 large_text ≡ none
b58tobin-none_example =
    b58tobin-none 1 (omega arith) large_text (57 ∷ 57 ∷ []) large_text-AreDigits large_number

b58tobin_112g : b58tobin 3 long_text ≡ some (0 ∷ 0 ∷ 97 ∷ [], 3)
unfolding b58tobin
b58tobin_112g = refl

-- One byte has no room for the zeros.
b58tobin_no_room : b58tobin 1 long_text ≡ none
unfolding b58tobin
b58tobin_no_room = refl

b58tobin_2g : b58tobin 1 text ≡ some (97 ∷ [], 1)
unfolding b58tobin
b58tobin_2g = refl
