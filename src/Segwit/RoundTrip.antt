-- ===== src/Segwit/RoundTrip.antt =====
-- segwit_addr_encode and segwit_addr_decode.
use tronlink_i_os_core.Base.{
  ℕ, ◌^◌, ◌≤◌, ◌<◌, ◌≡◌, ◌≢◌, ◌⊎◌, inl, inr, refl, List, [], ◌∷◌, arith, length, All, some, true,
  false, not, ◌||◌, ◌&&◌, ltb, ◌==◌, Bool-cases, IsByte,
}
use tronlink_i_os_core.ConvertBits.{convert_bits}
use tronlink_i_os_core.ConvertBits.RoundTrip.{convert_bits-convert_bits}
use tronlink_i_os_core.Bech32.{bech32_constant, bech32m_constant, bech32_encode_with_checksum}
use tronlink_i_os_core.Bech32.Decoding.{decode-encode_with_checksum}
use tronlink_i_os_core.Segwit.{
  constant_of, refused, segwit_addr_encode, same_string, read_program, segwit_addr_decode,
}

pub same_string_self : (cs : List ℕ) → same_string cs cs ≡ true
unfolding same_string
same_string_self [] = refl
same_string_self (c ∷ cs) =
    let same : (c == c) ≡ true = ground arith in rw (same, same_string_self cs) refl

constant_of-cases : (v : ℕ) → (constant_of v ≡ bech32_constant) ⊎ (constant_of v ≡ bech32m_constant)
unfolding constant_of
constant_of-cases v = elim (Bool-cases (v == 0)) [
  | inl none_of_it ↦ inl (rw none_of_it refl)
  | inr later ↦ inr (rw later refl)
]

constant_of-lt : (v : ℕ) → constant_of v < 2 ^ 30
constant_of-lt v = elim (constant_of-cases v) [
  | inl e ↦ omega (arith, e)
  | inr e ↦ omega (arith, e)
]

constant_of-known :
    (v : ℕ)
    → (not (constant_of v == bech32_constant) && not (constant_of v == bech32m_constant)) ≡ false
constant_of-known v = elim (constant_of-cases v) [ inl e ↦ rw e refl | inr e ↦ rw e refl ]

program_length : (v len : ℕ) → refused v len ≡ false → (2 ≤ len) × (len ≤ 40)
unfolding refused
program_length v len h = ground arith

read_program-accepts :
    (v : ℕ) (prog groups : List ℕ)
    → ltb 16 v ≡ false
    → refused v (length prog) ≡ false
    → convert_bits 8 groups 5 false ≡ some prog
    → read_program (constant_of v) (v ∷ groups) ≡ some (v, prog)
unfolding read_program
read_program-accepts v prog groups known fits back =
    let same : (constant_of v == constant_of v) ≡ true = ground arith in
    rw (known, same, back, fits) refl

-- Whatever segwit_addr_encode writes for a human-readable part with a character at least, a
-- version and a program of bytes, segwit_addr_decode reads back as that version and that program.
pub segwit_addr_decode-segwit_addr_encode :
    (hrp : List ℕ) (witver : ℕ) (witprog addr : List ℕ)
    → hrp ≢ []
    → All IsByte witprog
    → segwit_addr_encode hrp witver witprog ≡ some addr
    → segwit_addr_decode hrp addr ≡ some (witver, witprog)
unfolding segwit_addr_encode segwit_addr_decode
segwit_addr_decode-segwit_addr_encode hrp v prog addr nonempty bytes h =
    elim (Bool-cases (ltb 16 v || refused v (length prog))) [
      | inl bad ↦ cc (rw bad at h)
      | inr good ↦
          let known : ltb 16 v ≡ false = ground arith in
          let fits : refused v (length prog) ≡ false = ground arith in
          let (two, forty) = program_length v (length prog) fits in
          let (groups, there, small, count, back) = convert_bits-convert_bits prog bytes in
          let encoded : bech32_encode_with_checksum hrp (v ∷ groups) (constant_of v) ≡ some addr =
            rw (good, there) at h in
          let decoded =
            decode-encode_with_checksum hrp (v ∷ groups) (constant_of v) addr nonempty
              (constant_of-lt v) encoded in
          let short : (length (v ∷ groups) == 0 || ltb 65 (length (v ∷ groups))) ≡ false =
            ground arith in
          rw (decoded, constant_of-known v, short, same_string_self hrp)
            (read_program-accepts v prog groups known fits back)
    ]
