-- ===== src/Base58/Binary.antt =====
-- b58tobin in base58.c against the number that its digits spell.
use native.Mathlib.Nat.{one-le-pow}
use tronlink_i_os_core.Base.{
  ℕ, suc, ◌+◌, ◌-◌, ◌*◌, ◌/◌, ◌%◌, ◌^◌, ◌<◌, ◌≤◌, ◌≡◌, refl, subst, ◌∙◌, List, arith, length,
  length-replicate, replicate, drop, none, some, ltb, ◌==◌, if◌then◌else◌, false, All, IsByte,
}
use tronlink_i_os_core.Base58.{b58tobin, count_leading, output_bytes}
use tronlink_i_os_core.Base58.Decode.{
  number58, AreDigits, Decodes, decode_loop-Decodes, value_zeros, zeros-IsWord,
}
use tronlink_i_os_core.Base58.Bytes.{value_bytes, output_bytes_lem, output_bytes-IsByte, room_bytes}

power_pos : (n : ℕ) → 0 < 256 ^ n
power_pos n = one-le-pow n 256 (omega arith)

module _ (binsz : ℕ) (pos : 0 < binsz) (b58 ds : List ℕ)
    (digits : AreDigits (drop (count_leading b'1' b58) b58) ds) where
  abbrev words_count : ℕ
  words_count = (binsz + 3) / 4

  decoded :
      Decodes
        (binsz % 4)
        (omega arith)
        (words_count - 1)
        (replicate words_count 0)
        (drop (count_leading b'1' b58) b58)
        (number58 0 ds)
  decoded =
      subst
        (λ (v : ℕ).
          Decodes (binsz % 4) (omega arith) (words_count - 1) (replicate words_count 0)
            (drop (count_leading b'1' b58) b58) (number58 v ds))
        (value_zeros words_count)
        (decode_loop-Decodes (binsz % 4) (omega arith) (words_count - 1)
          (drop (count_leading b'1' b58) b58) ds (replicate words_count 0) digits
          (zeros-IsWord words_count) (omega (arith, length-replicate {A = ℕ} words_count 0))
          (omega (arith, value_zeros words_count, room_bytes binsz pos, power_pos binsz)))

  size :
      (if binsz % 4 == 0 then 4 * suc (words_count - 1) else binsz % 4 + 4 * (words_count - 1))
      ≡ binsz
  size = ground arith

  -- For a size of one byte at least and a text whose characters after the leading ones are Base58
  -- digits, where the number that these digits spell is below 256 ^ size: b58tobin has written
  -- the number in size bytes, each below 256 and the most significant first; it refuses if the
  -- leading zeros among them are fewer than the text's leading ones, and else gives the size less
  -- the zeros and with the ones as the new one.
  pub b58tobin_lem :
      number58 0 ds < 256 ^ binsz
      → (bin : List ℕ) × (length bin ≡ binsz)
        × All IsByte bin
        × (value_bytes bin ≡ number58 0 ds)
        × (b58tobin binsz b58 ≡ (
            if ltb (count_leading 0 bin) (count_leading b'1' b58)
            then none
            else some (bin, binsz - count_leading 0 bin + count_leading b'1' b58)))
  unfolding b58tobin
  b58tobin_lem below =
      let nonzero : (binsz == 0) ≡ false = ground arith in
      let (outi, run, d) = decoded.0 (omega (arith, below, room_bytes binsz pos)) in
      let (bytes, len) =
        output_bytes_lem (binsz % 4) (words_count - 1) outi (omega arith) d.words d.count
          (omega (arith, d.exact, below, room_bytes binsz pos)) in
      (
        output_bytes (binsz % 4) outi,
        len ∙ size,
        output_bytes-IsByte (binsz % 4) outi,
        bytes ∙ d.exact,
        rw (nonzero, run) refl,
      )

  -- For a size of one byte at least and a text whose characters after the leading ones are Base58
  -- digits, b58tobin refuses where the number that these digits spell is 256 ^ size or above.
  pub b58tobin-none : 256 ^ binsz ≤ number58 0 ds → b58tobin binsz b58 ≡ none
  unfolding b58tobin
  b58tobin-none above =
      let nonzero : (binsz == 0) ≡ false = ground arith in
      rw (nonzero, decoded.1 (omega (arith, above, room_bytes binsz pos))) refl
