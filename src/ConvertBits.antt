-- ===== src/ConvertBits.antt =====
-- The static function convert_bits, which segwit_addr.c and cash_addr.c declare alike: groups of
-- `inbits` bits become groups of `outbits` bits.
mod Tests
pub mod Regroup
pub mod RoundTrip
use tronlink_i_os_core.Base.{
  ℕ, zero, suc, ◌+◌, ◌-◌, ◌*◌, ◌^◌, List, [], ◌∷◌, ◌++◌, Option, none, some, Bool, not, ◌||◌, u32,
  ◌<<<◌, ◌>>>◌, bit_and, bit_or, leb, ◌==◌, if◌then◌else◌,
}

-- `while (bits >= outbits)`, on fuel: the groups that it writes and the `bits` that stay.
pub emit : ℕ → ℕ → ℕ → ℕ → List ℕ × ℕ
emit outbits val zero bits = ([], bits)
emit outbits val (suc fuel) bits =
    let (groups, left) = emit outbits val fuel (bits - outbits) in
    if leb outbits bits
    then (bit_and (val >>> (bits - outbits)) (2 ^ outbits - 1) ∷ groups, left)
    else ([], bits)

-- What the loops leave: the groups written, `val` and `bits`.
pub record Progress : Type 0 where
  pub out : List ℕ
  pub val : ℕ
  pub bits : ℕ

-- `while (inlen--)`. Each round of the inner loop takes a bit at least: `bits` rounds are enough.
pub convert_loop : ℕ → ℕ → ℕ → ℕ → List ℕ → Progress
convert_loop outbits inbits val bits [] = record { out = []; val = val; bits = bits }
convert_loop outbits inbits val bits (x ∷ xs) =
    let val' = bit_or (u32 (val <<< inbits)) x in
    let (groups, left) = emit outbits val' (bits + inbits) (bits + inbits) in
    let rest = convert_loop outbits inbits val' left xs in record rest { out = groups ++ rest.out }

-- The bits that are left over, at the top of a group.
abbrev pub last_group : ℕ → Progress → ℕ
last_group outbits p = bit_and (u32 (p.val <<< (outbits - p.bits))) (2 ^ outbits - 1)

unfoldable pub finish : ℕ → ℕ → Bool → Progress → Option (List ℕ)
finish outbits inbits pad p =
    if pad
    then some (if p.bits == 0 then p.out else p.out ++ (last_group outbits p ∷ []))
    else if not (last_group outbits p == 0) || leb inbits p.bits
    then none
    else some p.out

unfoldable pub convert_bits : ℕ → List ℕ → ℕ → Bool → Option (List ℕ)
unfolding convert_loop emit finish
convert_bits outbits xs inbits pad = finish outbits inbits pad (convert_loop outbits inbits 0 0 xs)
