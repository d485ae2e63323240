-- ===== src/AddressPrefix/Prefix.antt =====
-- address_check_prefix against address_write_prefix_bytes, in address.c.
use tronlink_i_os_core.Base.{
  ℕ, ◌+◌, ◌*◌, ◌/◌, ◌%◌, ◌^◌, ◌≤◌, ◌<◌, ◌≡◌, ◌↔◌, ◌⊎◌, inl, inr, refl, ap, ◌∙◌, sym, List, [], ◌∷◌,
  arith, length, take, IsByte, IsU32, true, false, u8, u32, ◌<<<◌, ◌>>>◌, bit_and, bit_or,
  bit_and-mask, bit_or-low, leb, ltb, ◌==◌, ==_iff,
}
use tronlink_i_os_core.Bignum.Bytes.Word.{join_bytes}
use tronlink_i_os_core.AddressPrefix.{
  address_prefix_bytes_len, address_write_prefix_bytes, address_check_prefix,
}

mask255 : (x : ℕ) → bit_and x 0xff ≡ x % 256
mask255 x = bit_and-mask 8 x

two_bytes : (a b : ℕ) → IsByte a → IsByte b → bit_or (u32 (a <<< 8)) b ≡ a * 256 + b
two_bytes a b ha hb =
    let first : u32 (a <<< 8) ≡ a * 2 ^ 8 = omega arith in
    rw (first, bit_or-low 8 (a * 2 ^ 8) b (omega arith) (omega arith)) refl

three_bytes :
    (a b c : ℕ)
    → IsByte a
    → IsByte b
    → IsByte c
    → bit_or (bit_or (u32 (a <<< 16)) (u32 (b <<< 8))) c ≡ a * 65536 + b * 256 + c
three_bytes a b c ha hb hc =
    let first : u32 (a <<< 16) ≡ a * 2 ^ 16 = omega arith in
    let second : u32 (b <<< 8) ≡ b * 2 ^ 8 = omega arith in
    rw
      (
        first,
        second,
        bit_or-low 16 (a * 2 ^ 16) (b * 2 ^ 8) (omega arith) (omega arith),
        bit_or-low 8 (a * 2 ^ 16 + b * 2 ^ 8) c (omega arith) (omega arith),
      )
      refl

write_one : (t : ℕ) → t < 2 ^ 8 → address_write_prefix_bytes t ≡ t ∷ []
unfolding address_write_prefix_bytes
write_one t h =
    let no3 : ltb 0xffffff t ≡ false = ground arith in
    let no2 : ltb 0xffff t ≡ false = ground arith in
    let no1 : ltb 0xff t ≡ false = ground arith in
    rw (no3, no2, no1) (ap (λ (x : ℕ). x ∷ []) (mask255 t ∙ omega arith))

write_two : (t : ℕ) → 2 ^ 8 ≤ t → t < 2 ^ 16 → address_write_prefix_bytes t ≡ t / 256 ∷ t % 256 ∷ []
unfolding address_write_prefix_bytes
write_two t lo h =
    let no3 : ltb 0xffffff t ≡ false = ground arith in
    let no2 : ltb 0xffff t ≡ false = ground arith in
    let yes1 : ltb 0xff t ≡ true = ground arith in
    let b1 : bit_and (t >>> 8) 0xff ≡ t / 256 = mask255 (t / 2 ^ 8) ∙ omega arith in
    rw (no3, no2, yes1, b1, mask255 t) refl

write_three :
    (t : ℕ)
    → 2 ^ 16 ≤ t
    → t < 2 ^ 24
    → address_write_prefix_bytes t ≡ t / 65536 ∷ t / 256 % 256 ∷ t % 256 ∷ []
unfolding address_write_prefix_bytes
write_three t lo h =
    let no3 : ltb 0xffffff t ≡ false = ground arith in
    let yes2 : ltb 0xffff t ≡ true = ground arith in
    let yes1 : ltb 0xff t ≡ true = ground arith in
    let b2 : bit_and (t >>> 16) 0xff ≡ t / 65536 = mask255 (t / 2 ^ 16) ∙ omega arith in
    rw (no3, yes2, yes1, b2, mask255 (t >>> 8), mask255 t) refl

write_four :
    (t : ℕ)
    → 2 ^ 24 ≤ t
    → IsU32 t
    → address_write_prefix_bytes t ≡ t / 16777216 ∷ t / 65536 % 256 ∷ t / 256 % 256 ∷ t % 256 ∷ []
unfolding address_write_prefix_bytes
write_four t lo h =
    let yes3 : ltb 0xffffff t ≡ true = ground arith in
    let yes2 : ltb 0xffff t ≡ true = ground arith in
    let yes1 : ltb 0xff t ≡ true = ground arith in
    let b3 : u8 (t >>> 24) ≡ t / 16777216 = omega arith in
    rw (yes3, yes2, yes1, b3, mask255 (t >>> 16), mask255 (t >>> 8), mask255 t) refl

-- What the functions are for one version and one address.
abbrev Matches : ℕ → List ℕ → Type 0
Matches t addr =
    (length (address_write_prefix_bytes t) ≡ address_prefix_bytes_len t)
    × ((address_check_prefix addr t ≡ true)
        ↔ (take (address_prefix_bytes_len t) addr ≡ address_write_prefix_bytes t))

-- A test of a number against the bytes that spell it.
check_of_iff :
    {t n : ℕ} {xs ys : List ℕ}
    → (t ≡ n → xs ≡ ys)
    → (xs ≡ ys → t ≡ n)
    → ((t == n) ≡ true) ↔ (xs ≡ ys)
check_of_iff {t} {n} f g = (λ e. f ((==_iff t n).0 e), λ e. (==_iff t n).1 (g e))

module _ (t a b c d : ℕ) (rest : List ℕ) (ha : IsByte a) (hb : IsByte b) (hc : IsByte c)
    (hd : IsByte d) where
  Matches-one : t < 2 ^ 8 → Matches t (a ∷ b ∷ c ∷ d ∷ rest)
  unfolding address_prefix_bytes_len address_check_prefix
  Matches-one h =
      let fits : leb t 0xff ≡ true = ground arith in
      rw (write_one t h, fits)
        (refl, check_of_iff (λ e. ap (λ (x : ℕ). x ∷ []) (sym e)) (λ e. cc e))

  Matches-two : 2 ^ 8 ≤ t → t < 2 ^ 16 → Matches t (a ∷ b ∷ c ∷ d ∷ rest)
  unfolding address_prefix_bytes_len address_check_prefix
  Matches-two lo h =
      let no1 : leb t 0xff ≡ false = ground arith in
      let fits : leb t 0xffff ≡ true = ground arith in
      rw (write_two t lo h, no1, fits, two_bytes a b ha hb) (refl, check_of_iff there back)
    where
      there : t ≡ a * 256 + b → (a ∷ b ∷ []) ≡ (t / 256 ∷ t % 256 ∷ [])
      there e =
          let ea : a ≡ t / 256 = omega arith in let eb : b ≡ t % 256 = omega arith in cc (ea, eb)

      back : (a ∷ b ∷ []) ≡ (t / 256 ∷ t % 256 ∷ []) → t ≡ a * 256 + b
      back e = let ea : a ≡ t / 256 = cc e in let eb : b ≡ t % 256 = cc e in omega arith

  Matches-three : 2 ^ 16 ≤ t → t < 2 ^ 24 → Matches t (a ∷ b ∷ c ∷ d ∷ rest)
  unfolding address_prefix_bytes_len address_check_prefix
  Matches-three lo h =
      let no1 : leb t 0xff ≡ false = ground arith in
      let no2 : leb t 0xffff ≡ false = ground arith in
      let fits : leb t 0xffffff ≡ true = ground arith in
      rw (write_three t lo h, no1, no2, fits, three_bytes a b c ha hb hc)
        (refl, check_of_iff there back)
    where
      there :
          t ≡ a * 65536 + b * 256 + c
          → (a ∷ b ∷ c ∷ []) ≡ (t / 65536 ∷ t / 256 % 256 ∷ t % 256 ∷ [])
      there e =
          let ea : a ≡ t / 65536 = omega arith in
          let eb : b ≡ t / 256 % 256 = omega arith in
          let ec : c ≡ t % 256 = omega arith in cc (ea, eb, ec)

      back :
          (a ∷ b ∷ c ∷ []) ≡ (t / 65536 ∷ t / 256 % 256 ∷ t % 256 ∷ [])
          → t ≡ a * 65536 + b * 256 + c
      back e =
          let ea : a ≡ t / 65536 = cc e in
          let eb : b ≡ t / 256 % 256 = cc e in let ec : c ≡ t % 256 = cc e in omega arith

  Matches-four : 2 ^ 24 ≤ t → IsU32 t → Matches t (a ∷ b ∷ c ∷ d ∷ rest)
  unfolding address_prefix_bytes_len address_check_prefix
  Matches-four lo h =
      let no1 : leb t 0xff ≡ false = ground arith in
      let no2 : leb t 0xffff ≡ false = ground arith in
      let no3 : leb t 0xffffff ≡ false = ground arith in
      rw (write_four t lo h, no1, no2, no3, join_bytes a b c d ha hb hc hd)
        (refl, check_of_iff there back)
    where
      there :
          t ≡ a * 2 ^ 24 + b * 2 ^ 16 + c * 2 ^ 8 + d
          → (a ∷ b ∷ c ∷ d ∷ []) ≡ (t / 16777216 ∷ t / 65536 % 256 ∷ t / 256 % 256 ∷ t % 256 ∷ [])
      there e =
          let ea : a ≡ t / 16777216 = omega arith in
          let eb : b ≡ t / 65536 % 256 = omega arith in
          let ec : c ≡ t / 256 % 256 = omega arith in
          let ed : d ≡ t % 256 = omega arith in cc (ea, eb, ec, ed)

      back :
          (a ∷ b ∷ c ∷ d ∷ []) ≡ (t / 16777216 ∷ t / 65536 % 256 ∷ t / 256 % 256 ∷ t % 256 ∷ [])
          → t ≡ a * 2 ^ 24 + b * 2 ^ 16 + c * 2 ^ 8 + d
      back e =
          let ea : a ≡ t / 16777216 = cc e in
          let eb : b ≡ t / 65536 % 256 = cc e in
          let ec : c ≡ t / 256 % 256 = cc e in let ed : d ≡ t % 256 = cc e in omega arith

ranges :
    (t : ℕ)
    → (t < 2 ^ 8) ⊎ (2 ^ 8 ≤ t) × ((t < 2 ^ 16) ⊎ (2 ^ 16 ≤ t) × ((t < 2 ^ 24) ⊎ (2 ^ 24 ≤ t)))
ranges t = ground arith

-- For a 32-bit version and an address that starts with four bytes, address_check_prefix says
-- whether the address starts with the bytes that address_write_prefix_bytes writes for the
-- version, which are as many as address_prefix_bytes_len says.
pub address_check_prefix_lem :
    (t a b c d : ℕ) (rest : List ℕ)
    → IsByte a
    → IsByte b
    → IsByte c
    → IsByte d
    → IsU32 t
    → (length (address_write_prefix_bytes t) ≡ address_prefix_bytes_len t)
      × ((address_check_prefix (a ∷ b ∷ c ∷ d ∷ rest) t ≡ true) ↔ (
          take (address_prefix_bytes_len t) (a ∷ b ∷ c ∷ d ∷ rest) ≡ address_write_prefix_bytes t))
address_check_prefix_lem t a b c d rest ha hb hc hd h = elim (ranges t) [
  | inl one ↦ Matches-one t a b c d rest ha hb hc hd one
  | inr (more, inl two) ↦ Matches-two t a b c d rest ha hb hc hd more two
  | inr (_, inr (more, inl three)) ↦ Matches-three t a b c d rest ha hb hc hd more three
  | inr (_, inr (_, inr more)) ↦ Matches-four t a b c d rest ha hb hc hd more h
]
