-- ===== src/Bech32/Decoding.antt =====
-- bech32_decode_checksum on the strings of bech32_encode_with_checksum.
use tronlink_i_os_core.Base.{
  take-append, ℕ, ◌+◌, ◌-◌, ◌^◌, ◌≤◌, ◌<◌, ◌≡◌, ◌≢◌, inl, inr, refl, ◌∙◌, List, [], ◌∷◌, ◌++◌, map,
  arith, length, All, All-append, length-append, length-map, take, take-append, Option, some, none,
  Bool, true, false, ◌||◌, ◌&&◌, ltb, ◌==◌, Bool-cases, bit_xor, ◌>>>◌, Option-cases,
}
use tronlink_i_os_core.Bech32.{
  bech32_polymod_step, feed, feed_data, six_steps, checksum_groups, char_of, hrp_high, hrp_low,
  bech32_encode_with_checksum, is_lower, is_upper, split_last, Scan, prepend, scan_hrp, scan_data,
  decode_parts, bech32_decode_checksum,
}
use tronlink_i_os_core.Bech32.Checksum.{
  feed_all, feed_all-append, checksum_groups-constant, checksum_groups-lt,
}
use tronlink_i_os_core.Bech32.Alphabet.{group_of-char_of, char_of-plain}

-- The flag have_lower after a list of characters.
unfoldable pub lowers : Bool → List ℕ → Bool
lowers l [] = l
lowers l (ch ∷ cs) = lowers (l || is_lower ch) cs

abbrev pub scanned : ℕ → List ℕ → Bool → Option Scan
scanned chk out l = some (record { chk = chk; out = out; have_lower = l; have_upper = false })

-- The human-readable part that the encoder accepts has no capital and reads back as it is.
hrp_high-scan_hrp :
    (chk : ℕ) (l : Bool) (hrp : List ℕ) {c : ℕ}
    → hrp_high chk hrp ≡ some c
    → scan_hrp chk l false hrp ≡ scanned c hrp (lowers l hrp)
unfolding hrp_high scan_hrp prepend lowers
hrp_high-scan_hrp chk l [] h = ground arith
hrp_high-scan_hrp chk l (ch ∷ hrp) {c} h = elim (Bool-cases (ltb ch 33 || ltb 126 ch)) [
  | inl outside ↦ cc (rw outside at h)
  | inr inside ↦ elim (Bool-cases (is_upper ch)) [
    | inl capital ↦ cc (rw (inside, capital) at h)
    | inr plain ↦
        let ih =
          hrp_high-scan_hrp (feed chk (ch >>> 5)) (l || is_lower ch) hrp
            (rw (inside, plain) at h) in
        rw (inside, plain, ih) refl
  ]
]

feed_data-feed_all :
    (chk : ℕ) (ds : List ℕ) {c : ℕ}
    → feed_data chk ds ≡ some c
    → All (λ d. d < 2 ^ 5) ds × (c ≡ feed_all chk ds)
unfolding feed_data feed_all
feed_data-feed_all chk [] h = (tt, ground arith)
feed_data-feed_all chk (d ∷ ds) h = elim (Bool-cases (d >>> 5 == 0)) [
  | inl fits ↦
      let (small, eq) = feed_data-feed_all (feed chk d) ds (rw fits at h) in
      ((ground arith, small), eq)
  | inr large ↦ cc (rw large at h)
]

scan_data-char_of :
    (chk : ℕ) (l : Bool) (vs : List ℕ)
    → All (λ d. d < 2 ^ 5) vs
    → scan_data chk l false (map char_of vs)
      ≡ scanned (feed_all chk vs) vs (lowers l (map char_of vs))
unfolding scan_data prepend lowers feed_all
scan_data-char_of chk l [] h = refl
scan_data-char_of chk l (v ∷ vs) h =
    let (_, plain) = char_of-plain v h.0 in
    let ih = scan_data-char_of (feed chk v) (l || is_lower (char_of v)) vs h.1 in
    rw (scan_data, group_of-char_of v h.0, plain, ih) refl

split_last-none : (vs : List ℕ) → All (λ d. d < 2 ^ 5) vs → split_last b'1' (map char_of vs) ≡ none
unfolding split_last
split_last-none [] h = refl
split_last-none (v ∷ vs) h = rw (split_last-none vs h.1, (char_of-plain v h.0).0) refl

-- A separator with none behind it splits the string.
pub split_last-separator :
    (separator : ℕ) (hrp tail : List ℕ)
    → split_last separator tail ≡ none
    → split_last separator (hrp ++ (separator ∷ tail)) ≡ some (hrp, tail)
unfolding split_last
split_last-separator separator [] tail h =
    let same : (separator == separator) ≡ true = ground arith in rw (split_last, h, same) refl
split_last-separator separator (c ∷ hrp) tail h =
    rw (split_last, split_last-separator separator hrp tail h) refl

pub length_pos : (xs : List ℕ) → xs ≢ [] → 1 ≤ length xs
length_pos [] h = absurd (h refl)
length_pos (x ∷ xs) h = omega arith

pub and_false : (b : Bool) → (b && false) ≡ false
and_false true = refl
and_false false = refl

decode_parts-char_of :
    (hrp groups six : List ℕ) {c : ℕ}
    → hrp ≢ []
    → hrp_high 1 hrp ≡ some c
    → All (λ d. d < 2 ^ 5) (groups ++ six)
    → length six ≡ 6
    → decode_parts hrp (map char_of (groups ++ six))
      ≡ some (record {
        checksum = feed_all (hrp_low (bech32_polymod_step c) hrp) (groups ++ six);
        hrp = hrp;
        groups = groups;
      })
unfolding decode_parts
decode_parts-char_of hrp groups six {c} nonempty h small len =
    let vs : List ℕ = groups ++ six in
    let size : length (map char_of vs) ≡ length groups + 6 =
      omega (arith, length-map vs char_of, length-append groups six) in
    let some_hrp = length_pos hrp nonempty in
    let fits : (ltb (length hrp) 1 || ltb (length (map char_of vs)) 6) ≡ false = ground arith in
    let chk : ℕ = hrp_low (bech32_polymod_step c) hrp in
    let own : take (length (map char_of vs) - 6) vs ≡ groups =
      take-append groups six (length (map char_of vs) - 6) (omega arith) in
    rw
      (
        fits,
        hrp_high-scan_hrp 1 false hrp h,
        scan_data-char_of chk (lowers false hrp) vs small,
        and_false (lowers (lowers false hrp) (map char_of vs)),
        own,
      )
      refl

-- What the encoder's success says of its parts.
record Accepted (hrp groups : List ℕ) (constant : ℕ) (s : List ℕ) : Type 0 where
  chk : ℕ
  high : hrp_high 1 hrp ≡ some chk
  short : length hrp + 7 + length groups ≤ 90
  small : All (λ d. d < 2 ^ 5) groups
  written :
      s
      ≡ hrp
        ++ (b'1'
            ∷ map char_of (
                groups
                ++ checksum_groups (
                    bit_xor
                      (six_steps (feed_all (hrp_low (bech32_polymod_step chk) hrp) groups))
                      constant)))

encode-Accepted :
    (hrp groups : List ℕ) (constant : ℕ) (s : List ℕ)
    → bech32_encode_with_checksum hrp groups constant ≡ some s
    → Accepted hrp groups constant s
unfolding bech32_encode_with_checksum
encode-Accepted hrp groups constant s h = elim (Option-cases (hrp_high 1 hrp)) [
  | inl refused ↦ cc (rw refused at h)
  | inr (c, high) ↦ elim (Bool-cases (ltb 90 (length hrp + 7 + length groups))) [
    | inl long ↦ cc (rw (high, long) at h)
    | inr fits ↦ elim (Option-cases (feed_data (hrp_low (bech32_polymod_step c) hrp) groups)) [
      | inl wide ↦ cc (rw (high, fits, wide) at h)
      | inr (c', fed) ↦
          let (small, eq) = feed_data-feed_all (hrp_low (bech32_polymod_step c) hrp) groups fed in
          let result = rw (high, fits, fed) at h in
          record {
            chk = c;
            high = high;
            short = ground arith;
            small = small;
            written = rw (← eq) (cc result);
          }
    ]
  ]
]

-- bech32_decode_checksum reads back the human-readable part and the groups of whatever
-- bech32_encode_with_checksum wrote for a part with a character at least, and the checksum that
-- it returns is the constant, for a constant below 2 ^ 30.
pub decode-encode_with_checksum :
    (hrp groups : List ℕ) (constant : ℕ) (s : List ℕ)
    → hrp ≢ []
    → constant < 2 ^ 30
    → bech32_encode_with_checksum hrp groups constant ≡ some s
    → bech32_decode_checksum s ≡ some (record { checksum = constant; hrp = hrp; groups = groups })
unfolding bech32_decode_checksum
decode-encode_with_checksum hrp groups constant s nonempty hc h =
    let e = encode-Accepted hrp groups constant s h in
    let chk' : ℕ = feed_all (hrp_low (bech32_polymod_step e.chk) hrp) groups in
    let six : List ℕ = checksum_groups (bit_xor (six_steps chk') constant) in
    let vs : List ℕ = groups ++ six in
    let tail : List ℕ = map char_of vs in
    let all = All-append (λ d. d < 2 ^ 5) groups six e.small (checksum_groups-lt _) in
    let count : length six ≡ 6 = unfold checksum_groups in refl in
    let some_hrp = length_pos hrp nonempty in
    let size : length (hrp ++ (b'1' ∷ tail)) ≡ length hrp + 7 + length groups =
      omega
        (arith, length-append hrp (b'1' ∷ tail), length-map vs char_of, length-append groups six) in
    let short = e.short in
    let fits : (ltb (length (hrp ++ (b'1' ∷ tail))) 8 || ltb 90 (length (hrp ++ (b'1' ∷ tail))))
        ≡ false =
      rw size (ground arith) in
    let parts = decode_parts-char_of hrp groups six nonempty e.high all count in
    let checked : feed_all (hrp_low (bech32_polymod_step e.chk) hrp) vs ≡ constant =
      feed_all-append (hrp_low (bech32_polymod_step e.chk) hrp) groups six
      ∙ checksum_groups-constant chk' constant hc in
    rw
      (e.written, fits, split_last-separator b'1' hrp tail (split_last-none vs all), parts, checked)
      refl
