-- ===== src/Cash/Decoding.antt =====
-- cash_decode on the strings of cash_encode.
use tronlink_i_os_core.Base.{
  take-append, ℕ, ◌+◌, ◌-◌, ◌^◌, ◌≤◌, ◌<◌, ◌≡◌, ◌≢◌, inl, inr, refl, ◌∙◌, List, [], ◌∷◌, ◌++◌, map,
  arith, length, All, All-append, length-append, length-map, take, some, none, Bool, true, false,
  not, ◌||◌, ltb, ◌==◌, Bool-cases, bit_xor, bit_and, ◌>>>◌, Option-cases, holds_in, holds_in_lem,
}
use tronlink_i_os_core.Bech32.{char_of, is_lower, is_upper, split_last, prepend}
use tronlink_i_os_core.Bech32.Alphabet.{group_of-char_of, char_of-plain}
use tronlink_i_os_core.Bech32.Decoding.{
  lowers, scanned, split_last-separator, length_pos, and_false,
}
use tronlink_i_os_core.Cash.{
  cashaddr_polymod_step, cash_feed, cash_hrp, cash_data, eight_steps, cash_groups, cash_encode,
  cash_scan_hrp, cash_scan_data, cash_decode_parts, cash_decode,
}
use tronlink_i_os_core.Cash.Checksum.{
  cash_feed_all, cash_feed_all-append, cash_groups-one, cash_groups-lt,
}

-- No capital letter: the encoder lets one through, and the decoder makes it small.
abbrev pub HasNoCapital : List ℕ → Type 0
HasNoCapital = All (λ c. is_upper c ≡ false)

cash_hrp-cash_scan_hrp :
    (chk : ℕ) (l : Bool) (hrp : List ℕ) {c : ℕ}
    → HasNoCapital hrp
    → cash_hrp chk hrp ≡ some c
    → cash_scan_hrp chk l false hrp ≡ scanned c hrp (lowers l hrp)
unfolding cash_hrp cash_scan_hrp prepend lowers
cash_hrp-cash_scan_hrp chk l [] small h = ground arith
cash_hrp-cash_scan_hrp chk l (ch ∷ hrp) small h = elim (Bool-cases (ltb ch 33 || ltb 126 ch)) [
  | inl outside ↦ cc (rw outside at h)
  | inr inside ↦
      let ih =
        cash_hrp-cash_scan_hrp (cash_feed chk (bit_and ch 0x1f)) (l || is_lower ch) hrp small.1
          (rw inside at h) in
      rw (inside, small.0, ih) refl
]

cash_data-cash_feed_all :
    (chk : ℕ) (ds : List ℕ) {c : ℕ}
    → cash_data chk ds ≡ some c
    → All (λ d. d < 2 ^ 5) ds × (c ≡ cash_feed_all chk ds)
unfolding cash_data cash_feed_all
cash_data-cash_feed_all chk [] h = (tt, ground arith)
cash_data-cash_feed_all chk (d ∷ ds) h = elim (Bool-cases (d >>> 5 == 0)) [
  | inl fits ↦
      let (small, eq) = cash_data-cash_feed_all (cash_feed chk d) ds (rw fits at h) in
      ((ground arith, small), eq)
  | inr large ↦ cc (rw large at h)
]

cash_scan_data-char_of :
    (chk : ℕ) (l : Bool) (vs : List ℕ)
    → All (λ d. d < 2 ^ 5) vs
    → cash_scan_data chk l false (map char_of vs)
      ≡ scanned (cash_feed_all chk vs) vs (lowers l (map char_of vs))
unfolding cash_scan_data prepend lowers cash_feed_all
cash_scan_data-char_of chk l [] h = refl
cash_scan_data-char_of chk l (v ∷ vs) h =
    let (_, plain) = char_of-plain v h.0 in
    let ih = cash_scan_data-char_of (cash_feed chk v) (l || is_lower (char_of v)) vs h.1 in
    rw (cash_scan_data, group_of-char_of v h.0, plain, ih) refl

colon_table : holds_in (λ v. not (char_of v == b':')) 0 32 ≡ true
unfolding holds_in char_of
colon_table = refl

split_last-no_colon :
    (vs : List ℕ) → All (λ d. d < 2 ^ 5) vs → split_last b':' (map char_of vs) ≡ none
unfolding split_last
split_last-no_colon [] h = refl
split_last-no_colon (v ∷ vs) h =
    let differs : not (char_of v == b':') ≡ true =
      holds_in_lem (λ w. not (char_of w == b':')) 0 32 colon_table (omega arith) (omega arith) in
    let no_colon : (char_of v == b':') ≡ false = ground arith in
    rw (split_last, split_last-no_colon vs h.1, no_colon) refl

cash_decode_parts-char_of :
    (hrp groups eight : List ℕ) {c : ℕ}
    → hrp ≢ []
    → HasNoCapital hrp
    → length hrp ≤ 20
    → length groups ≤ 104
    → cash_hrp 1 hrp ≡ some c
    → All (λ d. d < 2 ^ 5) (groups ++ eight)
    → length eight ≡ 8
    → cash_feed_all (cashaddr_polymod_step c) (groups ++ eight) ≡ 1
    → cash_decode_parts hrp (map char_of (groups ++ eight)) ≡ some (hrp, groups)
unfolding cash_decode_parts
cash_decode_parts-char_of hrp groups eight {c} nonempty plain short few h small len checked =
    let vs : List ℕ = groups ++ eight in
    let size : length (map char_of vs) ≡ length groups + 8 =
      omega (arith, length-map vs char_of, length-append groups eight) in
    let some_hrp = length_pos hrp nonempty in
    let fits : ((ltb (length hrp) 1 || ltb 20 (length hrp))
          || (ltb (length (map char_of vs)) 8 || ltb (8 + 104) (length (map char_of vs))))
        ≡ false =
      ground arith in
    let own : take (length (map char_of vs) - 8) vs ≡ groups =
      take-append groups eight (length (map char_of vs) - 8) (omega arith) in
    rw
      (
        fits,
        cash_hrp-cash_scan_hrp 1 false hrp plain h,
        cash_scan_data-char_of (cashaddr_polymod_step c) (lowers false hrp) vs small,
        and_false (lowers (lowers false hrp) (map char_of vs)),
        checked,
        own,
      )
      refl

-- What the encoder's success says of its parts.
record CashAccepted (hrp groups s : List ℕ) : Type 0 where
  chk : ℕ
  high : cash_hrp 1 hrp ≡ some chk
  short : length hrp + 1 + length groups + 8 ≤ 129
  small : All (λ d. d < 2 ^ 5) groups
  written :
      s
      ≡ hrp
        ++ (b':'
            ∷ map char_of (
                groups
                ++ cash_groups
                    (bit_xor (eight_steps (cash_feed_all (cashaddr_polymod_step chk) groups)) 1)))

cash_encode-CashAccepted :
    (hrp groups s : List ℕ) → cash_encode hrp groups ≡ some s → CashAccepted hrp groups s
unfolding cash_encode
cash_encode-CashAccepted hrp groups s h = elim (Option-cases (cash_hrp 1 hrp)) [
  | inl refused ↦ cc (rw refused at h)
  | inr (c, high) ↦ elim (Bool-cases (ltb 129 (length hrp + 1 + length groups + 8))) [
    | inl long ↦ cc (rw (high, long) at h)
    | inr fits ↦ elim (Option-cases (cash_data (cashaddr_polymod_step c) groups)) [
      | inl wide ↦ cc (rw (high, fits, wide) at h)
      | inr (c', fed) ↦
          let (small, eq) = cash_data-cash_feed_all (cashaddr_polymod_step c) groups fed in
          let result = rw (high, fits, fed) at h in
          record {
            chk = c;
            high = high;
            short = ground arith;
            small = small;
            written = rw (← eq) (cc result);
          }
    ]
  ]
]

-- cash_decode reads back whatever cash_encode wrote for a human-readable part of 1 to 20
-- characters without a capital letter and at most 104 groups.
pub cash_decode-cash_encode :
    (hrp groups s : List ℕ)
    → hrp ≢ []
    → HasNoCapital hrp
    → length hrp ≤ 20
    → length groups ≤ 104
    → cash_encode hrp groups ≡ some s
    → cash_decode s ≡ some (hrp, groups)
unfolding cash_decode
cash_decode-cash_encode hrp groups s nonempty plain short few h =
    let e = cash_encode-CashAccepted hrp groups s h in
    let start : ℕ = cashaddr_polymod_step e.chk in
    let chk' : ℕ = cash_feed_all start groups in
    let eight : List ℕ = cash_groups (bit_xor (eight_steps chk') 1) in
    let vs : List ℕ = groups ++ eight in
    let tail : List ℕ = map char_of vs in
    let all = All-append (λ d. d < 2 ^ 5) groups eight e.small (cash_groups-lt _) in
    let count : length eight ≡ 8 = unfold cash_groups in refl in
    let size : length (hrp ++ (b':' ∷ tail)) ≡ length hrp + 1 + length groups + 8 =
      omega (
        arith,
        length-append hrp (b':' ∷ tail),
        length-map vs char_of,
        length-append groups eight,
      ) in
    let room = e.short in
    let fits : (ltb (length (hrp ++ (b':' ∷ tail))) 8 || ltb 129 (length (hrp ++ (b':' ∷ tail))))
        ≡ false =
      rw size (ground arith) in
    let checked : cash_feed_all start vs ≡ 1 =
      cash_feed_all-append start groups eight ∙ cash_groups-one chk' in
    let parts =
      cash_decode_parts-char_of hrp groups eight nonempty plain short few e.high all count
        checked in
    rw (e.written, fits, split_last-separator b':' hrp tail (split_last-no_colon vs all), parts)
      refl
