-- ===== src/Base58/Bytes.antt =====
-- The bytes that b58tobin in base58.c writes, against the number.
use mathlib.Core.Path.{ap₂}
use native.Mathlib.Nat.{pow-suc, mul-le-mul_right}
use tronlink_i_os_core.Base.{
  ℕ, zero, suc, ◌+◌, ◌-◌, ◌*◌, ◌/◌, ◌%◌, ◌^◌, ◌<◌, ◌≡◌, inl, inr, refl, ap, ◌∙◌, sym, List, [], ◌∷◌,
  ◌++◌, arith, length, length-append, All, All-append, IsByte, drop, get_or, ◌>>>◌, bit_and,
  bit_and-mask, bit_and-shifted, ◌==◌, if◌then◌else◌, ltb, Bool-cases, false,
}
use tronlink_i_os_core.Base58.{first_bytes, word_bytes, output_bytes}
use tronlink_i_os_core.Base58.Decode.{IsWord, value_words, head_bound}

-- The number that bytes spell, most significant first.
unfoldable pub value_bytes : List ℕ → ℕ
value_bytes [] = 0
value_bytes (b ∷ bs) = b * 256 ^ length bs + value_bytes bs

pub length-word_bytes : (ws : List ℕ) → length (word_bytes ws) ≡ 4 * length ws
unfolding word_bytes
length-word_bytes [] = refl
length-word_bytes (w ∷ ws) = omega (arith, length-word_bytes ws)

low-IsByte : (w : ℕ) → IsByte (bit_and w 0xff)
low-IsByte w = omega (arith, bit_and-mask 8 w)

word_bytes-IsByte : (ws : List ℕ) → All IsByte (word_bytes ws)
unfolding word_bytes
word_bytes-IsByte [] = tt
word_bytes-IsByte (w ∷ ws) = (
  low-IsByte (w >>> 24),
  (low-IsByte (w >>> 16), (low-IsByte (w >>> 8), (low-IsByte w, word_bytes-IsByte ws))),
)

second-IsByte : (w : ℕ) → IsByte (bit_and w 0xff00 >>> 8)
second-IsByte w = omega (arith, bit_and-shifted 8 w 0xff, bit_and-mask 8 (w / 2 ^ 8))

third-IsByte : (w : ℕ) → IsByte (bit_and w 0xff0000 >>> 16)
third-IsByte w = omega (arith, bit_and-shifted 16 w 0xff, bit_and-mask 8 (w / 2 ^ 16))

first_bytes-IsByte : (bytesleft w : ℕ) → All IsByte (first_bytes bytesleft w)
unfolding first_bytes
first_bytes-IsByte zero w = tt
first_bytes-IsByte (suc zero) w = (low-IsByte w, tt)
first_bytes-IsByte (suc (suc zero)) w = (second-IsByte w, (low-IsByte w, tt))
first_bytes-IsByte (suc (suc (suc n))) w = (third-IsByte w, (second-IsByte w, (low-IsByte w, tt)))

pub output_bytes-IsByte : (bytesleft : ℕ) (outi : List ℕ) → All IsByte (output_bytes bytesleft outi)
unfolding output_bytes
output_bytes-IsByte zero outi = word_bytes-IsByte outi
output_bytes-IsByte (suc b) outi =
    let nonzero : (suc b == 0) ≡ false = ground arith in
    let first : ℕ = get_or outi 0 0 in
    rw nonzero (
      All-append IsByte (first_bytes (suc b) first) (word_bytes (drop 1 outi))
        (first_bytes-IsByte (suc b) first) (word_bytes-IsByte (drop 1 outi)))

next_powers :
    (n : ℕ)
    → (256 ^ suc n ≡ 256 ^ n * 256)
      × (256 ^ suc (suc n) ≡ 256 ^ n * 256 ^ 2)
      × (256 ^ suc (suc (suc n)) ≡ 256 ^ n * 256 ^ 3)
      × (256 ^ suc (suc (suc (suc n))) ≡ 256 ^ n * 256 ^ 4)
next_powers n =
    let one = pow-suc 256 n in
    let two = pow-suc 256 (suc n) in
    let three = pow-suc 256 (suc (suc n)) in
    let four = pow-suc 256 (suc (suc (suc n))) in
    (
      one,
      omega (arith, one, two),
      omega (arith, one, two, three),
      omega (arith, one, two, three, four),
    )

word_power : (n : ℕ) → 256 ^ (4 * n) ≡ (2 ^ 32) ^ n
word_power zero = refl
word_power (suc n) =
    ap (λ (k : ℕ). 256 ^ k) {x = 4 * suc n} {y = suc (suc (suc (suc (4 * n))))} (omega arith)
    ∙ (next_powers (4 * n)).3
    ∙ ap (λ (k : ℕ). k * 256 ^ 4) (word_power n)
    ∙ sym (pow-suc (2 ^ 32) n)

four_bytes :
    (w p : ℕ) (q : ℕ)
    → IsWord w
    → bit_and (w >>> 24) 0xff * (p * 256 ^ 3)
        + (bit_and (w >>> 16) 0xff * (p * 256 ^ 2)
            + (bit_and (w >>> 8) 0xff * (p * 256) + (bit_and w 0xff * p + q)))
      ≡ w * p + q
four_bytes w p q h =
    let b3 = bit_and-mask 8 (w >>> 24) in
    let b2 = bit_and-mask 8 (w >>> 16) in
    let b1 = bit_and-mask 8 (w >>> 8) in
    let b0 = bit_and-mask 8 w in
    let whole : w
        ≡ bit_and (w >>> 24) 0xff * 256 ^ 3
          + bit_and (w >>> 16) 0xff * 256 ^ 2
          + bit_and (w >>> 8) 0xff * 256
          + bit_and w 0xff =
      omega (arith, b3, b2, b1, b0) in
    grind (arith, ap (λ (k : ℕ). k * p) whole)

pub value_bytes-word_bytes :
    (ws : List ℕ) → All IsWord ws → value_bytes (word_bytes ws) ≡ value_words ws
unfolding value_bytes word_bytes value_words
value_bytes-word_bytes [] h = refl
value_bytes-word_bytes (w ∷ ws) (hw, h) =
    let n = length (word_bytes ws) in
    let (one, two, three, four) = next_powers n in
    let p : 256 ^ n ≡ (2 ^ 32) ^ length ws =
      ap (λ (k : ℕ). 256 ^ k) (length-word_bytes ws) ∙ word_power (length ws) in
    ap
      (λ (k : ℕ).
        bit_and (w >>> 24) 0xff * k
        + (bit_and (w >>> 16) 0xff * 256 ^ suc (suc n)
            + (bit_and (w >>> 8) 0xff * 256 ^ suc n
                + (bit_and w 0xff * 256 ^ n + value_bytes (word_bytes ws)))))
      three
    ∙ ap₂
        (λ (k j : ℕ).
          bit_and (w >>> 24) 0xff * (256 ^ n * 256 ^ 3)
          + (bit_and (w >>> 16) 0xff * k
              + (bit_and (w >>> 8) 0xff * j
                  + (bit_and w 0xff * 256 ^ n + value_bytes (word_bytes ws)))))
        two one
    ∙ four_bytes w (256 ^ n) (value_bytes (word_bytes ws)) hw
    ∙ ap₂ (λ (k v : ℕ). w * k + v) p (value_bytes-word_bytes ws h)

pow_add : (m n : ℕ) → 256 ^ (m + n) ≡ 256 ^ m * 256 ^ n
pow_add zero n = ap (λ (k : ℕ). 256 ^ k) {x = 0 + n} {y = n} (omega arith) ∙ omega arith
pow_add (suc m) n =
    ap (λ (k : ℕ). 256 ^ k) {x = suc m + n} {y = suc (m + n)} (omega arith)
    ∙ pow-suc 256 (m + n)
    ∙ grind
        (arith, ap (λ (k : ℕ). k * 256) (pow_add m n), ap (λ (k : ℕ). k * 256 ^ n) (pow-suc 256 m))

value_bytes-append :
    (xs ys : List ℕ) → value_bytes (xs ++ ys) ≡ value_bytes xs * 256 ^ length ys + value_bytes ys
unfolding value_bytes
value_bytes-append [] ys = omega arith
value_bytes-append (x ∷ xs) ys =
    joined_power x (length xs) (length ys) (length (xs ++ ys)) (length-append xs ys)
      (value_bytes (xs ++ ys)) (value_bytes xs) (value_bytes ys) (value_bytes-append xs ys)
  where
    joined_power :
        (x m n l : ℕ)
        → l ≡ m + n
        → (v a b : ℕ) → v ≡ a * 256 ^ n + b
        → x * 256 ^ l + v ≡ (x * 256 ^ m + a) * 256 ^ n + b
    joined_power x m n l e v a b k =
        grind (arith, ap (λ (t : ℕ). x * t) (ap (λ (t : ℕ). 256 ^ t) e ∙ pow_add m n), k)

head_below : (w v p b : ℕ) → w * p + v < b * p → w < b
head_below w v p b lt = elim (Bool-cases (ltb w b)) [
  | inl less ↦ ground (arith, less)
  | inr more ↦
      absurd (ground (arith, mul-le-mul_right {m = b} {n = w} p (ground (arith, more)), lt))
]

first_bytes_lem :
    (bytesleft w : ℕ)
    → 0 < bytesleft
    → bytesleft < 4
    → w < head_bound bytesleft
    → (value_bytes (first_bytes bytesleft w) ≡ w) × (length (first_bytes bytesleft w) ≡ bytesleft)
unfolding value_bytes first_bytes head_bound
first_bytes_lem zero w pos small lt = absurd (omega arith)
first_bytes_lem (suc zero) w pos small lt = (omega (arith, bit_and-mask 8 w), refl)
first_bytes_lem (suc (suc zero)) w pos small lt =
    (omega (arith, bit_and-mask 8 w, bit_and-shifted 8 w 0xff, bit_and-mask 8 (w / 2 ^ 8)), refl)
first_bytes_lem (suc (suc (suc zero))) w pos small lt = (
  omega (
    arith,
    bit_and-mask 8 w,
    bit_and-shifted 8 w 0xff,
    bit_and-mask 8 (w / 2 ^ 8),
    bit_and-shifted 16 w 0xff,
    bit_and-mask 8 (w / 2 ^ 16),
  ),
  refl,
)
first_bytes_lem (suc (suc (suc (suc n)))) w pos small lt = absurd (omega arith)

-- The bytes of the words, of which the first has room for some only.
pub output_bytes_lem :
    (bytesleft n : ℕ) (outi : List ℕ)
    → bytesleft < 4
    → All IsWord outi
    → length outi ≡ suc n
    → value_words outi < head_bound bytesleft * (2 ^ 32) ^ n
    → (value_bytes (output_bytes bytesleft outi) ≡ value_words outi)
      × (length (output_bytes bytesleft outi)
          ≡ (if bytesleft == 0 then 4 * suc n else bytesleft + 4 * n))
unfolding output_bytes value_words
output_bytes_lem zero n outi small h e lt =
    (value_bytes-word_bytes outi h, length-word_bytes outi ∙ ap (λ (k : ℕ). 4 * k) e)
output_bytes_lem (suc b) n [] small h e lt = absurd (omega arith)
output_bytes_lem (suc b) n (w ∷ ws) small (hw, h) e lt =
    let rest : length ws ≡ n = omega (arith, e) in
    let below : w < head_bound (suc b) =
      head_below w (value_words ws) ((2 ^ 32) ^ n) (head_bound (suc b))
        (omega (arith, lt, ap (λ (k : ℕ). w * (2 ^ 32) ^ k) rest)) in
    let (first, count) = first_bytes_lem (suc b) w (omega arith) small below in
    let nonzero : (suc b == 0) ≡ false = ground arith in
    rw nonzero (
      value_bytes-append (first_bytes (suc b) w) (word_bytes ws)
          ∙ ap₂ (λ (x y : ℕ). x + y)
              (ap₂ (λ (x y : ℕ). x * y) first
                (ap (λ (k : ℕ). 256 ^ k) (length-word_bytes ws) ∙ word_power (length ws)))
              (value_bytes-word_bytes ws h),
      omega (
        arith,
        length-append (first_bytes (suc b) w) (word_bytes ws),
        count,
        length-word_bytes ws,
        e,
      ),
    )

room_of_parts :
    (m r n : ℕ)
    → r < 4
    → (r ≡ 0 → m ≡ suc n)
    → (0 < r → n ≡ m)
    → head_bound r * (2 ^ 32) ^ n ≡ 256 ^ (4 * m + r)
unfolding head_bound
room_of_parts m zero n lt whole part =
    omega (arith, pow-suc (2 ^ 32) n)
    ∙ sym (word_power (suc n))
    ∙ ap (λ (k : ℕ). 256 ^ k) {x = 4 * suc n} {y = 4 * m + 0} (omega (arith, whole refl))
room_of_parts m (suc r) n lt whole part =
    ap (λ (k : ℕ). head_bound (suc r) * (2 ^ 32) ^ k) (part (omega arith))
    ∙ ap (λ (k : ℕ). head_bound (suc r) * k) (sym (word_power m))
    ∙ bytes_left r lt
    ∙ sym (pow_add (4 * m) (suc r))
  where
    bytes_left :
        (r : ℕ) → suc r < 4 → head_bound (suc r) * 256 ^ (4 * m) ≡ 256 ^ (4 * m) * 256 ^ suc r
    bytes_left zero lt = omega arith
    bytes_left (suc zero) lt = omega arith
    bytes_left (suc (suc zero)) lt = omega arith
    bytes_left (suc (suc (suc r))) lt = absurd (omega arith)

-- The bound in bytes.
pub room_bytes :
    (binsz : ℕ)
    → 0 < binsz
    → head_bound (binsz % 4) * (2 ^ 32) ^ ((binsz + 3) / 4 - 1) ≡ 256 ^ binsz
room_bytes binsz pos =
    room_of_parts (binsz / 4) (binsz % 4) ((binsz + 3) / 4 - 1) (omega arith)
      (λ e. omega (arith, e)) (λ lt. omega (arith, lt))
    ∙ ap (λ (k : ℕ). 256 ^ k) {x = 4 * (binsz / 4) + binsz % 4} {y = binsz} (omega arith)
