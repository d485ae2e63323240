-- ===== src/Bignum/Bytes/BigEndian.antt =====
-- bn_read_be in bignum.c.
use tronlink_i_os_core.Base.{
  ℕ, zero, suc, ◌+◌, ◌-◌, ◌*◌, ◌^◌, ◌<◌, ◌≡◌, refl, ap, ◌∙◌, List, [], ◌∷◌, arith, length, All,
  IsByte, IsU32, drop, get_or,
}
use native.Mathlib.Nat.{pow-suc, zero-add}
use tronlink_i_os_core.Bignum.Number.{value, IsNormalized}
use tronlink_i_os_core.Bignum.Bytes.{read_be, bn_read_be}
use tronlink_i_os_core.Bignum.Bytes.Word.{be_value, join_bytes}
use tronlink_i_os_core.Bignum.Bytes.Read.{words_value, read_loop_lem}

get_or-IsByte : (bs : List ℕ) (i : ℕ) → All IsByte bs → IsByte (get_or bs i 0)
get_or-IsByte [] i h = omega arith
get_or-IsByte (b ∷ bs) zero h = h.0
get_or-IsByte (b ∷ bs) (suc i) h = get_or-IsByte bs i h.1

read_be-sum :
    (bs : List ℕ)
    → All IsByte bs
    → read_be bs
      ≡ get_or bs 0 0 * 2 ^ 24 + get_or bs 1 0 * 2 ^ 16 + get_or bs 2 0 * 2 ^ 8 + get_or bs 3 0
unfolding read_be
read_be-sum bs h =
    join_bytes _ _ _ _ (get_or-IsByte bs 0 h) (get_or-IsByte bs 1 h) (get_or-IsByte bs 2 h)
      (get_or-IsByte bs 3 h)

read_be-IsU32 : (bs : List ℕ) → All IsByte bs → IsU32 (read_be bs)
read_be-IsU32 bs h = omega (
  arith,
  read_be-sum bs h,
  get_or-IsByte bs 0 h,
  get_or-IsByte bs 1 h,
  get_or-IsByte bs 2 h,
  get_or-IsByte bs 3 h,
)

All-drop : (n : ℕ) (bs : List ℕ) → All IsByte bs → All IsByte (drop n bs)
All-drop zero bs h = h
All-drop (suc n) [] h = h
All-drop (suc n) (b ∷ bs) h = All-drop n bs h.1

-- 2 ^ (32 n), which is 256 ^ (4 n)
abbrev word_span : ℕ → ℕ
word_span zero = 1
word_span (suc n) = 2 ^ 32 * word_span n

word_span-bytes : (n : ℕ) → 256 ^ (4 * n) ≡ word_span n
word_span-bytes zero = refl
word_span-bytes (suc n) =
    let more : 4 * suc n ≡ suc (suc (suc (suc (4 * n)))) = omega arith in
    rw more (
      omega (
        arith,
        pow-suc 256 (4 * n),
        pow-suc 256 (suc (4 * n)),
        pow-suc 256 (suc (suc (4 * n))),
        pow-suc 256 (suc (suc (suc (4 * n)))),
        word_span-bytes n,
      ))

words_value_last :
    (word : ℕ → ℕ) (n i : ℕ)
    → words_value word (suc n) i ≡ words_value word n i + word_span n * word (n + i)
unfolding words_value
words_value_last word zero i = omega (arith, ap word (zero-add i))
words_value_last word (suc n) i =
    let index : n + (i + 1) ≡ suc n + i = omega arith in
    omega (arith, words_value_last word n (i + 1), ap (λ (t : ℕ). word_span n * word t) index)

words_value_ext :
    (v w : ℕ → ℕ) (n i m : ℕ)
    → i + n ≡ m
    → ((j : ℕ) → j < m → v j ≡ w j)
    → words_value v n i ≡ words_value w n i
unfolding words_value
words_value_ext v w zero i m e h = refl
words_value_ext v w (suc n) i m e h =
    omega (arith, h i (omega arith), words_value_ext v w n (i + 1) m (omega arith) h)

-- The word `i` from the end of 4 * n bytes.
abbrev word_from_end : ℕ → List ℕ → ℕ → ℕ
word_from_end n bs i = read_be (drop ((n - 1 - i) * 4) bs)

words-be_value :
    (n : ℕ) (bs : List ℕ)
    → length bs ≡ 4 * n
    → All IsByte bs
    → words_value (word_from_end n bs) n 0 ≡ be_value bs
words-be_value zero [] e h = unfold words_value in refl
words-be_value zero (b ∷ bs) e h = absurd (omega arith)
words-be_value (suc n) (a ∷ (b ∷ (c ∷ (d ∷ bs)))) e h =
    let whole : List ℕ = a ∷ (b ∷ (c ∷ (d ∷ bs))) in
    let later =
      words_value_ext (word_from_end (suc n) whole) (word_from_end n bs) n 0 n (zero-add n)
        λ j less.
          let index : (suc n - 1 - j) * 4 ≡ suc (suc (suc (suc ((n - 1 - j) * 4)))) = omega arith in
          ap (λ (t : ℕ). read_be (drop t whole)) index in
    let first : word_from_end (suc n) whole (n + 0) ≡ read_be whole =
      let index : (suc n - 1 - (n + 0)) * 4 ≡ 0 = omega arith in
      ap (λ (t : ℕ). read_be (drop t whole)) index in
    let count : length bs ≡ 4 * n = omega arith in
    let size : 256 ^ length bs ≡ word_span n = ap (λ (t : ℕ). 256 ^ t) count ∙ word_span-bytes n in
    let size1 : 256 ^ suc (length bs) ≡ 2 ^ 8 * word_span n =
      omega (arith, pow-suc 256 (length bs), size) in
    let size2 : 256 ^ suc (suc (length bs)) ≡ 2 ^ 16 * word_span n =
      omega (arith, pow-suc 256 (suc (length bs)), size1) in
    let size3 : 256 ^ suc (suc (suc (length bs))) ≡ 2 ^ 24 * word_span n =
      omega (arith, pow-suc 256 (suc (suc (length bs))), size2) in
    omega (
      arith,
      words_value_last (word_from_end (suc n) whole) n 0,
      later,
      ap (λ (t : ℕ). word_span n * t) (first ∙ read_be-sum whole h),
      words-be_value n bs (omega arith) h.1.1.1.1,
      ap (λ (t : ℕ). a * t) size3,
      ap (λ (t : ℕ). b * t) size2,
      ap (λ (t : ℕ). c * t) size1,
      ap (λ (t : ℕ). d * t) size,
    )
words-be_value (suc n) [] e h = absurd (omega arith)
words-be_value (suc n) (a ∷ []) e h = absurd (omega arith)
words-be_value (suc n) (a ∷ (b ∷ [])) e h = absurd (omega arith)
words-be_value (suc n) (a ∷ (b ∷ (c ∷ []))) e h = absurd (omega arith)

-- bn_read_be takes 32 bytes to the number that they spell, most significant byte first, and its
-- result is normalized.
pub value-bn_read_be :
    (bytes : List ℕ)
    → length bytes ≡ 32
    → All IsByte bytes
    → IsNormalized (bn_read_be bytes) × (value (bn_read_be bytes) ≡ be_value bytes)
unfolding bn_read_be
value-bn_read_be bytes len h =
    let word = word_from_end 8 bytes in
    let fits =
      λ (j : ℕ). read_be-IsU32 (drop ((7 - j) * 4) bytes) (All-drop ((7 - j) * 4) bytes h) in
    let (limbs, nine, eq) = read_loop_lem word 8 0 0 fits refl (omega arith) in
    (record { nine = nine; limbs = limbs }, omega (arith, eq, words-be_value 8 bytes len h))
