-- ===== src/Base58/Decode.antt =====
-- The loop of b58tobin in base58.c against the number that the digits spell.
use mathlib.Core.Path.{ap₂}
use tronlink_i_os_core.Base.{
  ℕ, zero, suc, ◌+◌, ◌*◌, ◌/◌, ◌^◌, ◌<◌, ◌≤◌, ◌≡◌, inl, inr, refl, ap, subst, ◌∙◌, sym, List, [],
  ◌∷◌, arith, length, get_or, replicate, none, some, All, ◌>>>◌, bit_and, bit_and-mask,
  bit_and-shifted, bit_and-zero, ltb, ◌==◌, if◌then◌else◌, Bool-cases,
}
use native.Mathlib.Nat.{pow-suc, mul-le-mul_right}
use tronlink_i_os_core.Base58.{digit_of, multiply_add, decode_loop, zeromask_of}

abbrev pub IsWord : ℕ → Type 0
IsWord w = w < 2 ^ 32

-- The number that words spell, most significant first.
unfoldable pub value_words : List ℕ → ℕ
value_words [] = 0
value_words (w ∷ ws) = w * (2 ^ 32) ^ length ws + value_words ws

-- The number that digits spell after a number.
unfoldable pub number58 : ℕ → List ℕ → ℕ
number58 acc [] = acc
number58 acc (d ∷ ds) = number58 (acc * 58 + d) ds

low_part : (t : ℕ) → t < 58 * 2 ^ 32 → bit_and t 0x3f00000000 >>> 32 ≡ t / 2 ^ 32
low_part t h = omega (arith, bit_and-shifted 32 t 0x3f, bit_and-mask 6 (t / 2 ^ 32))

product_step :
    (w k p x y c lo hi : ℕ)
    → lo + hi * 2 ^ 32 ≡ w * 58 + k
    → x + k * p ≡ y * 58 + c
    → (p' : ℕ) → p' ≡ p
    → (q : ℕ) → q ≡ p * 2 ^ 32
    → lo * p' + x + hi * q ≡ (w * p + y) * 58 + c
product_step w k p x y c lo hi t e p' ep q eq =
    ap₂ (λ (a b : ℕ). lo * a + x + hi * b) ep eq ∙ grind (arith, ap (λ (n : ℕ). n * p) t, e)

record IsProduct (ws : List ℕ) (c : ℕ) (words : List ℕ) (carry : ℕ) : Type 0 where
  same : length words ≡ length ws
  below : All IsWord words
  carried : carry < 58
  exact : value_words words + carry * (2 ^ 32) ^ length ws ≡ value_words ws * 58 + c

multiply_add-IsProduct :
    (ws : List ℕ) (c : ℕ)
    → All IsWord ws
    → c < 58
    → IsProduct ws c (multiply_add ws c).0 (multiply_add ws c).1
unfolding multiply_add value_words
multiply_add-IsProduct [] c h lt = record {
  same = refl;
  below = tt;
  carried = lt;
  exact = omega (arith);
}
multiply_add-IsProduct (w ∷ ws) c (hw, h) lt =
    let p = multiply_add-IsProduct ws c h lt in
    let (words, carry) = multiply_add ws c in
    let t = w * 58 + carry in
    record {
      same = ap suc p.same;
      below = (omega (arith, bit_and-mask 32 t), p.below);
      carried = omega (arith, low_part t (omega (arith, p.carried)), p.carried);
      exact =
          product_step w carry ((2 ^ 32) ^ length ws) (value_words words) (value_words ws) c
            (bit_and t 0xffffffff) (bit_and t 0x3f00000000 >>> 32)
            (omega (arith, bit_and-mask 32 t, low_part t (omega (arith, p.carried)))) p.exact
            ((2 ^ 32) ^ length words) (ap (λ (n : ℕ). (2 ^ 32) ^ n) p.same)
            ((2 ^ 32) ^ suc (length ws)) (pow-suc (2 ^ 32) (length ws));
    }

-- What the first word of outi must stay below for the bytes that are left.
unfoldable pub head_bound : ℕ → ℕ
head_bound bytesleft = if bytesleft == 0 then 2 ^ 32 else 2 ^ (8 * bytesleft)

zeromask_of-head_bound :
    (bytesleft h : ℕ)
    → bytesleft < 4
    → IsWord h
    → (bit_and h (zeromask_of bytesleft) == 0) ≡ ltb h (head_bound bytesleft)
unfolding head_bound
zeromask_of-head_bound zero h lt word = ground (arith, bit_and-zero h)
zeromask_of-head_bound (suc zero) h lt word =
    ground (arith, bit_and-shifted 8 h 0xffffff, bit_and-mask 24 (h / 2 ^ 8))
zeromask_of-head_bound (suc (suc zero)) h lt word =
    ground (arith, bit_and-shifted 16 h 0xffff, bit_and-mask 16 (h / 2 ^ 16))
zeromask_of-head_bound (suc (suc (suc zero))) h lt word =
    ground (arith, bit_and-shifted 24 h 0xff, bit_and-mask 8 (h / 2 ^ 24))
zeromask_of-head_bound (suc (suc (suc (suc n)))) h lt word = absurd (omega arith)

below_next : (w p v b : ℕ) → w < b → v < p → (q : ℕ) → q ≡ p * b → w * p + v < q
below_next w p v b hw hv q e = grind (arith, mul-le-mul_right p hw, e)

value_words-lt : (ws : List ℕ) → All IsWord ws → value_words ws < (2 ^ 32) ^ length ws
unfolding value_words
value_words-lt [] h = omega arith
value_words-lt (w ∷ ws) (hw, h) =
    below_next w ((2 ^ 32) ^ length ws) (value_words ws) (2 ^ 32) hw (value_words-lt ws h)
      ((2 ^ 32) ^ suc (length ws)) (pow-suc (2 ^ 32) (length ws))

pub value_zeros : (n : ℕ) → value_words (replicate n 0) ≡ 0
unfolding value_words
value_zeros zero = refl
value_zeros (suc n) = omega (arith, value_zeros n)

pub zeros-IsWord : (n : ℕ) → All IsWord (replicate n 0)
zeros-IsWord zero = tt
zeros-IsWord (suc n) = (omega arith, zeros-IsWord n)

number58-le : (acc : ℕ) (ds : List ℕ) → acc ≤ number58 acc ds
unfolding number58
number58-le acc [] = omega arith
number58-le acc (d ∷ ds) = omega (arith, number58-le (acc * 58 + d) ds)

-- The digits that the characters stand for.
abbrev pub AreDigits : List ℕ → List ℕ → Type 0
AreDigits [] [] = Unit
AreDigits [] (d ∷ ds) = ⊥
AreDigits (c ∷ cs) [] = ⊥
AreDigits (c ∷ cs) (d ∷ ds) = (digit_of c ≡ some d) × (d < 58) × AreDigits cs ds

pub record IsDecoded (n : ℕ) (number : ℕ) (outi : List ℕ) : Type 0 where
  pub words : All IsWord outi
  pub count : length outi ≡ n
  pub exact : value_words outi ≡ number

bound_cases : (n : ℕ) → n < 4 → head_bound n ≤ 2 ^ 32
unfolding head_bound
bound_cases zero h = omega arith
bound_cases (suc zero) h = omega arith
bound_cases (suc (suc zero)) h = omega arith
bound_cases (suc (suc (suc zero))) h = omega arith
bound_cases (suc (suc (suc (suc n)))) h = absurd (omega arith)

carry_none : (p v k a q b : ℕ) → v + k * q ≡ a → q ≡ p * 2 ^ 32 → a < b * p → b ≤ 2 ^ 32 → k ≡ 0
carry_none p v zero a q b e eq lt le = refl
carry_none p v (suc k) a q b e eq lt le = absurd (grind (arith, mul-le-mul_right p le))

mul_suc : (w p : ℕ) → suc w * p ≡ w * p + p
mul_suc w p = grind arith

compare_head : (w v p b : ℕ) → v < p → ltb w b ≡ ltb (w * p + v) (b * p)
compare_head w v p b lt = elim (Bool-cases (ltb w b)) [
  | inl less ↦
      ground (
        arith,
        mul-le-mul_right {m = suc w} {n = b} p (ground (arith, less)),
        lt,
        less,
        mul_suc w p,
      )
  | inr more ↦ ground (arith, mul-le-mul_right {m = b} {n = w} p (ground (arith, more)), lt, more)
]

-- The words after a step hold the number, or the step is refused.
module _ (bytesleft : ℕ) (small : bytesleft < 4) (n : ℕ) where
  abbrev pub room : ℕ
  room = head_bound bytesleft * (2 ^ 32) ^ n

  head_bound-le : head_bound bytesleft ≤ 2 ^ 32
  head_bound-le = bound_cases bytesleft small

  head_fits :
      (ws : List ℕ)
      → All IsWord ws
      → length ws ≡ suc n
      → (bit_and (get_or ws 0 0) (zeromask_of bytesleft) == 0) ≡ ltb (value_words ws) room
  unfolding value_words
  head_fits [] h e = absurd (omega arith)
  head_fits (w ∷ ws) (hw, h) e =
      zeromask_of-head_bound bytesleft w small hw
      ∙ compare_head w (value_words ws) ((2 ^ 32) ^ length ws) (head_bound bytesleft)
          (value_words-lt ws h)
      ∙ ap
          (λ (k : ℕ).
            ltb (w * (2 ^ 32) ^ length ws + value_words ws) (head_bound bytesleft * (2 ^ 32) ^ k))
          (omega (arith, e))

  -- The loop takes a number that has room, and refuses any other.
  abbrev pub Decodes : List ℕ → List ℕ → ℕ → Type 0
  Decodes words cs number =
      (number < room
        → (outi : List ℕ) × (decode_loop (zeromask_of bytesleft) words cs ≡ some outi)
          × IsDecoded (suc n) number outi)
      × (room ≤ number → decode_loop (zeromask_of bytesleft) words cs ≡ none)

  -- From words that hold a number with room for it, the loop over the digits ends in words below
  -- 2 ^ 32 that hold exactly the number with the digits behind it where that has room, and
  -- refuses where it has not; the room is what the bytes that the size leaves over, in the first
  -- word, and the other words hold.
  pub decode_loop-Decodes :
      (cs ds words : List ℕ)
      → AreDigits cs ds
      → All IsWord words
      → length words ≡ suc n
      → value_words words < room
      → Decodes words cs (number58 (value_words words) ds)
  unfolding decode_loop number58
  decode_loop-Decodes [] [] words digits h e lt = (
    λ below. (words, refl, record { words = h; count = e; exact = refl }),
    λ above. absurd (omega (arith, lt, above)),
  )
  decode_loop-Decodes [] (d ∷ ds) words digits h e lt = absurd digits
  decode_loop-Decodes (c ∷ cs) [] words digits h e lt = absurd digits
  decode_loop-Decodes (c ∷ cs) (d ∷ ds) words (is_digit, small_digit, digits) h e lt = step (
      decode_loop-Decodes cs ds (multiply_add words d).0 digits
        (multiply_add-IsProduct words d h small_digit).below
        ((multiply_add-IsProduct words d h small_digit).same ∙ e))
    where
      words' : List ℕ
      words' = (multiply_add words d).0

      carry : ℕ
      carry = (multiply_add words d).1

      a : ℕ
      a = value_words words * 58 + d

      p : IsProduct words d words' carry
      p = multiply_add-IsProduct words d h small_digit

      no_carry : a < room → carry ≡ 0
      no_carry below =
          carry_none ((2 ^ 32) ^ n) (value_words words') carry a ((2 ^ 32) ^ length words)
            (head_bound bytesleft) p.exact (ap (λ (k : ℕ). (2 ^ 32) ^ k) e ∙ pow-suc (2 ^ 32) n)
            below head_bound-le

      exact' : carry ≡ 0 → value_words words' ≡ a
      exact' z = grind (arith, p.exact, z)

      step :
          (value_words words' < room → Decodes words' cs (number58 (value_words words') ds))
          → Decodes words (c ∷ cs) (number58 a ds)
      step again = elim (Bool-cases (carry == 0)) [
        | inl none_left ↦
            let value = exact' (ground (arith, none_left)) in
            let head = head_fits words' p.below (p.same ∙ e) in
            elim (Bool-cases (bit_and (get_or words' 0 0) (zeromask_of bytesleft) == 0)) [
              | inl fits ↦
                  let below : value_words words' < room = ground (arith, sym head ∙ fits) in
                  subst (Decodes words (c ∷ cs)) (ap (λ (k : ℕ). number58 k ds) value)
                    (rw (is_digit, none_left, fits) (again below))
              | inr big ↦
                  let above : room ≤ value_words words' = ground (arith, sym head ∙ big) in
                  (
                    λ below. absurd (omega (arith, above, value, number58-le a ds, below)),
                    λ _. rw (is_digit, none_left, big) refl,
                  )
            ]
        | inr some_left ↦ (
          λ below.
              absurd (ground (arith, no_carry (omega (arith, number58-le a ds, below)), some_left)),
          λ _. rw (is_digit, some_left) refl,
        )
      ]
