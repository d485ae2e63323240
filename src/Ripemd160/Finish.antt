-- ===== src/Ripemd160/Finish.antt =====
-- ripemd160_Final in ripemd160.c against the padding of the whole message.
use mathlib.Core.Path.{ap₂}
use mathlib.Core.List.{append-nil}
use tronlink_i_os_core.Base.{
  ℕ, zero, suc, ◌+◌, ◌-◌, ◌*◌, ◌/◌, ◌%◌, ◌^◌, ◌≤◌, ◌≡◌, refl, ap, ◌∙◌, sym, List, [], ◌∷◌, ◌++◌,
  arith, length, length-append, length-replicate, take, replicate, u32, ◌<<<◌, ◌>>>◌, bit_and,
  bit_or, bit_and-mask, bit_or-fields_comm, ltb, if◌then◌else◌,
}
use tronlink_i_os_core.Ripemd160.{
  RipemdContext, ripemd160_update, ripemd160_final, ripemd160_padding, digest_le, bytes_le,
}
use tronlink_i_os_core.Ripemd160.Fed.{Counted, IsHeld, absorb_blocks, initial_state}
use tronlink_i_os_core.Ripemd160.Update.{
  IsFed160, ripemd160_update-IsFed160, RipemdRun, RipemdRun-IsFed160,
}

-- A 1 bit, as few 0 bits as lead to 56 bytes in a block, and the length in bits, its low word first.
abbrev pub zeros_after : ℕ → ℕ
zeros_after l = (119 - l % 64) % 64

abbrev pub length_le : ℕ → List ℕ
length_le l = bytes_le (8 * l % 2 ^ 32) ++ bytes_le (8 * l % 2 ^ 64 / 2 ^ 32)

unfoldable pub ripemd160_reference : List ℕ → List ℕ
unfolding absorb_blocks
ripemd160_reference message = digest_le (
    absorb_blocks ((length message + zeros_after (length message) + 9) / 64) initial_state (
      (message ++ (0x80 ∷ replicate (zeros_after (length message)) 0))
      ++ length_le (length message)))

length-zeros : (n : ℕ) → length (replicate {A = ℕ} n 0) ≡ n
length-zeros n = length-replicate n 0

take-replicate : (k n : ℕ) → k ≤ n → take k (replicate {A = ℕ} n 0) ≡ replicate k 0
take-replicate zero n h = refl
take-replicate (suc k) zero h = absurd (omega arith)
take-replicate (suc k) (suc n) h = ap (λ (t : List ℕ). 0 ∷ t) (take-replicate k n (omega arith))

padding_lem :
    (padn z : ℕ) → padn ≡ suc z → z ≤ 63 → take padn ripemd160_padding ≡ 0x80 ∷ replicate z 0
padding_lem padn z e h =
    ap (λ (n : ℕ). take n ripemd160_padding) e
    ∙ ap (λ (t : List ℕ). 0x80 ∷ t) (take-replicate z 63 h)

-- A context without a tail has absorbed its message.
IsHeld-blocks :
    (state buffer message tail : List ℕ)
    → IsHeld state buffer message tail
    → length message % 64 ≡ 0
    → absorb_blocks (length message / 64) initial_state message ≡ state
unfolding absorb_blocks
IsHeld-blocks state buffer message [] f e =
    ap (λ (m : List ℕ). absorb_blocks (length message / 64) initial_state m)
      (sym (append-nil message))
    ∙ ap (λ (n : ℕ). absorb_blocks n initial_state (message ++ [])) {x = length message / 64}
        {y = f.blocks + 0} (omega (arith, f.size))
    ∙ f.absorbed 0 []
IsHeld-blocks state buffer message (x ∷ tail) f e = absurd (omega (arith, f.size, f.short, e))

-- The words of the length in bits.
high_word :
    (low high l : ℕ)
    → Counted low high l
    → bit_or (low >>> 29) (u32 (high <<< 3)) ≡ 8 * l % 2 ^ 64 / 2 ^ 32
high_word low high l c =
    ap (bit_or (low >>> 29)) {x = u32 (high <<< 3)} {y = high % 2 ^ 29 * 2 ^ 3} (omega arith)
    ∙ bit_or-fields_comm 3 (high % 2 ^ 29) (low >>> 29) (omega (arith, c.low_lt))
    ∙ omega (arith, c.total, c.low_lt, c.high_lt)

low_word : (low high l : ℕ) → Counted low high l → u32 (low <<< 3) ≡ 8 * l % 2 ^ 32
low_word low high l c = omega (arith, c.total, c.low_lt, c.high_lt)

padn_lem :
    (last l : ℕ)
    → last ≡ l % 64
    → (if ltb last 56 then 56 - last else 120 - last) ≡ suc (zeros_after l)
padn_lem last l e = ground (arith, e)

ripemd160_final-IsFed160 :
    (ctx : RipemdContext) (message : List ℕ)
    → IsFed160 ctx message
    → ripemd160_final ctx ≡ ripemd160_reference message
unfolding ripemd160_final ripemd160_reference
ripemd160_final-IsFed160 ctx message f =
    let l : ℕ = length message in
    let z : ℕ = zeros_after l in
    let pad : List ℕ = 0x80 ∷ replicate z 0 in
    let last : bit_and ctx.low 0x3F ≡ l % 64 =
      bit_and-mask 6 ctx.low ∙ omega (arith, f.counted.total) in
    let len : length ((message ++ pad) ++ length_le l) ≡ l + z + 9 = omega (
      arith,
      length-append (message ++ pad) (length_le l),
      length-append message pad,
      length-zeros z,
    ) in
    let fed_pad : IsFed160 (ripemd160_update ctx pad) (message ++ pad) =
      ripemd160_update-IsFed160 ctx message pad f (omega (arith, length-zeros z)) in
    let all_fed =
      ripemd160_update-IsFed160 (ripemd160_update ctx pad) (message ++ pad) (length_le l) fed_pad
        (omega arith) in
    ap₂ (λ (p m : List ℕ). digest_le (ripemd160_update (ripemd160_update ctx p) m).state)
      (padding_lem _ z (padn_lem (bit_and ctx.low 0x3F) l last) (omega arith))
      (ap₂ (λ (x y : ℕ). bytes_le x ++ bytes_le y) (low_word ctx.low ctx.high l f.counted)
        (high_word ctx.low ctx.high l f.counted))
    ∙ ap digest_le (
        sym (
          ap (λ (n : ℕ). absorb_blocks (n / 64) initial_state ((message ++ pad) ++ length_le l))
            (sym len)
          ∙ IsHeld-blocks _ _ ((message ++ pad) ++ length_le l) all_fed.tail all_fed.inside
              (omega (arith, len))))

-- Whatever the calls of ripemd160_Update that lead from ripemd160_Init to a context, with pieces
-- of less than 2 ^ 32 bytes each, as the type of their length says, ripemd160_Final gives the
-- hash of the whole message: the processing of one block after the other of the message, a 1 bit,
-- as few 0 bits as lead to 56 bytes in a block, and the length in bits modulo 2 ^ 64, its low
-- word first.
pub ripemd160_final-RipemdRun :
    {ctx : RipemdContext} {message : List ℕ}
    → RipemdRun ctx message
    → ripemd160_final ctx ≡ ripemd160_reference message
ripemd160_final-RipemdRun {ctx} {message} run =
    ripemd160_final-IsFed160 ctx message (RipemdRun-IsFed160 run)
