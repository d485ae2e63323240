-- ===== src/Ripemd160/Fed.antt =====
-- The blocks that ripemd160_Update in ripemd160.c processes and what it keeps in the buffer.
use mathlib.Core.List.{append_assoc, append-nil}
use tronlink_i_os_core.Base.{
  ℕ, zero, suc, ◌+◌, ◌*◌, ◌%◌, ◌^◌, ◌<◌, ◌≤◌, ◌≡◌, inl, inr, refl, ap, subst, ◌∙◌, sym, List, [],
  ◌∷◌, ◌++◌, arith, length, length-append, length-take, length-drop, take, drop, take-append,
  drop-append, take-append-drop, u32, bit_and, bit_and-mask, ltb, ◌==◌, if◌then◌else◌, Bool-cases,
  false,
}
use tronlink_i_os_core.BlockHash.{overwrite}
use tronlink_i_os_core.BlockHash.Padded.{length-overwrite, take-overwrite}
use tronlink_i_os_core.Ripemd160.{RipemdContext, ripemd160_process, count_bytes, whole_blocks}

-- One block after the other.
unfoldable pub absorb_blocks : ℕ → List ℕ → List ℕ → List ℕ
absorb_blocks zero state bytes = state
absorb_blocks (suc n) state bytes =
    absorb_blocks n (ripemd160_process state (take 64 bytes)) (drop 64 bytes)

absorb_first :
    (k : ℕ) (state block rest : List ℕ)
    → length block ≡ 64
    → absorb_blocks (suc k) state (block ++ rest)
      ≡ absorb_blocks k (ripemd160_process state block) rest
unfolding absorb_blocks
absorb_first k state block rest len =
    rw (take-append block rest 64 len, drop-append block rest 64 len) refl

abbrev pub initial_state : List ℕ
initial_state = 0x67452301 ∷ 0xEFCDAB89 ∷ 0x98BADCFE ∷ 0x10325476 ∷ 0xC3D2E1F0 ∷ []

-- The two words of the counter after l bytes.
pub record Counted (low high l : ℕ) : Type 0 where
  pub low_lt : low < 2 ^ 32
  pub high_lt : high < 2 ^ 32
  pub total : low + 2 ^ 32 * high ≡ l % 2 ^ 64

Counted-more :
    (low high l n sum : ℕ)
    → n < 2 ^ 32
    → sum ≡ u32 (low + n)
    → Counted low high l
    → Counted sum (if ltb sum n then u32 (high + 1) else high) (l + n)
Counted-more low high l n sum small e c = elim (Bool-cases (ltb sum n)) [
  | inl over ↦ rw over (record {
    low_lt = omega (arith, e);
    high_lt = omega arith;
    total = ground (arith, e, c.total, c.low_lt, c.high_lt);
  })
  | inr fits ↦ rw fits (record {
    low_lt = omega (arith, e);
    high_lt = c.high_lt;
    total = ground (arith, e, c.total, c.low_lt, c.high_lt);
  })
]

pub count_bytes-Counted :
    (ctx : RipemdContext) (l n : ℕ)
    → n < 2 ^ 32
    → Counted ctx.low ctx.high l
    → Counted (count_bytes ctx n).low (count_bytes ctx n).high (l + n)
unfolding count_bytes
count_bytes-Counted ctx l n small c =
    Counted-more ctx.low ctx.high l n (bit_and (u32 (ctx.low + n)) 0xFFFFFFFF) small
      (bit_and-mask 32 (u32 (ctx.low + n)) ∙ omega arith) c

-- The message is whole blocks, which are in the state, and a tail, which is in the buffer.
pub record IsHeld (state buffer message tail : List ℕ) : Type 0 where
  pub blocks : ℕ
  pub size : length message ≡ blocks * 64 + length tail
  pub short : length tail < 64
  pub held : take (length tail) buffer ≡ tail
  pub full : length buffer ≡ 64
  pub absorbed :
      (k : ℕ) (rest : List ℕ)
      → absorb_blocks (blocks + k) initial_state (message ++ rest)
        ≡ absorb_blocks k state (tail ++ rest)

store-IsHeld :
    (state buffer message tail bytes : List ℕ)
    → IsHeld state buffer message tail
    → length tail + length bytes < 64
    → IsHeld state (overwrite buffer (length tail) bytes) (message ++ bytes) (tail ++ bytes)
store-IsHeld state buffer message tail bytes f fits =
    let size = length-append tail bytes in
    record {
      blocks = f.blocks;
      size = omega (arith, length-append message bytes, f.size);
      short = omega arith;
      held =
          ap (λ (n : ℕ). take n (overwrite buffer (length tail) bytes)) size
          ∙ take-overwrite buffer (length tail) bytes (omega (arith, f.full))
          ∙ ap (λ (t : List ℕ). t ++ bytes) f.held;
      full = length-overwrite buffer (length tail) bytes (omega (arith, f.full)) ∙ f.full;
      absorbed = λ k rest.
          ap (absorb_blocks (f.blocks + k) initial_state) (append_assoc message bytes rest)
          ∙ f.absorbed k (bytes ++ rest)
          ∙ ap (absorb_blocks k state) (sym (append_assoc tail bytes rest));
    }

-- A block is complete, in the buffer or in the input.
pub complete-IsHeld :
    (state buffer after message tail bytes block : List ℕ)
    → IsHeld state buffer message tail
    → block ≡ tail ++ bytes
    → length block ≡ 64
    → length after ≡ 64
    → IsHeld (ripemd160_process state block) after (message ++ bytes) []
complete-IsHeld state buffer after message tail bytes block f joined len full = record {
  blocks = suc f.blocks;
  size =
      omega (
        arith,
        length-append message bytes,
        length-append tail bytes,
        f.size,
        ap length joined,
        len,
      );
  short = omega arith;
  held = refl;
  full = full;
  absorbed = λ k rest.
      ap (λ (n : ℕ). absorb_blocks n initial_state ((message ++ bytes) ++ rest))
        {x = suc f.blocks + k} {y = f.blocks + suc k} (omega arith)
      ∙ ap (absorb_blocks (f.blocks + suc k) initial_state) (append_assoc message bytes rest)
      ∙ f.absorbed (suc k) (bytes ++ rest)
      ∙ ap (absorb_blocks (suc k) state)
          (sym (append_assoc tail bytes rest) ∙ ap (λ (t : List ℕ). t ++ rest) (sym joined))
      ∙ absorb_first k state block rest len;
}

pub whole_blocks-IsHeld :
    (n left : ℕ) (ctx : RipemdContext) (message tail input : List ℕ)
    → IsHeld ctx.state ctx.buffer message tail
    → left ≡ length tail
    → (0 < n → tail ≡ [])
    → n * 64 ≤ length input
    → length tail + length input < n * 64 + 64
    → (rest : List ℕ) × IsHeld
        (whole_blocks n left ctx input).state
        (whole_blocks n left ctx input).buffer
        (message ++ input)
        rest
unfolding whole_blocks
whole_blocks-IsHeld zero left ctx message tail [] f e empty lo hi =
    (tail, subst (λ (m : List ℕ). IsHeld ctx.state ctx.buffer m tail) (sym (append-nil message)) f)
whole_blocks-IsHeld zero left ctx message tail (b ∷ input) f e empty lo hi =
    let nonempty : (length (b ∷ input) == 0) ≡ false = ground arith in
    rw nonempty (
      tail ++ (b ∷ input),
      subst
          (λ (l : ℕ).
            IsHeld ctx.state (overwrite ctx.buffer l (b ∷ input)) (message ++ (b ∷ input))
              (tail ++ (b ∷ input)))
          (sym e) (store-IsHeld ctx.state ctx.buffer message tail (b ∷ input) f (omega arith)),
    )
whole_blocks-IsHeld (suc n) left ctx message tail input f e empty lo hi =
    let none : tail ≡ [] = empty (omega arith) in
    let bare : IsHeld ctx.state ctx.buffer message [] =
      subst (IsHeld ctx.state ctx.buffer message) none f in
    let front : length (take 64 input) ≡ 64 = omega (arith, length-take 64 input) in
    let (rest, g) =
      whole_blocks-IsHeld n left
        (record ctx { state = ripemd160_process ctx.state (take 64 input) })
        (message ++ take 64 input) [] (drop 64 input)
        (complete-IsHeld ctx.state ctx.buffer ctx.buffer message [] (take 64 input) (take 64 input)
          bare refl front f.full)
        (omega (arith, e, ap length none)) (λ _. refl) (omega (arith, length-drop 64 input))
        (omega (arith, length-drop 64 input)) in
    (
      rest,
      subst
          (λ (m : List ℕ).
            IsHeld
              (whole_blocks n left
                (record ctx { state = ripemd160_process ctx.state (take 64 input) })
                (drop 64 input)).state
              (whole_blocks n left
                (record ctx { state = ripemd160_process ctx.state (take 64 input) })
                (drop 64 input)).buffer
              m rest)
          (append_assoc message (take 64 input) (drop 64 input)
            ∙ ap (λ (t : List ℕ). message ++ t) (take-append-drop 64 input))
          g,
    )

pub whole_blocks-counts :
    (n left : ℕ) (ctx : RipemdContext) (input : List ℕ)
    → ((whole_blocks n left ctx input).low ≡ ctx.low)
      × ((whole_blocks n left ctx input).high ≡ ctx.high)
unfolding whole_blocks
whole_blocks-counts zero left ctx input = elim (Bool-cases (length input == 0)) [
  | inl none ↦ rw none (refl, refl)
  | inr more ↦ rw more (refl, refl)
]
whole_blocks-counts (suc n) left ctx input =
    whole_blocks-counts n left (record ctx { state = ripemd160_process ctx.state (take 64 input) })
      (drop 64 input)
