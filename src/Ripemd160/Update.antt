-- ===== src/Ripemd160/Update.antt =====
-- ripemd160_Update in ripemd160.c, and the contexts that it reaches.
use mathlib.Core.List.{append_assoc, append-nil}
use tronlink_i_os_core.Base.{
  ℕ, ◌+◌, ◌-◌, ◌*◌, ◌/◌, ◌^◌, ◌<◌, ◌≤◌, ◌≡◌, inl, inr, refl, ap, subst, ◌∙◌, sym, List, [], ◌∷◌,
  ◌++◌, arith, length, length-append, length-take, take, drop, take-append-drop, bit_and,
  bit_and-mask, leb, ◌==◌, not, ◌&&◌, if◌then◌else◌, Bool-cases, false,
}
use tronlink_i_os_core.BlockHash.{overwrite}
use tronlink_i_os_core.BlockHash.Padded.{overwrite_full, length-overwrite}
use tronlink_i_os_core.Ripemd160.{
  RipemdContext, ripemd160_init, count_bytes, whole_blocks, fill_buffer, ripemd160_update,
}
use tronlink_i_os_core.Ripemd160.Fed.{
  Counted, count_bytes-Counted, IsHeld, complete-IsHeld, whole_blocks-IsHeld, whole_blocks-counts,
  absorb_blocks, initial_state,
}

-- What a context holds of the message fed to it.
pub record IsFed160 (ctx : RipemdContext) (message : List ℕ) : Type 0 where
  pub counted : Counted ctx.low ctx.high (length message)
  pub tail : List ℕ
  pub inside : IsHeld ctx.state ctx.buffer message tail

IsFed160-left :
    (ctx : RipemdContext) (message : List ℕ) (f : IsFed160 ctx message)
    → bit_and ctx.low 0x3F ≡ length f.tail
IsFed160-left ctx message f =
    bit_and-mask 6 ctx.low ∙ omega (arith, f.counted.total, f.inside.size, f.inside.short)

no_bytes : (xs : List ℕ) → length xs ≡ 0 → xs ≡ []
no_bytes [] h = refl
no_bytes (x ∷ xs) h = absurd (omega arith)

module _ (ctx : RipemdContext) (message input : List ℕ) (f : IsFed160 ctx message)
    (small : length input < 2 ^ 32) where
  moved : RipemdContext
  moved = count_bytes ctx (length input)

  moved-Counted : Counted moved.low moved.high (length (message ++ input))
  unfolding moved
  moved-Counted =
      subst (Counted (count_bytes ctx (length input)).low (count_bytes ctx (length input)).high)
        (sym (length-append message input))
        (count_bytes-Counted ctx (length message) (length input) small f.counted)

  -- The loop and what it leaves, from a context that has counted the input.
  looped :
      (c : RipemdContext) (front rest tail : List ℕ) (left : ℕ)
      → c.low ≡ moved.low
      → c.high ≡ moved.high
      → IsHeld c.state c.buffer front tail
      → left ≡ length tail
      → (0 < length rest / 64 → tail ≡ [])
      → length tail + length rest < length rest / 64 * 64 + 64
      → front ++ rest ≡ message ++ input
      → IsFed160 (whole_blocks (length rest / 64) left c rest) (message ++ input)
  looped c front rest tail left same_low same_high h e empty hi whole =
      let (low, high) = whole_blocks-counts (length rest / 64) left c rest in
      let (t, g) =
        whole_blocks-IsHeld (length rest / 64) left c front tail rest h e empty (omega arith) hi in
      record {
        counted =
            subst
              (λ (l : ℕ).
                Counted l (whole_blocks (length rest / 64) left c rest).high
                  (length (message ++ input)))
              (sym (low ∙ same_low))
              (subst (λ (k : ℕ). Counted moved.low k (length (message ++ input)))
                (sym (high ∙ same_high)) moved-Counted);
        tail = t;
        inside =
            subst
              (λ (m : List ℕ).
                IsHeld (whole_blocks (length rest / 64) left c rest).state
                  (whole_blocks (length rest / 64) left c rest).buffer m t)
              whole g;
      }

  -- Update with the number of bytes in the buffer.
  branches : ℕ → RipemdContext
  branches left =
      let fill = 64 - left in
      if length input == 0
      then ctx
      else if not (left == 0) && leb fill (length input)
      then whole_blocks (length (drop fill input) / 64) 0 (fill_buffer moved left (take fill input))
          (drop fill input)
      else whole_blocks (length input / 64) left moved input

  kept_IsFed160 :
      (left : ℕ)
      → left ≡ length f.tail
      → (not (left == 0) && leb (64 - left) (length input)) ≡ false
      → IsFed160 (whole_blocks (length input / 64) left moved input) (message ++ input)
  unfolding moved count_bytes
  kept_IsFed160 left e kept =
      let short = f.inside.short in
      looped moved message input f.tail left refl refl f.inside e
        (λ some_blocks. no_bytes f.tail (ground (arith, e, short))) (ground (arith, e, short)) refl

  filled-IsFed160 :
      (left : ℕ)
      → left ≡ length f.tail
      → 0 < left
      → 64 - left ≤ length input
      → IsFed160
          (whole_blocks
            (length (drop (64 - left) input) / 64)
            0
            (fill_buffer moved left (take (64 - left) input))
            (drop (64 - left) input))
          (message ++ input)
  unfolding moved count_bytes fill_buffer
  filled-IsFed160 left e pos enough =
      let front : List ℕ = take (64 - left) input in
      let len : length front ≡ 64 - left = omega (arith, length-take (64 - left) input) in
      let below : left < 64 = omega (arith, e, f.inside.short) in
      let block : List ℕ = overwrite ctx.buffer left front in
      let joined : block ≡ f.tail ++ front =
        overwrite_full ctx.buffer left front (omega (arith, len, f.inside.full))
        ∙ ap (λ (t : List ℕ). t ++ front) (ap (λ (n : ℕ). take n ctx.buffer) e ∙ f.inside.held) in
      let whole : length block ≡ 64 =
        length-overwrite ctx.buffer left front (omega (arith, len, f.inside.full))
        ∙ f.inside.full in
      looped (fill_buffer moved left front) (message ++ front) (drop (64 - left) input) [] 0 refl
        refl
        (complete-IsHeld ctx.state ctx.buffer block message f.tail front block f.inside joined whole
          whole)
        refl (λ _. refl) (omega arith)
        (append_assoc message front (drop (64 - left) input)
          ∙ ap (λ (t : List ℕ). message ++ t) (take-append-drop (64 - left) input))

  branches-IsFed160 :
      (left : ℕ) → left ≡ length f.tail → IsFed160 (branches left) (message ++ input)
  unfolding branches
  branches-IsFed160 left e = elim (Bool-cases (length input == 0)) [
    | inl none ↦
        let nothing : input ≡ [] = no_bytes input (ground arith) in
        rw none (
          subst (IsFed160 ctx)
            (sym (ap (λ (t : List ℕ). message ++ t) nothing ∙ append-nil message)) f)
    | inr more ↦ elim (Bool-cases (not (left == 0) && leb (64 - left) (length input))) [
      | inl fills ↦ rw (more, fills) (filled-IsFed160 left e (ground arith) (ground arith))
      | inr kept ↦ rw (more, kept) (kept_IsFed160 left e kept)
    ]
  ]

pub ripemd160_update-IsFed160 :
    (ctx : RipemdContext) (message input : List ℕ)
    → IsFed160 ctx message
    → length input < 2 ^ 32
    → IsFed160 (ripemd160_update ctx input) (message ++ input)
unfolding ripemd160_update branches moved
ripemd160_update-IsFed160 ctx message input f small =
    branches-IsFed160 ctx message input f small (bit_and ctx.low 0x3F) (IsFed160-left ctx message f)

-- The contexts that calls of Update reach from Init, and the message so far.
pub data RipemdRun : RipemdContext → List ℕ → Type 0 where
  fresh : RipemdRun ripemd160_init []
  fed :
      {ctx : RipemdContext} {message : List ℕ} (input : List ℕ)
      → length input < 2 ^ 32
      → RipemdRun ctx message
      → RipemdRun (ripemd160_update ctx input) (message ++ input)

fresh-IsFed160 : IsFed160 ripemd160_init []
unfolding ripemd160_init absorb_blocks
fresh-IsFed160 = record {
  counted = record { low_lt = omega arith; high_lt = omega arith; total = refl };
  tail = [];
  inside = record {
    blocks = 0;
    size = refl;
    short = omega arith;
    held = refl;
    full = refl;
    absorbed = λ k rest.
        ap (λ (n : ℕ). absorb_blocks n initial_state rest) {x = 0 + k} {y = k} (omega arith);
  };
}

pub RipemdRun-IsFed160 :
    {ctx : RipemdContext} {message : List ℕ} → RipemdRun ctx message → IsFed160 ctx message
RipemdRun-IsFed160 fresh = fresh-IsFed160
RipemdRun-IsFed160 (fed {ctx} {message} input small run) =
    ripemd160_update-IsFed160 ctx message input (RipemdRun-IsFed160 run) small
