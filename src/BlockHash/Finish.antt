-- ===== src/BlockHash/Finish.antt =====
-- final of BlockHash.antt: the padding in the buffer against the padding of the whole message.
use tronlink_i_os_core.Base.{
  ℕ, suc, ◌+◌, ◌-◌, ◌*◌, ◌/◌, ◌^◌, ◌<◌, ◌≤◌, ◌≡◌, inl, inr, refl, ap, ◌∙◌, sym, List, [], ◌∷◌, ◌++◌,
  arith, length, length-append, length-replicate, take, drop, take-append, take-append-drop,
  take_all, replicate, replicate-add, ltb, Bool-cases,
}
use mathlib.Core.Path.{ap₂}
use mathlib.Core.List.{append_assoc, append-nil}
use tronlink_i_os_core.BlockHash.{
  BlockHash, Context, overwrite, process, zero_fill, last_transform, pad_and_transform, final, raw,
}
use tronlink_i_os_core.BlockHash.Padded.{
  IsBlockHash, absorb, blocks_before, padding, reference, length-overwrite, take-overwrite,
}
use tronlink_i_os_core.BlockHash.Feed.{
  IsFed, IsFed-usedspace, absorb_one, Run, start, feed, Run-IsFed,
}

quotient : (b n r : ℕ) → r < b → (n * b + r) / b ≡ n
quotient b n r h = grind arith

length-zeros : (n : ℕ) → length (replicate {A = ℕ} n 0) ≡ n
length-zeros n = length-replicate n 0

module _ (h : BlockHash) (law : IsBlockHash h) where
  -- The last transform reads the short block that the buffer starts with, and the length.
  last_transform_lem :
      (ctx : Context h) (short : List ℕ) (l : ℕ)
      → take h.short_block_length ctx.buffer ≡ short
      → length short ≡ h.short_block_length
      → law.Counts ctx.bitcount l
      → last_transform h ctx ≡ h.transform ctx.state (h.words (short ++ law.length_bytes l))
  unfolding last_transform
  last_transform_lem ctx short l starts len counted =
      let after : List ℕ = drop h.short_block_length ctx.buffer in
      let split : short ++ after ≡ ctx.buffer =
        ap (λ (t : List ℕ). t ++ after) (sym starts)
        ∙ take-append-drop h.short_block_length ctx.buffer in
      let (joined, fourteen) = law.words-append short after len in
      let (with_length, _) = law.words-append short (law.length_bytes l) len in
      let first : take 14 (h.words ctx.buffer) ≡ h.words short =
        ap (λ (b : List ℕ). take 14 (h.words b)) (sym split)
        ∙ ap (take 14) joined
        ∙ take-append (h.words short) (h.words after) 14 fourteen in
      ap (h.transform ctx.state) (
        ap₂ (λ (x y : List ℕ). x ++ y) first (sym (law.words_counted ctx.bitcount l counted))
        ∙ sym with_length)

  pub one_block :
      (state block : List ℕ)
      → length block ≡ h.block_length
      → absorb h 1 state block ≡ h.transform state (h.words block)
  unfolding absorb
  one_block state block len =
      ap (absorb h 1 state) (sym (append-nil block)) ∙ absorb_one h law 0 state block [] len

  -- The tail, the 1 bit and some zeros, in the buffer.
  module _ (ctx : Context h) (message tail : List ℕ) (f : IsFed h law ctx message tail) where
    marked : Context h
    marked = record ctx { buffer = overwrite ctx.buffer (length tail) (0x80 ∷ []) }

    length-marked : length marked.buffer ≡ h.block_length
    unfolding marked
    length-marked =
        length-overwrite ctx.buffer (length tail) (0x80 ∷ []) (omega (arith, f.full, f.short))
        ∙ f.full

    take-marked : take (length tail + 1) marked.buffer ≡ tail ++ (0x80 ∷ [])
    unfolding marked
    take-marked =
        take-overwrite ctx.buffer (length tail) (0x80 ∷ []) (omega (arith, f.full, f.short))
        ∙ ap (λ (t : List ℕ). t ++ (0x80 ∷ [])) f.held

    abbrev filled : ℕ → List ℕ
    filled z = (tail ++ (0x80 ∷ [])) ++ replicate z 0

    length-filled : (z : ℕ) → length (filled z) ≡ length tail + 1 + z
    length-filled z = omega (
      arith,
      length-append (tail ++ (0x80 ∷ [])) (replicate z 0),
      length-append tail (0x80 ∷ []),
      length-zeros z,
    )

    take-zero_fill :
        (upto : ℕ)
        → length tail + 1 ≤ upto
        → upto ≤ h.block_length
        → take upto (zero_fill h marked (length tail + 1) upto).buffer
          ≡ filled (upto - (length tail + 1))
    unfolding zero_fill
    take-zero_fill upto lo hi =
        let z : ℕ = upto - (length tail + 1) in
        let size : length (replicate {A = ℕ} z 0) ≡ z = length-zeros z in
        ap (λ (n : ℕ). take n (overwrite marked.buffer (length tail + 1) (replicate z 0)))
          {x = upto} {y = length tail + 1 + length (replicate z 0)} (omega arith)
        ∙ take-overwrite marked.buffer (length tail + 1) (replicate z 0)
            (omega (arith, length-marked))
        ∙ ap (λ (t : List ℕ). t ++ replicate z 0) take-marked

    length-zero_fill :
        (upto : ℕ)
        → length tail + 1 ≤ upto
        → upto ≤ h.block_length
        → length (zero_fill h marked (length tail + 1) upto).buffer ≡ h.block_length
    unfolding zero_fill
    length-zero_fill upto lo hi =
        length-overwrite marked.buffer (length tail + 1) (replicate (upto - (length tail + 1)) 0)
          (omega (arith, length-marked, length-zeros (upto - (length tail + 1))))
        ∙ length-marked

    -- The tail and the padding of the message, block by block.
    tail-padding :
        (l z y : ℕ)
        → blocks_before h l * h.block_length + h.short_block_length - (l + 1) ≡ z + y
        → tail ++ padding h law l ≡ filled z ++ (replicate y 0 ++ law.length_bytes l)
    tail-padding l z y e =
        let zeros : replicate (blocks_before h l * h.block_length + h.short_block_length - (l + 1))
              0
            ≡ replicate z 0 ++ replicate y 0 =
          ap (λ (n : ℕ). replicate {A = ℕ} n 0) e ∙ sym (replicate-add z y 0) in
        ap (λ (t : List ℕ). tail ++ ((0x80 ∷ t) ++ law.length_bytes l)) zeros
        ∙ simp append_assoc refl

    -- The value of the whole message, from the context.
    reference-tail :
        (k : ℕ)
        → suc (blocks_before h (length message)) ≡ f.blocks + k
        → reference h law message
          ≡ h.digest (absorb h k ctx.state (tail ++ padding h law (length message)))
    unfolding reference
    reference-tail k e = ap h.digest (
        ap (λ (n : ℕ). absorb h n h.initial (message ++ padding h law (length message))) e
        ∙ f.absorbed k (padding h law (length message)))

    -- The length fits behind the tail.
    final_one_block :
        length tail + 1 ≤ h.short_block_length
        → h.digest (last_transform h (zero_fill h marked (length tail + 1) h.short_block_length))
          ≡ reference h law message
    unfolding zero_fill marked
    final_one_block fits =
        let z : ℕ = h.short_block_length - (length tail + 1) in
        let l : ℕ = length message in
        let below = law.short_below in
        let before : blocks_before h l ≡ f.blocks =
          ap (λ (n : ℕ). n / h.block_length) {x = l + (h.block_length - h.short_block_length)}
            {y = f.blocks * h.block_length
              + (length tail + (h.block_length - h.short_block_length))}
            (omega (arith, f.size))
          ∙ quotient h.block_length f.blocks (length tail + (h.block_length - h.short_block_length))
              (omega arith) in
        let zeros : blocks_before h l * h.block_length + h.short_block_length - (l + 1) ≡ z + 0 =
          omega (arith, ap (λ (n : ℕ). n * h.block_length) before, f.size) in
        let len : length (filled z ++ law.length_bytes l) ≡ h.block_length = omega (
          arith,
          length-append (filled z) (law.length_bytes l),
          length-filled z,
          law.length-length_bytes l,
        ) in
        let last =
          last_transform_lem (zero_fill h marked (length tail + 1) h.short_block_length) (filled z)
            l (take-zero_fill h.short_block_length fits (omega arith))
            (omega (arith, length-filled z)) f.counted in
        ap h.digest (
          last
          ∙ sym (one_block ctx.state (filled z ++ law.length_bytes l) len)
          ∙ ap (absorb h 1 ctx.state) (sym (tail-padding l z 0 zeros)))
        ∙ sym (reference-tail 1 (omega arith))

    -- The length needs a block of its own.
    final_two_blocks :
        h.short_block_length < length tail + 1
        → h.digest (
            last_transform h (
              zero_fill h
                (process h (zero_fill h marked (length tail + 1) h.block_length))
                0
                h.short_block_length))
          ≡ reference h law message
    unfolding process zero_fill marked
    final_two_blocks over =
        let z : ℕ = h.block_length - (length tail + 1) in
        let s : ℕ = h.short_block_length in
        let l : ℕ = length message in
        let below = law.short_below in
        let tail_below = f.short in
        let first : Context h = zero_fill h marked (length tail + 1) h.block_length in
        let whole : first.buffer ≡ filled z =
          sym (
            take_all first.buffer h.block_length
              (omega (arith, length-zero_fill h.block_length (omega arith) (omega arith))))
          ∙ take-zero_fill h.block_length (omega arith) (omega arith) in
        let host : List ℕ = h.to_host first.buffer in
        let no_zeros : length (replicate {A = ℕ} (s - 0) 0) ≡ s =
          length-zeros (s - 0) ∙ omega arith in
        let starts : take s (overwrite host 0 (replicate (s - 0) 0)) ≡ replicate s 0 =
          ap (λ (n : ℕ). take n (overwrite host 0 (replicate (s - 0) 0))) {x = s}
            {y = 0 + length (replicate {A = ℕ} (s - 0) 0)} (omega arith)
          ∙ take-overwrite host 0 (replicate (s - 0) 0) (omega arith)
          ∙ ap (λ (n : ℕ). replicate {A = ℕ} n 0) {x = s - 0} {y = s} (omega arith) in
        let before : blocks_before h l ≡ suc f.blocks =
          ap (λ (n : ℕ). n / h.block_length) {x = l + (h.block_length - s)}
            {y = suc f.blocks * h.block_length + (length tail - s)} (grind (arith, f.size))
          ∙ quotient h.block_length (suc f.blocks) (length tail - s) (omega arith) in
        let zeros : blocks_before h l * h.block_length + s - (l + 1) ≡ z + s =
          grind (arith, ap (λ (n : ℕ). n * h.block_length) before, f.size) in
        let len : length (replicate s 0 ++ law.length_bytes l) ≡ h.block_length = omega (
          arith,
          length-append (replicate s 0) (law.length_bytes l),
          length-zeros s,
          law.length-length_bytes l,
        ) in
        let next : List ℕ = h.transform ctx.state (h.words first.buffer) in
        let last =
          last_transform_lem (zero_fill h (process h first) 0 s) (replicate s 0) l starts
            (length-zeros s) f.counted in
        ap h.digest (
          last
          ∙ sym (one_block next (replicate s 0 ++ law.length_bytes l) len)
          ∙ ap
              (λ (b : List ℕ).
                absorb h 1 (h.transform ctx.state (h.words b))
                  (replicate s 0 ++ law.length_bytes l))
              whole
          ∙ sym (
              absorb_one h law 1 ctx.state (filled z) (replicate s 0 ++ law.length_bytes l)
                (omega (arith, length-filled z)))
          ∙ ap (absorb h 2 ctx.state) (sym (tail-padding l z s zeros)))
        ∙ sym (reference-tail 2 (omega arith))

    -- final gives the hash of the message fed to the context.
    padded_here : h.digest (pad_and_transform h ctx (length tail)) ≡ reference h law message
    unfolding pad_and_transform marked
    padded_here = elim (Bool-cases (ltb h.short_block_length (length tail + 1))) [
      | inl over ↦ rw (pad_and_transform, over) (final_two_blocks (ground arith))
      | inr fits ↦ rw (pad_and_transform, fits) (final_one_block (ground arith))
    ]

    pub final_lem : final h ctx ≡ reference h law message
    unfolding final
    final_lem =
        ap (λ (n : ℕ). h.digest (pad_and_transform h ctx n))
          (IsFed-usedspace h law ctx message tail f)
        ∙ padded_here

-- From any context that calls of update can reach, final gives the hash of the whole message.
pub final-Run :
    (h : BlockHash) (law : IsBlockHash h) {ctx : Context h} {message : List ℕ}
    → Run h ctx message
    → final h ctx ≡ reference h law message
final-Run h law {ctx} {message} run =
    let (tail, f) = Run-IsFed h law run in final_lem h law ctx message tail f

-- raw is the hash of its bytes.
pub raw_lem :
    (h : BlockHash) (law : IsBlockHash h) (bytes : List ℕ)
    → length bytes < 2 ^ 61
    → raw h bytes ≡ reference h law bytes
unfolding raw
raw_lem h law bytes small = final-Run h law (feed bytes small start)
