-- ===== src/Hmac/Prepare.antt =====
-- hmac_sha256_prepare and hmac_sha512_prepare in hmac.c: the states after the pads.
use mathlib.Core.Path.{ap₂}
use tronlink_i_os_core.Base.{
  ℕ, zero, suc, ◌+◌, ◌*◌, ◌^◌, ◌<◌, ◌≡◌, refl, ap, ◌∙◌, sym, List, [], ◌∷◌, ◌++◌, arith, length,
  length-map, All, IsByte, map, bit_xor, bit_xor-cancel,
}
use tronlink_i_os_core.BlockHash.{BlockHash, Context, init, update}
use tronlink_i_os_core.BlockHash.Padded.{IsBlockHash, absorb}
use tronlink_i_os_core.BlockHash.Feed.{start, feed, IsFed, Run-IsFed, absorb_one}
use tronlink_i_os_core.Hmac.{xor_with, key_block, hmac_init, hmac_prepare}
use tronlink_i_os_core.Hmac.Reference.{
  IsHmacHash, padded_key, key_block_lem, length-padded_key, padded_key-IsByte, pad_small,
}

-- The constants of prepare stand for the bytes of the pads.
pub record IsPad (h : BlockHash) (o_word i_word : ℕ) : Type 0 where
  pub o_xor :
      (bytes : List ℕ)
      → All IsByte bytes
      → h.words (xor_with 0x5c bytes) ≡ xor_with o_word (h.words bytes)
  pub i_xor :
      (bytes : List ℕ)
      → All IsByte bytes
      → h.words (xor_with 0x36 bytes) ≡ xor_with i_word (h.words bytes)

xor_twice :
    (o i : ℕ) (xs : List ℕ)
    → map (λ (x : ℕ). bit_xor (bit_xor x o) i) (xor_with o xs) ≡ xor_with i xs
xor_twice o i [] = refl
xor_twice o i (x ∷ xs) =
    ap₂ (λ (y : ℕ) (t : List ℕ). y ∷ t) (ap (λ (y : ℕ). bit_xor y i) (bit_xor-cancel x o))
      (xor_twice o i xs)

once : (n b : ℕ) → b ≡ n * b → 0 < b → n ≡ 1
once n b e pos = grind arith

remainder : (n b r : ℕ) → b ≡ n * b + r → 0 < r → r < b → ⊥
remainder zero b r e pos lt = omega arith
remainder (suc n) b r e pos lt = grind arith

module _ (h : BlockHash) (law : IsBlockHash h) where
  -- A context that holds one whole block.
  one_block_fed :
      (ctx : Context h) (block tail : List ℕ)
      → length block ≡ h.block_length
      → IsFed h law ctx block tail
      → ctx.state ≡ h.transform h.initial (h.words block)
  unfolding absorb
  one_block_fed ctx block [] len f =
      let one : f.blocks ≡ 1 =
        once f.blocks h.block_length (omega (arith, len, f.size))
          (omega (arith, law.short_below)) in
      sym (f.absorbed 0 [])
      ∙ ap (λ (n : ℕ). absorb h n h.initial (block ++ [])) {x = f.blocks + 0} {y = 1}
          (omega (arith, one))
      ∙ absorb_one h law 0 h.initial block [] len
  one_block_fed ctx block (x ∷ tail) len f = absurd (
      remainder f.blocks h.block_length (length (x ∷ tail)) (omega (arith, len, f.size))
        (omega arith) f.short)

  pub update-block :
      (block : List ℕ)
      → length block ≡ h.block_length
      → length block < 2 ^ 61
      → (update h (init h) block).state ≡ h.transform h.initial (h.words block)
  update-block block len small =
      let (tail, f) = Run-IsFed h law (feed block small start) in
      one_block_fed (update h (init h) block) block tail len f

  module _ (m : IsHmacHash h law) (o_word i_word : ℕ) (pad : IsPad h o_word i_word) (key : List ℕ)
      (small : length key < 2 ^ 32) (bytes : All IsByte key) where
    pub hmac_prepare_lem : hmac_prepare h o_word i_word key ≡ (
      h.transform h.initial (h.words (xor_with 0x5c (padded_key h law key))),
      h.transform h.initial (h.words (xor_with 0x36 (padded_key h law key))),
    )
    unfolding hmac_prepare
    hmac_prepare_lem =
        ap
          (λ (k : List ℕ). (
            h.transform h.initial (xor_with o_word (h.words k)),
            h.transform h.initial
                (map (λ (x : ℕ). bit_xor (bit_xor x o_word) i_word) (xor_with o_word (h.words k))),
          ))
          (key_block_lem h law m key small)
        ∙ ap₂ (λ (o i : List ℕ). (h.transform h.initial o, h.transform h.initial i))
            (sym (pad.o_xor (padded_key h law key) (padded_key-IsByte h law m key small bytes)))
            (xor_twice o_word i_word (h.words (padded_key h law key))
              ∙ sym (pad.i_xor (padded_key h law key) (padded_key-IsByte h law m key small bytes)))

    -- prepare gives the states of the contexts that the pads have been fed to.
    pub hmac_prepare-hmac_init :
        hmac_prepare h o_word i_word key
        ≡ ((update h (init h) (hmac_init h key).o_key_pad).state, (hmac_init h key).ctx.state)
    unfolding hmac_init
    hmac_prepare-hmac_init = hmac_prepare_lem ∙ ap₂ (λ (o i : List ℕ). (o, i)) (fed 0x5c) (fed 0x36)
      where
        fed :
            (c : ℕ)
            → h.transform h.initial (h.words (xor_with c (padded_key h law key)))
              ≡ (update h (init h) (xor_with c (key_block h key))).state
        fed c =
            sym (
              update-block (xor_with c (padded_key h law key))
                (length-map (padded_key h law key) (λ (x : ℕ). bit_xor x c)
                  ∙ length-padded_key h law m key small)
                (pad_small h law m key small c))
            ∙ ap (λ (k : List ℕ). (update h (init h) (xor_with c k)).state)
                (sym (key_block_lem h law m key small))
