-- ===== src/BlockHash/Padded.antt =====
-- What a hash of BlockHash.antt promises of its parts, and its value on a whole message: the message
-- padded as FIPS 180-4 says, block after block.
use tronlink_i_os_core.Base.{
  ℕ, zero, suc, ◌+◌, ◌-◌, ◌*◌, ◌/◌, ◌^◌, ◌<◌, ◌≤◌, ◌≡◌, ap, ◌∙◌, sym, List, ◌∷◌, ◌++◌, arith,
  length, length-append, length-take, length-drop, take, drop, take-append, take_all, replicate,
}
use mathlib.Core.List.{append_assoc}
use tronlink_i_os_core.BlockHash.{BlockHash, overwrite}

-- `Counts c n`: the counter stands at n bytes. `length_bytes` is the length field of the padding.
pub record IsBlockHash (h : BlockHash) : Type 1 where
  pub Counts : h.BitCount → ℕ → Type 0
  pub length_bytes : ℕ → List ℕ
  pub short_pos : 0 < h.short_block_length
  pub short_below : h.short_block_length < h.block_length
  pub none_counted : Counts h.no_bits 0
  pub add_counted :
      (c : h.BitCount) (l n : ℕ) → n < 2 ^ 61 → Counts c l → Counts (h.add_bytes c n) (l + n)
  pub used_counted :
      (c : h.BitCount) (n r : ℕ)
      → r < h.block_length
      → Counts c (n * h.block_length + r)
      → h.usedspace c ≡ r
  pub words_counted :
      (c : h.BitCount) (l : ℕ) → Counts c l → h.words (length_bytes l) ≡ h.count_words c
  pub length-length_bytes :
      (l : ℕ) → length (length_bytes l) ≡ h.block_length - h.short_block_length
  pub words-append :
      (xs ys : List ℕ)
      → length xs ≡ h.short_block_length
      → (h.words (xs ++ ys) ≡ h.words xs ++ h.words ys) × (length (h.words xs) ≡ 14)
  pub length-to_host : (xs : List ℕ) → length (h.to_host xs) ≡ length xs

module _ (h : BlockHash) where
  -- The transform of one block after the other.
  unfoldable pub absorb : ℕ → List ℕ → List ℕ → List ℕ
  absorb zero state bytes = state
  absorb (suc n) state bytes =
      absorb n (h.transform state (h.words (take h.block_length bytes))) (drop h.block_length bytes)

  -- The blocks in front of the one that ends in the length.
  abbrev pub blocks_before : ℕ → ℕ
  blocks_before l = (l + (h.block_length - h.short_block_length)) / h.block_length

  module _ (law : IsBlockHash h) where
    -- A 1 bit, as few 0 bits as lead to a short block, and the length.
    abbrev pub padding : ℕ → List ℕ
    padding l =
        (0x80 ∷ replicate (blocks_before l * h.block_length + h.short_block_length - (l + 1)) 0)
        ++ law.length_bytes l

    -- The hash of a whole message.
    unfoldable pub reference : List ℕ → List ℕ
    unfolding absorb
    reference message = h.digest (
        absorb (suc (blocks_before (length message))) h.initial
          (message ++ padding (length message)))

pub length-overwrite :
    (buffer : List ℕ) (offset : ℕ) (bytes : List ℕ)
    → offset + length bytes ≤ length buffer
    → length (overwrite buffer offset bytes) ≡ length buffer
length-overwrite buffer offset bytes fits = omega (
  arith,
  length-append (take offset buffer) (bytes ++ drop (offset + length bytes) buffer),
  length-append bytes (drop (offset + length bytes) buffer),
  length-take offset buffer,
  length-drop (offset + length bytes) buffer,
)

pub take-overwrite :
    (buffer : List ℕ) (offset : ℕ) (bytes : List ℕ)
    → offset ≤ length buffer
    → take (offset + length bytes) (overwrite buffer offset bytes) ≡ take offset buffer ++ bytes
take-overwrite buffer offset bytes fits =
    ap (take (offset + length bytes))
      (sym (append_assoc (take offset buffer) bytes (drop (offset + length bytes) buffer)))
    ∙ take-append (take offset buffer ++ bytes) (drop (offset + length bytes) buffer)
        (offset + length bytes)
        (omega (arith, length-append (take offset buffer) bytes, length-take offset buffer))

-- A write up to the end of the buffer.
pub overwrite_full :
    (buffer : List ℕ) (offset : ℕ) (bytes : List ℕ)
    → offset + length bytes ≡ length buffer
    → overwrite buffer offset bytes ≡ take offset buffer ++ bytes
overwrite_full buffer offset bytes full =
    sym (
      take_all (overwrite buffer offset bytes) (offset + length bytes)
        (omega (arith, length-overwrite buffer offset bytes (omega arith))))
    ∙ take-overwrite buffer offset bytes (omega arith)
