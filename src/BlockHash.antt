-- ===== src/BlockHash.antt =====
-- The buffering that sha1_Update, sha256_Update, sha512_Update and their Final functions in sha2.c
-- share: the three have the same text but for the names, the lengths and the width of the words.
-- A hash supplies its lengths, its bit counter and its transform; the context is the C struct, with
-- the buffer as its bytes in memory.
pub mod Padded
pub mod Feed
pub mod Finish
use tronlink_i_os_core.Base.{
  ℕ, zero, suc, ◌+◌, ◌-◌, ◌*◌, ◌/◌, ◌<◌, ◌≤◌, ◌≡◌, List, [], ◌∷◌, ◌++◌, leb, ltb, ◌==◌,
  if◌then◌else◌, length, take, drop, replicate,
}

-- What the functions of one hash use. `words` reads the buffer in host order after the conversion
-- to it, so the first byte of a word is its most significant one; `to_host` is what the conversion
-- makes of the buffer's bytes.
pub record BlockHash : Type 1 where
  pub block_length : ℕ
  pub short_block_length : ℕ
  pub BitCount : Type 0
  pub no_bits : BitCount
  pub add_bytes : BitCount → ℕ → BitCount
  pub usedspace : BitCount → ℕ
  pub count_words : BitCount → List ℕ
  pub words : List ℕ → List ℕ
  pub to_host : List ℕ → List ℕ
  pub initial : List ℕ
  pub transform : List ℕ → List ℕ → List ℕ
  pub digest : List ℕ → List ℕ

-- memcpy and memzero at an offset.
abbrev pub overwrite : List ℕ → ℕ → List ℕ → List ℕ
overwrite buffer offset bytes = take offset buffer ++ (bytes ++ drop (offset + length bytes) buffer)

module _ (h : BlockHash) where
  pub record Context : Type 0 where
    pub state : List ℕ
    pub bitcount : h.BitCount
    pub buffer : List ℕ

  unfoldable pub init : Context
  init = record { state = h.initial; bitcount = h.no_bits; buffer = replicate h.block_length 0 }

  -- The conversion and the transform of a full buffer.
  unfoldable pub process : Context → Context
  process ctx = record ctx {
    state = h.transform ctx.state (h.words ctx.buffer);
    buffer = h.to_host ctx.buffer;
  }

  -- memcpy into the buffer, and the count of the bytes.
  unfoldable pub store : Context → ℕ → List ℕ → Context
  store ctx offset bytes = record ctx {
    bitcount = h.add_bytes ctx.bitcount (length bytes);
    buffer = overwrite ctx.buffer offset bytes;
  }

  -- The loop over the complete blocks, of which there are as many as the first argument says, and
  -- the left-overs. The loop counts a block's bytes after its transform, which does not read them.
  unfoldable pub complete_blocks : ℕ → Context → List ℕ → Context
  complete_blocks zero ctx bytes = if length bytes == 0 then ctx else store ctx 0 bytes
  complete_blocks (suc n) ctx bytes =
      complete_blocks n (process (store ctx 0 (take h.block_length bytes)))
        (drop h.block_length bytes)

  unfoldable pub update : Context → List ℕ → Context
  unfolding complete_blocks process store
  update ctx bytes =
      let used = h.usedspace ctx.bitcount in
      let freespace = h.block_length - used in
      if length bytes == 0
      then ctx
      else if used == 0
      then complete_blocks (length bytes / h.block_length) ctx bytes
      else if leb freespace (length bytes)
      then complete_blocks (length (drop freespace bytes) / h.block_length)
          (process (store ctx used (take freespace bytes))) (drop freespace bytes)
      else store ctx used bytes

  -- memzero from an offset on.
  unfoldable pub zero_fill : Context → ℕ → ℕ → Context
  zero_fill ctx from upto = record ctx {
    buffer = overwrite ctx.buffer from (replicate (upto - from) 0);
  }

  -- The last transform: the words of the short block, then the bit count.
  unfoldable pub last_transform : Context → List ℕ
  last_transform ctx =
      h.transform ctx.state (take 14 (h.words ctx.buffer) ++ h.count_words ctx.bitcount)

  -- The padding of a buffer of which `used` bytes are in use.
  unfoldable pub pad_and_transform : Context → ℕ → List ℕ
  unfolding process zero_fill last_transform
  pad_and_transform ctx used =
      let marked = record ctx { buffer = overwrite ctx.buffer used (0x80 ∷ []) } in
      if ltb h.short_block_length (used + 1)
      then last_transform
          (zero_fill (process (zero_fill marked (used + 1) h.block_length)) 0 h.short_block_length)
      else last_transform (zero_fill marked (used + 1) h.short_block_length)

  unfoldable pub final : Context → List ℕ
  unfolding pad_and_transform
  final ctx = h.digest (pad_and_transform ctx (h.usedspace ctx.bitcount))

  unfoldable pub raw : List ℕ → List ℕ
  raw bytes = final (update init bytes)
