-- ===== src/Hmac.antt =====
-- hmac.c: HMAC with SHA-256 and with SHA-512. The two have the same text but for the names, the
-- lengths and the width of the words, so that the functions are those of a hash of BlockHash.antt.
pub mod Reference
pub mod Prepare
pub mod Instances
mod Tests
use tronlink_i_os_core.Base.{ℕ, ◌<◌, List, map, bit_xor, ltb, if◌then◌else◌, length, replicate}
use tronlink_i_os_core.BlockHash.{BlockHash, Context, overwrite, init, update, final, raw}
use tronlink_i_os_core.Sha2.Sha256.{sha256}
use tronlink_i_os_core.Sha2.Sha512.{sha512}

-- The xor of each element with a constant, which the loops over the pads compute.
abbrev pub xor_with : ℕ → List ℕ → List ℕ
xor_with c xs = map (λ (x : ℕ). bit_xor x c) xs

module _ (h : BlockHash) where
  pub record HmacContext : Type 0 where
    pub o_key_pad : List ℕ
    pub ctx : Context h

  -- The block of the key, before it becomes a pad.
  unfoldable pub key_block : List ℕ → List ℕ
  key_block key =
      overwrite (replicate h.block_length 0) 0
        (if ltb h.block_length (length key) then raw h key else key)

  unfoldable pub hmac_init : List ℕ → HmacContext
  unfolding key_block
  hmac_init key = record {
    o_key_pad = xor_with 0x5c (key_block key);
    ctx = update h (init h) (xor_with 0x36 (key_block key));
  }

  unfoldable pub hmac_update : HmacContext → List ℕ → HmacContext
  hmac_update hctx msg = record hctx { ctx = update h hctx.ctx msg }

  unfoldable pub hmac_final : HmacContext → List ℕ
  hmac_final hctx =
      let digest = final h hctx.ctx in final h (update h (update h (init h) hctx.o_key_pad) digest)

  unfoldable pub hmac : List ℕ → List ℕ → List ℕ
  unfolding hmac_init hmac_update hmac_final
  hmac key msg = hmac_final (hmac_update (hmac_init key) msg)

  -- The transforms of the two pads; the constants fill a word of the hash.
  unfoldable pub hmac_prepare : ℕ → ℕ → List ℕ → List ℕ × List ℕ
  unfolding key_block
  hmac_prepare o_word i_word key =
      let o_pad = xor_with o_word (h.words (key_block key)) in
      let i_pad = map (λ (x : ℕ). bit_xor (bit_xor x o_word) i_word) o_pad in
      (h.transform h.initial o_pad, h.transform h.initial i_pad)

unfoldable pub hmac_sha256_init : List ℕ → HmacContext sha256
hmac_sha256_init = hmac_init sha256

unfoldable pub hmac_sha256_update : HmacContext sha256 → List ℕ → HmacContext sha256
hmac_sha256_update = hmac_update sha256

unfoldable pub hmac_sha256_final : HmacContext sha256 → List ℕ
hmac_sha256_final = hmac_final sha256

unfoldable pub hmac_sha256 : List ℕ → List ℕ → List ℕ
hmac_sha256 = hmac sha256

unfoldable pub hmac_sha256_prepare : List ℕ → List ℕ × List ℕ
hmac_sha256_prepare = hmac_prepare sha256 0x5c5c5c5c 0x36363636

unfoldable pub hmac_sha512_init : List ℕ → HmacContext sha512
hmac_sha512_init = hmac_init sha512

unfoldable pub hmac_sha512_update : HmacContext sha512 → List ℕ → HmacContext sha512
hmac_sha512_update = hmac_update sha512

unfoldable pub hmac_sha512_final : HmacContext sha512 → List ℕ
hmac_sha512_final = hmac_final sha512

unfoldable pub hmac_sha512 : List ℕ → List ℕ → List ℕ
hmac_sha512 = hmac sha512

unfoldable pub hmac_sha512_prepare : List ℕ → List ℕ × List ℕ
hmac_sha512_prepare = hmac_prepare sha512 0x5c5c5c5c5c5c5c5c 0x3636363636363636
