-- ===== src/Pbkdf2.antt =====
-- pbkdf2.c: PBKDF2 with HMAC-SHA-256 and with HMAC-SHA-512, which have the same text but for the
-- names, the lengths and the width of the words.
pub mod Reference
pub mod Rounds
pub mod Key
pub mod Blocks
pub mod Instances
mod Tests
use tronlink_i_os_core.Base.{
  ℕ, zero, suc, ◌+◌, ◌-◌, ◌*◌, ◌/◌, ◌%◌, List, [], ◌∷◌, ◌++◌, take, set, replicate, ◌==◌,
  if◌then◌else◌,
}
use tronlink_i_os_core.BlockHash.{BlockHash, Context, overwrite, update, final}
use tronlink_i_os_core.Hmac.{hmac_prepare}
use tronlink_i_os_core.Sha2.Words.{bytes32}
use tronlink_i_os_core.Sha2.Xor.{xor_words}
use tronlink_i_os_core.Sha2.Sha256.{sha256}
use tronlink_i_os_core.Sha2.Sha512.{sha512}

-- What the functions of one hash use: the constants of its pads and of its words g[8] and g[15],
-- the counter of one block, and the length of a digest.
pub record Prf : Type 1 where
  pub hash : BlockHash
  pub o_word : ℕ
  pub i_word : ℕ
  pub top_bit : ℕ
  pub length_bits : ℕ
  pub block_count : hash.BitCount
  pub digest_length : ℕ

-- PBKDF2_HMAC_SHA256_CTX
pub record Pbkdf2Context : Type 0 where
  pub odig : List ℕ
  pub idig : List ℕ
  pub f : List ℕ
  pub g : List ℕ
  pub first : ℕ

module _ (q : Prf) where
  -- The bytes of blocknr after its reversal are its own, the most significant first. `buffer` is
  -- what the buffer of the local context holds, which the code does not set.
  unfoldable pub pbkdf2_init : List ℕ → List ℕ → List ℕ → ℕ → Pbkdf2Context
  unfolding hmac_prepare update final
  pbkdf2_init buffer pass salt blocknr =
      let (odig, idig) = hmac_prepare q.hash q.o_word q.i_word pass in
      let g = set (set (replicate 16 0) 8 q.top_bit) 15 q.length_bits in
      let ctx : Context q.hash = record {
        state = idig;
        bitcount = q.block_count;
        buffer = buffer;
      } in
      let digest = final q.hash (update q.hash (update q.hash ctx salt) (bytes32 blocknr)) in
      let g = overwrite g 0 (q.hash.words digest) in
      let g = overwrite g 0 (q.hash.transform odig g) in
      record { odig = odig; idig = idig; f = take 8 g; g = g; first = 1 }

  -- A round of the loop over the iterations.
  unfoldable pub pbkdf2_round : Pbkdf2Context → Pbkdf2Context
  unfolding xor_words
  pbkdf2_round pctx =
      let g = overwrite pctx.g 0 (q.hash.transform pctx.idig pctx.g) in
      let g = overwrite g 0 (q.hash.transform pctx.odig g) in
      record pctx { f = xor_words pctx.f g; g = g }

  unfoldable pub pbkdf2_rounds : ℕ → Pbkdf2Context → Pbkdf2Context
  unfolding pbkdf2_round
  pbkdf2_rounds zero pctx = pctx
  pbkdf2_rounds (suc n) pctx = pbkdf2_rounds n (pbkdf2_round pctx)

  unfoldable pub pbkdf2_update : Pbkdf2Context → ℕ → Pbkdf2Context
  unfolding pbkdf2_rounds
  pbkdf2_update pctx iterations = record (pbkdf2_rounds (iterations - pctx.first) pctx) {
    first = 0;
  }

  unfoldable pub pbkdf2_final : Pbkdf2Context → List ℕ
  pbkdf2_final pctx = q.hash.digest pctx.f

  -- The digest of a block of the key. `buffer` as above.
  unfoldable pub key_digest : List ℕ → List ℕ → List ℕ → ℕ → ℕ → List ℕ
  unfolding pbkdf2_init pbkdf2_update pbkdf2_final
  key_digest buffer pass salt iterations blocknr =
      pbkdf2_final (pbkdf2_update (pbkdf2_init buffer pass salt blocknr) iterations)

  -- The loop over the blocks from blocknr on, as many as the first argument says.
  unfoldable pub key_blocks : ℕ → (ℕ → List ℕ) → List ℕ → List ℕ → ℕ → ℕ → ℕ → List ℕ
  unfolding key_digest
  key_blocks zero buffer pass salt iterations last_block_size blocknr = []
  key_blocks (suc zero) buffer pass salt iterations last_block_size blocknr =
      take last_block_size (key_digest (buffer blocknr) pass salt iterations blocknr)
  key_blocks (suc (suc n)) buffer pass salt iterations last_block_size blocknr =
      key_digest (buffer blocknr) pass salt iterations blocknr
      ++ key_blocks (suc n) buffer pass salt iterations last_block_size (blocknr + 1)

  unfoldable pub pbkdf2 : (ℕ → List ℕ) → List ℕ → List ℕ → ℕ → ℕ → List ℕ
  unfolding key_blocks
  pbkdf2 buffer pass salt iterations keylen =
      let last_block_size = keylen % q.digest_length in
      let blocks_count = keylen / q.digest_length in
      if last_block_size == 0
      then key_blocks blocks_count buffer pass salt iterations q.digest_length 1
      else key_blocks (blocks_count + 1) buffer pass salt iterations last_block_size 1

abbrev pub hmac_sha256_prf : Prf
hmac_sha256_prf = record {
  hash = sha256;
  o_word = 0x5c5c5c5c;
  i_word = 0x36363636;
  top_bit = 0x80000000;
  length_bits = (64 + 32) * 8;
  block_count = 64 * 8;
  digest_length = 32;
}

abbrev pub hmac_sha512_prf : Prf
hmac_sha512_prf = record {
  hash = sha512;
  o_word = 0x5c5c5c5c5c5c5c5c;
  i_word = 0x3636363636363636;
  top_bit = 0x8000000000000000;
  length_bits = (128 + 64) * 8;
  block_count = (128 * 8, 0);
  digest_length = 64;
}

unfoldable pub pbkdf2_hmac_sha256_init : List ℕ → List ℕ → List ℕ → ℕ → Pbkdf2Context
pbkdf2_hmac_sha256_init = pbkdf2_init hmac_sha256_prf

unfoldable pub pbkdf2_hmac_sha256_update : Pbkdf2Context → ℕ → Pbkdf2Context
pbkdf2_hmac_sha256_update = pbkdf2_update hmac_sha256_prf

unfoldable pub pbkdf2_hmac_sha256_final : Pbkdf2Context → List ℕ
pbkdf2_hmac_sha256_final = pbkdf2_final hmac_sha256_prf

unfoldable pub pbkdf2_hmac_sha256 : (ℕ → List ℕ) → List ℕ → List ℕ → ℕ → ℕ → List ℕ
pbkdf2_hmac_sha256 = pbkdf2 hmac_sha256_prf

unfoldable pub pbkdf2_hmac_sha512_init : List ℕ → List ℕ → List ℕ → ℕ → Pbkdf2Context
pbkdf2_hmac_sha512_init = pbkdf2_init hmac_sha512_prf

unfoldable pub pbkdf2_hmac_sha512_update : Pbkdf2Context → ℕ → Pbkdf2Context
pbkdf2_hmac_sha512_update = pbkdf2_update hmac_sha512_prf

unfoldable pub pbkdf2_hmac_sha512_final : Pbkdf2Context → List ℕ
pbkdf2_hmac_sha512_final = pbkdf2_final hmac_sha512_prf

unfoldable pub pbkdf2_hmac_sha512 : (ℕ → List ℕ) → List ℕ → List ℕ → ℕ → ℕ → List ℕ
pbkdf2_hmac_sha512 = pbkdf2 hmac_sha512_prf
