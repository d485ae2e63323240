-- ===== src/Pbkdf2/Instances.antt =====
-- pbkdf2.c for HMAC-SHA-256 and for HMAC-SHA-512.
use tronlink_i_os_core.Base.{
  ℕ, ◌+◌, ◌/◌, ◌^◌, ◌<◌, ◌≡◌, refl, ◌∙◌, sym, List, ◌++◌, arith, length, take, u32, u64, All,
  IsByte,
}
use tronlink_i_os_core.BlockHash.Padded.{padding}
use tronlink_i_os_core.Sha2.Words.{words32, words64, pair_words, words32-append, words64-append}
use tronlink_i_os_core.Sha2.Xor.{
  IsWord32, IsWord64, length-xor_words, xor_words-lt, digest32-xor_words, digest64-xor_words,
  words32-digest32, words64-digest64,
}
use tronlink_i_os_core.Sha2.Registers.{add_state-All}
use tronlink_i_os_core.Sha2.Sha256.{sha256, sha256_transform, sha256_laws}
use tronlink_i_os_core.Sha2.Sha512.{sha512, sha512_transform, sha512_laws}
use tronlink_i_os_core.Hmac.Instances.{
  sha256_hmac_laws, sha256-IsPad, sha512_hmac_laws, sha512-IsPad,
}
use tronlink_i_os_core.Pbkdf2.{
  hmac_sha256_prf, hmac_sha512_prf, pbkdf2_hmac_sha256, pbkdf2_hmac_sha512,
}
use tronlink_i_os_core.Pbkdf2.Reference.{IsPrf, blocks_reference, g_words}
use tronlink_i_os_core.Pbkdf2.Blocks.{pbkdf2_lem}

abbrev IsState32 : List ℕ → Type 0
IsState32 s = (length s ≡ 8) × All IsWord32 s

sha256_transform-IsState32 : (state words : List ℕ) → IsState32 (sha256_transform state words)
unfolding sha256_transform
sha256_transform-IsState32 state words =
    (refl, add_state-All u32 IsWord32 (λ x. omega arith) state _)

sha256_words_padded :
    (bytes : List ℕ)
    → length bytes ≡ 32
    → words32 (bytes ++ padding sha256 sha256_laws (64 + 32))
      ≡ words32 bytes ++ g_words hmac_sha256_prf
unfolding words32 sha256_laws
sha256_words_padded bytes h = (words32-append 8 bytes (padding sha256 sha256_laws (64 + 32)) h).0

pub hmac_sha256_prf_laws : IsPrf hmac_sha256_prf sha256_laws sha256_hmac_laws
unfolding sha256_laws sha256_hmac_laws
hmac_sha256_prf_laws = record {
  IsState = IsState32;
  pad = sha256-IsPad;
  block_counted = refl;
  same_length = refl;
  digest_pos = omega arith;
  digest_short = omega arith;
  transform-IsState = sha256_transform-IsState32;
  length-state = λ s h. h.0;
  words-digest = λ s h. words32-digest32 s h.1;
  words_padded = sha256_words_padded;
  xor-IsState = λ s t h k. (length-xor_words s t ∙ h.0, xor_words-lt 32 s t h.1 k.1);
  digest-xor = λ s t h k. digest32-xor_words s t (h.0 ∙ sym k.0) h.1 k.1;
}

abbrev IsState64 : List ℕ → Type 0
IsState64 s = (length s ≡ 8) × All IsWord64 s

sha512_transform-IsState64 : (state words : List ℕ) → IsState64 (sha512_transform state words)
unfolding sha512_transform
sha512_transform-IsState64 state words =
    (refl, add_state-All u64 IsWord64 (λ x. omega arith) state _)

sha512_words_padded :
    (bytes : List ℕ)
    → length bytes ≡ 64
    → words64 (bytes ++ padding sha512 sha512_laws (128 + 64))
      ≡ words64 bytes ++ g_words hmac_sha512_prf
unfolding words64 words32 pair_words sha512_laws
sha512_words_padded bytes h = (words64-append 8 bytes (padding sha512 sha512_laws (128 + 64)) h).0

pub hmac_sha512_prf_laws : IsPrf hmac_sha512_prf sha512_laws sha512_hmac_laws
unfolding sha512_laws sha512_hmac_laws
hmac_sha512_prf_laws = record {
  IsState = IsState64;
  pad = sha512-IsPad;
  block_counted = (omega arith, omega arith, refl);
  same_length = refl;
  digest_pos = omega arith;
  digest_short = omega arith;
  transform-IsState = sha512_transform-IsState64;
  length-state = λ s h. h.0;
  words-digest = λ s h. words64-digest64 s h.1;
  words_padded = sha512_words_padded;
  xor-IsState = λ s t h k. (length-xor_words s t ∙ h.0, xor_words-lt 64 s t h.1 k.1);
  digest-xor = λ s t h k. digest64-xor_words s t (h.0 ∙ sym k.0) h.1 k.1;
}

module _ (pass : List ℕ) (small : length pass < 2 ^ 32) (bytes : All IsByte pass)
    (buffer : ℕ → List ℕ) (salt : List ℕ) (len : length salt < 2 ^ 61) (iterations keylen : ℕ) where
  -- pbkdf2_hmac_sha256 gives the key of RFC 2898, the blocks T_1, T_2 and so on cut to the length
  -- of the key, where T_i is the xor of U_1 = HMAC (password, salt and the four bytes of i) and
  -- of the further U_j = HMAC (password, U_(j-1)); for a password of less than 2 ^ 32 bytes and a
  -- salt of less than 2 ^ 61, and whatever the local buffers, which are not set, hold. No
  -- iterations are as one.
  pub pbkdf2_hmac_sha256_lem :
      ((i : ℕ) → length (buffer i) ≡ 64)
      → pbkdf2_hmac_sha256 buffer pass salt iterations keylen
        ≡ take keylen
            (blocks_reference sha256 sha256_laws pass salt iterations ((keylen + 31) / 32) 1)
  unfolding pbkdf2_hmac_sha256
  pbkdf2_hmac_sha256_lem full =
      pbkdf2_lem hmac_sha256_prf sha256_laws sha256_hmac_laws hmac_sha256_prf_laws pass small bytes
        buffer full salt len iterations keylen

  -- pbkdf2_hmac_sha512 gives the key of RFC 2898, the blocks T_1, T_2 and so on cut to the length
  -- of the key, where T_i is the xor of U_1 = HMAC (password, salt and the four bytes of i) and
  -- of the further U_j = HMAC (password, U_(j-1)); for a password of less than 2 ^ 32 bytes and a
  -- salt of less than 2 ^ 61, and whatever the local buffers, which are not set, hold. No
  -- iterations are as one.
  pub pbkdf2_hmac_sha512_lem :
      ((i : ℕ) → length (buffer i) ≡ 128)
      → pbkdf2_hmac_sha512 buffer pass salt iterations keylen
        ≡ take keylen
            (blocks_reference sha512 sha512_laws pass salt iterations ((keylen + 63) / 64) 1)
  unfolding pbkdf2_hmac_sha512
  pbkdf2_hmac_sha512_lem full =
      pbkdf2_lem hmac_sha512_prf sha512_laws sha512_hmac_laws hmac_sha512_prf_laws pass small bytes
        buffer full salt len iterations keylen
