-- ===== src/Hmac/Instances.antt =====
-- hmac.c for SHA-256 and for SHA-512.
use tronlink_i_os_core.Base.{ℕ, ◌^◌, ◌<◌, ◌≡◌, List, arith, length, All, IsByte}
use tronlink_i_os_core.Sha2.Xor.{words32-xor, words64-xor}
use tronlink_i_os_core.Sha2.Digest.{IsDigest, digest32-IsDigest, digest64-IsDigest}
use tronlink_i_os_core.Sha2.Sha256.{
  sha256, sha256_init, sha256_update, sha256_transform, sha256_laws,
}
use tronlink_i_os_core.Sha2.Sha512.{
  sha512, sha512_init, sha512_update, sha512_transform, sha512_laws,
}
use tronlink_i_os_core.Hmac.{
  HmacContext, hmac_sha256_init, hmac_sha256_final, hmac_sha256_prepare, hmac_sha512_init,
  hmac_sha512_final, hmac_sha512_prepare,
}
use tronlink_i_os_core.Hmac.Reference.{IsHmacHash, HmacRun, hmac_reference, hmac_final-HmacRun}
use tronlink_i_os_core.Hmac.Prepare.{IsPad, hmac_prepare-hmac_init}

pub sha256_digest-IsDigest :
    (state words : List ℕ) → IsDigest 32 (sha256.digest (sha256.transform state words))
unfolding sha256_transform
sha256_digest-IsDigest state words = digest32-IsDigest (sha256_transform state words)

unfoldable pub sha256_hmac_laws : IsHmacHash sha256 sha256_laws
sha256_hmac_laws = record {
  digest_length = 32;
  digest_fits = omega arith;
  block_small = omega arith;
  length-digest = λ state words. (sha256_digest-IsDigest state words).0;
  digest-IsByte = λ state words. (sha256_digest-IsDigest state words).1;
}

pub sha256-IsPad : IsPad sha256 0x5c5c5c5c 0x36363636
sha256-IsPad = record {
  o_xor = λ bytes h. words32-xor 0x5c bytes (omega arith) h;
  i_xor = λ bytes h. words32-xor 0x36 bytes (omega arith) h;
}

pub sha512_digest-IsDigest :
    (state words : List ℕ) → IsDigest 64 (sha512.digest (sha512.transform state words))
unfolding sha512_transform
sha512_digest-IsDigest state words = digest64-IsDigest (sha512_transform state words)

unfoldable pub sha512_hmac_laws : IsHmacHash sha512 sha512_laws
sha512_hmac_laws = record {
  digest_length = 64;
  digest_fits = omega arith;
  block_small = omega arith;
  length-digest = λ state words. (sha512_digest-IsDigest state words).0;
  digest-IsByte = λ state words. (sha512_digest-IsDigest state words).1;
}

pub sha512-IsPad : IsPad sha512 0x5c5c5c5c5c5c5c5c 0x3636363636363636
sha512-IsPad = record {
  o_xor = λ bytes h. words64-xor 0x5c bytes (omega arith) h;
  i_xor = λ bytes h. words64-xor 0x36 bytes (omega arith) h;
}

module _ (key : List ℕ) (small : length key < 2 ^ 32) where
  -- Whatever the calls of hmac_sha256_Update that lead from hmac_sha256_Init with a key to a
  -- context, hmac_sha256_Final gives the code of RFC 2104 of the key and the whole message; for a
  -- key and pieces of less than 2 ^ 32 bytes each, as the types of their lengths say.
  pub hmac_sha256_final-HmacRun :
      {hctx : HmacContext sha256} {message : List ℕ}
      → HmacRun sha256 sha256_laws key hctx message
      → hmac_sha256_final hctx ≡ hmac_reference sha256 sha256_laws key message
  unfolding hmac_sha256_final
  hmac_sha256_final-HmacRun run =
      hmac_final-HmacRun sha256 sha256_laws sha256_hmac_laws key small run

  -- Whatever the calls of hmac_sha512_Update that lead from hmac_sha512_Init with a key to a
  -- context, hmac_sha512_Final gives the code of RFC 2104 of the key and the whole message; for a
  -- key and pieces of less than 2 ^ 32 bytes each, as the types of their lengths say.
  pub hmac_sha512_final-HmacRun :
      {hctx : HmacContext sha512} {message : List ℕ}
      → HmacRun sha512 sha512_laws key hctx message
      → hmac_sha512_final hctx ≡ hmac_reference sha512 sha512_laws key message
  unfolding hmac_sha512_final
  hmac_sha512_final-HmacRun run =
      hmac_final-HmacRun sha512 sha512_laws sha512_hmac_laws key small run

  -- For a key of less than 2 ^ 32 bytes, hmac_sha256_prepare computes the states of two contexts
  -- to which hmac_sha256_Init feeds the pads: that of one that o_key_pad is fed to, and that of
  -- the context it leaves.
  pub hmac_sha256_prepare_lem :
      All IsByte key
      → hmac_sha256_prepare key ≡ (
        (sha256_update sha256_init (hmac_sha256_init key).o_key_pad).state,
        (hmac_sha256_init key).ctx.state,
      )
  unfolding hmac_sha256_prepare sha256_update sha256_init hmac_sha256_init
  hmac_sha256_prepare_lem bytes =
      hmac_prepare-hmac_init sha256 sha256_laws sha256_hmac_laws 0x5c5c5c5c 0x36363636 sha256-IsPad
        key small bytes

  -- For a key of less than 2 ^ 32 bytes, hmac_sha512_prepare computes the states of two contexts
  -- to which hmac_sha512_Init feeds the pads: that of one that o_key_pad is fed to, and that of
  -- the context it leaves.
  pub hmac_sha512_prepare_lem :
      All IsByte key
      → hmac_sha512_prepare key ≡ (
        (sha512_update sha512_init (hmac_sha512_init key).o_key_pad).state,
        (hmac_sha512_init key).ctx.state,
      )
  unfolding hmac_sha512_prepare sha512_update sha512_init hmac_sha512_init
  hmac_sha512_prepare_lem bytes =
      hmac_prepare-hmac_init sha512 sha512_laws sha512_hmac_laws 0x5c5c5c5c5c5c5c5c
        0x3636363636363636 sha512-IsPad key small bytes
