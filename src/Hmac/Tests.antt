-- ===== src/Hmac/Tests.antt =====
-- Runs of hmac.c on a short key.
use tronlink_i_os_core.Base.{ℕ, List, [], ◌∷◌, ◌++◌, ◌≡◌, arith, refl, All, IsByte}
use tronlink_i_os_core.BlockHash.{update, init, final}
use tronlink_i_os_core.Sha2.Words.{words32, digest32}
use tronlink_i_os_core.Sha2.Count.{add_bytes64, usedspace64, count_words64}
use tronlink_i_os_core.Sha2.Sha256.{
  sha256, sha256_init, sha256_update, sha256_laws, sha256_transform,
}
use tronlink_i_os_core.Sha2.Sha512.{sha512, sha512_init, sha512_update, sha512_laws}
use tronlink_i_os_core.Hmac.{
  HmacContext, hmac_init, hmac_update, hmac, hmac_sha256, hmac_sha256_init, hmac_sha256_final,
  hmac_sha256_prepare, hmac_sha512_init, hmac_sha512_final, hmac_sha512_prepare,
}
use tronlink_i_os_core.Hmac.Reference.{HmacRun, keyed, more, hmac_reference}
use tronlink_i_os_core.Hmac.Instances.{
  hmac_sha256_final-HmacRun, hmac_sha512_final-HmacRun, hmac_sha256_prepare_lem,
  hmac_sha512_prepare_lem,
}

-- "Jefe"
abbrev key : List ℕ
key = b'J' ∷ b'e' ∷ b'f' ∷ b'e' ∷ []

-- "what do ya want for nothing?"
abbrev first_part : List ℕ
first_part = b'w' ∷ b'h' ∷ b'a' ∷ b't' ∷ b' ' ∷ b'd' ∷ b'o' ∷ b' ' ∷ b'y' ∷ b'a' ∷ b' ' ∷ []

abbrev second_part : List ℕ
second_part =
    b'w' ∷ b'a' ∷ b'n' ∷ b't' ∷ b' ' ∷ b'f' ∷ b'o' ∷ b'r' ∷ b' ' ∷ b'n' ∷ b'o' ∷ b't' ∷ b'h' ∷ b'i'
    ∷ b'n' ∷ b'g' ∷ b'?' ∷ []

key-IsByte : All IsByte key
key-IsByte = (omega arith, (omega arith, (omega arith, (omega arith, tt))))

abbrev fed256 : HmacContext sha256
fed256 = hmac_update sha256 (hmac_update sha256 (hmac_init sha256 key) first_part) second_part

abbrev fed512 : HmacContext sha512
fed512 = hmac_update sha512 (hmac_update sha512 (hmac_init sha512 key) first_part) second_part

fed256-HmacRun : HmacRun sha256 sha256_laws key fed256 (first_part ++ second_part)
fed256-HmacRun = more second_part (omega arith) (more first_part (omega arith) keyed)

fed512-HmacRun : HmacRun sha512 sha512_laws key fed512 (first_part ++ second_part)
fed512-HmacRun = more second_part (omega arith) (more first_part (omega arith) keyed)

hmac_sha256_final-HmacRun_example :
    hmac_sha256_final fed256 ≡ hmac_reference sha256 sha256_laws key (first_part ++ second_part)
hmac_sha256_final-HmacRun_example = hmac_sha256_final-HmacRun key (omega arith) fed256-HmacRun

hmac_sha512_final-HmacRun_example :
    hmac_sha512_final fed512 ≡ hmac_reference sha512 sha512_laws key (first_part ++ second_part)
hmac_sha512_final-HmacRun_example = hmac_sha512_final-HmacRun key (omega arith) fed512-HmacRun

hmac_sha256_prepare_lem_example : hmac_sha256_prepare key ≡ (
  (sha256_update sha256_init (hmac_sha256_init key).o_key_pad).state,
  (hmac_sha256_init key).ctx.state,
)
hmac_sha256_prepare_lem_example = hmac_sha256_prepare_lem key (omega arith) key-IsByte

hmac_sha512_prepare_lem_example : hmac_sha512_prepare key ≡ (
  (sha512_update sha512_init (hmac_sha512_init key).o_key_pad).state,
  (hmac_sha512_init key).ctx.state,
)
hmac_sha512_prepare_lem_example = hmac_sha512_prepare_lem key (omega arith) key-IsByte

-- The second test case of RFC 4231.
hmac_sha256_jefe :
    hmac_sha256 key (first_part ++ second_part)
    ≡ 0x5b ∷ 0xdc ∷ 0xc1 ∷ 0x46 ∷ 0xbf ∷ 0x60 ∷ 0x75 ∷ 0x4e ∷ 0x6a ∷ 0x4 ∷ 0x24 ∷ 0x26 ∷ 0x8 ∷ 0x95
      ∷ 0x75 ∷ 0xc7 ∷ 0x5a ∷ 0x0 ∷ 0x3f ∷ 0x8 ∷ 0x9d ∷ 0x27 ∷ 0x39 ∷ 0x83 ∷ 0x9d ∷ 0xec ∷ 0x58
      ∷ 0xb9 ∷ 0x64 ∷ 0xec ∷ 0x38 ∷ 0x43 ∷ []
unfolding hmac_sha256 hmac init update final usedspace64 add_bytes64 count_words64 words32 digest32
    sha256_transform
hmac_sha256_jefe = refl
