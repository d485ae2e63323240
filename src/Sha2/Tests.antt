-- ===== src/Sha2/Tests.antt =====
-- Runs of the hashes of sha2.c on a message that is fed in two pieces.
use tronlink_i_os_core.Base.{ℕ, List, [], ◌∷◌, ◌++◌, ◌≡◌, arith, refl, replicate}
use tronlink_i_os_core.BlockHash.{BlockHash, Context, init, update, final}
use tronlink_i_os_core.BlockHash.Padded.{reference}
use tronlink_i_os_core.BlockHash.Feed.{Run, start, feed, IsFed, Run-IsFed}
use tronlink_i_os_core.Sha2.Words.{words32, words64, digest32, digest64}
use tronlink_i_os_core.Sha2.Count.{
  add_bytes64, usedspace64, count_words64, add_bytes128, usedspace128, count_words128,
}
use tronlink_i_os_core.Sha2.Registers.{load_state, add_state}
use tronlink_i_os_core.Sha2.Compress.{plain_rounds, extension}
use tronlink_i_os_core.Sha2.Sha1.{
  sha1, sha1_final, sha1_laws, sha1_final-Run, sha1_raw, sha1_transform, sha1_initial_hash_value,
  add_variables, load_variables, fips_round, expand1, sha1_transform_lem,
}
use tronlink_i_os_core.Sha2.Sha256.{
  sha256, sha256_final, sha256_laws, sha256_final-Run, sha256_transform, sha256_initial_hash_value,
  round256, expand256, sha256_transform_lem, sha256_raw,
}
use tronlink_i_os_core.Sha2.Sha512.{
  sha512, sha512_final, sha512_laws, sha512_final-Run, sha512_raw, sha512_transform,
  sha512_initial_hash_value, round512, expand512, sha512_transform_lem,
}
use tronlink_i_os_core.Base.{u32, u64}

-- "abc"
abbrev text : List ℕ
text = b'a' ∷ b'b' ∷ b'c' ∷ []

abbrev padded_text : List ℕ
padded_text = 0x61626380 ∷ replicate 14 0 ++ (24 ∷ [])

abbrev fed : (h : BlockHash) → Context h
fed h = update h (update h (init h) text) text

fed-Run : (h : BlockHash) → Run h (fed h) (text ++ text)
fed-Run h = feed text (omega arith) (feed text (omega arith) start)

sha1_final-Run_example : sha1_final (fed sha1) ≡ reference sha1 sha1_laws (text ++ text)
sha1_final-Run_example = sha1_final-Run (fed-Run sha1)

sha256_final-Run_example : sha256_final (fed sha256) ≡ reference sha256 sha256_laws (text ++ text)
sha256_final-Run_example = sha256_final-Run (fed-Run sha256)

sha512_final-Run_example : sha512_final (fed sha512) ≡ reference sha512 sha512_laws (text ++ text)
sha512_final-Run_example = sha512_final-Run (fed-Run sha512)

Run-IsFed_example : (tail : List ℕ) × IsFed sha256 sha256_laws (fed sha256) (text ++ text) tail
Run-IsFed_example = Run-IsFed sha256 sha256_laws (fed-Run sha256)

sha1_transform_lem_example :
    sha1_transform sha1_initial_hash_value padded_text
    ≡ add_variables sha1_initial_hash_value (
        plain_rounds fips_round 0
          (padded_text ++ extension expand1 64 padded_text)
          (load_variables sha1_initial_hash_value))
sha1_transform_lem_example = sha1_transform_lem sha1_initial_hash_value padded_text refl

sha256_transform_lem_example :
    sha256_transform sha256_initial_hash_value padded_text
    ≡ add_state u32 sha256_initial_hash_value (
        plain_rounds round256 0
          (padded_text ++ extension expand256 48 padded_text)
          (load_state sha256_initial_hash_value))
sha256_transform_lem_example = sha256_transform_lem sha256_initial_hash_value padded_text refl

sha512_transform_lem_example :
    sha512_transform sha512_initial_hash_value padded_text
    ≡ add_state u64 sha512_initial_hash_value (
        plain_rounds round512 0
          (padded_text ++ extension expand512 64 padded_text)
          (load_state sha512_initial_hash_value))
sha512_transform_lem_example = sha512_transform_lem sha512_initial_hash_value padded_text refl

-- The digest of "abc" that FIPS 180 gives.
sha1_abc :
    sha1_raw text
    ≡ 0xa9 ∷ 0x99 ∷ 0x3e ∷ 0x36 ∷ 0x47 ∷ 0x6 ∷ 0x81 ∷ 0x6a ∷ 0xba ∷ 0x3e ∷ 0x25 ∷ 0x71 ∷ 0x78 ∷ 0x50
      ∷ 0xc2 ∷ 0x6c ∷ 0x9c ∷ 0xd0 ∷ 0xd8 ∷ 0x9d ∷ []
unfolding sha1_raw init update final usedspace64 add_bytes64 count_words64 words32 digest32
    sha1_transform
sha1_abc = refl

-- The digest of "abc" that FIPS 180 gives.
sha256_abc :
    sha256_raw text
    ≡ 0xba ∷ 0x78 ∷ 0x16 ∷ 0xbf ∷ 0x8f ∷ 0x1 ∷ 0xcf ∷ 0xea ∷ 0x41 ∷ 0x41 ∷ 0x40 ∷ 0xde ∷ 0x5d ∷ 0xae
      ∷ 0x22 ∷ 0x23 ∷ 0xb0 ∷ 0x3 ∷ 0x61 ∷ 0xa3 ∷ 0x96 ∷ 0x17 ∷ 0x7a ∷ 0x9c ∷ 0xb4 ∷ 0x10 ∷ 0xff
      ∷ 0x61 ∷ 0xf2 ∷ 0x0 ∷ 0x15 ∷ 0xad ∷ []
unfolding sha256_raw init update final usedspace64 add_bytes64 count_words64 words32 digest32
    sha256_transform
sha256_abc = refl

-- The digest of "abc" that FIPS 180 gives.
sha512_abc :
    sha512_raw text
    ≡ 0xdd ∷ 0xaf ∷ 0x35 ∷ 0xa1 ∷ 0x93 ∷ 0x61 ∷ 0x7a ∷ 0xba ∷ 0xcc ∷ 0x41 ∷ 0x73 ∷ 0x49 ∷ 0xae
      ∷ 0x20 ∷ 0x41 ∷ 0x31 ∷ 0x12 ∷ 0xe6 ∷ 0xfa ∷ 0x4e ∷ 0x89 ∷ 0xa9 ∷ 0x7e ∷ 0xa2 ∷ 0xa ∷ 0x9e
      ∷ 0xee ∷ 0xe6 ∷ 0x4b ∷ 0x55 ∷ 0xd3 ∷ 0x9a ∷ 0x21 ∷ 0x92 ∷ 0x99 ∷ 0x2a ∷ 0x27 ∷ 0x4f ∷ 0xc1
      ∷ 0xa8 ∷ 0x36 ∷ 0xba ∷ 0x3c ∷ 0x23 ∷ 0xa3 ∷ 0xfe ∷ 0xeb ∷ 0xbd ∷ 0x45 ∷ 0x4d ∷ 0x44 ∷ 0x23
      ∷ 0x64 ∷ 0x3c ∷ 0xe8 ∷ 0xe ∷ 0x2a ∷ 0x9a ∷ 0xc9 ∷ 0x4f ∷ 0xa5 ∷ 0x4c ∷ 0xa4 ∷ 0x9f ∷ []
unfolding sha512_raw init update final usedspace128 add_bytes128 count_words128 words64 digest64
    sha512_transform
sha512_abc = refl
