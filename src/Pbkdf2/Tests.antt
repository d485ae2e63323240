-- ===== src/Pbkdf2/Tests.antt =====
-- Runs of pbkdf2.c on a short password.
use tronlink_i_os_core.Base.{
  ℕ, ◌≤◌, ◌+◌, List, [], ◌∷◌, ◌≡◌, ◌/◌, arith, take, All, IsByte, replicate, length-replicate,
}
use tronlink_i_os_core.Sha2.Sha256.{sha256, sha256_laws}
use tronlink_i_os_core.Sha2.Sha512.{sha512, sha512_laws}
use tronlink_i_os_core.Pbkdf2.{
  Pbkdf2Context, hmac_sha256_prf, pbkdf2_init, pbkdf2_update, pbkdf2_hmac_sha256,
  pbkdf2_hmac_sha512,
}
use tronlink_i_os_core.Pbkdf2.Reference.{blocks_reference}
use tronlink_i_os_core.Pbkdf2.Blocks.{pbkdf2_update-pbkdf2_update}
use tronlink_i_os_core.Pbkdf2.Instances.{pbkdf2_hmac_sha256_lem, pbkdf2_hmac_sha512_lem}

-- "password"
abbrev pass : List ℕ
pass = b'p' ∷ b'a' ∷ b's' ∷ b's' ∷ b'w' ∷ b'o' ∷ b'r' ∷ b'd' ∷ []

pass-IsByte : All IsByte pass
pass-IsByte = (
  omega arith,
  (
    omega arith,
    (omega arith, (omega arith, (omega arith, (omega arith, (omega arith, (omega arith, tt)))))),
  ),
)

-- "salt"
abbrev salt : List ℕ
salt = b's' ∷ b'a' ∷ b'l' ∷ b't' ∷ []

-- The buffers hold what an earlier call has left.
abbrev left_over : ℕ → ℕ → List ℕ
left_over n i = replicate n (0xa5 + i)

pbkdf2_hmac_sha256_lem_example :
    pbkdf2_hmac_sha256 (left_over 64) pass salt 2 40
    ≡ take 40 (blocks_reference sha256 sha256_laws pass salt 2 ((40 + 31) / 32) 1)
pbkdf2_hmac_sha256_lem_example =
    pbkdf2_hmac_sha256_lem pass (omega arith) pass-IsByte (left_over 64) salt (omega arith) 2 40
      (λ i. length-replicate 64 (0xa5 + i))

pbkdf2_hmac_sha512_lem_example :
    pbkdf2_hmac_sha512 (left_over 128) pass salt 2048 64
    ≡ take 64 (blocks_reference sha512 sha512_laws pass salt 2048 ((64 + 63) / 64) 1)
pbkdf2_hmac_sha512_lem_example =
    pbkdf2_hmac_sha512_lem pass (omega arith) pass-IsByte (left_over 128) salt (omega arith) 2048 64
      (λ i. length-replicate 128 (0xa5 + i))

abbrev begun : Pbkdf2Context
begun = pbkdf2_init hmac_sha256_prf (left_over 64 0) pass salt 1

begun-first : begun.first ≤ 3
unfolding pbkdf2_init
begun-first = omega arith

pbkdf2_update-pbkdf2_update_example :
    pbkdf2_update hmac_sha256_prf (pbkdf2_update hmac_sha256_prf begun 3) 4
    ≡ pbkdf2_update hmac_sha256_prf begun 7
pbkdf2_update-pbkdf2_update_example =
    pbkdf2_update-pbkdf2_update hmac_sha256_prf begun 3 4 begun-first
