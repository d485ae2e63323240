-- ===== src/Rc4/Tests.antt =====
-- Runs of RC4 on a key of three bytes.
use tronlink_i_os_core.Base.{ℕ, List, [], ◌∷◌, ◌≡◌, arith, some, none, refl, length, All, IsByte}
use tronlink_i_os_core.Rc4.{Rc4Ctx, rc4_init, rc4_encrypt, schedule, count_up}
use tronlink_i_os_core.Rc4.State.{
  IsWellFormed, schedule-IsWellFormed, rc4_init-IsWellFormed, rc4_encrypt-IsWellFormed,
}
use tronlink_i_os_core.Rc4.Stream.{rc4_encrypt-rc4_encrypt}

-- "Key"
abbrev key : List ℕ
key = b'K' ∷ b'e' ∷ b'y' ∷ []

-- "Plain"
abbrev text : List ℕ
text = b'P' ∷ b'l' ∷ b'a' ∷ b'i' ∷ b'n' ∷ []

rc4_init-IsWellFormed_example : (ctx : Rc4Ctx) × (rc4_init key ≡ some ctx) × IsWellFormed ctx
rc4_init-IsWellFormed_example = rc4_init-IsWellFormed key (omega arith)

abbrev ctx : Rc4Ctx
ctx = record { s = schedule key 256 0 0 (count_up 0 256); i = 0; j = 0 }

context_of_key : rc4_init key ≡ some ctx
unfolding rc4_init
context_of_key = refl

empty_key : rc4_init [] ≡ none
unfolding rc4_init
empty_key = refl

rc4_encrypt-IsWellFormed_example :
    IsWellFormed (rc4_encrypt ctx text).0
    × All IsByte (rc4_encrypt ctx text).1
    × (length (rc4_encrypt ctx text).1 ≡ length text)
rc4_encrypt-IsWellFormed_example =
    rc4_encrypt-IsWellFormed ctx text (schedule-IsWellFormed key) (omega arith)

rc4_encrypt-rc4_encrypt_example :
    rc4_encrypt ctx (rc4_encrypt ctx text).1 ≡ ((rc4_encrypt ctx text).0, text)
rc4_encrypt-rc4_encrypt_example = rc4_encrypt-rc4_encrypt ctx text
