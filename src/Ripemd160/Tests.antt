-- ===== src/Ripemd160/Tests.antt =====
-- Runs of ripemd160.c.
use tronlink_i_os_core.Base.{ℕ, List, [], ◌∷◌, ◌++◌, ◌≡◌, arith, refl}
use tronlink_i_os_core.Ripemd160.{
  RipemdContext, ripemd160, ripemd160_init, ripemd160_update, ripemd160_final,
}
use tronlink_i_os_core.Ripemd160.Update.{fresh, fed}
use tronlink_i_os_core.Ripemd160.Finish.{ripemd160_reference, ripemd160_final-RipemdRun}

-- "abc"
abbrev text : List ℕ
text = b'a' ∷ b'b' ∷ b'c' ∷ []

-- The digest of "abc" that the authors of RIPEMD-160 give.
ripemd160_abc :
    ripemd160 text
    ≡ 0x8e ∷ 0xb2 ∷ 0x8 ∷ 0xf7 ∷ 0xe0 ∷ 0x5d ∷ 0x98 ∷ 0x7a ∷ 0x9b ∷ 0x4 ∷ 0x4a ∷ 0x8e ∷ 0x98 ∷ 0xc6
      ∷ 0xb0 ∷ 0x87 ∷ 0xf1 ∷ 0x5a ∷ 0xb ∷ 0xfc ∷ []
unfolding ripemd160
ripemd160_abc = refl

abbrev twice : RipemdContext
twice = ripemd160_update (ripemd160_update ripemd160_init text) text

ripemd160_final-RipemdRun_example : ripemd160_final twice ≡ ripemd160_reference (text ++ text)
ripemd160_final-RipemdRun_example =
    ripemd160_final-RipemdRun (fed text (omega arith) (fed text (omega arith) fresh))
