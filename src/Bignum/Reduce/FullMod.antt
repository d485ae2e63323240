-- ===== src/Bignum/Reduce/FullMod.antt =====
-- bn_mod in bignum.c.
use tronlink_i_os_core.Base.{
  ℕ, ◌-◌, ◌*◌, ◌%◌, ◌≤◌, ◌<◌, ◌≡◌, ap, ◌∙◌, sym, List, [], ◌∷◌, arith, All, IsU32, if◌then◌else◌,
  ltb, Bool, inl, inr, Bool-cases, ltb→lt,
}
use native.Mathlib.Nat.{mod-eq_of_lt, mod-eq-sub-mod}
use tronlink_i_os_core.Bignum.Number.{Bignum256, value, AreLimbs, IsNormalized, value-lt_nine}
use tronlink_i_os_core.Bignum.Sum.{bn_subtract}
use tronlink_i_os_core.Bignum.Sum.Value.{value-bn_subtract}
use tronlink_i_os_core.Bignum.Compare.{bn_is_less}
use tronlink_i_os_core.Bignum.Compare.Order.{bn_is_less_lem, bn_cmov_lem}
use tronlink_i_os_core.Bignum.Reduce.{bn_mod}

limbs_are_words : (xs : List ℕ) → AreLimbs xs → All IsU32 xs
limbs_are_words [] h = h
limbs_are_words (x ∷ xs) h = (omega arith, limbs_are_words xs h.1)

bn_mod_select :
    (x prime : Bignum256)
    → IsNormalized x
    → IsNormalized prime
    → bn_mod x prime ≡ (if ltb (value x) (value prime) then x else bn_subtract x prime)
unfolding bn_mod
bn_mod_select x prime hx hp =
    let (hs, eq) = value-bn_subtract x prime hx hp in
    bn_cmov_lem (bn_is_less x prime) x (bn_subtract x prime) (limbs_are_words _ hx.limbs)
      (limbs_are_words _ hs.limbs) (hx.nine ∙ sym hs.nine)
    ∙ ap (λ (b : Bool). if b then x else bn_subtract x prime) (bn_is_less_lem x prime hx hp)

-- bn_mod fully reduces a normalized number below twice a normalized modulus: its result is
-- normalized and the remainder by the modulus.
pub value-bn_mod :
    (x prime : Bignum256)
    → IsNormalized x
    → IsNormalized prime
    → value x < 2 * value prime
    → IsNormalized (bn_mod x prime) × (value (bn_mod x prime) ≡ value x % value prime)
value-bn_mod x prime hx hp partly =
    let (hs, eq) = value-bn_subtract x prime hx hp in
    rw (bn_mod_select x prime hx hp) (elim (Bool-cases (ltb (value x) (value prime))) [
      | inl less ↦ let lt = ltb→lt _ _ less in rw less (hx, sym (mod-eq_of_lt lt))
      | inr more ↦
          let le : value prime ≤ value x = ground arith in
          let diff : value (bn_subtract x prime) ≡ value x - value prime =
            omega (arith, value-lt_nine x hx) in
          let rest : value x - value prime < value prime = omega arith in
          rw more (hs, diff ∙ sym (mod-eq_of_lt rest) ∙ sym (mod-eq-sub-mod le))
    ])
