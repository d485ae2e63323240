-- ===== src/Bignum/Reduce.antt =====
-- Reduction modulo a prime between 2 ^ 256 - 2 ^ 224 and 2 ^ 256 in bignum.c: bn_fast_mod, bn_mod,
-- bn_addmod and bn_mult_k.
pub mod Multiple
pub mod FastMod
pub mod FullMod
use tronlink_i_os_core.Base.{
  ℕ, zero, suc, ◌+◌, ◌-◌, ◌*◌, ◌/◌, ◌%◌, ◌^◌, ◌≤◌, ◌<◌, ◌≡◌, List, [], ◌∷◌, arith, map, u32, u64,
  ◌>>>◌, get_or,
}
use tronlink_i_os_core.Bignum.Number.{Bignum256, low_limb}
use tronlink_i_os_core.Bignum.Sum.{add_limbs, bn_subtract}
use tronlink_i_os_core.Bignum.Compare.{bn_is_less, bn_cmov}

-- `temp += 0x1FFFFFFF80000000ull + x->val[j] - prime->val[j] * (uint64_t)coef` after `temp >>= 30`,
-- from a limb up. Above the prime's last limb bn_multiply_reduce_step makes one more such step with
-- nothing to subtract; bn_fast_mod has no limb there.
pub subtract_multiple : ℕ → ℕ → List ℕ → Bignum256 → List ℕ
subtract_multiple coef temp [] prime = []
subtract_multiple coef temp (x ∷ xs) [] =
    low_limb (u64 ((temp >>> 30) + (0x1fffffff80000000 + x))) ∷ xs
subtract_multiple coef temp (x ∷ xs) (p ∷ ps) =
    let sum = u64 ((temp >>> 30) + u64 (0x1fffffff80000000 + x + 2 ^ 64 - u64 (p * coef))) in
    low_limb sum ∷ subtract_multiple coef sum xs ps

-- The first step of both is unrolled.
unfoldable pub subtract_coef_times : ℕ → List ℕ → Bignum256 → List ℕ
unfolding subtract_multiple
subtract_coef_times coef [] prime = []
subtract_coef_times coef (x ∷ xs) [] = x ∷ xs
subtract_coef_times coef (x ∷ xs) (p ∷ ps) =
    let temp = u64 (0x2000000000000000 + x + 2 ^ 64 - u64 (p * coef)) in
    low_limb temp ∷ subtract_multiple coef temp xs ps

unfoldable pub bn_fast_mod : Bignum256 → Bignum256 → Bignum256
bn_fast_mod x prime = subtract_coef_times (get_or x 8 0 >>> 16) x prime

unfoldable pub bn_mod : Bignum256 → Bignum256 → Bignum256
bn_mod x prime = bn_cmov (bn_is_less x prime) x (bn_subtract x prime)

unfoldable pub bn_addmod : Bignum256 → Bignum256 → Bignum256 → Bignum256
bn_addmod a b prime = bn_fast_mod (add_limbs a b) prime

unfoldable pub bn_mult_k : Bignum256 → ℕ → Bignum256 → Bignum256
bn_mult_k x k prime = bn_fast_mod (map (λ d. u32 (k * d)) x) prime
