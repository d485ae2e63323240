-- ===== src/Bignum/Multiply.antt =====
-- Multiplication modulo a prime in bignum.c: bn_multiply_long, bn_multiply_reduce_step,
-- bn_multiply_reduce and bn_multiply.
pub mod Column
pub mod Product
pub mod Reduction
use tronlink_i_os_core.Base.{
  ℕ, zero, suc, ◌+◌, ◌-◌, ◌*◌, ◌^◌, List, [], ◌∷◌, ◌++◌, u32, u64, ◌>>>◌, ◌<<<◌, get_or, take, ltb,
  if◌then◌else◌,
}
use tronlink_i_os_core.Bignum.Number.{Bignum256, low_limb}
use tronlink_i_os_core.Bignum.Reduce.{subtract_coef_times}

-- `temp += k->val[j] * (uint64_t)x->val[i - j]` for the `left` values of j from here on.
pub column_loop : Bignum256 → Bignum256 → ℕ → ℕ → ℕ → ℕ → ℕ
column_loop k x i zero j temp = temp
column_loop k x i (suc left) j temp =
    column_loop k x i left (j + 1) (u64 (temp + u64 (get_or k j 0 * get_or x (i - j) 0)))

-- The lower half takes j from 0 to i, the upper half from i - 8 to 8.
unfoldable pub column : Bignum256 → Bignum256 → ℕ → ℕ → ℕ
unfolding column_loop
column k x i temp =
    if ltb i 9 then column_loop k x i (i + 1) 0 temp else column_loop k x i (17 - i) (i - 8) temp

-- The limbs that `left` rounds from `i` on store, and the `temp` that they leave.
pub columns_loop : Bignum256 → Bignum256 → ℕ → ℕ → ℕ → List ℕ × ℕ
columns_loop k x zero i temp = ([], temp)
columns_loop k x (suc left) i temp =
    let sum = column k x i temp in
    let (res, top) = columns_loop k x left (i + 1) (sum >>> 30) in (low_limb sum ∷ res, top)

unfoldable pub bn_multiply_long : Bignum256 → Bignum256 → List ℕ
unfolding columns_loop
bn_multiply_long k x = let (res, temp) = columns_loop k x 17 0 0 in res ++ (u32 temp ∷ [])

-- `res` from its limb i - 8 on
pub reduce_window : List ℕ → Bignum256 → List ℕ
reduce_window res prime =
    subtract_coef_times (u32 ((get_or res 8 0 >>> 16) + u32 (get_or res 9 0 <<< 14))) res prime

-- The step at i = offset + 8.
pub bn_multiply_reduce_step : ℕ → List ℕ → Bignum256 → List ℕ
bn_multiply_reduce_step zero res prime = reduce_window res prime
bn_multiply_reduce_step (suc offset) [] prime = []
bn_multiply_reduce_step (suc offset) (r ∷ res) prime = r ∷ bn_multiply_reduce_step offset res prime

-- The rounds at the offsets below `n`, the highest first.
pub reduce_loop : ℕ → List ℕ → Bignum256 → List ℕ
reduce_loop zero res prime = res
reduce_loop (suc n) res prime = reduce_loop n (bn_multiply_reduce_step n res prime) prime

unfoldable pub bn_multiply_reduce : List ℕ → Bignum256 → Bignum256
unfolding reduce_loop bn_multiply_reduce_step reduce_window
bn_multiply_reduce res prime = take 9 (reduce_loop 9 res prime)

unfoldable pub bn_multiply : Bignum256 → Bignum256 → Bignum256 → Bignum256
bn_multiply k x prime = bn_multiply_reduce (bn_multiply_long k x) prime
