-- ===== src/Rc4.antt =====
-- rc4.c and rc4.h: the key schedule and the stream.
mod Tests
pub mod State
pub mod Stream
use tronlink_i_os_core.Base.{
  ℕ, zero, suc, ◌+◌, ◌%◌, List, [], ◌∷◌, u8, bit_xor, get_or, set, length, Option, none, some, ◌==◌,
  if◌then◌else◌,
}

-- RC4_CTX; the array `S` has 256 elements, of type uint8_t as `i` and `j` are.
pub record Rc4Ctx : Type 0 where
  pub s : List ℕ
  pub i : ℕ
  pub j : ℕ

unfoldable pub rc4_swap : List ℕ → ℕ → ℕ → List ℕ
rc4_swap s i j = set (set s i (get_or s j 0)) j (get_or s i 0)

-- `count` numbers from `start` on
pub count_up : ℕ → ℕ → List ℕ
count_up start zero = []
count_up start (suc count) = start ∷ count_up (start + 1) count

-- The second loop of rc4_init, for the `left` values of `i` from here on.
pub schedule : List ℕ → ℕ → ℕ → ℕ → List ℕ → List ℕ
schedule key zero i j s = s
schedule key (suc left) i j s =
    let j' = u8 (j + (get_or s i 0 + get_or key (i % length key) 0)) in
    schedule key left (i + 1) j' (rc4_swap s i j')

-- For an empty key `i % length` divides by 0, which C leaves undefined: none.
unfoldable pub rc4_init : List ℕ → Option Rc4Ctx
unfolding count_up schedule
rc4_init key =
    if length key == 0
    then none
    else some (record { s = schedule key 256 0 0 (count_up 0 256); i = 0; j = 0 })

-- One round of rc4_encrypt: the new context and K.
unfoldable pub next_key : Rc4Ctx → Rc4Ctx × ℕ
unfolding rc4_swap
next_key ctx =
    let i = u8 (ctx.i + 1) in
    let j = u8 (ctx.j + get_or ctx.s i 0) in
    let s = rc4_swap ctx.s i j in
    (record { s = s; i = i; j = j }, get_or s ((get_or s i 0 + get_or s j 0) % 256) 0)

pub rc4_encrypt : Rc4Ctx → List ℕ → Rc4Ctx × List ℕ
rc4_encrypt ctx [] = (ctx, [])
rc4_encrypt ctx (byte ∷ buffer) =
    let (ctx', k) = next_key ctx in
    let (last, out) = rc4_encrypt ctx' buffer in (last, bit_xor byte k ∷ out)
