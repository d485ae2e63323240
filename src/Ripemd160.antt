-- ===== src/Ripemd160.antt =====
-- ripemd160.c: RIPEMD-160.
mod Tests
pub mod Fed
pub mod Update
pub mod Finish
use tronlink_i_os_core.Base.{
  ℕ, zero, suc, ◌+◌, ◌-◌, ◌*◌, ◌/◌, ◌<◌, ◌≤◌, ◌≡◌, List, [], ◌∷◌, ◌++◌, length, take, drop,
  replicate, get_or, u8, u32, ◌<<<◌, ◌>>>◌, bit_and, bit_or, bit_xor, ltb, leb, ◌==◌, not, ◌&&◌,
  if◌then◌else◌,
}
use tronlink_i_os_core.BlockHash.{overwrite}
use tronlink_i_os_core.Sha2.Words.{rotl32, not32}

-- GET_UINT32_LE along a block, and PUT_UINT32_LE.
unfoldable pub words_le : List ℕ → List ℕ
words_le [] = []
words_le (a ∷ []) = []
words_le (a ∷ b ∷ []) = []
words_le (a ∷ b ∷ c ∷ []) = []
words_le (a ∷ b ∷ c ∷ d ∷ rest) =
    bit_or (bit_or (bit_or a (b <<< 8)) (c <<< 16)) (d <<< 24) ∷ words_le rest

abbrev pub bytes_le : ℕ → List ℕ
bytes_le n = u8 n ∷ u8 (n >>> 8) ∷ u8 (n >>> 16) ∷ u8 (n >>> 24) ∷ []

unfoldable pub f1 : ℕ → ℕ → ℕ → ℕ
f1 x y z = bit_xor (bit_xor x y) z

unfoldable pub f2 : ℕ → ℕ → ℕ → ℕ
f2 x y z = bit_or (bit_and x y) (bit_and (not32 x) z)

unfoldable pub f3 : ℕ → ℕ → ℕ → ℕ
f3 x y z = bit_xor (bit_or x (not32 y)) z

unfoldable pub f4 : ℕ → ℕ → ℕ → ℕ
f4 x y z = bit_or (bit_and x z) (bit_and y (not32 z))

unfoldable pub f5 : ℕ → ℕ → ℕ → ℕ
f5 x y z = bit_xor x (bit_or y (not32 z))

-- The arguments of the 80 uses of P2: the words r and rp and the shifts s and sp.
abbrev pub left_word : List ℕ
left_word =
    0 ∷ 1 ∷ 2 ∷ 3 ∷ 4 ∷ 5 ∷ 6 ∷ 7 ∷ 8 ∷ 9 ∷ 10 ∷ 11 ∷ 12 ∷ 13 ∷ 14 ∷ 15 ∷ 7 ∷ 4 ∷ 13 ∷ 1 ∷ 10 ∷ 6
    ∷ 15 ∷ 3 ∷ 12 ∷ 0 ∷ 9 ∷ 5 ∷ 2 ∷ 14 ∷ 11 ∷ 8 ∷ 3 ∷ 10 ∷ 14 ∷ 4 ∷ 9 ∷ 15 ∷ 8 ∷ 1 ∷ 2 ∷ 7 ∷ 0 ∷ 6
    ∷ 13 ∷ 11 ∷ 5 ∷ 12 ∷ 1 ∷ 9 ∷ 11 ∷ 10 ∷ 0 ∷ 8 ∷ 12 ∷ 4 ∷ 13 ∷ 3 ∷ 7 ∷ 15 ∷ 14 ∷ 5 ∷ 6 ∷ 2 ∷ 4 ∷ 0
    ∷ 5 ∷ 9 ∷ 7 ∷ 12 ∷ 2 ∷ 10 ∷ 14 ∷ 1 ∷ 3 ∷ 8 ∷ 11 ∷ 6 ∷ 15 ∷ 13 ∷ []

abbrev pub left_shift : List ℕ
left_shift =
    11 ∷ 14 ∷ 15 ∷ 12 ∷ 5 ∷ 8 ∷ 7 ∷ 9 ∷ 11 ∷ 13 ∷ 14 ∷ 15 ∷ 6 ∷ 7 ∷ 9 ∷ 8 ∷ 7 ∷ 6 ∷ 8 ∷ 13 ∷ 11 ∷ 9
    ∷ 7 ∷ 15 ∷ 7 ∷ 12 ∷ 15 ∷ 9 ∷ 11 ∷ 7 ∷ 13 ∷ 12 ∷ 11 ∷ 13 ∷ 6 ∷ 7 ∷ 14 ∷ 9 ∷ 13 ∷ 15 ∷ 14 ∷ 8 ∷ 13
    ∷ 6 ∷ 5 ∷ 12 ∷ 7 ∷ 5 ∷ 11 ∷ 12 ∷ 14 ∷ 15 ∷ 14 ∷ 15 ∷ 9 ∷ 8 ∷ 9 ∷ 14 ∷ 5 ∷ 6 ∷ 8 ∷ 6 ∷ 5 ∷ 12 ∷ 9
    ∷ 15 ∷ 5 ∷ 11 ∷ 6 ∷ 8 ∷ 13 ∷ 12 ∷ 5 ∷ 12 ∷ 13 ∷ 14 ∷ 11 ∷ 8 ∷ 5 ∷ 6 ∷ []

abbrev pub right_word : List ℕ
right_word =
    5 ∷ 14 ∷ 7 ∷ 0 ∷ 9 ∷ 2 ∷ 11 ∷ 4 ∷ 13 ∷ 6 ∷ 15 ∷ 8 ∷ 1 ∷ 10 ∷ 3 ∷ 12 ∷ 6 ∷ 11 ∷ 3 ∷ 7 ∷ 0 ∷ 13
    ∷ 5 ∷ 10 ∷ 14 ∷ 15 ∷ 8 ∷ 12 ∷ 4 ∷ 9 ∷ 1 ∷ 2 ∷ 15 ∷ 5 ∷ 1 ∷ 3 ∷ 7 ∷ 14 ∷ 6 ∷ 9 ∷ 11 ∷ 8 ∷ 12 ∷ 2
    ∷ 10 ∷ 0 ∷ 4 ∷ 13 ∷ 8 ∷ 6 ∷ 4 ∷ 1 ∷ 3 ∷ 11 ∷ 15 ∷ 0 ∷ 5 ∷ 12 ∷ 2 ∷ 13 ∷ 9 ∷ 7 ∷ 10 ∷ 14 ∷ 12
    ∷ 15 ∷ 10 ∷ 4 ∷ 1 ∷ 5 ∷ 8 ∷ 7 ∷ 6 ∷ 2 ∷ 13 ∷ 14 ∷ 0 ∷ 3 ∷ 9 ∷ 11 ∷ []

abbrev pub right_shift : List ℕ
right_shift =
    8 ∷ 9 ∷ 9 ∷ 11 ∷ 13 ∷ 15 ∷ 15 ∷ 5 ∷ 7 ∷ 7 ∷ 8 ∷ 11 ∷ 14 ∷ 14 ∷ 12 ∷ 6 ∷ 9 ∷ 13 ∷ 15 ∷ 7 ∷ 12 ∷ 8
    ∷ 9 ∷ 11 ∷ 7 ∷ 7 ∷ 12 ∷ 7 ∷ 6 ∷ 15 ∷ 13 ∷ 11 ∷ 9 ∷ 7 ∷ 15 ∷ 11 ∷ 8 ∷ 6 ∷ 6 ∷ 14 ∷ 12 ∷ 13 ∷ 5
    ∷ 14 ∷ 13 ∷ 13 ∷ 7 ∷ 5 ∷ 15 ∷ 5 ∷ 8 ∷ 11 ∷ 14 ∷ 14 ∷ 6 ∷ 14 ∷ 6 ∷ 9 ∷ 12 ∷ 9 ∷ 12 ∷ 5 ∷ 15 ∷ 8
    ∷ 8 ∷ 5 ∷ 12 ∷ 9 ∷ 12 ∷ 5 ∷ 14 ∷ 6 ∷ 8 ∷ 13 ∷ 6 ∷ 5 ∷ 15 ∷ 13 ∷ 11 ∷ 11 ∷ []

-- F and Fp, K and Kp in each sixteen of the uses.
unfoldable pub left_function : ℕ → ℕ → ℕ → ℕ → ℕ
unfolding f1 f2 f3 f4 f5
left_function zero = f1
left_function (suc zero) = f2
left_function (suc (suc zero)) = f3
left_function (suc (suc (suc zero))) = f4
left_function (suc (suc (suc (suc n)))) = f5

unfoldable pub right_function : ℕ → ℕ → ℕ → ℕ → ℕ
unfolding f1 f2 f3 f4 f5
right_function zero = f5
right_function (suc zero) = f4
right_function (suc (suc zero)) = f3
right_function (suc (suc (suc zero))) = f2
right_function (suc (suc (suc (suc n)))) = f1

abbrev pub left_constant : List ℕ
left_constant = 0x00000000 ∷ 0x5A827999 ∷ 0x6ED9EBA1 ∷ 0x8F1BBCDC ∷ 0xA953FD4E ∷ []

abbrev pub right_constant : List ℕ
right_constant = 0x50A28BE6 ∷ 0x5C4DD124 ∷ 0x6D703EF3 ∷ 0x7A6D76E9 ∷ 0x00000000 ∷ []

-- The variables in the order in which a use of P names them.
pub record Line : Type 0 where
  pub a : ℕ
  pub b : ℕ
  pub c : ℕ
  pub d : ℕ
  pub e : ℕ

-- P; the next use names the variables turned by one.
unfoldable pub p_step : (ℕ → ℕ → ℕ → ℕ) → ℕ → ℕ → ℕ → Line → Line
unfolding rotl32
p_step f k x s l = record {
  a = l.e;
  b = u32 (rotl32 s (u32 (l.a + (f l.b l.c l.d + x + k))) + l.e);
  c = l.b;
  d = rotl32 10 l.c;
  e = l.d;
}

-- The uses of P2 from the j-th on, as many as the first argument says.
unfoldable pub p2_steps : ℕ → ℕ → List ℕ → Line → Line → Line × Line
unfolding p_step left_function right_function
p2_steps zero j x left right = (left, right)
p2_steps (suc n) j x left right =
    p2_steps n (j + 1) x
      (p_step (left_function (j / 16)) (get_or left_constant (j / 16) 0)
        (get_or x (get_or left_word j 0) 0) (get_or left_shift j 0) left)
      (p_step (right_function (j / 16)) (get_or right_constant (j / 16) 0)
        (get_or x (get_or right_word j 0) 0) (get_or right_shift j 0) right)

-- The process of a block on the state. The turns of 80 uses come round to the first order.
unfoldable pub ripemd160_process : List ℕ → List ℕ → List ℕ
unfolding words_le p2_steps
ripemd160_process state block =
    let line : Line = record {
      a = get_or state 0 0;
      b = get_or state 1 0;
      c = get_or state 2 0;
      d = get_or state 3 0;
      e = get_or state 4 0;
    } in
    let (l, r) = p2_steps 80 0 (words_le block) line line in
    u32 (get_or state 1 0 + l.c + r.d)
    ∷ u32 (get_or state 2 0 + l.d + r.e)
    ∷ u32 (get_or state 3 0 + l.e + r.a)
    ∷ u32 (get_or state 4 0 + l.a + r.b)
    ∷ u32 (get_or state 0 0 + l.b + r.c)
    ∷ []

-- RIPEMD160_CTX; `low` and `high` are total[0] and total[1].
pub record RipemdContext : Type 0 where
  pub low : ℕ
  pub high : ℕ
  pub state : List ℕ
  pub buffer : List ℕ

unfoldable pub ripemd160_init : RipemdContext
ripemd160_init = record {
  low = 0;
  high = 0;
  state = 0x67452301 ∷ 0xEFCDAB89 ∷ 0x98BADCFE ∷ 0x10325476 ∷ 0xC3D2E1F0 ∷ [];
  buffer = replicate 64 0;
}

-- The count of the bytes.
unfoldable pub count_bytes : RipemdContext → ℕ → RipemdContext
count_bytes ctx ilen =
    let low = bit_and (u32 (ctx.low + ilen)) 0xFFFFFFFF in
    record ctx { low = low; high = if ltb low ilen then u32 (ctx.high + 1) else ctx.high }

-- The loop over the complete blocks, as many as the first argument says, and the rest.
unfoldable pub whole_blocks : ℕ → ℕ → RipemdContext → List ℕ → RipemdContext
unfolding ripemd160_process
whole_blocks zero left ctx input =
    if length input == 0 then ctx else record ctx { buffer = overwrite ctx.buffer left input }
whole_blocks (suc n) left ctx input =
    whole_blocks n left (record ctx { state = ripemd160_process ctx.state (take 64 input) })
      (drop 64 input)

-- The buffer filled up and processed.
unfoldable pub fill_buffer : RipemdContext → ℕ → List ℕ → RipemdContext
unfolding ripemd160_process
fill_buffer ctx left input =
    let buffer = overwrite ctx.buffer left input in
    record ctx { buffer = buffer; state = ripemd160_process ctx.state buffer }

unfoldable pub ripemd160_update : RipemdContext → List ℕ → RipemdContext
unfolding count_bytes whole_blocks fill_buffer
ripemd160_update ctx input =
    let left = bit_and ctx.low 0x3F in
    let fill = 64 - left in
    let counted = count_bytes ctx (length input) in
    if length input == 0
    then ctx
    else if not (left == 0) && leb fill (length input)
    then whole_blocks (length (drop fill input) / 64) 0 (fill_buffer counted left (take fill input))
        (drop fill input)
    else whole_blocks (length input / 64) left counted input

abbrev pub ripemd160_padding : List ℕ
ripemd160_padding = 0x80 ∷ replicate 63 0

unfoldable pub digest_le : List ℕ → List ℕ
digest_le [] = []
digest_le (w ∷ ws) = bytes_le w ++ digest_le ws

unfoldable pub ripemd160_final : RipemdContext → List ℕ
unfolding ripemd160_update digest_le
ripemd160_final ctx =
    let high = bit_or (ctx.low >>> 29) (u32 (ctx.high <<< 3)) in
    let low = u32 (ctx.low <<< 3) in
    let msglen = bytes_le low ++ bytes_le high in
    let last = bit_and ctx.low 0x3F in
    let padn = if ltb last 56 then 56 - last else 120 - last in
    digest_le (ripemd160_update (ripemd160_update ctx (take padn ripemd160_padding)) msglen).state

unfoldable pub ripemd160 : List ℕ → List ℕ
unfolding ripemd160_init ripemd160_update ripemd160_final
ripemd160 msg = ripemd160_final (ripemd160_update ripemd160_init msg)
