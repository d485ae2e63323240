-- ===== src/Sha2/Sha256.antt =====
-- SHA-256 in sha2.c.
use tronlink_i_os_core.Base.{
  ℕ, ◌+◌, ◌≡◌, refl, ap, List, [], ◌∷◌, ◌++◌, arith, length, get_or, replicate, u32, ◌>>>◌, bit_xor,
}
use tronlink_i_os_core.BlockHash.{BlockHash, Context, init, update, final}
use tronlink_i_os_core.BlockHash.Padded.{IsBlockHash, reference}
use tronlink_i_os_core.BlockHash.Finish.{final-Run}
use tronlink_i_os_core.BlockHash.Feed.{Run}
use tronlink_i_os_core.Sha2.Words.{
  rotr32, ch32, maj, swap32, words32, digest32, hex_string, length-swap32, words32-append,
}
use tronlink_i_os_core.Sha2.Count.{
  add_bytes64, usedspace64, count_words64, Counts64, length_bytes64, add_counted64, used_counted64,
  words_counted64,
}
use tronlink_i_os_core.Sha2.Registers.{Registers, load_state, add_state, shift_registers}
use tronlink_i_os_core.Sha2.Compress.{
  load_rounds, expand_rounds, plain_rounds, extension, rounds-extension,
}

abbrev pub k256 : List ℕ
k256 =
    0x428a2f98 ∷ 0x71374491 ∷ 0xb5c0fbcf ∷ 0xe9b5dba5 ∷ 0x3956c25b ∷ 0x59f111f1 ∷ 0x923f82a4
    ∷ 0xab1c5ed5 ∷ 0xd807aa98 ∷ 0x12835b01 ∷ 0x243185be ∷ 0x550c7dc3 ∷ 0x72be5d74 ∷ 0x80deb1fe
    ∷ 0x9bdc06a7 ∷ 0xc19bf174 ∷ 0xe49b69c1 ∷ 0xefbe4786 ∷ 0x0fc19dc6 ∷ 0x240ca1cc ∷ 0x2de92c6f
    ∷ 0x4a7484aa ∷ 0x5cb0a9dc ∷ 0x76f988da ∷ 0x983e5152 ∷ 0xa831c66d ∷ 0xb00327c8 ∷ 0xbf597fc7
    ∷ 0xc6e00bf3 ∷ 0xd5a79147 ∷ 0x06ca6351 ∷ 0x14292967 ∷ 0x27b70a85 ∷ 0x2e1b2138 ∷ 0x4d2c6dfc
    ∷ 0x53380d13 ∷ 0x650a7354 ∷ 0x766a0abb ∷ 0x81c2c92e ∷ 0x92722c85 ∷ 0xa2bfe8a1 ∷ 0xa81a664b
    ∷ 0xc24b8b70 ∷ 0xc76c51a3 ∷ 0xd192e819 ∷ 0xd6990624 ∷ 0xf40e3585 ∷ 0x106aa070 ∷ 0x19a4c116
    ∷ 0x1e376c08 ∷ 0x2748774c ∷ 0x34b0bcb5 ∷ 0x391c0cb3 ∷ 0x4ed8aa4a ∷ 0x5b9cca4f ∷ 0x682e6ff3
    ∷ 0x748f82ee ∷ 0x78a5636f ∷ 0x84c87814 ∷ 0x8cc70208 ∷ 0x90befffa ∷ 0xa4506ceb ∷ 0xbef9a3f7
    ∷ 0xc67178f2 ∷ []

abbrev pub sha256_initial_hash_value : List ℕ
sha256_initial_hash_value =
    0x6a09e667 ∷ 0xbb67ae85 ∷ 0x3c6ef372 ∷ 0xa54ff53a ∷ 0x510e527f ∷ 0x9b05688c ∷ 0x1f83d9ab
    ∷ 0x5be0cd19 ∷ []

unfoldable pub big_sigma0_256 : ℕ → ℕ
unfolding rotr32
big_sigma0_256 x = bit_xor (bit_xor (rotr32 2 x) (rotr32 13 x)) (rotr32 22 x)

unfoldable pub big_sigma1_256 : ℕ → ℕ
unfolding rotr32
big_sigma1_256 x = bit_xor (bit_xor (rotr32 6 x) (rotr32 11 x)) (rotr32 25 x)

unfoldable pub small_sigma0_256 : ℕ → ℕ
unfolding rotr32
small_sigma0_256 x = bit_xor (bit_xor (rotr32 7 x) (rotr32 18 x)) (x >>> 3)

unfoldable pub small_sigma1_256 : ℕ → ℕ
unfolding rotr32
small_sigma1_256 x = bit_xor (bit_xor (rotr32 17 x) (rotr32 19 x)) (x >>> 10)

-- T1, T2 and the assignments of a round on the word `w`.
unfoldable pub round256 : ℕ → ℕ → Registers → Registers
unfolding big_sigma0_256 big_sigma1_256 ch32 maj shift_registers
round256 j w r =
    let t1 = u32 (r.h + big_sigma1_256 r.e + ch32 r.e r.f r.g + get_or k256 j 0 + w) in
    let t2 = u32 (big_sigma0_256 r.a + maj r.a r.b r.c) in shift_registers u32 t1 t2 r

-- `W256[j&0x0f] += s1 + W256[(j+9)&0x0f] + s0`, where `w i` is W256[(j+i)&0x0f].
unfoldable pub expand256 : (ℕ → ℕ) → ℕ
unfolding small_sigma0_256 small_sigma1_256
expand256 w = u32 (w 0 + (small_sigma1_256 (w 14) + w 9 + small_sigma0_256 (w 1)))

-- W256 is not initialized in the code; each of its words is written before it is read.
unfoldable pub sha256_transform : List ℕ → List ℕ → List ℕ
unfolding load_state add_state load_rounds expand_rounds round256 expand256
sha256_transform state block =
    let (r, w) = load_rounds round256 0 block (replicate 16 0) (load_state state) in
    add_state u32 state (expand_rounds round256 expand256 48 16 w r).0

-- On a block of 16 words, the transform, which overwrites the 16 words W256 in place, gives what
-- the 64 rounds give on the block's whole message schedule.
pub sha256_transform_lem :
    (state block : List ℕ)
    → length block ≡ 16
    → sha256_transform state block
      ≡ add_state u32 state
          (plain_rounds round256 0 (block ++ extension expand256 48 block) (load_state state))
unfolding sha256_transform
sha256_transform_lem state block h =
    ap (add_state u32 state) (rounds-extension round256 expand256 48 block (load_state state) h)

-- SHA256_CTX and the functions on it are those of BlockHash.antt for this hash.
abbrev pub sha256 : BlockHash
sha256 = record {
  block_length = 64;
  short_block_length = 56;
  BitCount = ℕ;
  no_bits = 0;
  add_bytes = add_bytes64;
  usedspace = usedspace64;
  count_words = count_words64;
  words = words32;
  to_host = swap32;
  initial = sha256_initial_hash_value;
  transform = sha256_transform;
  digest = digest32;
}

unfoldable pub sha256_init : Context sha256
sha256_init = init sha256

unfoldable pub sha256_update : Context sha256 → List ℕ → Context sha256
sha256_update = update sha256

unfoldable pub sha256_final : Context sha256 → List ℕ
sha256_final = final sha256

unfoldable pub sha256_raw : List ℕ → List ℕ
unfolding sha256_init sha256_update sha256_final
sha256_raw bytes = sha256_final (sha256_update sha256_init bytes)

unfoldable pub sha256_end : Context sha256 → List ℕ
unfolding sha256_final hex_string
sha256_end ctx = hex_string (sha256_final ctx)

unfoldable pub sha256_data : List ℕ → List ℕ
unfolding sha256_init sha256_update sha256_end
sha256_data bytes = sha256_end (sha256_update sha256_init bytes)

unfoldable pub sha256_laws : IsBlockHash sha256
sha256_laws = record {
  Counts = Counts64;
  length_bytes = length_bytes64;
  short_pos = omega arith;
  short_below = omega arith;
  none_counted = omega arith;
  add_counted = add_counted64;
  used_counted = used_counted64;
  words_counted = words_counted64;
  length-length_bytes = λ l. refl;
  words-append = words32-append 14;
  length-to_host = length-swap32;
}

-- Whatever the calls of sha256_Update that lead from sha256_Init to a context, with pieces of
-- less than 2 ^ 61 bytes each, sha256_Final gives the hash of the whole message: the transform of
-- one block after the other of the message followed by the padding of FIPS 180-4 (a 1 bit, as few
-- 0 bits as fill up to the length field, and the length in bits).
pub sha256_final-Run :
    {ctx : Context sha256} {message : List ℕ}
    → Run sha256 ctx message
    → sha256_final ctx ≡ reference sha256 sha256_laws message
unfolding sha256_final
sha256_final-Run run = final-Run sha256 sha256_laws run
