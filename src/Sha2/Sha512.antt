-- ===== src/Sha2/Sha512.antt =====
-- SHA-512 in sha2.c.
use tronlink_i_os_core.Base.{
  ℕ, ◌+◌, ◌≡◌, refl, ap, List, [], ◌∷◌, ◌++◌, arith, length, get_or, replicate, u64, ◌>>>◌, bit_xor,
}
use tronlink_i_os_core.BlockHash.{BlockHash, Context, init, update, final}
use tronlink_i_os_core.BlockHash.Padded.{IsBlockHash, reference}
use tronlink_i_os_core.BlockHash.Finish.{final-Run}
use tronlink_i_os_core.BlockHash.Feed.{Run}
use tronlink_i_os_core.Sha2.Words.{
  rotr64, ch64, maj, swap64, words64, digest64, hex_string, length-swap64, words64-append,
}
use tronlink_i_os_core.Sha2.Count.{
  add_bytes128, usedspace128, count_words128, Counts128, length_bytes128, add_counted128,
  used_counted128, words_counted128,
}
use tronlink_i_os_core.Sha2.Registers.{Registers, load_state, add_state, shift_registers}
use tronlink_i_os_core.Sha2.Compress.{
  load_rounds, expand_rounds, plain_rounds, extension, rounds-extension,
}

abbrev pub k512 : List ℕ
k512 =
    0x428a2f98d728ae22 ∷ 0x7137449123ef65cd ∷ 0xb5c0fbcfec4d3b2f ∷ 0xe9b5dba58189dbbc
    ∷ 0x3956c25bf348b538 ∷ 0x59f111f1b605d019 ∷ 0x923f82a4af194f9b ∷ 0xab1c5ed5da6d8118
    ∷ 0xd807aa98a3030242 ∷ 0x12835b0145706fbe ∷ 0x243185be4ee4b28c ∷ 0x550c7dc3d5ffb4e2
    ∷ 0x72be5d74f27b896f ∷ 0x80deb1fe3b1696b1 ∷ 0x9bdc06a725c71235 ∷ 0xc19bf174cf692694
    ∷ 0xe49b69c19ef14ad2 ∷ 0xefbe4786384f25e3 ∷ 0x0fc19dc68b8cd5b5 ∷ 0x240ca1cc77ac9c65
    ∷ 0x2de92c6f592b0275 ∷ 0x4a7484aa6ea6e483 ∷ 0x5cb0a9dcbd41fbd4 ∷ 0x76f988da831153b5
    ∷ 0x983e5152ee66dfab ∷ 0xa831c66d2db43210 ∷ 0xb00327c898fb213f ∷ 0xbf597fc7beef0ee4
    ∷ 0xc6e00bf33da88fc2 ∷ 0xd5a79147930aa725 ∷ 0x06ca6351e003826f ∷ 0x142929670a0e6e70
    ∷ 0x27b70a8546d22ffc ∷ 0x2e1b21385c26c926 ∷ 0x4d2c6dfc5ac42aed ∷ 0x53380d139d95b3df
    ∷ 0x650a73548baf63de ∷ 0x766a0abb3c77b2a8 ∷ 0x81c2c92e47edaee6 ∷ 0x92722c851482353b
    ∷ 0xa2bfe8a14cf10364 ∷ 0xa81a664bbc423001 ∷ 0xc24b8b70d0f89791 ∷ 0xc76c51a30654be30
    ∷ 0xd192e819d6ef5218 ∷ 0xd69906245565a910 ∷ 0xf40e35855771202a ∷ 0x106aa07032bbd1b8
    ∷ 0x19a4c116b8d2d0c8 ∷ 0x1e376c085141ab53 ∷ 0x2748774cdf8eeb99 ∷ 0x34b0bcb5e19b48a8
    ∷ 0x391c0cb3c5c95a63 ∷ 0x4ed8aa4ae3418acb ∷ 0x5b9cca4f7763e373 ∷ 0x682e6ff3d6b2b8a3
    ∷ 0x748f82ee5defb2fc ∷ 0x78a5636f43172f60 ∷ 0x84c87814a1f0ab72 ∷ 0x8cc702081a6439ec
    ∷ 0x90befffa23631e28 ∷ 0xa4506cebde82bde9 ∷ 0xbef9a3f7b2c67915 ∷ 0xc67178f2e372532b
    ∷ 0xca273eceea26619c ∷ 0xd186b8c721c0c207 ∷ 0xeada7dd6cde0eb1e ∷ 0xf57d4f7fee6ed178
    ∷ 0x06f067aa72176fba ∷ 0x0a637dc5a2c898a6 ∷ 0x113f9804bef90dae ∷ 0x1b710b35131c471b
    ∷ 0x28db77f523047d84 ∷ 0x32caab7b40c72493 ∷ 0x3c9ebe0a15c9bebc ∷ 0x431d67c49c100d4c
    ∷ 0x4cc5d4becb3e42b6 ∷ 0x597f299cfc657e2a ∷ 0x5fcb6fab3ad6faec ∷ 0x6c44198c4a475817 ∷ []

abbrev pub sha512_initial_hash_value : List ℕ
sha512_initial_hash_value =
    0x6a09e667f3bcc908 ∷ 0xbb67ae8584caa73b ∷ 0x3c6ef372fe94f82b ∷ 0xa54ff53a5f1d36f1
    ∷ 0x510e527fade682d1 ∷ 0x9b05688c2b3e6c1f ∷ 0x1f83d9abfb41bd6b ∷ 0x5be0cd19137e2179 ∷ []

unfoldable pub big_sigma0_512 : ℕ → ℕ
unfolding rotr64
big_sigma0_512 x = bit_xor (bit_xor (rotr64 28 x) (rotr64 34 x)) (rotr64 39 x)

unfoldable pub big_sigma1_512 : ℕ → ℕ
unfolding rotr64
big_sigma1_512 x = bit_xor (bit_xor (rotr64 14 x) (rotr64 18 x)) (rotr64 41 x)

unfoldable pub small_sigma0_512 : ℕ → ℕ
unfolding rotr64
small_sigma0_512 x = bit_xor (bit_xor (rotr64 1 x) (rotr64 8 x)) (x >>> 7)

unfoldable pub small_sigma1_512 : ℕ → ℕ
unfolding rotr64
small_sigma1_512 x = bit_xor (bit_xor (rotr64 19 x) (rotr64 61 x)) (x >>> 6)

-- T1, T2 and the assignments of a round on the word `w`.
unfoldable pub round512 : ℕ → ℕ → Registers → Registers
unfolding big_sigma0_512 big_sigma1_512 ch64 maj shift_registers
round512 j w r =
    let t1 = u64 (r.h + big_sigma1_512 r.e + ch64 r.e r.f r.g + get_or k512 j 0 + w) in
    let t2 = u64 (big_sigma0_512 r.a + maj r.a r.b r.c) in shift_registers u64 t1 t2 r

-- `W512[j&0x0f] += s1 + W512[(j+9)&0x0f] + s0`, where `w i` is W512[(j+i)&0x0f].
unfoldable pub expand512 : (ℕ → ℕ) → ℕ
unfolding small_sigma0_512 small_sigma1_512
expand512 w = u64 (w 0 + (small_sigma1_512 (w 14) + w 9 + small_sigma0_512 (w 1)))

-- W512 is not initialized in the code; each of its words is written before it is read.
unfoldable pub sha512_transform : List ℕ → List ℕ → List ℕ
unfolding load_state add_state load_rounds expand_rounds round512 expand512
sha512_transform state block =
    let (r, w) = load_rounds round512 0 block (replicate 16 0) (load_state state) in
    add_state u64 state (expand_rounds round512 expand512 64 16 w r).0

-- On a block of 16 words, the transform, which overwrites the 16 words W512 in place, gives what
-- the 80 rounds give on the block's whole message schedule.
pub sha512_transform_lem :
    (state block : List ℕ)
    → length block ≡ 16
    → sha512_transform state block
      ≡ add_state u64 state
          (plain_rounds round512 0 (block ++ extension expand512 64 block) (load_state state))
unfolding sha512_transform
sha512_transform_lem state block h =
    ap (add_state u64 state) (rounds-extension round512 expand512 64 block (load_state state) h)

-- SHA512_CTX and the functions on it are those of BlockHash.antt for this hash.
abbrev pub sha512 : BlockHash
sha512 = record {
  block_length = 128;
  short_block_length = 112;
  BitCount = ℕ × ℕ;
  no_bits = (0, 0);
  add_bytes = add_bytes128;
  usedspace = usedspace128;
  count_words = count_words128;
  words = words64;
  to_host = swap64;
  initial = sha512_initial_hash_value;
  transform = sha512_transform;
  digest = digest64;
}

unfoldable pub sha512_init : Context sha512
sha512_init = init sha512

unfoldable pub sha512_update : Context sha512 → List ℕ → Context sha512
sha512_update = update sha512

unfoldable pub sha512_final : Context sha512 → List ℕ
sha512_final = final sha512

unfoldable pub sha512_raw : List ℕ → List ℕ
unfolding sha512_init sha512_update sha512_final
sha512_raw bytes = sha512_final (sha512_update sha512_init bytes)

unfoldable pub sha512_end : Context sha512 → List ℕ
unfolding sha512_final hex_string
sha512_end ctx = hex_string (sha512_final ctx)

unfoldable pub sha512_data : List ℕ → List ℕ
unfolding sha512_init sha512_update sha512_end
sha512_data bytes = sha512_end (sha512_update sha512_init bytes)

unfoldable pub sha512_laws : IsBlockHash sha512
sha512_laws = record {
  Counts = Counts128;
  length_bytes = length_bytes128;
  short_pos = omega arith;
  short_below = omega arith;
  none_counted = omega arith;
  add_counted = add_counted128;
  used_counted = used_counted128;
  words_counted = words_counted128;
  length-length_bytes = λ l. refl;
  words-append = words64-append 14;
  length-to_host = length-swap64;
}

-- Whatever the calls of sha512_Update that lead from sha512_Init to a context, with pieces of
-- less than 2 ^ 61 bytes each, sha512_Final gives the hash of the whole message: the transform of
-- one block after the other of the message followed by the padding of FIPS 180-4 (a 1 bit, as few
-- 0 bits as fill up to the length field, and the length in bits).
pub sha512_final-Run :
    {ctx : Context sha512} {message : List ℕ}
    → Run sha512 ctx message
    → sha512_final ctx ≡ reference sha512 sha512_laws message
unfolding sha512_final
sha512_final-Run run = final-Run sha512 sha512_laws run
