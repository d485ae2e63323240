-- ===== src/Sha2/Sha1.antt =====
-- SHA-1 in sha2.c.
use tronlink_i_os_core.Base.{
  ℕ, ◌+◌, ◌<◌, ◌≤◌, ◌≡◌, refl, ap, ◌∙◌, List, [], ◌∷◌, ◌++◌, arith, length, get_or, replicate, u32,
  bit_xor, ltb, if◌then◌else◌,
}
use mathlib.Core.Path.{fun_ext}
use tronlink_i_os_core.BlockHash.{BlockHash, Context, init, update, final}
use tronlink_i_os_core.BlockHash.Padded.{IsBlockHash, reference}
use tronlink_i_os_core.BlockHash.Finish.{final-Run}
use tronlink_i_os_core.BlockHash.Feed.{Run}
use tronlink_i_os_core.Sha2.Words.{
  rotl32, ch32, maj, parity, swap32, words32, digest32, hex_string, length-swap32, words32-append,
}
use tronlink_i_os_core.Sha2.Count.{
  add_bytes64, usedspace64, count_words64, Counts64, length_bytes64, add_counted64, used_counted64,
  words_counted64,
}
use tronlink_i_os_core.Sha2.Compress.{
  load_rounds, expand_rounds, plain_rounds, extension, expand_rounds-add, expand_rounds-same,
  load_rounds-same, rounds-extension,
}

abbrev pub sha1_initial_hash_value : List ℕ
sha1_initial_hash_value = 0x67452301 ∷ 0xefcdab89 ∷ 0x98badcfe ∷ 0x10325476 ∷ 0xc3d2e1f0 ∷ []

abbrev pub k1_0_to_19 : ℕ
k1_0_to_19 = 0x5a827999

abbrev pub k1_20_to_39 : ℕ
k1_20_to_39 = 0x6ed9eba1

abbrev pub k1_40_to_59 : ℕ
k1_40_to_59 = 0x8f1bbcdc

abbrev pub k1_60_to_79 : ℕ
k1_60_to_79 = 0xca62c1d6

-- The five working variables.
pub record Variables : Type 0 where
  pub a : ℕ
  pub b : ℕ
  pub c : ℕ
  pub d : ℕ
  pub e : ℕ

-- T1 and the assignments of a round, which the five loops share but for the function of b, c and d
-- and the constant.
unfoldable pub round1 : (ℕ → ℕ → ℕ → ℕ) → ℕ → ℕ → ℕ → Variables → Variables
unfolding rotl32
round1 f k j w r = record {
  a = u32 (rotl32 5 r.a + f r.b r.c r.d + r.e + k + w);
  b = r.a;
  c = rotl32 30 r.b;
  d = r.c;
  e = r.d;
}

-- The word that W1[j&0x0f] becomes, where `w i` is W1[(j+i)&0x0f].
unfoldable pub expand1 : (ℕ → ℕ) → ℕ
unfolding rotl32
expand1 w = rotl32 1 (bit_xor (bit_xor (bit_xor (w 13) (w 8)) (w 2)) (w 0))

unfoldable pub load_variables : List ℕ → Variables
load_variables s = record {
  a = get_or s 0 0;
  b = get_or s 1 0;
  c = get_or s 2 0;
  d = get_or s 3 0;
  e = get_or s 4 0;
}

unfoldable pub add_variables : List ℕ → Variables → List ℕ
add_variables s r =
    u32 (get_or s 0 0 + r.a)
    ∷ u32 (get_or s 1 0 + r.b)
    ∷ u32 (get_or s 2 0 + r.c)
    ∷ u32 (get_or s 3 0 + r.d)
    ∷ u32 (get_or s 4 0 + r.e)
    ∷ []

-- The five loops. W1 is not initialized in the code; each word is written before it is read.
unfoldable pub sha1_transform : List ℕ → List ℕ → List ℕ
unfolding load_variables add_variables load_rounds expand_rounds round1 expand1 ch32 maj parity
sha1_transform state block =
    let (r0, w0) =
      load_rounds (round1 ch32 k1_0_to_19) 0 block (replicate 16 0) (load_variables state) in
    let (r1, w1) = expand_rounds (round1 ch32 k1_0_to_19) expand1 4 16 w0 r0 in
    let (r2, w2) = expand_rounds (round1 parity k1_20_to_39) expand1 20 20 w1 r1 in
    let (r3, w3) = expand_rounds (round1 maj k1_40_to_59) expand1 20 40 w2 r2 in
    let (r4, w4) = expand_rounds (round1 parity k1_60_to_79) expand1 20 60 w3 r3 in
    add_variables state r4

-- SHA1_CTX and the functions on it are those of BlockHash.antt for this hash.
abbrev pub sha1 : BlockHash
sha1 = record {
  block_length = 64;
  short_block_length = 56;
  BitCount = ℕ;
  no_bits = 0;
  add_bytes = add_bytes64;
  usedspace = usedspace64;
  count_words = count_words64;
  words = words32;
  to_host = swap32;
  initial = sha1_initial_hash_value;
  transform = sha1_transform;
  digest = digest32;
}

unfoldable pub sha1_init : Context sha1
sha1_init = init sha1

unfoldable pub sha1_update : Context sha1 → List ℕ → Context sha1
sha1_update = update sha1

unfoldable pub sha1_final : Context sha1 → List ℕ
sha1_final = final sha1

unfoldable pub sha1_raw : List ℕ → List ℕ
unfolding sha1_init sha1_update sha1_final
sha1_raw bytes = sha1_final (sha1_update sha1_init bytes)

unfoldable pub sha1_end : Context sha1 → List ℕ
unfolding sha1_final hex_string
sha1_end ctx = hex_string (sha1_final ctx)

unfoldable pub sha1_data : List ℕ → List ℕ
unfolding sha1_init sha1_update sha1_end
sha1_data bytes = sha1_end (sha1_update sha1_init bytes)

unfoldable pub sha1_laws : IsBlockHash sha1
sha1_laws = record {
  Counts = Counts64;
  length_bytes = length_bytes64;
  short_pos = omega arith;
  short_below = omega arith;
  none_counted = omega arith;
  add_counted = add_counted64;
  used_counted = used_counted64;
  words_counted = words_counted64;
  length-length_bytes = λ l. refl;
  words-append = words32-append 14;
  length-to_host = length-swap32;
}

-- Whatever the calls of sha1_Update that lead from sha1_Init to a context, with pieces of less
-- than 2 ^ 61 bytes each, sha1_Final gives the hash of the whole message: the transform of one
-- block after the other of the message followed by the padding of FIPS 180-4 (a 1 bit, as few 0
-- bits as fill up to the length field, and the length in bits).
pub sha1_final-Run :
    {ctx : Context sha1} {message : List ℕ}
    → Run sha1 ctx message
    → sha1_final ctx ≡ reference sha1 sha1_laws message
unfolding sha1_final
sha1_final-Run run = final-Run sha1 sha1_laws run

-- The round of FIPS 180-4, with its function and constant by the number of the round.
unfoldable pub fips_round : ℕ → ℕ → Variables → Variables
unfolding round1 ch32 maj parity
fips_round j w r =
    if ltb j 20
    then round1 ch32 k1_0_to_19 j w r
    else if ltb j 40
    then round1 parity k1_20_to_39 j w r
    else if ltb j 60
    then round1 maj k1_40_to_59 j w r
    else round1 parity k1_60_to_79 j w r

fips_round-ch : (j : ℕ) → 0 ≤ j → j < 20 → round1 ch32 k1_0_to_19 j ≡ fips_round j
unfolding fips_round
fips_round-ch j lo hi = fun_ext λ w. fun_ext λ r. ground arith

fips_round-parity : (j : ℕ) → 20 ≤ j → j < 40 → round1 parity k1_20_to_39 j ≡ fips_round j
unfolding fips_round
fips_round-parity j lo hi = fun_ext λ w. fun_ext λ r. ground arith

fips_round-maj : (j : ℕ) → 40 ≤ j → j < 60 → round1 maj k1_40_to_59 j ≡ fips_round j
unfolding fips_round
fips_round-maj j lo hi = fun_ext λ w. fun_ext λ r. ground arith

fips_round-last : (j : ℕ) → 60 ≤ j → j < 80 → round1 parity k1_60_to_79 j ≡ fips_round j
unfolding fips_round
fips_round-last j lo hi = fun_ext λ w. fun_ext λ r. ground arith

-- A loop and the rounds of the standard after it.
fuse :
    (f : ℕ → ℕ → Variables → Variables) (m n j : ℕ)
    → ((k : ℕ) → j ≤ k → k < j + m → f k ≡ fips_round k)
    → (s : Variables × List ℕ)
    → expand_rounds fips_round expand1 n
        (m + j)
        (expand_rounds f expand1 m j s.1 s.0).1
        (expand_rounds f expand1 m j s.1 s.0).0
      ≡ expand_rounds fips_round expand1 (m + n) j s.1 s.0
fuse f m n j same s =
    ap (λ (t : Variables × List ℕ). expand_rounds fips_round expand1 n (m + j) t.1 t.0)
      (expand_rounds-same f fips_round expand1 m j same s.1 s.0)
    ∙ expand_rounds-add fips_round expand1 m n j s.1 s.0

-- On a block of 16 words, the five loops of the transform, which overwrite the 16 words W1 in
-- place, give what 80 rounds give on the block's whole message schedule, with the function and
-- the constant of a round chosen by its number.
pub sha1_transform_lem :
    (state block : List ℕ)
    → length block ≡ 16
    → sha1_transform state block
      ≡ add_variables state
          (plain_rounds fips_round 0 (block ++ extension expand1 64 block) (load_variables state))
unfolding sha1_transform
sha1_transform_lem state block h =
    let r = load_variables state in
    let s0 = load_rounds (round1 ch32 k1_0_to_19) 0 block (replicate 16 0) r in
    let s1 = expand_rounds (round1 ch32 k1_0_to_19) expand1 4 16 s0.1 s0.0 in
    let s2 = expand_rounds (round1 parity k1_20_to_39) expand1 20 20 s1.1 s1.0 in
    let s3 = expand_rounds (round1 maj k1_40_to_59) expand1 20 40 s2.1 s2.0 in
    ap (λ (t : Variables × List ℕ). add_variables state t.0)
      (expand_rounds-same (round1 parity k1_60_to_79) fips_round expand1 20 60 fips_round-last s3.1
          s3.0
        ∙ fuse (round1 maj k1_40_to_59) 20 20 40 fips_round-maj s2
        ∙ fuse (round1 parity k1_20_to_39) 20 40 20 fips_round-parity s1
        ∙ fuse (round1 ch32 k1_0_to_19) 4 60 16
            (λ k lo hi. fips_round-ch k (omega arith) (omega arith)) s0
        ∙ ap (λ (t : Variables × List ℕ). expand_rounds fips_round expand1 64 16 t.1 t.0)
            (load_rounds-same (round1 ch32 k1_0_to_19) fips_round 0 block
              (λ k lo hi. fips_round-ch k (omega arith) (omega arith)) (replicate 16 0) r))
    ∙ ap (add_variables state) (rounds-extension fips_round expand1 64 block r h)
