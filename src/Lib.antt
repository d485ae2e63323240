-- ===== src/Lib.antt =====
-- tronlink-iOS-core: the C core under the iOS wallet library of TronLink.
--
-- The Swift code of the library (keystore, transactions, Web3 subset) stands on a C core in
-- tronlink-iOS-core/Classes/ABI/TrezorCrypto/trezor-crypto, which has the arithmetic of 256-bit
-- numbers, the elliptic curves on it, the hash functions, and the text forms of keys and
-- addresses. These modules model that core from its lowest layer up; paths below are relative to
-- that folder. A module that models code has the code's own function names; its child modules are
-- named for what they prove.
--
--   Base: the native numbers, Boolean tests, lists by index, and machine words. u8, u32 and u64
--     are the wrap-around of the unsigned C types, written wherever an operation can leave its
--     type. Base.Bits has the laws of the bit operations on fields of bits.
--   Bignum (bignum.c, bignum.h): a bignum256 is the list of its nine limbs of 30 bits, each
--     held in 32, with the lowest first; the C functions that write to an argument return its
--     new value. Number says what such a list is worth and when it is normalized. Sum, Shift,
--     Compare, Reduce, Multiply, Divide, Bits and Bytes each hold a group of the functions. A
--     loop over the limbs is a recursion along the list with the loop's accumulator as an
--     argument, and a loop whose number of rounds is a constant counts them down.
--   ConvertBits (convert_bits in segwit_addr.c): the regrouping of bits. Its inner loop runs on
--     fuel, as many rounds as there are pending bits; each round takes a bit at least, so that
--     these are enough.
--   Bech32 (segwit_addr.c): the checksum and the two directions of a Bech32 or Bech32m string.
--     A C string is the list of its characters' codes before the NUL, and a return of 0 is
--     none.
--   Segwit (segwit_addr.c): addresses, on Bech32 and ConvertBits.
--   Cash (cash_addr.c): the same for cash addresses, whose checksum has 40 bits. The decoder
--     makes capital letters small and allows 20 characters before the colon; the encoder does
--     neither.
--   Rc4 (rc4.c, rc4.h): the key schedule and the stream, with the context as a record that each
--     call takes and returns. rc4_init of an empty key, where the code divides by 0, is none.
--   Base32 (base32.c): blocks of five bytes and eight characters. The number of whole blocks is
--     computed from the length, as in the code, and the recursion counts it down.
--   Base58 (base58.c): the reading of Base58. The words of outi are a list, the most
--     significant first, and the inner loop, which runs from the last word on, recurs to the
--     end of the list before it multiplies; the output is all the bytes of bin and the new
--     size.
--   AddressPrefix (address.c): the version bytes in front of an address.
--   BlockHash (sha2.c): the Update, Final and Raw functions of the three hashes, which have one
--     text. A hash supplies its block lengths, its bit counter, its transform and the order of
--     its bytes; a context is a record, with the buffer as its bytes in memory. The loop over
--     the complete blocks counts them down from the quotient by the block length. The reading
--     of a little-endian host is modelled: the conversion of byte order is written out, also
--     where it leaves the buffer reversed.
--   Sha2 (sha2.c, sha2.h): SHA-1, SHA-256 and SHA-512 as such hashes, with the transforms that
--     are compiled where SHA2_UNROLL_TRANSFORM is not defined, as in this repository. The words
--     W of a transform are a list of 16 that its rounds overwrite.
--   Ripemd160 (ripemd160.c, ripemd160.h): RIPEMD-160. The arguments of the 80 uses of the macro
--     P2 are four lists, and the turn of the variables' names from one use to the next is a
--     turn of a record's fields.
--   Hmac (hmac.c, hmac.h): HMAC on a hash of BlockHash, with the constants of prepare as words
--     of the hash; its two instances have the code's names.
--   Pbkdf2 (pbkdf2.c, pbkdf2.h): PBKDF2 on such a hash. The loops over the iterations and over
--     the blocks count down how many are left; the contents of the buffer in the local context
--     of Init, which the code does not set, are an argument.
--
-- The loop over the limbs of bn_digitcount takes 26 groups of three decimal digits, as the code
-- does; that bounds the numbers it is right for by 10 ^ 78, above any of 256 bits.
--
-- Not modelled: the C functions' output buffers and what a function that fails leaves in them;
-- the constant time of the arithmetic; bn_sqrt, bn_inverse and bn_format; what a hash leaves in a
-- context that it clears after use, and its call with a null digest, which only clears; the
-- curves, the hash functions but SHA-2 and RIPEMD-160, the writing of Base58 and its checksums,
-- mnemonics and hierarchical keys. The vendored libraries (aes, chacha20poly1305, ed25519-donna),
-- the generated gRPC code and the Swift code are outside of these modules.
pub mod Base
pub mod Bignum
pub mod ConvertBits
pub mod Bech32
pub mod Segwit
pub mod AddressPrefix
pub mod Base32
pub mod Base58
pub mod BlockHash
pub mod Cash
pub mod Hmac
pub mod Pbkdf2
pub mod Rc4
pub mod Ripemd160
pub mod Sha2
