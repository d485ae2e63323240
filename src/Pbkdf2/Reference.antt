-- ===== src/Pbkdf2/Reference.antt =====
-- PBKDF2 as RFC 2898 defines it, and what its use in pbkdf2.c asks of a hash.
use mathlib.Core.List.{append_assoc}
use tronlink_i_os_core.Base.{
  ℕ, zero, suc, ◌+◌, ◌-◌, ◌*◌, ◌/◌, ◌<◌, ◌≡◌, ap, ◌∙◌, List, [], ◌++◌, arith, length, length-append,
  length-replicate, drop, set, replicate,
}
use tronlink_i_os_core.BlockHash.{BlockHash}
use tronlink_i_os_core.BlockHash.Padded.{IsBlockHash, absorb, blocks_before, padding, reference}
use tronlink_i_os_core.BlockHash.Feed.{absorb_one}
use tronlink_i_os_core.BlockHash.Finish.{one_block}
use tronlink_i_os_core.Sha2.Words.{bytes32}
use tronlink_i_os_core.Sha2.Xor.{xor_words}
use tronlink_i_os_core.Hmac.Reference.{IsHmacHash, hmac_reference}
use tronlink_i_os_core.Hmac.Prepare.{IsPad}
use tronlink_i_os_core.Pbkdf2.{Prf}

module _ (h : BlockHash) (law : IsBlockHash h) (pass : List ℕ) where
  -- The codes U of `n` more iterations after u, and their xor.
  unfoldable pub chain : ℕ → List ℕ → List ℕ → List ℕ
  chain zero u t = t
  chain (suc n) u t = let next = hmac_reference h law pass u in chain n next (xor_words t next)

  -- The function F of RFC 2898.
  unfoldable pub block_reference : List ℕ → ℕ → ℕ → List ℕ
  unfolding chain
  block_reference salt iterations i =
      let first = hmac_reference h law pass (salt ++ bytes32 i) in
      chain (iterations - 1) first first

  -- The blocks from i on.
  unfoldable pub blocks_reference : List ℕ → ℕ → ℕ → ℕ → List ℕ
  unfolding block_reference
  blocks_reference salt iterations zero i = []
  blocks_reference salt iterations (suc n) i =
      block_reference salt iterations i ++ blocks_reference salt iterations n (i + 1)

-- The words of g after a digest.
abbrev pub g_words : Prf → List ℕ
g_words q = drop 8 (set (set (replicate 16 0) 8 q.top_bit) 15 q.length_bits)

pub record IsPrf (q : Prf) (law : IsBlockHash q.hash) (m : IsHmacHash q.hash law) : Type 1 where
  pub IsState : List ℕ → Type 0
  pub pad : IsPad q.hash q.o_word q.i_word
  pub block_counted : law.Counts q.block_count q.hash.block_length
  pub same_length : q.digest_length ≡ m.digest_length
  pub digest_pos : 0 < m.digest_length
  pub digest_short : m.digest_length < q.hash.short_block_length
  pub transform-IsState : (state words : List ℕ) → IsState (q.hash.transform state words)
  pub length-state : (s : List ℕ) → IsState s → length s ≡ 8
  pub words-digest : (s : List ℕ) → IsState s → q.hash.words (q.hash.digest s) ≡ s
  pub words_padded :
      (bytes : List ℕ)
      → length bytes ≡ m.digest_length
      → q.hash.words (bytes ++ padding q.hash law (q.hash.block_length + m.digest_length))
        ≡ q.hash.words bytes ++ g_words q
  pub xor-IsState : (s t : List ℕ) → IsState s → IsState t → IsState (xor_words s t)
  pub digest-xor :
      (s t : List ℕ)
      → IsState s
      → IsState t
      → q.hash.digest (xor_words s t) ≡ xor_words (q.hash.digest s) (q.hash.digest t)

quotient_one : (b r : ℕ) → r < b → (b + r) / b ≡ 1
quotient_one b r lt = grind arith

length-zeros : (n : ℕ) → length (replicate {A = ℕ} n 0) ≡ n
length-zeros n = length-replicate n 0

module _ (h : BlockHash) (law : IsBlockHash h) where
  one_before : (d : ℕ) → d < h.short_block_length → blocks_before h (h.block_length + d) ≡ 1
  one_before d lt =
      ap (λ (n : ℕ). n / h.block_length)
        {x = h.block_length + d + (h.block_length - h.short_block_length)}
        {y = h.block_length + (d + (h.block_length - h.short_block_length))} (omega arith)
      ∙ quotient_one h.block_length (d + (h.block_length - h.short_block_length))
          (omega (arith, law.short_below))

  length-padding :
      (d : ℕ)
      → d < h.short_block_length
      → length (padding h law (h.block_length + d)) + d ≡ h.block_length
  length-padding d lt =
      let zeros : ℕ =
        blocks_before h (h.block_length + d) * h.block_length
        + h.short_block_length
        - (h.block_length + d + 1) in
      let count : zeros ≡ h.short_block_length - (d + 1) =
        ap (λ (n : ℕ). n * h.block_length + h.short_block_length - (h.block_length + d + 1))
          (one_before d lt)
        ∙ omega arith in
      omega (
        arith,
        length-append (replicate zeros 0) (law.length_bytes (h.block_length + d)),
        length-zeros zeros,
        law.length-length_bytes (h.block_length + d),
        count,
        law.short_below,
      )

  -- The hash of a block and a short rest: two transforms.
  pub reference-block :
      (block rest : List ℕ)
      → length block ≡ h.block_length
      → length rest < h.short_block_length
      → reference h law (block ++ rest)
        ≡ h.digest (
            h.transform
              (h.transform h.initial (h.words block))
              (h.words (rest ++ padding h law (h.block_length + length rest))))
  unfolding reference
  reference-block block rest len lt =
      let pad = padding h law (h.block_length + length rest) in
      ap
        (λ (l : ℕ).
          h.digest
            (absorb h (suc (blocks_before h l)) h.initial ((block ++ rest) ++ padding h law l)))
        {x = length (block ++ rest)} {y = h.block_length + length rest}
        (omega (arith, length-append block rest, len))
      ∙ ap (λ (n : ℕ). h.digest (absorb h (suc n) h.initial ((block ++ rest) ++ pad)))
          (one_before (length rest) lt)
      ∙ ap (λ (t : List ℕ). h.digest (absorb h 2 h.initial t)) (append_assoc block rest pad)
      ∙ ap h.digest (
          absorb_one h law 1 h.initial block (rest ++ pad) len
          ∙ one_block h law (h.transform h.initial (h.words block)) (rest ++ pad)
              (omega (arith, length-append rest pad, length-padding (length rest) lt)))
