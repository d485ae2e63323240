-- ===== src/Pbkdf2/Blocks.antt =====
-- The loop over the blocks of the key in pbkdf2.c, and Update in several calls.
use mathlib.Core.List.{append-nil}
use native.Mathlib.Nat.{div-add-mod', mod-lt}
use tronlink_i_os_core.Base.{
  ℕ, zero, suc, ◌+◌, ◌-◌, ◌*◌, ◌/◌, ◌%◌, ◌^◌, ◌<◌, ◌≤◌, ◌≡◌, inl, inr, refl, ap, ◌∙◌, sym, List, [],
  ◌∷◌, ◌++◌, arith, length, take, All, IsByte, ◌==◌, Bool-cases,
}
use tronlink_i_os_core.BlockHash.Padded.{IsBlockHash}
use tronlink_i_os_core.Hmac.Reference.{IsHmacHash, length-reference, hmac_reference}
use tronlink_i_os_core.Sha2.Xor.{xor_words, length-xor_words}
use tronlink_i_os_core.Pbkdf2.{
  Prf, Pbkdf2Context, pbkdf2_round, pbkdf2_rounds, pbkdf2_update, key_blocks, pbkdf2,
}
use tronlink_i_os_core.Pbkdf2.Reference.{IsPrf, chain, block_reference, blocks_reference}
use tronlink_i_os_core.Pbkdf2.Key.{key_digest_lem}

take-append_more :
    (xs ys : List ℕ) (d n : ℕ) → length xs ≡ d → take (d + n) (xs ++ ys) ≡ xs ++ take n ys
take-append_more [] ys d n h = ap (λ (k : ℕ). take k ys) {x = d + n} {y = n} (omega (arith, h))
take-append_more (x ∷ xs) ys d n h =
    ap (λ (k : ℕ). take k (x ∷ (xs ++ ys))) {x = d + n} {y = suc (length xs + n)} (omega (arith, h))
    ∙ ap (λ (t : List ℕ). x ∷ t) (take-append_more xs ys (length xs) n refl)

count : (n r k d : ℕ) → r < d → k ≡ n * d + r → k / d ≡ n
count n r k d lt e = grind (arith, e)

rounded_up : (k n r d : ℕ) → k ≡ n * d + r → 0 < r → 0 < d → k + (d - 1) ≡ (n + 1) * d + (r - 1)
rounded_up k n r d e pos lt = grind (arith, e)

module _ (q : Prf) (law : IsBlockHash q.hash) (m : IsHmacHash q.hash law) (p : IsPrf q law m)
    (pass : List ℕ) (small : length pass < 2 ^ 32) (bytes : All IsByte pass) where
  length-chain : (n : ℕ) (u t : List ℕ) → length (chain q.hash law pass n u t) ≡ length t
  unfolding chain
  length-chain zero u t = refl
  length-chain (suc n) u t =
      let next = hmac_reference q.hash law pass u in
      length-chain n next (xor_words t next) ∙ length-xor_words t next

  length-block_reference :
      (salt : List ℕ) (iterations i : ℕ)
      → length (block_reference q.hash law pass salt iterations i) ≡ q.digest_length
  unfolding block_reference hmac_reference
  length-block_reference salt iterations i =
      length-chain (iterations - 1) _ _
      ∙ length-reference q.hash law m pass small _
      ∙ sym p.same_length

  module _ (buffer : ℕ → List ℕ) (full : (i : ℕ) → length (buffer i) ≡ q.hash.block_length)
      (salt : List ℕ) (len : length salt < 2 ^ 61) (iterations : ℕ) where
    key_blocks-take :
        (n last i : ℕ)
        → last ≤ q.digest_length
        → key_blocks q (suc n) buffer pass salt iterations last i
          ≡ take
              (n * q.digest_length + last)
              (blocks_reference q.hash law pass salt iterations (suc n) i)
    unfolding key_blocks blocks_reference
    key_blocks-take zero last i le =
        ap (take last)
          (key_digest_lem q law m p pass small bytes (buffer i) salt iterations i (full i) len)
        ∙ ap (take last) (sym (append-nil (block_reference q.hash law pass salt iterations i)))
        ∙ ap (λ (k : ℕ). take k (block_reference q.hash law pass salt iterations i ++ []))
            {x = last} {y = 0 * q.digest_length + last} (omega arith)
    key_blocks-take (suc n) last i le =
        let block = block_reference q.hash law pass salt iterations i in
        let rest = blocks_reference q.hash law pass salt iterations (suc n) (i + 1) in
        ap (λ (d : List ℕ). d ++ key_blocks q (suc n) buffer pass salt iterations last (i + 1))
          (key_digest_lem q law m p pass small bytes (buffer i) salt iterations i (full i) len)
        ∙ ap (λ (t : List ℕ). block ++ t) (key_blocks-take n last (i + 1) le)
        ∙ sym (
            take-append_more block rest q.digest_length (n * q.digest_length + last)
              (length-block_reference salt iterations i))
        ∙ ap (λ (k : ℕ). take k (block ++ rest)) (grind arith)

    key_blocks_whole :
        (n keylen : ℕ)
        → keylen ≡ n * q.digest_length
        → key_blocks q n buffer pass salt iterations q.digest_length 1
          ≡ take keylen (blocks_reference q.hash law pass salt iterations n 1)
    unfolding key_blocks blocks_reference
    key_blocks_whole zero keylen e =
        ap (λ (k : ℕ). take k []) {x = 0} {y = keylen} (omega (arith, e))
    key_blocks_whole (suc n) keylen e =
        key_blocks-take n q.digest_length 1 (omega arith)
        ∙ ap (λ (k : ℕ). take k (blocks_reference q.hash law pass salt iterations (suc n) 1))
            (grind (arith, e))

    part_block :
        (n last keylen : ℕ)
        → last ≤ q.digest_length
        → keylen ≡ n * q.digest_length + last
        → key_blocks q (n + 1) buffer pass salt iterations last 1
          ≡ take keylen (blocks_reference q.hash law pass salt iterations (n + 1) 1)
    part_block n last keylen le e =
        ap (λ (k : ℕ). key_blocks q k buffer pass salt iterations last 1) {x = n + 1} {y = suc n}
          (omega arith)
        ∙ key_blocks-take n last 1 le
        ∙ ap (λ (k : ℕ). take k (blocks_reference q.hash law pass salt iterations (suc n) 1))
            (sym e)
        ∙ ap (λ (k : ℕ). take keylen (blocks_reference q.hash law pass salt iterations k 1))
            {x = suc n} {y = n + 1} (omega arith)

    -- As many blocks as the key needs, cut to its length.
    pub pbkdf2_lem :
        (keylen : ℕ)
        → pbkdf2 q buffer pass salt iterations keylen
          ≡ take keylen (
              blocks_reference q.hash law pass salt iterations
                ((keylen + (q.digest_length - 1)) / q.digest_length)
                1)
    unfolding pbkdf2
    pbkdf2_lem keylen =
        let d = q.digest_length in
        let pos : 0 < d = omega (arith, p.same_length, p.digest_pos) in
        let parts : keylen ≡ keylen / d * d + keylen % d = sym (div-add-mod' keylen d) in
        let short : keylen % d < d = mod-lt keylen pos in
        elim (Bool-cases (keylen % d == 0)) [
          | inl none_left ↦ rw none_left (
              key_blocks_whole (keylen / d) keylen (ground (arith, parts))
              ∙ ap (λ (n : ℕ). take keylen (blocks_reference q.hash law pass salt iterations n 1))
                  (sym (
                    count (keylen / d) (d - 1) (keylen + (d - 1)) d (omega arith)
                      (ground (arith, parts)))))
          | inr some_left ↦ rw some_left (
              part_block (keylen / d) (keylen % d) keylen (omega arith) parts
              ∙ ap (λ (n : ℕ). take keylen (blocks_reference q.hash law pass salt iterations n 1))
                  (sym (
                    count (keylen / d + 1) (keylen % d - 1) (keylen + (d - 1)) d (omega arith)
                      (rounded_up keylen (keylen / d) (keylen % d) d parts (ground arith) pos))))
        ]

-- Update in two calls is Update with the sum of the iterations.
module _ (q : Prf) where
  rounds_reset :
      (n : ℕ) (pctx : Pbkdf2Context)
      → ◌≡◌ {A = Pbkdf2Context}
          (record (pbkdf2_rounds q n (record pctx { first = 0 })) { first = 0 })
          (record (pbkdf2_rounds q n pctx) { first = 0 })
  unfolding pbkdf2_rounds pbkdf2_round
  rounds_reset zero pctx = refl
  rounds_reset (suc n) pctx = rounds_reset n (pbkdf2_round q pctx)

  rounds-add :
      (a b : ℕ) (pctx : Pbkdf2Context)
      → pbkdf2_rounds q b (pbkdf2_rounds q a pctx) ≡ pbkdf2_rounds q (a + b) pctx
  unfolding pbkdf2_rounds
  rounds-add zero b pctx = ap (λ (n : ℕ). pbkdf2_rounds q n pctx) {x = b} {y = 0 + b} (omega arith)
  rounds-add (suc a) b pctx =
      rounds-add a b (pbkdf2_round q pctx)
      ∙ ap (λ (n : ℕ). pbkdf2_rounds q n pctx) {x = suc (a + b)} {y = suc a + b} (omega arith)

  -- Iterations can be run in two calls of Update as in one with their sum, where the first call
  -- runs one at least (or the context is not new).
  pub pbkdf2_update-pbkdf2_update :
      (pctx : Pbkdf2Context) (a b : ℕ)
      → pctx.first ≤ a
      → pbkdf2_update q (pbkdf2_update q pctx a) b ≡ pbkdf2_update q pctx (a + b)
  unfolding pbkdf2_update
  pbkdf2_update-pbkdf2_update pctx a b le =
      rounds_reset (b - 0) (pbkdf2_rounds q (a - pctx.first) pctx)
      ∙ ap (λ (c : Pbkdf2Context). record c { first = 0 })
          (rounds-add (a - pctx.first) (b - 0) pctx
            ∙ ap (λ (n : ℕ). pbkdf2_rounds q n pctx) {x = a - pctx.first + (b - 0)}
                {y = a + b - pctx.first} (omega arith))
