-- ===== src/Hmac/Reference.antt =====
-- HMAC as RFC 2104 defines it, and the functions of hmac.c on a message in pieces.
use tronlink_i_os_core.Base.{
  ℕ, ◌+◌, ◌-◌, ◌^◌, ◌<◌, ◌≤◌, ◌≡◌, inl, inr, ap, ◌∙◌, sym, List, [], ◌++◌, arith, length,
  length-append, take, suc, zero, bit_xor, subst, replicate, length-replicate, replicate-add, drop,
  drop-append, ltb, if◌then◌else◌, Bool-cases, All, All-append, IsByte, length-map,
}
use mathlib.Core.Path.{ap₂}
use mathlib.Core.List.{append_assoc, append-nil}
use tronlink_i_os_core.BlockHash.{BlockHash, overwrite, init, update, final}
use tronlink_i_os_core.BlockHash.Padded.{IsBlockHash, reference, absorb, blocks_before, padding}
use tronlink_i_os_core.BlockHash.Finish.{raw_lem, final-Run}
use tronlink_i_os_core.BlockHash.Feed.{Run, start, feed}
use tronlink_i_os_core.Hmac.{xor_with, HmacContext, key_block, hmac_init, hmac_update, hmac_final}

-- A hash whose digest is some number of bytes, no more than a block has.
pub record IsHmacHash (h : BlockHash) (law : IsBlockHash h) : Type 0 where
  pub digest_length : ℕ
  pub digest_fits : digest_length ≤ h.block_length
  pub block_small : h.block_length < 2 ^ 32
  pub length-digest :
      (state words : List ℕ) → length (h.digest (h.transform state words)) ≡ digest_length
  pub digest-IsByte : (state words : List ℕ) → All IsByte (h.digest (h.transform state words))

length-zeros : (n : ℕ) → length (replicate {A = ℕ} n 0) ≡ n
length-zeros n = length-replicate n 0

zeros-IsByte : (n : ℕ) → All IsByte (replicate n 0)
zeros-IsByte zero = tt
zeros-IsByte (suc n) = (omega arith, zeros-IsByte n)

drop-replicate : (n m : ℕ) → m ≤ n → drop m (replicate {A = ℕ} n 0) ≡ replicate (n - m) 0
drop-replicate n m h =
    ap (λ (k : ℕ). drop m (replicate k 0)) {x = n} {y = m + (n - m)} (omega arith)
    ∙ ap (drop m) (sym (replicate-add m (n - m) 0))
    ∙ drop-append (replicate m 0) (replicate (n - m) 0) m (length-replicate m 0)

module _ (h : BlockHash) (law : IsBlockHash h) where
  -- The key, or its hash where it is longer than a block, and zeros up to a block.
  abbrev pub padded_key : List ℕ → List ℕ
  padded_key key =
      let k = if ltb h.block_length (length key) then reference h law key else key in
      k ++ replicate (h.block_length - length k) 0

  unfoldable pub hmac_reference : List ℕ → List ℕ → List ℕ
  hmac_reference key message = reference h law (
      xor_with 0x5c (padded_key key) ++ reference h law (xor_with 0x36 (padded_key key) ++ message))

  -- The contexts that calls of update reach from init with a key, and the message so far.
  pub data HmacRun (key : List ℕ) : HmacContext h → List ℕ → Type 0 where
    keyed : HmacRun key (hmac_init h key) []
    more :
        {hctx : HmacContext h} {message : List ℕ} (bytes : List ℕ)
        → length bytes < 2 ^ 32
        → HmacRun key hctx message
        → HmacRun key (hmac_update h hctx bytes) (message ++ bytes)

  -- What holds of every digest of a transform's state holds of the hash of a message.
  pub reference-transform :
      (P : List ℕ → Type 0)
      → ((state words : List ℕ) → P (h.digest (h.transform state words)))
      → (bytes : List ℕ) → P (reference h law bytes)
  unfolding reference
  reference-transform P each bytes =
      absorbed (blocks_before h (length bytes)) h.initial (bytes ++ padding h law (length bytes))
    where
      absorbed : (n : ℕ) (state bytes : List ℕ) → P (h.digest (absorb h (suc n) state bytes))
      absorbed zero state bytes = each state (h.words (take h.block_length bytes))
      absorbed (suc n) state bytes =
          absorbed n (h.transform state (h.words (take h.block_length bytes)))
            (drop h.block_length bytes)

  module _ (m : IsHmacHash h law) (key : List ℕ) (small : length key < 2 ^ 32) where
    pub length-reference : (bytes : List ℕ) → length (reference h law bytes) ≡ m.digest_length
    length-reference bytes =
        reference-transform (λ d. length d ≡ m.digest_length) m.length-digest bytes

    pub reference-IsByte : (bytes : List ℕ) → All IsByte (reference h law bytes)
    reference-IsByte bytes = reference-transform (All IsByte) m.digest-IsByte bytes

    -- What the key block starts with.
    key_bytes : List ℕ
    key_bytes = if ltb h.block_length (length key) then reference h law key else key

    length-key_bytes : length key_bytes ≤ h.block_length
    unfolding key_bytes
    length-key_bytes = elim (Bool-cases (ltb h.block_length (length key))) [
      | inl long ↦ rw long (omega (arith, length-reference key, m.digest_fits))
      | inr short ↦ rw short (ground arith)
    ]

    pub key_block_lem : key_block h key ≡ padded_key key
    unfolding key_block key_bytes
    key_block_lem =
        ap
          (λ (k : List ℕ).
            overwrite (replicate h.block_length 0) 0
              (if ltb h.block_length (length key) then k else key))
          (raw_lem h law key (omega arith))
        ∙ ap (λ (t : List ℕ). key_bytes ++ t) (zeros (length key_bytes) length-key_bytes)
      where
        zeros :
            (n : ℕ)
            → n ≤ h.block_length
            → drop (0 + n) (replicate {A = ℕ} h.block_length 0) ≡ replicate (h.block_length - n) 0
        zeros n le =
            ap (λ (k : ℕ). drop k (replicate {A = ℕ} h.block_length 0)) {x = 0 + n} {y = n}
              (omega arith)
            ∙ drop-replicate h.block_length n le

    pub length-padded_key : length (padded_key key) ≡ h.block_length
    unfolding key_bytes
    length-padded_key = omega (
      arith,
      length-append key_bytes (replicate (h.block_length - length key_bytes) 0),
      length-zeros (h.block_length - length key_bytes),
      length-key_bytes,
    )

    pub padded_key-IsByte : All IsByte key → All IsByte (padded_key key)
    unfolding key_bytes
    padded_key-IsByte bytes =
        All-append IsByte key_bytes (replicate (h.block_length - length key_bytes) 0) front
          (zeros-IsByte (h.block_length - length key_bytes))
      where
        front : All IsByte key_bytes
        front = elim (Bool-cases (ltb h.block_length (length key))) [
          | inl long ↦ rw long (reference-IsByte key)
          | inr short ↦ rw short bytes
        ]

    -- A pad is a block, and a short one to feed.
    pub pad_small : (c : ℕ) → length (xor_with c (padded_key key)) < 2 ^ 61
    pad_small c = omega (
      arith,
      length-map (padded_key key) (λ (x : ℕ). bit_xor x c),
      length-padded_key,
      m.block_small,
    )

    HmacRun-Run :
        {hctx : HmacContext h} {message : List ℕ}
        → HmacRun key hctx message
        → (hctx.o_key_pad ≡ xor_with 0x5c (padded_key key))
          × Run h hctx.ctx (xor_with 0x36 (padded_key key) ++ message)
    unfolding hmac_init hmac_update
    HmacRun-Run keyed = (
      ap (xor_with 0x5c) key_block_lem,
      subst
          (λ (k : List ℕ).
            Run h (update h (init h) (xor_with 0x36 k)) (xor_with 0x36 (padded_key key) ++ []))
          (sym key_block_lem)
          (subst (Run h (update h (init h) (xor_with 0x36 (padded_key key))))
            (sym (append-nil (xor_with 0x36 (padded_key key))))
            (feed (xor_with 0x36 (padded_key key)) (pad_small 0x36) start)),
    )
    HmacRun-Run (more {hctx} {message} bytes len run) =
        let (pad, fed) = HmacRun-Run run in
        (
          pad,
          subst (Run h (update h hctx.ctx bytes))
              (append_assoc (xor_with 0x36 (padded_key key)) message bytes)
              (feed bytes (omega arith) fed),
        )

    -- From any context that calls of update reach from init, final gives the code of the message.
    pub hmac_final-HmacRun :
        {hctx : HmacContext h} {message : List ℕ}
        → HmacRun key hctx message
        → hmac_final h hctx ≡ hmac_reference key message
    unfolding hmac_final hmac_reference
    hmac_final-HmacRun {hctx} {message} run =
        let (pad, fed) = HmacRun-Run run in
        let inner = reference h law (xor_with 0x36 (padded_key key) ++ message) in
        ap₂ (λ (o d : List ℕ). final h (update h (update h (init h) o) d)) pad (final-Run h law fed)
        ∙ final-Run h law (
            feed inner (omega (arith, length-reference _, m.digest_fits, m.block_small))
              (feed (xor_with 0x5c (padded_key key)) (pad_small 0x5c) start))
