-- ===== src/Pbkdf2/Key.antt =====
-- The Init functions and the whole key in pbkdf2.c.
use mathlib.Core.List.{append_assoc}
use tronlink_i_os_core.Base.{
  ℕ, suc, ◌+◌, ◌-◌, ◌^◌, ◌<◌, ◌≡◌, refl, ap, subst, ◌∙◌, sym, List, [], ◌++◌, arith, length, take,
  take-append, drop, set, replicate, All, IsByte,
}
use tronlink_i_os_core.BlockHash.{Context, overwrite, update, final}
use tronlink_i_os_core.BlockHash.Padded.{IsBlockHash, absorb, reference}
use tronlink_i_os_core.BlockHash.Feed.{IsFed, update-IsFed, absorb_one}
use tronlink_i_os_core.BlockHash.Finish.{final_lem}
use tronlink_i_os_core.Hmac.{xor_with}
use tronlink_i_os_core.Hmac.Reference.{
  IsHmacHash, padded_key, length-reference, reference-transform, hmac_reference,
}
use tronlink_i_os_core.Hmac.Prepare.{hmac_prepare_lem}
use tronlink_i_os_core.Sha2.Words.{bytes32}
use tronlink_i_os_core.Pbkdf2.{
  Prf, Pbkdf2Context, pbkdf2_init, pbkdf2_update, pbkdf2_final, key_digest,
}
use tronlink_i_os_core.Pbkdf2.Reference.{IsPrf, block_reference, g_words}
use tronlink_i_os_core.Pbkdf2.Rounds.{
  IsRound, pad_state, length-pad, transform-pad, overwrite-front, pbkdf2_rounds-IsRound,
}

module _ (q : Prf) (law : IsBlockHash q.hash) (m : IsHmacHash q.hash law) (p : IsPrf q law m)
    (pass : List ℕ) (small : length pass < 2 ^ 32) (bytes : All IsByte pass) where
  -- The context that starts from the state of the inner pad, whatever its buffer holds.
  keyed_context : List ℕ → Context q.hash
  keyed_context buffer = record {
    state = pad_state q law m p pass small 0x36;
    bitcount = q.block_count;
    buffer = buffer;
  }

  keyed_context-IsFed :
      (buffer : List ℕ)
      → length buffer ≡ q.hash.block_length
      → IsFed q.hash law (keyed_context buffer) (xor_with 0x36 (padded_key q.hash law pass)) []
  unfolding keyed_context
  keyed_context-IsFed buffer full =
      let pad = xor_with 0x36 (padded_key q.hash law pass) in
      let len = length-pad q law m p pass small 0x36 in
      record {
        blocks = 1;
        size = omega (arith, len);
        short = omega (arith, law.short_below);
        held = refl;
        full = full;
        counted = subst (law.Counts q.block_count) (sym len) p.block_counted;
        absorbed = λ k rest.
            ap (λ (n : ℕ). absorb q.hash n q.hash.initial (pad ++ rest)) {x = 1 + k} {y = suc k}
              (omega arith)
            ∙ absorb_one q.hash law k q.hash.initial pad rest len;
      }

  first_inner :
      (buffer salt : List ℕ) (i : ℕ)
      → length buffer ≡ q.hash.block_length
      → length salt < 2 ^ 61
      → final q.hash (update q.hash (update q.hash (keyed_context buffer) salt) (bytes32 i))
        ≡ reference q.hash law (xor_with 0x36 (padded_key q.hash law pass) ++ (salt ++ bytes32 i))
  first_inner buffer salt i full len =
      let pad = xor_with 0x36 (padded_key q.hash law pass) in
      let (tail1, f1) =
        update-IsFed q.hash law (keyed_context buffer) pad [] salt (keyed_context-IsFed buffer full)
          len in
      let (tail2, f2) =
        update-IsFed q.hash law (update q.hash (keyed_context buffer) salt) (pad ++ salt) tail1
          (bytes32 i) f1 (omega arith) in
      final_lem q.hash law (update q.hash (update q.hash (keyed_context buffer) salt) (bytes32 i))
        ((pad ++ salt) ++ bytes32 i) tail2 f2
      ∙ ap (reference q.hash law) (append_assoc pad salt (bytes32 i))

  -- Every hash of a message is the digest of a state.
  reference-state :
      (message : List ℕ)
      → (s : List ℕ) × p.IsState s × (reference q.hash law message ≡ q.hash.digest s)
  reference-state message =
      reference-transform q.hash law (λ d. (s : List ℕ) × p.IsState s × (d ≡ q.hash.digest s))
        (λ state words. (q.hash.transform state words, p.transform-IsState state words, refl))
        message

  -- The end of Init, from the two states and the digest.
  started : List ℕ × List ℕ → List ℕ → Pbkdf2Context
  started (odig, idig) digest =
      let g = set (set (replicate 16 0) 8 q.top_bit) 15 q.length_bits in
      let g = overwrite g 0 (q.hash.words digest) in
      let g = overwrite g 0 (q.hash.transform odig g) in
      record { odig = odig; idig = idig; f = take 8 g; g = g; first = 1 }

  pads : List ℕ × List ℕ
  pads = (pad_state q law m p pass small 0x5c, pad_state q law m p pass small 0x36)

  started-IsRound :
      (s u : List ℕ)
      → p.IsState s
      → q.hash.digest s ≡ reference q.hash law (xor_with 0x36 (padded_key q.hash law pass) ++ u)
      → IsRound q law m p pass small
          (started pads (q.hash.digest s))
          (hmac_reference q.hash law pass u)
          (hmac_reference q.hash law pass u)
  unfolding started pads hmac_reference
  started-IsRound s u state same =
      let g0 = set (set (replicate 16 0) 8 q.top_bit) 15 q.length_bits in
      let raw : List ℕ = overwrite g0 0 (q.hash.words (q.hash.digest s)) in
      let s2 : List ℕ = q.hash.transform (pad_state q law m p pass small 0x5c) raw in
      let k2 = p.transform-IsState (pad_state q law m p pass small 0x5c) raw in
      let l2 = p.length-state s2 k2 in
      let g1 : raw ≡ s ++ g_words q =
        ap (overwrite g0 0) (p.words-digest s state)
        ∙ ap (λ (n : ℕ). s ++ drop n g0) {x = 0 + length s} {y = 8}
            (omega (arith, p.length-state s state)) in
      let g2 : overwrite raw 0 s2 ≡ s2 ++ g_words q =
        ap (λ (g : List ℕ). overwrite g 0 s2) g1
        ∙ overwrite-front s s2 (g_words q) (omega (arith, p.length-state s state, l2)) in
      let f2 : take 8 (overwrite raw 0 s2) ≡ s2 =
        ap (take 8) g2 ∙ take-append s2 (g_words q) 8 l2 in
      let d2 : q.hash.digest s2
          ≡ reference q.hash law (
              xor_with 0x5c (padded_key q.hash law pass)
              ++ reference q.hash law (xor_with 0x36 (padded_key q.hash law pass) ++ u)) =
        ap
          (λ (g : List ℕ). q.hash.digest (q.hash.transform (pad_state q law m p pass small 0x5c) g))
          g1
        ∙ transform-pad q law m p pass small 0x5c s state
            (ap length same ∙ length-reference q.hash law m pass small _)
        ∙ ap
            (λ (d : List ℕ). reference q.hash law (xor_with 0x5c (padded_key q.hash law pass) ++ d))
            same in
      record {
        outer = refl;
        inner = refl;
        last = s2;
        last-IsState = k2;
        g_lem = g2;
        u_lem = d2;
        f-IsState = rw f2 k2;
        t_lem = ap q.hash.digest f2 ∙ d2;
        u_length = length-reference q.hash law m pass small _;
      }

  pub pbkdf2_init-IsRound :
      (buffer salt : List ℕ) (i : ℕ)
      → length buffer ≡ q.hash.block_length
      → length salt < 2 ^ 61
      → IsRound q law m p pass small
          (pbkdf2_init q buffer pass salt i)
          (hmac_reference q.hash law pass (salt ++ bytes32 i))
          (hmac_reference q.hash law pass (salt ++ bytes32 i))
  unfolding pbkdf2_init started pads keyed_context
  pbkdf2_init-IsRound buffer salt i full len =
      let (s, state, same) =
        reference-state (xor_with 0x36 (padded_key q.hash law pass) ++ (salt ++ bytes32 i)) in
      let begun : pbkdf2_init q buffer pass salt i ≡ started pads (q.hash.digest s) =
        ap
          (λ (prep : List ℕ × List ℕ). started prep (
            final q.hash (
              update q.hash
                (update q.hash
                  (record { state = prep.1; bitcount = q.block_count; buffer = buffer }) salt)
                (bytes32 i))))
          (hmac_prepare_lem q.hash law m q.o_word q.i_word p.pad pass small bytes)
        ∙ ap (started pads) (first_inner buffer salt i full len ∙ same) in
      subst
        (λ (c : Pbkdf2Context).
          IsRound q law m p pass small c (hmac_reference q.hash law pass (salt ++ bytes32 i))
            (hmac_reference q.hash law pass (salt ++ bytes32 i)))
        (sym begun) (started-IsRound s (salt ++ bytes32 i) state (sym same))

  -- The digest of one block of the key.
  pub key_digest_lem :
      (buffer salt : List ℕ) (iterations i : ℕ)
      → length buffer ≡ q.hash.block_length
      → length salt < 2 ^ 61
      → key_digest q buffer pass salt iterations i
        ≡ block_reference q.hash law pass salt iterations i
  unfolding key_digest pbkdf2_update pbkdf2_final block_reference pbkdf2_init
  key_digest_lem buffer salt iterations i full len =
      pbkdf2_rounds-IsRound q law m p pass small (iterations - 1) (pbkdf2_init q buffer pass salt i)
        (hmac_reference q.hash law pass (salt ++ bytes32 i))
        (hmac_reference q.hash law pass (salt ++ bytes32 i))
        (pbkdf2_init-IsRound buffer salt i full len)
