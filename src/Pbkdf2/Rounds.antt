-- ===== src/Pbkdf2/Rounds.antt =====
-- pbkdf2_hmac_sha256_Update and pbkdf2_hmac_sha512_Update in pbkdf2.c: what a context holds.
use mathlib.Core.Path.{ap₂}
use tronlink_i_os_core.Base.{
  ℕ, zero, suc, ◌+◌, ◌^◌, ◌<◌, ◌≡◌, refl, ap, ◌∙◌, sym, List, [], ◌∷◌, ◌++◌, arith, length,
  length-map, drop-append, bit_xor,
}
use tronlink_i_os_core.BlockHash.{overwrite}
use tronlink_i_os_core.BlockHash.Padded.{IsBlockHash, padding, reference}
use tronlink_i_os_core.Hmac.{xor_with}
use tronlink_i_os_core.Hmac.Reference.{
  IsHmacHash, padded_key, length-padded_key, length-reference, hmac_reference,
}
use tronlink_i_os_core.Sha2.Xor.{xor_words}
use tronlink_i_os_core.Pbkdf2.{Prf, Pbkdf2Context, pbkdf2_round, pbkdf2_rounds}
use tronlink_i_os_core.Pbkdf2.Reference.{IsPrf, chain, g_words, reference-block}

pub overwrite-front :
    (s t rest : List ℕ) → length s ≡ length t → overwrite (s ++ rest) 0 t ≡ t ++ rest
overwrite-front s t rest e =
    ap (λ (r : List ℕ). t ++ r) (drop-append s rest (0 + length t) (omega (arith, e)))

-- The loop over f does not see what stands behind as many words.
xor_words-append :
    (f s rest : List ℕ) → length f ≡ length s → xor_words f (s ++ rest) ≡ xor_words f s
unfolding xor_words
xor_words-append [] s rest e = refl
xor_words-append (w ∷ f) [] rest e = absurd (omega arith)
xor_words-append (w ∷ f) (v ∷ s) rest e =
    ap (λ (t : List ℕ). bit_xor w v ∷ t) (xor_words-append f s rest (omega arith))

module _ (q : Prf) (law : IsBlockHash q.hash) (m : IsHmacHash q.hash law) (p : IsPrf q law m)
    (pass : List ℕ) (small : length pass < 2 ^ 32) where
  abbrev pub pad_state : ℕ → List ℕ
  pad_state c =
      q.hash.transform q.hash.initial (q.hash.words (xor_with c (padded_key q.hash law pass)))

  pub length-pad : (c : ℕ) → length (xor_with c (padded_key q.hash law pass)) ≡ q.hash.block_length
  length-pad c =
      length-map (padded_key q.hash law pass) (λ (x : ℕ). bit_xor x c)
      ∙ length-padded_key q.hash law m pass small

  -- A transform on a state and the constant words is the hash of a pad and the state's digest.
  pub transform-pad :
      (c : ℕ) (s : List ℕ)
      → p.IsState s
      → length (q.hash.digest s) ≡ m.digest_length
      → q.hash.digest (q.hash.transform (pad_state c) (s ++ g_words q))
        ≡ reference q.hash law (xor_with c (padded_key q.hash law pass) ++ q.hash.digest s)
  transform-pad c s state len =
      ap (λ (w : List ℕ). q.hash.digest (q.hash.transform (pad_state c) w))
        (sym (
          ap
            (λ (l : ℕ).
              q.hash.words (q.hash.digest s ++ padding q.hash law (q.hash.block_length + l)))
            len
          ∙ p.words_padded (q.hash.digest s) len
          ∙ ap (λ (t : List ℕ). t ++ g_words q) (p.words-digest s state)))
      ∙ sym (
          reference-block q.hash law (xor_with c (padded_key q.hash law pass)) (q.hash.digest s)
            (length-pad c) (omega (arith, len, p.digest_short)))

  -- The context after a number of iterations: u is the last code, and t the xor of all.
  pub record IsRound (pctx : Pbkdf2Context) (u t : List ℕ) : Type 0 where
    pub outer : pctx.odig ≡ pad_state 0x5c
    pub inner : pctx.idig ≡ pad_state 0x36
    pub last : List ℕ
    pub last-IsState : p.IsState last
    pub g_lem : pctx.g ≡ last ++ g_words q
    pub u_lem : q.hash.digest last ≡ u
    pub f-IsState : p.IsState pctx.f
    pub t_lem : q.hash.digest pctx.f ≡ t
    pub u_length : length u ≡ m.digest_length

  pub pbkdf2_round-IsRound :
      (pctx : Pbkdf2Context) (u t : List ℕ)
      → IsRound pctx u t
      → IsRound
          (pbkdf2_round q pctx)
          (hmac_reference q.hash law pass u)
          (xor_words t (hmac_reference q.hash law pass u))
  unfolding pbkdf2_round hmac_reference
  pbkdf2_round-IsRound pctx u t r =
      let s1 : List ℕ = q.hash.transform pctx.idig pctx.g in
      let s2 : List ℕ = q.hash.transform pctx.odig (overwrite pctx.g 0 s1) in
      let k1 = p.transform-IsState pctx.idig pctx.g in
      let k2 = p.transform-IsState pctx.odig (overwrite pctx.g 0 s1) in
      let l1 = p.length-state s1 k1 in
      let l2 = p.length-state s2 k2 in
      let g1 : overwrite pctx.g 0 s1 ≡ s1 ++ g_words q =
        ap (λ (g : List ℕ). overwrite g 0 s1) r.g_lem
        ∙ overwrite-front r.last s1 (g_words q)
            (omega (arith, p.length-state r.last r.last-IsState, l1)) in
      let g2 : overwrite (overwrite pctx.g 0 s1) 0 s2 ≡ s2 ++ g_words q =
        ap (λ (g : List ℕ). overwrite g 0 s2) g1
        ∙ overwrite-front s1 s2 (g_words q) (omega (arith, l1, l2)) in
      let d1 : q.hash.digest s1
          ≡ reference q.hash law (xor_with 0x36 (padded_key q.hash law pass) ++ u) =
        ap₂ (λ (i g : List ℕ). q.hash.digest (q.hash.transform i g)) r.inner r.g_lem
        ∙ transform-pad 0x36 r.last r.last-IsState (ap length r.u_lem ∙ r.u_length)
        ∙ ap
            (λ (d : List ℕ). reference q.hash law (xor_with 0x36 (padded_key q.hash law pass) ++ d))
            r.u_lem in
      let d2 : q.hash.digest s2
          ≡ reference q.hash law (
              xor_with 0x5c (padded_key q.hash law pass)
              ++ reference q.hash law (xor_with 0x36 (padded_key q.hash law pass) ++ u)) =
        ap₂ (λ (o g : List ℕ). q.hash.digest (q.hash.transform o g)) r.outer g1
        ∙ transform-pad 0x5c s1 k1 (ap length d1 ∙ length-reference q.hash law m pass small _)
        ∙ ap
            (λ (d : List ℕ). reference q.hash law (xor_with 0x5c (padded_key q.hash law pass) ++ d))
            d1 in
      let f2 : xor_words pctx.f (overwrite (overwrite pctx.g 0 s1) 0 s2) ≡ xor_words pctx.f s2 =
        ap (xor_words pctx.f) g2
        ∙ xor_words-append pctx.f s2 (g_words q)
            (omega (arith, p.length-state pctx.f r.f-IsState, l2)) in
      record {
        outer = r.outer;
        inner = r.inner;
        last = s2;
        last-IsState = k2;
        g_lem = g2;
        u_lem = d2;
        f-IsState = rw f2 (p.xor-IsState pctx.f s2 r.f-IsState k2);
        t_lem =
            ap q.hash.digest f2 ∙ p.digest-xor pctx.f s2 r.f-IsState k2 ∙ ap₂ xor_words r.t_lem d2;
        u_length = length-reference q.hash law m pass small _;
      }

  pub pbkdf2_rounds-IsRound :
      (n : ℕ) (pctx : Pbkdf2Context) (u t : List ℕ)
      → IsRound pctx u t
      → q.hash.digest (pbkdf2_rounds q n pctx).f ≡ chain q.hash law pass n u t
  unfolding pbkdf2_rounds chain
  pbkdf2_rounds-IsRound zero pctx u t r = r.t_lem
  pbkdf2_rounds-IsRound (suc n) pctx u t r =
      pbkdf2_rounds-IsRound n (pbkdf2_round q pctx) (hmac_reference q.hash law pass u)
        (xor_words t (hmac_reference q.hash law pass u)) (pbkdf2_round-IsRound pctx u t r)
