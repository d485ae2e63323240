-- ===== src/BlockHash/Feed.antt =====
-- update of BlockHash.antt: what a context holds of the message fed to it.
use tronlink_i_os_core.Base.{
  ℕ, zero, suc, ◌+◌, ◌-◌, ◌*◌, ◌/◌, ◌^◌, ◌<◌, ◌≤◌, ◌≡◌, inl, inr, refl, ap, subst, ◌∙◌, sym, List,
  [], ◌∷◌, ◌++◌, arith, length, length-append, length-take, length-drop, length-replicate, take,
  drop, take-append, drop-append, take-append-drop, leb, ◌==◌, Bool-cases, false,
}
use mathlib.Core.List.{append_assoc, append-nil}
use native.Mathlib.Nat.{mod-lt, div-add-mod'}
use tronlink_i_os_core.BlockHash.{
  BlockHash, Context, init, overwrite, process, store, complete_blocks, update,
}
use tronlink_i_os_core.BlockHash.Padded.{
  IsBlockHash, absorb, length-overwrite, take-overwrite, overwrite_full,
}

module _ (h : BlockHash) (law : IsBlockHash h) where
  -- The context after a message of whole blocks and `tail`: what is absorbed is in the state, and
  -- the tail in the buffer.
  pub record IsFed (ctx : Context h) (message tail : List ℕ) : Type 0 where
    pub blocks : ℕ
    pub size : length message ≡ blocks * h.block_length + length tail
    pub short : length tail < h.block_length
    pub held : take (length tail) ctx.buffer ≡ tail
    pub full : length ctx.buffer ≡ h.block_length
    pub counted : law.Counts ctx.bitcount (length message)
    pub absorbed :
        (k : ℕ) (rest : List ℕ)
        → absorb h (blocks + k) h.initial (message ++ rest) ≡ absorb h k ctx.state (tail ++ rest)

  pub init-IsFed : IsFed (init h) [] []
  unfolding init
  init-IsFed = record {
    blocks = 0;
    size = omega arith;
    short = omega (arith, law.short_below);
    held = refl;
    full = length-replicate h.block_length 0;
    counted = law.none_counted;
    absorbed = λ k rest. ap (λ (n : ℕ). absorb h n h.initial rest) (omega arith);
  }

  pub IsFed-usedspace :
      (ctx : Context h) (message tail : List ℕ)
      → IsFed ctx message tail
      → h.usedspace ctx.bitcount ≡ length tail
  IsFed-usedspace ctx message tail f =
      law.used_counted ctx.bitcount f.blocks (length tail) f.short
        (subst (law.Counts ctx.bitcount) f.size f.counted)

  -- The counter after some more bytes.
  more_counted :
      (ctx : Context h) (message tail bytes : List ℕ)
      → IsFed ctx message tail
      → length bytes < 2 ^ 61
      → law.Counts (h.add_bytes ctx.bitcount (length bytes)) (length (message ++ bytes))
  more_counted ctx message tail bytes f small =
      subst (law.Counts (h.add_bytes ctx.bitcount (length bytes)))
        (sym (length-append message bytes))
        (law.add_counted ctx.bitcount (length message) (length bytes) small f.counted)

  store-IsFed :
      (ctx : Context h) (message tail bytes : List ℕ)
      → IsFed ctx message tail
      → length tail + length bytes < h.block_length
      → length bytes < 2 ^ 61
      → IsFed (store h ctx (length tail) bytes) (message ++ bytes) (tail ++ bytes)
  unfolding store
  store-IsFed ctx message tail bytes f fits small =
      let size = length-append tail bytes in
      record {
        blocks = f.blocks;
        size = omega (arith, length-append message bytes, f.size);
        short = omega arith;
        held =
            ap (λ (n : ℕ). take n (overwrite ctx.buffer (length tail) bytes)) size
            ∙ take-overwrite ctx.buffer (length tail) bytes (omega (arith, f.full))
            ∙ ap (λ (t : List ℕ). t ++ bytes) f.held;
        full = length-overwrite ctx.buffer (length tail) bytes (omega (arith, f.full)) ∙ f.full;
        counted = more_counted ctx message tail bytes f small;
        absorbed = λ k rest.
            ap (absorb h (f.blocks + k) h.initial) (append_assoc message bytes rest)
            ∙ f.absorbed k (bytes ++ rest)
            ∙ ap (absorb h k ctx.state) (sym (append_assoc tail bytes rest));
      }

  pub absorb_one :
      (k : ℕ) (state block rest : List ℕ)
      → length block ≡ h.block_length
      → absorb h (suc k) state (block ++ rest) ≡ absorb h k (h.transform state (h.words block)) rest
  unfolding absorb
  absorb_one k state block rest len =
      rw (take-append block rest h.block_length len, drop-append block rest h.block_length len) refl

  process-IsFed :
      (ctx : Context h) (message tail bytes : List ℕ)
      → IsFed ctx message tail
      → length tail + length bytes ≡ h.block_length
      → length bytes < 2 ^ 61
      → IsFed (process h (store h ctx (length tail) bytes)) (message ++ bytes) []
  unfolding store process
  process-IsFed ctx message tail bytes f fits small =
      let filled : overwrite ctx.buffer (length tail) bytes ≡ tail ++ bytes =
        overwrite_full ctx.buffer (length tail) bytes (omega (arith, f.full))
        ∙ ap (λ (t : List ℕ). t ++ bytes) f.held in
      let len : length (tail ++ bytes) ≡ h.block_length = omega (arith, length-append tail bytes) in
      record {
        blocks = suc f.blocks;
        size = grind (arith, length-append message bytes, f.size);
        short = omega (arith, law.short_below);
        held = refl;
        full = law.length-to_host _ ∙ ap length filled ∙ len;
        counted = more_counted ctx message tail bytes f small;
        absorbed = λ k rest.
            ap (λ (n : ℕ). absorb h n h.initial ((message ++ bytes) ++ rest)) {x = suc f.blocks + k}
              {y = f.blocks + suc k} (omega arith)
            ∙ ap (absorb h (f.blocks + suc k) h.initial) (append_assoc message bytes rest)
            ∙ f.absorbed (suc k) (bytes ++ rest)
            ∙ ap (absorb h (suc k) ctx.state) (sym (append_assoc tail bytes rest))
            ∙ absorb_one k ctx.state (tail ++ bytes) rest len
            ∙ ap (λ (b : List ℕ). absorb h k (h.transform ctx.state (h.words b)) rest) (sym filled);
      }

  -- A message in two parts, the second of them in two parts.
  in_parts :
      (ctx : Context h) (message bytes : List ℕ) (n : ℕ)
      → ((tail : List ℕ) × IsFed ctx ((message ++ take n bytes) ++ drop n bytes) tail)
      → (tail : List ℕ) × IsFed ctx (message ++ bytes) tail
  in_parts ctx message bytes n f =
      subst (λ (m : List ℕ). (tail : List ℕ) × IsFed ctx m tail)
        (append_assoc message (take n bytes) (drop n bytes)
          ∙ ap (λ (t : List ℕ). message ++ t) (take-append-drop n bytes))
        f

  complete_blocks-IsFed :
      (n : ℕ) (ctx : Context h) (message bytes : List ℕ)
      → IsFed ctx message []
      → n * h.block_length ≤ length bytes
      → length bytes < n * h.block_length + h.block_length
      → length bytes < 2 ^ 61
      → (tail : List ℕ) × IsFed (complete_blocks h n ctx bytes) (message ++ bytes) tail
  unfolding complete_blocks
  complete_blocks-IsFed zero ctx message [] f lo hi small =
      ([], subst (λ (m : List ℕ). IsFed ctx m []) (sym (append-nil message)) f)
  complete_blocks-IsFed zero ctx message (b ∷ bytes) f lo hi small =
      let nonempty : (length (b ∷ bytes) == 0) ≡ false = ground arith in
      rw nonempty (b ∷ bytes, store-IsFed ctx message [] (b ∷ bytes) f (grind arith) small)
  complete_blocks-IsFed (suc n) ctx message bytes f lo hi small =
      let whole : h.block_length ≤ length bytes = grind arith in
      let front : length (take h.block_length bytes) ≡ h.block_length =
        omega (arith, length-take h.block_length bytes) in
      let back = length-drop h.block_length bytes in
      let g =
        process-IsFed ctx message [] (take h.block_length bytes) f (omega arith) (omega arith) in
      in_parts _ message bytes h.block_length (
        complete_blocks-IsFed n (process h (store h ctx 0 (take h.block_length bytes)))
          (message ++ take h.block_length bytes) (drop h.block_length bytes) g (grind arith)
          (grind arith) (omega arith))

  quotient_bounds :
      (l : ℕ)
      → (l / h.block_length * h.block_length ≤ l)
        × (l < l / h.block_length * h.block_length + h.block_length)
  quotient_bounds l =
      let positive : 0 < h.block_length = omega (arith, law.short_below) in
      omega (arith, div-add-mod' l h.block_length, mod-lt l positive)

  -- Full blocks go on from a buffer that is used up.
  complete-IsFed :
      (ctx : Context h) (message bytes : List ℕ)
      → IsFed ctx message []
      → length bytes < 2 ^ 61
      → (tail : List ℕ) × IsFed
          (complete_blocks h (length bytes / h.block_length) ctx bytes)
          (message ++ bytes)
          tail
  complete-IsFed ctx message bytes f small =
      let (lo, hi) = quotient_bounds (length bytes) in
      complete_blocks-IsFed (length bytes / h.block_length) ctx message bytes f lo hi small

  -- update adds its bytes to the message, in each of its cases.
  pub update-IsFed :
      (ctx : Context h) (message tail bytes : List ℕ)
      → IsFed ctx message tail
      → length bytes < 2 ^ 61
      → (rest : List ℕ) × IsFed (update h ctx bytes) (message ++ bytes) rest
  unfolding update
  update-IsFed ctx message tail [] f small =
      (tail, subst (λ (m : List ℕ). IsFed ctx m tail) (sym (append-nil message)) f)
  update-IsFed ctx message [] (b ∷ bytes) f small =
      let nonempty : (length (b ∷ bytes) == 0) ≡ false = ground arith in
      rw (nonempty, IsFed-usedspace ctx message [] f)
        (complete-IsFed ctx message (b ∷ bytes) f small)
  update-IsFed ctx message (t ∷ tail) (b ∷ bytes) f small =
      let nonempty : (length (b ∷ bytes) == 0) ≡ false = ground arith in
      let in_use : (length (t ∷ tail) == 0) ≡ false = ground arith in
      let free : ℕ = h.block_length - length (t ∷ tail) in
      elim (Bool-cases (leb free (length (b ∷ bytes)))) [
        | inr fits ↦
            rw (nonempty, IsFed-usedspace ctx message (t ∷ tail) f, in_use, fits)
              (
                (t ∷ tail) ++ (b ∷ bytes),
                store-IsFed ctx message (t ∷ tail) (b ∷ bytes) f (ground arith) small,
              )
        | inl full ↦
            let enough : free ≤ length (b ∷ bytes) = ground arith in
            let front = length-take free (b ∷ bytes) in
            let back = length-drop free (b ∷ bytes) in
            let g =
              process-IsFed ctx message (t ∷ tail) (take free (b ∷ bytes)) f
                (omega (arith, f.short)) (omega arith) in
            rw (nonempty, IsFed-usedspace ctx message (t ∷ tail) f, in_use, full)
              (in_parts _ message (b ∷ bytes) free (
                complete-IsFed _ (message ++ take free (b ∷ bytes)) (drop free (b ∷ bytes)) g
                  (omega arith)))
      ]

-- The contexts that a client can reach, each with the message fed so far.
pub data Run (h : BlockHash) : Context h → List ℕ → Type 0 where
  start : Run h (init h) []
  feed :
      {ctx : Context h} {message : List ℕ} (bytes : List ℕ)
      → length bytes < 2 ^ 61
      → Run h ctx message
      → Run h (update h ctx bytes) (message ++ bytes)

-- In every context that calls of update lead to from init, with pieces of less than 2 ^ 61 bytes
-- each, the buffer starts with a tail shorter than a block: the message so far is as long as a
-- number of blocks and the tail, the counter stands at its length, and the transforms of the
-- blocks of the message and of any bytes after it come to those of the tail and these bytes from
-- the state.
pub Run-IsFed :
    (h : BlockHash) (law : IsBlockHash h) {ctx : Context h} {message : List ℕ}
    → Run h ctx message
    → (tail : List ℕ) × IsFed h law ctx message tail
Run-IsFed h law start = ([], init-IsFed h law)
Run-IsFed h law (feed {ctx} {message} bytes small run) =
    let (tail, f) = Run-IsFed h law run in update-IsFed h law ctx message tail bytes f small
