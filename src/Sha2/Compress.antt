-- ===== src/Sha2/Compress.antt =====
-- The loops over the rounds that the transforms of sha2.c share, with the sixteen words W that each
-- round overwrites in place, and the message schedule of FIPS 180-4.
use mathlib.Core.Path.{fun_ext, ap₂}
use mathlib.Core.List.{append_assoc, append-nil}
use tronlink_i_os_core.Base.{
  ℕ, zero, suc, ◌+◌, ◌%◌, ◌^◌, ◌<◌, ◌≤◌, ◌≡◌, ◌≢◌, refl, ap, ◌∙◌, sym, inl, inr, List, [], ◌∷◌,
  ◌++◌, arith, length, length-set, length-append, take, take_all, get_or, set, drop, replicate,
  bit_and, bit_and-mask, ◌==◌, Bool-cases,
}

module _ {R : Type 0} (round : ℕ → ℕ → R → R) where
  -- Rounds 0 to 15: W[j] = *data++.
  unfoldable pub load_rounds : ℕ → List ℕ → List ℕ → R → R × List ℕ
  load_rounds j [] w r = (r, w)
  load_rounds j (x ∷ xs) w r = load_rounds (j + 1) xs (set w j x) (round j x r)

  -- W[j & 0x0f] becomes a function of the words W[(j + i) & 0x0f].
  unfoldable pub expand_rounds : ((ℕ → ℕ) → ℕ) → ℕ → ℕ → List ℕ → R → R × List ℕ
  expand_rounds expand zero j w r = (r, w)
  expand_rounds expand (suc left) j w r =
      let x = expand (λ (i : ℕ). get_or w (bit_and (j + i) 0x0f) 0) in
      expand_rounds expand left (j + 1) (set w (bit_and j 0x0f) x) (round j x r)

  -- The rounds on words that are all known.
  unfoldable pub plain_rounds : ℕ → List ℕ → R → R
  plain_rounds j [] r = r
  plain_rounds j (x ∷ xs) r = plain_rounds (j + 1) xs (round j x r)

-- The next `n` words of a schedule after the sixteen words of a window.
unfoldable pub extension : ((ℕ → ℕ) → ℕ) → ℕ → List ℕ → List ℕ
extension expand zero window = []
extension expand (suc n) window =
    let x = expand (λ (i : ℕ). get_or window (i % 16) 0) in
    x ∷ extension expand n (drop 1 window ++ (x ∷ []))

-- W, read from j on and around, is the window.
record IsAround (j : ℕ) (w window : List ℕ) : Type 0 where
  held : length w ≡ 16
  seen : length window ≡ 16
  same : (i : ℕ) → i < 16 → get_or w ((j + i) % 16) 0 ≡ get_or window i 0

get_or-set_self : (xs : List ℕ) (i x : ℕ) → i < length xs → get_or (set xs i x) i 0 ≡ x
get_or-set_self [] i x h = absurd (omega arith)
get_or-set_self (y ∷ ys) zero x h = refl
get_or-set_self (y ∷ ys) (suc i) x h = get_or-set_self ys i x (omega arith)

get_or-set_ne : (xs : List ℕ) (i j x : ℕ) → i ≢ j → get_or (set xs i x) j 0 ≡ get_or xs j 0
get_or-set_ne [] i j x h = refl
get_or-set_ne (y ∷ ys) zero zero x h = absurd (h refl)
get_or-set_ne (y ∷ ys) zero (suc j) x h = refl
get_or-set_ne (y ∷ ys) (suc i) zero x h = refl
get_or-set_ne (y ∷ ys) (suc i) (suc j) x h = get_or-set_ne ys i j x (λ e. h (ap suc e))

get_or-append_last :
    (xs : List ℕ) (x i : ℕ)
    → ((i < length xs → get_or (xs ++ (x ∷ [])) i 0 ≡ get_or xs i 0)
        × (i ≡ length xs → get_or (xs ++ (x ∷ [])) i 0 ≡ x))
get_or-append_last [] x zero = (λ h. absurd (omega arith), λ h. refl)
get_or-append_last [] x (suc i) = (λ h. absurd (omega arith), λ h. absurd (omega arith))
get_or-append_last (y ∷ ys) x zero = (λ h. refl, λ h. absurd (omega arith))
get_or-append_last (y ∷ ys) x (suc i) =
    let (before, at) = get_or-append_last ys x i in
    (λ h. before (omega arith), λ h. at (omega arith))

-- The window moves by a word.
slide-IsAround :
    (j : ℕ) (w window : List ℕ) (x : ℕ)
    → IsAround j w window
    → IsAround (j + 1) (set w (j % 16) x) (drop 1 window ++ (x ∷ []))
slide-IsAround j w [] x a = absurd (omega (arith, a.seen))
slide-IsAround j w (first ∷ window) x a = record {
  held = length-set w (j % 16) x ∙ a.held;
  seen = omega (arith, a.seen, length-append window (x ∷ []));
  same = λ i h. moved i h;
}
  where
    moved :
        (i : ℕ)
        → i < 16
        → get_or (set w (j % 16) x) ((j + 1 + i) % 16) 0 ≡ get_or (window ++ (x ∷ [])) i 0
    moved i h =
        let (before, at) = get_or-append_last window x i in
        elim (Bool-cases (i == 15)) [
          | inl last ↦
              let around : (j + 1 + i) % 16 ≡ j % 16 = ground arith in
              rw around (
                get_or-set_self w (j % 16) x (omega (arith, a.held))
                ∙ sym (at (ground (arith, a.seen))))
          | inr early ↦
              let apart : j % 16 ≢ (j + 1 + i) % 16 = λ e. absurd (ground arith) in
              let next : (j + 1 + i) % 16 ≡ (j + suc i) % 16 = omega arith in
              get_or-set_ne w (j % 16) ((j + 1 + i) % 16) x apart
              ∙ ap (λ (k : ℕ). get_or w k 0) next
              ∙ a.same (suc i) (ground arith)
              ∙ sym (before (ground (arith, a.seen)))
        ]

-- Every index of W, reduced as the code and as the schedule reduce it.
looked_up :
    (j : ℕ) (w window : List ℕ)
    → IsAround j w window
    → ◌≡◌ {A = ℕ → ℕ} (λ i. get_or w (bit_and (j + i) 0x0f) 0) (λ i. get_or window (i % 16) 0)
looked_up j w window a = fun_ext λ i.
    ap (λ (k : ℕ). get_or w k 0) (bit_and-mask 4 (j + i) ∙ reduced i)
    ∙ a.same (i % 16) (omega arith)
  where
    reduced : (i : ℕ) → (j + i) % 2 ^ 4 ≡ (j + i % 16) % 16
    reduced i = omega arith

-- The rounds that overwrite W in place are the rounds on the schedule.
expand_rounds-extension :
    {R : Type 0} (round : ℕ → ℕ → R → R) (expand : (ℕ → ℕ) → ℕ) (left j : ℕ) (w window : List ℕ)
    (r : R)
    → IsAround j w window
    → (expand_rounds round expand left j w r).0
      ≡ plain_rounds round j (extension expand left window) r
unfolding expand_rounds plain_rounds extension
expand_rounds-extension round expand zero j w window r a = refl
expand_rounds-extension round expand (suc left) j w window r a =
    let x : ℕ = expand (λ (i : ℕ). get_or window (i % 16) 0) in
    ap₂ (λ (k y : ℕ). (expand_rounds round expand left (j + 1) (set w k y) (round j y r)).0)
      (bit_and-mask 4 j) (ap expand (looked_up j w window a))
    ∙ expand_rounds-extension round expand left (j + 1) (set w (j % 16) x)
        (drop 1 window ++ (x ∷ [])) (round j x r) (slide-IsAround j w window x a)

take-set :
    (xs : List ℕ) (i x : ℕ) → i < length xs → take (i + 1) (set xs i x) ≡ take i xs ++ (x ∷ [])
take-set [] i x h = absurd (omega arith)
take-set (y ∷ ys) zero x h = refl
take-set (y ∷ ys) (suc i) x h =
    ap (λ (n : ℕ). take n (y ∷ set ys i x)) {x = suc i + 1} {y = suc (i + 1)} (omega arith)
    ∙ ap (λ (t : List ℕ). y ∷ t) (take-set ys i x (omega arith))

-- The loading rounds leave the words of the block in W.
load_rounds-words :
    {R : Type 0} (round : ℕ → ℕ → R → R) (j : ℕ) (xs w : List ℕ) (r : R)
    → j + length xs ≡ length w
    → (load_rounds round j xs w r).1 ≡ take j w ++ xs
unfolding load_rounds
load_rounds-words round j [] w r h = sym (append-nil (take j w) ∙ take_all w j (omega arith))
load_rounds-words round j (x ∷ xs) w r h =
    load_rounds-words round (j + 1) xs (set w j x) (round j x r) (omega (arith, length-set w j x))
    ∙ ap (λ (t : List ℕ). t ++ xs) (take-set w j x (omega arith))
    ∙ append_assoc (take j w) (x ∷ []) xs

load_rounds-plain :
    {R : Type 0} (round : ℕ → ℕ → R → R) (j : ℕ) (xs w : List ℕ) (r : R)
    → (load_rounds round j xs w r).0 ≡ plain_rounds round j xs r
unfolding load_rounds plain_rounds
load_rounds-plain round j [] w r = refl
load_rounds-plain round j (x ∷ xs) w r =
    load_rounds-plain round (j + 1) xs (set w j x) (round j x r)

plain_rounds-append :
    {R : Type 0} (round : ℕ → ℕ → R → R) (j : ℕ) (xs ys : List ℕ) (r : R)
    → plain_rounds round (j + length xs) ys (plain_rounds round j xs r)
      ≡ plain_rounds round j (xs ++ ys) r
unfolding plain_rounds
plain_rounds-append round j [] ys r =
    ap (λ (k : ℕ). plain_rounds round k ys r) {x = j + 0} {y = j} (omega arith)
plain_rounds-append round j (x ∷ xs) ys r =
    ap (λ (k : ℕ). plain_rounds round k ys (plain_rounds round (j + 1) xs (round j x r)))
      {x = j + suc (length xs)} {y = j + 1 + length xs} (omega arith)
    ∙ plain_rounds-append round (j + 1) xs ys (round j x r)

start-IsAround : (block : List ℕ) → length block ≡ 16 → IsAround 16 block block
start-IsAround block h = record {
  held = h;
  seen = h;
  same = λ i lt. ap (λ (k : ℕ). get_or block k 0) {x = (16 + i) % 16} {y = i} (omega arith);
}

-- The two loops of a transform on a block of sixteen words are the rounds on its whole schedule.
pub rounds-extension :
    {R : Type 0} (round : ℕ → ℕ → R → R) (expand : (ℕ → ℕ) → ℕ) (left : ℕ) (block : List ℕ) (r : R)
    → length block ≡ 16
    → (expand_rounds round expand left 16
        (load_rounds round 0 block (replicate 16 0) r).1
        (load_rounds round 0 block (replicate 16 0) r).0).0
      ≡ plain_rounds round 0 (block ++ extension expand left block) r
rounds-extension {R} round expand left block r h =
    let w : (load_rounds round 0 block (replicate 16 0) r).1 ≡ block =
      load_rounds-words round 0 block (replicate 16 0) r (omega arith) in
    let first = load_rounds-plain round 0 block (replicate 16 0) r in
    ap₂ (λ (ws : List ℕ) (s : R). (expand_rounds round expand left 16 ws s).0) w first
    ∙ expand_rounds-extension round expand left 16 block block (plain_rounds round 0 block r)
        (start-IsAround block h)
    ∙ ap
        (λ (k : ℕ).
          plain_rounds round k (extension expand left block) (plain_rounds round 0 block r))
        {x = 16} {y = 0 + length block} (omega arith)
    ∙ plain_rounds-append round 0 block (extension expand left block) r

-- Rounds in two runs.
pub expand_rounds-add :
    {R : Type 0} (round : ℕ → ℕ → R → R) (expand : (ℕ → ℕ) → ℕ) (m n j : ℕ) (w : List ℕ) (r : R)
    → expand_rounds round expand n
        (m + j)
        (expand_rounds round expand m j w r).1
        (expand_rounds round expand m j w r).0
      ≡ expand_rounds round expand (m + n) j w r
unfolding expand_rounds
expand_rounds-add round expand zero n j w r =
    ap (λ (k : ℕ). expand_rounds round expand n k w r) {x = 0 + j} {y = j} (omega arith)
    ∙ ap (λ (k : ℕ). expand_rounds round expand k j w r) {x = n} {y = 0 + n} (omega arith)
expand_rounds-add round expand (suc m) n j w r =
    let x : ℕ = expand (λ (i : ℕ). get_or w (bit_and (j + i) 0x0f) 0) in
    let v : List ℕ = set w (bit_and j 0x0f) x in
    ap
      (λ (k : ℕ).
        expand_rounds round expand n k (expand_rounds round expand m (j + 1) v (round j x r)).1
          (expand_rounds round expand m (j + 1) v (round j x r)).0)
      {x = suc m + j} {y = m + (j + 1)} (omega arith)
    ∙ expand_rounds-add round expand m n (j + 1) v (round j x r)
    ∙ ap (λ (k : ℕ). expand_rounds round expand k j w r) {x = suc (m + n)} {y = suc m + n}
        (omega arith)

-- Only the rounds that are run matter.
pub expand_rounds-same :
    {R : Type 0} (f g : ℕ → ℕ → R → R) (expand : (ℕ → ℕ) → ℕ) (left j : ℕ)
    → ((k : ℕ) → j ≤ k → k < j + left → f k ≡ g k)
    → (w : List ℕ) (r : R) → expand_rounds f expand left j w r ≡ expand_rounds g expand left j w r
unfolding expand_rounds
expand_rounds-same f g expand zero j same w r = refl
expand_rounds-same f g expand (suc left) j same w r =
    let x : ℕ = expand (λ (i : ℕ). get_or w (bit_and (j + i) 0x0f) 0) in
    let v = set w (bit_and j 0x0f) x in
    ap (λ (step : ℕ → _ → _). expand_rounds f expand left (j + 1) v (step x r))
      (same j (omega arith) (omega arith))
    ∙ expand_rounds-same f g expand left (j + 1) (λ k lo hi. same k (omega arith) (omega arith)) v
        (g j x r)

-- The same for the rounds that load the block.
pub load_rounds-same :
    {R : Type 0} (f g : ℕ → ℕ → R → R) (j : ℕ) (xs : List ℕ)
    → ((k : ℕ) → j ≤ k → k < j + length xs → f k ≡ g k)
    → (w : List ℕ) (r : R) → load_rounds f j xs w r ≡ load_rounds g j xs w r
unfolding load_rounds
load_rounds-same f g j [] same w r = refl
load_rounds-same f g j (x ∷ xs) same w r =
    ap (λ (step : ℕ → _ → _). load_rounds f (j + 1) xs (set w j x) (step x r))
      (same j (omega arith) (omega arith))
    ∙ load_rounds-same f g (j + 1) xs (λ k lo hi. same k (omega arith) (omega arith)) (set w j x)
        (g j x r)
