-- ===== src/Rc4/State.antt =====
-- The context of rc4.c.
use tronlink_i_os_core.Base.{
  ℕ, zero, suc, ◌+◌, ◌%◌, ◌≤◌, ◌<◌, ◌≡◌, refl, ap, ◌∙◌, arith, List, [], ◌∷◌, length, length-set,
  set, get_or, All, IsByte, u8, bit_xor-lt, if◌then◌else◌, ltb, leb, ◌==◌, ◌&&◌, some, false,
}
use tronlink_i_os_core.Rc4.{Rc4Ctx, rc4_swap, count_up, schedule, rc4_init, next_key, rc4_encrypt}

abbrev hit : ℕ → ℕ → ℕ
hit v x = if v == x then 1 else 0

-- How often `v` stands in a list.
abbrev pub occurrences : ℕ → List ℕ → ℕ
occurrences v [] = 0
occurrences v (x ∷ xs) = hit v x + occurrences v xs

-- 256 elements, and among them each byte once and nothing else.
pub record IsPermutation (s : List ℕ) : Type 0 where
  pub size : length s ≡ 256
  pub each : (v : ℕ) → occurrences v s ≡ (if ltb v 256 then 1 else 0)

pub record IsWellFormed (ctx : Rc4Ctx) : Type 0 where
  pub permutation : IsPermutation ctx.s
  pub i_is_byte : IsByte ctx.i
  pub j_is_byte : IsByte ctx.j

occurrences-set :
    (v : ℕ) (xs : List ℕ) (i y : ℕ)
    → i < length xs
    → occurrences v (set xs i y) + hit v (get_or xs i 0) ≡ occurrences v xs + hit v y
occurrences-set v [] i y h = absurd (omega arith)
occurrences-set v (x ∷ xs) zero y h = omega arith
occurrences-set v (x ∷ xs) (suc i) y h = omega (arith, occurrences-set v xs i y (omega arith))

-- To overwrite by the element at `j` leaves the element at `j` as it is.
get_or-set : (xs : List ℕ) (i j : ℕ) → get_or (set xs i (get_or xs j 0)) j 0 ≡ get_or xs j 0
get_or-set [] i j = refl
get_or-set (x ∷ xs) zero zero = refl
get_or-set (x ∷ xs) zero (suc j) = refl
get_or-set (x ∷ xs) (suc i) zero = refl
get_or-set (x ∷ xs) (suc i) (suc j) = get_or-set xs i j

rc4_swap-IsPermutation :
    (s : List ℕ) (i j : ℕ) → IsPermutation s → IsByte i → IsByte j → IsPermutation (rc4_swap s i j)
unfolding rc4_swap
rc4_swap-IsPermutation s i j p hi hj =
    let y : ℕ = get_or s j 0 in
    let size = length-set s i y in
    record {
      size = length-set (set s i y) j (get_or s i 0) ∙ size ∙ p.size;
      each = λ v. omega (
        arith,
        p.each v,
        occurrences-set v s i y (omega (arith, p.size)),
        occurrences-set v (set s i y) j (get_or s i 0) (omega (arith, p.size)),
        ap (hit v) (get_or-set s i j),
      );
    }

occurrences-count_up :
    (v start count : ℕ)
    → occurrences v (count_up start count) ≡ (if leb start v && ltb v (start + count) then 1 else 0)
unfolding count_up
occurrences-count_up v start zero = ground arith
occurrences-count_up v start (suc count) =
    let ih = occurrences-count_up v (start + 1) count in ground arith

occurrences_from_zero : (v n : ℕ) → occurrences v (count_up 0 n) ≡ (if ltb v n then 1 else 0)
occurrences_from_zero v n = let counted = occurrences-count_up v 0 n in ground arith

length-count_up : (start count : ℕ) → length (count_up start count) ≡ count
unfolding count_up
length-count_up start zero = refl
length-count_up start (suc count) = ap suc (length-count_up (start + 1) count)

schedule-IsPermutation :
    (key : List ℕ) (left i j : ℕ) (s : List ℕ)
    → IsPermutation s
    → i + left ≤ 256
    → IsPermutation (schedule key left i j s)
unfolding schedule
schedule-IsPermutation key zero i j s p h = p
schedule-IsPermutation key (suc left) i j s p h =
    let j' : ℕ = u8 (j + (get_or s i 0 + get_or key (i % length key) 0)) in
    schedule-IsPermutation key left (i + 1) j' (rc4_swap s i j')
      (rc4_swap-IsPermutation s i j' p (omega arith) (omega arith)) (omega arith)

-- The context after the key schedule.
pub schedule-IsWellFormed :
    (key : List ℕ)
    → IsWellFormed (record { s = schedule key 256 0 0 (count_up 0 256); i = 0; j = 0 })
schedule-IsWellFormed key =
    let start : IsPermutation (count_up 0 256) = record {
      size = length-count_up 0 256;
      each = λ v. occurrences_from_zero v 256;
    } in
    record {
      permutation = schedule-IsPermutation key 256 0 0 (count_up 0 256) start (omega arith);
      i_is_byte = omega arith;
      j_is_byte = omega arith;
    }

-- For a key of a byte at least, rc4_init gives a context, and it is well formed: each byte stands
-- once in the array, and the indices are bytes.
pub rc4_init-IsWellFormed :
    (key : List ℕ) → 0 < length key → (ctx : Rc4Ctx) × (rc4_init key ≡ some ctx) × IsWellFormed ctx
unfolding rc4_init
rc4_init-IsWellFormed key pos =
    let nonempty : (length key == 0) ≡ false = ground arith in
    (_, rw nonempty refl, schedule-IsWellFormed key)

occurs_where_it_stands : (xs : List ℕ) (k : ℕ) → k < length xs → 1 ≤ occurrences (get_or xs k 0) xs
occurs_where_it_stands [] k h = absurd (omega arith)
occurs_where_it_stands (x ∷ xs) zero h = ground arith
occurs_where_it_stands (x ∷ xs) (suc k) h =
    let ih = occurs_where_it_stands xs k (omega arith) in omega arith

element-IsByte : (s : List ℕ) (k : ℕ) → IsPermutation s → IsByte k → IsByte (get_or s k 0)
element-IsByte s k p h =
    let there = occurs_where_it_stands s k (omega (arith, p.size)) in
    let once = p.each (get_or s k 0) in ground arith

next_key-IsWellFormed :
    (ctx : Rc4Ctx) → IsWellFormed ctx → IsWellFormed (next_key ctx).0 × IsByte (next_key ctx).1
unfolding next_key
next_key-IsWellFormed ctx w =
    let i : ℕ = u8 (ctx.i + 1) in
    let j : ℕ = u8 (ctx.j + get_or ctx.s i 0) in
    let p = rc4_swap-IsPermutation ctx.s i j w.permutation (omega arith) (omega arith) in
    (
      record { permutation = p; i_is_byte = omega arith; j_is_byte = omega arith },
      element-IsByte (rc4_swap ctx.s i j) _ p (omega arith),
    )

-- rc4_encrypt keeps a context well formed (each byte stands once in the array, and the indices
-- are bytes), and turns a buffer of bytes into as many bytes.
pub rc4_encrypt-IsWellFormed :
    (ctx : Rc4Ctx) (buffer : List ℕ)
    → IsWellFormed ctx
    → All IsByte buffer
    → IsWellFormed (rc4_encrypt ctx buffer).0
      × All IsByte (rc4_encrypt ctx buffer).1
      × (length (rc4_encrypt ctx buffer).1 ≡ length buffer)
unfolding rc4_encrypt
rc4_encrypt-IsWellFormed ctx [] w h = (w, tt, refl)
rc4_encrypt-IsWellFormed ctx (byte ∷ buffer) w h =
    let (w', small) = next_key-IsWellFormed ctx w in
    let (last, bytes, size) = rc4_encrypt-IsWellFormed (next_key ctx).0 buffer w' h.1 in
    (last, (bit_xor-lt 8 byte (next_key ctx).1 h.0 small, bytes), ap suc size)
