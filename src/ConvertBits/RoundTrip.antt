-- ===== src/ConvertBits/RoundTrip.antt =====
-- convert_bits from bytes to groups of five bits and back.
use tronlink_i_os_core.Base.{
  ℕ, zero, suc, ◌+◌, ◌-◌, ◌*◌, ◌/◌, ◌%◌, ◌^◌, ◌≤◌, ◌<◌, ◌≡◌, inl, inr, refl, ap, ◌∙◌, sym, List, [],
  ◌∷◌, ◌++◌, arith, length, All, All-append, length-append, u32, ◌<<<◌, bit_and, bit_and-mask,
  IsByte, ◌==◌, if◌then◌else◌, some, true, false, Bool-cases, ==_iff,
}
use tronlink_i_os_core.ConvertBits.{convert_loop, Progress, last_group, finish, convert_bits}
use tronlink_i_os_core.ConvertBits.Regroup.{
  spell, spell-append, Regrouped, regroup_8_to_5, regroup_5_to_8,
}

-- Digits of one base that spell the same number are the same, if there are as many.
spell_injective :
    (acc acc' : ℕ) (xs ys : List ℕ)
    → All IsByte xs
    → All IsByte ys
    → length xs ≡ length ys
    → spell 256 acc xs ≡ spell 256 acc' ys
    → (acc ≡ acc') × (xs ≡ ys)
spell_injective acc acc' [] [] hx hy e h = (h, refl)
spell_injective acc acc' [] (y ∷ ys) hx hy e h = absurd (omega arith)
spell_injective acc acc' (x ∷ xs) [] hx hy e h = absurd (omega arith)
spell_injective acc acc' (x ∷ xs) (y ∷ ys) hx hy e h =
    let (number, rest) =
      spell_injective (acc * 256 + x) (acc' * 256 + y) xs ys hx.1 hy.1 (omega arith) h in
    let head : x ≡ y = omega arith in (omega arith, cc (head, rest))

-- The padding of `bits` pending bits to a group of five, in bits.
abbrev padding : ℕ → ℕ
padding bits = if bits == 0 then 0 else 5 - bits

-- With padding: the groups, and the number that they spell.
record Padded (xs ds : List ℕ) (z : ℕ) : Type 0 where
  small : All (λ g. g < 32) ds
  short : z < 5
  count : 5 * length ds ≡ 8 * length xs + z
  same : spell 32 0 ds ≡ spell 256 0 xs * 2 ^ z

abbrev padded : Progress → List ℕ
padded p = if p.bits == 0 then p.out else p.out ++ (last_group 5 p ∷ [])

last_group_lem :
    (bits val : ℕ)
    → 1 ≤ bits
    → bits < 5
    → bit_and (u32 (val <<< (5 - bits))) 31 ≡ val % 2 ^ bits * 2 ^ (5 - bits)
last_group_lem zero val lo hi = absurd (omega arith)
last_group_lem (suc zero) val lo hi = omega (arith, bit_and-mask 5 (u32 (val <<< 4)))
last_group_lem (suc (suc zero)) val lo hi = omega (arith, bit_and-mask 5 (u32 (val <<< 3)))
last_group_lem (suc (suc (suc zero))) val lo hi = omega (arith, bit_and-mask 5 (u32 (val <<< 2)))
last_group_lem (suc (suc (suc (suc zero)))) val lo hi =
    omega (arith, bit_and-mask 5 (u32 (val <<< 1)))
last_group_lem (suc (suc (suc (suc (suc i))))) val lo hi = absurd (omega arith)

shift_up :
    (bits q r : ℕ)
    → 1 ≤ bits
    → bits < 5
    → q * 32 + r * 2 ^ (5 - bits) ≡ (q * 2 ^ bits + r) * 2 ^ (5 - bits)
shift_up zero q r lo hi = absurd (omega arith)
shift_up (suc zero) q r lo hi = omega arith
shift_up (suc (suc zero)) q r lo hi = omega arith
shift_up (suc (suc (suc zero))) q r lo hi = omega arith
shift_up (suc (suc (suc (suc zero)))) q r lo hi = omega arith
shift_up (suc (suc (suc (suc (suc i))))) q r lo hi = absurd (omega arith)

padded-Padded :
    (xs : List ℕ) (p : Progress) → Regrouped 8 5 0 0 0 xs p → Padded xs (padded p) (padding p.bits)
padded-Padded xs p r = elim (Bool-cases (p.bits == 0)) [
  | inl none_left ↦
      let nothing : p.bits ≡ 0 = (==_iff p.bits 0).0 none_left in
      let exact : spell 256 0 xs ≡ spell 32 0 p.out * 2 ^ 0 + p.val % 2 ^ 0 =
        rw nothing at r.same in
      rw none_left (record {
        small = r.small;
        short = omega arith;
        count = omega (arith, r.count, nothing);
        same = omega arith;
      })
  | inr some_left ↦
      let lo : 1 ≤ p.bits = ground arith in
      let last = last_group_lem p.bits p.val lo r.few in
      let bound : last_group 5 p < 32 =
        omega (arith, bit_and-mask 5 (u32 (p.val <<< (5 - p.bits)))) in
      rw some_left (record {
        small = All-append (λ g. g < 32) p.out (last_group 5 p ∷ []) r.small (bound, tt);
        short = omega arith;
        count = omega (arith, r.count, r.few, length-append p.out (last_group 5 p ∷ []));
        same =
            spell-append 32 0 p.out (last_group 5 p ∷ [])
            ∙ ap (λ (t : ℕ). spell 32 0 p.out * 32 + t) last
            ∙ shift_up p.bits (spell 32 0 p.out) (p.val % 2 ^ p.bits) lo r.few
            ∙ ap (λ (t : ℕ). t * 2 ^ (5 - p.bits)) (sym r.same);
      })
]

-- Reading the groups back leaves the padding, which is 0.
no_leftover :
    (z q n r : ℕ)
    → z < 5
    → n * 2 ^ z ≡ q * 2 ^ z + r % 2 ^ z
    → (q ≡ n) × (bit_and (u32 (r <<< (8 - z))) 255 ≡ 0)
no_leftover zero q n r hz e = (omega arith, omega (arith, bit_and-mask 8 (u32 (r <<< 8))))
no_leftover (suc zero) q n r hz e = (omega arith, omega (arith, bit_and-mask 8 (u32 (r <<< 7))))
no_leftover (suc (suc zero)) q n r hz e =
    (omega arith, omega (arith, bit_and-mask 8 (u32 (r <<< 6))))
no_leftover (suc (suc (suc zero))) q n r hz e =
    (omega arith, omega (arith, bit_and-mask 8 (u32 (r <<< 5))))
no_leftover (suc (suc (suc (suc zero)))) q n r hz e =
    (omega arith, omega (arith, bit_and-mask 8 (u32 (r <<< 4))))
no_leftover (suc (suc (suc (suc (suc i))))) q n r hz e = absurd (omega arith)

finish_strict : (p : Progress) → p.bits < 5 → last_group 8 p ≡ 0 → finish 8 5 false p ≡ some p.out
unfolding finish
finish_strict p few zero_left = rw zero_left (ground arith)

read_back :
    (xs ds : List ℕ) (z : ℕ)
    → All IsByte xs
    → Padded xs ds z
    → (q : Progress) → Regrouped 5 8 0 0 0 ds q
    → finish 8 5 false q ≡ some xs
read_back xs ds z hx d q r =
    let left : q.bits ≡ z = omega (arith, d.count, r.count, d.short, r.few) in
    let as_many : length q.out ≡ length xs = omega (arith, d.count, r.count, d.short, r.few) in
    let total : spell 256 0 xs * 2 ^ z ≡ spell 256 0 q.out * 2 ^ z + q.val % 2 ^ z =
      sym d.same ∙ r.same ∙ ap (λ (t : ℕ). spell 256 0 q.out * 2 ^ t + q.val % 2 ^ t) left in
    let (number, nothing) =
      no_leftover z (spell 256 0 q.out) (spell 256 0 xs) q.val d.short total in
    let clear : last_group 8 q ≡ 0 =
      ap (λ (t : ℕ). bit_and (u32 (q.val <<< (8 - t))) 255) left ∙ nothing in
    let equal = spell_injective 0 0 q.out xs r.small hx as_many number in
    finish_strict q (omega (arith, d.short)) clear ∙ ap some equal.1

-- Bytes go to groups of five bits with padding, as many as the bits need and each below 32, and
-- those groups go back to the same bytes without padding.
pub convert_bits-convert_bits :
    (xs : List ℕ)
    → All IsByte xs
    → (ds : List ℕ) × (convert_bits 5 xs 8 true ≡ some ds)
      × All (λ g. g < 32) ds
      × (length ds ≡ (8 * length xs + 4) / 5)
      × (convert_bits 8 ds 5 false ≡ some xs)
unfolding convert_bits
convert_bits-convert_bits xs h =
    let p = convert_loop 5 8 0 0 xs in
    let d = padded-Padded xs p (regroup_8_to_5 xs h) in
    (
      padded p,
      unfold finish in refl,
      d.small,
      omega (arith, d.count, d.short),
      read_back xs (padded p) (padding p.bits) h d (convert_loop 8 5 0 0 (padded p))
          (regroup_5_to_8 (padded p) d.small),
    )
