-- ===== src/ConvertBits/Regroup.antt =====
-- The loops of convert_bits and the number that the groups spell.
use tronlink_i_os_core.Base.{
  ℕ, zero, suc, ◌+◌, ◌*◌, ◌%◌, ◌^◌, ◌<◌, ◌≡◌, refl, ap, ◌∙◌, sym, List, [], ◌∷◌, ◌++◌, arith,
  length, All, All-append, length-append, u32, ◌<<<◌, bit_and, bit_or, bit_or-low, bit_and-mask,
}
use tronlink_i_os_core.ConvertBits.{emit, convert_loop, Progress}

-- The number that digits spell after the number `acc`, most significant first.
abbrev pub spell : ℕ → ℕ → List ℕ → ℕ
spell base acc [] = acc
spell base acc (d ∷ ds) = spell base (acc * base + d) ds

mask5 : (y : ℕ) → bit_and y 31 ≡ y % 32
mask5 y = bit_and-mask 5 y

mask8 : (y : ℕ) → bit_and y 255 ≡ y % 256
mask8 y = bit_and-mask 8 y

-- One round: the number `acc` and the pending bits of `val`, then `x`, are the number `acc` and the
-- groups, then the bits of `w` that are left.
record Round (inbits outbits bits val x w acc : ℕ) (run : List ℕ × ℕ) : Type 0 where
  few : run.1 < outbits
  small : All (λ g. g < 2 ^ outbits) run.0
  count : bits + inbits ≡ outbits * length run.0 + run.1
  same :
      (acc * 2 ^ bits + val % 2 ^ bits) * 2 ^ inbits + x
      ≡ spell (2 ^ outbits) acc run.0 * 2 ^ run.1 + w % 2 ^ run.1

-- Reading 8 bits and writing groups of 5, with fewer than 5 bits pending.
Round-8_to_5 :
    (bits val x w acc : ℕ)
    → bits < 5
    → x < 2 ^ 8
    → w ≡ val * 2 ^ 8 % 2 ^ 32 + x
    → Round 8 5 bits val x w acc (emit 5 w (bits + 8) (bits + 8))
unfolding emit
Round-8_to_5 zero val x w acc hb hx hw = record {
  few = omega arith;
  small = omega (arith, mask5);
  count = omega arith;
  same = omega (arith, mask5);
}
Round-8_to_5 (suc zero) val x w acc hb hx hw = record {
  few = omega arith;
  small = omega (arith, mask5);
  count = omega arith;
  same = omega (arith, mask5);
}
Round-8_to_5 (suc (suc zero)) val x w acc hb hx hw = record {
  few = omega arith;
  small = omega (arith, mask5);
  count = omega arith;
  same = omega (arith, mask5);
}
Round-8_to_5 (suc (suc (suc zero))) val x w acc hb hx hw = record {
  few = omega arith;
  small = omega (arith, mask5);
  count = omega arith;
  same = omega (arith, mask5);
}
Round-8_to_5 (suc (suc (suc (suc zero)))) val x w acc hb hx hw = record {
  few = omega arith;
  small = omega (arith, mask5);
  count = omega arith;
  same = omega (arith, mask5);
}
Round-8_to_5 (suc (suc (suc (suc (suc i))))) val x w acc hb hx hw = absurd (omega arith)

-- Reading 5 bits and writing groups of 8, with fewer than 8 bits pending.
Round-5_to_8 :
    (bits val x w acc : ℕ)
    → bits < 8
    → x < 2 ^ 5
    → w ≡ val * 2 ^ 5 % 2 ^ 32 + x
    → Round 5 8 bits val x w acc (emit 8 w (bits + 5) (bits + 5))
unfolding emit
Round-5_to_8 zero val x w acc hb hx hw = record {
  few = omega arith;
  small = omega (arith, mask8);
  count = omega arith;
  same = omega (arith, mask8);
}
Round-5_to_8 (suc zero) val x w acc hb hx hw = record {
  few = omega arith;
  small = omega (arith, mask8);
  count = omega arith;
  same = omega (arith, mask8);
}
Round-5_to_8 (suc (suc zero)) val x w acc hb hx hw = record {
  few = omega arith;
  small = omega (arith, mask8);
  count = omega arith;
  same = omega (arith, mask8);
}
Round-5_to_8 (suc (suc (suc zero))) val x w acc hb hx hw = record {
  few = omega arith;
  small = omega (arith, mask8);
  count = omega arith;
  same = omega (arith, mask8);
}
Round-5_to_8 (suc (suc (suc (suc zero)))) val x w acc hb hx hw = record {
  few = omega arith;
  small = omega (arith, mask8);
  count = omega arith;
  same = omega (arith, mask8);
}
Round-5_to_8 (suc (suc (suc (suc (suc zero))))) val x w acc hb hx hw = record {
  few = omega arith;
  small = omega (arith, mask8);
  count = omega arith;
  same = omega (arith, mask8);
}
Round-5_to_8 (suc (suc (suc (suc (suc (suc zero)))))) val x w acc hb hx hw = record {
  few = omega arith;
  small = omega (arith, mask8);
  count = omega arith;
  same = omega (arith, mask8);
}
Round-5_to_8 (suc (suc (suc (suc (suc (suc (suc zero))))))) val x w acc hb hx hw = record {
  few = omega arith;
  small = omega (arith, mask8);
  count = omega arith;
  same = omega (arith, mask8);
}
Round-5_to_8 (suc (suc (suc (suc (suc (suc (suc (suc i)))))))) val x w acc hb hx hw =
    absurd (omega arith)

-- The whole input: the same number, in groups that fit, with fewer than `outbits` bits left.
pub record Regrouped (inbits outbits bits val acc : ℕ) (xs : List ℕ) (p : Progress) : Type 0 where
  pub few : p.bits < outbits
  pub small : All (λ g. g < 2 ^ outbits) p.out
  pub count : bits + inbits * length xs ≡ outbits * length p.out + p.bits
  pub same :
      spell (2 ^ inbits) (acc * 2 ^ bits + val % 2 ^ bits) xs
      ≡ spell (2 ^ outbits) acc p.out * 2 ^ p.bits + p.val % 2 ^ p.bits

pub spell-append :
    (base acc : ℕ) (xs ys : List ℕ) → spell base acc (xs ++ ys) ≡ spell base (spell base acc xs) ys
spell-append base acc [] ys = refl
spell-append base acc (x ∷ xs) ys = spell-append base (acc * base + x) xs ys

module _ (inbits outbits : ℕ)
    (round : (bits val x w acc : ℕ)
      → bits < outbits
      → x < 2 ^ inbits
      → w ≡ val * 2 ^ inbits % 2 ^ 32 + x
      → Round inbits outbits bits val x w acc (emit outbits w (bits + inbits) (bits + inbits)))
    (word : (val x : ℕ)
      → x < 2 ^ inbits
      → bit_or (u32 (val <<< inbits)) x ≡ val * 2 ^ inbits % 2 ^ 32 + x) where
  regroup :
      (bits val acc : ℕ) (xs : List ℕ)
      → bits < outbits
      → All (λ x. x < 2 ^ inbits) xs
      → Regrouped inbits outbits bits val acc xs (convert_loop outbits inbits val bits xs)
  unfolding convert_loop
  regroup bits val acc [] hb hx = record { few = hb; small = tt; count = omega arith; same = refl }
  regroup bits val acc (x ∷ xs) hb hx =
      let w : ℕ = bit_or (u32 (val <<< inbits)) x in
      let run = emit outbits w (bits + inbits) (bits + inbits) in
      let r = round bits val x w acc hb hx.0 (word val x hx.0) in
      let rest = convert_loop outbits inbits w run.1 xs in
      let ih = regroup run.1 w (spell (2 ^ outbits) acc run.0) xs r.few hx.1 in
      record {
        few = ih.few;
        small = All-append (λ g. g < 2 ^ outbits) run.0 rest.out r.small ih.small;
        count =
            omega (
              arith,
              r.count,
              ih.count,
              ap (λ (t : ℕ). outbits * t) (length-append run.0 rest.out),
            );
        same =
            ap (λ (t : ℕ). spell (2 ^ inbits) t xs) r.same
            ∙ ih.same
            ∙ ap (λ (t : ℕ). t * 2 ^ rest.bits + rest.val % 2 ^ rest.bits)
                (sym (spell-append (2 ^ outbits) acc run.0 rest.out));
      }

pub regroup_8_to_5 :
    (xs : List ℕ) → All (λ x. x < 2 ^ 8) xs → Regrouped 8 5 0 0 0 xs (convert_loop 5 8 0 0 xs)
regroup_8_to_5 xs h =
    regroup 8 5 Round-8_to_5 (λ val x hx. bit_or-low 8 (u32 (val <<< 8)) x (omega arith) hx) 0 0 0
      xs (omega arith) h

pub regroup_5_to_8 :
    (xs : List ℕ) → All (λ x. x < 2 ^ 5) xs → Regrouped 5 8 0 0 0 xs (convert_loop 8 5 0 0 xs)
regroup_5_to_8 xs h =
    regroup 5 8 Round-5_to_8 (λ val x hx. bit_or-low 5 (u32 (val <<< 5)) x (omega arith) hx) 0 0 0
      xs (omega arith) h
