-- ===== src/Bech32/Alphabet.antt =====
-- The tables charset and charset_rev of segwit_addr.c.
use tronlink_i_os_core.Base.{
  ℕ, ◌^◌, ◌<◌, ◌≡◌, refl, arith, Option, none, some, Bool, true, false, ◌&&◌, ◌==◌, not, holds_in,
  holds_in_lem,
}
use tronlink_i_os_core.Bech32.{char_of, group_of, is_upper}

unfoldable pub is_group : Option ℕ → ℕ → Bool
is_group none v = false
is_group (some w) v = w == v

pub is_group_lem : (o : Option ℕ) (v : ℕ) → is_group o v ≡ true → o ≡ some v
unfolding is_group
is_group_lem none v h = cc
is_group_lem (some w) v h = ground arith

round_trip_table : holds_in (λ v. is_group (group_of (char_of v)) v) 0 32 ≡ true
unfolding holds_in is_group group_of char_of
round_trip_table = refl

-- The character of a group reads as that group.
pub group_of-char_of : (v : ℕ) → v < 2 ^ 5 → group_of (char_of v) ≡ some v
group_of-char_of v h = is_group_lem (group_of (char_of v)) v (
    holds_in_lem (λ w. is_group (group_of (char_of w)) w) 0 32 round_trip_table (omega arith)
      (omega arith))

plain_table : holds_in (λ v. not (char_of v == b'1') && not (is_upper (char_of v))) 0 32 ≡ true
unfolding holds_in char_of
plain_table = refl

pub char_of-plain :
    (v : ℕ) → v < 2 ^ 5 → ((char_of v == b'1') ≡ false) × (is_upper (char_of v) ≡ false)
char_of-plain v h = both _ _ (
    holds_in_lem (λ w. not (char_of w == b'1') && not (is_upper (char_of w))) 0 32 plain_table
      (omega arith) (omega arith))
  where
    both : (a b : Bool) → (not a && not b) ≡ true → (a ≡ false) × (b ≡ false)
    both a b e = ground arith
