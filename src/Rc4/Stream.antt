-- ===== src/Rc4/Stream.antt =====
-- rc4_encrypt as a stream.
use tronlink_i_os_core.Base.{
  ℕ, ◌≡◌, refl, ap, ◌∙◌, List, [], ◌∷◌, ◌++◌, bit_xor, bit_xor_assoc, bit_xor_self, bit_xor-zero,
}
use tronlink_i_os_core.Rc4.{Rc4Ctx, next_key, rc4_encrypt}

xor_twice : (x k : ℕ) → bit_xor (bit_xor x k) k ≡ x
xor_twice x k = bit_xor_assoc x k k ∙ ap (bit_xor x) (bit_xor_self k) ∙ bit_xor-zero x

-- Encrypted once more from the same context, the data comes back, and the context that is left is
-- the same.
pub rc4_encrypt-rc4_encrypt :
    (ctx : Rc4Ctx) (buffer : List ℕ)
    → rc4_encrypt ctx (rc4_encrypt ctx buffer).1 ≡ ((rc4_encrypt ctx buffer).0, buffer)
unfolding rc4_encrypt
rc4_encrypt-rc4_encrypt ctx [] = refl
rc4_encrypt-rc4_encrypt ctx (byte ∷ buffer) =
    rw (rc4_encrypt-rc4_encrypt (next_key ctx).0 buffer, xor_twice byte (next_key ctx).1) refl

-- A buffer can be encrypted in two calls as in one: the output is the two outputs, and the
-- context that is left is the same.
pub rc4_encrypt-append :
    (ctx : Rc4Ctx) (xs ys : List ℕ)
    → rc4_encrypt ctx (xs ++ ys) ≡ (
      (rc4_encrypt (rc4_encrypt ctx xs).0 ys).0,
      (rc4_encrypt ctx xs).1 ++ (rc4_encrypt (rc4_encrypt ctx xs).0 ys).1,
    )
unfolding rc4_encrypt
rc4_encrypt-append ctx [] ys = refl
rc4_encrypt-append ctx (x ∷ xs) ys = rw (rc4_encrypt-append (next_key ctx).0 xs ys) refl
