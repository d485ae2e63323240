-- ===== src/Sha2/Registers.antt =====
-- The eight working variables of the transforms of SHA-256 and SHA-512 in sha2.c.
use tronlink_i_os_core.Base.{ℕ, ◌+◌, List, [], ◌∷◌, All, get_or}

pub record Registers : Type 0 where
  pub a : ℕ
  pub b : ℕ
  pub c : ℕ
  pub d : ℕ
  pub e : ℕ
  pub f : ℕ
  pub g : ℕ
  pub h : ℕ

unfoldable pub load_state : List ℕ → Registers
load_state s = record {
  a = get_or s 0 0;
  b = get_or s 1 0;
  c = get_or s 2 0;
  d = get_or s 3 0;
  e = get_or s 4 0;
  f = get_or s 5 0;
  g = get_or s 6 0;
  h = get_or s 7 0;
}

-- `state_out[i] = state_in[i] + ...`, in the width that `cast` stands for.
unfoldable pub add_state : (ℕ → ℕ) → List ℕ → Registers → List ℕ
add_state cast s r =
    cast (get_or s 0 0 + r.a)
    ∷ cast (get_or s 1 0 + r.b)
    ∷ cast (get_or s 2 0 + r.c)
    ∷ cast (get_or s 3 0 + r.d)
    ∷ cast (get_or s 4 0 + r.e)
    ∷ cast (get_or s 5 0 + r.f)
    ∷ cast (get_or s 6 0 + r.g)
    ∷ cast (get_or s 7 0 + r.h)
    ∷ []

-- The assignments at the end of a round.
unfoldable pub shift_registers : (ℕ → ℕ) → ℕ → ℕ → Registers → Registers
shift_registers cast t1 t2 r = record {
  a = cast (t1 + t2);
  b = r.a;
  c = r.b;
  d = r.c;
  e = cast (r.d + t1);
  f = r.e;
  g = r.f;
  h = r.g;
}

-- What the cast ensures holds of every word of the state.
pub add_state-All :
    (cast : ℕ → ℕ) (P : ℕ → Type 0)
    → ((x : ℕ) → P (cast x))
    → (s : List ℕ) (r : Registers) → All P (add_state cast s r)
unfolding add_state
add_state-All cast P each s r =
    (each _, (each _, (each _, (each _, (each _, (each _, (each _, (each _, tt))))))))
