-- ===== src/Sha2/Digest.antt =====
-- The bytes of a digest's words, as the Final functions of sha2.c write them.
use tronlink_i_os_core.Base.{
  ℕ, ◌*◌, ◌≡◌, refl, List, [], ◌∷◌, arith, length, All, All-append, IsByte, u32, ◌>>>◌,
}
use tronlink_i_os_core.Sha2.Words.{digest32, digest64, bytes32, bytes64}

abbrev pub IsDigest : ℕ → List ℕ → Type 0
IsDigest n bytes = (length bytes ≡ n) × All IsByte bytes

bytes32-IsByte : (w : ℕ) → All IsByte (bytes32 w)
bytes32-IsByte w = (omega arith, (omega arith, (omega arith, (omega arith, tt))))

bytes64-IsByte : (w : ℕ) → All IsByte (bytes64 w)
bytes64-IsByte w =
    All-append IsByte (bytes32 (w >>> 32)) (bytes32 (u32 w)) (bytes32-IsByte (w >>> 32))
      (bytes32-IsByte (u32 w))

pub digest32-IsDigest : (ws : List ℕ) → IsDigest (4 * length ws) (digest32 ws)
unfolding digest32
digest32-IsDigest [] = (refl, tt)
digest32-IsDigest (w ∷ ws) =
    let (count, bytes) = digest32-IsDigest ws in
    (omega (arith, count), All-append IsByte (bytes32 w) (digest32 ws) (bytes32-IsByte w) bytes)

pub digest64-IsDigest : (ws : List ℕ) → IsDigest (8 * length ws) (digest64 ws)
unfolding digest64
digest64-IsDigest [] = (refl, tt)
digest64-IsDigest (w ∷ ws) =
    let (count, bytes) = digest64-IsDigest ws in
    (omega (arith, count), All-append IsByte (bytes64 w) (digest64 ws) (bytes64-IsByte w) bytes)
