-- ===== src/Base/Range.antt =====
-- Tables: a test that evaluates to true at each number of a range holds there.
use Prim.Native.Nat.{ℕ, zero, suc, ◌+◌, ◌≤◌, ◌<◌}
use mathlib.Core.Path.{◌≡◌, ap, ◌∙◌}
use mathlib.Core.Bool.{Bool, true, false}
use mathlib.Core.Logic.{inl, inr}
use native.Mathlib.Omega.{arith}
use tronlink_i_os_core.Base.Test.{if◌then◌else◌, Bool-cases, ◌==◌}

-- `test` from `start` on, at as many numbers as `size` says.
unfoldable pub holds_in : (ℕ → Bool) → ℕ → ℕ → Bool
holds_in test start zero = true
holds_in test start (suc size) =
    let rest = holds_in test (start + 1) size in if test start then rest else false

pub holds_in_lem :
    (test : ℕ → Bool) (start size : ℕ)
    → holds_in test start size ≡ true
    → {x : ℕ} → start ≤ x
    → x < start + size
    → test x ≡ true
unfolding holds_in
holds_in_lem test start zero h low high = absurd (omega arith)
holds_in_lem test start (suc size) h {x} low high = elim (Bool-cases (test start)) [
  | inr fails ↦ cc (rw fails at h)
  | inl passes ↦ elim (Bool-cases (start == x)) [
    | inl here ↦ ap test {x = x} {y = start} (ground arith) ∙ passes
    | inr later ↦ holds_in_lem test (start + 1) size (rw passes at h) (ground arith) (omega arith)
  ]
]
