-- ===== src/Prelude/Loops.antt =====
-- Counted loops over a range of numbers.
use Prim.Native.Nat.{ℕ, zero, suc, ◌+◌, ◌≤◌, ◌<◌}
use mathlib.Core.Path.{◌≡◌}
use mathlib.Core.Logic.{inl, inr}
use mathlib.Core.Bool.{Bool, true, false}
use native.Mathlib.Omega.{arith}
use bavy.Prelude.Tests.{Bool-cases}

-- `for i in first..first + left { if test(i) { return true; } } false`
unfoldable pub any_from : ℕ → ℕ → (ℕ → Bool) → Bool
any_from zero first test = false
any_from (suc left) first test = elim (test first) [
  | true ↦ true
  | false ↦ any_from left (first + 1) test
]

pub any_from-found :
    (left first : ℕ) (test : ℕ → Bool)
    → any_from left first test ≡ true
    → (i : ℕ) × (first ≤ i) × (i < first + left) × (test i ≡ true)
unfolding any_from
any_from-found zero first test h = absurd (ground arith)
any_from-found (suc left) first test h = elim (Bool-cases (test first)) [
  | inl hit ↦ (first, omega arith, omega arith, hit)
  | inr miss ↦
      let (i, low, high, hit) = any_from-found left (first + 1) test (ground arith) in
      (i, omega arith, omega arith, hit)
]

pub any_from-hit :
    (left first : ℕ) (test : ℕ → Bool) (i : ℕ)
    → first ≤ i
    → i < first + left
    → test i ≡ true
    → any_from left first test ≡ true
unfolding any_from
any_from-hit zero first test i low high hit = absurd (omega arith)
any_from-hit (suc left) first test i low high hit =
    ground (arith, any_from-hit left (first + 1) test i)
