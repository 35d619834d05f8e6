-- ===== src/Prelude/Bits/Step.antt =====
-- The lowest binary digit of the native operations, and the rest of them.
use Prim.Native.Nat.{
  ℕ, zero, suc, ◌+◌, ◌*◌, ◌/◌, ◌%◌, ◌≤◌, min, max, digits, bitwise, bit_and, bit_or,
  bit_and-bitwise, bit_or-bitwise,
}
use mathlib.Core.Path.{◌≡◌, refl, sym, ap, ◌∙◌}
use native.Mathlib.Omega.{arith}

module _ (tail : ℕ → ℕ) (digit : ℕ → ℕ → ℕ) where
  -- Any fuel from the first number on gives what that number itself gives as fuel.
  enough :
      (top fuel x y : ℕ)
      → fuel ≤ top
      → x ≤ fuel
      → digits tail digit fuel x y ≡ bitwise tail digit x y
  enough top zero zero y small covers = refl
  enough top zero (suc x) y small covers = absurd (omega arith)
  enough top (suc fuel) zero y small covers = refl
  enough zero (suc fuel) (suc x) y small covers = absurd (omega arith)
  enough (suc top) (suc fuel) (suc x) y small covers =
      let long = enough top fuel (suc x / 2) (y / 2) (omega arith) (omega arith) in
      let short = enough top x (suc x / 2) (y / 2) (omega arith) (omega arith) in
      ap (λ (high : ℕ). high * 2 + digit (suc x % 2) (y % 2)) (long ∙ sym short)

  last_digit :
      (x y : ℕ)
      → bitwise tail digit (suc x) y
        ≡ digit (suc x % 2) (y % 2) + 2 * bitwise tail digit (suc x / 2) (y / 2)
  last_digit x y = omega (arith, enough x x (suc x / 2) (y / 2) (omega arith) (omega arith))

pub bit_and_step : (x y : ℕ) → bit_and x y ≡ min (x % 2) (y % 2) + 2 * bit_and (x / 2) (y / 2)
bit_and_step zero y = simp bit_and-bitwise (omega arith)
bit_and_step (suc x) y = simp bit_and-bitwise (last_digit (λ d. 0) min x y)

pub bit_or_step : (x y : ℕ) → bit_or x y ≡ max (x % 2) (y % 2) + 2 * bit_or (x / 2) (y / 2)
bit_or_step zero y = simp bit_or-bitwise (omega arith)
bit_or_step (suc x) y = simp bit_or-bitwise (last_digit (λ d. d) max x y)
