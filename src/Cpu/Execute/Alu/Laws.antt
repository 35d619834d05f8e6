-- ===== src/Cpu/Execute/Alu/Laws.antt =====
-- riscv-vm/src/cpu/execution.rs: laws of the M extension's operations, edge cases included.
use native.Mathlib.Decide.{dec_lt}
use native.Mathlib.Nat.{mod-add-div', mod-lt, mul-add, add-mul}
use bavy.Prelude.{
  ℕ, ◌+◌, ◌-◌, ◌*◌, ◌/◌, ◌%◌, ◌^◌, ◌<◌, ◌≤◌, ◌≡◌, ◌≢◌, ◌⊎◌, inl, inr, sym, ap, ◌∙◌, arith,
}
use bavy.Cpu.Execute.Alu.{negate, magnitude, signed_div, signed_rem, div, rem, divu, remu}

-- The two parts of a sum of factors.
parts : (q a b s : ℕ) → a + b ≡ s → q * a + q * b ≡ q * s
parts q a b s e = sym (mul-add q a b) ∙ ap (λ (t : ℕ). q * t) e

parts_left : (a b n s : ℕ) → a + b ≡ s → a * n + b * n ≡ s * n
parts_left a b n s e = sym (add-mul a b n) ∙ ap (λ (t : ℕ). t * n) e

-- A quotient and its remainder, for either sign of the two numbers.
module _ (q n r m : ℕ) (whole : r + q * n ≡ m) (small : m ≤ 2 ^ 63) (divisor : n ≤ 2 ^ 63)
    (less : r < n) where
  quotient_small : q ≤ m
  quotient_small = let e = parts q (n - 1) 1 n (omega arith) in omega (arith, e)

  both_negative : 0 < m → (q * (2 ^ 64 - n) + negate r) % 2 ^ 64 ≡ 2 ^ 64 - m
  both_negative pos =
      let split = parts q (2 ^ 64 - n) n (2 ^ 64) (omega arith) in omega (arith, split)

  -- q and its opposite.
  opposite : ((q ≡ 0) × (negate q ≡ 0)) ⊎ ((0 < q) × (negate q + q ≡ 2 ^ 64))
  opposite = elim (dec_lt 0 q) [
    | yes pos ↦ inr (pos, omega (arith, quotient_small))
    | no none ↦ inl (omega arith, omega arith)
  ]

  dividend_negative : 0 < m → (negate q * n + negate r) % 2 ^ 64 ≡ 2 ^ 64 - m
  dividend_negative pos = elim opposite [
    | inl (zero_q, zero_n) ↦
        rw zero_n (let e : q * n ≡ 0 = rw zero_q (omega arith) in omega (arith, e))
    | inr (_, e) ↦ let split = parts_left (negate q) q n (2 ^ 64) e in omega (arith, split)
  ]

  divisor_negative : (negate q * (2 ^ 64 - n) + r) % 2 ^ 64 ≡ m
  divisor_negative = elim opposite [
    | inl (zero_q, zero_n) ↦
        rw zero_n (let e : q * n ≡ 0 = rw zero_q (omega arith) in omega (arith, e))
    | inr (_, e) ↦
        let split = parts (negate q) (2 ^ 64 - n) n (2 ^ 64) (omega arith) in
        let split_q = parts_left (negate q) q n (2 ^ 64) e in omega (arith, split, split_q, e)
  ]

signed_division :
    (a b : ℕ) → a < 2 ^ 64 → b < 2 ^ 64 → b ≢ 0 → (signed_div a b * b + signed_rem a b) % 2 ^ 64 ≡ a
unfolding signed_div signed_rem
signed_division a b fa fb nonzero =
    let m = magnitude a in
    let n = magnitude b in
    let q = m / n in
    let r = m % n in
    let whole : r + q * n ≡ m = mod-add-div' m n in
    let positive : 0 < n = ground arith in
    let less : r < n = mod-lt m positive in
    let small : m ≤ 2 ^ 63 = ground arith in
    let divisor : n ≤ 2 ^ 63 = ground arith in
    ground (
      arith,
      both_negative q n r m whole small divisor less,
      dividend_negative q n r m whole small divisor less,
      divisor_negative q n r m whole small divisor less,
    )

signed_rem-less :
    (a b : ℕ) → a < 2 ^ 64 → b < 2 ^ 64 → b ≢ 0 → magnitude (signed_rem a b) < magnitude b
unfolding signed_rem
signed_rem-less a b fa fb nonzero =
    let positive : 0 < magnitude b = ground arith in
    let divisor : magnitude b ≤ 2 ^ 63 = ground arith in
    let less = mod-lt (magnitude a) positive in ground (arith, less, divisor)

-- For all 64-bit values, DIV and REM satisfy the law of division modulo 2 ^ 64, a zero divisor and the
-- overflowing pair included, and so do DIVU and REMU exactly up to that modulus; where the divisor is
-- not zero, each remainder is smaller in magnitude than it.
pub div-rem :
    (a b : ℕ)
    → a < 2 ^ 64
    → b < 2 ^ 64
    → ((div a b * b + rem a b) % 2 ^ 64 ≡ a)
      × ((divu a b * b + remu a b) % 2 ^ 64 ≡ a)
      × (b ≢ 0 → magnitude (rem a b) < magnitude b)
      × (b ≢ 0 → remu a b < b)
unfolding div rem divu remu
div-rem a b fa fb =
    let whole = mod-add-div' a b in
    (
      ground (arith, signed_division a b fa fb),
      ground (arith, whole),
      λ nonzero. ground (arith, signed_rem-less a b fa fb nonzero),
      λ nonzero. let positive : 0 < b = ground arith in ground (arith, mod-lt a positive),
    )
