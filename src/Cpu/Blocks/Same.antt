-- ===== src/Cpu/Blocks/Same.antt =====
-- riscv-vm/src/cpu/core.rs, execution.rs: the 32-bit multiplications and divisions of a block give
-- what the interpreter's give.
use native.Mathlib.Nat.{div-le_self, mod-le}
use bavy.Prelude.{
  ℕ, ◌+◌, ◌-◌, ◌*◌, ◌/◌, ◌%◌, ◌^◌, ◌<◌, ◌≤◌, ◌≡◌, arith, Bool, true, false, ◌&&◌, ◌==◌,
  if◌then◌else◌, refl, ap, sym, inl, inr, Bool-cases,
}
use bavy.Engine.Decoder.{extend32}
use bavy.Cpu.Execute.Alu.{
  low32, negative, negate, widen, magnitude, signed_div, signed_rem, divw, divuw, remw, remuw, mulw,
}
use bavy.Cpu.Blocks.Words.{
  negative32, div32, rem32, magnitude32, micro_mulw, micro_divw, micro_divuw, micro_remw,
  micro_remuw,
}

negative-extend32 : (a : ℕ) → a < 2 ^ 32 → negative (extend32 a) ≡ negative32 a
unfolding extend32
negative-extend32 a h = ground arith

magnitude-extend32 : (a : ℕ) → a < 2 ^ 32 → magnitude (extend32 a) ≡ magnitude32 a
unfolding extend32
magnitude-extend32 a h = ground arith

extend32-eq : (a b : ℕ) → a < 2 ^ 32 → b < 2 ^ 32 → (extend32 a == extend32 b) ≡ (a == b)
unfolding extend32
extend32-eq a b ha hb = ground arith

module _ (a b : ℕ) (ha : a < 2 ^ 32) (hb : b < 2 ^ 32) where
  magnitude32-le : magnitude32 a ≤ 2 ^ 32 - 1
  magnitude32-le = ground arith

  -- A 64-bit quotient or remainder, cut to 32 bits.
  signed_div-extend32 : low32 (signed_div (extend32 a) (extend32 b)) ≡ div32 a b
  unfolding signed_div div32
  signed_div-extend32 =
      let le : magnitude32 a / magnitude32 b ≤ magnitude32 a =
        div-le_self (magnitude32 a) (magnitude32 b) in
      let small : magnitude32 a / magnitude32 b < 2 ^ 32 = omega (arith, magnitude32-le) in
      rw
        (
          magnitude-extend32 a ha,
          magnitude-extend32 b hb,
          negative-extend32 a ha,
          negative-extend32 b hb,
        )
        (cut (negative32 a) (negative32 b) (magnitude32 a / magnitude32 b) small)
    where
      cut :
          (p q : Bool) (n : ℕ)
          → n < 2 ^ 32
          → low32 (if p then if q then n else negate n else if q then negate n else n) ≡ (
              if p
              then if q then n else (2 ^ 32 - n) % 2 ^ 32
              else if q
              then (2 ^ 32 - n) % 2 ^ 32
              else n)
      cut true true n h = omega arith
      cut true false n h = omega arith
      cut false true n h = omega arith
      cut false false n h = omega arith

  signed_rem-extend32 : low32 (signed_rem (extend32 a) (extend32 b)) ≡ rem32 a b
  unfolding signed_rem rem32
  signed_rem-extend32 =
      let le : magnitude32 a % magnitude32 b ≤ magnitude32 a =
        mod-le (magnitude32 a) (magnitude32 b) in
      let small : magnitude32 a % magnitude32 b < 2 ^ 32 = omega (arith, magnitude32-le) in
      rw (magnitude-extend32 a ha, magnitude-extend32 b hb, negative-extend32 a ha)
        (cut (negative32 a) (magnitude32 a % magnitude32 b) small)
    where
      cut :
          (p : Bool) (n : ℕ)
          → n < 2 ^ 32
          → low32 (if p then negate n else n) ≡ (if p then (2 ^ 32 - n) % 2 ^ 32 else n)
      cut true n h = omega arith
      cut false n h = omega arith

pub micro_divuw-divuw : (v w : ℕ) → micro_divuw v w ≡ divuw v w
unfolding micro_divuw divuw
micro_divuw-divuw v w =
    let le : low32 v / low32 w ≤ low32 v = div-le_self (low32 v) (low32 w) in
    let small : low32 (low32 v / low32 w) ≡ low32 v / low32 w = omega arith in
    elim (Bool-cases (low32 w == 0)) [ inl e ↦ rw e | inr e ↦ rw (e, small) ]

pub micro_remuw-remuw : (v w : ℕ) → micro_remuw v w ≡ remuw v w
unfolding micro_remuw remuw
micro_remuw-remuw v w = ground arith

-- The tests for a zero divisor and for overflow are those of the interpreter.
zero_test : (b : ℕ) → b < 2 ^ 32 → (extend32 b == 0) ≡ (b == 0)
unfolding extend32
zero_test b h = ground arith

minus_one_test : (b : ℕ) → b < 2 ^ 32 → (extend32 b == 2 ^ 64 - 1) ≡ (b == 2 ^ 32 - 1)
unfolding extend32
minus_one_test b h = ground arith

minimum_test : (a : ℕ) → a < 2 ^ 32 → (extend32 a == extend32 (2 ^ 31)) ≡ (a == 2 ^ 31)
minimum_test a h = extend32-eq a (2 ^ 31) h (omega arith)

low32-extend32 : (a : ℕ) → a < 2 ^ 32 → low32 (extend32 a) ≡ a
unfolding extend32
low32-extend32 a h = ground arith

pub micro_divw-divw : (v w : ℕ) → micro_divw v w ≡ divw v w
unfolding micro_divw divw
micro_divw-divw v w =
    let a = low32 v in
    let b = low32 w in
    let ha : a < 2 ^ 32 = omega arith in
    let hb : b < 2 ^ 32 = omega arith in
    rw (zero_test b hb, minimum_test a ha, minus_one_test b hb)
      (elim (Bool-cases (b == 0)) [
        | inl e ↦ rw e (unfold extend32 in refl)
        | inr e ↦ rw e (elim (Bool-cases ((a == 2 ^ 31) && (b == 2 ^ 32 - 1))) [
          | inl f ↦ rw f (unfold extend32 in refl)
          | inr f ↦ rw (f, signed_div-extend32 a b ha hb) refl
        ])
      ])

pub micro_remw-remw : (v w : ℕ) → micro_remw v w ≡ remw v w
unfolding micro_remw remw
micro_remw-remw v w =
    let a = low32 v in
    let b = low32 w in
    let ha : a < 2 ^ 32 = omega arith in
    let hb : b < 2 ^ 32 = omega arith in
    rw (zero_test b hb, minimum_test a ha, minus_one_test b hb)
      (elim (Bool-cases (b == 0)) [
        | inl e ↦ rw (e, low32-extend32 a ha) refl
        | inr e ↦ rw e (elim (Bool-cases ((a == 2 ^ 31) && (b == 2 ^ 32 - 1))) [
          | inl f ↦ rw f (unfold extend32 in refl)
          | inr f ↦ rw (f, signed_rem-extend32 a b ha hb) refl
        ])
      ])

wide_product :
    (a b k l : ℕ) → low32 ((a + k * 2 ^ 64) * (b + l * 2 ^ 64) % 2 ^ 128) ≡ low32 (a * b % 2 ^ 64)
wide_product a b k l =
    let e : (a + k * 2 ^ 64) * (b + l * 2 ^ 64)
        ≡ a * b + (k * b + a * l + k * (l * 2 ^ 64)) * 2 ^ 64 =
      grind arith in
    rw e (omega arith)

widen_lem : (a : ℕ) → widen a ≡ a + (if negative a then 2 ^ 64 - 1 else 0) * 2 ^ 64
widen_lem a = ground arith

pub micro_mulw-mulw : (v w : ℕ) → micro_mulw v w ≡ mulw v w
unfolding micro_mulw mulw
micro_mulw-mulw v w =
    let a = extend32 (low32 v) in
    let b = extend32 (low32 w) in
    ap extend32 (
      sym (
        rw (widen_lem a, widen_lem b)
          (wide_product a b (if negative a then 2 ^ 64 - 1 else 0)
            (if negative b then 2 ^ 64 - 1 else 0))))

-- ADDIW with the immediate cut to an i32.
pub addiw_immediate :
    (v imm : ℕ) → low32 ((v + extend32 (imm % 2 ^ 32)) % 2 ^ 64) ≡ low32 ((v + imm) % 2 ^ 64)
unfolding extend32
addiw_immediate v imm = ground arith
