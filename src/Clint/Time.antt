-- ===== src/Clint/Time.antt =====
-- riscv-vm/src/devices/clint.rs: the words of the timers and of mtime.
use bavy.Prelude.{
  ℕ, zero, suc, ◌+◌, ◌-◌, ◌*◌, ◌/◌, ◌%◌, ◌^◌, ◌≤◌, ◌<◌, ◌≡◌, refl, ap, ◌∙◌, arith, bit_and, bit_or,
  List, [], ◌∷◌, Option, none, some,
}
use bavy.Prelude.Bits.{◌>>>◌, bit_or_fields, clear_low, bit_and_mask, bit_ext, bit-bit_or}
use bavy.Clint.State.{Clint, mtime, set_mtime, with_low, with_high, ticks}
use bavy.Clint.Update.{Attempt, update_loop, after_rounds, update_loop_atomic, disturbed}

bit_or_comm : (a b : ℕ) → bit_or a b ≡ bit_or b a
bit_or_comm a b =
    bit_ext (bit_or a b) (bit_or b a) λ i. omega (arith, bit-bit_or a b i, bit-bit_or b a i)

-- The low half is the value; the high half stays.
pub with_low_lem :
    (value current : ℕ)
    → current < 2 ^ 64
    → value < 2 ^ 32
    → with_low value current ≡ (current >>> 32) * 2 ^ 32 + value
unfolding with_low
with_low_lem value current word half =
    let kept : bit_and current (2 ^ 64 - 2 ^ 32) ≡ (current >>> 32) * 2 ^ 32 =
      omega (arith, clear_low 64 32 current (omega arith) word) in
    rw kept (bit_or_fields 32 (current >>> 32) value half)

-- The high half is the value; the low half stays.
pub with_high_lem :
    (value current : ℕ) → with_high value current ≡ value * 2 ^ 32 + current % 2 ^ 32
unfolding with_high
with_high_lem value current =
    rw (bit_and_mask 32 current, bit_or_comm (current % 2 ^ 32) (value * 2 ^ 32))
      (bit_or_fields 32 value (current % 2 ^ 32) (omega arith))

-- No other hart stores during the rounds; some may still fail.
unfoldable pub IsQuiet : List Attempt → Type 0
IsQuiet [] = Unit {0}
IsQuiet (a ∷ rest) = (a.stored ≡ none) × IsQuiet rest

after_rounds-quiet :
    (word : ℕ) (attempts : List Attempt) (n : ℕ)
    → IsQuiet attempts
    → after_rounds word attempts n ≡ word
unfolding after_rounds IsQuiet
after_rounds-quiet word attempts zero quiet = refl
after_rounds-quiet word [] (suc n) quiet = refl
after_rounds-quiet word (a ∷ rest) (suc n) quiet =
    let same : disturbed word a ≡ word =
      ap (λ (o : Option ℕ). elim o [ none ↦ word | some v ↦ v ]) quiet.0 in
    rw same (after_rounds-quiet word rest n quiet.1)

pub update_loop-quiet :
    (f : ℕ → ℕ) (word : ℕ) (attempts : List Attempt)
    → IsQuiet attempts
    → update_loop f word attempts ≡ f word
update_loop-quiet f word attempts quiet =
    let moment = update_loop_atomic f word attempts in
    moment.3 ∙ ap f (after_rounds-quiet word attempts (suc moment.0) quiet)

-- Restoring mtime at a time `now` and reading it `elapsed` milliseconds later gives the value,
-- rounded down to a millisecond, plus the ticks that passed, when the clock had run for that long
-- and the sum fits 64 bits.
pub mtime-set_mtime :
    (c : Clint) (now elapsed val : ℕ)
    → val / ticks ≤ now
    → val + elapsed * ticks < 2 ^ 64
    → mtime (now + elapsed) (set_mtime now c val) ≡ (val - val % ticks) + elapsed * ticks
unfolding mtime set_mtime
mtime-set_mtime c now elapsed val ran fits = omega arith
