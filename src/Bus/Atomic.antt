-- ===== src/Bus/Atomic.antt =====
-- riscv-vm/src/bus.rs: the `Bus` trait's own atomic operations, a read and a write.
use bavy.Prelude.{
  ℕ, ◌+◌, ◌%◌, ◌^◌, bit_and, bit_or, bit_xor, ltb, Bool, true, false, if◌then◌else◌, Result, ok,
  err,
}
use bavy.Cpu.Types.{Trap}
use bavy.Bus.{Bus}
use bavy.Engine.Decoder.{extend32}
use bavy.Cpu.Execute.Alu.{signed_ltb, low32}

-- One constructor for each of the trait's nine `atomic_` methods that change memory always.
pub data AmoOp : Type 0 where
  swap add and or xor min max minu maxu : AmoOp

-- What is written, from the old value and the operand. A word's old value is sign-extended, for
-- `minu` and `maxu` zero-extended.
unfoldable pub new_value : AmoOp → Bool → ℕ → ℕ → ℕ
new_value swap is_word old value = value
new_value add is_word old value = (old + value) % 2 ^ 64
new_value and is_word old value = bit_and old value
new_value or is_word old value = bit_or old value
new_value xor is_word old value = bit_xor old value
new_value min is_word old value = if signed_ltb old value then old else value
new_value max is_word old value = if signed_ltb value old then old else value
new_value minu is_word old value =
    if is_word
    then if ltb old (low32 value) then old else value
    else if ltb old value
    then old
    else value
new_value maxu is_word old value =
    if is_word
    then if ltb (low32 value) old then old else value
    else if ltb value old
    then old
    else value

-- The 64-bit value that a word is compared and combined as.
unfoldable pub widened : AmoOp → ℕ → ℕ
widened minu word = word
widened maxu word = word
widened op word = extend32 word

module _ (bus : Bus) where
  unfoldable pub atomic_word : AmoOp → ℕ → ℕ → bus.State → bus.State × Result ℕ Trap
  atomic_word op addr value m =
      let (m', loaded) = bus.load m addr 4 in
      elim loaded [
        | err t ↦ (m', err t)
        | ok word ↦
            let (m'', stored) =
              bus.store m' addr 4 (low32 (new_value op true (widened op word) value)) in
            elim stored [ err t ↦ (m'', err t) | ok _ ↦ (m'', ok (extend32 word)) ]
      ]

  unfoldable pub atomic_double : AmoOp → ℕ → ℕ → bus.State → bus.State × Result ℕ Trap
  atomic_double op addr value m =
      let (m', loaded) = bus.load m addr 8 in
      elim loaded [
        | err t ↦ (m', err t)
        | ok old ↦
            let (m'', stored) = bus.store m' addr 8 (new_value op false old value) in
            elim stored [ err t ↦ (m'', err t) | ok _ ↦ (m'', ok old) ]
      ]

  -- `atomic_swap` to `atomic_maxu`, on (addr, value, is_word).
  unfoldable pub atomic : AmoOp → ℕ → ℕ → Bool → bus.State → bus.State × Result ℕ Trap
  atomic op addr value is_word m =
      if is_word then atomic_word op addr value m else atomic_double op addr value m
