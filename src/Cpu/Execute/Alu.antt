-- ===== src/Cpu/Execute/Alu.antt =====
-- riscv-vm/src/cpu/execution.rs: the results of the integer instructions. Registers and immediates
-- are 64-bit patterns; `none` is a function code that raises an illegal instruction.
pub mod Laws
use bavy.Prelude.{
  ℕ, ◌+◌, ◌-◌, ◌*◌, ◌/◌, ◌%◌, ◌^◌, bit_and, bit_or, bit_xor, Bool, true, false, not, ◌&&◌, Option,
  none, some, ◌==◌, ltb, if◌then◌else◌,
}
use bavy.Prelude.Bits.{◌>>>◌, ◌<<<◌}
use bavy.Engine.Decoder.{extend32, asr32}

-- `a < 0` for an i64.
abbrev pub negative : ℕ → Bool
negative a = not (ltb a (2 ^ 63))

-- `(a as i64) < (b as i64)`.
unfoldable pub signed_ltb : ℕ → ℕ → Bool
signed_ltb a b =
    if negative a
    then if negative b then ltb a b else true
    else if negative b
    then false
    else ltb a b

-- `!a + 1`, the pattern of `-a`.
abbrev pub negate : ℕ → ℕ
negate a = (2 ^ 64 - a) % 2 ^ 64

-- `|a|` of an i64.
abbrev pub magnitude : ℕ → ℕ
magnitude a = if negative a then 2 ^ 64 - a else a

-- Rust's `a / b` and `a % b` on i64, for b other than 0 and a pair that does not overflow: the
-- quotient is cut towards zero and the remainder has the sign of a.
unfoldable pub signed_div : ℕ → ℕ → ℕ
signed_div a b =
    let q = magnitude a / magnitude b in
    if negative a then if negative b then q else negate q else if negative b then negate q else q

unfoldable pub signed_rem : ℕ → ℕ → ℕ
signed_rem a b = let r = magnitude a % magnitude b in if negative a then negate r else r

-- `a as i64 as i128`.
abbrev pub widen : ℕ → ℕ
widen a = if negative a then a + (2 ^ 128 - 2 ^ 64) else a

-- `(a as i64) >> k`.
unfoldable pub asr64 : ℕ → ℕ → ℕ
asr64 a k = if negative a then (a >>> k) + (2 ^ 64 - 2 ^ (64 - k)) else a >>> k

abbrev pub flag : Bool → ℕ
flag b = if b then 1 else 0

-- `Op::OpImm`.
unfoldable pub op_imm_result : ℕ → ℕ → ℕ → ℕ → Option ℕ
op_imm_result funct3 funct7 val1 imm =
    let shamt = bit_and imm 0x3F in
    if funct3 == 0
    then some ((val1 + imm) % 2 ^ 64)
    else if funct3 == 2
    then some (flag (signed_ltb val1 imm))
    else if funct3 == 3
    then some (flag (ltb val1 imm))
    else if funct3 == 4
    then some (bit_xor val1 imm)
    else if funct3 == 6
    then some (bit_or val1 imm)
    else if funct3 == 7
    then some (bit_and val1 imm)
    else if funct3 == 1
    then some ((val1 <<< shamt) % 2 ^ 64)
    else if funct3 == 5
    then some (if bit_and funct7 0x20 == 0 then val1 >>> shamt else asr64 val1 shamt)
    else none

unfoldable pub div : ℕ → ℕ → ℕ
div a b =
    if b == 0
    then 2 ^ 64 - 1
    else if (a == 2 ^ 63) && (b == 2 ^ 64 - 1)
    then 2 ^ 63
    else signed_div a b

unfoldable pub divu : ℕ → ℕ → ℕ
divu a b = if b == 0 then 2 ^ 64 - 1 else a / b

unfoldable pub rem : ℕ → ℕ → ℕ
rem a b = if b == 0 then a else if (a == 2 ^ 63) && (b == 2 ^ 64 - 1) then 0 else signed_rem a b

unfoldable pub remu : ℕ → ℕ → ℕ
remu a b = if b == 0 then a else a % b

unfoldable pub mul : ℕ → ℕ → ℕ
mul a b = (widen a * widen b) % 2 ^ 128 % 2 ^ 64

unfoldable pub mulh : ℕ → ℕ → ℕ
mulh a b = ((widen a * widen b) % 2 ^ 128) >>> 64

unfoldable pub mulhsu : ℕ → ℕ → ℕ
mulhsu a b = ((widen a * b) % 2 ^ 128) >>> 64

unfoldable pub mulhu : ℕ → ℕ → ℕ
mulhu a b = ((a * b) % 2 ^ 128) >>> 64

-- `Op::Op`.
unfoldable pub op_result : ℕ → ℕ → ℕ → ℕ → Option ℕ
op_result funct3 funct7 val1 val2 =
    let shamt = bit_and val2 0x3F in
    if funct7 == 0x00
    then if funct3 == 0
      then some ((val1 + val2) % 2 ^ 64)
      else if funct3 == 1
      then some ((val1 <<< shamt) % 2 ^ 64)
      else if funct3 == 2
      then some (flag (signed_ltb val1 val2))
      else if funct3 == 3
      then some (flag (ltb val1 val2))
      else if funct3 == 4
      then some (bit_xor val1 val2)
      else if funct3 == 5
      then some (val1 >>> shamt)
      else if funct3 == 6
      then some (bit_or val1 val2)
      else if funct3 == 7
      then some (bit_and val1 val2)
      else none
    else if funct7 == 0x20
    then if funct3 == 0
      then some ((val1 + 2 ^ 64 - val2) % 2 ^ 64)
      else if funct3 == 5
      then some (asr64 val1 shamt)
      else none
    else if funct7 == 0x01
    then if funct3 == 0
      then some (mul val1 val2)
      else if funct3 == 1
      then some (mulh val1 val2)
      else if funct3 == 2
      then some (mulhsu val1 val2)
      else if funct3 == 3
      then some (mulhu val1 val2)
      else if funct3 == 4
      then some (div val1 val2)
      else if funct3 == 5
      then some (divu val1 val2)
      else if funct3 == 6
      then some (rem val1 val2)
      else if funct3 == 7
      then some (remu val1 val2)
      else none
    else none

-- `v as u32`.
abbrev pub low32 : ℕ → ℕ
low32 v = v % 2 ^ 32

-- `Op::OpImm32`.
unfoldable pub op_imm32_result : ℕ → ℕ → ℕ → ℕ → Option ℕ
op_imm32_result funct3 funct7 val1 imm =
    let shamt = bit_and imm 0x1F in
    if funct3 == 0
    then some (extend32 (low32 ((val1 + imm) % 2 ^ 64)))
    else if funct3 == 1
    then some (extend32 (low32 (low32 val1 <<< shamt)))
    else if funct3 == 5
    then some (
        extend32
          (if bit_and funct7 0x20 == 0 then low32 val1 >>> shamt else asr32 (low32 val1) shamt))
    else none

-- The division of two i32 widened to i64: `i32::MIN / -1` is caught before.
unfoldable pub divw : ℕ → ℕ → ℕ
divw val1 val2 =
    let a = extend32 (low32 val1) in
    let b = extend32 (low32 val2) in
    let q =
      if b == 0
      then 2 ^ 64 - 1
      else if (a == extend32 (2 ^ 31)) && (b == 2 ^ 64 - 1)
      then extend32 (2 ^ 31)
      else signed_div a b in
    extend32 (low32 q)

unfoldable pub remw : ℕ → ℕ → ℕ
remw val1 val2 =
    let a = extend32 (low32 val1) in
    let b = extend32 (low32 val2) in
    let r =
      if b == 0
      then a
      else if (a == extend32 (2 ^ 31)) && (b == 2 ^ 64 - 1)
      then 0
      else signed_rem a b in
    extend32 (low32 r)

unfoldable pub divuw : ℕ → ℕ → ℕ
divuw val1 val2 =
    let q = if low32 val2 == 0 then 2 ^ 64 - 1 else low32 val1 / low32 val2 in extend32 (low32 q)

unfoldable pub remuw : ℕ → ℕ → ℕ
remuw val1 val2 = extend32 (if low32 val2 == 0 then low32 val1 else low32 val1 % low32 val2)

unfoldable pub mulw : ℕ → ℕ → ℕ
mulw val1 val2 =
    extend32 (low32 ((widen (extend32 (low32 val1)) * widen (extend32 (low32 val2))) % 2 ^ 128))

-- `Op::Op32`.
unfoldable pub op32_result : ℕ → ℕ → ℕ → ℕ → Option ℕ
op32_result funct3 funct7 val1 val2 =
    let shamt = bit_and val2 0x1F in
    if funct7 == 0x00
    then if funct3 == 0
      then some (extend32 (low32 ((val1 + val2) % 2 ^ 64)))
      else if funct3 == 1
      then some (extend32 (low32 (low32 val1 <<< shamt)))
      else if funct3 == 5
      then some (extend32 (low32 val1 >>> shamt))
      else none
    else if funct7 == 0x20
    then if funct3 == 0
      then some (extend32 (low32 ((val1 + 2 ^ 64 - val2) % 2 ^ 64)))
      else if funct3 == 5
      then some (extend32 (asr32 (low32 val1) shamt))
      else none
    else if funct7 == 0x01
    then if funct3 == 0
      then some (mulw val1 val2)
      else if funct3 == 4
      then some (divw val1 val2)
      else if funct3 == 5
      then some (divuw val1 val2)
      else if funct3 == 6
      then some (remw val1 val2)
      else if funct3 == 7
      then some (remuw val1 val2)
      else none
    else none

-- `Op::Branch`: whether the branch is taken.
unfoldable pub taken : ℕ → ℕ → ℕ → Option Bool
taken funct3 val1 val2 =
    if funct3 == 0
    then some (val1 == val2)
    else if funct3 == 1
    then some (not (val1 == val2))
    else if funct3 == 4
    then some (signed_ltb val1 val2)
    else if funct3 == 5
    then some (not (signed_ltb val1 val2))
    else if funct3 == 6
    then some (ltb val1 val2)
    else if funct3 == 7
    then some (not (ltb val1 val2))
    else none
