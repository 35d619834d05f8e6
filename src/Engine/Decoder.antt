-- ===== src/Engine/Decoder.antt =====
-- riscv-vm/src/engine/decoder.rs: the decoder of 32-bit instructions. A register is its number, an
-- i64 its 64-bit pattern, an i32 its 32-bit pattern.
pub mod Fields
pub mod Assemble
use bavy.Prelude.{
  ℕ, ◌+◌, ◌-◌, ◌^◌, ◌%◌, bit_and, bit_or, Bool, not, ◌==◌, ltb, if◌then◌else◌, Result, ok, err,
}
use bavy.Prelude.Bits.{◌>>>◌, ◌<<<◌}
use bavy.Cpu.Types.{Trap, illegal_instruction}

-- `Op`.
pub data Op : Type 0 where
  lui : ℕ → ℕ → Op  -- rd, imm
  auipc : ℕ → ℕ → Op  -- rd, imm
  jal : ℕ → ℕ → Op  -- rd, imm
  jalr : ℕ → ℕ → ℕ → Op  -- rd, rs1, imm
  branch : ℕ → ℕ → ℕ → ℕ → Op  -- rs1, rs2, imm, funct3
  load : ℕ → ℕ → ℕ → ℕ → Op  -- rd, rs1, imm, funct3
  store : ℕ → ℕ → ℕ → ℕ → Op  -- rs1, rs2, imm, funct3
  op_imm : ℕ → ℕ → ℕ → ℕ → ℕ → Op  -- rd, rs1, imm, funct3, funct7
  op : ℕ → ℕ → ℕ → ℕ → ℕ → Op  -- rd, rs1, rs2, funct3, funct7
  op_imm32 : ℕ → ℕ → ℕ → ℕ → ℕ → Op  -- rd, rs1, imm, funct3, funct7
  op32 : ℕ → ℕ → ℕ → ℕ → ℕ → Op  -- rd, rs1, rs2, funct3, funct7
  system : ℕ → ℕ → ℕ → ℕ → Op  -- rd, rs1, funct3, imm
  amo : ℕ → ℕ → ℕ → ℕ → ℕ → Bool → Bool → Op  -- rd, rs1, rs2, funct3, funct5, aq, rl
  fence : Op

-- `Register::from_u32`.
unfoldable pub from_u32 : ℕ → ℕ
from_u32 v = bit_and v 0x1F

-- `x as i32 as i64`, of a 32-bit pattern.
unfoldable pub extend32 : ℕ → ℕ
extend32 x = if ltb x (2 ^ 31) then x else x + (2 ^ 64 - 2 ^ 32)

-- `x >> k` on i32.
unfoldable pub asr32 : ℕ → ℕ → ℕ
asr32 x k = if ltb x (2 ^ 31) then x >>> k else (x >>> k) + (2 ^ 32 - 2 ^ (32 - k))

unfoldable pub imm_i : ℕ → ℕ
imm_i insn = extend32 (asr32 insn 20)

unfoldable pub imm_s : ℕ → ℕ
imm_s insn = bit_or (extend32 ((asr32 insn 25 <<< 5) % 2 ^ 32)) (bit_and (insn >>> 7) 0x1F)

unfoldable pub imm_b : ℕ → ℕ
imm_b insn =
    let bit31 = bit_and (insn >>> 31) 1 in
    let bit30_25 = bit_and (insn >>> 25) 0x3F in
    let bit11_8 = bit_and (insn >>> 8) 0xF in
    let bit7 = bit_and (insn >>> 7) 1 in
    let val =
      bit_or (bit_or (bit_or (bit31 <<< 12) (bit7 <<< 11)) (bit30_25 <<< 5)) (bit11_8 <<< 1) in
    extend32 (asr32 ((val <<< 19) % 2 ^ 32) 19)

unfoldable pub imm_u : ℕ → ℕ
imm_u insn = extend32 (bit_and insn 0xFFFFF000)

unfoldable pub imm_j : ℕ → ℕ
imm_j insn =
    let bit31 = bit_and (insn >>> 31) 1 in
    let bit30_21 = bit_and (insn >>> 21) 0x3FF in
    let bit20 = bit_and (insn >>> 20) 1 in
    let bit19_12 = bit_and (insn >>> 12) 0xFF in
    let val =
      bit_or (bit_or (bit_or (bit31 <<< 20) (bit19_12 <<< 12)) (bit20 <<< 11)) (bit30_21 <<< 1) in
    extend32 (asr32 ((val <<< 11) % 2 ^ 32) 11)

unfoldable pub decode : ℕ → Result Op Trap
decode insn =
    let opcode = bit_and insn 0x7F in
    let rd = from_u32 (bit_and (insn >>> 7) 0x1F) in
    let funct3 = bit_and (insn >>> 12) 0x7 in
    let rs1 = from_u32 (bit_and (insn >>> 15) 0x1F) in
    let rs2 = from_u32 (bit_and (insn >>> 20) 0x1F) in
    let funct7 = bit_and (insn >>> 25) 0x7F in
    let funct5 = bit_and (insn >>> 27) 0x1F in
    let aq = not (bit_and (insn >>> 26) 1 == 0) in
    let rl = not (bit_and (insn >>> 25) 1 == 0) in
    if opcode == 0x37
    then ok (lui rd (imm_u insn))
    else if opcode == 0x17
    then ok (auipc rd (imm_u insn))
    else if opcode == 0x6F
    then ok (jal rd (imm_j insn))
    else if opcode == 0x67
    then ok (jalr rd rs1 (imm_i insn))
    else if opcode == 0x63
    then ok (branch rs1 rs2 (imm_b insn) funct3)
    else if opcode == 0x03
    then ok (load rd rs1 (imm_i insn) funct3)
    else if opcode == 0x23
    then ok (store rs1 rs2 (imm_s insn) funct3)
    else if opcode == 0x13
    then ok (op_imm rd rs1 (imm_i insn) funct3 funct7)
    else if opcode == 0x33
    then ok (op rd rs1 rs2 funct3 funct7)
    else if opcode == 0x1B
    then ok (op_imm32 rd rs1 (imm_i insn) funct3 funct7)
    else if opcode == 0x3B
    then ok (op32 rd rs1 rs2 funct3 funct7)
    else if opcode == 0x2F
    then ok (amo rd rs1 rs2 funct3 funct5 aq rl)
    else if opcode == 0x73
    then ok (system rd rs1 funct3 (bit_and (insn >>> 20) 0xFFF))
    else if opcode == 0x0F
    then ok fence
    else err (illegal_instruction insn)
