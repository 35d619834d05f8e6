-- ===== src/Engine/Compressed.antt =====
-- riscv-vm/src/engine/decoder.rs: the 16-bit instructions, expanded into 32-bit words.
mod Immediates
mod Quadrant1
unfoldable pub use Immediates.*
unfoldable pub use Quadrant1.*
use bavy.Prelude.{ℕ, bit_and, not, ◌&&◌, ◌==◌, if◌then◌else◌, Result, ok, err}
use bavy.Prelude.Bits.{◌>>>◌}
use bavy.Cpu.Types.{Trap, illegal_instruction}
use bavy.Engine.Encode.{encode_i, encode_r, encode_s}

unfoldable pub expand_q0 : ℕ → ℕ → Result ℕ Trap
expand_q0 insn funct3 =
    let rd_prime = prime insn 2 in
    let rs1_prime = prime insn 7 in
    if funct3 == 0b000
    then if addi4spn_imm insn == 0
      then err (illegal_instruction insn)
      else ok (encode_i (addi4spn_imm insn) 2 0x0 rd_prime 0x13)
    else if funct3 == 0b010
    then ok (encode_i (lw_imm insn) rs1_prime 0x2 rd_prime 0x03)
    else if funct3 == 0b011
    then ok (encode_i (ld_imm insn) rs1_prime 0x3 rd_prime 0x03)
    else if funct3 == 0b110
    then ok (encode_s (lw_imm insn) rd_prime rs1_prime 0x2 0x23)
    else if funct3 == 0b111
    then ok (encode_s (ld_imm insn) rd_prime rs1_prime 0x3 0x23)
    else err (illegal_instruction insn)

-- C.JR, C.MV, C.EBREAK, C.JALR and C.ADD.
unfoldable pub expand_jump : ℕ → Result ℕ Trap
expand_jump insn =
    let rd = bit_and (insn >>> 7) 0x1F in
    let rs2 = bit_and (insn >>> 2) 0x1F in
    let bit12 = bit_and (insn >>> 12) 0x1 in
    if (bit12 == 0) && (rs2 == 0) && not (rd == 0)
    then ok (encode_i 0 rd 0x0 0 0x67)
    else if (bit12 == 0) && not (rs2 == 0) && not (rd == 0)
    then ok (encode_r 0x00 rs2 0 0x0 rd 0x33)
    else if (bit12 == 1) && (rs2 == 0) && (rd == 0)
    then ok 0x00100073
    else if (bit12 == 1) && (rs2 == 0) && not (rd == 0)
    then ok (encode_i 0 rd 0x0 1 0x67)
    else if (bit12 == 1) && not (rs2 == 0) && not (rd == 0)
    then ok (encode_r 0x00 rs2 rd 0x0 rd 0x33)
    else err (illegal_instruction insn)

unfoldable pub expand_q2 : ℕ → ℕ → Result ℕ Trap
expand_q2 insn funct3 =
    let rd = bit_and (insn >>> 7) 0x1F in
    let rs2 = bit_and (insn >>> 2) 0x1F in
    if funct3 == 0b000
    then if rd == 0
      then err (illegal_instruction insn)
      else ok (encode_i (bit_and (imm_bits insn) 0x3F) rd 0x1 rd 0x13)
    else if funct3 == 0b010
    then if rd == 0
      then err (illegal_instruction insn)
      else ok (encode_i (lwsp_imm insn) 2 0x2 rd 0x03)
    else if funct3 == 0b011
    then if rd == 0
      then err (illegal_instruction insn)
      else ok (encode_i (ldsp_imm insn) 2 0x3 rd 0x03)
    else if funct3 == 0b100
    then expand_jump insn
    else if funct3 == 0b110
    then ok (encode_s (swsp_imm insn) rs2 2 0x2 0x23)
    else if funct3 == 0b111
    then ok (encode_s (sdsp_imm insn) rs2 2 0x3 0x23)
    else err (illegal_instruction insn)

unfoldable pub expand_compressed : ℕ → Result ℕ Trap
expand_compressed insn =
    let opcode = bit_and insn 0x3 in
    let funct3 = bit_and (insn >>> 13) 0x7 in
    if opcode == 0b00
    then expand_q0 insn funct3
    else if opcode == 0b01
    then expand_q1 insn funct3
    else if opcode == 0b10
    then expand_q2 insn funct3
    else err (illegal_instruction insn)
