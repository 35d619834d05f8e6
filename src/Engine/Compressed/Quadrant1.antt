-- ===== src/Engine/Compressed/Quadrant1.antt =====
-- riscv-vm/src/engine/decoder.rs: `expand_q1`.
use bavy.Prelude.{ℕ, ◌^◌, ◌%◌, bit_and, bit_or, ◌||◌, ◌==◌, if◌then◌else◌, Result, ok, err}
use bavy.Prelude.Bits.{◌>>>◌, ◌<<<◌}
use bavy.Cpu.Types.{Trap, illegal_instruction}
use bavy.Engine.Encode.{encode_i, encode_u, encode_r, encode_j, encode_b, sext}
use bavy.Engine.Compressed.Immediates.{prime, imm_bits, addi16sp_imm, jump_offset, branch_offset}

-- C.ADDI16SP and C.LUI.
unfoldable pub expand_lui : ℕ → Result ℕ Trap
expand_lui insn =
    let rd = bit_and (insn >>> 7) 0x1F in
    if rd == 2
    then if addi16sp_imm insn == 0
      then err (illegal_instruction insn)
      else ok (encode_i (sext (addi16sp_imm insn) 10) 2 0x0 2 0x13)
    else if (rd == 0) || (imm_bits insn == 0)
    then err (illegal_instruction insn)
    else ok (encode_u ((sext (imm_bits insn) 6 <<< 12) % 2 ^ 32) rd 0x37)

-- C.SUB, C.XOR, C.OR, C.AND, C.SUBW and C.ADDW.
unfoldable pub expand_register : ℕ → Result ℕ Trap
expand_register insn =
    let rs1_prime = prime insn 7 in
    let rs2_prime = prime insn 2 in
    let bit12 = bit_and (insn >>> 12) 0x1 in
    let funct2 = bit_and (insn >>> 5) 0x3 in
    if bit12 == 0
    then ok (
        encode_r (if funct2 == 0b00 then 0x20 else 0x00) rs2_prime rs1_prime
          (if funct2 == 0b00
            then 0x0
            else if funct2 == 0b01
            then 0x4
            else if funct2 == 0b10
            then 0x6
            else 0x7)
          rs1_prime 0x33)
    else if funct2 == 0b00
    then ok (encode_r 0x20 rs2_prime rs1_prime 0x0 rs1_prime 0x3B)
    else if funct2 == 0b01
    then ok (encode_r 0x00 rs2_prime rs1_prime 0x0 rs1_prime 0x3B)
    else err (illegal_instruction insn)

-- C.SRLI, C.SRAI, C.ANDI and the two-register operations.
unfoldable pub expand_alu : ℕ → Result ℕ Trap
expand_alu insn =
    let rs1_prime = prime insn 7 in
    let op = bit_and (insn >>> 10) 0x3 in
    let shamt = bit_and (imm_bits insn) 0x3F in
    if op == 0b00
    then ok (encode_i shamt rs1_prime 0x5 rs1_prime 0x13)
    else if op == 0b01
    then ok (encode_i (bit_or (0x20 <<< 6) shamt) rs1_prime 0x5 rs1_prime 0x13)
    else if op == 0b10
    then ok (encode_i (sext (imm_bits insn) 6) rs1_prime 0x7 rs1_prime 0x13)
    else expand_register insn

unfoldable pub expand_q1 : ℕ → ℕ → Result ℕ Trap
expand_q1 insn funct3 =
    let rd = bit_and (insn >>> 7) 0x1F in
    let imm = sext (imm_bits insn) 6 in
    let rs1_prime = prime insn 7 in
    if funct3 == 0b000
    then if rd == 0
      then if imm == 0 then ok (encode_i 0 0 0x0 0 0x13) else err (illegal_instruction insn)
      else ok (encode_i imm rd 0x0 rd 0x13)
    else if funct3 == 0b001
    then if rd == 0 then err (illegal_instruction insn) else ok (encode_i imm rd 0x0 rd 0x1B)
    else if funct3 == 0b010
    then if rd == 0 then err (illegal_instruction insn) else ok (encode_i imm 0 0x0 rd 0x13)
    else if funct3 == 0b011
    then expand_lui insn
    else if funct3 == 0b100
    then expand_alu insn
    else if funct3 == 0b101
    then ok (encode_j (sext (jump_offset insn) 12) 0)
    else if funct3 == 0b110
    then ok (encode_b (sext (branch_offset insn) 9) 0 rs1_prime 0x0 0x63)
    else if funct3 == 0b111
    then ok (encode_b (sext (branch_offset insn) 9) 0 rs1_prime 0x1 0x63)
    else err (illegal_instruction insn)
