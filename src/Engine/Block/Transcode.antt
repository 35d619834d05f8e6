-- ===== src/Engine/Block/Transcode.antt =====
-- riscv-vm/src/engine/block.rs: `transcode`, from a decoded instruction to a micro-operation. A
-- function code with no arm becomes `fence`.
use bavy.Prelude.{ℕ, ◌%◌, ◌^◌, bit_and, ◌&&◌, ◌==◌, if◌then◌else◌}
use bavy.Prelude.Bits.{◌>>>◌}
use bavy.Engine.Decoder
use bavy.Engine.Decoder.{Op}
use bavy.Engine.Microop
use bavy.Engine.Microop.{MicroOp, fence}

unfoldable pub transcode_branch : ℕ → ℕ → ℕ → ℕ → ℕ → ℕ → MicroOp
transcode_branch rs1 rs2 imm funct3 pc_offset insn_len =
    if funct3 == 0
    then Microop.beq rs1 rs2 imm pc_offset insn_len
    else if funct3 == 1
    then Microop.bne rs1 rs2 imm pc_offset insn_len
    else if funct3 == 4
    then Microop.blt rs1 rs2 imm pc_offset insn_len
    else if funct3 == 5
    then Microop.bge rs1 rs2 imm pc_offset insn_len
    else if funct3 == 6
    then Microop.bltu rs1 rs2 imm pc_offset insn_len
    else if funct3 == 7
    then Microop.bgeu rs1 rs2 imm pc_offset insn_len
    else fence

unfoldable pub transcode_load : ℕ → ℕ → ℕ → ℕ → ℕ → MicroOp
transcode_load rd rs1 imm funct3 pc_offset =
    if funct3 == 0
    then Microop.lb rd rs1 imm pc_offset
    else if funct3 == 1
    then Microop.lh rd rs1 imm pc_offset
    else if funct3 == 2
    then Microop.lw rd rs1 imm pc_offset
    else if funct3 == 3
    then Microop.ld rd rs1 imm pc_offset
    else if funct3 == 4
    then Microop.lbu rd rs1 imm pc_offset
    else if funct3 == 5
    then Microop.lhu rd rs1 imm pc_offset
    else if funct3 == 6
    then Microop.lwu rd rs1 imm pc_offset
    else fence

unfoldable pub transcode_store : ℕ → ℕ → ℕ → ℕ → ℕ → MicroOp
transcode_store rs1 rs2 imm funct3 pc_offset =
    if funct3 == 0
    then Microop.sb rs1 rs2 imm pc_offset
    else if funct3 == 1
    then Microop.sh rs1 rs2 imm pc_offset
    else if funct3 == 2
    then Microop.sw rs1 rs2 imm pc_offset
    else if funct3 == 3
    then Microop.sd rs1 rs2 imm pc_offset
    else fence

unfoldable pub transcode_op_imm : ℕ → ℕ → ℕ → ℕ → ℕ → MicroOp
transcode_op_imm rd rs1 imm funct3 funct7 =
    let shamt = bit_and imm 0x3F in
    if funct3 == 0
    then Microop.addi rd rs1 imm
    else if funct3 == 2
    then Microop.slti rd rs1 imm
    else if funct3 == 3
    then Microop.sltiu rd rs1 imm
    else if funct3 == 4
    then Microop.xori rd rs1 imm
    else if funct3 == 6
    then Microop.ori rd rs1 imm
    else if funct3 == 7
    then Microop.andi rd rs1 imm
    else if funct3 == 1
    then Microop.slli rd rs1 shamt
    else if funct3 == 5
    then if bit_and funct7 0x20 == 0 then Microop.srli rd rs1 shamt else Microop.srai rd rs1 shamt
    else fence

unfoldable pub transcode_op : ℕ → ℕ → ℕ → ℕ → ℕ → MicroOp
transcode_op rd rs1 rs2 funct3 funct7 =
    if funct3 == 0 && funct7 == 0x00
    then Microop.add rd rs1 rs2
    else if funct3 == 0 && funct7 == 0x20
    then Microop.sub rd rs1 rs2
    else if funct3 == 0 && funct7 == 0x01
    then Microop.mul rd rs1 rs2
    else if funct3 == 1 && funct7 == 0x00
    then Microop.sll rd rs1 rs2
    else if funct3 == 1 && funct7 == 0x01
    then Microop.mulh rd rs1 rs2
    else if funct3 == 2 && funct7 == 0x00
    then Microop.slt rd rs1 rs2
    else if funct3 == 2 && funct7 == 0x01
    then Microop.mulhsu rd rs1 rs2
    else if funct3 == 3 && funct7 == 0x00
    then Microop.sltu rd rs1 rs2
    else if funct3 == 3 && funct7 == 0x01
    then Microop.mulhu rd rs1 rs2
    else if funct3 == 4 && funct7 == 0x00
    then Microop.xor rd rs1 rs2
    else if funct3 == 4 && funct7 == 0x01
    then Microop.div rd rs1 rs2
    else if funct3 == 5 && funct7 == 0x00
    then Microop.srl rd rs1 rs2
    else if funct3 == 5 && funct7 == 0x20
    then Microop.sra rd rs1 rs2
    else if funct3 == 5 && funct7 == 0x01
    then Microop.divu rd rs1 rs2
    else if funct3 == 6 && funct7 == 0x00
    then Microop.or rd rs1 rs2
    else if funct3 == 6 && funct7 == 0x01
    then Microop.rem rd rs1 rs2
    else if funct3 == 7 && funct7 == 0x00
    then Microop.and rd rs1 rs2
    else if funct3 == 7 && funct7 == 0x01
    then Microop.remu rd rs1 rs2
    else fence

unfoldable pub transcode_op_imm32 : ℕ → ℕ → ℕ → ℕ → ℕ → MicroOp
transcode_op_imm32 rd rs1 imm funct3 funct7 =
    let shamt = bit_and imm 0x1F in
    if funct3 == 0
    then Microop.addiw rd rs1 (imm % 2 ^ 32)
    else if funct3 == 1
    then Microop.slliw rd rs1 shamt
    else if funct3 == 5
    then if bit_and funct7 0x20 == 0 then Microop.srliw rd rs1 shamt else Microop.sraiw rd rs1 shamt
    else fence

unfoldable pub transcode_op32 : ℕ → ℕ → ℕ → ℕ → ℕ → MicroOp
transcode_op32 rd rs1 rs2 funct3 funct7 =
    if funct3 == 0 && funct7 == 0x00
    then Microop.addw rd rs1 rs2
    else if funct3 == 0 && funct7 == 0x20
    then Microop.subw rd rs1 rs2
    else if funct3 == 0 && funct7 == 0x01
    then Microop.mulw rd rs1 rs2
    else if funct3 == 1 && funct7 == 0x00
    then Microop.sllw rd rs1 rs2
    else if funct3 == 5 && funct7 == 0x00
    then Microop.srlw rd rs1 rs2
    else if funct3 == 5 && funct7 == 0x20
    then Microop.sraw rd rs1 rs2
    else if funct3 == 4 && funct7 == 0x01
    then Microop.divw rd rs1 rs2
    else if funct3 == 5 && funct7 == 0x01
    then Microop.divuw rd rs1 rs2
    else if funct3 == 6 && funct7 == 0x01
    then Microop.remw rd rs1 rs2
    else if funct3 == 7 && funct7 == 0x01
    then Microop.remuw rd rs1 rs2
    else fence

unfoldable pub transcode_system : ℕ → ℕ → ℕ → ℕ → ℕ → MicroOp
transcode_system rd rs1 funct3 imm pc_offset =
    let csr = bit_and imm 0xFFF in
    if funct3 == 0
    then if imm == 0x000
      then Microop.ecall pc_offset
      else if imm == 0x001
      then Microop.ebreak pc_offset
      else if imm == 0x302
      then Microop.mret pc_offset
      else if imm == 0x102
      then Microop.sret pc_offset
      else if imm == 0x105
      then Microop.wfi pc_offset
      else if bit_and (imm >>> 5) 0x7F == 0x09
      then Microop.sfence_vma pc_offset
      else fence
    else if funct3 == 1
    then Microop.csrrw rd rs1 csr pc_offset
    else if funct3 == 2
    then Microop.csrrs rd rs1 csr pc_offset
    else if funct3 == 3
    then Microop.csrrc rd rs1 csr pc_offset
    else if funct3 == 5
    then Microop.csrrwi rd rs1 csr pc_offset
    else if funct3 == 6
    then Microop.csrrsi rd rs1 csr pc_offset
    else if funct3 == 7
    then Microop.csrrci rd rs1 csr pc_offset
    else fence

unfoldable pub transcode_amo : ℕ → ℕ → ℕ → ℕ → ℕ → ℕ → MicroOp
transcode_amo rd rs1 rs2 funct3 funct5 pc_offset =
    let is_word = funct3 == 2 in
    if funct5 == 0b00010
    then if is_word then Microop.lr_w rd rs1 pc_offset else Microop.lr_d rd rs1 pc_offset
    else if funct5 == 0b00011
    then if is_word then Microop.sc_w rd rs1 rs2 pc_offset else Microop.sc_d rd rs1 rs2 pc_offset
    else if funct5 == 0b00001
    then Microop.amo_swap rd rs1 rs2 is_word pc_offset
    else if funct5 == 0b00000
    then Microop.amo_add rd rs1 rs2 is_word pc_offset
    else if funct5 == 0b00100
    then Microop.amo_xor rd rs1 rs2 is_word pc_offset
    else if funct5 == 0b01100
    then Microop.amo_and rd rs1 rs2 is_word pc_offset
    else if funct5 == 0b01000
    then Microop.amo_or rd rs1 rs2 is_word pc_offset
    else if funct5 == 0b10000
    then Microop.amo_min rd rs1 rs2 is_word pc_offset
    else if funct5 == 0b10100
    then Microop.amo_max rd rs1 rs2 is_word pc_offset
    else if funct5 == 0b11000
    then Microop.amo_minu rd rs1 rs2 is_word pc_offset
    else if funct5 == 0b11100
    then Microop.amo_maxu rd rs1 rs2 is_word pc_offset
    else fence

unfoldable pub transcode : Op → ℕ → ℕ → MicroOp
transcode (Decoder.lui rd imm) pc_offset insn_len = Microop.lui rd imm
transcode (Decoder.auipc rd imm) pc_offset insn_len = Microop.auipc rd imm pc_offset
transcode (Decoder.jal rd imm) pc_offset insn_len = Microop.jal rd imm pc_offset insn_len
transcode (Decoder.jalr rd rs1 imm) pc_offset insn_len = Microop.jalr rd rs1 imm pc_offset insn_len
transcode (Decoder.branch rs1 rs2 imm funct3) pc_offset insn_len =
    transcode_branch rs1 rs2 imm funct3 pc_offset insn_len
transcode (Decoder.load rd rs1 imm funct3) pc_offset insn_len =
    transcode_load rd rs1 imm funct3 pc_offset
transcode (Decoder.store rs1 rs2 imm funct3) pc_offset insn_len =
    transcode_store rs1 rs2 imm funct3 pc_offset
transcode (Decoder.op_imm rd rs1 imm funct3 funct7) pc_offset insn_len =
    transcode_op_imm rd rs1 imm funct3 funct7
transcode (Decoder.op rd rs1 rs2 funct3 funct7) pc_offset insn_len =
    transcode_op rd rs1 rs2 funct3 funct7
transcode (Decoder.op_imm32 rd rs1 imm funct3 funct7) pc_offset insn_len =
    transcode_op_imm32 rd rs1 imm funct3 funct7
transcode (Decoder.op32 rd rs1 rs2 funct3 funct7) pc_offset insn_len =
    transcode_op32 rd rs1 rs2 funct3 funct7
transcode (Decoder.system rd rs1 funct3 imm) pc_offset insn_len =
    transcode_system rd rs1 funct3 imm pc_offset
transcode (Decoder.amo rd rs1 rs2 funct3 funct5 aq rl) pc_offset insn_len =
    transcode_amo rd rs1 rs2 funct3 funct5 pc_offset
transcode Decoder.fence pc_offset insn_len = fence
