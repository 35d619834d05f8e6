-- ===== src/Engine/Microop.antt =====
-- riscv-vm/src/engine/microop.rs: the micro-operations that a block is compiled to. A register is
-- its number, an i64 its 64-bit pattern, an i32 its 32-bit pattern.
use bavy.Prelude.{ℕ, Bool, true, false}

-- `MicroOp`; the comments name the fields in order.
pub data MicroOp : Type 0 where
  addi : ℕ → ℕ → ℕ → MicroOp  -- rd, rs1, imm
  xori : ℕ → ℕ → ℕ → MicroOp  -- rd, rs1, imm
  ori : ℕ → ℕ → ℕ → MicroOp  -- rd, rs1, imm
  andi : ℕ → ℕ → ℕ → MicroOp  -- rd, rs1, imm
  slti : ℕ → ℕ → ℕ → MicroOp  -- rd, rs1, imm
  sltiu : ℕ → ℕ → ℕ → MicroOp  -- rd, rs1, imm
  slli : ℕ → ℕ → ℕ → MicroOp  -- rd, rs1, shamt
  srli : ℕ → ℕ → ℕ → MicroOp  -- rd, rs1, shamt
  srai : ℕ → ℕ → ℕ → MicroOp  -- rd, rs1, shamt
  add : ℕ → ℕ → ℕ → MicroOp  -- rd, rs1, rs2
  sub : ℕ → ℕ → ℕ → MicroOp  -- rd, rs1, rs2
  xor : ℕ → ℕ → ℕ → MicroOp  -- rd, rs1, rs2
  or : ℕ → ℕ → ℕ → MicroOp  -- rd, rs1, rs2
  and : ℕ → ℕ → ℕ → MicroOp  -- rd, rs1, rs2
  sll : ℕ → ℕ → ℕ → MicroOp  -- rd, rs1, rs2
  srl : ℕ → ℕ → ℕ → MicroOp  -- rd, rs1, rs2
  sra : ℕ → ℕ → ℕ → MicroOp  -- rd, rs1, rs2
  slt : ℕ → ℕ → ℕ → MicroOp  -- rd, rs1, rs2
  sltu : ℕ → ℕ → ℕ → MicroOp  -- rd, rs1, rs2
  addiw : ℕ → ℕ → ℕ → MicroOp  -- rd, rs1, imm
  slliw : ℕ → ℕ → ℕ → MicroOp  -- rd, rs1, shamt
  srliw : ℕ → ℕ → ℕ → MicroOp  -- rd, rs1, shamt
  sraiw : ℕ → ℕ → ℕ → MicroOp  -- rd, rs1, shamt
  addw : ℕ → ℕ → ℕ → MicroOp  -- rd, rs1, rs2
  subw : ℕ → ℕ → ℕ → MicroOp  -- rd, rs1, rs2
  sllw : ℕ → ℕ → ℕ → MicroOp  -- rd, rs1, rs2
  srlw : ℕ → ℕ → ℕ → MicroOp  -- rd, rs1, rs2
  sraw : ℕ → ℕ → ℕ → MicroOp  -- rd, rs1, rs2
  mul : ℕ → ℕ → ℕ → MicroOp  -- rd, rs1, rs2
  mulh : ℕ → ℕ → ℕ → MicroOp  -- rd, rs1, rs2
  mulhsu : ℕ → ℕ → ℕ → MicroOp  -- rd, rs1, rs2
  mulhu : ℕ → ℕ → ℕ → MicroOp  -- rd, rs1, rs2
  div : ℕ → ℕ → ℕ → MicroOp  -- rd, rs1, rs2
  divu : ℕ → ℕ → ℕ → MicroOp  -- rd, rs1, rs2
  rem : ℕ → ℕ → ℕ → MicroOp  -- rd, rs1, rs2
  remu : ℕ → ℕ → ℕ → MicroOp  -- rd, rs1, rs2
  mulw : ℕ → ℕ → ℕ → MicroOp  -- rd, rs1, rs2
  divw : ℕ → ℕ → ℕ → MicroOp  -- rd, rs1, rs2
  divuw : ℕ → ℕ → ℕ → MicroOp  -- rd, rs1, rs2
  remw : ℕ → ℕ → ℕ → MicroOp  -- rd, rs1, rs2
  remuw : ℕ → ℕ → ℕ → MicroOp  -- rd, rs1, rs2
  lui : ℕ → ℕ → MicroOp  -- rd, imm
  auipc : ℕ → ℕ → ℕ → MicroOp  -- rd, imm, pc_offset
  lb : ℕ → ℕ → ℕ → ℕ → MicroOp  -- rd, rs1, imm, pc_offset
  lbu : ℕ → ℕ → ℕ → ℕ → MicroOp  -- rd, rs1, imm, pc_offset
  lh : ℕ → ℕ → ℕ → ℕ → MicroOp  -- rd, rs1, imm, pc_offset
  lhu : ℕ → ℕ → ℕ → ℕ → MicroOp  -- rd, rs1, imm, pc_offset
  lw : ℕ → ℕ → ℕ → ℕ → MicroOp  -- rd, rs1, imm, pc_offset
  lwu : ℕ → ℕ → ℕ → ℕ → MicroOp  -- rd, rs1, imm, pc_offset
  ld : ℕ → ℕ → ℕ → ℕ → MicroOp  -- rd, rs1, imm, pc_offset
  sb : ℕ → ℕ → ℕ → ℕ → MicroOp  -- rs1, rs2, imm, pc_offset
  sh : ℕ → ℕ → ℕ → ℕ → MicroOp  -- rs1, rs2, imm, pc_offset
  sw : ℕ → ℕ → ℕ → ℕ → MicroOp  -- rs1, rs2, imm, pc_offset
  sd : ℕ → ℕ → ℕ → ℕ → MicroOp  -- rs1, rs2, imm, pc_offset
  jal : ℕ → ℕ → ℕ → ℕ → MicroOp  -- rd, imm, pc_offset, insn_len
  jalr : ℕ → ℕ → ℕ → ℕ → ℕ → MicroOp  -- rd, rs1, imm, pc_offset, insn_len
  beq : ℕ → ℕ → ℕ → ℕ → ℕ → MicroOp  -- rs1, rs2, imm, pc_offset, insn_len
  bne : ℕ → ℕ → ℕ → ℕ → ℕ → MicroOp  -- rs1, rs2, imm, pc_offset, insn_len
  blt : ℕ → ℕ → ℕ → ℕ → ℕ → MicroOp  -- rs1, rs2, imm, pc_offset, insn_len
  bge : ℕ → ℕ → ℕ → ℕ → ℕ → MicroOp  -- rs1, rs2, imm, pc_offset, insn_len
  bltu : ℕ → ℕ → ℕ → ℕ → ℕ → MicroOp  -- rs1, rs2, imm, pc_offset, insn_len
  bgeu : ℕ → ℕ → ℕ → ℕ → ℕ → MicroOp  -- rs1, rs2, imm, pc_offset, insn_len
  ecall : ℕ → MicroOp  -- pc_offset
  ebreak : ℕ → MicroOp  -- pc_offset
  csrrw : ℕ → ℕ → ℕ → ℕ → MicroOp  -- rd, rs1, csr, pc_offset
  csrrs : ℕ → ℕ → ℕ → ℕ → MicroOp  -- rd, rs1, csr, pc_offset
  csrrc : ℕ → ℕ → ℕ → ℕ → MicroOp  -- rd, rs1, csr, pc_offset
  csrrwi : ℕ → ℕ → ℕ → ℕ → MicroOp  -- rd, zimm, csr, pc_offset
  csrrsi : ℕ → ℕ → ℕ → ℕ → MicroOp  -- rd, zimm, csr, pc_offset
  csrrci : ℕ → ℕ → ℕ → ℕ → MicroOp  -- rd, zimm, csr, pc_offset
  mret : ℕ → MicroOp  -- pc_offset
  sret : ℕ → MicroOp  -- pc_offset
  wfi : ℕ → MicroOp  -- pc_offset
  sfence_vma : ℕ → MicroOp  -- pc_offset
  fence : MicroOp
  lr_w : ℕ → ℕ → ℕ → MicroOp  -- rd, rs1, pc_offset
  lr_d : ℕ → ℕ → ℕ → MicroOp  -- rd, rs1, pc_offset
  sc_w : ℕ → ℕ → ℕ → ℕ → MicroOp  -- rd, rs1, rs2, pc_offset
  sc_d : ℕ → ℕ → ℕ → ℕ → MicroOp  -- rd, rs1, rs2, pc_offset
  amo_swap : ℕ → ℕ → ℕ → Bool → ℕ → MicroOp  -- rd, rs1, rs2, is_word, pc_offset
  amo_add : ℕ → ℕ → ℕ → Bool → ℕ → MicroOp  -- rd, rs1, rs2, is_word, pc_offset
  amo_xor : ℕ → ℕ → ℕ → Bool → ℕ → MicroOp  -- rd, rs1, rs2, is_word, pc_offset
  amo_and : ℕ → ℕ → ℕ → Bool → ℕ → MicroOp  -- rd, rs1, rs2, is_word, pc_offset
  amo_or : ℕ → ℕ → ℕ → Bool → ℕ → MicroOp  -- rd, rs1, rs2, is_word, pc_offset
  amo_min : ℕ → ℕ → ℕ → Bool → ℕ → MicroOp  -- rd, rs1, rs2, is_word, pc_offset
  amo_max : ℕ → ℕ → ℕ → Bool → ℕ → MicroOp  -- rd, rs1, rs2, is_word, pc_offset
  amo_minu : ℕ → ℕ → ℕ → Bool → ℕ → MicroOp  -- rd, rs1, rs2, is_word, pc_offset
  amo_maxu : ℕ → ℕ → ℕ → Bool → ℕ → MicroOp  -- rd, rs1, rs2, is_word, pc_offset

-- Whether the operation ends its block.
unfoldable pub is_terminator : MicroOp → Bool
is_terminator (jal rd imm pc_offset insn_len) = true
is_terminator (jalr rd rs1 imm pc_offset insn_len) = true
is_terminator (beq rs1 rs2 imm pc_offset insn_len) = true
is_terminator (bne rs1 rs2 imm pc_offset insn_len) = true
is_terminator (blt rs1 rs2 imm pc_offset insn_len) = true
is_terminator (bge rs1 rs2 imm pc_offset insn_len) = true
is_terminator (bltu rs1 rs2 imm pc_offset insn_len) = true
is_terminator (bgeu rs1 rs2 imm pc_offset insn_len) = true
is_terminator (ecall pc_offset) = true
is_terminator (ebreak pc_offset) = true
is_terminator (csrrw rd rs1 csr pc_offset) = true
is_terminator (csrrs rd rs1 csr pc_offset) = true
is_terminator (csrrc rd rs1 csr pc_offset) = true
is_terminator (csrrwi rd zimm csr pc_offset) = true
is_terminator (csrrsi rd zimm csr pc_offset) = true
is_terminator (csrrci rd zimm csr pc_offset) = true
is_terminator (mret pc_offset) = true
is_terminator (sret pc_offset) = true
is_terminator (sfence_vma pc_offset) = true
is_terminator (lr_w rd rs1 pc_offset) = true
is_terminator (lr_d rd rs1 pc_offset) = true
is_terminator (sc_w rd rs1 rs2 pc_offset) = true
is_terminator (sc_d rd rs1 rs2 pc_offset) = true
is_terminator (amo_swap rd rs1 rs2 is_word pc_offset) = true
is_terminator (amo_add rd rs1 rs2 is_word pc_offset) = true
is_terminator (amo_xor rd rs1 rs2 is_word pc_offset) = true
is_terminator (amo_and rd rs1 rs2 is_word pc_offset) = true
is_terminator (amo_or rd rs1 rs2 is_word pc_offset) = true
is_terminator (amo_min rd rs1 rs2 is_word pc_offset) = true
is_terminator (amo_max rd rs1 rs2 is_word pc_offset) = true
is_terminator (amo_minu rd rs1 rs2 is_word pc_offset) = true
is_terminator (amo_maxu rd rs1 rs2 is_word pc_offset) = true
is_terminator other = false
