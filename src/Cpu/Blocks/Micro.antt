-- ===== src/Cpu/Blocks/Micro.antt =====
-- riscv-vm/src/cpu/core.rs: `execute_block_inner`, operation by operation. `if rd != 0 { self.regs[rd]
-- = val; }` is `write_reg`.
use bavy.Prelude.{
  ℕ, ◌+◌, ◌-◌, ◌*◌, ◌%◌, ◌^◌, bit_and, bit_or, bit_xor, ◌==◌, ltb, if◌then◌else◌, Bool, not, Option,
  none, some, Result, ok, err, get_or,
}
use bavy.Prelude.Bits.{complement, ◌>>>◌, ◌<<<◌}
use bavy.Cpu.Types.{Trap}
use bavy.Cpu.Csr.{csr, csr_mstatus}
use bavy.Cpu.State.{Cpu, csr_satp, write_reg, clear_reservation_if_conflict}
use bavy.Bus.{Bus}
use bavy.Mmu.Tlb
use bavy.Mmu.Tlb.{AccessType}
use bavy.Mmu.Translate.{translate}
use bavy.Engine.Decoder.{extend32, asr32}
use bavy.Engine.Microop
use bavy.Engine.Microop.{MicroOp}
use bavy.Cpu.Execute.Alu.{
  flag, signed_ltb, asr64, low32, mul, mulh, mulhsu, mulhu, div, divu, rem, remu,
}
use bavy.Cpu.Execute.Memory.{load_value}
use bavy.Cpu.Execute.Monad.{Exec, bind, modify}
use bavy.Cpu.Blocks.Words.{micro_mulw, micro_divw, micro_divuw, micro_remw, micro_remuw}

pub data BlockExecResult : Type 0 where
  continue : ℕ → BlockExecResult  -- next_pc
  trap : Trap → ℕ → BlockExecResult  -- trap, fault_pc
  exit : ℕ → BlockExecResult  -- next_pc

-- `self.regs[r as usize]`.
abbrev pub reg_at : Cpu → ℕ → ℕ
reg_at c r = get_or c.regs r 0

module _ (bus : Bus) where
  -- An arm of the match; `none` goes on to the next operation.
  abbrev pub BlockStep : Type 0
  BlockStep = Cpu → bus.State → Cpu × bus.State × Option BlockExecResult

  unfoldable pub translate_addr_for_block : ℕ → AccessType → Exec bus ℕ
  translate_addr_for_block vaddr access c m =
      let (m', tlb, r) =
        translate bus c.mode (csr c.csrs csr_satp) (csr c.csrs csr_mstatus) vaddr access m c.tlb in
      (record c { tlb = tlb }, m', r)

  -- `bus.read8` to `bus.read64` and `bus.write8` to `bus.write64`, by their size in bytes.
  unfoldable pub read_for_block : ℕ → ℕ → Exec bus ℕ
  read_for_block pa size c m = let (m', r) = bus.load m pa size in (c, m', r)

  unfoldable pub write_for_block : ℕ → ℕ → ℕ → Exec bus (Unit {0})
  write_for_block pa size val c m = let (m', r) = bus.store m pa size val in (c, m', r)

  -- `Err(trap) => return BlockExecResult::Trap { trap, fault_pc: pc }`.
  unfoldable pub reported :
      ℕ → Cpu × bus.State × Result (Unit {0}) Trap → Cpu × bus.State × Option BlockExecResult
  reported pc (c, m, ok a) = (c, m, none)
  reported pc (c, m, err t) = (c, m, some (trap t pc))

  -- An operation on one register, or two.
  unfoldable pub unary : ℕ → ℕ → (ℕ → ℕ) → BlockStep
  unary rd rs1 f c m = (write_reg c rd (f (reg_at c rs1)), m, none)

  unfoldable pub binary : ℕ → ℕ → ℕ → (ℕ → ℕ → ℕ) → BlockStep
  binary rd rs1 rs2 f c m = (write_reg c rd (f (reg_at c rs1) (reg_at c rs2)), m, none)

  -- The loads: the size, and what the register gets for what was read.
  unfoldable pub load_micro : ℕ → (ℕ → ℕ) → ℕ → ℕ → ℕ → ℕ → BlockStep
  load_micro size value rd rs1 imm pc c m =
      let addr = (reg_at c rs1 + imm) % 2 ^ 64 in
      reported pc (
        bind bus (translate_addr_for_block addr Tlb.load)
          (λ pa.
            bind bus (read_for_block pa size) (λ v. modify bus (λ d. write_reg d rd (value v))))
          c m)

  -- The stores.
  unfoldable pub store_micro : ℕ → ℕ → ℕ → ℕ → ℕ → BlockStep
  store_micro size rs1 rs2 imm pc c m =
      let addr = (reg_at c rs1 + imm) % 2 ^ 64 in
      let val = reg_at c rs2 % 2 ^ (8 * size) in
      reported pc (
        bind bus (translate_addr_for_block addr Tlb.store)
          (λ pa.
            bind bus (write_for_block pa size val)
              (λ _. modify bus (λ d. clear_reservation_if_conflict d addr)))
          c m)

  -- The branches: the test, and both targets.
  unfoldable pub branch_micro : (ℕ → ℕ → Bool) → ℕ → ℕ → ℕ → ℕ → ℕ → BlockStep
  branch_micro test rs1 rs2 imm pc insn_len c m =
      let next =
        if test (reg_at c rs1) (reg_at c rs2)
        then (pc + imm) % 2 ^ 64
        else (pc + insn_len) % 2 ^ 64 in
      (c, m, some (continue next))

  -- The operations that the interpreter runs.
  abbrev pub exits : ℕ → BlockStep
  exits pc c m = (c, m, some (exit pc))

  unfoldable pub jump_micro : ℕ → ℕ → ℕ → BlockStep
  jump_micro rd link target c m = (write_reg c rd link, m, some (continue target))

  -- The arm of each operation, in a block at `base_pc`.
  unfoldable pub execute_micro_op : ℕ → MicroOp → BlockStep
  execute_micro_op base_pc (Microop.addi rd rs1 imm) c m =
      unary rd rs1 (λ v. (v + imm) % 2 ^ 64) c m
  execute_micro_op base_pc (Microop.xori rd rs1 imm) c m = unary rd rs1 (λ v. bit_xor v imm) c m
  execute_micro_op base_pc (Microop.ori rd rs1 imm) c m = unary rd rs1 (λ v. bit_or v imm) c m
  execute_micro_op base_pc (Microop.andi rd rs1 imm) c m = unary rd rs1 (λ v. bit_and v imm) c m
  execute_micro_op base_pc (Microop.slti rd rs1 imm) c m =
      unary rd rs1 (λ v. flag (signed_ltb v imm)) c m
  execute_micro_op base_pc (Microop.sltiu rd rs1 imm) c m = unary rd rs1 (λ v. flag (ltb v imm)) c m
  execute_micro_op base_pc (Microop.slli rd rs1 shamt) c m =
      unary rd rs1 (λ v. (v <<< shamt) % 2 ^ 64) c m
  execute_micro_op base_pc (Microop.srli rd rs1 shamt) c m = unary rd rs1 (λ v. v >>> shamt) c m
  execute_micro_op base_pc (Microop.srai rd rs1 shamt) c m = unary rd rs1 (λ v. asr64 v shamt) c m
  execute_micro_op base_pc (Microop.add rd rs1 rs2) c m =
      binary rd rs1 rs2 (λ v w. (v + w) % 2 ^ 64) c m
  execute_micro_op base_pc (Microop.sub rd rs1 rs2) c m =
      binary rd rs1 rs2 (λ v w. (v + 2 ^ 64 - w) % 2 ^ 64) c m
  execute_micro_op base_pc (Microop.xor rd rs1 rs2) c m = binary rd rs1 rs2 bit_xor c m
  execute_micro_op base_pc (Microop.or rd rs1 rs2) c m = binary rd rs1 rs2 bit_or c m
  execute_micro_op base_pc (Microop.and rd rs1 rs2) c m = binary rd rs1 rs2 bit_and c m
  execute_micro_op base_pc (Microop.sll rd rs1 rs2) c m =
      binary rd rs1 rs2 (λ v w. (v <<< bit_and w 0x3F) % 2 ^ 64) c m
  execute_micro_op base_pc (Microop.srl rd rs1 rs2) c m =
      binary rd rs1 rs2 (λ v w. v >>> bit_and w 0x3F) c m
  execute_micro_op base_pc (Microop.sra rd rs1 rs2) c m =
      binary rd rs1 rs2 (λ v w. asr64 v (bit_and w 0x3F)) c m
  execute_micro_op base_pc (Microop.slt rd rs1 rs2) c m =
      binary rd rs1 rs2 (λ v w. flag (signed_ltb v w)) c m
  execute_micro_op base_pc (Microop.sltu rd rs1 rs2) c m =
      binary rd rs1 rs2 (λ v w. flag (ltb v w)) c m
  execute_micro_op base_pc (Microop.addiw rd rs1 imm) c m =
      unary rd rs1 (λ v. extend32 (low32 ((v + extend32 imm) % 2 ^ 64))) c m
  execute_micro_op base_pc (Microop.slliw rd rs1 shamt) c m =
      unary rd rs1 (λ v. extend32 (low32 (low32 v <<< shamt))) c m
  execute_micro_op base_pc (Microop.srliw rd rs1 shamt) c m =
      unary rd rs1 (λ v. extend32 (low32 v >>> shamt)) c m
  execute_micro_op base_pc (Microop.sraiw rd rs1 shamt) c m =
      unary rd rs1 (λ v. extend32 (asr32 (low32 v) shamt)) c m
  execute_micro_op base_pc (Microop.addw rd rs1 rs2) c m =
      binary rd rs1 rs2 (λ v w. extend32 (low32 ((v + w) % 2 ^ 64))) c m
  execute_micro_op base_pc (Microop.subw rd rs1 rs2) c m =
      binary rd rs1 rs2 (λ v w. extend32 (low32 ((v + 2 ^ 64 - w) % 2 ^ 64))) c m
  execute_micro_op base_pc (Microop.sllw rd rs1 rs2) c m =
      binary rd rs1 rs2 (λ v w. extend32 (low32 (low32 v <<< bit_and w 0x1F))) c m
  execute_micro_op base_pc (Microop.srlw rd rs1 rs2) c m =
      binary rd rs1 rs2 (λ v w. extend32 (low32 v >>> bit_and w 0x1F)) c m
  execute_micro_op base_pc (Microop.sraw rd rs1 rs2) c m =
      binary rd rs1 rs2 (λ v w. extend32 (asr32 (low32 v) (bit_and w 0x1F))) c m
  execute_micro_op base_pc (Microop.mul rd rs1 rs2) c m = binary rd rs1 rs2 mul c m
  execute_micro_op base_pc (Microop.mulh rd rs1 rs2) c m = binary rd rs1 rs2 mulh c m
  execute_micro_op base_pc (Microop.mulhsu rd rs1 rs2) c m = binary rd rs1 rs2 mulhsu c m
  execute_micro_op base_pc (Microop.mulhu rd rs1 rs2) c m = binary rd rs1 rs2 mulhu c m
  execute_micro_op base_pc (Microop.div rd rs1 rs2) c m = binary rd rs1 rs2 div c m
  execute_micro_op base_pc (Microop.divu rd rs1 rs2) c m = binary rd rs1 rs2 divu c m
  execute_micro_op base_pc (Microop.rem rd rs1 rs2) c m = binary rd rs1 rs2 rem c m
  execute_micro_op base_pc (Microop.remu rd rs1 rs2) c m = binary rd rs1 rs2 remu c m
  execute_micro_op base_pc (Microop.mulw rd rs1 rs2) c m = binary rd rs1 rs2 micro_mulw c m
  execute_micro_op base_pc (Microop.divw rd rs1 rs2) c m = binary rd rs1 rs2 micro_divw c m
  execute_micro_op base_pc (Microop.divuw rd rs1 rs2) c m = binary rd rs1 rs2 micro_divuw c m
  execute_micro_op base_pc (Microop.remw rd rs1 rs2) c m = binary rd rs1 rs2 micro_remw c m
  execute_micro_op base_pc (Microop.remuw rd rs1 rs2) c m = binary rd rs1 rs2 micro_remuw c m
  execute_micro_op base_pc (Microop.lui rd imm) c m = (write_reg c rd imm, m, none)
  execute_micro_op base_pc (Microop.auipc rd imm pc_offset) c m =
      let pc = (base_pc + pc_offset) % 2 ^ 64 in (write_reg c rd ((pc + imm) % 2 ^ 64), m, none)
  execute_micro_op base_pc (Microop.lb rd rs1 imm pc_offset) c m =
      load_micro 1 (load_value 0) rd rs1 imm ((base_pc + pc_offset) % 2 ^ 64) c m
  execute_micro_op base_pc (Microop.lbu rd rs1 imm pc_offset) c m =
      load_micro 1 (λ v. v) rd rs1 imm ((base_pc + pc_offset) % 2 ^ 64) c m
  execute_micro_op base_pc (Microop.lh rd rs1 imm pc_offset) c m =
      load_micro 2 (load_value 1) rd rs1 imm ((base_pc + pc_offset) % 2 ^ 64) c m
  execute_micro_op base_pc (Microop.lhu rd rs1 imm pc_offset) c m =
      load_micro 2 (λ v. v) rd rs1 imm ((base_pc + pc_offset) % 2 ^ 64) c m
  execute_micro_op base_pc (Microop.lw rd rs1 imm pc_offset) c m =
      load_micro 4 (load_value 2) rd rs1 imm ((base_pc + pc_offset) % 2 ^ 64) c m
  execute_micro_op base_pc (Microop.lwu rd rs1 imm pc_offset) c m =
      load_micro 4 (λ v. v) rd rs1 imm ((base_pc + pc_offset) % 2 ^ 64) c m
  execute_micro_op base_pc (Microop.ld rd rs1 imm pc_offset) c m =
      load_micro 8 (λ v. v) rd rs1 imm ((base_pc + pc_offset) % 2 ^ 64) c m
  execute_micro_op base_pc (Microop.sb rs1 rs2 imm pc_offset) c m =
      store_micro 1 rs1 rs2 imm ((base_pc + pc_offset) % 2 ^ 64) c m
  execute_micro_op base_pc (Microop.sh rs1 rs2 imm pc_offset) c m =
      store_micro 2 rs1 rs2 imm ((base_pc + pc_offset) % 2 ^ 64) c m
  execute_micro_op base_pc (Microop.sw rs1 rs2 imm pc_offset) c m =
      store_micro 4 rs1 rs2 imm ((base_pc + pc_offset) % 2 ^ 64) c m
  execute_micro_op base_pc (Microop.sd rs1 rs2 imm pc_offset) c m =
      store_micro 8 rs1 rs2 imm ((base_pc + pc_offset) % 2 ^ 64) c m
  execute_micro_op base_pc (Microop.jal rd imm pc_offset insn_len) c m =
      let pc = (base_pc + pc_offset) % 2 ^ 64 in
      jump_micro rd ((pc + insn_len) % 2 ^ 64) ((pc + imm) % 2 ^ 64) c m
  execute_micro_op base_pc (Microop.jalr rd rs1 imm pc_offset insn_len) c m =
      let pc = (base_pc + pc_offset) % 2 ^ 64 in
      let target = bit_and ((reg_at c rs1 + imm) % 2 ^ 64) (complement 64 1) in
      jump_micro rd ((pc + insn_len) % 2 ^ 64) target c m
  execute_micro_op base_pc (Microop.beq rs1 rs2 imm pc_offset insn_len) c m =
      branch_micro (λ v w. v == w) rs1 rs2 imm ((base_pc + pc_offset) % 2 ^ 64) insn_len c m
  execute_micro_op base_pc (Microop.bne rs1 rs2 imm pc_offset insn_len) c m =
      branch_micro (λ v w. not (v == w)) rs1 rs2 imm ((base_pc + pc_offset) % 2 ^ 64) insn_len c m
  execute_micro_op base_pc (Microop.blt rs1 rs2 imm pc_offset insn_len) c m =
      branch_micro (λ v w. signed_ltb v w) rs1 rs2 imm ((base_pc + pc_offset) % 2 ^ 64) insn_len c m
  execute_micro_op base_pc (Microop.bge rs1 rs2 imm pc_offset insn_len) c m =
      branch_micro (λ v w. not (signed_ltb v w)) rs1 rs2 imm ((base_pc + pc_offset) % 2 ^ 64)
        insn_len c m
  execute_micro_op base_pc (Microop.bltu rs1 rs2 imm pc_offset insn_len) c m =
      branch_micro (λ v w. ltb v w) rs1 rs2 imm ((base_pc + pc_offset) % 2 ^ 64) insn_len c m
  execute_micro_op base_pc (Microop.bgeu rs1 rs2 imm pc_offset insn_len) c m =
      branch_micro (λ v w. not (ltb v w)) rs1 rs2 imm ((base_pc + pc_offset) % 2 ^ 64) insn_len c m
  execute_micro_op base_pc (Microop.ecall pc_offset) c m =
      exits ((base_pc + pc_offset) % 2 ^ 64) c m
  execute_micro_op base_pc (Microop.ebreak pc_offset) c m =
      exits ((base_pc + pc_offset) % 2 ^ 64) c m
  execute_micro_op base_pc (Microop.csrrw rd rs1 csr pc_offset) c m =
      exits ((base_pc + pc_offset) % 2 ^ 64) c m
  execute_micro_op base_pc (Microop.csrrs rd rs1 csr pc_offset) c m =
      exits ((base_pc + pc_offset) % 2 ^ 64) c m
  execute_micro_op base_pc (Microop.csrrc rd rs1 csr pc_offset) c m =
      exits ((base_pc + pc_offset) % 2 ^ 64) c m
  execute_micro_op base_pc (Microop.csrrwi rd zimm csr pc_offset) c m =
      exits ((base_pc + pc_offset) % 2 ^ 64) c m
  execute_micro_op base_pc (Microop.csrrsi rd zimm csr pc_offset) c m =
      exits ((base_pc + pc_offset) % 2 ^ 64) c m
  execute_micro_op base_pc (Microop.csrrci rd zimm csr pc_offset) c m =
      exits ((base_pc + pc_offset) % 2 ^ 64) c m
  execute_micro_op base_pc (Microop.mret pc_offset) c m = exits ((base_pc + pc_offset) % 2 ^ 64) c m
  execute_micro_op base_pc (Microop.sret pc_offset) c m = exits ((base_pc + pc_offset) % 2 ^ 64) c m
  execute_micro_op base_pc (Microop.wfi pc_offset) c m = exits ((base_pc + pc_offset) % 2 ^ 64) c m
  execute_micro_op base_pc (Microop.sfence_vma pc_offset) c m =
      exits ((base_pc + pc_offset) % 2 ^ 64) c m
  execute_micro_op base_pc Microop.fence c m = (c, m, none)
  execute_micro_op base_pc (Microop.lr_w rd rs1 pc_offset) c m =
      exits ((base_pc + pc_offset) % 2 ^ 64) c m
  execute_micro_op base_pc (Microop.lr_d rd rs1 pc_offset) c m =
      exits ((base_pc + pc_offset) % 2 ^ 64) c m
  execute_micro_op base_pc (Microop.sc_w rd rs1 rs2 pc_offset) c m =
      exits ((base_pc + pc_offset) % 2 ^ 64) c m
  execute_micro_op base_pc (Microop.sc_d rd rs1 rs2 pc_offset) c m =
      exits ((base_pc + pc_offset) % 2 ^ 64) c m
  execute_micro_op base_pc (Microop.amo_swap rd rs1 rs2 is_word pc_offset) c m =
      exits ((base_pc + pc_offset) % 2 ^ 64) c m
  execute_micro_op base_pc (Microop.amo_add rd rs1 rs2 is_word pc_offset) c m =
      exits ((base_pc + pc_offset) % 2 ^ 64) c m
  execute_micro_op base_pc (Microop.amo_xor rd rs1 rs2 is_word pc_offset) c m =
      exits ((base_pc + pc_offset) % 2 ^ 64) c m
  execute_micro_op base_pc (Microop.amo_and rd rs1 rs2 is_word pc_offset) c m =
      exits ((base_pc + pc_offset) % 2 ^ 64) c m
  execute_micro_op base_pc (Microop.amo_or rd rs1 rs2 is_word pc_offset) c m =
      exits ((base_pc + pc_offset) % 2 ^ 64) c m
  execute_micro_op base_pc (Microop.amo_min rd rs1 rs2 is_word pc_offset) c m =
      exits ((base_pc + pc_offset) % 2 ^ 64) c m
  execute_micro_op base_pc (Microop.amo_max rd rs1 rs2 is_word pc_offset) c m =
      exits ((base_pc + pc_offset) % 2 ^ 64) c m
  execute_micro_op base_pc (Microop.amo_minu rd rs1 rs2 is_word pc_offset) c m =
      exits ((base_pc + pc_offset) % 2 ^ 64) c m
  execute_micro_op base_pc (Microop.amo_maxu rd rs1 rs2 is_word pc_offset) c m =
      exits ((base_pc + pc_offset) % 2 ^ 64) c m
