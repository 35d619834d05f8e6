-- ===== src/Cpu/Blocks/Control.antt =====
-- riscv-vm/src/cpu/core.rs, execution.rs: the jumps and branches of a block go where the
-- interpreter's go, and the instructions of a block that the interpreter runs leave it.
use bavy.Prelude.{
  ℕ, zero, suc, ◌+◌, ◌%◌, ◌<◌, ◌^◌, ◌≡◌, refl, arith, bit_and, Bool, true, false, ok, some,
  if◌then◌else◌,
}
use bavy.Prelude.Bits.{complement, clear_low}
use bavy.Cpu.State.{Cpu}
use bavy.Bus.{Bus}
use bavy.Engine.Decoder
use bavy.Engine.Microop.{is_terminator}
use bavy.Engine.Block.Transcode.{transcode_branch, transcode_system, transcode_amo}
use bavy.Cpu.Execute.Alu.{taken}
use bavy.Cpu.Execute.Step.{jump_to, branch_if}
use bavy.Cpu.Blocks.Micro.{exit, reg_at, execute_micro_op, branch_micro}
use bavy.Cpu.Blocks.Agree.{StepAgrees, is_implemented}

module _ (bus : Bus) (handle_sbi_call : Cpu → bus.State → Cpu × bus.State × Bool)
    (base_pc pc_offset insn_raw insn_len : ℕ) (m : bus.State) where
  abbrev pub pc : ℕ
  pc = (base_pc + pc_offset) % 2 ^ 64

  abbrev pub next : ℕ
  next = (pc + insn_len) % 2 ^ 64

  pub jump_to-even :
      (c : Cpu) (target : ℕ)
      → target % 2 ≡ 0
      → jump_to bus handle_sbi_call pc insn_raw insn_len target c m ≡ (c, m, ok target)
  unfolding jump_to
  jump_to-even c target even = rw even refl

  branch_if-even :
      (c : Cpu) (go : Bool) (target : ℕ)
      → target % 2 ≡ 0
      → branch_if bus handle_sbi_call pc insn_raw insn_len (some go) target c m
        ≡ (c, m, ok (if go then target else next))
  unfolding branch_if
  branch_if-even c true target even = jump_to-even c target even
  branch_if-even c false target even = refl

  abbrev Branches : Cpu → ℕ → ℕ → ℕ → ℕ → Type 0
  Branches c rs1 rs2 imm funct3 =
      let micro = transcode_branch rs1 rs2 imm funct3 pc_offset insn_len in
      is_implemented (Decoder.branch rs1 rs2 imm funct3) ≡ true
      → (pc + imm) % 2 ^ 64 % 2 ≡ 0
      → StepAgrees bus (Decoder.branch rs1 rs2 imm funct3) micro pc next c m
          (execute_micro_op bus base_pc micro c m)
          (branch_if bus handle_sbi_call pc insn_raw insn_len
            (taken funct3 (reg_at c rs1) (reg_at c rs2)) ((pc + imm) % 2 ^ 64) c m)

  pub branch_agrees : (c : Cpu) (rs1 rs2 imm funct3 : ℕ) → Branches c rs1 rs2 imm funct3
  unfolding is_implemented transcode_branch execute_micro_op branch_micro taken is_terminator
  branch_agrees c rs1 rs2 imm zero h even = (branch_if-even c _ _ even, refl)
  branch_agrees c rs1 rs2 imm (suc zero) h even = (branch_if-even c _ _ even, refl)
  branch_agrees c rs1 rs2 imm (suc (suc zero)) h even = cc
  branch_agrees c rs1 rs2 imm (suc (suc (suc zero))) h even = cc
  branch_agrees c rs1 rs2 imm (suc (suc (suc (suc zero)))) h even =
      (branch_if-even c _ _ even, refl)
  branch_agrees c rs1 rs2 imm (suc (suc (suc (suc (suc zero))))) h even =
      (branch_if-even c _ _ even, refl)
  branch_agrees c rs1 rs2 imm (suc (suc (suc (suc (suc (suc zero)))))) h even =
      (branch_if-even c _ _ even, refl)
  branch_agrees c rs1 rs2 imm (suc (suc (suc (suc (suc (suc (suc zero))))))) h even =
      (branch_if-even c _ _ even, refl)
  branch_agrees c rs1 rs2 imm (suc (suc (suc (suc (suc (suc (suc (suc n)))))))) h even =
      absurd (ground arith)

  pub clear_bit_even : (x : ℕ) → x < 2 ^ 64 → bit_and x (complement 64 1) % 2 ≡ 0
  clear_bit_even x h = omega (arith, clear_low 64 1 x (omega arith) h)

  pub transcode_system_exits :
      (c : Cpu) (rd rs1 funct3 imm : ℕ)
      → is_implemented (Decoder.system rd rs1 funct3 imm) ≡ true
      → execute_micro_op bus base_pc (transcode_system rd rs1 funct3 imm pc_offset) c m
        ≡ (c, m, some (exit pc))
  unfolding is_implemented transcode_system execute_micro_op
  transcode_system_exits c rd rs1 funct3 imm h = ground arith

  pub transcode_amo_exits :
      (c : Cpu) (rd rs1 rs2 funct3 funct5 : ℕ) (aq rl : Bool)
      → is_implemented (Decoder.amo rd rs1 rs2 funct3 funct5 aq rl) ≡ true
      → execute_micro_op bus base_pc (transcode_amo rd rs1 rs2 funct3 funct5 pc_offset) c m
        ≡ (c, m, some (exit pc))
  unfolding is_implemented transcode_amo execute_micro_op
  transcode_amo_exits c rd rs1 rs2 funct3 funct5 aq rl h = ground arith
