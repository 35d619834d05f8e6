-- ===== src/Cpu/Blocks/Illegal.antt =====
-- riscv-vm/src/engine/block.rs, cpu/execution.rs: words with an unknown function code.
use bavy.Prelude.{ℕ, ◌≡◌, refl, arith, Bool, true, false, err, none}
use bavy.Cpu.Types.{illegal_instruction}
use bavy.Cpu.State.{Cpu}
use bavy.Cpu.Trap.{handle_trap}
use bavy.Bus.{Bus}
use bavy.Engine.Decoder
use bavy.Engine.Decoder.{Op}
use bavy.Engine.Microop.{fence}
use bavy.Engine.Block.Transcode.{
  transcode, transcode_branch, transcode_load, transcode_store, transcode_op_imm, transcode_op,
  transcode_op_imm32, transcode_op32, transcode_system, transcode_amo,
}
use bavy.Cpu.Execute.Alu.{taken, op_result, op_imm32_result, op32_result}
use bavy.Cpu.Execute.Memory.{load_size, execute_load, load_sized}
use bavy.Cpu.Execute.Monad.{bind}
use bavy.Cpu.Execute.Step.{execute, set_result, branch_if}
use bavy.Cpu.Blocks.Micro.{execute_micro_op}
use bavy.Cpu.Blocks.Agree.{is_implemented}

-- The instructions whose function code is the first thing that the interpreter tests.
abbrev pub tests_code_first : Op → Bool
tests_code_first (Decoder.branch rs1 rs2 imm funct3) = true
tests_code_first (Decoder.load rd rs1 imm funct3) = true
tests_code_first (Decoder.op rd rs1 rs2 funct3 funct7) = true
tests_code_first (Decoder.op_imm32 rd rs1 imm funct3 funct7) = true
tests_code_first (Decoder.op32 rd rs1 rs2 funct3 funct7) = true
tests_code_first other = false

-- An instruction with an unknown function code becomes `fence`.
pub transcode-unimplemented :
    (decoded : Op) (pc_offset insn_len : ℕ)
    → is_implemented decoded ≡ false
    → transcode decoded pc_offset insn_len ≡ fence
unfolding transcode is_implemented transcode_branch transcode_load transcode_store transcode_op_imm
    transcode_op transcode_op_imm32 transcode_op32 transcode_system transcode_amo
transcode-unimplemented (Decoder.lui rd imm) pc_offset insn_len h = cc
transcode-unimplemented (Decoder.branch rs1 rs2 imm funct3) pc_offset insn_len h = ground arith
transcode-unimplemented (Decoder.load rd rs1 imm funct3) pc_offset insn_len h = ground arith
transcode-unimplemented (Decoder.store rs1 rs2 imm funct3) pc_offset insn_len h = ground arith
transcode-unimplemented (Decoder.op_imm rd rs1 imm funct3 funct7) pc_offset insn_len h =
    ground arith
transcode-unimplemented (Decoder.op rd rs1 rs2 funct3 funct7) pc_offset insn_len h = ground arith
transcode-unimplemented (Decoder.op_imm32 rd rs1 imm funct3 funct7) pc_offset insn_len h =
    ground arith
transcode-unimplemented (Decoder.op32 rd rs1 rs2 funct3 funct7) pc_offset insn_len h = ground arith
transcode-unimplemented (Decoder.system rd rs1 funct3 imm) pc_offset insn_len h = ground arith
transcode-unimplemented (Decoder.amo rd rs1 rs2 funct3 funct5 aq rl) pc_offset insn_len h =
    ground arith
transcode-unimplemented other pc_offset insn_len h = cc

taken-unimplemented :
    (rs1 rs2 imm funct3 v w : ℕ)
    → is_implemented (Decoder.branch rs1 rs2 imm funct3) ≡ false
    → taken funct3 v w ≡ none
unfolding is_implemented taken
taken-unimplemented rs1 rs2 imm funct3 v w h = ground arith

load_size-unimplemented :
    (rd rs1 imm funct3 : ℕ)
    → is_implemented (Decoder.load rd rs1 imm funct3) ≡ false
    → load_size funct3 ≡ none
unfolding is_implemented load_size
load_size-unimplemented rd rs1 imm funct3 h = ground arith

op_result-unimplemented :
    (rd rs1 rs2 funct3 funct7 v w : ℕ)
    → is_implemented (Decoder.op rd rs1 rs2 funct3 funct7) ≡ false
    → op_result funct3 funct7 v w ≡ none
unfolding is_implemented op_result
op_result-unimplemented rd rs1 rs2 funct3 funct7 v w h = ground arith

op_imm32_result-unimplemented :
    (rd rs1 imm funct3 funct7 v : ℕ)
    → is_implemented (Decoder.op_imm32 rd rs1 imm funct3 funct7) ≡ false
    → op_imm32_result funct3 funct7 v imm ≡ none
unfolding is_implemented op_imm32_result
op_imm32_result-unimplemented rd rs1 imm funct3 funct7 v h = ground arith

op32_result-unimplemented :
    (rd rs1 rs2 funct3 funct7 v w : ℕ)
    → is_implemented (Decoder.op32 rd rs1 rs2 funct3 funct7) ≡ false
    → op32_result funct3 funct7 v w ≡ none
unfolding is_implemented op32_result
op32_result-unimplemented rd rs1 rs2 funct3 funct7 v w h = ground arith

module _ (bus : Bus) (handle_sbi_call : Cpu → bus.State → Cpu × bus.State × Bool)
    (base_pc pc_offset pc insn_raw insn_len : ℕ) where
  -- A branch, load or register instruction with an unknown function code, or a 32-bit instruction with
  -- an immediate and an unknown function code, is an illegal instruction for the interpreter, which
  -- enters the trap and touches nothing else; a block runs it as an operation that does nothing.
  pub execute-unimplemented :
      (decoded : Op) (c : Cpu) (m : bus.State)
      → is_implemented decoded ≡ false
      → tests_code_first decoded ≡ true
      → (execute bus handle_sbi_call pc insn_raw insn_len decoded c m ≡ (
        handle_trap c (illegal_instruction insn_raw) pc,
        m,
        err (illegal_instruction insn_raw),
      ))
        × (execute_micro_op bus base_pc (transcode decoded pc_offset insn_len) c m ≡ (c, m, none))
  unfolding execute execute_micro_op set_result branch_if bind execute_load load_sized
  execute-unimplemented (Decoder.lui rd imm) c m h first = cc
  execute-unimplemented (Decoder.branch rs1 rs2 imm funct3) c m h first = (
    rw (taken-unimplemented rs1 rs2 imm funct3 _ _ h) refl,
    rw (transcode-unimplemented _ pc_offset insn_len h) refl,
  )
  execute-unimplemented (Decoder.load rd rs1 imm funct3) c m h first = (
    rw (load_size-unimplemented rd rs1 imm funct3 h) refl,
    rw (transcode-unimplemented _ pc_offset insn_len h) refl,
  )
  execute-unimplemented (Decoder.op rd rs1 rs2 funct3 funct7) c m h first = (
    rw (op_result-unimplemented rd rs1 rs2 funct3 funct7 _ _ h) refl,
    rw (transcode-unimplemented _ pc_offset insn_len h) refl,
  )
  execute-unimplemented (Decoder.op_imm32 rd rs1 imm funct3 funct7) c m h first = (
    rw (op_imm32_result-unimplemented rd rs1 imm funct3 funct7 _ h) refl,
    rw (transcode-unimplemented _ pc_offset insn_len h) refl,
  )
  execute-unimplemented (Decoder.op32 rd rs1 rs2 funct3 funct7) c m h first = (
    rw (op32_result-unimplemented rd rs1 rs2 funct3 funct7 _ _ h) refl,
    rw (transcode-unimplemented _ pc_offset insn_len h) refl,
  )
  execute-unimplemented other c m h first = cc
