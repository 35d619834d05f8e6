-- ===== src/Cpu/Blocks/Integer.antt =====
-- riscv-vm/src/cpu/core.rs, execution.rs: the integer operations of a block do what the
-- interpreter's do.
use native.Mathlib.Decide.{ℕ_discrete}
use bavy.Prelude.{
  ℕ, ◌+◌, ◌%◌, ◌^◌, ◌≡◌, ◌==◌, arith, Bool, true, zero, suc, refl, Option, bit_and, Bool-cases, inl,
  inr, sym,
}
use bavy.Cpu.State.{Cpu, write_reg}
use bavy.Bus.{Bus}
use bavy.Engine.Decoder
use bavy.Engine.Decoder.{Op}
use bavy.Engine.Microop.{MicroOp}
use bavy.Engine.Block.Transcode.{transcode_op, transcode_op_imm, transcode_op_imm32, transcode_op32}
use bavy.Cpu.Execute.Alu.{op_result, op_imm_result, op_imm32_result, op32_result}
use bavy.Cpu.Execute.Monad.{bind}
use bavy.Cpu.Execute.Step.{set_result}
use bavy.Cpu.Blocks.Micro.{reg_at, execute_micro_op, unary, binary}
use bavy.Cpu.Blocks.Agree.{IsZeroed, write_reg-IsZeroed, StepAgrees, is_implemented}
use bavy.Cpu.Blocks.Same.{
  micro_mulw-mulw, micro_divw-divw, micro_divuw-divuw, micro_remw-remw, micro_remuw-remuw,
  addiw_immediate,
}

module _ (bus : Bus) (handle_sbi_call : Cpu → bus.State → Cpu × bus.State × Bool)
    (base_pc pc insn_raw insn_len : ℕ) (c : Cpu) (m : bus.State) (zeroed : IsZeroed c) where
  kept : (rd v : ℕ) → IsZeroed (write_reg c rd v)
  kept rd v = write_reg-IsZeroed c rd v zeroed

  -- The operation writes the result that the interpreter computes.
  abbrev pub Writes : Op → MicroOp → ℕ → Option ℕ → Type 0
  Writes decoded micro rd result =
      is_implemented decoded ≡ true
      → StepAgrees bus decoded micro pc ((pc + insn_len) % 2 ^ 64) c m
          (execute_micro_op bus base_pc micro c m)
          (set_result bus handle_sbi_call pc insn_raw insn_len rd result c m)

  op_base :
      (rd rs1 rs2 funct3 : ℕ)
      → Writes
          (Decoder.op rd rs1 rs2 funct3 0x00)
          (transcode_op rd rs1 rs2 funct3 0x00)
          rd
          (op_result funct3 0x00 (reg_at c rs1) (reg_at c rs2))
  unfolding is_implemented execute_micro_op set_result bind transcode_op op_result binary
  op_base rd rs1 rs2 zero h = (refl, kept rd _)
  op_base rd rs1 rs2 (suc zero) h = (refl, kept rd _)
  op_base rd rs1 rs2 (suc (suc zero)) h = (refl, kept rd _)
  op_base rd rs1 rs2 (suc (suc (suc zero))) h = (refl, kept rd _)
  op_base rd rs1 rs2 (suc (suc (suc (suc zero)))) h = (refl, kept rd _)
  op_base rd rs1 rs2 (suc (suc (suc (suc (suc zero))))) h = (refl, kept rd _)
  op_base rd rs1 rs2 (suc (suc (suc (suc (suc (suc zero)))))) h = (refl, kept rd _)
  op_base rd rs1 rs2 (suc (suc (suc (suc (suc (suc (suc zero))))))) h = (refl, kept rd _)
  op_base rd rs1 rs2 (suc (suc (suc (suc (suc (suc (suc (suc n)))))))) h = absurd (ground arith)

  op_alternate :
      (rd rs1 rs2 funct3 : ℕ)
      → Writes
          (Decoder.op rd rs1 rs2 funct3 0x20)
          (transcode_op rd rs1 rs2 funct3 0x20)
          rd
          (op_result funct3 0x20 (reg_at c rs1) (reg_at c rs2))
  unfolding is_implemented execute_micro_op set_result bind transcode_op op_result binary
  op_alternate rd rs1 rs2 zero h = (refl, kept rd _)
  op_alternate rd rs1 rs2 (suc zero) h = cc
  op_alternate rd rs1 rs2 (suc (suc zero)) h = cc
  op_alternate rd rs1 rs2 (suc (suc (suc zero))) h = cc
  op_alternate rd rs1 rs2 (suc (suc (suc (suc zero)))) h = cc
  op_alternate rd rs1 rs2 (suc (suc (suc (suc (suc zero))))) h = (refl, kept rd _)
  op_alternate rd rs1 rs2 (suc (suc (suc (suc (suc (suc zero)))))) h = cc
  op_alternate rd rs1 rs2 (suc (suc (suc (suc (suc (suc (suc zero))))))) h = cc
  op_alternate rd rs1 rs2 (suc (suc (suc (suc (suc (suc (suc (suc n)))))))) h =
      absurd (ground arith)

  op_muldiv :
      (rd rs1 rs2 funct3 : ℕ)
      → Writes
          (Decoder.op rd rs1 rs2 funct3 0x01)
          (transcode_op rd rs1 rs2 funct3 0x01)
          rd
          (op_result funct3 0x01 (reg_at c rs1) (reg_at c rs2))
  unfolding is_implemented execute_micro_op set_result bind transcode_op op_result binary
  op_muldiv rd rs1 rs2 zero h = (refl, kept rd _)
  op_muldiv rd rs1 rs2 (suc zero) h = (refl, kept rd _)
  op_muldiv rd rs1 rs2 (suc (suc zero)) h = (refl, kept rd _)
  op_muldiv rd rs1 rs2 (suc (suc (suc zero))) h = (refl, kept rd _)
  op_muldiv rd rs1 rs2 (suc (suc (suc (suc zero)))) h = (refl, kept rd _)
  op_muldiv rd rs1 rs2 (suc (suc (suc (suc (suc zero))))) h = (refl, kept rd _)
  op_muldiv rd rs1 rs2 (suc (suc (suc (suc (suc (suc zero)))))) h = (refl, kept rd _)
  op_muldiv rd rs1 rs2 (suc (suc (suc (suc (suc (suc (suc zero))))))) h = (refl, kept rd _)
  op_muldiv rd rs1 rs2 (suc (suc (suc (suc (suc (suc (suc (suc n)))))))) h = absurd (ground arith)

  pub op_agrees :
      (rd rs1 rs2 funct3 funct7 : ℕ)
      → Writes
          (Decoder.op rd rs1 rs2 funct3 funct7)
          (transcode_op rd rs1 rs2 funct3 funct7)
          rd
          (op_result funct3 funct7 (reg_at c rs1) (reg_at c rs2))
  unfolding is_implemented
  op_agrees rd rs1 rs2 funct3 funct7 = elim (ℕ_discrete funct7 0x00) [
    | yes e ↦ rw e (op_base rd rs1 rs2 funct3)
    | no n1 ↦ elim (ℕ_discrete funct7 0x20) [
      | yes e ↦ rw e (op_alternate rd rs1 rs2 funct3)
      | no n2 ↦ elim (ℕ_discrete funct7 0x01) [
        | yes e ↦ rw e (op_muldiv rd rs1 rs2 funct3)
        | no n3 ↦ λ h. absurd (ground arith)
      ]
    ]
  ]

  op32_base :
      (rd rs1 rs2 funct3 : ℕ)
      → Writes
          (Decoder.op32 rd rs1 rs2 funct3 0x00)
          (transcode_op32 rd rs1 rs2 funct3 0x00)
          rd
          (op32_result funct3 0x00 (reg_at c rs1) (reg_at c rs2))
  unfolding is_implemented execute_micro_op set_result bind transcode_op32 op32_result binary
  op32_base rd rs1 rs2 zero h = (refl, kept rd _)
  op32_base rd rs1 rs2 (suc zero) h = (refl, kept rd _)
  op32_base rd rs1 rs2 (suc (suc zero)) h = cc
  op32_base rd rs1 rs2 (suc (suc (suc zero))) h = cc
  op32_base rd rs1 rs2 (suc (suc (suc (suc zero)))) h = cc
  op32_base rd rs1 rs2 (suc (suc (suc (suc (suc zero))))) h = (refl, kept rd _)
  op32_base rd rs1 rs2 (suc (suc (suc (suc (suc (suc zero)))))) h = cc
  op32_base rd rs1 rs2 (suc (suc (suc (suc (suc (suc (suc zero))))))) h = cc
  op32_base rd rs1 rs2 (suc (suc (suc (suc (suc (suc (suc (suc n)))))))) h = absurd (ground arith)

  op32_alternate :
      (rd rs1 rs2 funct3 : ℕ)
      → Writes
          (Decoder.op32 rd rs1 rs2 funct3 0x20)
          (transcode_op32 rd rs1 rs2 funct3 0x20)
          rd
          (op32_result funct3 0x20 (reg_at c rs1) (reg_at c rs2))
  unfolding is_implemented execute_micro_op set_result bind transcode_op32 op32_result binary
  op32_alternate rd rs1 rs2 zero h = (refl, kept rd _)
  op32_alternate rd rs1 rs2 (suc zero) h = cc
  op32_alternate rd rs1 rs2 (suc (suc zero)) h = cc
  op32_alternate rd rs1 rs2 (suc (suc (suc zero))) h = cc
  op32_alternate rd rs1 rs2 (suc (suc (suc (suc zero)))) h = cc
  op32_alternate rd rs1 rs2 (suc (suc (suc (suc (suc zero))))) h = (refl, kept rd _)
  op32_alternate rd rs1 rs2 (suc (suc (suc (suc (suc (suc zero)))))) h = cc
  op32_alternate rd rs1 rs2 (suc (suc (suc (suc (suc (suc (suc zero))))))) h = cc
  op32_alternate rd rs1 rs2 (suc (suc (suc (suc (suc (suc (suc (suc n)))))))) h =
      absurd (ground arith)

  op32_muldiv :
      (rd rs1 rs2 funct3 : ℕ)
      → Writes
          (Decoder.op32 rd rs1 rs2 funct3 0x01)
          (transcode_op32 rd rs1 rs2 funct3 0x01)
          rd
          (op32_result funct3 0x01 (reg_at c rs1) (reg_at c rs2))
  unfolding is_implemented execute_micro_op set_result bind transcode_op32 op32_result binary
  op32_muldiv rd rs1 rs2 zero h =
      rw (sym (micro_mulw-mulw (reg_at c rs1) (reg_at c rs2))) (refl, kept rd _)
  op32_muldiv rd rs1 rs2 (suc zero) h = cc
  op32_muldiv rd rs1 rs2 (suc (suc zero)) h = cc
  op32_muldiv rd rs1 rs2 (suc (suc (suc zero))) h = cc
  op32_muldiv rd rs1 rs2 (suc (suc (suc (suc zero)))) h =
      rw (sym (micro_divw-divw (reg_at c rs1) (reg_at c rs2))) (refl, kept rd _)
  op32_muldiv rd rs1 rs2 (suc (suc (suc (suc (suc zero))))) h =
      rw (sym (micro_divuw-divuw (reg_at c rs1) (reg_at c rs2))) (refl, kept rd _)
  op32_muldiv rd rs1 rs2 (suc (suc (suc (suc (suc (suc zero)))))) h =
      rw (sym (micro_remw-remw (reg_at c rs1) (reg_at c rs2))) (refl, kept rd _)
  op32_muldiv rd rs1 rs2 (suc (suc (suc (suc (suc (suc (suc zero))))))) h =
      rw (sym (micro_remuw-remuw (reg_at c rs1) (reg_at c rs2))) (refl, kept rd _)
  op32_muldiv rd rs1 rs2 (suc (suc (suc (suc (suc (suc (suc (suc n)))))))) h = absurd (ground arith)

  pub op32_agrees :
      (rd rs1 rs2 funct3 funct7 : ℕ)
      → Writes
          (Decoder.op32 rd rs1 rs2 funct3 funct7)
          (transcode_op32 rd rs1 rs2 funct3 funct7)
          rd
          (op32_result funct3 funct7 (reg_at c rs1) (reg_at c rs2))
  unfolding is_implemented
  op32_agrees rd rs1 rs2 funct3 funct7 = elim (ℕ_discrete funct7 0x00) [
    | yes e ↦ rw e (op32_base rd rs1 rs2 funct3)
    | no n1 ↦ elim (ℕ_discrete funct7 0x20) [
      | yes e ↦ rw e (op32_alternate rd rs1 rs2 funct3)
      | no n2 ↦ elim (ℕ_discrete funct7 0x01) [
        | yes e ↦ rw e (op32_muldiv rd rs1 rs2 funct3)
        | no n3 ↦ λ h. absurd (ground arith)
      ]
    ]
  ]

  pub op_imm_agrees :
      (rd rs1 imm funct7 funct3 : ℕ)
      → Writes
          (Decoder.op_imm rd rs1 imm funct3 funct7)
          (transcode_op_imm rd rs1 imm funct3 funct7)
          rd
          (op_imm_result funct3 funct7 (reg_at c rs1) imm)
  unfolding is_implemented execute_micro_op set_result bind transcode_op_imm op_imm_result unary
  op_imm_agrees rd rs1 imm funct7 zero h = (refl, kept rd _)
  op_imm_agrees rd rs1 imm funct7 (suc zero) h = (refl, kept rd _)
  op_imm_agrees rd rs1 imm funct7 (suc (suc zero)) h = (refl, kept rd _)
  op_imm_agrees rd rs1 imm funct7 (suc (suc (suc zero))) h = (refl, kept rd _)
  op_imm_agrees rd rs1 imm funct7 (suc (suc (suc (suc zero)))) h = (refl, kept rd _)
  op_imm_agrees rd rs1 imm funct7 (suc (suc (suc (suc (suc zero))))) h =
      elim (Bool-cases (bit_and funct7 0x20 == 0)) [
        | inl e ↦ rw e (refl, kept rd _)
        | inr e ↦ rw e (refl, kept rd _)
      ]
  op_imm_agrees rd rs1 imm funct7 (suc (suc (suc (suc (suc (suc zero)))))) h = (refl, kept rd _)
  op_imm_agrees rd rs1 imm funct7 (suc (suc (suc (suc (suc (suc (suc zero))))))) h =
      (refl, kept rd _)
  op_imm_agrees rd rs1 imm funct7 (suc (suc (suc (suc (suc (suc (suc (suc n)))))))) h =
      absurd (ground arith)

  pub op_imm32_agrees :
      (rd rs1 imm funct7 funct3 : ℕ)
      → Writes
          (Decoder.op_imm32 rd rs1 imm funct3 funct7)
          (transcode_op_imm32 rd rs1 imm funct3 funct7)
          rd
          (op_imm32_result funct3 funct7 (reg_at c rs1) imm)
  unfolding is_implemented execute_micro_op set_result bind transcode_op_imm32 op_imm32_result unary
  op_imm32_agrees rd rs1 imm funct7 zero h =
      rw (sym (addiw_immediate (reg_at c rs1) imm)) (refl, kept rd _)
  op_imm32_agrees rd rs1 imm funct7 (suc zero) h = (refl, kept rd _)
  op_imm32_agrees rd rs1 imm funct7 (suc (suc zero)) h = cc
  op_imm32_agrees rd rs1 imm funct7 (suc (suc (suc zero))) h = cc
  op_imm32_agrees rd rs1 imm funct7 (suc (suc (suc (suc zero)))) h = cc
  op_imm32_agrees rd rs1 imm funct7 (suc (suc (suc (suc (suc zero))))) h =
      elim (Bool-cases (bit_and funct7 0x20 == 0)) [
        | inl e ↦ rw e (refl, kept rd _)
        | inr e ↦ rw e (refl, kept rd _)
      ]
  op_imm32_agrees rd rs1 imm funct7 (suc (suc (suc (suc (suc (suc zero)))))) h = cc
  op_imm32_agrees rd rs1 imm funct7 (suc (suc (suc (suc (suc (suc (suc zero))))))) h = cc
  op_imm32_agrees rd rs1 imm funct7 (suc (suc (suc (suc (suc (suc (suc (suc n)))))))) h =
      absurd (ground arith)
