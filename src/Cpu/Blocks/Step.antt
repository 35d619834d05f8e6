-- ===== src/Cpu/Blocks/Step.antt =====
-- riscv-vm/src/cpu/core.rs, execution.rs: each operation of a block does what the interpreter does
-- for the instruction that it was transcoded from.
use bavy.Prelude.{ℕ, zero, suc, ◌+◌, ◌%◌, ◌^◌, ◌≡◌, refl, arith, Bool, true}
use bavy.Cpu.State.{Cpu}
use bavy.Bus.{Bus}
use bavy.Mmu.Tlb
use bavy.Engine.Decoder
use bavy.Engine.Decoder.{Op}
use bavy.Engine.Microop.{is_terminator}
use bavy.Engine.Block.Transcode.{transcode, transcode_load, transcode_store}
use bavy.Cpu.Execute.Memory.{
  load_sized, load_size, store_size, load_value, execute_load, execute_store,
}
use bavy.Cpu.Execute.Monad.{bind, pure, translate_addr}
use bavy.Cpu.Execute.Step.{execute, set_result}
use bavy.Cpu.Blocks.Micro.{reg_at, execute_micro_op, jump_micro}
use bavy.Cpu.Blocks.Agree.{
  IsZeroed, StepAgrees, is_implemented, needs_interpreter, read_reg-reg_at, write_reg-IsZeroed,
}
use bavy.Cpu.Blocks.Integer.{op_agrees, op_imm_agrees, op32_agrees, op_imm32_agrees}
use bavy.Cpu.Blocks.Control.{
  jump_to-even, branch_agrees, clear_bit_even, transcode_system_exits, transcode_amo_exits,
}
use bavy.Cpu.Blocks.Memory.{load_sized_agrees, store_sized_agrees, store_tail}

-- Jumps and branches go by an even offset.
abbrev pub HasEvenOffset : Op → Type 0
HasEvenOffset (Decoder.jal rd imm) = imm % 2 ≡ 0
HasEvenOffset (Decoder.branch rs1 rs2 imm funct3) = imm % 2 ≡ 0
HasEvenOffset other = Unit

module _ (bus : Bus) (handle_sbi_call : Cpu → bus.State → Cpu × bus.State × Bool)
    (base_pc pc_offset insn_raw insn_len : ℕ) (c : Cpu) (m : bus.State) (zeroed : IsZeroed c) where
  abbrev pc : ℕ
  pc = (base_pc + pc_offset) % 2 ^ 64

  abbrev next : ℕ
  next = (pc + insn_len) % 2 ^ 64

  load_agrees :
      (rd rs1 imm funct3 : ℕ)
      → is_implemented (Decoder.load rd rs1 imm funct3) ≡ true
      → StepAgrees bus
          (Decoder.load rd rs1 imm funct3)
          (transcode_load rd rs1 imm funct3 pc_offset)
          pc
          next
          c
          m
          (execute_micro_op bus base_pc (transcode_load rd rs1 imm funct3 pc_offset) c m)
          (bind bus
            (load_sized bus pc insn_raw
              (load_size funct3)
              rd
              ((reg_at c rs1 + imm) % 2 ^ 64)
              funct3)
            (λ _. pure bus next)
            c
            m)
  unfolding is_implemented transcode_load execute_micro_op load_size load_value
  load_agrees rd rs1 imm zero h =
      load_sized_agrees bus pc insn_raw next (Decoder.load rd rs1 imm 0)
        (transcode_load rd rs1 imm 0 pc_offset) c m zeroed 1 (load_value 0) rd rs1 imm 0 (λ v. refl)
  load_agrees rd rs1 imm (suc zero) h =
      load_sized_agrees bus pc insn_raw next (Decoder.load rd rs1 imm 1)
        (transcode_load rd rs1 imm 1 pc_offset) c m zeroed 2 (load_value 1) rd rs1 imm 1 (λ v. refl)
  load_agrees rd rs1 imm (suc (suc zero)) h =
      load_sized_agrees bus pc insn_raw next (Decoder.load rd rs1 imm 2)
        (transcode_load rd rs1 imm 2 pc_offset) c m zeroed 4 (load_value 2) rd rs1 imm 2 (λ v. refl)
  load_agrees rd rs1 imm (suc (suc (suc zero))) h =
      load_sized_agrees bus pc insn_raw next (Decoder.load rd rs1 imm 3)
        (transcode_load rd rs1 imm 3 pc_offset) c m zeroed 8 (λ v. v) rd rs1 imm 3 (λ v. refl)
  load_agrees rd rs1 imm (suc (suc (suc (suc zero)))) h =
      load_sized_agrees bus pc insn_raw next (Decoder.load rd rs1 imm 4)
        (transcode_load rd rs1 imm 4 pc_offset) c m zeroed 1 (λ v. v) rd rs1 imm 4 (λ v. refl)
  load_agrees rd rs1 imm (suc (suc (suc (suc (suc zero))))) h =
      load_sized_agrees bus pc insn_raw next (Decoder.load rd rs1 imm 5)
        (transcode_load rd rs1 imm 5 pc_offset) c m zeroed 2 (λ v. v) rd rs1 imm 5 (λ v. refl)
  load_agrees rd rs1 imm (suc (suc (suc (suc (suc (suc zero)))))) h =
      load_sized_agrees bus pc insn_raw next (Decoder.load rd rs1 imm 6)
        (transcode_load rd rs1 imm 6 pc_offset) c m zeroed 4 (λ v. v) rd rs1 imm 6 (λ v. refl)
  load_agrees rd rs1 imm (suc (suc (suc (suc (suc (suc (suc n))))))) h = absurd (ground arith)

  store_agrees :
      (rs1 rs2 imm funct3 : ℕ)
      → is_implemented (Decoder.store rs1 rs2 imm funct3) ≡ true
      → StepAgrees bus
          (Decoder.store rs1 rs2 imm funct3)
          (transcode_store rs1 rs2 imm funct3 pc_offset)
          pc
          next
          c
          m
          (execute_micro_op bus base_pc (transcode_store rs1 rs2 imm funct3 pc_offset) c m)
          (bind bus
            (bind bus
              (translate_addr bus ((reg_at c rs1 + imm) % 2 ^ 64) Tlb.store pc)
              (store_tail bus pc insn_raw (store_size funct3) rs2 ((reg_at c rs1 + imm) % 2 ^ 64)))
            (λ _. pure bus next)
            c
            m)
  unfolding is_implemented transcode_store execute_micro_op store_size
  store_agrees rs1 rs2 imm zero h =
      store_sized_agrees bus pc insn_raw next (Decoder.store rs1 rs2 imm 0)
        (transcode_store rs1 rs2 imm 0 pc_offset) c m zeroed 1 rs1 rs2 imm
  store_agrees rs1 rs2 imm (suc zero) h =
      store_sized_agrees bus pc insn_raw next (Decoder.store rs1 rs2 imm 1)
        (transcode_store rs1 rs2 imm 1 pc_offset) c m zeroed 2 rs1 rs2 imm
  store_agrees rs1 rs2 imm (suc (suc zero)) h =
      store_sized_agrees bus pc insn_raw next (Decoder.store rs1 rs2 imm 2)
        (transcode_store rs1 rs2 imm 2 pc_offset) c m zeroed 4 rs1 rs2 imm
  store_agrees rs1 rs2 imm (suc (suc (suc zero))) h =
      store_sized_agrees bus pc insn_raw next (Decoder.store rs1 rs2 imm 3)
        (transcode_store rs1 rs2 imm 3 pc_offset) c m zeroed 8 rs1 rs2 imm
  store_agrees rs1 rs2 imm (suc (suc (suc (suc n)))) h = absurd (ground arith)

  pub execute_micro_op-transcode :
      (decoded : Op)
      → is_implemented decoded ≡ true
      → HasEvenOffset decoded
      → pc % 2 ≡ 0
      → StepAgrees bus decoded
          (transcode decoded pc_offset insn_len)
          pc
          next
          c
          m
          (execute_micro_op bus base_pc (transcode decoded pc_offset insn_len) c m)
          (execute bus handle_sbi_call pc insn_raw insn_len decoded c m)
  unfolding execute transcode execute_micro_op execute_load execute_store set_result bind
      is_terminator jump_micro needs_interpreter
  execute_micro_op-transcode (Decoder.lui rd imm) h off even =
      (refl, write_reg-IsZeroed c rd imm zeroed)
  execute_micro_op-transcode (Decoder.auipc rd imm) h off even =
      (refl, write_reg-IsZeroed c rd _ zeroed)
  execute_micro_op-transcode (Decoder.jal rd imm) h off even = (
    jump_to-even bus handle_sbi_call base_pc pc_offset insn_raw insn_len m _ _ (omega (arith, off)),
    refl,
  )
  execute_micro_op-transcode (Decoder.jalr rd rs1 imm) h off even =
      rw (read_reg-reg_at c rs1 zeroed) (
        jump_to-even bus handle_sbi_call base_pc pc_offset insn_raw insn_len m _ _ (
            clear_bit_even bus handle_sbi_call base_pc pc_offset insn_raw insn_len m
              ((reg_at c rs1 + imm) % 2 ^ 64) (omega arith)),
        refl,
      )
  execute_micro_op-transcode (Decoder.branch rs1 rs2 imm funct3) h off even =
      rw (read_reg-reg_at c rs1 zeroed, read_reg-reg_at c rs2 zeroed)
        (branch_agrees bus handle_sbi_call base_pc pc_offset insn_raw insn_len m c rs1 rs2 imm
          funct3 h (omega (arith, off)))
  execute_micro_op-transcode (Decoder.load rd rs1 imm funct3) h off even =
      rw (read_reg-reg_at c rs1 zeroed) (load_agrees rd rs1 imm funct3 h)
  execute_micro_op-transcode (Decoder.store rs1 rs2 imm funct3) h off even =
      rw (read_reg-reg_at c rs1 zeroed) (store_agrees rs1 rs2 imm funct3 h)
  execute_micro_op-transcode (Decoder.op_imm rd rs1 imm funct3 funct7) h off even =
      rw (read_reg-reg_at c rs1 zeroed) (
        op_imm_agrees bus handle_sbi_call base_pc pc insn_raw insn_len c m zeroed rd rs1 imm funct7
          funct3 h)
  execute_micro_op-transcode (Decoder.op rd rs1 rs2 funct3 funct7) h off even =
      rw (read_reg-reg_at c rs1 zeroed, read_reg-reg_at c rs2 zeroed)
        (op_agrees bus handle_sbi_call base_pc pc insn_raw insn_len c m zeroed rd rs1 rs2 funct3
          funct7 h)
  execute_micro_op-transcode (Decoder.op_imm32 rd rs1 imm funct3 funct7) h off even =
      rw (read_reg-reg_at c rs1 zeroed) (
        op_imm32_agrees bus handle_sbi_call base_pc pc insn_raw insn_len c m zeroed rd rs1 imm
          funct7 funct3 h)
  execute_micro_op-transcode (Decoder.op32 rd rs1 rs2 funct3 funct7) h off even =
      rw (read_reg-reg_at c rs1 zeroed, read_reg-reg_at c rs2 zeroed)
        (op32_agrees bus handle_sbi_call base_pc pc insn_raw insn_len c m zeroed rd rs1 rs2 funct3
          funct7 h)
  execute_micro_op-transcode (Decoder.system rd rs1 funct3 imm) h off even =
      rw
        (transcode_system_exits bus handle_sbi_call base_pc pc_offset insn_raw insn_len m c rd rs1
          funct3 imm h)
        (refl, refl, refl, refl)
  execute_micro_op-transcode (Decoder.amo rd rs1 rs2 funct3 funct5 aq rl) h off even =
      rw
        (transcode_amo_exits bus handle_sbi_call base_pc pc_offset insn_raw insn_len m c rd rs1 rs2
          funct3 funct5 aq rl h)
        (refl, refl, refl, refl)
  execute_micro_op-transcode Decoder.fence h off even = (refl, zeroed)
