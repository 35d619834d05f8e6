-- ===== src/Cpu/Execute/Step.antt =====
-- riscv-vm/src/cpu/core.rs, execution.rs: fetch, decode and execute, `step_single_inner`. The call
-- into the SBI is a parameter.
use bavy.Prelude.{
  ℕ, ◌+◌, ◌%◌, ◌^◌, bit_and, bit_or, ◌==◌, if◌then◌else◌, Option, none, some, Bool, not, Result, ok,
  err,
}
use bavy.Prelude.Bits.{complement, ◌<<<◌}
use bavy.Cpu.Types
use bavy.Cpu.Types.{Trap}
use bavy.Cpu.State.{Cpu, write_reg, decode_cache_lookup, decode_cache_insert}
use bavy.Bus.{Bus}
use bavy.Mmu.Tlb
use bavy.Engine.Decoder.{Op, decode}
use bavy.Engine.Decoder
use bavy.Engine.Compressed.{expand_compressed}
use bavy.Cpu.Execute.Alu.{op_imm_result, op_result, op_imm32_result, op32_result, taken}
use bavy.Cpu.Execute.Monad.{Exec, pure, bind, raise, modify, reg, or_trap, translate_addr}
use bavy.Cpu.Execute.Memory.{execute_load, execute_store}
use bavy.Cpu.Execute.Atomic.{execute_amo}
use bavy.Cpu.Execute.System.{execute_system}

-- A load's faults, as a fetch reports them.
unfoldable pub fetch_fault : Trap → ℕ → Trap
fetch_fault (Types.load_access_fault addr) pc = Types.instruction_access_fault pc
fetch_fault (Types.load_address_misaligned addr) pc = Types.instruction_address_misaligned pc
fetch_fault other pc = other

module _ (bus : Bus) where
  -- A 16-bit instruction, expanded: the word and its length.
  unfoldable pub expanded : ℕ → ℕ → Exec bus (ℕ × ℕ)
  expanded half pc =
      bind bus (or_trap bus (expand_compressed half) pc) (λ insn32. pure bus (insn32, 2))

  unfoldable pub half_of : Result ℕ Trap → ℕ → Exec bus ℕ
  half_of (ok v) pc c m = (c, m, ok v)
  half_of (err e) pc c m = raise bus (fetch_fault e pc) pc c m

  unfoldable pub fetch_half_at : ℕ → ℕ → Exec bus ℕ
  fetch_half_at pc pa c m = let (m', r) = bus.load m pa 2 in half_of r pc c m'

  unfoldable pub fetch_half : ℕ → ℕ → Exec bus ℕ
  fetch_half vaddr pc =
      bind bus (translate_addr bus vaddr Tlb.instruction pc) (λ pa. fetch_half_at pc pa)

  -- By halves, from `// Fetch first halfword` on.
  unfoldable pub fetch_by_halves : ℕ → Exec bus (ℕ × ℕ)
  fetch_by_halves pc = bind bus (fetch_half pc pc) (λ half.
      if not (bit_and half 0x3 == 0x3)
      then expanded half pc
      else bind bus (fetch_half ((pc + 2) % 2 ^ 64) pc)
          (λ hi. pure bus (bit_or half (hi <<< 16), 4)))

  -- What `read32` gave at an aligned pc; a failure falls through to the halves.
  unfoldable pub fetched_word : Result ℕ Trap → ℕ → Exec bus (ℕ × ℕ)
  fetched_word (err e) pc = fetch_by_halves pc
  fetched_word (ok word) pc =
      if not (bit_and word 0x3 == 0x3)
      then expanded (bit_and word 0xFFFF) pc
      else pure bus (word, 4)

  unfoldable pub fetch_word : ℕ → ℕ → Exec bus (ℕ × ℕ)
  fetch_word pc pa c m = let (m', r) = bus.load m pa 4 in fetched_word r pc c m'

  -- `fetch_and_expand`, at the hart's pc.
  unfoldable pub fetch_at : ℕ → Exec bus (ℕ × ℕ)
  fetch_at pc =
      if not (pc % 2 == 0)
      then raise bus (Types.instruction_address_misaligned pc) pc
      else if pc % 4 == 0
      then bind bus (translate_addr bus pc Tlb.instruction pc) (λ pa. fetch_word pc pa)
      else fetch_by_halves pc

  module _ (handle_sbi_call : Cpu → bus.State → Cpu × bus.State × Bool)
      (pc insn_raw insn_len : ℕ) where
    abbrev pub next : ℕ
    next = (pc + insn_len) % 2 ^ 64

    -- The result of an integer instruction; `none` is an illegal instruction.
    unfoldable pub set_result : ℕ → Option ℕ → Exec bus ℕ
    set_result rd none = raise bus (Types.illegal_instruction insn_raw) pc
    set_result rd (some res) = bind bus (modify bus (λ c. write_reg c rd res)) (λ _. pure bus next)

    -- A jump's target must be even.
    unfoldable pub jump_to : ℕ → Exec bus ℕ
    jump_to target =
        if not (target % 2 == 0)
        then raise bus (Types.instruction_address_misaligned target) pc
        else pure bus target

    unfoldable pub branch_if : Option Bool → ℕ → Exec bus ℕ
    branch_if none target = raise bus (Types.illegal_instruction insn_raw) pc
    branch_if (some go) target = if go then jump_to target else pure bus next

    -- The match on the operation; the value is `next_pc`.
    unfoldable pub execute : Op → Exec bus ℕ
    execute (Decoder.lui rd imm) = set_result rd (some imm)
    execute (Decoder.auipc rd imm) = set_result rd (some ((pc + imm) % 2 ^ 64))
    execute (Decoder.jal rd imm) =
        bind bus (modify bus (λ c. write_reg c rd next)) (λ _. jump_to ((pc + imm) % 2 ^ 64))
    execute (Decoder.jalr rd rs1 imm) = bind bus (reg bus rs1) (λ base.
        bind bus (modify bus (λ c. write_reg c rd next))
          (λ _. jump_to (bit_and ((base + imm) % 2 ^ 64) (complement 64 1))))
    execute (Decoder.branch rs1 rs2 imm funct3) = bind bus (reg bus rs1) (λ val1.
        bind bus (reg bus rs2) (λ val2. branch_if (taken funct3 val1 val2) ((pc + imm) % 2 ^ 64)))
    execute (Decoder.load rd rs1 imm funct3) =
        bind bus (execute_load bus pc insn_raw rd rs1 imm funct3) (λ _. pure bus next)
    execute (Decoder.store rs1 rs2 imm funct3) =
        bind bus (execute_store bus pc insn_raw rs1 rs2 imm funct3) (λ _. pure bus next)
    execute (Decoder.op_imm rd rs1 imm funct3 funct7) =
        bind bus (reg bus rs1) (λ val1. set_result rd (op_imm_result funct3 funct7 val1 imm))
    execute (Decoder.op rd rs1 rs2 funct3 funct7) =
        bind bus (reg bus rs1) (λ val1.
          bind bus (reg bus rs2) (λ val2. set_result rd (op_result funct3 funct7 val1 val2)))
    execute (Decoder.op_imm32 rd rs1 imm funct3 funct7) =
        bind bus (reg bus rs1) (λ val1. set_result rd (op_imm32_result funct3 funct7 val1 imm))
    execute (Decoder.op32 rd rs1 rs2 funct3 funct7) = bind bus (reg bus rs1) (λ val1.
        bind bus (reg bus rs2) (λ val2. set_result rd (op32_result funct3 funct7 val1 val2)))
    execute (Decoder.system rd rs1 funct3 imm) =
        execute_system bus pc insn_raw next handle_sbi_call rd rs1 funct3 imm
    execute (Decoder.amo rd rs1 rs2 funct3 funct5 aq rl) =
        bind bus (execute_amo bus pc insn_raw rd rs1 rs2 funct3 funct5) (λ _. pure bus next)
    execute Decoder.fence = pure bus next

  -- A cache miss: decode and insert.
  unfoldable pub decode_miss : Result Op Trap → ℕ → ℕ → Exec bus Op
  decode_miss (ok decoded) pc insn_raw c m =
      (decode_cache_insert c pc insn_raw decoded, m, ok decoded)
  decode_miss (err trap) pc insn_raw c m = raise bus trap pc c m

  unfoldable pub decode_hit : Option Op → ℕ → ℕ → Exec bus Op
  decode_hit (some cached_op) pc insn_raw c m = (c, m, ok cached_op)
  decode_hit none pc insn_raw c m = decode_miss (decode insn_raw) pc insn_raw c m

  -- The decode cache, then the decoder.
  unfoldable pub decode_cached : ℕ → ℕ → Exec bus Op
  decode_cached pc insn_raw c m = decode_hit (decode_cache_lookup c pc insn_raw) pc insn_raw c m

  -- From the fetched word on, with the pc of its fetch.
  unfoldable pub step_at : (Cpu → bus.State → Cpu × bus.State × Bool) → ℕ → Exec bus (Unit {0})
  step_at handle_sbi_call pc = bind bus (fetch_at pc) (λ (fetched : ℕ × ℕ).
      bind bus (decode_cached pc fetched.0) (λ decoded.
        bind bus (execute handle_sbi_call pc fetched.0 fetched.1 decoded)
          (λ next_pc. modify bus (λ d. record d { pc = next_pc }))))

  unfoldable pub step_single_inner :
      (Cpu → bus.State → Cpu × bus.State × Bool) → Exec bus (Unit {0})
  step_single_inner handle_sbi_call c m = step_at handle_sbi_call c.pc c m
