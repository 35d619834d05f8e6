-- ===== src/Cpu/Execute/Steps.antt =====
-- riscv-vm/src/cpu/core.rs, execution.rs: fetch, decode and execute keep a hart well formed.
use bavy.Prelude.{
  ℕ, ◌≡◌, refl, ◌+◌, ◌%◌, ◌^◌, Bool, Option, none, some, Result, ok, err, bit_and, bit_or,
}
use bavy.Prelude.Bits.{◌<<<◌}
use bavy.Bus.{Bus}
use bavy.Mmu.Tlb
use bavy.Mmu.Tlb.{AccessType}
use bavy.Cpu.Types
use bavy.Cpu.Types.{Trap, Mode, illegal_instruction}
use bavy.Cpu.State.{Cpu, decode_cache_lookup}
use bavy.Engine.Decoder.{Op, decode, extend32}
use bavy.Engine.Decoder
use bavy.Engine.Compressed.{expand_compressed}
use bavy.Cpu.Execute.Hart.{IsHart, handle_trap-IsHart, decode_cache_insert-IsHart}
use bavy.Cpu.Execute.Safe.{execute_system-Keeps}
use bavy.Cpu.Execute.Keeps.{
  Keeps, bind-Keeps, raise-Keeps, or_trap-Keeps, translate_addr-Keeps, reg-Keeps, pure-Keeps,
  execute_load-Keeps, execute_store-Keeps, execute_amo-Keeps, set_reg, if-Keeps,
}
use bavy.Cpu.Execute.Monad.{Exec, modify}
use bavy.Cpu.Execute.Step.{
  expanded, half_of, fetch_half_at, fetched_word, fetch_word, fetch_at, fetch_half, fetch_by_halves,
  set_result, jump_to, branch_if, execute, decode_miss, decode_hit, decode_cached, step_at,
  step_single_inner, fetch_fault,
}

module _ (bus : Bus) where
  expanded-Keeps : (half pc : ℕ) → Keeps bus (expanded bus half pc)
  unfolding expanded
  expanded-Keeps half pc =
      bind-Keeps bus _ _ (or_trap-Keeps bus (expand_compressed half) pc)
        (λ insn32. pure-Keeps bus (insn32, 2))

  halved :
      (r : Result ℕ Trap) (pc : ℕ) (c : Cpu) (m : bus.State)
      → IsHart c
      → IsHart ((half_of bus r pc c m).0)
  unfolding half_of
  halved (ok v) pc c m h = h
  halved (err e) pc c m h = handle_trap-IsHart c (fetch_fault e pc) pc h

  fetch_half_at-Keeps : (pc pa : ℕ) → Keeps bus (fetch_half_at bus pc pa)
  unfolding fetch_half_at Keeps
  fetch_half_at-Keeps pc pa c m h = halved ((bus.load m pa 2).1) pc c ((bus.load m pa 2).0) h

  fetch_half-Keeps : (vaddr pc : ℕ) → Keeps bus (fetch_half bus vaddr pc)
  unfolding fetch_half
  fetch_half-Keeps vaddr pc =
      bind-Keeps bus _ _ (translate_addr-Keeps bus vaddr pc Tlb.instruction)
        (λ pa. fetch_half_at-Keeps pc pa)

  fetch_by_halves-Keeps : (pc : ℕ) → Keeps bus (fetch_by_halves bus pc)
  unfolding fetch_by_halves
  fetch_by_halves-Keeps pc = bind-Keeps bus _ _ (fetch_half-Keeps pc pc) (λ half.
      if-Keeps bus _ _ _ (expanded-Keeps half pc) (
        bind-Keeps bus _ _ (fetch_half-Keeps ((pc + 2) % 2 ^ 64) pc)
          (λ hi. pure-Keeps bus (bit_or half (hi <<< 16), 4))))

  fetched-Keeps : (r : Result ℕ Trap) (pc : ℕ) → Keeps bus (fetched_word bus r pc)
  unfolding fetched_word
  fetched-Keeps (err e) pc = fetch_by_halves-Keeps pc
  fetched-Keeps (ok word) pc =
      if-Keeps bus _ _ _ (expanded-Keeps (bit_and word 0xFFFF) pc) (pure-Keeps bus (word, 4))

  fetch_word-Keeps : (pc pa : ℕ) → Keeps bus (fetch_word bus pc pa)
  unfolding fetch_word Keeps
  fetch_word-Keeps pc pa c m h = fetched-Keeps ((bus.load m pa 4).1) pc c ((bus.load m pa 4).0) h

  fetch_at-Keeps : (pc : ℕ) → Keeps bus (fetch_at bus pc)
  unfolding fetch_at
  fetch_at-Keeps pc =
      if-Keeps bus _ _ _ (raise-Keeps bus _ (Types.instruction_address_misaligned pc) pc) (
        if-Keeps bus _ _ _
          (bind-Keeps bus _ _ (translate_addr-Keeps bus pc pc Tlb.instruction)
            (λ pa. fetch_word-Keeps pc pa))
          (fetch_by_halves-Keeps pc))

  decode_miss-Keeps :
      (r : Result Op Trap) (pc raw : ℕ) → decode raw ≡ r → Keeps bus (decode_miss bus r pc raw)
  unfolding decode_miss Keeps
  decode_miss-Keeps (ok decoded) pc raw known c m h =
      decode_cache_insert-IsHart c pc raw decoded known h
  decode_miss-Keeps (err t) pc raw known c m h = handle_trap-IsHart c t pc h

  decode_hit-Keeps : (o : Option Op) (pc raw : ℕ) → Keeps bus (decode_hit bus o pc raw)
  unfolding decode_hit Keeps
  decode_hit-Keeps (some decoded) pc raw c m h = h
  decode_hit-Keeps none pc raw c m h = decode_miss-Keeps (decode raw) pc raw refl c m h

  decode_cached-Keeps : (pc raw : ℕ) → Keeps bus (decode_cached bus pc raw)
  unfolding decode_cached Keeps
  decode_cached-Keeps pc raw c m h = decode_hit-Keeps (decode_cache_lookup c pc raw) pc raw c m h

  module _ (handle_sbi_call : Cpu → bus.State → Cpu × bus.State × Bool)
      (sbi : (c : Cpu) (m : bus.State) → IsHart c → IsHart ((handle_sbi_call c m).0))
      (pc raw len : ℕ) where
    set_result-Keeps :
        (rd : ℕ) (o : Option ℕ) → Keeps bus (set_result bus handle_sbi_call pc raw len rd o)
    unfolding set_result
    set_result-Keeps rd none = raise-Keeps bus _ (illegal_instruction raw) pc
    set_result-Keeps rd (some v) = bind-Keeps bus _ _ (set_reg bus rd v) (λ _. pure-Keeps bus _)

    jump_to-Keeps : (target : ℕ) → Keeps bus (jump_to bus handle_sbi_call pc raw len target)
    unfolding jump_to
    jump_to-Keeps target =
        if-Keeps bus _ _ _ (raise-Keeps bus _ (Types.instruction_address_misaligned target) pc)
          (pure-Keeps bus target)

    branch_if-Keeps :
        (o : Option Bool) (target : ℕ)
        → Keeps bus (branch_if bus handle_sbi_call pc raw len o target)
    unfolding branch_if
    branch_if-Keeps none target = raise-Keeps bus _ (illegal_instruction raw) pc
    branch_if-Keeps (some go) target = if-Keeps bus _ _ _ (jump_to-Keeps target) (pure-Keeps bus _)

    execute-Keeps : (o : Op) → Keeps bus (execute bus handle_sbi_call pc raw len o)
    unfolding execute
    execute-Keeps (Decoder.lui rd imm) = set_result-Keeps rd (some imm)
    execute-Keeps (Decoder.auipc rd imm) = set_result-Keeps rd _
    execute-Keeps (Decoder.jal rd imm) =
        bind-Keeps bus _ _ (set_reg bus rd _) (λ _. jump_to-Keeps _)
    execute-Keeps (Decoder.jalr rd rs1 imm) =
        bind-Keeps bus _ _ (reg-Keeps bus rs1)
          (λ base. bind-Keeps bus _ _ (set_reg bus rd _) (λ _. jump_to-Keeps _))
    execute-Keeps (Decoder.branch rs1 rs2 imm funct3) =
        bind-Keeps bus _ _ (reg-Keeps bus rs1)
          (λ val1. bind-Keeps bus _ _ (reg-Keeps bus rs2) (λ val2. branch_if-Keeps _ _))
    execute-Keeps (Decoder.load rd rs1 imm funct3) =
        bind-Keeps bus _ _ (execute_load-Keeps bus pc raw rd rs1 imm funct3) (λ _. pure-Keeps bus _)
    execute-Keeps (Decoder.store rs1 rs2 imm funct3) =
        bind-Keeps bus _ _ (execute_store-Keeps bus pc raw rs1 rs2 imm funct3)
          (λ _. pure-Keeps bus _)
    execute-Keeps (Decoder.op_imm rd rs1 imm funct3 funct7) =
        bind-Keeps bus _ _ (reg-Keeps bus rs1) (λ val1. set_result-Keeps rd _)
    execute-Keeps (Decoder.op rd rs1 rs2 funct3 funct7) =
        bind-Keeps bus _ _ (reg-Keeps bus rs1)
          (λ val1. bind-Keeps bus _ _ (reg-Keeps bus rs2) (λ val2. set_result-Keeps rd _))
    execute-Keeps (Decoder.op_imm32 rd rs1 imm funct3 funct7) =
        bind-Keeps bus _ _ (reg-Keeps bus rs1) (λ val1. set_result-Keeps rd _)
    execute-Keeps (Decoder.op32 rd rs1 rs2 funct3 funct7) =
        bind-Keeps bus _ _ (reg-Keeps bus rs1)
          (λ val1. bind-Keeps bus _ _ (reg-Keeps bus rs2) (λ val2. set_result-Keeps rd _))
    execute-Keeps (Decoder.system rd rs1 funct3 imm) =
        execute_system-Keeps bus pc raw _ handle_sbi_call sbi rd rs1 funct3 imm
    execute-Keeps (Decoder.amo rd rs1 rs2 funct3 funct5 aq rl) =
        bind-Keeps bus _ _ (execute_amo-Keeps bus pc raw rd rs1 rs2 funct3 funct5)
          (λ _. pure-Keeps bus _)
    execute-Keeps Decoder.fence = pure-Keeps bus _

  set_pc : (next_pc : ℕ) → Keeps bus (modify bus (λ d. record d { pc = next_pc }))
  unfolding Keeps
  set_pc next_pc c m h = record {
    regs = h.regs;
    csrs = h.csrs;
    cache = h.cache;
    decodings = h.decodings;
    zero = h.zero;
  }

  step_at-Keeps :
      (handle_sbi_call : Cpu → bus.State → Cpu × bus.State × Bool) (pc : ℕ)
      → ((d : Cpu) (n : bus.State) → IsHart d → IsHart ((handle_sbi_call d n).0))
      → Keeps bus (step_at bus handle_sbi_call pc)
  unfolding step_at
  step_at-Keeps handle_sbi_call pc sbi =
      bind-Keeps bus _ _ (fetch_at-Keeps pc) (λ (fetched : ℕ × ℕ).
        bind-Keeps bus _ _ (decode_cached-Keeps pc (fetched.0)) (λ decoded.
          bind-Keeps bus _ _ (execute-Keeps handle_sbi_call sbi pc (fetched.0) (fetched.1) decoded)
            (λ next_pc. set_pc next_pc)))

  kept :
      {A : Type 0} (x : Exec bus A) (c : Cpu) (m : bus.State)
      → Keeps bus x
      → IsHart c
      → IsHart ((x c m).0)
  unfolding Keeps
  kept x c m hx h = hx c m h

  -- A step keeps a hart well formed, whether the instruction completes or traps and whatever the bus
  -- answers, if the SBI does: x0 holds 0, every cached instruction is what its word decodes to, and
  -- there are 32 registers, 4096 CSRs and 256 entries in the decode cache.
  pub step_single_inner-IsHart :
      (handle_sbi_call : Cpu → bus.State → Cpu × bus.State × Bool) (c : Cpu) (m : bus.State)
      → ((d : Cpu) (n : bus.State) → IsHart d → IsHart ((handle_sbi_call d n).0))
      → IsHart c
      → IsHart ((step_single_inner bus handle_sbi_call c m).0)
  unfolding step_single_inner
  step_single_inner-IsHart handle_sbi_call c m sbi h =
      kept (step_at bus handle_sbi_call c.pc) c m (step_at-Keeps handle_sbi_call c.pc sbi) h
