-- ===== src/Engine/Block/Compile.antt =====
-- riscv-vm/src/engine/block.rs: the block compiler. It borrows the hart's TLB and copies satp,
-- mstatus and the mode, so the hart itself stands for it here; the loop recurses on the rounds
-- that are left, and `none` is a loop that has run out of them.
use bavy.Prelude.{
  ℕ, zero, suc, ◌+◌, ◌%◌, ◌^◌, bit_and, bit_or, ◌==◌, ltb, if◌then◌else◌, Option, none, some, not,
  Result, ok, err, length,
}
use bavy.Prelude.Bits.{complement, ◌<<<◌}
use bavy.Cpu.Types
use bavy.Cpu.Types.{Trap}
use bavy.Cpu.State.{Cpu}
use bavy.Bus.{Bus}
use bavy.Mmu.Tlb
use bavy.Engine.Decoder
use bavy.Engine.Decoder.{Op, decode}
use bavy.Engine.Compressed.{expand_compressed}
use bavy.Engine.Microop.{is_terminator}
use bavy.Engine.Block
use bavy.Engine.Block.{Block, CompileResult, new, push, max_block_size}
use bavy.Engine.Block.Transcode.{transcode}
use bavy.Cpu.Execute.Monad.{Exec, bind, pure}
use bavy.Cpu.Execute.Step.{fetch_fault}
use bavy.Cpu.Blocks.Micro.{translate_addr_for_block}

-- The target that a JAL chains to.
unfoldable pub jal_target : Op → ℕ → Option ℕ
jal_target (Decoder.jal rd imm) pc = some ((pc + imm) % 2 ^ 64)
jal_target other pc = none

-- What a trap after the first operation leaves: the block so far.
unfoldable pub partial : Block → Trap → CompileResult
partial block t = if ltb 0 (length block.ops) then Block.ok block else Block.trap t

abbrev pub next_page : ℕ → ℕ
next_page start_pc = (bit_and start_pc (complement 64 0xFFF) + 0x1000) % 2 ^ 64

-- Each round but the last adds an operation.
abbrev pub max_rounds : ℕ
max_rounds = max_block_size + 1

module _ (bus : Bus) where
  abbrev pub fail : {A : Type 0} → Trap → Exec bus A
  fail t c m = (c, m, err t)

  unfoldable pub with_length : Result ℕ Trap → Exec bus (ℕ × ℕ)
  with_length (ok insn32) c m = (c, m, ok (insn32, 2))
  with_length (err t) c m = (c, m, err t)

  unfoldable pub expanded_insn : ℕ → Exec bus (ℕ × ℕ)
  expanded_insn half = with_length (expand_compressed half)

  unfoldable pub read_half : ℕ → ℕ → Exec bus ℕ
  read_half pc pa c m =
      let (m', r) = bus.load m pa 2 in
      elim r [ ok v ↦ (c, m', ok v) | err e ↦ (c, m', err (fetch_fault e pc)) ]

  -- From `// Fetch first halfword` on.
  unfoldable pub fetch_insn_halves : ℕ → ℕ → Exec bus (ℕ × ℕ)
  fetch_insn_halves pc pa = bind bus (read_half pc pa) (λ half.
      if not (bit_and half 0x3 == 0x3)
      then expanded_insn half
      else bind bus (translate_addr_for_block bus ((pc + 2) % 2 ^ 64) Tlb.instruction)
          (λ pa_hi. bind bus (read_half pc pa_hi) (λ hi. pure bus (bit_or half (hi <<< 16), 4))))

  unfoldable pub fetched_insn : Result ℕ Trap → ℕ → ℕ → Exec bus (ℕ × ℕ)
  fetched_insn (err e) pc pa = fetch_insn_halves pc pa
  fetched_insn (ok word) pc pa =
      if not (bit_and word 0x3 == 0x3)
      then expanded_insn (bit_and word 0xFFFF)
      else pure bus (word, 4)

  unfoldable pub fetch_insn_word : ℕ → ℕ → Exec bus (ℕ × ℕ)
  fetch_insn_word pc pa c m = let (m', r) = bus.load m pa 4 in fetched_insn r pc pa c m'

  unfoldable pub fetch_insn : ℕ → Exec bus (ℕ × ℕ)
  fetch_insn pc =
      if not (pc % 2 == 0)
      then fail (Types.instruction_address_misaligned pc)
      else bind bus (translate_addr_for_block bus pc Tlb.instruction)
          (λ pa. if pc % 4 == 0 then fetch_insn_word pc pa else fetch_insn_halves pc pa)

  abbrev pub Compiled : Type 0
  Compiled = Cpu × bus.State × Option CompileResult

  -- The next round of the loop, with the block, pc and pc_offset.
  abbrev pub Round : Type 0
  Round = Block → ℕ → ℕ → Cpu → bus.State → Compiled

  -- The block with the operation, where it was not full.
  unfoldable pub pushed : Round → Op → ℕ → Block → Option Block → ℕ → ℕ → Cpu → bus.State → Compiled
  pushed round decoded insn_len block none pc pc_offset c m =
      (c, m, some (Block.ok (record block { next_block_pc = some pc })))
  pushed round decoded insn_len block (some grown) pc pc_offset c m =
      let pc' = (pc + insn_len) % 2 ^ 64 in
      if is_terminator (transcode decoded pc_offset insn_len)
      then (c, m, some (Block.ok (record grown { next_block_pc = jal_target decoded pc })))
      else if not (ltb pc' (next_page block.start_pc))
      then (c, m, some (Block.ok (record grown { next_block_pc = some pc' })))
      else round grown pc' ((pc_offset + insn_len) % 2 ^ 16) c m

  unfoldable pub compile_decoded :
      Round → Result Op Trap → ℕ → Block → ℕ → ℕ → Cpu → bus.State → Compiled
  compile_decoded round (err t) insn_len block pc pc_offset c m = (c, m, some (partial block t))
  compile_decoded round (ok decoded) insn_len block pc pc_offset c m =
      pushed round decoded insn_len block
        (push block (transcode decoded pc_offset insn_len) insn_len) pc pc_offset c m

  unfoldable pub compile_fetched :
      Round → Block → ℕ → ℕ → Cpu × bus.State × Result (ℕ × ℕ) Trap → Compiled
  compile_fetched round block pc pc_offset (c, m, err t) = (c, m, some (partial block t))
  compile_fetched round block pc pc_offset (c, m, ok (raw, insn_len)) =
      compile_decoded round (decode raw) insn_len block pc pc_offset c m

  unfoldable pub compile_loop : ℕ → Round
  compile_loop zero block pc pc_offset c m = (c, m, none)
  compile_loop (suc rounds) block pc pc_offset c m =
      compile_fetched (compile_loop rounds) block pc pc_offset (fetch_insn pc c m)

  unfoldable pub compile_from : ℕ → ℕ → Cpu × bus.State × Result ℕ Trap → Compiled
  compile_from start_pc generation (c, m, err t) = (c, m, some (Block.trap t))
  compile_from start_pc generation (c, m, ok start_pa) =
      compile_loop max_rounds (new start_pc start_pa generation) start_pc 0 c m

  unfoldable pub compile : ℕ → ℕ → Cpu → bus.State → Compiled
  compile start_pc generation c m =
      compile_from start_pc generation (translate_addr_for_block bus start_pc Tlb.instruction c m)
