-- ===== src/Cpu/Blocks/Exec.antt =====
-- riscv-vm/src/cpu/core.rs: `execute_block_inner`.
use bavy.Prelude.{ℕ, ◌+◌, ◌%◌, ◌^◌, Option, none, some, List, [], ◌∷◌}
use bavy.Cpu.State.{Cpu}
use bavy.Bus.{Bus}
use bavy.Engine.Microop.{MicroOp}
use bavy.Engine.Block.{Block}
use bavy.Cpu.Blocks.Micro.{BlockExecResult, continue, execute_micro_op}

module _ (bus : Bus) where
  abbrev pub Ran : Type 0
  Ran = Cpu × bus.State × BlockExecResult

  -- A `return` in an arm of the match, or the next round of the loop.
  unfoldable pub returned : (Cpu → bus.State → Ran) → Cpu × bus.State × Option BlockExecResult → Ran
  returned next (c, m, none) = next c m
  returned next (c, m, some result) = (c, m, result)

  -- The loop over the operations; `after` is the address that follows the block.
  unfoldable pub execute_ops : ℕ → ℕ → List MicroOp → Cpu → bus.State → Ran
  execute_ops base_pc after [] c m = (c, m, continue after)
  execute_ops base_pc after (micro ∷ ops) c m =
      returned (execute_ops base_pc after ops) (execute_micro_op bus base_pc micro c m)

  unfoldable pub execute_block_inner : Block → Cpu → bus.State → Ran
  execute_block_inner block c m =
      execute_ops block.start_pc ((block.start_pc + block.byte_len) % 2 ^ 64) block.ops c m
