-- ===== src/Cpu/Blocks/Chain.antt =====
-- riscv-vm/src/cpu/execution.rs: `try_execute_block` and `step`; cpu/core.rs: `handle_block_result`,
-- which nothing calls. The hart's block cache stands beside the hart: no other part of the hart
-- touches it.
use bavy.Prelude.{
  ℕ, zero, suc, ◌==◌, if◌then◌else◌, Bool, true, false, Option, none, some, Result, ok, err,
}
use bavy.Cpu.Types.{Trap}
use bavy.Cpu.State.{Cpu, invalidate_decode_cache}
use bavy.Cpu.Trap.{handle_trap}
use bavy.Bus.{Bus}
use bavy.Engine.Block
use bavy.Engine.Block.{Block, CompileResult}
use bavy.Engine.Block.Compile.{compile}
use bavy.Engine.Cache.{BlockCache, get_and_touch, insert, flush}
use bavy.Cpu.Execute.Step.{step_single_inner}
use bavy.Cpu.Execute.Poll.{count_and_poll, step_single}
use bavy.Cpu.Blocks.Micro.{continue, trap, exit}
use bavy.Cpu.Blocks.Exec.{Ran, execute_block_inner}

abbrev pub max_chain_depth : ℕ
max_chain_depth = 16

unfoldable pub chains_to : Option ℕ → ℕ → Bool
chains_to none next_pc = false
chains_to (some chain_pc) next_pc = chain_pc == next_pc

-- Nothing calls this.
unfoldable pub invalidate_blocks : Cpu → BlockCache → Cpu × BlockCache
invalidate_blocks c cache = (invalidate_decode_cache c, flush cache)

module _ (bus : Bus) where
  -- The hart, its block cache, the bus and what `try_execute_block` returns.
  abbrev pub Tried : Type 0
  Tried = Cpu × BlockCache × bus.State × Option (Result (Unit {0}) Trap)

  -- The loop at an address.
  abbrev pub Chain : Type 0
  Chain = ℕ → Cpu → BlockCache → bus.State → Tried

  -- The match on a block's result; `chain` goes on with the next block.
  unfoldable pub after_block : Chain → Option ℕ → BlockCache → Ran bus → Tried
  after_block chain next_block_pc cache (c, m, continue next_pc) =
      let c' = record c { pc = next_pc } in
      if chains_to next_block_pc next_pc
      then chain next_pc c' cache m
      else (c', cache, m, some (ok tt))
  after_block chain next_block_pc cache (c, m, trap t fault_pc) =
      (handle_trap c t fault_pc, cache, m, some (err t))
  after_block chain next_block_pc cache (c, m, exit exit_pc) =
      (record c { pc = exit_pc }, cache, m, none)

  unfoldable pub run_block : Chain → Block → Cpu → BlockCache → bus.State → Tried
  run_block chain block c cache m =
      after_block chain block.next_block_pc cache (execute_block_inner bus block c m)

  -- The match on what the compiler gives; it always gives something.
  unfoldable pub after_compile :
      Chain → ℕ → BlockCache → Cpu × bus.State × Option CompileResult → Tried
  after_compile chain current_pc cache (c, m, some (Block.ok block)) =
      run_block chain (record block { exec_count = 0 }) c (insert cache block) m
  after_compile chain current_pc cache (c, m, some (Block.trap t)) =
      (handle_trap c t current_pc, cache, m, some (err t))
  after_compile chain current_pc cache (c, m, some Block.unsuitable) = (c, cache, m, none)
  after_compile chain current_pc cache (c, m, none) = (c, cache, m, none)

  -- After the lookup; `chaining` is `chain_count > 0`.
  unfoldable pub with_block : Chain → Bool → ℕ → Cpu → bus.State → BlockCache × Option Block → Tried
  with_block chain chaining current_pc c m (cache, some block) = run_block chain block c cache m
  with_block chain chaining current_pc c m (cache, none) =
      if chaining
      then (c, cache, m, some (ok tt))
      else after_compile chain current_pc cache (compile bus current_pc cache.generation c m)

  -- The loop, with what is left of the depth; at 0 the chain ends.
  unfoldable pub chain_loop : ℕ → Bool → Chain
  chain_loop zero chaining current_pc c cache m = (c, cache, m, some (ok tt))
  chain_loop (suc left) chaining current_pc c cache m =
      with_block (chain_loop left true) chaining current_pc c m (get_and_touch cache current_pc)

  unfoldable pub try_execute_block : Cpu → BlockCache → bus.State → Tried
  try_execute_block c cache m = chain_loop max_chain_depth false c.pc c cache m

  module _ (handle_sbi_call : Cpu → bus.State → Cpu × bus.State × Bool) where
    -- A block's result, or the interpreter.
    unfoldable pub or_interpret : Tried → Cpu × BlockCache × bus.State × Result (Unit {0}) Trap
    or_interpret (c, cache, m, some r) = (c, cache, m, r)
    or_interpret (c, cache, m, none) =
        let (c', m', r) = step_single_inner bus handle_sbi_call c m in (c', cache, m', r)

    unfoldable pub step_with_blocks :
        Bool → Cpu → BlockCache → bus.State → Cpu × BlockCache × bus.State × Result (Unit {0}) Trap
    step_with_blocks use_blocks c cache m =
        if use_blocks
        then or_interpret (try_execute_block c cache m)
        else or_interpret (c, cache, m, none)

    -- What follows the poll of `step`.
    unfoldable pub after_poll :
        Bool
        → BlockCache
        → Cpu × bus.State × Result (Unit {0}) Trap
        → Cpu × BlockCache × bus.State × Result (Unit {0}) Trap
    after_poll use_blocks cache (c, m, ok _) = step_with_blocks use_blocks c cache m
    after_poll use_blocks cache (c, m, err t) = (c, cache, m, err t)

    unfoldable pub step :
        (ℕ → bus.State → bus.State × ℕ)
        → Bool
        → Cpu
        → BlockCache
        → bus.State
        → Cpu × BlockCache × bus.State × Result (Unit {0}) Trap
    step poll_interrupts_for_hart use_blocks c cache m =
        after_poll use_blocks cache (count_and_poll bus poll_interrupts_for_hart c m)

    unfoldable pub handle_block_result :
        (ℕ → bus.State → bus.State × ℕ) → Ran bus → Cpu × bus.State × Result (Unit {0}) Trap
    handle_block_result poll_interrupts_for_hart (c, m, continue next_pc) =
        (record c { pc = next_pc }, m, ok tt)
    handle_block_result poll_interrupts_for_hart (c, m, trap t fault_pc) =
        (handle_trap c t fault_pc, m, err t)
    handle_block_result poll_interrupts_for_hart (c, m, exit next_pc) =
        step_single bus poll_interrupts_for_hart handle_sbi_call (record c { pc = next_pc }) m
