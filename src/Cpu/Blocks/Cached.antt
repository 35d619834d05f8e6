-- ===== src/Cpu/Blocks/Cached.antt =====
-- riscv-vm/src/cpu/execution.rs: a step looks blocks up in the cache and inserts the ones that it
-- compiles, and does nothing else to it.
use bavy.Prelude.{
  ℕ, zero, suc, ◌≡◌, refl, sym, Bool, true, false, Bool-cases, inl, inr, Option, none, some, Result,
  ok, err, List,
}
use bavy.Cpu.Types.{Trap}
use bavy.Cpu.State.{Cpu}
use bavy.Bus.{Bus}
use bavy.Engine.Block
use bavy.Engine.Block.{Block, CompileResult}
use bavy.Engine.Block.Compile.{compile}
use bavy.Engine.Cache.{BlockCache, get_and_touch, insert}
use bavy.Engine.Cache.Found.{IsMissed, get_and_touch-IsMissed}
use mathlib.Core.Path.{subst}
use bavy.Cpu.Execute.Poll.{count_and_poll}
use bavy.Cpu.Blocks.Micro.{continue, trap, exit}
use bavy.Cpu.Blocks.Exec.{Ran, execute_block_inner}
use bavy.Cpu.Blocks.Reference.{Insn}
use bavy.Cpu.Blocks.Compiled.{IsCompiled, Ends}
use bavy.Cpu.Blocks.Compiling.{compile-Ends}
use bavy.Cpu.Blocks.Chain.{
  Tried, Chain, chains_to, after_block, run_block, after_compile, with_block, chain_loop,
  try_execute_block, or_interpret, step_with_blocks, after_poll, step, max_chain_depth,
}

-- A step inserts at most one block, at an address that the lookup missed: where Q is kept by
-- lookups until then and R by those after it, R holds after the step.
module _ (Q R : BlockCache → Type 0) (weaken : (cache : BlockCache) → Q cache → R cache)
    (touches : (cache : BlockCache) (pc : ℕ) → Q cache → Q (get_and_touch cache pc).0)
    (touches_after : (cache : BlockCache) (pc : ℕ) → R cache → R (get_and_touch cache pc).0)
    (inserts : (cache : BlockCache) (block : Block)
      → ((insns : List Insn) × IsCompiled block insns)
      → IsMissed cache block.start_pc
      → Q cache
      → R (insert cache block)) where
  module _ (bus : Bus) where
    abbrev ChainKeeps : (BlockCache → Type 0) → Chain bus → Type 0
    ChainKeeps P chain =
        (pc : ℕ) (c : Cpu) (cache : BlockCache) (m : bus.State)
        → P cache
        → R ((chain pc c cache m).1)

    module _ (chain : Chain bus) (keeps : ChainKeeps R chain) where
      after_block-keeps :
          (next_block_pc : Option ℕ) (cache : BlockCache) (r : Ran bus)
          → R cache
          → R ((after_block bus chain next_block_pc cache r).1)
      unfolding after_block
      after_block-keeps next_block_pc cache (c, m, continue next_pc) h =
          elim (Bool-cases (chains_to next_block_pc next_pc)) [
            | inl e ↦ rw e (keeps next_pc (record c { pc = next_pc }) cache m h)
            | inr e ↦ rw e h
          ]
      after_block-keeps next_block_pc cache (c, m, trap t fault_pc) h = h
      after_block-keeps next_block_pc cache (c, m, exit exit_pc) h = h

      run_block-keeps :
          (block : Block) (c : Cpu) (cache : BlockCache) (m : bus.State)
          → R cache
          → R ((run_block bus chain block c cache m).1)
      unfolding run_block
      run_block-keeps block c cache m h =
          after_block-keeps block.next_block_pc cache (execute_block_inner bus block c m) h

      after_compile-keeps :
          (P : List Insn → Type 0) (current_pc : ℕ) (cache : BlockCache)
          (r : Cpu × bus.State × Option CompileResult)
          → Q cache
          → IsMissed cache current_pc
          → Ends P current_pc r.2
          → R ((after_compile bus chain current_pc cache r).1)
      unfolding after_compile
      after_compile-keeps P current_pc cache (c, m, some (Block.ok block)) h missed (at, compiled) =
          run_block-keeps (record block { exec_count = 0 }) c (insert cache block) m
            (inserts cache block (compiled.0, compiled.1) (subst (IsMissed cache) (sym at) missed)
              h)
      after_compile-keeps P current_pc cache (c, m, some (Block.trap t)) h missed ends =
          weaken cache h
      after_compile-keeps P current_pc cache (c, m, some Block.unsuitable) h missed ends =
          weaken cache h
      after_compile-keeps P current_pc cache (c, m, none) h missed ends = weaken cache h

      with_block-keeps :
          (current_pc : ℕ) (c : Cpu) (m : bus.State) (r : BlockCache × Option Block)
          → R r.0
          → R ((with_block bus chain true current_pc c m r).1)
      unfolding with_block
      with_block-keeps current_pc c m (cache, some block) h = run_block-keeps block c cache m h
      with_block-keeps current_pc c m (cache, none) h = h

      with_first_block-keeps :
          (current_pc : ℕ) (c : Cpu) (m : bus.State) (r : BlockCache × Option Block)
          → Q r.0
          → (r.1 ≡ none → IsMissed r.0 current_pc)
          → R ((with_block bus chain false current_pc c m r).1)
      unfolding with_block
      with_first_block-keeps current_pc c m (cache, some block) h missed =
          run_block-keeps block c cache m (weaken cache h)
      with_first_block-keeps current_pc c m (cache, none) h missed =
          after_compile-keeps _ current_pc cache (compile bus current_pc cache.generation c m) h
            (missed refl) (compile-Ends bus current_pc cache.generation c m)

    chained-keeps : (left : ℕ) → ChainKeeps R (chain_loop bus left true)
    unfolding chain_loop
    chained-keeps zero pc c cache m h = h
    chained-keeps (suc left) pc c cache m h =
        with_block-keeps (chain_loop bus left true) (chained-keeps left) pc c m
          (get_and_touch cache pc) (touches_after cache pc h)

    chain_loop-keeps : (left : ℕ) → ChainKeeps Q (chain_loop bus left false)
    unfolding chain_loop
    chain_loop-keeps zero pc c cache m h = weaken cache h
    chain_loop-keeps (suc left) pc c cache m h =
        with_first_block-keeps (chain_loop bus left true) (chained-keeps left) pc c m
          (get_and_touch cache pc) (touches cache pc h) (get_and_touch-IsMissed cache pc)

    module _ (handle_sbi_call : Cpu → bus.State → Cpu × bus.State × Bool) where
      or_interpret-keeps : (r : Tried bus) → R r.1 → R ((or_interpret bus handle_sbi_call r).1)
      unfolding or_interpret
      or_interpret-keeps (c, cache, m, some r) h = h
      or_interpret-keeps (c, cache, m, none) h = h

      after_poll-keeps :
          (use_blocks : Bool) (cache : BlockCache) (r : Cpu × bus.State × Result (Unit {0}) Trap)
          → Q cache
          → R ((after_poll bus handle_sbi_call use_blocks cache r).1)
      unfolding after_poll step_with_blocks try_execute_block
      after_poll-keeps true cache (c, m, ok a) h =
          or_interpret-keeps (chain_loop bus max_chain_depth false c.pc c cache m)
            (chain_loop-keeps max_chain_depth c.pc c cache m h)
      after_poll-keeps false cache (c, m, ok a) h =
          or_interpret-keeps (c, cache, m, none) (weaken cache h)
      after_poll-keeps use_blocks cache (c, m, err t) h = weaken cache h

      pub step-keeps :
          (poll_interrupts_for_hart : ℕ → bus.State → bus.State × ℕ) (use_blocks : Bool) (c : Cpu)
          (cache : BlockCache) (m : bus.State)
          → Q cache
          → R ((step bus handle_sbi_call poll_interrupts_for_hart use_blocks c cache m).1)
      unfolding step
      step-keeps poll_interrupts_for_hart use_blocks c cache m h =
          after_poll-keeps use_blocks cache (count_and_poll bus poll_interrupts_for_hart c m) h
