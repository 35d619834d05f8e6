-- ===== src/Cpu/Blocks/Stored.antt =====
-- riscv-vm/src/cpu/execution.rs, engine/cache.rs: what the block cache holds.
use bavy.Prelude.{ℕ, ◌≡◌, refl, Bool, List, ◌<◌, length, sym}
use bavy.Cpu.State.{Cpu}
use bavy.Bus.{Bus}
use bavy.Engine.Block.{Block}
use bavy.Engine.Cache.{BlockCache, block_cache_size, get_and_touch}
use bavy.Cpu.Blocks.Cached.{step-keeps}
use bavy.Engine.Cache.Lookup.{AllBlocks, AllBlocks-insert, get_and_touch-AllBlocks}
use bavy.Engine.Cache.Found.{IsFound, get_and_touch-IsFound, insert-IsFound}
use mathlib.Core.Path.{subst}
use bavy.Cpu.Blocks.Reference.{Insn}
use bavy.Cpu.Blocks.Compiled.{IsCompiled}
use bavy.Cpu.Blocks.Chain.{step}

-- The block stands at its own address, and was compiled from instructions.
abbrev pub IsEntry : ℕ → Block → Type 0
IsEntry key block = (block.start_pc ≡ key) × ((insns : List Insn) × IsCompiled block insns)

-- Every block of the cache does.
abbrev pub IsStored : BlockCache → Type 0
IsStored cache = AllBlocks IsEntry cache.blocks

with_exec_count :
    (key : ℕ) (block : Block) (n : ℕ)
    → IsEntry key block
    → IsEntry key (record block { exec_count = n })
with_exec_count key block n (at, (insns, h)) = (
  at,
  (
    insns,
    record {
      ops = h.ops;
      fetched = h.fetched;
      straight = h.straight;
      bytes = h.bytes;
      nonempty = h.nonempty;
      count = h.count;
      even = h.even;
    },
  ),
)

module _ (bus : Bus) (handle_sbi_call : Cpu → bus.State → Cpu × bus.State × Bool)
    (poll_interrupts_for_hart : ℕ → bus.State → bus.State × ℕ) (use_blocks : Bool) (c : Cpu)
    (cache : BlockCache) (m : bus.State) where
  -- A step of the hart keeps the block cache true: every block in it, found under its own even
  -- address, is what 1 to 64 decoded instructions are transcoded to, of which only the last can
  -- end it, and is as long as they are.
  pub step-IsStored :
      IsStored cache
      → IsStored ((step bus handle_sbi_call poll_interrupts_for_hart use_blocks c cache m).1)
  step-IsStored h =
      let touches : (k : BlockCache) (pc : ℕ) → IsStored k → IsStored (get_and_touch k pc).0 =
        λ k pc stored.
          (get_and_touch-AllBlocks IsEntry k pc stored (λ block. with_exec_count pc block _)).0 in
      step-keeps IsStored IsStored (λ k stored. stored) touches touches
        (λ k block compiled missed stored. AllBlocks-insert IsEntry k block stored (refl, compiled))
        bus handle_sbi_call poll_interrupts_for_hart use_blocks c cache m h

  -- No step of the hart drops a block from a cache with room, whichever instruction it runs, be it
  -- a write of satp, SFENCE.VMA, FENCE.I or a store into the block's code: a block that a lookup
  -- finds before the step, current and at its address, is found after it, with only its count of
  -- runs another.
  pub step-IsFound :
      (pc : ℕ) (block : Block)
      → length cache.blocks < block_cache_size
      → IsFound pc block cache
      → IsFound pc block
          ((step bus handle_sbi_call poll_interrupts_for_hart use_blocks c cache m).1)
  step-IsFound pc block room found =
      step-keeps (λ k. (length k.blocks < block_cache_size) × IsFound pc block k) (IsFound pc block)
        (λ k h. h.1)
        (λ k at h.
          let kept = get_and_touch-IsFound pc block k at h.1 in
          (subst (λ n. n < block_cache_size) (sym kept.1) h.0, kept.0))
        (λ k at h. (get_and_touch-IsFound pc block k at h).0)
        (λ k new compiled missed h. insert-IsFound pc block k new h.0 missed h.1) bus
        handle_sbi_call poll_interrupts_for_hart use_blocks c cache m (room, found)
