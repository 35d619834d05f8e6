-- ===== src/Engine/Block.antt =====
-- riscv-vm/src/engine/block.rs: basic blocks. `ops` is the valid part of the array, and the field
-- `len` its length.
pub mod Transcode
pub mod Compile
use bavy.Prelude.{
  ℕ, ◌+◌, ◌^◌, ◌%◌, Option, none, some, List, [], ◌∷◌, ◌++◌, length, Bool, not, ltb, if◌then◌else◌,
}
use bavy.Cpu.Types.{Trap}
use bavy.Engine.Microop.{MicroOp}

abbrev pub max_block_size : ℕ
max_block_size = 64

pub record Block : Type 0 where
  pub start_pc : ℕ
  pub start_pa : ℕ
  pub byte_len : ℕ  -- u16
  pub ops : List MicroOp
  pub exec_count : ℕ
  pub generation : ℕ
  pub next_block_pc : Option ℕ

unfoldable pub new : ℕ → ℕ → ℕ → Block
new start_pc start_pa generation = record {
  start_pc = start_pc;
  start_pa = start_pa;
  byte_len = 0;
  ops = [];
  exec_count = 0;
  generation = generation;
  next_block_pc = none;
}

unfoldable pub is_full : Block → Bool
is_full b = not (ltb (length b.ops) max_block_size)

-- `none` where the source returns false.
unfoldable pub push : Block → MicroOp → ℕ → Option Block
push b micro insn_len =
    if is_full b
    then none
    else some (record b { ops = b.ops ++ micro ∷ []; byte_len = (b.byte_len + insn_len) % 2 ^ 16 })

pub data CompileResult : Type 0 where
  ok : Block → CompileResult
  trap : Trap → CompileResult
  unsuitable : CompileResult
