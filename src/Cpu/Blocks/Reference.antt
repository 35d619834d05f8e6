-- ===== src/Cpu/Blocks/Reference.antt =====
-- riscv-vm/src/cpu/core.rs, execution.rs: what a block has to do, by the interpreter: its
-- instructions one after the other.
use bavy.Prelude.{ℕ, ◌+◌, ◌%◌, ◌≤◌, ◌≡◌, ◌⊎◌, Bool, true, false, ok, err, List, [], ◌∷◌, ◌++◌}
use bavy.Cpu.State.{Cpu}
use bavy.Cpu.Trap.{handle_trap}
use bavy.Bus.{Bus}
use bavy.Engine.Decoder.{Op, decode}
use bavy.Engine.Microop.{MicroOp, is_terminator}
use bavy.Engine.Block.Transcode.{transcode}
use bavy.Cpu.Execute.Monad.{Exec, bind, pure}
use bavy.Cpu.Execute.Step.{execute}
use bavy.Cpu.Blocks.Micro.{BlockExecResult, continue, trap, exit}
use bavy.Cpu.Blocks.Agree.{unreserved, unreserved_state, needs_interpreter}

-- A fetched word, its length in bytes and what it decodes to.
pub record Insn : Type 0 where
  pub raw : ℕ
  pub insn_len : ℕ
  pub decoded : Op

pub record IsFetched (i : Insn) : Type 0 where
  pub decodes : decode i.raw ≡ ok i.decoded
  pub even : i.insn_len % 2 ≡ 0
  pub short : i.insn_len ≤ 4

abbrev pub AllFetched : List Insn → Type 0
AllFetched [] = Unit
AllFetched (i ∷ is) = IsFetched i × AllFetched is

abbrev pub total_len : List Insn → ℕ
total_len [] = 0
total_len (i ∷ is) = i.insn_len + total_len is

-- The operations of the block, the first at `pc_offset`.
unfoldable pub transcode_all : ℕ → List Insn → List MicroOp
transcode_all pc_offset [] = []
transcode_all pc_offset (i ∷ is) =
    transcode i.decoded pc_offset i.insn_len ∷ transcode_all (pc_offset + i.insn_len) is

-- Only the last operation ends a block.
abbrev pub IsStraight : ℕ → List Insn → Type 0
IsStraight pc_offset [] = Unit
IsStraight pc_offset (i ∷ is) =
    ((is ≡ []) ⊎ (is_terminator (transcode i.decoded pc_offset i.insn_len) ≡ false))
    × IsStraight (pc_offset + i.insn_len) is

module _ (bus : Bus) (handle_sbi_call : Cpu → bus.State → Cpu × bus.State × Bool) where
  -- The interpreter on the instructions in order, each at the address that the one before left.
  unfoldable pub interpret : List Insn → ℕ → Exec bus ℕ
  interpret [] pc = pure bus pc
  interpret (i ∷ is) pc =
      bind bus (execute bus handle_sbi_call pc i.raw i.insn_len i.decoded) (interpret is)

  -- The block stops before an instruction that the interpreter has to run, in the state that the
  -- interpreter reaches there.
  pub record ExitsAt (insns : List Insn) (pc : ℕ) (c : Cpu) (m : bus.State) (c' : Cpu)
      (m' : bus.State) (next_pc : ℕ) : Type 0 where
    pub done : List Insn
    pub insn : Insn
    pub rest : List Insn
    pub split : insns ≡ done ++ insn ∷ rest
    pub ran : interpret done pc c m ≡ (c', m', ok next_pc)
    pub left : needs_interpreter insn.decoded ≡ true

  -- The result of a block from (c, m) agrees with the interpreter's.
  abbrev pub BlockAgrees :
      List Insn → ℕ → Cpu → bus.State → Cpu × bus.State × BlockExecResult → Type 0
  BlockAgrees insns pc c m (c', m', continue next_pc) =
      interpret insns pc c m ≡ (c', m', ok next_pc)
  BlockAgrees insns pc c m (c', m', trap t fault_pc) =
      unreserved_state bus (interpret insns pc c m)
      ≡ (unreserved (handle_trap c' t fault_pc), m', err t)
  BlockAgrees insns pc c m (c', m', exit next_pc) = ExitsAt insns pc c m c' m' next_pc
