-- ===== src/Cpu/Blocks/Correct.antt =====
-- riscv-vm/src/cpu/core.rs, execution.rs: a block does what the interpreter does.
use bavy.Prelude.{
  ℕ, ◌+◌, ◌%◌, ◌^◌, ◌≡◌, refl, ap, ◌∙◌, arith, inl, inr, Bool, true, ok, err, Result, Option, some,
  none, List, [], ◌∷◌,
}
use bavy.Cpu.Types.{Trap}
use bavy.Cpu.State.{Cpu}
use bavy.Cpu.Trap.{handle_trap}
use bavy.Bus.{Bus}
use bavy.Engine.Block.Transcode.{transcode}
use bavy.Cpu.Execute.Monad.{bind, after}
use bavy.Cpu.Execute.Step.{execute}
use bavy.Cpu.Blocks.Micro.{BlockExecResult, continue, trap, exit, execute_micro_op}
use bavy.Cpu.Blocks.Exec.{execute_ops, returned, execute_block_inner}
use bavy.Engine.Block.{Block}
use bavy.Cpu.Blocks.Compiled.{IsCompiled}
use bavy.Cpu.Blocks.Offsets.{decode-HasEvenOffset}
use bavy.Cpu.Blocks.Agree.{IsZeroed, StepAgrees, is_implemented, unreserved, unreserved_state}
use bavy.Cpu.Blocks.Step.{HasEvenOffset, execute_micro_op-transcode}
use bavy.Cpu.Blocks.Reference.{
  Insn, AllFetched, total_len, transcode_all, IsStraight, interpret, BlockAgrees,
}

-- What the theorem asks of an instruction.
record Runs (i : Insn) : Type 0 where
  implemented : is_implemented i.decoded ≡ true
  offset : HasEvenOffset i.decoded
  even : i.insn_len % 2 ≡ 0

abbrev AllRun : List Insn → Type 0
AllRun [] = Unit
AllRun (i ∷ is) = Runs i × AllRun is

abbrev pub AllImplemented : List Insn → Type 0
AllImplemented [] = Unit
AllImplemented (i ∷ is) = (is_implemented i.decoded ≡ true) × AllImplemented is

module _ (bus : Bus) (handle_sbi_call : Cpu → bus.State → Cpu × bus.State × Bool) where
  -- One more instruction before a block that agrees.
  BlockAgrees-cons :
      (i : Insn) (is : List Insn) (pc next : ℕ) (c c' : Cpu) (m m' : bus.State)
      → execute bus handle_sbi_call pc i.raw i.insn_len i.decoded c m ≡ (c', m', ok next)
      → (r : Cpu × bus.State × BlockExecResult) → BlockAgrees bus handle_sbi_call is next c' m' r
      → BlockAgrees bus handle_sbi_call (i ∷ is) pc c m r
  unfolding interpret bind
  BlockAgrees-cons i is pc next c c' m m' e (d, n, continue p) h = rw e h
  BlockAgrees-cons i is pc next c c' m m' e (d, n, trap t p) h = rw e h
  BlockAgrees-cons i is pc next c c' m m' e (d, n, exit p) h = record {
    done = i ∷ h.done;
    insn = h.insn;
    rest = h.rest;
    split = ap (λ xs. i ∷ xs) h.split;
    ran = rw e h.ran;
    left = h.left;
  }

  -- What ends with a trap ends the run of the interpreter.
  after_trap :
      (is : List Insn) (d : Cpu) (n : bus.State) (t : Trap) (x : Cpu × bus.State × Result ℕ Trap)
      → unreserved_state bus x ≡ (d, n, err t)
      → unreserved_state bus (after bus (interpret bus handle_sbi_call is) x) ≡ (d, n, err t)
  after_trap is d n t (c, m, ok v) h = absurd (ground (arith, h))
  after_trap is d n t (c, m, err t') h = h

  module _ (base_pc after_pc : ℕ) where
    abbrev at_offset : ℕ → ℕ
    at_offset pc_offset = (base_pc + pc_offset) % 2 ^ 64

    execute_ops-agrees :
        (insns : List Insn) (pc_offset : ℕ) (c : Cpu) (m : bus.State)
        → AllRun insns
        → IsStraight pc_offset insns
        → at_offset pc_offset % 2 ≡ 0
        → after_pc ≡ at_offset (pc_offset + total_len insns)
        → IsZeroed c
        → BlockAgrees bus handle_sbi_call insns
            (at_offset pc_offset)
            c
            m
            (execute_ops bus base_pc after_pc (transcode_all pc_offset insns) c m)
    unfolding transcode_all execute_ops returned interpret bind
    execute_ops-agrees [] pc_offset c m run straight even last zeroed =
        let same : at_offset pc_offset ≡ after_pc = omega (arith, last) in
        ap (λ v. (c, m, ok v)) same
    execute_ops-agrees (i ∷ is) pc_offset c m run straight even last zeroed =
        go (execute_micro_op bus base_pc (transcode i.decoded pc_offset i.insn_len) c m)
          (execute_micro_op-transcode bus handle_sbi_call base_pc pc_offset i.raw i.insn_len c m
            zeroed i.decoded run.0.implemented run.0.offset even)
          (execute_ops-agrees is (pc_offset + i.insn_len))
      where
        next : ℕ
        next = (at_offset pc_offset + i.insn_len) % 2 ^ 64

        go :
            (y : Cpu × bus.State × Option BlockExecResult)
            → StepAgrees bus i.decoded
                (transcode i.decoded pc_offset i.insn_len)
                (at_offset pc_offset)
                next
                c
                m
                y
                (execute bus handle_sbi_call (at_offset pc_offset) i.raw i.insn_len i.decoded c m)
            → ((c' : Cpu) (m' : bus.State)
                → AllRun is
                → IsStraight (pc_offset + i.insn_len) is
                → at_offset (pc_offset + i.insn_len) % 2 ≡ 0
                → after_pc ≡ at_offset (pc_offset + i.insn_len + total_len is)
                → IsZeroed c'
                → BlockAgrees bus handle_sbi_call is (at_offset (pc_offset + i.insn_len)) c' m' (
                    execute_ops bus base_pc after_pc
                      (transcode_all (pc_offset + i.insn_len) is)
                      c'
                      m'))
            → BlockAgrees bus handle_sbi_call (i ∷ is) (at_offset pc_offset) c m (
                returned bus
                  (execute_ops bus base_pc after_pc (transcode_all (pc_offset + i.insn_len) is))
                  y)
        go (c', m', none) (e, zeroed') ih =
            let same : next ≡ at_offset (pc_offset + i.insn_len) = omega arith in
            BlockAgrees-cons i is (at_offset pc_offset) (at_offset (pc_offset + i.insn_len)) c c' m
              m' (e ∙ ap (λ v. (c', m', ok v)) same)
              (execute_ops bus base_pc after_pc (transcode_all (pc_offset + i.insn_len) is) c' m')
              (ih c' m' run.1 straight.1 (omega (arith, even, run.0.even)) (omega (arith, last))
                zeroed')
        go (c', m', some (continue n)) (e, ends) ih = elim straight.0 [
          | inl empty ↦ rw (e, empty) refl
          | inr goes_on ↦ cc
        ]
        go (c', m', some (trap t p)) (e, _) ih =
            after_trap is (unreserved (handle_trap c' t p)) m' t
              (execute bus handle_sbi_call (at_offset pc_offset) i.raw i.insn_len i.decoded c m) e
        go (c', m', some (exit p)) (e, f, g, left) ih = record {
          done = [];
          insn = i;
          rest = is;
          split = refl;
          ran = rw (e, f, g) refl;
          left = left;
        }

  AllFetched-AllRun : (insns : List Insn) → AllFetched insns → AllImplemented insns → AllRun insns
  AllFetched-AllRun [] f h = tt
  AllFetched-AllRun (i ∷ is) f h = (
    record {
      implemented = h.0;
      offset = decode-HasEvenOffset i.raw i.decoded f.0.decodes;
      even = f.0.even;
    },
    AllFetched-AllRun is f.1 h.1,
  )

  -- A block that was compiled from instructions which the architecture has, run on a hart whose x0
  -- holds 0, does what the interpreter does on these instructions one after the other, from the
  -- block's address on. Where it continues, the hart, the memory and the next pc are the
  -- interpreter's after all of them. Where it ends with a trap, so does the interpreter, with the
  -- same memory and, after the trap is entered, the same hart but for its reservation. Where it
  -- exits, it stands in the interpreter's state before an instruction that is left to the
  -- interpreter.
  pub execute_block_inner-agrees :
      (block : Block) (insns : List Insn) (c : Cpu) (m : bus.State)
      → IsCompiled block insns
      → AllImplemented insns
      → IsZeroed c
      → BlockAgrees bus handle_sbi_call insns
          (block.start_pc % 2 ^ 64)
          c
          m
          (execute_block_inner bus block c m)
  unfolding execute_block_inner
  execute_block_inner-agrees block insns c m compiled implemented zeroed =
      let last : (block.start_pc + block.byte_len) % 2 ^ 64
          ≡ (block.start_pc + (0 + total_len insns)) % 2 ^ 64 =
        omega (arith, compiled.bytes) in
      let start : (block.start_pc + 0) % 2 ^ 64 ≡ block.start_pc % 2 ^ 64 = omega arith in
      rw (← start, compiled.ops)
        (execute_ops-agrees block.start_pc ((block.start_pc + block.byte_len) % 2 ^ 64) insns 0 c m
          (AllFetched-AllRun insns compiled.fetched implemented) compiled.straight
          (omega (arith, compiled.even)) last zeroed)
