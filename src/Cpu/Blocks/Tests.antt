-- ===== src/Cpu/Blocks/Tests.antt =====
-- The theorems on blocks at concrete inputs.
use bavy.Prelude.{
  ℕ, Bool, ◌%◌, ◌^◌, ◌≡◌, refl, arith, none, replicate, get_or, true, false, ok, err, inl, inr,
  List, [], ◌∷◌,
}
use bavy.Bus.{Bus}
use bavy.Cpu.Types.{machine, illegal_instruction}
use bavy.Cpu.Csr
use bavy.Cpu.State.{Cpu}
use bavy.Cpu.Trap.{handle_trap}
use bavy.Mmu.Tlb
use bavy.Engine.Decoder
use bavy.Engine.Decoder.{decode, from_u32, imm_i, imm_j, extend32, asr32}
use bavy.Engine.Microop.{is_terminator}
use bavy.Engine.Block.{Block}
use bavy.Engine.Block.Transcode.{transcode, transcode_op_imm}
use bavy.Engine.Block.Compile.{compile}
use bavy.Engine.Cache
use bavy.Cpu.Execute.Step.{execute}
use bavy.Cpu.Blocks.Micro.{execute_micro_op}
use bavy.Cpu.Blocks.Exec.{execute_block_inner}
use bavy.Cpu.Blocks.Agree.{IsZeroed, is_implemented}
use bavy.Cpu.Blocks.Reference.{Insn, transcode_all, BlockAgrees}
use bavy.Cpu.Blocks.Compiled.{IsCompiled, Ends}
use bavy.Cpu.Blocks.Compiling.{compile-Ends, compile_start}
use bavy.Cpu.Blocks.Reads.{IsRead}
use bavy.Cpu.Blocks.Correct.{AllImplemented, execute_block_inner-agrees}
use bavy.Cpu.Blocks.Illegal.{execute-unimplemented}
use bavy.Cpu.Blocks.Range.{in_range, decode-in_range}
use bavy.Cpu.Blocks.Chain.{step}
use bavy.Cpu.Blocks.Stored.{IsStored, step-IsStored, step-IsFound}
use bavy.Engine.Cache.Found.{IsFound}

-- Memory that reads `addi x1, x0, 5`.
abbrev program : Bus
program = record {
  State = Unit {0};
  load = λ m addr size. (m, ok 0x00500093);
  store = λ m addr size value. (m, ok tt);
}

abbrev hart : Cpu
hart = record {
  regs = replicate 32 0;
  pc = 0x80000000;
  reservation = none;
  csrs = Csr.new;
  mode = machine;
  tlb = Tlb.new;
  poll_counter = 0;
  decode_cache = replicate 256 none;
}

hart-IsZeroed : IsZeroed hart
unfolding get_or replicate
hart-IsZeroed = refl

abbrev no_sbi : Cpu → Unit {0} → Cpu × Unit {0} × Bool
no_sbi c m = (c, m, false)

-- addi x1, x0, 5; jal x0, 8.
abbrev addi_jal : List Insn
addi_jal =
    record { raw = 0x00500093; insn_len = 4; decoded = Decoder.op_imm 1 0 5 0 0 }
    ∷ record { raw = 0x0080006F; insn_len = 4; decoded = Decoder.jal 0 8 }
    ∷ []

abbrev block : Block
block = record {
  start_pc = 0x80000000;
  start_pa = 0x80000000;
  byte_len = 8;
  ops = transcode_all 0 addi_jal;
  exec_count = 0;
  generation = 0;
  next_block_pc = none;
}

block-IsCompiled : IsCompiled block addi_jal
unfolding decode is_terminator transcode transcode_op_imm from_u32 imm_i imm_j extend32 asr32
block-IsCompiled = record {
  ops = refl;
  fetched = (
    record { decodes = refl; even = refl; short = omega arith },
    (record { decodes = refl; even = refl; short = omega arith }, tt),
  );
  straight = (inr refl, (inl refl, tt));
  bytes = refl;
  nonempty = omega arith;
  count = omega arith;
  even = refl;
}

addi_jal-AllImplemented : AllImplemented addi_jal
unfolding is_implemented
addi_jal-AllImplemented = (refl, (refl, tt))

execute_block_inner-agrees_example :
    BlockAgrees program no_sbi addi_jal
      (block.start_pc % 2 ^ 64)
      hart
      tt
      (execute_block_inner program block hart tt)
execute_block_inner-agrees_example =
    execute_block_inner-agrees program no_sbi block addi_jal hart tt block-IsCompiled
      addi_jal-AllImplemented hart-IsZeroed

compile-Ends_example :
    Ends
      (IsRead program 0x80000000
        ((compile_start program 0x80000000 hart tt).0)
        ((compile_start program 0x80000000 hart tt).1))
      0x80000000
      ((compile program 0x80000000 0 hart tt).2)
compile-Ends_example = compile-Ends program 0x80000000 0 hart tt

-- 0x00B2: a word of OP with funct7 2.
execute-unimplemented_example :
    (execute program no_sbi 0x80000000 0x04000033 4 (Decoder.op 0 0 0 0 2) hart tt ≡ (
      handle_trap hart (illegal_instruction 0x04000033) 0x80000000,
      tt,
      err (illegal_instruction 0x04000033),
    ))
    × (execute_micro_op program 0x80000000 (transcode (Decoder.op 0 0 0 0 2) 0 4) hart tt
        ≡ (hart, tt, none))
execute-unimplemented_example =
    execute-unimplemented program no_sbi 0x80000000 0 0x80000000 0x04000033 4 (Decoder.op 0 0 0 0 2)
      hart tt (unfold is_implemented in refl) refl

abbrev no_interrupts : ℕ → Unit {0} → Unit {0} × ℕ
no_interrupts hart_id m = (m, 0)

abbrev one_block : Cache.BlockCache
one_block = record {
  blocks = (0x80000000, block) ∷ [];
  generation = 0;
  hits = 0;
  misses = 0;
  invalidations = 0;
}

step-IsStored_example : IsStored ((step program no_sbi no_interrupts true hart one_block tt).1)
step-IsStored_example =
    step-IsStored program no_sbi no_interrupts true hart one_block tt
      ((refl, (addi_jal, block-IsCompiled)), tt)

step-IsFound_example :
    IsFound 0x80000000 block ((step program no_sbi no_interrupts true hart one_block tt).1)
unfolding Cache.find
step-IsFound_example =
    step-IsFound program no_sbi no_interrupts true hart one_block tt 0x80000000 block (omega arith)
      (0, refl, refl)

-- SLLI x1, x1, 32.
slli-decoded : decode 0x02009093 ≡ ok (Decoder.op_imm 1 1 32 1 1)
unfolding decode from_u32 imm_i extend32 asr32
slli-decoded = refl

decode-in_range_example : in_range (transcode (Decoder.op_imm 1 1 32 1 1) 0 4) ≡ true
decode-in_range_example = decode-in_range 0x02009093 0 4 (Decoder.op_imm 1 1 32 1 1) slli-decoded
