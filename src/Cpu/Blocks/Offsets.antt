-- ===== src/Cpu/Blocks/Offsets.antt =====
-- riscv-vm/src/engine/decoder.rs: jumps and branches that the decoder gives have even offsets.
use bavy.Prelude.{ℕ, ◌≡◌, arith, ok}
use bavy.Engine.Decoder
use bavy.Engine.Decoder.{Op, decode, imm_b, imm_j}
use bavy.Engine.Decoder.Fields.{imm_b_even, imm_j_even}
use bavy.Cpu.Blocks.Step.{HasEvenOffset}

pub decode-HasEvenOffset :
    (insn : ℕ) (decoded : Op) → decode insn ≡ ok decoded → HasEvenOffset decoded
unfolding decode
decode-HasEvenOffset insn (Decoder.lui rd imm) h = tt
decode-HasEvenOffset insn (Decoder.jal rd imm) h = ground (arith, h, imm_j_even insn)
decode-HasEvenOffset insn (Decoder.branch rs1 rs2 imm funct3) h = ground (arith, h, imm_b_even insn)
decode-HasEvenOffset insn other h = tt
