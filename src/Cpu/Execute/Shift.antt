-- ===== src/Cpu/Execute/Shift.antt =====
-- riscv-vm/src/engine/decoder.rs, cpu/execution.rs: what becomes of C.SRAI.
use bavy.Prelude.{ℕ, ◌+◌, ◌/◌, ◌^◌, ◌≡◌, ◌∙◌, arith, bit_and, some, ok, and_then}
use bavy.Prelude.Bits.{◌>>>◌, bit, bit_and_mask, bit_and-pow_test, bit-eq-shr}
use bavy.Engine.Decoder.{op_imm, decode}
use bavy.Engine.Decoder.Fields.{sign_extend}
use bavy.Engine.Compressed.{expand_compressed}
use bavy.Engine.Expansion.{short, six}
use bavy.Engine.Expansion.Table.{IsSrai, decode-expand_compressed_srai}
use bavy.Cpu.Execute.Alu.{op_imm_result}

-- The immediate and funct7 that the decoder reads in an expanded C.SRAI.
abbrev pub srai_imm : ℕ → ℕ
srai_imm insn = sign_extend 12 (2 ^ 11 + six insn)

abbrev pub srai_funct7 : ℕ → ℕ
srai_funct7 insn = (2 ^ 11 + six insn) / 2 ^ 5

-- C.SRAI shifts logically: it is expanded and decoded to a register-immediate operation that puts
-- the register, shifted right with zeros by the instruction's shift amount, where the manual has the sign.
pub op_imm_result-expand_compressed :
    (insn val : ℕ)
    → IsSrai insn
    → (and_then (expand_compressed insn) decode
        ≡ ok (op_imm (short 7 insn) (short 7 insn) (srai_imm insn) 5 (srai_funct7 insn)))
      × (op_imm_result 5 (srai_funct7 insn) val (srai_imm insn) ≡ some (val >>> six insn))
unfolding op_imm_result
op_imm_result-expand_compressed insn val h =
    let low : bit_and (srai_imm insn) 0x3F ≡ six insn =
      bit_and_mask 6 (srai_imm insn) ∙ ground arith in
    let clear : bit (srai_funct7 insn) 5 ≡ 0 = bit-eq-shr (srai_funct7 insn) 5 ∙ omega arith in
    (
      decode-expand_compressed_srai insn h,
      rw low (ground (arith, clear, bit_and-pow_test (srai_funct7 insn) 5)),
    )
