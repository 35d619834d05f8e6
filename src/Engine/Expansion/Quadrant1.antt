-- ===== src/Engine/Expansion/Quadrant1.antt =====
-- riscv-vm/src/engine/decoder.rs: `expand_q1`, against the manual's table.
use bavy.Prelude.{ℕ, ◌+◌, ◌*◌, ◌/◌, ◌%◌, ◌^◌, ◌<◌, ◌≡◌, ◌≢◌, arith, bit_and, ◌==◌, ok, and_then}
use bavy.Prelude.Bits.{◌>>>◌, ◌<<<◌, bit_and_mask, bit_or-low}
use bavy.Engine.Decoder.{decode, op_imm, lui, jal, branch, op_imm32}
use bavy.Engine.Compressed.{expand_q1, expand_lui, expand_alu, expand_register}
use bavy.Engine.Encode.{encode_i, encode_u, encode_j, encode_b, sext}
use bavy.Engine.Encode.Words.{sign_extend32, sext_6, sext_9, sext_10, sext_12}
use bavy.Engine.Decoder.Fields.{field, sign_extend}
use bavy.Engine.Expansion.{
  meaning_q1, meaning_lui, meaning_alu, meaning_register, short, six, nzimm_16, offset_j, offset_b,
}
use bavy.Engine.Expansion.Operands.{
  part, prime_lem, imm_bits_lem, addi16sp_imm_lem, jump_offset_lem, branch_offset_lem,
}
use bavy.Engine.Expansion.Encoded.{
  read_op_imm, read_op_imm32, read_lui, read_jal, read_branch, read_op, read_op32,
}

module _ (insn : ℕ) where
  rd_part : bit_and (insn >>> 7) 0x1F ≡ field 7 5 insn
  rd_part = part insn 7 5

  rd_fits : field 7 5 insn < 2 ^ 5
  rd_fits = omega arith

  short_fits : (lo : ℕ) → short lo insn < 2 ^ 5
  short_fits lo = omega arith

  expand_register_lem :
      and_then (expand_register insn) decode
      ≡ meaning_register insn (field 12 1 insn) (field 5 2 insn)
  unfolding expand_register meaning_register and_then
  expand_register_lem =
      let rs1 = short 7 insn in
      let rs2 = short 2 insn in
      let s = short_fits 7 in
      let t = short_fits 2 in
      rw (prime_lem insn 7, prime_lem insn 2, part insn 12 1, part insn 5 2)
        (ground (
          arith,
          read_op 0x20 rs2 rs1 0 rs1 (omega arith) t s (omega arith) s,
          read_op 0 rs2 rs1 4 rs1 (omega arith) t s (omega arith) s,
          read_op 0 rs2 rs1 6 rs1 (omega arith) t s (omega arith) s,
          read_op 0 rs2 rs1 7 rs1 (omega arith) t s (omega arith) s,
          read_op32 0x20 rs2 rs1 0 rs1 (omega arith) t s (omega arith) s,
          read_op32 0 rs2 rs1 0 rs1 (omega arith) t s (omega arith) s,
        ))

  -- ADDI, ADDIW and ANDI with a six-bit immediate.
  signed_op_imm :
      (rd rs1 funct3 : ℕ)
      → rd < 2 ^ 5
      → rs1 < 2 ^ 5
      → funct3 < 2 ^ 3
      → decode (encode_i (sext (six insn) 6) rs1 funct3 rd 0x13)
        ≡ ok (
            op_imm rd rs1
              (sign_extend 6 (six insn))
              funct3
              (sign_extend 6 (six insn) % 2 ^ 12 / 2 ^ 5))
  signed_op_imm rd rs1 funct3 d s c =
      rw (sext_6 (six insn) (omega arith))
        (ground (arith, read_op_imm (sign_extend32 6 (six insn)) rs1 funct3 rd s c d))

  signed_op_imm32 :
      (rd : ℕ)
      → rd < 2 ^ 5
      → decode (encode_i (sext (six insn) 6) rd 0 rd 0x1B)
        ≡ ok (
            op_imm32 rd rd (sign_extend 6 (six insn)) 0 (sign_extend 6 (six insn) % 2 ^ 12 / 2 ^ 5))
  signed_op_imm32 rd d =
      rw (sext_6 (six insn) (omega arith))
        (ground (arith, read_op_imm32 (sign_extend32 6 (six insn)) rd 0 rd d (omega arith) d))

  stack_step :
      decode (encode_i (sext (nzimm_16 insn) 10) 2 0 2 0x13)
      ≡ ok (
          op_imm 2 2
            (sign_extend 10 (nzimm_16 insn))
            0
            (sign_extend 10 (nzimm_16 insn) % 2 ^ 12 / 2 ^ 5))
  stack_step = rw (sext_10 (nzimm_16 insn) (omega arith)) (
      ground (
        arith,
        read_op_imm (sign_extend32 10 (nzimm_16 insn)) 2 0 2 (omega arith) (omega arith)
            (omega arith),
      ))

  upper :
      (rd : ℕ)
      → rd < 2 ^ 5
      → decode (encode_u ((sext (six insn) 6 <<< 12) % 2 ^ 32) rd 0x37)
        ≡ ok (lui rd (sign_extend 18 (six insn * 2 ^ 12)))
  upper rd d =
      rw (sext_6 (six insn) (omega arith)) (
        ground
          (arith, read_lui ((sign_extend32 6 (six insn) * 2 ^ 12) % 2 ^ 32) rd (omega arith) d))

  expand_lui_lem : and_then (expand_lui insn) decode ≡ meaning_lui insn (field 7 5 insn)
  unfolding expand_lui meaning_lui and_then
  expand_lui_lem =
      rw (rd_part, imm_bits_lem insn, addi16sp_imm_lem insn)
        (ground (arith, stack_step, upper (field 7 5 insn) rd_fits))

  -- C.SRAI's shift amount stands under bit 11 of the immediate, where the manual has bit 10.
  pub srai_lem :
      field 10 2 insn ≡ 1
      → and_then (expand_alu insn) decode
        ≡ ok (
            op_imm
              (short 7 insn)
              (short 7 insn)
              (sign_extend 12 (2 ^ 11 + six insn))
              5
              ((2 ^ 11 + six insn) / 2 ^ 5))
  unfolding expand_alu and_then
  srai_lem code =
      let s = short_fits 7 in
      let whole : six insn % 2 ^ 6 ≡ six insn = omega arith in
      rw
        (
          prime_lem insn 7,
          part insn 10 2,
          imm_bits_lem insn,
          bit_and_mask 6 (six insn),
          whole,
          code,
          bit_or-low 11 (2 ^ 11) (six insn) (omega arith) (omega arith),
        )
        (ground (
          arith,
          read_op_imm (2 ^ 11 + six insn) (short 7 insn) 5 (short 7 insn) s (omega arith) s,
        ))

  expand_alu_lem :
      field 10 2 insn ≢ 1 → and_then (expand_alu insn) decode ≡ meaning_alu insn (field 10 2 insn)
  unfolding expand_alu meaning_alu and_then
  expand_alu_lem other =
      let s = short_fits 7 in
      let whole : six insn % 2 ^ 6 ≡ six insn = omega arith in
      rw (prime_lem insn 7, part insn 10 2, imm_bits_lem insn, bit_and_mask 6 (six insn), whole)
        (ground (
          arith,
          expand_register_lem,
          read_op_imm (six insn) (short 7 insn) 5 (short 7 insn) s (omega arith) s,
          signed_op_imm (short 7 insn) (short 7 insn) 7 s s (omega arith),
        ))

  jump : decode (encode_j (sext (offset_j insn) 12) 0) ≡ ok (jal 0 (sign_extend 12 (offset_j insn)))
  jump =
      rw (sext_12 (offset_j insn) (omega arith))
        (ground (arith, read_jal (sign_extend32 12 (offset_j insn)) 0 (ground arith) (omega arith)))

  compare_zero :
      (funct3 : ℕ)
      → funct3 < 2 ^ 3
      → decode (encode_b (sext (offset_b insn) 9) 0 (short 7 insn) funct3 0x63)
        ≡ ok (branch (short 7 insn) 0 (sign_extend 9 (offset_b insn)) funct3)
  compare_zero funct3 c =
      let s = short_fits 7 in
      rw (sext_9 (offset_b insn) (omega arith)) (
        ground (
          arith,
          read_branch (sign_extend32 9 (offset_b insn)) 0 (short 7 insn) funct3 (omega arith) s c,
        ))

  nop : decode (encode_i 0 0 0 0 0x13) ≡ ok (op_imm 0 0 0 0 0)
  nop = read_op_imm 0 0 0 0 (omega arith) (omega arith) (omega arith)

  zero_six : (sext (six insn) 6 == 0) ≡ (six insn == 0)
  zero_six = rw (sext_6 (six insn) (omega arith)) (ground arith)

  pub expand_q1_lem :
      (funct3 : ℕ)
      → (funct3 ≡ 4 → field 10 2 insn ≢ 1)
      → and_then (expand_q1 insn funct3) decode ≡ meaning_q1 insn funct3
  unfolding expand_q1 meaning_q1 and_then
  expand_q1_lem funct3 other =
      let rd = field 7 5 insn in
      rw
        (
          prime_lem insn 7,
          rd_part,
          imm_bits_lem insn,
          jump_offset_lem insn,
          branch_offset_lem insn,
          zero_six,
        )
        (ground (
          arith,
          nop,
          signed_op_imm rd rd 0 rd_fits rd_fits (omega arith),
          signed_op_imm32 rd rd_fits,
          signed_op_imm rd 0 0 rd_fits (omega arith) (omega arith),
          expand_lui_lem,
          expand_alu_lem,
          jump,
          compare_zero 0 (omega arith),
          compare_zero 1 (omega arith),
        ))
