-- ===== src/Engine/Expansion/Table.antt =====
-- riscv-vm/src/engine/decoder.rs: `expand_compressed`, against the manual's tables.
use native.Mathlib.Decide.{ℕ_discrete}
use bavy.Prelude.{ℕ, ◌+◌, ◌/◌, ◌^◌, ◌≡◌, ◌∙◌, arith, bit_and, ok, and_then}
use bavy.Prelude.Bits.{bit_and_mask}
use bavy.Engine.Decoder.{op_imm, decode}
use bavy.Engine.Decoder.Fields.{field, sign_extend}
use bavy.Engine.Compressed.{expand_compressed, expand_q1}
use bavy.Engine.Expansion.{meaning, short, six}
use bavy.Engine.Expansion.Operands.{part}
use bavy.Engine.Expansion.Quadrant0.{expand_q0_lem}
use bavy.Engine.Expansion.Quadrant1.{expand_q1_lem, srai_lem}
use bavy.Engine.Expansion.Quadrant2.{expand_q2_lem}

-- C.SRAI: quadrant 1, funct3 100, bits 11 and 10 equal to 01.
pub record IsSrai (insn : ℕ) : Type 0 where
  pub quadrant : field 0 2 insn ≡ 1
  pub funct3 : field 13 3 insn ≡ 4
  pub operation : field 10 2 insn ≡ 1

-- Every 16-bit instruction but C.SRAI is expanded into a word that decodes to the instruction that
-- the manual's table gives for it, with the table's registers and immediate; where the table has
-- no instruction, a reserved code or a hint, both are an illegal instruction.
pub decode-expand_compressed :
    (insn : ℕ)
    → (IsSrai insn → ⊥)
    → and_then (expand_compressed insn) decode ≡ meaning insn (field 0 2 insn)
unfolding expand_compressed meaning and_then
decode-expand_compressed insn other =
    let low : bit_and insn 0x3 ≡ field 0 2 insn = bit_and_mask 2 insn ∙ omega arith in
    rw (low, part insn 13 3)
      (elim (ℕ_discrete (field 0 2 insn) 1) [
        | yes one ↦
            let rest =
              expand_q1_lem insn (field 13 3 insn)
                (λ alu srai. other (record { quadrant = one; funct3 = alu; operation = srai })) in
            ground (arith, rest)
        | no more ↦
            ground
              (arith, expand_q0_lem insn (field 13 3 insn), expand_q2_lem insn (field 13 3 insn))
      ])

-- C.SRAI is expanded into a word that decodes to a right shift whose funct7 is 1000000 or 1000001,
-- where the manual has 0100000 or 0100001.
pub decode-expand_compressed_srai :
    (insn : ℕ)
    → IsSrai insn
    → and_then (expand_compressed insn) decode
      ≡ ok (
          op_imm
            (short 7 insn)
            (short 7 insn)
            (sign_extend 12 (2 ^ 11 + six insn))
            5
            ((2 ^ 11 + six insn) / 2 ^ 5))
unfolding expand_compressed expand_q1
decode-expand_compressed_srai insn h =
    let low : bit_and insn 0x3 ≡ field 0 2 insn = bit_and_mask 2 insn ∙ omega arith in
    rw (low, part insn 13 3, h.quadrant, h.funct3) (srai_lem insn h.operation)
