-- ===== src/Engine/Expansion/Quadrant2.antt =====
-- riscv-vm/src/engine/decoder.rs: `expand_q2`, against the manual's table.
use bavy.Prelude.{ℕ, ◌%◌, ◌^◌, ◌<◌, ◌≡◌, refl, arith, bit_and, ok, and_then}
use bavy.Prelude.Bits.{bit_and_mask, ◌>>>◌}
use bavy.Engine.Decoder.{decode, system, from_u32}
use bavy.Engine.Compressed.{expand_q2, expand_jump}
use bavy.Engine.Decoder.Fields.{field}
use bavy.Engine.Expansion.{
  meaning_q2, meaning_jump, six, uimm_lwsp, uimm_ldsp, uimm_swsp, uimm_sdsp,
}
use bavy.Engine.Expansion.Operands.{
  part, imm_bits_lem, lwsp_imm_lem, ldsp_imm_lem, swsp_imm_lem, sdsp_imm_lem,
}
use bavy.Engine.Expansion.Encoded.{read_op_imm, read_load, read_store, read_jalr, read_op}

ebreak : decode 0x00100073 ≡ ok (system 0 0 0 1)
unfolding decode from_u32
ebreak = refl

module _ (insn : ℕ) where
  rd_lem : bit_and (insn >>> 7) 0x1F ≡ field 7 5 insn
  rd_lem = part insn 7 5

  expand_jump_lem :
      and_then (expand_jump insn) decode
      ≡ meaning_jump insn (field 12 1 insn) (field 2 5 insn) (field 7 5 insn)
  unfolding expand_jump meaning_jump and_then
  expand_jump_lem =
      let rd = field 7 5 insn in
      let rs2 = field 2 5 insn in
      let d : rd < 2 ^ 5 = omega arith in
      let t : rs2 < 2 ^ 5 = omega arith in
      rw (rd_lem, part insn 2 5, part insn 12 1)
        (ground (
          arith,
          ebreak,
          read_jalr 0 rd 0 0 d (omega arith) (omega arith),
          read_jalr 0 rd 0 1 d (omega arith) (omega arith),
          read_op 0 rs2 0 0 rd (omega arith) t (omega arith) (omega arith) d,
          read_op 0 rs2 rd 0 rd (omega arith) t d (omega arith) d,
        ))

  pub expand_q2_lem :
      (funct3 : ℕ) → and_then (expand_q2 insn funct3) decode ≡ meaning_q2 insn funct3
  unfolding expand_q2 meaning_q2 and_then
  expand_q2_lem funct3 =
      let rd = field 7 5 insn in
      let rs2 = field 2 5 insn in
      let d : rd < 2 ^ 5 = omega arith in
      let t : rs2 < 2 ^ 5 = omega arith in
      let whole : six insn % 2 ^ 6 ≡ six insn = omega arith in
      rw
        (
          imm_bits_lem insn,
          rd_lem,
          part insn 2 5,
          bit_and_mask 6 (six insn),
          whole,
          lwsp_imm_lem insn,
          ldsp_imm_lem insn,
          swsp_imm_lem insn,
          sdsp_imm_lem insn,
        )
        (ground (
          arith,
          expand_jump_lem,
          read_op_imm (six insn) rd 1 rd d (omega arith) d,
          read_load (uimm_lwsp insn) 2 2 rd (omega arith) (omega arith) d,
          read_load (uimm_ldsp insn) 2 3 rd (omega arith) (omega arith) d,
          read_store (uimm_swsp insn) rs2 2 2 t (omega arith) (omega arith),
          read_store (uimm_sdsp insn) rs2 2 3 t (omega arith) (omega arith),
        ))
