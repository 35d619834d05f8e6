-- ===== src/Engine/Decoder/Assemble.antt =====
-- riscv-vm/src/engine/decoder.rs: an instruction word put together from its fields, and what the
-- decoder makes of it.
use bavy.Prelude.{
  ℕ, ◌+◌, ◌-◌, ◌*◌, ◌/◌, ◌%◌, ◌^◌, ◌<◌, ◌≡◌, refl, ap, ◌∙◌, arith, bit_and, not, ◌==◌,
  if◌then◌else◌, Result, ok, err,
}
use mathlib.Core.Path.{subst}
use bavy.Prelude.Bits.{◌>>>◌, bit_and_mask}
use bavy.Engine.Decoder.{
  Op, lui, auipc, jal, jalr, branch, load, store, op_imm, op, op_imm32, op32, system, amo, fence,
  imm_i, imm_s, imm_b, imm_u, imm_j, from_u32, decode,
}
use bavy.Engine.Decoder.Fields.{
  field, sign_extend, imm_i_lem, imm_s_lem, imm_b_lem, imm_u_lem, imm_j_lem,
}
use bavy.Cpu.Types.{Trap, illegal_instruction}

-- The fields that all the formats share.
pub record Fields : Type 0 where
  pub opcode : ℕ
  pub rd : ℕ
  pub funct3 : ℕ
  pub rs1 : ℕ
  pub rs2 : ℕ
  pub funct7 : ℕ

pub record IsFields (f : Fields) : Type 0 where
  pub opcode : f.opcode < 2 ^ 7
  pub rd : f.rd < 2 ^ 5
  pub funct3 : f.funct3 < 2 ^ 3
  pub rs1 : f.rs1 < 2 ^ 5
  pub rs2 : f.rs2 < 2 ^ 5
  pub funct7 : f.funct7 < 2 ^ 7

abbrev pub assemble : Fields → ℕ
assemble f =
    f.funct7 * 2 ^ 25
    + f.rs2 * 2 ^ 20
    + f.rs1 * 2 ^ 15
    + f.funct3 * 2 ^ 12
    + f.rd * 2 ^ 7
    + f.opcode

-- The manual's immediate of each format.
abbrev pub value_i : Fields → ℕ
value_i f = sign_extend 12 (f.funct7 * 2 ^ 5 + f.rs2)

abbrev pub value_s : Fields → ℕ
value_s f = sign_extend 12 (f.funct7 * 2 ^ 5 + f.rd)

abbrev pub value_b : Fields → ℕ
value_b f =
    sign_extend 13
      (f.funct7 / 2 ^ 6 * 2 ^ 12 + f.rd % 2 * 2 ^ 11 + f.funct7 % 2 ^ 6 * 2 ^ 5 + f.rd / 2 * 2)

abbrev pub value_u : Fields → ℕ
value_u f = sign_extend 32 (f.funct7 * 2 ^ 25 + f.rs2 * 2 ^ 20 + f.rs1 * 2 ^ 15 + f.funct3 * 2 ^ 12)

abbrev pub value_j : Fields → ℕ
value_j f = sign_extend 21 (
    f.funct7 / 2 ^ 6 * 2 ^ 20
    + (f.rs1 * 2 ^ 3 + f.funct3) * 2 ^ 12
    + f.rs2 % 2 * 2 ^ 11
    + (f.funct7 % 2 ^ 6 * 2 ^ 4 + f.rs2 / 2) * 2)

-- The instruction that the fields stand for; a word of no known opcode is illegal.
unfoldable pub instruction_of : Fields → Result Op Trap
instruction_of f =
    if f.opcode == 0x37
    then ok (lui f.rd (value_u f))
    else if f.opcode == 0x17
    then ok (auipc f.rd (value_u f))
    else if f.opcode == 0x6F
    then ok (jal f.rd (value_j f))
    else if f.opcode == 0x67
    then ok (jalr f.rd f.rs1 (value_i f))
    else if f.opcode == 0x63
    then ok (branch f.rs1 f.rs2 (value_b f) f.funct3)
    else if f.opcode == 0x03
    then ok (load f.rd f.rs1 (value_i f) f.funct3)
    else if f.opcode == 0x23
    then ok (store f.rs1 f.rs2 (value_s f) f.funct3)
    else if f.opcode == 0x13
    then ok (op_imm f.rd f.rs1 (value_i f) f.funct3 f.funct7)
    else if f.opcode == 0x33
    then ok (op f.rd f.rs1 f.rs2 f.funct3 f.funct7)
    else if f.opcode == 0x1B
    then ok (op_imm32 f.rd f.rs1 (value_i f) f.funct3 f.funct7)
    else if f.opcode == 0x3B
    then ok (op32 f.rd f.rs1 f.rs2 f.funct3 f.funct7)
    else if f.opcode == 0x2F
    then ok
        (amo f.rd f.rs1 f.rs2 f.funct3 (f.funct7 / 4) (f.funct7 / 2 % 2 == 1) (f.funct7 % 2 == 1))
    else if f.opcode == 0x73
    then ok (system f.rd f.rs1 f.funct3 (f.funct7 * 2 ^ 5 + f.rs2))
    else if f.opcode == 0x0F
    then ok fence
    else err (illegal_instruction (assemble f))

module _ (f : Fields) (h : IsFields f) where
  assemble-lt : assemble f < 2 ^ 32
  assemble-lt = omega (arith, h.opcode, h.rd, h.funct3, h.rs1, h.rs2, h.funct7)

  imm_i-assemble : imm_i (assemble f) ≡ value_i f
  imm_i-assemble =
      let w = assemble f in
      let e : field 20 12 w ≡ f.funct7 * 2 ^ 5 + f.rs2 =
        omega (arith, h.opcode, h.rd, h.funct3, h.rs1, h.rs2, h.funct7) in
      imm_i_lem w assemble-lt ∙ ap (sign_extend 12) e

  imm_s-assemble : imm_s (assemble f) ≡ value_s f
  imm_s-assemble =
      let w = assemble f in
      let e : field 25 7 w * 2 ^ 5 + field 7 5 w ≡ f.funct7 * 2 ^ 5 + f.rd =
        omega (arith, h.opcode, h.rd, h.funct3, h.rs1, h.rs2, h.funct7) in
      imm_s_lem w assemble-lt ∙ ap (sign_extend 12) e

  imm_b-assemble : imm_b (assemble f) ≡ value_b f
  imm_b-assemble =
      let w = assemble f in
      let e : field 31 1 w * 2 ^ 12 + field 7 1 w * 2 ^ 11 + field 25 6 w * 2 ^ 5 + field 8 4 w * 2
          ≡ f.funct7 / 2 ^ 6 * 2 ^ 12
            + f.rd % 2 * 2 ^ 11
            + f.funct7 % 2 ^ 6 * 2 ^ 5
            + f.rd / 2 * 2 =
        omega (arith, h.opcode, h.rd, h.funct3, h.rs1, h.rs2, h.funct7) in
      imm_b_lem w ∙ ap (sign_extend 13) e

  imm_u-assemble : imm_u (assemble f) ≡ value_u f
  imm_u-assemble =
      let w = assemble f in
      let e : field 12 20 w * 2 ^ 12
          ≡ f.funct7 * 2 ^ 25 + f.rs2 * 2 ^ 20 + f.rs1 * 2 ^ 15 + f.funct3 * 2 ^ 12 =
        omega (arith, h.opcode, h.rd, h.funct3, h.rs1, h.rs2, h.funct7) in
      imm_u_lem w assemble-lt ∙ ap (sign_extend 32) e

  imm_j-assemble : imm_j (assemble f) ≡ value_j f
  imm_j-assemble =
      let w = assemble f in
      let e : field 31 1 w * 2 ^ 20
            + field 12 8 w * 2 ^ 12
            + field 20 1 w * 2 ^ 11
            + field 21 10 w * 2
          ≡ f.funct7 / 2 ^ 6 * 2 ^ 20
            + (f.rs1 * 2 ^ 3 + f.funct3) * 2 ^ 12
            + f.rs2 % 2 * 2 ^ 11
            + (f.funct7 % 2 ^ 6 * 2 ^ 4 + f.rs2 / 2) * 2 =
        omega (arith, h.opcode, h.rd, h.funct3, h.rs1, h.rs2, h.funct7) in
      imm_j_lem w ∙ ap (sign_extend 21) e

  part : (lo n v : ℕ) → field lo n (assemble f) ≡ v → bit_and (assemble f >>> lo) (2 ^ n - 1) ≡ v
  part lo n v e = bit_and_mask n (assemble f >>> lo) ∙ e

  opcode_part : bit_and (assemble f) 0x7F ≡ f.opcode
  opcode_part =
      bit_and_mask 7 (assemble f) ∙ omega (arith, h.opcode, h.rd, h.funct3, h.rs1, h.rs2, h.funct7)

  small_register : (v : ℕ) → v < 2 ^ 5 → from_u32 v ≡ v
  unfolding from_u32
  small_register v fits = bit_and_mask 5 v ∙ omega arith

  flag : (b : ℕ) → b < 2 → not (b == 0) ≡ (b == 1)
  flag b fits = ground arith

  pub decode-assemble : decode (assemble f) ≡ instruction_of f
  unfolding decode instruction_of
  decode-assemble =
      rw
        (
          imm_i-assemble,
          imm_s-assemble,
          imm_b-assemble,
          imm_u-assemble,
          imm_j-assemble,
          opcode_part,
          part 7 5 f.rd (omega (arith, h.opcode, h.rd, h.funct3, h.rs1, h.rs2, h.funct7)),
          part 12 3 f.funct3 (omega (arith, h.opcode, h.rd, h.funct3, h.rs1, h.rs2, h.funct7)),
          part 15 5 f.rs1 (omega (arith, h.opcode, h.rd, h.funct3, h.rs1, h.rs2, h.funct7)),
          part 20 5 f.rs2 (omega (arith, h.opcode, h.rd, h.funct3, h.rs1, h.rs2, h.funct7)),
          part 25 7 f.funct7 (omega (arith, h.opcode, h.rd, h.funct3, h.rs1, h.rs2, h.funct7)),
          part 27 5 (f.funct7 / 4)
              (omega (arith, h.opcode, h.rd, h.funct3, h.rs1, h.rs2, h.funct7)),
          part 26 1 (f.funct7 / 2 % 2)
              (omega (arith, h.opcode, h.rd, h.funct3, h.rs1, h.rs2, h.funct7)),
          part 25 1 (f.funct7 % 2)
              (omega (arith, h.opcode, h.rd, h.funct3, h.rs1, h.rs2, h.funct7)),
          part 20 12 (f.funct7 * 2 ^ 5 + f.rs2)
              (omega (arith, h.opcode, h.rd, h.funct3, h.rs1, h.rs2, h.funct7)),
          small_register f.rd h.rd,
          small_register f.rs1 h.rs1,
          small_register f.rs2 h.rs2,
          flag (f.funct7 / 2 % 2) (omega arith),
          flag (f.funct7 % 2) (omega arith),
        )
        refl

-- The fields of a word.
abbrev pub fields_of : ℕ → Fields
fields_of insn = record {
  opcode = field 0 7 insn;
  rd = field 7 5 insn;
  funct3 = field 12 3 insn;
  rs1 = field 15 5 insn;
  rs2 = field 20 5 insn;
  funct7 = field 25 7 insn;
}

-- On every 32-bit word, the decoder gives the instruction that the architecture's formats give for the word's
-- fields: register numbers, function codes, and the format's immediate, put together from its
-- parts and sign-extended to 64 bits; a word of no known opcode is an illegal instruction.
pub decode-fields_of : (insn : ℕ) → insn < 2 ^ 32 → decode insn ≡ instruction_of (fields_of insn)
decode-fields_of insn word =
    let f = fields_of insn in
    let whole : assemble f ≡ insn = omega arith in
    let small : IsFields f = record {
      opcode = omega arith;
      rd = omega arith;
      funct3 = omega arith;
      rs1 = omega arith;
      rs2 = omega arith;
      funct7 = omega arith;
    } in
    subst (λ w. decode w ≡ instruction_of f) whole (decode-assemble f small)
