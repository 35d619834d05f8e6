-- ===== src/Engine/Encode/Words.antt =====
-- riscv-vm/src/engine/decoder.rs: each encoder puts its operands into the fields of its format.
use bavy.Prelude.{
  ℕ, ◌+◌, ◌-◌, ◌*◌, ◌/◌, ◌%◌, ◌^◌, ◌<◌, ◌≡◌, refl, ◌∙◌, arith, bit_and, ltb, if◌then◌else◌,
}
use bavy.Prelude.Bits.{◌>>>◌, bit_and_mask, bit_or-gap, bit_or-low}
use bavy.Engine.Decoder.{asr32}
use bavy.Engine.Encode.{encode_i, encode_u, encode_r, encode_s, encode_j, encode_b, sext}
use bavy.Engine.Decoder.Assemble.{Fields, IsFields, assemble}

pub encode_r_lem :
    (f : Fields) → IsFields f → encode_r f.funct7 f.rs2 f.rs1 f.funct3 f.rd f.opcode ≡ assemble f
unfolding encode_r
encode_r_lem f h =
    let w1 = f.funct7 * 2 ^ 25 in
    let w2 = w1 + f.rs2 * 2 ^ 20 in
    let w3 = w2 + f.rs1 * 2 ^ 15 in
    let w4 = w3 + f.funct3 * 2 ^ 12 in
    let w5 = w4 + f.rd * 2 ^ 7 in
    rw
      (
        bit_or-gap 20 5 w1 f.rs2 (omega (arith, h.rs2)) h.rs2,
        bit_or-gap 15 5 w2 f.rs1 (omega (arith, h.rs2)) h.rs1,
        bit_or-gap 12 3 w3 f.funct3 (omega (arith, h.rs1)) h.funct3,
        bit_or-gap 7 5 w4 f.rd (omega (arith, h.funct3)) h.rd,
        bit_or-low 7 w5 f.opcode (omega (arith, h.rd)) h.opcode,
      )
      refl

module _ (imm rs1 funct3 rd opcode : ℕ) (s : rs1 < 2 ^ 5) (c : funct3 < 2 ^ 3) (d : rd < 2 ^ 5)
    (o : opcode < 2 ^ 7) where
  abbrev pub fields_i : Fields
  fields_i = record {
    opcode = opcode;
    rd = rd;
    funct3 = funct3;
    rs1 = rs1;
    rs2 = imm % 2 ^ 5;
    funct7 = imm % 2 ^ 12 / 2 ^ 5;
  }

  pub fields_i-IsFields : IsFields fields_i
  fields_i-IsFields = record {
    opcode = o;
    rd = d;
    funct3 = c;
    rs1 = s;
    rs2 = omega arith;
    funct7 = omega arith;
  }

  pub encode_i_lem : encode_i imm rs1 funct3 rd opcode ≡ assemble fields_i
  unfolding encode_i
  encode_i_lem =
      let w1 = imm % 2 ^ 12 * 2 ^ 20 in
      let w2 = w1 + rs1 * 2 ^ 15 in
      let w3 = w2 + funct3 * 2 ^ 12 in
      let w4 = w3 + rd * 2 ^ 7 in
      rw
        (
          bit_and_mask 12 imm,
          bit_or-gap 15 5 w1 rs1 (omega arith) s,
          bit_or-gap 12 3 w2 funct3 (omega arith) c,
          bit_or-gap 7 5 w3 rd (omega arith) d,
          bit_or-low 7 w4 opcode (omega arith) o,
        )
        (omega arith)

module _ (imm rs2 rs1 funct3 opcode : ℕ) (t : rs2 < 2 ^ 5) (s : rs1 < 2 ^ 5) (c : funct3 < 2 ^ 3)
    (o : opcode < 2 ^ 7) where
  abbrev pub fields_s : Fields
  fields_s = record {
    opcode = opcode;
    rd = imm % 2 ^ 5;
    funct3 = funct3;
    rs1 = rs1;
    rs2 = rs2;
    funct7 = imm % 2 ^ 12 / 2 ^ 5;
  }

  pub fields_s-IsFields : IsFields fields_s
  fields_s-IsFields = record {
    opcode = o;
    rd = omega arith;
    funct3 = c;
    rs1 = s;
    rs2 = t;
    funct7 = omega arith;
  }

  pub encode_s_lem : encode_s imm rs2 rs1 funct3 opcode ≡ assemble fields_s
  unfolding encode_s encode_r
  encode_s_lem =
      let high : (imm % 2 ^ 12) / 2 ^ 5 % 2 ^ 7 ≡ imm % 2 ^ 12 / 2 ^ 5 = omega arith in
      let low : imm % 2 ^ 12 % 2 ^ 5 ≡ imm % 2 ^ 5 = omega arith in
      rw
        (
          bit_and_mask 12 imm,
          bit_and_mask 7 ((imm % 2 ^ 12) >>> 5),
          bit_and_mask 5 (imm % 2 ^ 12),
          high,
          low,
        )
        (encode_r_lem fields_s fields_s-IsFields)

  abbrev pub fields_b : Fields
  fields_b = record {
    opcode = opcode;
    rd = imm / 2 % 2 ^ 4 * 2 + imm / 2 ^ 11 % 2;
    funct3 = funct3;
    rs1 = rs1;
    rs2 = rs2;
    funct7 = imm / 2 ^ 12 % 2 * 2 ^ 6 + imm / 2 ^ 5 % 2 ^ 6;
  }

  pub fields_b-IsFields : IsFields fields_b
  fields_b-IsFields = record {
    opcode = o;
    rd = omega arith;
    funct3 = c;
    rs1 = s;
    rs2 = t;
    funct7 = omega arith;
  }

  pub encode_b_lem : encode_b imm rs2 rs1 funct3 opcode ≡ assemble fields_b
  unfolding encode_b
  encode_b_lem =
      let imm13 = imm % 2 ^ 13 in
      let w1 = imm13 / 2 ^ 12 % 2 ^ 1 * 2 ^ 31 in
      let w2 = w1 + imm13 / 2 ^ 5 % 2 ^ 6 * 2 ^ 25 in
      let w3 = w2 + rs2 * 2 ^ 20 in
      let w4 = w3 + rs1 * 2 ^ 15 in
      let w5 = w4 + funct3 * 2 ^ 12 in
      let w6 = w5 + imm13 / 2 ^ 1 % 2 ^ 4 * 2 ^ 8 in
      let w7 = w6 + imm13 / 2 ^ 11 % 2 ^ 1 * 2 ^ 7 in
      rw
        (
          bit_and_mask 13 imm,
          bit_and_mask 1 (imm13 >>> 12),
          bit_and_mask 6 (imm13 >>> 5),
          bit_and_mask 4 (imm13 >>> 1),
          bit_and_mask 1 (imm13 >>> 11),
          bit_or-gap 25 6 w1 (imm13 / 2 ^ 5 % 2 ^ 6) (omega arith) (omega arith),
          bit_or-gap 20 5 w2 rs2 (omega arith) t,
          bit_or-gap 15 5 w3 rs1 (omega arith) s,
          bit_or-gap 12 3 w4 funct3 (omega arith) c,
          bit_or-gap 8 4 w5 (imm13 / 2 ^ 1 % 2 ^ 4) (omega arith) (omega arith),
          bit_or-gap 7 1 w6 (imm13 / 2 ^ 11 % 2 ^ 1) (omega arith) (omega arith),
          bit_or-low 7 w7 opcode (omega arith) o,
        )
        (omega arith)

module _ (imm rd : ℕ) (fits : imm < 2 ^ 32) (d : rd < 2 ^ 5) where
  abbrev pub fields_u : ℕ → Fields
  fields_u opcode = record {
    opcode = opcode;
    rd = rd;
    funct3 = imm / 2 ^ 12 % 2 ^ 3;
    rs1 = imm / 2 ^ 15 % 2 ^ 5;
    rs2 = imm / 2 ^ 20 % 2 ^ 5;
    funct7 = imm / 2 ^ 25;
  }

  pub fields_u-IsFields : (opcode : ℕ) → opcode < 2 ^ 7 → IsFields (fields_u opcode)
  fields_u-IsFields opcode o = record {
    opcode = o;
    rd = d;
    funct3 = omega arith;
    rs1 = omega arith;
    rs2 = omega arith;
    funct7 = omega arith;
  }

  pub encode_u_lem :
      (opcode : ℕ) → opcode < 2 ^ 7 → encode_u imm rd opcode ≡ assemble (fields_u opcode)
  unfolding encode_u
  encode_u_lem opcode o =
      let w1 = imm / 2 ^ 12 % 2 ^ 20 * 2 ^ 12 in
      rw
        (
          bit_and_mask 20 (imm >>> 12),
          bit_or-gap 7 5 w1 rd (omega arith) d,
          bit_or-low 7 (w1 + rd * 2 ^ 7) opcode (omega arith) o,
        )
        (omega arith)

  abbrev pub fields_j : Fields
  fields_j = record {
    opcode = 0x6F;
    rd = rd;
    funct3 = imm / 2 ^ 12 % 2 ^ 3;
    rs1 = imm / 2 ^ 15 % 2 ^ 5;
    rs2 = imm / 2 % 2 ^ 4 * 2 + imm / 2 ^ 11 % 2;
    funct7 = imm / 2 ^ 20 % 2 * 2 ^ 6 + imm / 2 ^ 5 % 2 ^ 6;
  }

  pub fields_j-IsFields : IsFields fields_j
  fields_j-IsFields = record {
    opcode = omega arith;
    rd = d;
    funct3 = omega arith;
    rs1 = omega arith;
    rs2 = omega arith;
    funct7 = omega arith;
  }

  -- An arithmetic shift and a mask take the bits of the pattern.
  shifted_20 : bit_and (asr32 imm 20) (2 ^ 1 - 1) ≡ imm / 2 ^ 20 % 2 ^ 1
  unfolding asr32
  shifted_20 = bit_and_mask 1 (asr32 imm 20) ∙ ground arith

  shifted_12 : bit_and (asr32 imm 12) (2 ^ 8 - 1) ≡ imm / 2 ^ 12 % 2 ^ 8
  unfolding asr32
  shifted_12 = bit_and_mask 8 (asr32 imm 12) ∙ ground arith

  shifted_11 : bit_and (asr32 imm 11) (2 ^ 1 - 1) ≡ imm / 2 ^ 11 % 2 ^ 1
  unfolding asr32
  shifted_11 = bit_and_mask 1 (asr32 imm 11) ∙ ground arith

  shifted_1 : bit_and (asr32 imm 1) (2 ^ 10 - 1) ≡ imm / 2 ^ 1 % 2 ^ 10
  unfolding asr32
  shifted_1 = bit_and_mask 10 (asr32 imm 1) ∙ ground arith

  pub encode_j_lem : encode_j imm rd ≡ assemble fields_j
  unfolding encode_j
  encode_j_lem =
      let w1 = imm / 2 ^ 20 % 2 ^ 1 * 2 ^ 31 in
      let w2 = w1 + imm / 2 ^ 12 % 2 ^ 8 * 2 ^ 12 in
      let w3 = w2 + imm / 2 ^ 11 % 2 ^ 1 * 2 ^ 20 in
      let w4 = w3 + imm / 2 ^ 1 % 2 ^ 10 * 2 ^ 21 in
      let w5 = w4 + rd * 2 ^ 7 in
      rw
        (
          shifted_20,
          shifted_1,
          shifted_11,
          shifted_12,
          bit_or-gap 12 8 w1 (imm / 2 ^ 12 % 2 ^ 8) (omega arith) (omega arith),
          bit_or-gap 20 1 w2 (imm / 2 ^ 11 % 2 ^ 1) (omega arith) (omega arith),
          bit_or-gap 21 10 w3 (imm / 2 ^ 1 % 2 ^ 10) (omega arith) (omega arith),
          bit_or-gap 7 5 w4 rd (omega arith) d,
          bit_or-low 7 w5 0x6F (omega arith) (omega arith),
        )
        (omega arith)

-- The sign extension to 32 bits of a number of 6, 9, 10 or 12 bits.
abbrev pub sign_extend32 : ℕ → ℕ → ℕ
sign_extend32 w v = if ltb v (2 ^ (w - 1)) then v else v + 2 ^ 32 - 2 ^ w

pub sext_6 : (v : ℕ) → v < 2 ^ 6 → sext v 6 ≡ sign_extend32 6 v
unfolding sext asr32
sext_6 v fits = ground arith

pub sext_9 : (v : ℕ) → v < 2 ^ 9 → sext v 9 ≡ sign_extend32 9 v
unfolding sext asr32
sext_9 v fits = ground arith

pub sext_10 : (v : ℕ) → v < 2 ^ 10 → sext v 10 ≡ sign_extend32 10 v
unfolding sext asr32
sext_10 v fits = ground arith

pub sext_12 : (v : ℕ) → v < 2 ^ 12 → sext v 12 ≡ sign_extend32 12 v
unfolding sext asr32
sext_12 v fits = ground arith
