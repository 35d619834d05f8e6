-- ===== src/Engine/Expansion/Encoded.antt =====
-- riscv-vm/src/engine/decoder.rs: what the decoder reads in the words that the expansion builds.
use bavy.Prelude.{ℕ, ◌+◌, ◌*◌, ◌/◌, ◌%◌, ◌^◌, ◌<◌, ◌≡◌, refl, ap, ◌∙◌, arith, ok}
use bavy.Engine.Decoder.{lui, jal, jalr, branch, load, store, op_imm, op, op_imm32, op32, decode}
use bavy.Engine.Decoder.Fields.{sign_extend}
use bavy.Engine.Decoder.Assemble.{Fields, IsFields, instruction_of, decode-assemble}
use bavy.Engine.Encode.{encode_i, encode_u, encode_r, encode_s, encode_j, encode_b}
use bavy.Engine.Encode.Words.{
  encode_i_lem, fields_i, fields_i-IsFields, encode_r_lem, encode_s_lem, fields_s,
  fields_s-IsFields, encode_u_lem, fields_u, fields_u-IsFields, encode_j_lem, fields_j,
  fields_j-IsFields, encode_b_lem, fields_b, fields_b-IsFields,
}

module _ (imm rs1 funct3 rd : ℕ) (s : rs1 < 2 ^ 5) (c : funct3 < 2 ^ 3) (d : rd < 2 ^ 5) where
  read_i :
      (opcode : ℕ)
      → (o : opcode < 2 ^ 7)
      → decode (encode_i imm rs1 funct3 rd opcode)
        ≡ instruction_of (fields_i imm rs1 funct3 rd opcode s c d o)
  read_i opcode o =
      ap decode (encode_i_lem imm rs1 funct3 rd opcode s c d o)
      ∙ decode-assemble (fields_i imm rs1 funct3 rd opcode s c d o)
          (fields_i-IsFields imm rs1 funct3 rd opcode s c d o)

  whole : imm % 2 ^ 12 / 2 ^ 5 * 2 ^ 5 + imm % 2 ^ 5 ≡ imm % 2 ^ 12
  whole = omega arith

  pub read_op_imm :
      decode (encode_i imm rs1 funct3 rd 0x13)
      ≡ ok (op_imm rd rs1 (sign_extend 12 (imm % 2 ^ 12)) funct3 (imm % 2 ^ 12 / 2 ^ 5))
  unfolding instruction_of
  read_op_imm = rw (read_i 0x13 (omega arith), whole) refl

  pub read_op_imm32 :
      decode (encode_i imm rs1 funct3 rd 0x1B)
      ≡ ok (op_imm32 rd rs1 (sign_extend 12 (imm % 2 ^ 12)) funct3 (imm % 2 ^ 12 / 2 ^ 5))
  unfolding instruction_of
  read_op_imm32 = rw (read_i 0x1B (omega arith), whole) refl

  pub read_load :
      decode (encode_i imm rs1 funct3 rd 0x03)
      ≡ ok (load rd rs1 (sign_extend 12 (imm % 2 ^ 12)) funct3)
  unfolding instruction_of
  read_load = rw (read_i 0x03 (omega arith), whole) refl

  pub read_jalr :
      decode (encode_i imm rs1 funct3 rd 0x67) ≡ ok (jalr rd rs1 (sign_extend 12 (imm % 2 ^ 12)))
  unfolding instruction_of
  read_jalr = rw (read_i 0x67 (omega arith), whole) refl

module _ (imm rs2 rs1 funct3 : ℕ) (t : rs2 < 2 ^ 5) (s : rs1 < 2 ^ 5) (c : funct3 < 2 ^ 3) where
  pub read_store :
      decode (encode_s imm rs2 rs1 funct3 0x23)
      ≡ ok (store rs1 rs2 (sign_extend 12 (imm % 2 ^ 12)) funct3)
  unfolding instruction_of
  read_store =
      let o : 0x23 < 2 ^ 7 = omega arith in
      let e =
        decode-assemble (fields_s imm rs2 rs1 funct3 0x23 t s c o)
          (fields_s-IsFields imm rs2 rs1 funct3 0x23 t s c o) in
      let w : imm % 2 ^ 12 / 2 ^ 5 * 2 ^ 5 + imm % 2 ^ 5 ≡ imm % 2 ^ 12 = omega arith in
      rw (encode_s_lem imm rs2 rs1 funct3 0x23 t s c o, e, w) refl

  pub read_branch :
      imm % 2 ≡ 0
      → decode (encode_b imm rs2 rs1 funct3 0x63)
        ≡ ok (branch rs1 rs2 (sign_extend 13 (imm % 2 ^ 13)) funct3)
  unfolding instruction_of
  read_branch even =
      let o : 0x63 < 2 ^ 7 = omega arith in
      let f = fields_b imm rs2 rs1 funct3 0x63 t s c o in
      let e = decode-assemble f (fields_b-IsFields imm rs2 rs1 funct3 0x63 t s c o) in
      let w : f.funct7 / 2 ^ 6 * 2 ^ 12
            + f.rd % 2 * 2 ^ 11
            + f.funct7 % 2 ^ 6 * 2 ^ 5
            + f.rd / 2 * 2
          ≡ imm % 2 ^ 13 =
        omega arith in
      rw (encode_b_lem imm rs2 rs1 funct3 0x63 t s c o, e, w) refl

module _ (imm rd : ℕ) (fits : imm < 2 ^ 32) (d : rd < 2 ^ 5) where
  pub read_lui : imm % 2 ^ 12 ≡ 0 → decode (encode_u imm rd 0x37) ≡ ok (lui rd (sign_extend 32 imm))
  unfolding instruction_of
  read_lui page =
      let o : 0x37 < 2 ^ 7 = omega arith in
      let f = fields_u imm rd fits d 0x37 in
      let e = decode-assemble f (fields_u-IsFields imm rd fits d 0x37 o) in
      let w : f.funct7 * 2 ^ 25 + f.rs2 * 2 ^ 20 + f.rs1 * 2 ^ 15 + f.funct3 * 2 ^ 12 ≡ imm =
        omega arith in
      rw (encode_u_lem imm rd fits d 0x37 o, e, w) refl

  pub read_jal :
      imm % 2 ≡ 0 → decode (encode_j imm rd) ≡ ok (jal rd (sign_extend 21 (imm % 2 ^ 21)))
  unfolding instruction_of
  read_jal even =
      let f = fields_j imm rd fits d in
      let e = decode-assemble f (fields_j-IsFields imm rd fits d) in
      let w : f.funct7 / 2 ^ 6 * 2 ^ 20
            + (f.rs1 * 2 ^ 3 + f.funct3) * 2 ^ 12
            + f.rs2 % 2 * 2 ^ 11
            + (f.funct7 % 2 ^ 6 * 2 ^ 4 + f.rs2 / 2) * 2
          ≡ imm % 2 ^ 21 =
        omega arith in
      rw (encode_j_lem imm rd fits d, e, w) refl

module _ (funct7 rs2 rs1 funct3 rd : ℕ) (g : funct7 < 2 ^ 7) (t : rs2 < 2 ^ 5) (s : rs1 < 2 ^ 5)
    (c : funct3 < 2 ^ 3) (d : rd < 2 ^ 5) where
  fields_r : ℕ → Fields
  fields_r opcode = record {
    opcode = opcode;
    rd = rd;
    funct3 = funct3;
    rs1 = rs1;
    rs2 = rs2;
    funct7 = funct7;
  }

  read_r :
      (opcode : ℕ)
      → opcode < 2 ^ 7
      → decode (encode_r funct7 rs2 rs1 funct3 rd opcode) ≡ instruction_of (fields_r opcode)
  unfolding fields_r
  read_r opcode o =
      let small : IsFields (fields_r opcode) = record {
        opcode = o;
        rd = d;
        funct3 = c;
        rs1 = s;
        rs2 = t;
        funct7 = g;
      } in
      ap decode (encode_r_lem (fields_r opcode) small) ∙ decode-assemble (fields_r opcode) small

  pub read_op : decode (encode_r funct7 rs2 rs1 funct3 rd 0x33) ≡ ok (op rd rs1 rs2 funct3 funct7)
  unfolding instruction_of fields_r
  read_op = read_r 0x33 (omega arith)

  pub read_op32 :
      decode (encode_r funct7 rs2 rs1 funct3 rd 0x3B) ≡ ok (op32 rd rs1 rs2 funct3 funct7)
  unfolding instruction_of fields_r
  read_op32 = read_r 0x3B (omega arith)
