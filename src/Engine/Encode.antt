-- ===== src/Engine/Encode.antt =====
-- riscv-vm/src/engine/decoder.rs: the encoders of the instruction formats. An i32 is its 32-bit
-- pattern.
pub mod Words
use bavy.Prelude.{ℕ, ◌-◌, ◌^◌, ◌%◌, bit_and, bit_or}
use bavy.Prelude.Bits.{◌>>>◌, ◌<<<◌}
use bavy.Engine.Decoder.{asr32}

unfoldable pub encode_i : ℕ → ℕ → ℕ → ℕ → ℕ → ℕ
encode_i imm rs1 funct3 rd opcode =
    let imm12 = bit_and imm 0xFFF in
    bit_or (bit_or (bit_or (bit_or (imm12 <<< 20) (rs1 <<< 15)) (funct3 <<< 12)) (rd <<< 7)) opcode

unfoldable pub encode_u : ℕ → ℕ → ℕ → ℕ
encode_u imm rd opcode =
    let imm20 = bit_and (imm >>> 12) 0xFFFFF in bit_or (bit_or (imm20 <<< 12) (rd <<< 7)) opcode

unfoldable pub encode_r : ℕ → ℕ → ℕ → ℕ → ℕ → ℕ → ℕ
encode_r funct7 rs2 rs1 funct3 rd opcode =
    bit_or
      (bit_or (bit_or (bit_or (bit_or (funct7 <<< 25) (rs2 <<< 20)) (rs1 <<< 15)) (funct3 <<< 12))
        (rd <<< 7))
      opcode

unfoldable pub encode_s : ℕ → ℕ → ℕ → ℕ → ℕ → ℕ
encode_s imm rs2 rs1 funct3 opcode =
    let imm12 = bit_and imm 0xFFF in
    let imm11_5 = bit_and (imm12 >>> 5) 0x7F in
    let imm4_0 = bit_and imm12 0x1F in
    bit_or
      (bit_or (bit_or (bit_or (bit_or (imm11_5 <<< 25) (rs2 <<< 20)) (rs1 <<< 15)) (funct3 <<< 12))
        (imm4_0 <<< 7))
      opcode

unfoldable pub encode_j : ℕ → ℕ → ℕ
encode_j imm rd =
    let imm20 = bit_and (asr32 imm 20) 0x1 in
    let imm10_1 = bit_and (asr32 imm 1) 0x3FF in
    let imm11 = bit_and (asr32 imm 11) 0x1 in
    let imm19_12 = bit_and (asr32 imm 12) 0xFF in
    bit_or
      (bit_or
        (bit_or (bit_or (bit_or (imm20 <<< 31) (imm19_12 <<< 12)) (imm11 <<< 20)) (imm10_1 <<< 21))
        (rd <<< 7))
      0x6F

unfoldable pub encode_b : ℕ → ℕ → ℕ → ℕ → ℕ → ℕ
encode_b imm rs2 rs1 funct3 opcode =
    let imm13 = bit_and imm 0x1FFF in
    let imm12 = bit_and (imm13 >>> 12) 0x1 in
    let imm10_5 = bit_and (imm13 >>> 5) 0x3F in
    let imm4_1 = bit_and (imm13 >>> 1) 0xF in
    let imm11 = bit_and (imm13 >>> 11) 0x1 in
    bit_or
      (bit_or
        (bit_or
          (bit_or
            (bit_or (bit_or (bit_or (imm12 <<< 31) (imm10_5 <<< 25)) (rs2 <<< 20)) (rs1 <<< 15))
            (funct3 <<< 12))
          (imm4_1 <<< 8))
        (imm11 <<< 7))
      opcode

unfoldable pub sext : ℕ → ℕ → ℕ
sext value bits = let shift = 32 - bits in asr32 ((value <<< shift) % 2 ^ 32) shift
