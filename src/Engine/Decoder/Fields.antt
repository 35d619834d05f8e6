-- ===== src/Engine/Decoder/Fields.antt =====
-- riscv-vm/src/engine/decoder.rs: the immediates of the instruction formats, as the architecture's
-- manual lays them out, and the decoder in terms of them.
use bavy.Prelude.{ℕ, ◌+◌, ◌-◌, ◌*◌, ◌/◌, ◌%◌, ◌^◌, ◌<◌, ◌≡◌, arith, ltb, if◌then◌else◌}
use bavy.Prelude.Bits.{◌>>>◌, ◌<<<◌, bit_and_mask, bit_or-gap, clear_low}
use bavy.Engine.Decoder.{extend32, asr32, imm_i, imm_s, imm_b, imm_u, imm_j}

-- Bits lo to lo + n - 1 of an instruction.
abbrev pub field : ℕ → ℕ → ℕ → ℕ
field lo n insn = (insn / 2 ^ lo) % 2 ^ n

-- The 64-bit pattern of a w-bit two's complement number.
abbrev pub sign_extend : ℕ → ℕ → ℕ
sign_extend w v = if ltb v (2 ^ (w - 1)) then v else v + 2 ^ 64 - 2 ^ w

pub imm_i_lem : (insn : ℕ) → insn < 2 ^ 32 → imm_i insn ≡ sign_extend 12 (field 20 12 insn)
unfolding imm_i extend32 asr32
imm_i_lem insn word = ground arith

pub imm_u_lem : (insn : ℕ) → insn < 2 ^ 32 → imm_u insn ≡ sign_extend 32 (field 12 20 insn * 2 ^ 12)
unfolding imm_u extend32
imm_u_lem insn word = ground (arith, clear_low 32 12 insn (omega arith) word)

pub imm_s_lem :
    (insn : ℕ)
    → insn < 2 ^ 32
    → imm_s insn ≡ sign_extend 12 (field 25 7 insn * 2 ^ 5 + field 7 5 insn)
unfolding imm_s extend32 asr32
imm_s_lem insn word =
    let high = extend32 ((asr32 insn 25 <<< 5) % 2 ^ 32) in
    let free : high / 1 % 2 ^ 5 ≡ 0 = ground arith in
    rw (bit_and_mask 5 (insn >>> 7))
      (ground (arith, bit_or-gap 0 5 high (field 7 5 insn) free (omega arith)))

-- `(v << k) >> k` on i32 reads v as a number of 32 - k bits.
shift_pair_13 : (v : ℕ) → v < 2 ^ 13 → extend32 (asr32 ((v <<< 19) % 2 ^ 32) 19) ≡ sign_extend 13 v
unfolding extend32 asr32
shift_pair_13 v fits = ground arith

shift_pair_21 : (v : ℕ) → v < 2 ^ 21 → extend32 (asr32 ((v <<< 11) % 2 ^ 32) 11) ≡ sign_extend 21 v
unfolding extend32 asr32
shift_pair_21 v fits = ground arith

-- imm[12|10:5] in bits 31 to 25, imm[4:1|11] in bits 11 to 7.
pub imm_b_lem :
    (insn : ℕ)
    → imm_b insn
      ≡ sign_extend 13 (
          field 31 1 insn * 2 ^ 12
          + field 7 1 insn * 2 ^ 11
          + field 25 6 insn * 2 ^ 5
          + field 8 4 insn * 2)
unfolding imm_b extend32 asr32
imm_b_lem insn =
    rw
      (
        bit_and_mask 1 (insn >>> 31),
        bit_and_mask 6 (insn >>> 25),
        bit_and_mask 4 (insn >>> 8),
        bit_and_mask 1 (insn >>> 7),
        bit_or-gap 11 1 (field 31 1 insn * 2 ^ 12) (field 7 1 insn) (omega arith) (omega arith),
        bit_or-gap 5 6 (field 31 1 insn * 2 ^ 12 + field 7 1 insn * 2 ^ 11) (field 25 6 insn)
            (omega arith) (omega arith),
        bit_or-gap 1 4
            (field 31 1 insn * 2 ^ 12 + field 7 1 insn * 2 ^ 11 + field 25 6 insn * 2 ^ 5)
            (field 8 4 insn) (omega arith) (omega arith),
      )
      (shift_pair_13
        (field 31 1 insn * 2 ^ 12
          + field 7 1 insn * 2 ^ 11
          + field 25 6 insn * 2 ^ 5
          + field 8 4 insn * 2)
        (omega arith))

-- imm[20|10:1|11|19:12] in bits 31 to 12.
pub imm_j_lem :
    (insn : ℕ)
    → imm_j insn
      ≡ sign_extend 21 (
          field 31 1 insn * 2 ^ 20
          + field 12 8 insn * 2 ^ 12
          + field 20 1 insn * 2 ^ 11
          + field 21 10 insn * 2)
unfolding imm_j extend32 asr32
imm_j_lem insn =
    rw
      (
        bit_and_mask 1 (insn >>> 31),
        bit_and_mask 10 (insn >>> 21),
        bit_and_mask 1 (insn >>> 20),
        bit_and_mask 8 (insn >>> 12),
        bit_or-gap 12 8 (field 31 1 insn * 2 ^ 20) (field 12 8 insn) (omega arith) (omega arith),
        bit_or-gap 11 1 (field 31 1 insn * 2 ^ 20 + field 12 8 insn * 2 ^ 12) (field 20 1 insn)
            (omega arith) (omega arith),
        bit_or-gap 1 10
            (field 31 1 insn * 2 ^ 20 + field 12 8 insn * 2 ^ 12 + field 20 1 insn * 2 ^ 11)
            (field 21 10 insn) (omega arith) (omega arith),
      )
      (shift_pair_21
        (field 31 1 insn * 2 ^ 20
          + field 12 8 insn * 2 ^ 12
          + field 20 1 insn * 2 ^ 11
          + field 21 10 insn * 2)
        (omega arith))

-- The offsets of branches and jumps are even.
pub imm_b_even : (insn : ℕ) → imm_b insn % 2 ≡ 0
imm_b_even insn = ground (arith, imm_b_lem insn)

pub imm_j_even : (insn : ℕ) → imm_j insn % 2 ≡ 0
imm_j_even insn = ground (arith, imm_j_lem insn)
