-- ===== src/Engine/Expansion/Operands.antt =====
-- riscv-vm/src/engine/decoder.rs: the operands that the expansion takes out of a 16-bit
-- instruction are the manual's.
use bavy.Prelude.{ℕ, ◌+◌, ◌-◌, ◌*◌, ◌^◌, ◌≡◌, ap, arith, bit_and}
use bavy.Prelude.Bits.{◌>>>◌, bit_and_mask, bit_or-gap}
use bavy.Engine.Compressed.{
  prime, imm_bits, addi4spn_imm, lw_imm, ld_imm, addi16sp_imm, jump_offset, branch_offset, lwsp_imm,
  ldsp_imm, swsp_imm, sdsp_imm,
}
use bavy.Engine.Decoder.Fields.{field}
use bavy.Engine.Expansion.{
  short, nzuimm, uimm_word, uimm_double, six, nzimm_16, offset_j, offset_b, uimm_lwsp, uimm_ldsp,
  uimm_swsp, uimm_sdsp,
}

-- `(insn >> lo) & mask`, for a mask of n ones.
pub part : (insn lo n : ℕ) → bit_and (insn >>> lo) (2 ^ n - 1) ≡ field lo n insn
part insn lo n = bit_and_mask n (insn >>> lo)

pub prime_lem : (insn lo : ℕ) → prime insn lo ≡ short lo insn
prime_lem insn lo = ap (λ (r : ℕ). 8 + r) (part insn lo 3)

pub imm_bits_lem : (insn : ℕ) → imm_bits insn ≡ six insn
imm_bits_lem insn =
    rw
      (
        part insn 2 5,
        part insn 12 1,
        bit_or-gap 5 1 (field 2 5 insn) (field 12 1 insn) (omega arith) (omega arith),
      )
      (omega arith)

pub addi4spn_imm_lem : (insn : ℕ) → addi4spn_imm insn ≡ nzuimm insn
unfolding addi4spn_imm
addi4spn_imm_lem insn =
    let w1 = field 6 1 insn * 2 ^ 2 + field 5 1 insn * 2 ^ 3 in
    let w2 = w1 + field 11 2 insn * 2 ^ 4 in
    rw
      (
        part insn 6 1,
        part insn 5 1,
        part insn 11 2,
        part insn 7 4,
        bit_or-gap 3 1 (field 6 1 insn * 2 ^ 2) (field 5 1 insn) (omega arith) (omega arith),
        bit_or-gap 4 2 w1 (field 11 2 insn) (omega arith) (omega arith),
        bit_or-gap 6 4 w2 (field 7 4 insn) (omega arith) (omega arith),
      )
      (omega arith)

pub lw_imm_lem : (insn : ℕ) → lw_imm insn ≡ uimm_word insn
unfolding lw_imm
lw_imm_lem insn =
    let w1 = field 6 1 insn * 2 ^ 2 + field 10 3 insn * 2 ^ 3 in
    rw
      (
        part insn 6 1,
        part insn 10 3,
        part insn 5 1,
        bit_or-gap 3 3 (field 6 1 insn * 2 ^ 2) (field 10 3 insn) (omega arith) (omega arith),
        bit_or-gap 6 1 w1 (field 5 1 insn) (omega arith) (omega arith),
      )
      (omega arith)

pub ld_imm_lem : (insn : ℕ) → ld_imm insn ≡ uimm_double insn
unfolding ld_imm
ld_imm_lem insn =
    rw
      (
        part insn 10 3,
        part insn 5 2,
        bit_or-gap 6 2 (field 10 3 insn * 2 ^ 3) (field 5 2 insn) (omega arith) (omega arith),
      )
      (omega arith)

pub addi16sp_imm_lem : (insn : ℕ) → addi16sp_imm insn ≡ nzimm_16 insn
unfolding addi16sp_imm
addi16sp_imm_lem insn =
    let w1 = field 12 1 insn * 2 ^ 9 + field 3 2 insn * 2 ^ 7 in
    let w2 = w1 + field 5 1 insn * 2 ^ 6 in
    let w3 = w2 + field 2 1 insn * 2 ^ 5 in
    rw
      (
        part insn 12 1,
        part insn 3 2,
        part insn 5 1,
        part insn 2 1,
        part insn 6 1,
        bit_or-gap 7 2 (field 12 1 insn * 2 ^ 9) (field 3 2 insn) (omega arith) (omega arith),
        bit_or-gap 6 1 w1 (field 5 1 insn) (omega arith) (omega arith),
        bit_or-gap 5 1 w2 (field 2 1 insn) (omega arith) (omega arith),
        bit_or-gap 4 1 w3 (field 6 1 insn) (omega arith) (omega arith),
      )
      (omega arith)

pub jump_offset_lem : (insn : ℕ) → jump_offset insn ≡ offset_j insn
unfolding jump_offset
jump_offset_lem insn =
    let w1 = field 12 1 insn * 2 ^ 11 + field 11 1 insn * 2 ^ 4 in
    let w2 = w1 + field 9 2 insn * 2 ^ 8 in
    let w3 = w2 + field 8 1 insn * 2 ^ 10 in
    let w4 = w3 + field 7 1 insn * 2 ^ 6 in
    let w5 = w4 + field 6 1 insn * 2 ^ 7 in
    let w6 = w5 + field 3 3 insn * 2 ^ 1 in
    rw
      (
        part insn 12 1,
        part insn 11 1,
        part insn 9 2,
        part insn 8 1,
        part insn 7 1,
        part insn 6 1,
        part insn 3 3,
        part insn 2 1,
        bit_or-gap 4 1 (field 12 1 insn * 2 ^ 11) (field 11 1 insn) (omega arith) (omega arith),
        bit_or-gap 8 2 w1 (field 9 2 insn) (omega arith) (omega arith),
        bit_or-gap 10 1 w2 (field 8 1 insn) (omega arith) (omega arith),
        bit_or-gap 6 1 w3 (field 7 1 insn) (omega arith) (omega arith),
        bit_or-gap 7 1 w4 (field 6 1 insn) (omega arith) (omega arith),
        bit_or-gap 1 3 w5 (field 3 3 insn) (omega arith) (omega arith),
        bit_or-gap 5 1 w6 (field 2 1 insn) (omega arith) (omega arith),
      )
      (omega arith)

pub branch_offset_lem : (insn : ℕ) → branch_offset insn ≡ offset_b insn
unfolding branch_offset
branch_offset_lem insn =
    let w1 = field 12 1 insn * 2 ^ 8 + field 10 2 insn * 2 ^ 3 in
    let w2 = w1 + field 5 2 insn * 2 ^ 6 in
    let w3 = w2 + field 3 2 insn * 2 ^ 1 in
    rw
      (
        part insn 12 1,
        part insn 10 2,
        part insn 5 2,
        part insn 3 2,
        part insn 2 1,
        bit_or-gap 3 2 (field 12 1 insn * 2 ^ 8) (field 10 2 insn) (omega arith) (omega arith),
        bit_or-gap 6 2 w1 (field 5 2 insn) (omega arith) (omega arith),
        bit_or-gap 1 2 w2 (field 3 2 insn) (omega arith) (omega arith),
        bit_or-gap 5 1 w3 (field 2 1 insn) (omega arith) (omega arith),
      )
      (omega arith)

pub lwsp_imm_lem : (insn : ℕ) → lwsp_imm insn ≡ uimm_lwsp insn
unfolding lwsp_imm
lwsp_imm_lem insn =
    let w1 = field 4 3 insn * 2 ^ 2 + field 12 1 insn * 2 ^ 5 in
    rw
      (
        part insn 4 3,
        part insn 12 1,
        part insn 2 2,
        bit_or-gap 5 1 (field 4 3 insn * 2 ^ 2) (field 12 1 insn) (omega arith) (omega arith),
        bit_or-gap 6 2 w1 (field 2 2 insn) (omega arith) (omega arith),
      )
      (omega arith)

pub ldsp_imm_lem : (insn : ℕ) → ldsp_imm insn ≡ uimm_ldsp insn
unfolding ldsp_imm
ldsp_imm_lem insn =
    let w1 = field 12 1 insn * 2 ^ 5 + field 5 2 insn * 2 ^ 3 in
    rw
      (
        part insn 12 1,
        part insn 5 2,
        part insn 2 3,
        bit_or-gap 3 2 (field 12 1 insn * 2 ^ 5) (field 5 2 insn) (omega arith) (omega arith),
        bit_or-gap 6 3 w1 (field 2 3 insn) (omega arith) (omega arith),
      )
      (omega arith)

pub swsp_imm_lem : (insn : ℕ) → swsp_imm insn ≡ uimm_swsp insn
unfolding swsp_imm
swsp_imm_lem insn =
    rw
      (
        part insn 9 4,
        part insn 7 2,
        bit_or-gap 6 2 (field 9 4 insn * 2 ^ 2) (field 7 2 insn) (omega arith) (omega arith),
      )
      (omega arith)

pub sdsp_imm_lem : (insn : ℕ) → sdsp_imm insn ≡ uimm_sdsp insn
unfolding sdsp_imm
sdsp_imm_lem insn =
    rw
      (
        part insn 10 3,
        part insn 7 3,
        bit_or-gap 6 3 (field 10 3 insn * 2 ^ 3) (field 7 3 insn) (omega arith) (omega arith),
      )
      (omega arith)
