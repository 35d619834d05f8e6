-- ===== src/Engine/Expansion.antt =====
-- riscv-vm/src/engine/decoder.rs: what the 16-bit instructions mean, by the tables of the
-- architecture's manual, apart from the code that expands them.
pub mod Operands
pub mod Encoded
pub mod Quadrant0
pub mod Quadrant1
pub mod Quadrant2
pub mod Table
use bavy.Prelude.{
  ℕ, ◌+◌, ◌-◌, ◌*◌, ◌/◌, ◌%◌, ◌^◌, Bool, true, false, not, List, [], ◌∷◌, ◌&&◌, ◌||◌, ◌==◌, ltb,
  if◌then◌else◌, Result, ok, err,
}
use bavy.Cpu.Types.{Trap, illegal_instruction}
use bavy.Engine.Decoder.{
  Op, lui, jal, jalr, branch, load, store, op_imm, op, op_imm32, op32, system,
}
use bavy.Engine.Decoder.Fields.{field, sign_extend}

-- rd', rs1' and rs2': registers 8 to 15.
abbrev pub short : ℕ → ℕ → ℕ
short lo insn = 8 + field lo 3 insn

-- nzuimm[5:4|9:6|2|3] in bits 12 to 5.
abbrev pub nzuimm : ℕ → ℕ
nzuimm insn =
    field 7 4 insn * 2 ^ 6
    + field 11 2 insn * 2 ^ 4
    + field 5 1 insn * 2 ^ 3
    + field 6 1 insn * 2 ^ 2

-- uimm[5:3] in bits 12 to 10, uimm[2|6] in bits 6 and 5.
abbrev pub uimm_word : ℕ → ℕ
uimm_word insn = field 5 1 insn * 2 ^ 6 + field 10 3 insn * 2 ^ 3 + field 6 1 insn * 2 ^ 2

-- uimm[5:3] in bits 12 to 10, uimm[7:6] in bits 6 and 5.
abbrev pub uimm_double : ℕ → ℕ
uimm_double insn = field 5 2 insn * 2 ^ 6 + field 10 3 insn * 2 ^ 3

-- imm[5] in bit 12, imm[4:0] in bits 6 to 2.
abbrev pub six : ℕ → ℕ
six insn = field 12 1 insn * 2 ^ 5 + field 2 5 insn

-- nzimm[9] in bit 12, nzimm[4|6|8:7|5] in bits 6 to 2.
abbrev pub nzimm_16 : ℕ → ℕ
nzimm_16 insn =
    field 12 1 insn * 2 ^ 9
    + field 3 2 insn * 2 ^ 7
    + field 5 1 insn * 2 ^ 6
    + field 2 1 insn * 2 ^ 5
    + field 6 1 insn * 2 ^ 4

-- offset[11|4|9:8|10|6|7|3:1|5] in bits 12 to 2.
abbrev pub offset_j : ℕ → ℕ
offset_j insn =
    field 12 1 insn * 2 ^ 11
    + field 8 1 insn * 2 ^ 10
    + field 9 2 insn * 2 ^ 8
    + field 6 1 insn * 2 ^ 7
    + field 7 1 insn * 2 ^ 6
    + field 2 1 insn * 2 ^ 5
    + field 11 1 insn * 2 ^ 4
    + field 3 3 insn * 2

-- offset[8|4:3] in bits 12 to 10, offset[7:6|2:1|5] in bits 6 to 2.
abbrev pub offset_b : ℕ → ℕ
offset_b insn =
    field 12 1 insn * 2 ^ 8
    + field 5 2 insn * 2 ^ 6
    + field 2 1 insn * 2 ^ 5
    + field 10 2 insn * 2 ^ 3
    + field 3 2 insn * 2

-- uimm[5] in bit 12, uimm[4:2|7:6] in bits 6 to 2.
abbrev pub uimm_lwsp : ℕ → ℕ
uimm_lwsp insn = field 2 2 insn * 2 ^ 6 + field 12 1 insn * 2 ^ 5 + field 4 3 insn * 2 ^ 2

-- uimm[5] in bit 12, uimm[4:3|8:6] in bits 6 to 2.
abbrev pub uimm_ldsp : ℕ → ℕ
uimm_ldsp insn = field 2 3 insn * 2 ^ 6 + field 12 1 insn * 2 ^ 5 + field 5 2 insn * 2 ^ 3

-- uimm[5:2|7:6] in bits 12 to 7.
abbrev pub uimm_swsp : ℕ → ℕ
uimm_swsp insn = field 7 2 insn * 2 ^ 6 + field 9 4 insn * 2 ^ 2

-- uimm[5:3|8:6] in bits 12 to 7.
abbrev pub uimm_sdsp : ℕ → ℕ
uimm_sdsp insn = field 7 3 insn * 2 ^ 6 + field 10 3 insn * 2 ^ 3

-- A register-immediate operation; the decoder also keeps the immediate's bits 11 to 5.
abbrev immediate : (ℕ → ℕ → ℕ → ℕ → ℕ → Op) → ℕ → ℕ → ℕ → ℕ → Result Op Trap
immediate operation rd rs1 v funct3 = ok (operation rd rs1 v funct3 (v % 2 ^ 12 / 2 ^ 5))

abbrev unless : Bool → ℕ → Result Op Trap → Result Op Trap
unless condition insn r = if condition then err (illegal_instruction insn) else r

-- The entry of a table.
abbrev pub entry {ℓ} : {A : Type ℓ} → List (ℕ × A) → ℕ → A → A
entry [] key other = other
entry ((k, a) ∷ rows) key other = let rest = entry rows key other in if key == k then a else rest

unfoldable pub meaning_q0 : ℕ → ℕ → Result Op Trap
meaning_q0 insn funct3 =
    entry
      ((0, unless (nzuimm insn == 0) insn (immediate op_imm (short 2 insn) 2 (nzuimm insn) 0))
        ∷ (2, ok (load (short 2 insn) (short 7 insn) (uimm_word insn) 2))
        ∷ (3, ok (load (short 2 insn) (short 7 insn) (uimm_double insn) 3))
        ∷ (6, ok (store (short 7 insn) (short 2 insn) (uimm_word insn) 2))
        ∷ (7, ok (store (short 7 insn) (short 2 insn) (uimm_double insn) 3))
        ∷ [])
      funct3 (err (illegal_instruction insn))

-- C.ADDI16SP for register 2, C.LUI for the others.
unfoldable pub meaning_lui : ℕ → ℕ → Result Op Trap
meaning_lui insn rd =
    entry
      ((0, err (illegal_instruction insn))
        ∷ (
          2,
          unless (nzimm_16 insn == 0) insn
              (immediate op_imm 2 2 (sign_extend 10 (nzimm_16 insn)) 0),
        )
        ∷ [])
      rd (unless (six insn == 0) insn (ok (lui rd (sign_extend 18 (six insn * 2 ^ 12)))))

-- bit 12 and bits 6 to 5
unfoldable pub meaning_register : ℕ → ℕ → ℕ → Result Op Trap
meaning_register insn one two =
    let rd = short 7 insn in
    let rs2 = short 2 insn in
    let wide =
      (0, ok (op rd rd rs2 0 0x20))
      ∷ (1, ok (op rd rd rs2 4 0))
      ∷ (2, ok (op rd rd rs2 6 0))
      ∷ (3, ok (op rd rd rs2 7 0))
      ∷ [] in
    let narrow = (0, ok (op32 rd rd rs2 0 0x20)) ∷ (1, ok (op32 rd rd rs2 0 0)) ∷ [] in
    entry (if one == 0 then wide else narrow) two (err (illegal_instruction insn))

-- bits 11 and 10
unfoldable pub meaning_alu : ℕ → ℕ → Result Op Trap
meaning_alu insn two =
    entry
      ((0, immediate op_imm (short 7 insn) (short 7 insn) (six insn) 5)
        ∷ (1, immediate op_imm (short 7 insn) (short 7 insn) (2 ^ 10 + six insn) 5)
        ∷ (2, immediate op_imm (short 7 insn) (short 7 insn) (sign_extend 6 (six insn)) 7)
        ∷ [])
      two (meaning_register insn (field 12 1 insn) (field 5 2 insn))

unfoldable pub meaning_q1 : ℕ → ℕ → Result Op Trap
meaning_q1 insn funct3 =
    entry
      ((
        0,
        unless ((field 7 5 insn == 0) && not (six insn == 0)) insn
            (immediate op_imm (field 7 5 insn) (field 7 5 insn) (sign_extend 6 (six insn)) 0),
      )
        ∷ (
          1,
          unless (field 7 5 insn == 0) insn
              (immediate op_imm32 (field 7 5 insn) (field 7 5 insn) (sign_extend 6 (six insn)) 0),
        )
        ∷ (
          2,
          unless (field 7 5 insn == 0) insn
              (immediate op_imm (field 7 5 insn) 0 (sign_extend 6 (six insn)) 0),
        )
        ∷ (3, meaning_lui insn (field 7 5 insn))
        ∷ (4, meaning_alu insn (field 10 2 insn))
        ∷ (5, ok (jal 0 (sign_extend 12 (offset_j insn))))
        ∷ (6, ok (branch (short 7 insn) 0 (sign_extend 9 (offset_b insn)) 0))
        ∷ (7, ok (branch (short 7 insn) 0 (sign_extend 9 (offset_b insn)) 1))
        ∷ [])
      funct3 (err (illegal_instruction insn))

-- bit 12, rs2, rd
unfoldable pub meaning_jump : ℕ → ℕ → ℕ → ℕ → Result Op Trap
meaning_jump insn one rs2 rd =
    if rs2 == 0
    then if rd == 0 then unless (one == 0) insn (ok (system 0 0 0 1)) else ok (jalr one rd 0)
    else unless (rd == 0) insn (ok (op rd (if one == 0 then 0 else rd) rs2 0 0))

unfoldable pub meaning_q2 : ℕ → ℕ → Result Op Trap
meaning_q2 insn funct3 =
    entry
      ((
        0,
        unless (field 7 5 insn == 0) insn
            (immediate op_imm (field 7 5 insn) (field 7 5 insn) (six insn) 1),
      )
        ∷ (2, unless (field 7 5 insn == 0) insn (ok (load (field 7 5 insn) 2 (uimm_lwsp insn) 2)))
        ∷ (3, unless (field 7 5 insn == 0) insn (ok (load (field 7 5 insn) 2 (uimm_ldsp insn) 3)))
        ∷ (4, meaning_jump insn (field 12 1 insn) (field 2 5 insn) (field 7 5 insn))
        ∷ (6, ok (store 2 (field 2 5 insn) (uimm_swsp insn) 2))
        ∷ (7, ok (store 2 (field 2 5 insn) (uimm_sdsp insn) 3))
        ∷ [])
      funct3 (err (illegal_instruction insn))

-- The quadrant is in bits 1 and 0.
unfoldable pub meaning : ℕ → ℕ → Result Op Trap
meaning insn quadrant =
    entry
      ((0, meaning_q0 insn (field 13 3 insn))
        ∷ (1, meaning_q1 insn (field 13 3 insn))
        ∷ (2, meaning_q2 insn (field 13 3 insn))
        ∷ [])
      quadrant (err (illegal_instruction insn))
