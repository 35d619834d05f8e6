-- ===== src/Engine/Compressed/Immediates.antt =====
-- riscv-vm/src/engine/decoder.rs: the immediates of the 16-bit instructions, as the expansion puts
-- them together.
use bavy.Prelude.{ℕ, ◌+◌, bit_and, bit_or}
use bavy.Prelude.Bits.{◌>>>◌, ◌<<<◌}

-- A register of the eight that have a short number, at bits lo to lo + 2.
abbrev pub prime : ℕ → ℕ → ℕ
prime insn lo = 8 + bit_and (insn >>> lo) 0x7

-- The six-bit operand at bit 12 and bits 6 to 2.
abbrev pub imm_bits : ℕ → ℕ
imm_bits insn = bit_or (bit_and (insn >>> 2) 0x1F) (bit_and (insn >>> 12) 0x1 <<< 5)

unfoldable pub addi4spn_imm : ℕ → ℕ
addi4spn_imm insn =
    bit_or
      (bit_or (bit_or (bit_and (insn >>> 6) 0x1 <<< 2) (bit_and (insn >>> 5) 0x1 <<< 3))
        (bit_and (insn >>> 11) 0x3 <<< 4))
      (bit_and (insn >>> 7) 0xF <<< 6)

unfoldable pub lw_imm : ℕ → ℕ
lw_imm insn =
    bit_or (bit_or (bit_and (insn >>> 6) 0x1 <<< 2) (bit_and (insn >>> 10) 0x7 <<< 3))
      (bit_and (insn >>> 5) 0x1 <<< 6)

unfoldable pub ld_imm : ℕ → ℕ
ld_imm insn = bit_or (bit_and (insn >>> 10) 0x7 <<< 3) (bit_and (insn >>> 5) 0x3 <<< 6)

-- C.ADDI16SP's immediate, before its sign is extended.
unfoldable pub addi16sp_imm : ℕ → ℕ
addi16sp_imm insn =
    bit_or
      (bit_or
        (bit_or (bit_or (bit_and (insn >>> 12) 0x1 <<< 9) (bit_and (insn >>> 3) 0x3 <<< 7))
          (bit_and (insn >>> 5) 0x1 <<< 6))
        (bit_and (insn >>> 2) 0x1 <<< 5))
      (bit_and (insn >>> 6) 0x1 <<< 4)

-- C.J's offset, before its sign is extended.
unfoldable pub jump_offset : ℕ → ℕ
jump_offset insn =
    bit_or
      (bit_or
        (bit_or
          (bit_or
            (bit_or
              (bit_or (bit_or (bit_and (insn >>> 12) 0x1 <<< 11) (bit_and (insn >>> 11) 0x1 <<< 4))
                (bit_and (insn >>> 9) 0x3 <<< 8))
              (bit_and (insn >>> 8) 0x1 <<< 10))
            (bit_and (insn >>> 7) 0x1 <<< 6))
          (bit_and (insn >>> 6) 0x1 <<< 7))
        (bit_and (insn >>> 3) 0x7 <<< 1))
      (bit_and (insn >>> 2) 0x1 <<< 5)

-- The offset of C.BEQZ and C.BNEZ, before its sign is extended.
unfoldable pub branch_offset : ℕ → ℕ
branch_offset insn =
    bit_or
      (bit_or
        (bit_or (bit_or (bit_and (insn >>> 12) 0x1 <<< 8) (bit_and (insn >>> 10) 0x3 <<< 3))
          (bit_and (insn >>> 5) 0x3 <<< 6))
        (bit_and (insn >>> 3) 0x3 <<< 1))
      (bit_and (insn >>> 2) 0x1 <<< 5)

unfoldable pub lwsp_imm : ℕ → ℕ
lwsp_imm insn =
    bit_or (bit_or (bit_and (insn >>> 4) 0x7 <<< 2) (bit_and (insn >>> 12) 0x1 <<< 5))
      (bit_and (insn >>> 2) 0x3 <<< 6)

unfoldable pub ldsp_imm : ℕ → ℕ
ldsp_imm insn =
    bit_or (bit_or (bit_and (insn >>> 12) 0x1 <<< 5) (bit_and (insn >>> 5) 0x3 <<< 3))
      (bit_and (insn >>> 2) 0x7 <<< 6)

unfoldable pub swsp_imm : ℕ → ℕ
swsp_imm insn = bit_or (bit_and (insn >>> 9) 0xF <<< 2) (bit_and (insn >>> 7) 0x3 <<< 6)

unfoldable pub sdsp_imm : ℕ → ℕ
sdsp_imm insn = bit_or (bit_and (insn >>> 10) 0x7 <<< 3) (bit_and (insn >>> 7) 0x7 <<< 6)
