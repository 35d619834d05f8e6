-- ===== src/Engine/Expansion/Quadrant0.antt =====
-- riscv-vm/src/engine/decoder.rs: `expand_q0`, against the manual's table.
use bavy.Prelude.{ℕ, ◌^◌, ◌<◌, ◌≡◌, arith, and_then}
use bavy.Engine.Decoder.{decode}
use bavy.Engine.Compressed.{expand_q0}
use bavy.Engine.Expansion.{meaning_q0, short, nzuimm, uimm_word, uimm_double}
use bavy.Engine.Expansion.Operands.{prime_lem, addi4spn_imm_lem, lw_imm_lem, ld_imm_lem}
use bavy.Engine.Expansion.Encoded.{read_op_imm, read_load, read_store}

pub expand_q0_lem :
    (insn funct3 : ℕ) → and_then (expand_q0 insn funct3) decode ≡ meaning_q0 insn funct3
unfolding expand_q0 meaning_q0 and_then
expand_q0_lem insn funct3 =
    let d : short 2 insn < 2 ^ 5 = omega arith in
    let s : short 7 insn < 2 ^ 5 = omega arith in
    rw (prime_lem insn 2, prime_lem insn 7, addi4spn_imm_lem insn, lw_imm_lem insn, ld_imm_lem insn)
      (ground (
        arith,
        read_op_imm (nzuimm insn) 2 0 (short 2 insn) (omega arith) (omega arith) d,
        read_load (uimm_word insn) (short 7 insn) 2 (short 2 insn) s (omega arith) d,
        read_load (uimm_double insn) (short 7 insn) 3 (short 2 insn) s (omega arith) d,
        read_store (uimm_word insn) (short 2 insn) (short 7 insn) 2 d s (omega arith),
        read_store (uimm_double insn) (short 2 insn) (short 7 insn) 3 d s (omega arith),
      ))
