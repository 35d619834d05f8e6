-- ===== src/Cpu/Blocks/Range.antt =====
-- riscv-vm/src/cpu/core.rs, engine/block.rs: the register numbers and shift amounts of the operations
-- that a block runs. Where they are out of range, `self.regs[..]` panics and a shift overflows.
use bavy.Prelude.{ℕ, ◌<◌, ◌≡◌, refl, arith, Bool, true, ltb, ◌&&◌, bit_and, ok}
use bavy.Prelude.Bits.{◌>>>◌, bit_and_mask}
use bavy.Engine.Decoder
use bavy.Engine.Decoder.{Op, decode, from_u32}
use bavy.Engine.Microop
use bavy.Engine.Microop.{MicroOp}
use bavy.Engine.Block.Transcode.{
  transcode, transcode_branch, transcode_load, transcode_store, transcode_op_imm, transcode_op,
  transcode_op_imm32, transcode_op32, transcode_system, transcode_amo,
}

-- Registers are below 32, shift amounts below the width.
abbrev pub in_range : MicroOp → Bool
in_range (Microop.addi rd rs1 imm) = ltb rd 32 && ltb rs1 32
in_range (Microop.xori rd rs1 imm) = ltb rd 32 && ltb rs1 32
in_range (Microop.ori rd rs1 imm) = ltb rd 32 && ltb rs1 32
in_range (Microop.andi rd rs1 imm) = ltb rd 32 && ltb rs1 32
in_range (Microop.slti rd rs1 imm) = ltb rd 32 && ltb rs1 32
in_range (Microop.sltiu rd rs1 imm) = ltb rd 32 && ltb rs1 32
in_range (Microop.slli rd rs1 shamt) = ltb rd 32 && (ltb rs1 32 && ltb shamt 64)
in_range (Microop.srli rd rs1 shamt) = ltb rd 32 && (ltb rs1 32 && ltb shamt 64)
in_range (Microop.srai rd rs1 shamt) = ltb rd 32 && (ltb rs1 32 && ltb shamt 64)
in_range (Microop.add rd rs1 rs2) = ltb rd 32 && (ltb rs1 32 && ltb rs2 32)
in_range (Microop.sub rd rs1 rs2) = ltb rd 32 && (ltb rs1 32 && ltb rs2 32)
in_range (Microop.xor rd rs1 rs2) = ltb rd 32 && (ltb rs1 32 && ltb rs2 32)
in_range (Microop.or rd rs1 rs2) = ltb rd 32 && (ltb rs1 32 && ltb rs2 32)
in_range (Microop.and rd rs1 rs2) = ltb rd 32 && (ltb rs1 32 && ltb rs2 32)
in_range (Microop.sll rd rs1 rs2) = ltb rd 32 && (ltb rs1 32 && ltb rs2 32)
in_range (Microop.srl rd rs1 rs2) = ltb rd 32 && (ltb rs1 32 && ltb rs2 32)
in_range (Microop.sra rd rs1 rs2) = ltb rd 32 && (ltb rs1 32 && ltb rs2 32)
in_range (Microop.slt rd rs1 rs2) = ltb rd 32 && (ltb rs1 32 && ltb rs2 32)
in_range (Microop.sltu rd rs1 rs2) = ltb rd 32 && (ltb rs1 32 && ltb rs2 32)
in_range (Microop.addiw rd rs1 imm) = ltb rd 32 && ltb rs1 32
in_range (Microop.slliw rd rs1 shamt) = ltb rd 32 && (ltb rs1 32 && ltb shamt 32)
in_range (Microop.srliw rd rs1 shamt) = ltb rd 32 && (ltb rs1 32 && ltb shamt 32)
in_range (Microop.sraiw rd rs1 shamt) = ltb rd 32 && (ltb rs1 32 && ltb shamt 32)
in_range (Microop.addw rd rs1 rs2) = ltb rd 32 && (ltb rs1 32 && ltb rs2 32)
in_range (Microop.subw rd rs1 rs2) = ltb rd 32 && (ltb rs1 32 && ltb rs2 32)
in_range (Microop.sllw rd rs1 rs2) = ltb rd 32 && (ltb rs1 32 && ltb rs2 32)
in_range (Microop.srlw rd rs1 rs2) = ltb rd 32 && (ltb rs1 32 && ltb rs2 32)
in_range (Microop.sraw rd rs1 rs2) = ltb rd 32 && (ltb rs1 32 && ltb rs2 32)
in_range (Microop.mul rd rs1 rs2) = ltb rd 32 && (ltb rs1 32 && ltb rs2 32)
in_range (Microop.mulh rd rs1 rs2) = ltb rd 32 && (ltb rs1 32 && ltb rs2 32)
in_range (Microop.mulhsu rd rs1 rs2) = ltb rd 32 && (ltb rs1 32 && ltb rs2 32)
in_range (Microop.mulhu rd rs1 rs2) = ltb rd 32 && (ltb rs1 32 && ltb rs2 32)
in_range (Microop.div rd rs1 rs2) = ltb rd 32 && (ltb rs1 32 && ltb rs2 32)
in_range (Microop.divu rd rs1 rs2) = ltb rd 32 && (ltb rs1 32 && ltb rs2 32)
in_range (Microop.rem rd rs1 rs2) = ltb rd 32 && (ltb rs1 32 && ltb rs2 32)
in_range (Microop.remu rd rs1 rs2) = ltb rd 32 && (ltb rs1 32 && ltb rs2 32)
in_range (Microop.mulw rd rs1 rs2) = ltb rd 32 && (ltb rs1 32 && ltb rs2 32)
in_range (Microop.divw rd rs1 rs2) = ltb rd 32 && (ltb rs1 32 && ltb rs2 32)
in_range (Microop.divuw rd rs1 rs2) = ltb rd 32 && (ltb rs1 32 && ltb rs2 32)
in_range (Microop.remw rd rs1 rs2) = ltb rd 32 && (ltb rs1 32 && ltb rs2 32)
in_range (Microop.remuw rd rs1 rs2) = ltb rd 32 && (ltb rs1 32 && ltb rs2 32)
in_range (Microop.lui rd imm) = ltb rd 32
in_range (Microop.auipc rd imm pc_offset) = ltb rd 32
in_range (Microop.lb rd rs1 imm pc_offset) = ltb rd 32 && ltb rs1 32
in_range (Microop.lbu rd rs1 imm pc_offset) = ltb rd 32 && ltb rs1 32
in_range (Microop.lh rd rs1 imm pc_offset) = ltb rd 32 && ltb rs1 32
in_range (Microop.lhu rd rs1 imm pc_offset) = ltb rd 32 && ltb rs1 32
in_range (Microop.lw rd rs1 imm pc_offset) = ltb rd 32 && ltb rs1 32
in_range (Microop.lwu rd rs1 imm pc_offset) = ltb rd 32 && ltb rs1 32
in_range (Microop.ld rd rs1 imm pc_offset) = ltb rd 32 && ltb rs1 32
in_range (Microop.sb rs1 rs2 imm pc_offset) = ltb rs1 32 && ltb rs2 32
in_range (Microop.sh rs1 rs2 imm pc_offset) = ltb rs1 32 && ltb rs2 32
in_range (Microop.sw rs1 rs2 imm pc_offset) = ltb rs1 32 && ltb rs2 32
in_range (Microop.sd rs1 rs2 imm pc_offset) = ltb rs1 32 && ltb rs2 32
in_range (Microop.jal rd imm pc_offset insn_len) = ltb rd 32
in_range (Microop.jalr rd rs1 imm pc_offset insn_len) = ltb rd 32 && ltb rs1 32
in_range (Microop.beq rs1 rs2 imm pc_offset insn_len) = ltb rs1 32 && ltb rs2 32
in_range (Microop.bne rs1 rs2 imm pc_offset insn_len) = ltb rs1 32 && ltb rs2 32
in_range (Microop.blt rs1 rs2 imm pc_offset insn_len) = ltb rs1 32 && ltb rs2 32
in_range (Microop.bge rs1 rs2 imm pc_offset insn_len) = ltb rs1 32 && ltb rs2 32
in_range (Microop.bltu rs1 rs2 imm pc_offset insn_len) = ltb rs1 32 && ltb rs2 32
in_range (Microop.bgeu rs1 rs2 imm pc_offset insn_len) = ltb rs1 32 && ltb rs2 32
in_range other = true

from_u32-lt : (v : ℕ) → from_u32 v < 32
unfolding from_u32
from_u32-lt v = omega (arith, bit_and_mask 5 v)

abbrev HasRegisters : Op → Type 0
HasRegisters (Decoder.lui rd imm) = (rd < 32)
HasRegisters (Decoder.auipc rd imm) = (rd < 32)
HasRegisters (Decoder.jal rd imm) = (rd < 32)
HasRegisters (Decoder.jalr rd rs1 imm) = (rd < 32) × (rs1 < 32)
HasRegisters (Decoder.branch rs1 rs2 imm funct3) = (rs1 < 32) × (rs2 < 32)
HasRegisters (Decoder.load rd rs1 imm funct3) = (rd < 32) × (rs1 < 32)
HasRegisters (Decoder.store rs1 rs2 imm funct3) = (rs1 < 32) × (rs2 < 32)
HasRegisters (Decoder.op_imm rd rs1 imm funct3 funct7) = (rd < 32) × (rs1 < 32)
HasRegisters (Decoder.op rd rs1 rs2 funct3 funct7) = (rd < 32) × (rs1 < 32) × (rs2 < 32)
HasRegisters (Decoder.op_imm32 rd rs1 imm funct3 funct7) = (rd < 32) × (rs1 < 32)
HasRegisters (Decoder.op32 rd rs1 rs2 funct3 funct7) = (rd < 32) × (rs1 < 32) × (rs2 < 32)
HasRegisters other = Unit

decode-HasRegisters : (insn : ℕ) (decoded : Op) → decode insn ≡ ok decoded → HasRegisters decoded
unfolding decode
decode-HasRegisters insn (Decoder.lui rd imm) h =
    ground (arith, h, from_u32-lt (bit_and (insn >>> 7) 0x1F))
decode-HasRegisters insn (Decoder.auipc rd imm) h =
    ground (arith, h, from_u32-lt (bit_and (insn >>> 7) 0x1F))
decode-HasRegisters insn (Decoder.jal rd imm) h =
    ground (arith, h, from_u32-lt (bit_and (insn >>> 7) 0x1F))
decode-HasRegisters insn (Decoder.jalr rd rs1 imm) h = (
  ground (arith, h, from_u32-lt (bit_and (insn >>> 7) 0x1F)),
  ground (arith, h, from_u32-lt (bit_and (insn >>> 15) 0x1F)),
)
decode-HasRegisters insn (Decoder.branch rs1 rs2 imm funct3) h = (
  ground (arith, h, from_u32-lt (bit_and (insn >>> 15) 0x1F)),
  ground (arith, h, from_u32-lt (bit_and (insn >>> 20) 0x1F)),
)
decode-HasRegisters insn (Decoder.load rd rs1 imm funct3) h = (
  ground (arith, h, from_u32-lt (bit_and (insn >>> 7) 0x1F)),
  ground (arith, h, from_u32-lt (bit_and (insn >>> 15) 0x1F)),
)
decode-HasRegisters insn (Decoder.store rs1 rs2 imm funct3) h = (
  ground (arith, h, from_u32-lt (bit_and (insn >>> 15) 0x1F)),
  ground (arith, h, from_u32-lt (bit_and (insn >>> 20) 0x1F)),
)
decode-HasRegisters insn (Decoder.op_imm rd rs1 imm funct3 funct7) h = (
  ground (arith, h, from_u32-lt (bit_and (insn >>> 7) 0x1F)),
  ground (arith, h, from_u32-lt (bit_and (insn >>> 15) 0x1F)),
)
decode-HasRegisters insn (Decoder.op rd rs1 rs2 funct3 funct7) h = (
  ground (arith, h, from_u32-lt (bit_and (insn >>> 7) 0x1F)),
  ground (arith, h, from_u32-lt (bit_and (insn >>> 15) 0x1F)),
  ground (arith, h, from_u32-lt (bit_and (insn >>> 20) 0x1F)),
)
decode-HasRegisters insn (Decoder.op_imm32 rd rs1 imm funct3 funct7) h = (
  ground (arith, h, from_u32-lt (bit_and (insn >>> 7) 0x1F)),
  ground (arith, h, from_u32-lt (bit_and (insn >>> 15) 0x1F)),
)
decode-HasRegisters insn (Decoder.op32 rd rs1 rs2 funct3 funct7) h = (
  ground (arith, h, from_u32-lt (bit_and (insn >>> 7) 0x1F)),
  ground (arith, h, from_u32-lt (bit_and (insn >>> 15) 0x1F)),
  ground (arith, h, from_u32-lt (bit_and (insn >>> 20) 0x1F)),
)
decode-HasRegisters insn other h = tt

transcode-in_range :
    (decoded : Op) (pc_offset insn_len : ℕ)
    → HasRegisters decoded
    → in_range (transcode decoded pc_offset insn_len) ≡ true
unfolding transcode transcode_branch transcode_load transcode_store transcode_op_imm transcode_op
    transcode_op_imm32 transcode_op32 transcode_system transcode_amo
transcode-in_range (Decoder.lui rd imm) pc_offset insn_len h = ground (arith, h)
transcode-in_range (Decoder.auipc rd imm) pc_offset insn_len h = ground (arith, h)
transcode-in_range (Decoder.jal rd imm) pc_offset insn_len h = ground (arith, h)
transcode-in_range (Decoder.jalr rd rs1 imm) pc_offset insn_len h = ground (arith, h.0, h.1)
transcode-in_range (Decoder.branch rs1 rs2 imm funct3) pc_offset insn_len h =
    ground (arith, h.0, h.1)
transcode-in_range (Decoder.load rd rs1 imm funct3) pc_offset insn_len h = ground (arith, h.0, h.1)
transcode-in_range (Decoder.store rs1 rs2 imm funct3) pc_offset insn_len h =
    ground (arith, h.0, h.1)
transcode-in_range (Decoder.op_imm rd rs1 imm funct3 funct7) pc_offset insn_len h =
    ground (arith, h.0, h.1, bit_and_mask 6 imm)
transcode-in_range (Decoder.op rd rs1 rs2 funct3 funct7) pc_offset insn_len h =
    ground (arith, h.0, h.1, h.2)
transcode-in_range (Decoder.op_imm32 rd rs1 imm funct3 funct7) pc_offset insn_len h =
    ground (arith, h.0, h.1, bit_and_mask 5 imm)
transcode-in_range (Decoder.op32 rd rs1 rs2 funct3 funct7) pc_offset insn_len h =
    ground (arith, h.0, h.1, h.2)
transcode-in_range (Decoder.system rd rs1 funct3 imm) pc_offset insn_len h = ground arith
transcode-in_range (Decoder.amo rd rs1 rs2 funct3 funct5 aq rl) pc_offset insn_len h = ground arith
transcode-in_range Decoder.fence pc_offset insn_len h = refl

-- Every operation that a decoded instruction is transcoded to, and that a block runs itself, names
-- registers below 32 only and shifts by less than the width of what it shifts: in a block no
-- register access is out of bounds and no shift overflows.
pub decode-in_range :
    (insn pc_offset insn_len : ℕ) (decoded : Op)
    → decode insn ≡ ok decoded
    → in_range (transcode decoded pc_offset insn_len) ≡ true
decode-in_range insn pc_offset insn_len decoded h =
    transcode-in_range decoded pc_offset insn_len (decode-HasRegisters insn decoded h)
