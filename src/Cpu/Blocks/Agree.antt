-- ===== src/Cpu/Blocks/Agree.antt =====
-- riscv-vm/src/cpu/core.rs, execution.rs: when an operation of a block does what the interpreter does
-- for the instruction it was transcoded from.
use bavy.Prelude.{
  ℕ, ◌≡◌, arith, Bool, true, false, ◌&&◌, ◌||◌, ◌==◌, ltb, if◌then◌else◌, bit_and, Option, none,
  some, Result, ok, err, get_or, set, List, [], ◌∷◌, zero, suc, refl,
}
use bavy.Prelude.Bits.{◌>>>◌}
use bavy.Cpu.Types.{Trap}
use bavy.Cpu.State.{Cpu, read_reg, write_reg, clear_reservation_if_conflict}
use bavy.Cpu.Trap.{handle_trap}
use bavy.Bus.{Bus}
use bavy.Engine.Decoder
use bavy.Engine.Decoder.{Op}
use bavy.Engine.Microop.{MicroOp, is_terminator}
use bavy.Cpu.Blocks.Micro.{BlockExecResult, continue, trap, exit, reg_at}

-- The instructions that a block leaves to the interpreter.
unfoldable pub needs_interpreter : Op → Bool
needs_interpreter (Decoder.system rd rs1 funct3 imm) = true
needs_interpreter (Decoder.amo rd rs1 rs2 funct3 funct5 aq rl) = true
needs_interpreter other = false

abbrev pub one_of : ℕ → List ℕ → Bool
one_of n [] = false
one_of n (k ∷ ks) = (n == k) || one_of n ks

-- The function codes that name an instruction of the architecture.
unfoldable pub is_implemented : Op → Bool
is_implemented (Decoder.branch rs1 rs2 imm funct3) = one_of funct3 (0 ∷ 1 ∷ 4 ∷ 5 ∷ 6 ∷ 7 ∷ [])
is_implemented (Decoder.load rd rs1 imm funct3) = ltb funct3 7
is_implemented (Decoder.store rs1 rs2 imm funct3) = ltb funct3 4
is_implemented (Decoder.op_imm rd rs1 imm funct3 funct7) = ltb funct3 8
is_implemented (Decoder.op rd rs1 rs2 funct3 funct7) =
    ((funct7 == 0) && ltb funct3 8)
    || (((funct7 == 0x20) && one_of funct3 (0 ∷ 5 ∷ [])) || ((funct7 == 1) && ltb funct3 8))
is_implemented (Decoder.op_imm32 rd rs1 imm funct3 funct7) = one_of funct3 (0 ∷ 1 ∷ 5 ∷ [])
is_implemented (Decoder.op32 rd rs1 rs2 funct3 funct7) =
    ((funct7 == 0) && one_of funct3 (0 ∷ 1 ∷ 5 ∷ []))
    || (((funct7 == 0x20) && one_of funct3 (0 ∷ 5 ∷ []))
        || ((funct7 == 1) && one_of funct3 (0 ∷ 4 ∷ 5 ∷ 6 ∷ 7 ∷ [])))
is_implemented (Decoder.system rd rs1 funct3 imm) =
    if funct3 == 0
    then one_of imm (0 ∷ 1 ∷ 0x302 ∷ 0x102 ∷ 0x105 ∷ []) || (bit_and (imm >>> 5) 0x7F == 9)
    else one_of funct3 (1 ∷ 2 ∷ 3 ∷ 5 ∷ 6 ∷ 7 ∷ [])
is_implemented (Decoder.amo rd rs1 rs2 funct3 funct5 aq rl) =
    one_of funct5 (2 ∷ 3 ∷ 1 ∷ 0 ∷ 4 ∷ 12 ∷ 8 ∷ 16 ∷ 20 ∷ 24 ∷ 28 ∷ [])
is_implemented other = true

-- x0 holds 0, as a block reads the array itself.
abbrev pub IsZeroed : Cpu → Type 0
IsZeroed c = get_or c.regs 0 0 ≡ 0

pub read_reg-reg_at : (c : Cpu) (r : ℕ) → IsZeroed c → read_reg c r ≡ reg_at c r
unfolding read_reg
read_reg-reg_at c zero h = ground arith
read_reg-reg_at c (suc r) h = ground arith

get_or-set_zero : (xs : List ℕ) (r v : ℕ) → get_or (set xs (suc r) v) 0 0 ≡ get_or xs 0 0
unfolding get_or set
get_or-set_zero [] r v = refl
get_or-set_zero (x ∷ xs) r v = refl

pub write_reg-IsZeroed : (c : Cpu) (r v : ℕ) → IsZeroed c → IsZeroed (write_reg c r v)
unfolding write_reg
write_reg-IsZeroed c zero v h = h
write_reg-IsZeroed c (suc r) v h = ground (arith, get_or-set_zero c.regs r v)

pub regs-clear_reservation_if_conflict :
    (c : Cpu) (addr : ℕ) → (clear_reservation_if_conflict c addr).regs ≡ c.regs
unfolding clear_reservation_if_conflict
regs-clear_reservation_if_conflict c addr = ground arith

-- A hart without its reservation, which a store that faults leaves in a block and clears in the interpreter.
abbrev pub unreserved : Cpu → Cpu
unreserved c = record c { reservation = none }

module _ (bus : Bus) where
  abbrev pub unreserved_state :
      {A : Type 0} → Cpu × bus.State × Result A Trap → Cpu × bus.State × Result A Trap
  unreserved_state (c, m, r) = (unreserved c, m, r)

  -- The first result is the operation's, in a block, from the state (c, m); the second the interpreter's.
  abbrev pub StepAgrees :
      Op
      → MicroOp
      → ℕ
      → ℕ
      → Cpu
      → bus.State
      → Cpu × bus.State × Option BlockExecResult
      → Cpu × bus.State × Result ℕ Trap
      → Type 0
  StepAgrees decoded micro pc next c m (c', m', none) x = (x ≡ (c', m', ok next)) × IsZeroed c'
  StepAgrees decoded micro pc next c m (c', m', some (continue n)) x =
      (x ≡ (c', m', ok n)) × (is_terminator micro ≡ true)
  StepAgrees decoded micro pc next c m (c', m', some (trap t fault_pc)) x =
      (unreserved_state x ≡ (unreserved (handle_trap c' t fault_pc), m', err t)) × (fault_pc ≡ pc)
  StepAgrees decoded micro pc next c m (c', m', some (exit p)) x =
      (c' ≡ c) × (m' ≡ m) × (p ≡ pc) × (needs_interpreter decoded ≡ true)
