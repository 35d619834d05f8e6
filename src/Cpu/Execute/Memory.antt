-- ===== src/Cpu/Execute/Memory.antt =====
-- riscv-vm/src/cpu/execution.rs: loads and stores.
use bavy.Prelude.{ℕ, ◌+◌, ◌-◌, ◌*◌, ◌%◌, ◌^◌, ◌==◌, ltb, if◌then◌else◌, Option, none, some}
use bavy.Cpu.Types.{illegal_instruction}
use bavy.Cpu.State.{write_reg, clear_reservation_if_conflict}
use bavy.Bus.{Bus}
use bavy.Mmu.Tlb
use bavy.Mmu.Tlb.{AccessType}
use bavy.Engine.Decoder.{extend32}
use bavy.Cpu.Execute.Monad.{Exec, bind, raise, modify, reg, translate_addr, read, write}

-- The size in bytes of a load, by funct3.
unfoldable pub load_size : ℕ → Option ℕ
load_size funct3 =
    if funct3 == 0
    then some 1
    else if funct3 == 1
    then some 2
    else if funct3 == 2
    then some 4
    else if funct3 == 3
    then some 8
    else if funct3 == 4
    then some 1
    else if funct3 == 5
    then some 2
    else if funct3 == 6
    then some 4
    else none

-- The 64-bit value of what was read: LB, LH and LW extend the sign.
unfoldable pub load_value : ℕ → ℕ → ℕ
load_value funct3 v =
    if funct3 == 0
    then if ltb v (2 ^ 7) then v else v + (2 ^ 64 - 2 ^ 8)
    else if funct3 == 1
    then if ltb v (2 ^ 15) then v else v + (2 ^ 64 - 2 ^ 16)
    else if funct3 == 2
    then extend32 v
    else v

unfoldable pub store_size : ℕ → Option ℕ
store_size funct3 =
    if funct3 == 0
    then some 1
    else if funct3 == 1
    then some 2
    else if funct3 == 2
    then some 4
    else if funct3 == 3
    then some 8
    else none

module _ (bus : Bus) (pc insn_raw : ℕ) where
  -- A load of a valid width, from its address on; `none` is an illegal instruction.
  unfoldable pub load_sized : Option ℕ → ℕ → ℕ → ℕ → Exec bus (Unit {0})
  load_sized none rd addr funct3 = raise bus (illegal_instruction insn_raw) pc
  load_sized (some size) rd addr funct3 = bind bus (translate_addr bus addr Tlb.load pc) (λ pa.
      bind bus (read bus pa size pc) (λ v. modify bus (λ c. write_reg c rd (load_value funct3 v))))

  -- `Op::Load`.
  unfoldable pub execute_load : ℕ → ℕ → ℕ → ℕ → Exec bus (Unit {0})
  execute_load rd rs1 imm funct3 =
      bind bus (reg bus rs1)
        (λ base. load_sized (load_size funct3) rd ((base + imm) % 2 ^ 64) funct3)

  unfoldable pub store_sized : Option ℕ → ℕ → ℕ → Exec bus (Unit {0})
  store_sized none pa val = raise bus (illegal_instruction insn_raw) pc
  store_sized (some size) pa val = write bus pa size (val % 2 ^ (8 * size)) pc

  -- `Op::Store`; an invalid width is found after the translation and the reservation.
  unfoldable pub execute_store : ℕ → ℕ → ℕ → ℕ → Exec bus (Unit {0})
  execute_store rs1 rs2 imm funct3 = bind bus (reg bus rs1) (λ base.
      let addr = (base + imm) % 2 ^ 64 in
      bind bus (translate_addr bus addr Tlb.store pc) (λ pa.
        bind bus (modify bus (λ c. clear_reservation_if_conflict c addr))
          (λ _. bind bus (reg bus rs2) (λ val. store_sized (store_size funct3) pa val))))
