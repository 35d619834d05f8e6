-- ===== src/Cpu/Execute/Atomic.antt =====
-- riscv-vm/src/cpu/execution.rs: LR, SC and the atomic memory operations.
use bavy.Prelude.{ℕ, ◌%◌, ◌==◌, if◌then◌else◌, Option, none, some, Bool, true, false, not}
use bavy.Cpu.Types.{illegal_instruction, store_address_misaligned}
use bavy.Cpu.State.{write_reg, read_reg, clear_reservation_if_conflict, reservation_granule}
use bavy.Bus.{Bus}
use bavy.Bus.Atomic
use bavy.Bus.Atomic.{AmoOp, atomic}
use bavy.Mmu.Tlb
use bavy.Engine.Decoder.{extend32}
use bavy.Cpu.Execute.Alu.{low32}
use bavy.Cpu.Execute.Monad.{Exec, bind, raise, modify, reg, or_trap, translate_addr, read, write}

-- The operation that funct5 names, LR and SC aside.
unfoldable pub amo_of : ℕ → Option AmoOp
amo_of funct5 =
    if funct5 == 0b00001
    then some Atomic.swap
    else if funct5 == 0b00000
    then some Atomic.add
    else if funct5 == 0b00100
    then some Atomic.xor
    else if funct5 == 0b01000
    then some Atomic.or
    else if funct5 == 0b01100
    then some Atomic.and
    else if funct5 == 0b10000
    then some Atomic.min
    else if funct5 == 0b10100
    then some Atomic.max
    else if funct5 == 0b11000
    then some Atomic.minu
    else if funct5 == 0b11100
    then some Atomic.maxu
    else none

-- `self.reservation == Some(granule)`.
unfoldable pub reserved : Option ℕ → ℕ → Bool
reserved none granule = false
reserved (some held) granule = held == granule

module _ (bus : Bus) (pc insn_raw : ℕ) where
  unfoldable pub load_reserved : ℕ → ℕ → ℕ → Bool → Exec bus (Unit {0})
  load_reserved rd addr pa is_word = bind bus (read bus pa (if is_word then 4 else 8) pc) (λ v.
      bind bus (modify bus (λ c. write_reg c rd (if is_word then extend32 v else v)))
        (λ _. modify bus (λ c. record c { reservation = some (reservation_granule addr) })))

  -- SC under a reservation.
  unfoldable pub conditional_write : ℕ → ℕ → ℕ → ℕ → Exec bus (Unit {0})
  conditional_write rd pa size val = bind bus (write bus pa size val pc) (λ _.
      bind bus (modify bus (λ d. write_reg d rd 0))
        (λ _. modify bus (λ d. record d { reservation = none })))

  unfoldable pub store_conditional : ℕ → ℕ → ℕ → ℕ → Bool → Exec bus (Unit {0})
  store_conditional rd rs2 addr pa is_word c m =
      if not (addr % (if is_word then 4 else 8) == 0)
      then raise bus (store_address_misaligned addr) pc c m
      else if reserved c.reservation (reservation_granule addr)
      then conditional_write rd pa (if is_word then 4 else 8)
          (if is_word then low32 (read_reg c rs2) else read_reg c rs2) c m
      else modify bus (λ d. write_reg d rd 1) c m

  unfoldable pub amo : AmoOp → ℕ → ℕ → ℕ → ℕ → Bool → Exec bus (Unit {0})
  amo op rd rs2 addr pa is_word c m =
      let c' = clear_reservation_if_conflict c addr in
      let (m', r) = atomic bus op pa (read_reg c' rs2) is_word m in
      bind bus (or_trap bus r pc) (λ old. modify bus (λ d. write_reg d rd old)) c' m'

  unfoldable pub amo_named : Option AmoOp → ℕ → ℕ → ℕ → ℕ → Bool → Exec bus (Unit {0})
  amo_named none rd rs2 addr pa is_word = raise bus (illegal_instruction insn_raw) pc
  amo_named (some op) rd rs2 addr pa is_word = amo op rd rs2 addr pa is_word

  -- The match on funct5.
  unfoldable pub atomic_of : ℕ → ℕ → ℕ → ℕ → ℕ → Bool → Exec bus (Unit {0})
  atomic_of funct5 rd rs2 addr pa is_word =
      if funct5 == 0b00010
      then load_reserved rd addr pa is_word
      else if funct5 == 0b00011
      then store_conditional rd rs2 addr pa is_word
      else amo_named (amo_of funct5) rd rs2 addr pa is_word

  -- `Op::Amo`: the address is translated as a load's for all of them.
  unfoldable pub execute_amo : ℕ → ℕ → ℕ → ℕ → ℕ → Exec bus (Unit {0})
  execute_amo rd rs1 rs2 funct3 funct5 = bind bus (reg bus rs1) (λ addr.
      bind bus (translate_addr bus addr Tlb.load pc) (λ pa.
        if funct3 == 2
        then atomic_of funct5 rd rs2 addr pa true
        else if funct3 == 3
        then atomic_of funct5 rd rs2 addr pa false
        else raise bus (illegal_instruction insn_raw) pc))
