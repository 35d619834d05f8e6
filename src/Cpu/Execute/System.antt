-- ===== src/Cpu/Execute/System.antt =====
-- riscv-vm/src/cpu/execution.rs: the SYSTEM instructions. The call into the SBI is a parameter.
use bavy.Prelude.{
  ℕ, ◌+◌, bit_and, bit_or, ◌==◌, ltb, if◌then◌else◌, Option, none, some, Bool, true, false, Result,
  ok, err,
}
use bavy.Prelude.Bits.{complement}
use bavy.Cpu.Types
use bavy.Cpu.Types.{Mode, user, supervisor, machine, Trap}
use bavy.Cpu.State.{
  Cpu, write_reg, read_reg, read_csr, write_csr, invalidate_decode_cache, csr_time, csr_satp,
}
use bavy.Cpu.Trap.{mret, sret}
use bavy.Bus.{Bus}
use bavy.Mmu.Tlb
use bavy.Clint.Mmio.{mtime_offset}
use bavy.Cpu.Execute.Monad.{Exec, pure, bind, raise, modify, or_trap}

abbrev pub clint_base : ℕ
clint_base = 0x02000000

-- `read_csr` and `write_csr` at an address of 12 bits, where the index does not panic.
unfoldable pub csr_value : Cpu → ℕ → Result ℕ Trap
csr_value c addr = elim (read_csr c addr) [
  | some r ↦ r
  | none ↦ err (Types.illegal_instruction addr)
]

unfoldable pub csr_written : Cpu → ℕ → ℕ → Cpu × Result (Unit {0}) Trap
csr_written c addr val = elim (write_csr c addr val) [
  | some r ↦ r
  | none ↦ (c, err (Types.illegal_instruction addr))
]

-- `write_new`: what CSRRW, CSRRS, CSRRC and their immediate forms write; `rs1` is the register's
-- number, and the immediate.
unfoldable pub write_new : Cpu → ℕ → ℕ → ℕ → Option ℕ
write_new c funct3 rs1 old =
    let rs1_val = read_reg c rs1 in
    if funct3 == 1
    then some rs1_val
    else if funct3 == 2
    then if rs1 == 0 then none else some (bit_or old rs1_val)
    else if funct3 == 3
    then if rs1 == 0 then none else some (bit_and old (complement 64 rs1_val))
    else if funct3 == 5
    then some rs1
    else if funct3 == 6
    then if rs1 == 0 then none else some (bit_or old rs1)
    else if funct3 == 7
    then if rs1 == 0 then none else some (bit_and old (complement 64 rs1))
    else none

unfoldable pub ecall_trap : Mode → Trap
ecall_trap user = Types.environment_call_from_u
ecall_trap supervisor = Types.environment_call_from_s
ecall_trap machine = Types.environment_call_from_m

abbrev is_mode : Mode → Mode → Bool
is_mode user user = true
is_mode supervisor supervisor = true
is_mode machine machine = true
is_mode m n = false

module _ (bus : Bus) (pc insn_raw next_pc : ℕ) where
  abbrev pub illegal : {A : Type 0} → Exec bus A
  illegal = raise bus (Types.illegal_instruction insn_raw) pc

  unfoldable pub csr_read : ℕ → Exec bus ℕ
  csr_read csr_addr c m =
      let (m', time) = bus.load m (clint_base + mtime_offset) 8 in
      if csr_addr == csr_time
      then (c, m', ok (elim time [ ok v ↦ v | err _ ↦ 0 ]))
      else or_trap bus (csr_value c csr_addr) pc c m

  unfoldable pub csr_write : ℕ → ℕ → Exec bus (Unit {0})
  csr_write csr_addr new_val c m =
      let (c', r) = csr_written c csr_addr new_val in
      bind bus (or_trap bus r pc)
        (λ _. modify bus (λ d.
          if csr_addr == csr_satp
          then invalidate_decode_cache (record d { tlb = Tlb.flush d.tlb })
          else d))
        c' m

  unfoldable pub csr_update : ℕ → Option ℕ → Exec bus (Unit {0})
  csr_update csr_addr none = pure bus tt
  csr_update csr_addr (some new_val) = csr_write csr_addr new_val

  -- CSRRW, CSRRS, CSRRC, CSRRWI, CSRRSI and CSRRCI.
  unfoldable pub execute_csr : ℕ → ℕ → ℕ → ℕ → Exec bus (Unit {0})
  execute_csr rd rs1 funct3 imm =
      let csr_addr = bit_and imm 0xFFF in
      bind bus (csr_read csr_addr) (λ old.
        bind bus (λ c. csr_update csr_addr (write_new c funct3 rs1 old) c)
          (λ _. modify bus (λ c. if rd == 0 then c else write_reg c rd old)))

  -- ECALL: the SBI is asked first in supervisor mode; it says whether it has handled the call.
  unfoldable pub execute_ecall : (Cpu → bus.State → Cpu × bus.State × Bool) → Exec bus ℕ
  execute_ecall handle_sbi_call c m =
      let (c', m', handled) = handle_sbi_call c m in
      if is_mode c.mode supervisor
      then if handled then (c', m', ok next_pc) else raise bus (ecall_trap c'.mode) pc c' m'
      else raise bus (ecall_trap c.mode) pc c m

  unfoldable pub execute_mret : Exec bus ℕ
  execute_mret c m = if is_mode c.mode machine then (mret c, m, ok ((mret c).pc)) else illegal c m

  unfoldable pub execute_sret : Exec bus ℕ
  execute_sret c m =
      if is_mode c.mode supervisor then (sret c, m, ok ((sret c).pc)) else illegal c m

  unfoldable pub execute_sfence : Exec bus ℕ
  execute_sfence c m =
      if is_mode c.mode user
      then illegal c m
      else (invalidate_decode_cache (record c { tlb = Tlb.flush c.tlb }), m, ok next_pc)

  -- funct3 = 0, by the whole word.
  unfoldable pub execute_privileged : (Cpu → bus.State → Cpu × bus.State × Bool) → Exec bus ℕ
  execute_privileged handle_sbi_call =
      if bit_and insn_raw 0b11111110000000000111000001111111 == 0x12000073
      then execute_sfence
      else if insn_raw == 0x00100073
      then raise bus Types.breakpoint pc
      else if insn_raw == 0x10500073
      then raise bus Types.wfi pc
      else if insn_raw == 0x00000073
      then execute_ecall handle_sbi_call
      else if insn_raw == 0x30200073
      then execute_mret
      else if insn_raw == 0x10200073
      then execute_sret
      else illegal

  -- `Op::System`; the value is the next pc.
  unfoldable pub execute_system :
      (Cpu → bus.State → Cpu × bus.State × Bool) → ℕ → ℕ → ℕ → ℕ → Exec bus ℕ
  execute_system handle_sbi_call rd rs1 funct3 imm =
      if funct3 == 0
      then execute_privileged handle_sbi_call
      else if funct3 == 4
      then illegal
      else if ltb funct3 8
      then bind bus (execute_csr rd rs1 funct3 imm) (λ _. pure bus next_pc)
      else illegal
