-- ===== src/Cpu/Trap.antt =====
-- riscv-vm/src/cpu/core.rs: trap entry and the choice of the interrupt to take; execution.rs: MRET
-- and SRET.
pub mod Fields
pub mod Mstatus
pub mod Entry
pub mod Return
pub mod Priority
pub mod Taken
mod Tests
use bavy.Prelude.{
  ℕ, ◌+◌, ◌-◌, ◌*◌, ◌^◌, ◌%◌, bit_and, bit_or, Bool, true, false, not, Option, none, some, ◌==◌,
  if◌then◌else◌, Result, ok, err,
}
use bavy.Prelude.Bits.{◌>>>◌, ◌<<<◌, complement}
use bavy.Cpu.Types
use bavy.Cpu.Types.{Mode, user, supervisor, machine, Trap, to_mpp, from_mpp}
use bavy.Cpu.Csr.{CsrFile, csr, set_csr, csr_mstatus, csr_mie, csr_mip, sie_mask}
use bavy.Cpu.State.{
  Cpu, csr_medeleg, csr_mideleg, csr_mtvec, csr_mepc, csr_mcause, csr_mtval, csr_stvec, csr_sepc,
  csr_scause, csr_stval,
}

-- (is_interrupt, cause, tval)
unfoldable pub trap_to_cause_tval : Trap → Option (Bool × ℕ × ℕ)
trap_to_cause_tval (Types.instruction_address_misaligned addr) = some (false, 0, addr)
trap_to_cause_tval (Types.instruction_access_fault addr) = some (false, 1, addr)
trap_to_cause_tval (Types.illegal_instruction bits) = some (false, 2, bits)
trap_to_cause_tval Types.breakpoint = some (false, 3, 0)
trap_to_cause_tval (Types.load_address_misaligned addr) = some (false, 4, addr)
trap_to_cause_tval (Types.load_access_fault addr) = some (false, 5, addr)
trap_to_cause_tval (Types.store_address_misaligned addr) = some (false, 6, addr)
trap_to_cause_tval (Types.store_access_fault addr) = some (false, 7, addr)
trap_to_cause_tval Types.environment_call_from_u = some (false, 8, 0)
trap_to_cause_tval Types.environment_call_from_s = some (false, 9, 0)
trap_to_cause_tval Types.environment_call_from_m = some (false, 11, 0)
trap_to_cause_tval (Types.instruction_page_fault addr) = some (false, 12, addr)
trap_to_cause_tval (Types.load_page_fault addr) = some (false, 13, addr)
trap_to_cause_tval (Types.store_page_fault addr) = some (false, 15, addr)
trap_to_cause_tval Types.supervisor_software_interrupt = some (true, 1, 0)
trap_to_cause_tval Types.machine_software_interrupt = some (true, 3, 0)
trap_to_cause_tval Types.supervisor_timer_interrupt = some (true, 5, 0)
trap_to_cause_tval Types.machine_timer_interrupt = some (true, 7, 0)
trap_to_cause_tval Types.supervisor_external_interrupt = some (true, 9, 0)
trap_to_cause_tval Types.machine_external_interrupt = some (true, 11, 0)
trap_to_cause_tval Types.wfi = none
trap_to_cause_tval (Types.requested_trap code) = none
trap_to_cause_tval (Types.fatal message) = none

-- Whether the trap goes to the supervisor.
unfoldable pub deleg_to_s : Cpu → Bool → ℕ → Bool
deleg_to_s c is_interrupt cause = elim c.mode [
  | machine ↦ false
  | supervisor ↦
      not (
        bit_and (csr c.csrs (if is_interrupt then csr_mideleg else csr_medeleg)) (1 <<< cause) == 0)
  | user ↦
      not (
        bit_and (csr c.csrs (if is_interrupt then csr_mideleg else csr_medeleg)) (1 <<< cause) == 0)
]

-- The register that names the cause.
unfoldable pub cause_val : Bool → ℕ → ℕ
cause_val is_interrupt cause =
    bit_or ((if is_interrupt then 1 else 0) <<< 63) (bit_and cause 0x7FFFFFFFFFFFFFFF)

-- `(m & !(mask << at)) | (v << at)`.
unfoldable pub set_field : ℕ → ℕ → ℕ → ℕ → ℕ
set_field m mask at v = bit_or (bit_and m (complement 64 (mask <<< at))) (v <<< at)

-- The handler's address, from stvec or mtvec.
unfoldable pub target_pc : ℕ → Bool → ℕ → ℕ
target_pc tvec is_interrupt cause =
    let base = bit_and tvec (complement 64 0b11) in
    let mode = bit_and tvec 0b11 in
    let vectored = mode == 1 in
    if is_interrupt then if vectored then (base + 4 * cause) % 2 ^ 64 else base else base

unfoldable pub supervisor_mstatus : ℕ → Mode → ℕ
supervisor_mstatus mstatus mode =
    let sie = bit_and (mstatus >>> 1) 1 in
    let mstatus = set_field mstatus 1 5 sie in
    let mstatus = bit_and mstatus (complement 64 (1 <<< 1)) in
    let spp : ℕ = elim mode [ supervisor ↦ 1 | user ↦ 0 | machine ↦ 0 ] in set_field mstatus 1 8 spp

unfoldable pub enter_supervisor : Cpu → Bool → ℕ → ℕ → ℕ → Cpu
enter_supervisor c is_interrupt cause tval pc =
    let csrs = set_csr c.csrs csr_sepc pc in
    let csrs = set_csr csrs csr_stval tval in
    let csrs = set_csr csrs csr_scause (cause_val is_interrupt cause) in
    let csrs = set_csr csrs csr_mstatus (supervisor_mstatus (csr csrs csr_mstatus) c.mode) in
    record c {
      csrs = csrs;
      mode = supervisor;
      pc = target_pc (csr csrs csr_stvec) is_interrupt cause;
    }

unfoldable pub machine_mstatus : ℕ → Mode → ℕ
machine_mstatus mstatus mode =
    let mie = bit_and (mstatus >>> 3) 1 in
    let mstatus = set_field mstatus 1 7 mie in
    let mstatus = bit_and mstatus (complement 64 (1 <<< 3)) in
    set_field mstatus 0b11 11 (to_mpp mode)

unfoldable pub enter_machine : Cpu → Bool → ℕ → ℕ → ℕ → Cpu
enter_machine c is_interrupt cause tval pc =
    let csrs = set_csr c.csrs csr_mepc pc in
    let csrs = set_csr csrs csr_mtval tval in
    let csrs = set_csr csrs csr_mcause (cause_val is_interrupt cause) in
    let csrs = set_csr csrs csr_mstatus (machine_mstatus (csr csrs csr_mstatus) c.mode) in
    record c { csrs = csrs; mode = machine; pc = target_pc (csr csrs csr_mtvec) is_interrupt cause }

-- The state that `handle_trap` leaves; what it returns is always the trap.
unfoldable pub handle_trap : Cpu → Trap → ℕ → Cpu
handle_trap c trap pc = elim (trap_to_cause_tval trap) [
  | none ↦ c
  | some (is_interrupt, cause, tval) ↦
      (if deleg_to_s c is_interrupt cause
        then enter_supervisor c is_interrupt cause tval pc
        else enter_machine c is_interrupt cause tval pc)
]

unfoldable pub m_enabled : Cpu → Bool
m_enabled c = elim c.mode [
  | machine ↦ bit_and (csr c.csrs csr_mstatus >>> 3) 1 == 1
  | supervisor ↦ true
  | user ↦ true
]

unfoldable pub s_enabled : Cpu → Bool
s_enabled c = elim c.mode [
  | machine ↦ false
  | supervisor ↦ bit_and (csr c.csrs csr_mstatus >>> 1) 1 == 1
  | user ↦ true
]

unfoldable pub m_pending : Cpu → ℕ
m_pending c =
    bit_and (bit_and (csr c.csrs csr_mip) (csr c.csrs csr_mie))
      (complement 64 (csr c.csrs csr_mideleg))

unfoldable pub s_pending : Cpu → ℕ
s_pending c =
    let sie = bit_and (csr c.csrs csr_mie) sie_mask in
    bit_and (bit_and (csr c.csrs csr_mip) sie) (csr c.csrs csr_mideleg)

unfoldable pub check_pending_interrupt : Cpu → Option Trap
check_pending_interrupt c =
    let s_interrupt : Option Trap =
      if s_enabled c
      then if not (bit_and (s_pending c) (1 <<< 9) == 0)
        then some Types.supervisor_external_interrupt
        else if not (bit_and (s_pending c) (1 <<< 1) == 0)
        then some Types.supervisor_software_interrupt
        else if not (bit_and (s_pending c) (1 <<< 5) == 0)
        then some Types.supervisor_timer_interrupt
        else none
      else none in
    if m_enabled c
    then if not (bit_and (m_pending c) (1 <<< 11) == 0)
      then some Types.machine_external_interrupt
      else if not (bit_and (m_pending c) (1 <<< 3) == 0)
      then some Types.machine_software_interrupt
      else if not (bit_and (m_pending c) (1 <<< 7) == 0)
      then some Types.machine_timer_interrupt
      else s_interrupt
    else s_interrupt

unfoldable pub mret_mstatus : ℕ → ℕ
mret_mstatus mstatus =
    let mpie = bit_and (mstatus >>> 7) 1 in
    let mstatus = set_field mstatus 1 3 mpie in
    let mstatus = bit_or mstatus (1 <<< 7) in bit_and mstatus (complement 64 (0b11 <<< 11))

-- MRET in machine mode: the state afterwards, with `next_pc`.
unfoldable pub mret : Cpu → Cpu
mret c =
    let mstatus = csr c.csrs csr_mstatus in
    let mepc = csr c.csrs csr_mepc in
    let mpp_bits = bit_and (mstatus >>> 11) 0b11 in
    record c {
      csrs = set_csr c.csrs csr_mstatus (mret_mstatus mstatus);
      mode = from_mpp mpp_bits;
      pc = mepc;
    }

unfoldable pub sret_mstatus : ℕ → ℕ
sret_mstatus mstatus =
    let spie = bit_and (mstatus >>> 5) 1 in
    let mstatus = set_field mstatus 1 1 spie in
    let mstatus = bit_or mstatus (1 <<< 5) in bit_and mstatus (complement 64 (1 <<< 8))

-- SRET in supervisor mode.
unfoldable pub sret : Cpu → Cpu
sret c =
    let mstatus = csr c.csrs csr_mstatus in
    let sepc = csr c.csrs csr_sepc in
    let spp = bit_and (mstatus >>> 8) 1 in
    record c {
      csrs = set_csr c.csrs csr_mstatus (sret_mstatus mstatus);
      mode = if spp == 0 then user else supervisor;
      pc = sepc;
    }
