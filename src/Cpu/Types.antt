-- ===== src/Cpu/Types.antt =====
-- riscv-vm/src/cpu/types.rs: privilege modes, their encodings, and the traps.
use Prim.Native.String.{String}
use bavy.Prelude.{ℕ, bit_and, ◌==◌, if◌then◌else◌}

pub data Mode : Type 0 where
  user supervisor machine : Mode

-- Numeric privilege level used in CSR access bounds checks.
unfoldable pub privilege_level : Mode → ℕ
privilege_level user = 0
privilege_level supervisor = 1
privilege_level machine = 3

-- The MPP/SPP field encoding.
unfoldable pub to_mpp : Mode → ℕ
to_mpp user = 0b00
to_mpp supervisor = 0b01
to_mpp machine = 0b11

unfoldable pub from_mpp : ℕ → Mode
from_mpp bits =
    let field = bit_and bits 0b11 in
    if field == 0b00 then user else if field == 0b01 then supervisor else machine

pub data Trap : Type 0 where
  instruction_address_misaligned : ℕ → Trap
  instruction_access_fault : ℕ → Trap
  illegal_instruction : ℕ → Trap
  breakpoint : Trap
  load_address_misaligned : ℕ → Trap
  load_access_fault : ℕ → Trap
  store_address_misaligned : ℕ → Trap
  store_access_fault : ℕ → Trap
  environment_call_from_u : Trap
  environment_call_from_s : Trap
  environment_call_from_m : Trap
  instruction_page_fault : ℕ → Trap
  load_page_fault : ℕ → Trap
  store_page_fault : ℕ → Trap
  machine_software_interrupt : Trap
  machine_timer_interrupt : Trap
  machine_external_interrupt : Trap
  supervisor_software_interrupt : Trap
  supervisor_timer_interrupt : Trap
  supervisor_external_interrupt : Trap
  wfi : Trap
  requested_trap : ℕ → Trap
  fatal : String → Trap
