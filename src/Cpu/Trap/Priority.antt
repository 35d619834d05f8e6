-- ===== src/Cpu/Trap/Priority.antt =====
-- riscv-vm/src/cpu/core.rs: `check_pending_interrupt` takes the first interrupt of the
-- architecture's order that may be taken, and an interrupt entered is not entered again at once.
use bavy.Prelude.{
  ℕ, ◌^◌, ◌<◌, ◌≡◌, refl, arith, Bool, true, false, not, ◌&&◌, Option, some, none, ◌==◌,
  if◌then◌else◌, bit_and, List, [], ◌∷◌,
}
use bavy.Prelude.Bits.{
  bit, complement, bit_shr_test, bit_and-pow_test, bit-bit_and, bit-complement, bit-lt,
}
use bavy.Cpu.Types
use bavy.Cpu.Types.{Mode, user, supervisor, machine, Trap}
use bavy.Cpu.Csr.{csr, csr_mstatus, csr_mie, csr_mip, sie_mask}
use bavy.Cpu.State.{Cpu, csr_mideleg}
use bavy.Cpu.Trap.{check_pending_interrupt, m_enabled, s_enabled, m_pending, s_pending}

-- An interrupt: the level that takes it, its line in mip and mie, and the trap.
pub record Interrupt : Type 0 where
  pub level : Mode
  pub line : ℕ
  pub trap : Trap

-- MEI, MSI, MTI, SEI, SSI, STI.
abbrev pub by_priority : List Interrupt
by_priority =
    record { level = machine; line = 11; trap = Types.machine_external_interrupt }
    ∷ record { level = machine; line = 3; trap = Types.machine_software_interrupt }
    ∷ record { level = machine; line = 7; trap = Types.machine_timer_interrupt }
    ∷ record { level = supervisor; line = 9; trap = Types.supervisor_external_interrupt }
    ∷ record { level = supervisor; line = 1; trap = Types.supervisor_software_interrupt }
    ∷ record { level = supervisor; line = 5; trap = Types.supervisor_timer_interrupt }
    ∷ []

-- Whether a level's interrupts are let through: from a lower mode always, in the level's own mode
-- by its enable bit, from a higher mode never.
abbrev open_to : Mode → Mode → ℕ → Bool
open_to machine machine mstatus = bit mstatus 3 == 1
open_to machine supervisor mstatus = true
open_to machine user mstatus = true
open_to supervisor machine mstatus = false
open_to supervisor supervisor mstatus = bit mstatus 1 == 1
open_to supervisor user mstatus = true
open_to user mode mstatus = false

-- The bit of mideleg for the level.
abbrev delegation : Mode → ℕ
delegation machine = 0
delegation supervisor = 1
delegation user = 1

-- Pending, enabled and sent to a level by mideleg.
unfoldable pub wanted : Cpu → ℕ → ℕ → Bool
wanted c line delegated =
    (bit (csr c.csrs csr_mip) line == 1)
    && (bit (csr c.csrs csr_mie) line == 1)
    && (bit (csr c.csrs csr_mideleg) line == delegated)

-- Wanted at its level, and its level open.
unfoldable pub may_take : Cpu → Interrupt → Bool
may_take c i =
    wanted c i.line (delegation i.level) && open_to i.level c.mode (csr c.csrs csr_mstatus)

abbrev pub first_that : (Interrupt → Bool) → List Interrupt → Option Trap
first_that test [] = none
first_that test (i ∷ rest) =
    let later = first_that test rest in if test i then some i.trap else later

m_pending_test :
    (c : Cpu) (k : ℕ)
    → csr c.csrs csr_mideleg < 2 ^ 64
    → k < 64
    → (bit_and (m_pending c) (2 ^ k) == 0) ≡ not (wanted c k 0)
unfolding m_pending wanted
m_pending_test c k h inside =
    let both = bit_and (csr c.csrs csr_mip) (csr c.csrs csr_mie) in
    let off = complement 64 (csr c.csrs csr_mideleg) in
    rw (bit_and-pow_test (bit_and both off) k) (
      ground (
        arith,
        bit-bit_and both off k,
        bit-bit_and (csr c.csrs csr_mip) (csr c.csrs csr_mie) k,
        bit-complement 64 (csr c.csrs csr_mideleg) k h,
        bit-lt (csr c.csrs csr_mip) k,
        bit-lt (csr c.csrs csr_mie) k,
        bit-lt (csr c.csrs csr_mideleg) k,
      ))

s_pending_test :
    (c : Cpu) (k : ℕ)
    → bit sie_mask k ≡ 1
    → (bit_and (s_pending c) (2 ^ k) == 0) ≡ not (wanted c k 1)
unfolding s_pending wanted
s_pending_test c k shown =
    let sie = bit_and (csr c.csrs csr_mie) sie_mask in
    let both = bit_and (csr c.csrs csr_mip) sie in
    rw (bit_and-pow_test (bit_and both (csr c.csrs csr_mideleg)) k) (
      ground (
        arith,
        bit-bit_and both (csr c.csrs csr_mideleg) k,
        bit-bit_and (csr c.csrs csr_mip) sie k,
        bit-bit_and (csr c.csrs csr_mie) sie_mask k,
        bit-lt (csr c.csrs csr_mip) k,
        bit-lt (csr c.csrs csr_mie) k,
        bit-lt (csr c.csrs csr_mideleg) k,
      ))

shown_1 : bit sie_mask 1 ≡ 1
unfolding bit
shown_1 = refl

shown_5 : bit sie_mask 5 ≡ 1
unfolding bit
shown_5 = refl

shown_9 : bit sie_mask 9 ≡ 1
unfolding bit
shown_9 = refl

-- With mideleg a 64-bit word, the interrupt that is chosen is the first of the architecture's
-- priority order, the machine's before the supervisor's, that is pending in mip, enabled in mie, sent to
-- its level by mideleg, and whose level is open from the current mode; none is chosen when there
-- is no such interrupt.
pub check_pending_interrupt_lem :
    (c : Cpu)
    → csr c.csrs csr_mideleg < 2 ^ 64
    → check_pending_interrupt c ≡ first_that (may_take c) by_priority
unfolding check_pending_interrupt may_take m_enabled s_enabled
check_pending_interrupt_lem c h = ground (
  arith,
  bit_shr_test (csr c.csrs csr_mstatus) 3,
  bit_shr_test (csr c.csrs csr_mstatus) 1,
  m_pending_test c 11 h (omega arith),
  m_pending_test c 3 h (omega arith),
  m_pending_test c 7 h (omega arith),
  s_pending_test c 9 shown_9,
  s_pending_test c 1 shown_1,
  s_pending_test c 5 shown_5,
)
